-- ===== src/Indexer/Indexes.antt =====
-- About `index`: every span is what its file holds, under its own digest.
use mathlib.Core.List.{map-append, append-nil}
use codetrail.Prelude.{
  false, ◌≢◌, ◌⊎◌, eqb_iff, true, ◌≡◌, refl, sym, ap, ◌∙◌, inl, inr, arith, Option, none, some,
  List, [], ◌∷◌, ◌++◌, map, length, Bytes, Result, ok, err, All, Any, Bool-cases,
}
use codetrail.Chunk.Defs.{Chunk, validate, split_lines, text_of, has_tokens}
use codetrail.Chunk.Strip.{StripError, strip_docs}
use codetrail.Chunk.Exact.{ParsesInFile, chunks-Kept}
use codetrail.Chunk.Tiling.{IsExact}
use codetrail.Indexer.Vectors.{EmbeddedSpan}
use codetrail.Indexer.Index.{
  stripped_or_not, has_zero, WalkFile, read_body, Tree, file_id, indexable, IndexError,
  index_cancelled, reading_failed, index_panic, chunking_failed, Indexed, new_row, span_of,
  count_parsed, source_of, add_source, add_file,
}

module _ (C : Type 0) (t : Tree) (repo_id : Bytes) where
  -- A span of a file that was read: the lines that it names are its text, which has a letter or digit.
  pub record FromFile (f : WalkFile) (s : EmbeddedSpan C) : Type 0 where
    pub body : Bytes
    pub source : Bytes
    pub was_read : t.read f.path ≡ read_body body
    pub cut_from :
        ((t.strip ≡ false) × (source ≡ body))
        ⊎ ((t.strip ≡ true) × (strip_docs t.doc_parser f.path body ≡ ok source))
    pub is_text : (f.lang ≢ []) × (t.utf8_valid body ≡ true) × All (λ c. c ≢ 0) body
    pub same_path : s.span.path ≡ f.path
    pub same_file : s.span.file_id ≡ file_id t repo_id f.path
    pub own_lines :
        text_of (split_lines t.unicode source) s.span.start_line s.span.end_line ≡ some s.span.text
    pub own_digest : s.span.digest ≡ t.digest s.span.text
    pub wordy : has_tokens t.unicode s.span.text ≡ true
    pub no_vector : s.embedding ≡ []

  source_of-cut :
      (f : WalkFile) (body source : Bytes)
      → source_of t f body ≡ some source
      → ((t.strip ≡ false) × (source ≡ body))
        ⊎ ((t.strip ≡ true) × (strip_docs t.doc_parser f.path body ≡ ok source))
  unfolding source_of
  source_of-cut f body source e = elim (Bool-cases t.strip) [
    | inl on ↦ inr (on, stripped (strip_docs t.doc_parser f.path body) (rw on at e))
    | inr off ↦ let q : some body ≡ some source = rw off at e in inl (off, cc)
  ]
    where
      stripped : (x : Result StripError Bytes) → stripped_or_not x ≡ some source → x ≡ ok source
      stripped (ok src) q = cc
      stripped (err x) q = cc

  no_zero : (s : Bytes) → has_zero s ≡ false → All (λ c. c ≢ 0) s
  unfolding has_zero
  no_zero [] h = tt
  no_zero (c ∷ s) h = (λ e. ground arith, no_zero s (ground arith))

  indexable-text :
      (f : WalkFile) (body : Bytes)
      → indexable t f body ≡ true
      → (f.lang ≢ []) × (t.utf8_valid body ≡ true) × All (λ c. c ≢ 0) body
  unfolding indexable
  indexable-text f body h =
      (λ e. ground (arith, eqb_iff f.lang []), ground arith, no_zero body (ground arith))

  abbrev pub OfFiles : List WalkFile → EmbeddedSpan C → Type 0
  OfFiles fs s = Any (λ f. FromFile f s) fs

  -- What `add_file` does to the variables.
  pub record Added (f : WalkFile) (a b : Indexed C) : Type 0 where
    pub more : List (EmbeddedSpan C)
    pub grown : b.spans ≡ a.spans ++ more
    pub from_file : All (FromFile f) more
    pub one_row : map (λ r. r.path) b.rows ≡ map (λ r. r.path) a.rows ++ f.path ∷ []

  abbrev pub AddOutcome : WalkFile → Indexed C → Result IndexError (Indexed C) → Type 0
  AddOutcome f a (ok b) = Added f a b
  AddOutcome f a (err index_cancelled) = Unit
  AddOutcome f a (err reading_failed) = Unit
  AddOutcome f a (err index_panic) = ⊥
  AddOutcome f a (err (chunking_failed e)) = ⊥

  -- The same of what follows once the row is there.
  record Extended (f : WalkFile) (a b : Indexed C) : Type 0 where
    more : List (EmbeddedSpan C)
    grown : b.spans ≡ a.spans ++ more
    from_file : All (FromFile f) more
    same_rows : b.rows ≡ a.rows

  abbrev ExtendOutcome : WalkFile → Indexed C → Result IndexError (Indexed C) → Type 0
  ExtendOutcome f a (ok b) = Extended f a b
  ExtendOutcome f a (err index_cancelled) = Unit
  ExtendOutcome f a (err reading_failed) = Unit
  ExtendOutcome f a (err index_panic) = ⊥
  ExtendOutcome f a (err (chunking_failed e)) = ⊥

  -- A row was added, a file may have been counted, and then its spans were.
  lift :
      (f : WalkFile) (a b c : Indexed C) (x : Result IndexError (Indexed C))
      → c.spans ≡ b.spans
      → c.rows ≡ b.rows
      → b.spans ≡ a.spans
      → map (λ r. r.path) b.rows ≡ map (λ r. r.path) a.rows ++ f.path ∷ []
      → ExtendOutcome f c x
      → AddOutcome f a x
  lift f a b c (ok d) spans rows own row e = record {
    more = e.more;
    grown = e.grown ∙ ap (λ l. l ++ e.more) (spans ∙ own);
    from_file = e.from_file;
    one_row = ap (map (λ r. r.path)) (e.same_rows ∙ rows) ∙ row;
  }
  lift f a b c (err index_cancelled) spans rows own row e = tt
  lift f a b c (err reading_failed) spans rows own row e = tt
  lift f a b c (err index_panic) spans rows own row e = e
  lift f a b c (err (chunking_failed x)) spans rows own row e = e

  module _ (valid : validate t.options ≡ ok tt)
      (parses : (name src : Bytes)
        → ParsesInFile (length (split_lines t.unicode src)) (t.parser name src))
      (f : WalkFile) (body : Bytes) (read : t.read f.path ≡ read_body body) where
    spans_from :
        (src : Bytes)
        → source_of t f body ≡ some src
        → (cs : List Chunk)
        → All
            (λ c.
              IsExact (split_lines t.unicode src) 1 (length (split_lines t.unicode src)) c
              × (has_tokens t.unicode c.text ≡ true))
            cs
        → indexable t f body ≡ true
        → All (FromFile f) (map (span_of t repo_id f) cs)
    spans_from src e [] h used = tt
    spans_from src e (c ∷ cs) h used = (
      record {
        body = body;
        source = src;
        was_read = read;
        cut_from = source_of-cut f body src e;
        is_text = indexable-text f body used;
        same_path = refl;
        same_file = refl;
        own_lines = h.0.0.text_lines;
        own_digest = refl;
        wordy = h.0.1;
        no_vector = refl;
      },
      spans_from src e cs h.1 used,
    )

    add_source-Extended :
        (a : Indexed C) (o : Option Bytes)
        → source_of t f body ≡ o
        → indexable t f body ≡ true
        → ExtendOutcome f a (add_source t repo_id f a o)
    add_source-Extended a none e used = record {
      more = [];
      grown = sym (append-nil a.spans);
      from_file = tt;
      same_rows = refl;
    }
    add_source-Extended a (some src) e used =
        let (r, ran, (kept, dropped, found, all)) =
          chunks-Kept t.unicode t.parser f.path src t.options valid (parses f.path src) in
        rw (ran, found)
          (record {
            more = map (span_of t repo_id f) kept;
            grown = refl;
            from_file = spans_from src e kept all used;
            same_rows = refl;
          })

    count_parsed_same :
        (a : Indexed C)
        → ((count_parsed t repo_id f body a).spans ≡ a.spans)
          × ((count_parsed t repo_id f body a).rows ≡ a.rows)
    count_parsed_same a = (ground arith, ground arith)

    pub add_file-Added : (a : Indexed C) → AddOutcome f a (add_file t repo_id f a (read_body body))
    add_file-Added a = elim (Bool-cases (indexable t f body)) [
      | inr skipped ↦ rw skipped (record {
        more = [];
        grown = sym (append-nil a.spans);
        from_file = tt;
        one_row = map-append (λ r. r.path) a.rows _;
      })
      | inl used ↦ rw used (counted used a)
    ]
      where
        counted :
            indexable t f body ≡ true
            → (a : Indexed C)
            → AddOutcome f a (
                add_source t repo_id f
                  (count_parsed t repo_id f body (record a {
                    rows = a.rows ++ record (new_row t repo_id f) { blob = t.blob_hash body } ∷ [];
                  }))
                  (source_of t f body))
        counted used a =
            let b : Indexed C = record a {
              rows = a.rows ++ record (new_row t repo_id f) { blob = t.blob_hash body } ∷ [];
            } in
            let c = count_parsed t repo_id f body b in
            let (spans, rows) = count_parsed_same b in
            lift f a b c _ spans rows refl (map-append (λ r. r.path) a.rows _)
              (add_source-Extended c (source_of t f body) refl used)
