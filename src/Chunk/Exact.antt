-- ===== src/Chunk/Exact.antt =====
-- `Chunks` as a whole: what it keeps is exact, and what it leaves out is said.
use codetrail.Prelude.{
  ℕ, ◌+◌, ◌-◌, ◌≤◌, ◌≡◌, refl, ◌⊎◌, inl, inr, true, false, Option, none, some, List, [], ◌∷◌, ◌++◌,
  length, Bytes, codes, eqb, arith, All, Any, All-append, All-imp, Bool-cases, ok,
}
use codetrail.Prelude.Int.{pos, ltb_ℤ}
use codetrail.Prelude.Utf8.{Unicode}
use codetrail.Chunk.Defs.{
  Options, Chunk, validate, strategy_window, split_lines, text_of, with_text, windows, has_tokens,
  keep_retrievable, retrievable,
}
use codetrail.Chunk.Ast.{
  AstDecl, DeclInfo, decl, append_to, singleton, decl_chunks, decls_chunks, parsed_chunks, Parser,
  ast_chunks, has_suffix, kept_of, cut, chunks,
}
use codetrail.Chunk.Tiling.{
  IsExact, Contains, IsValid, text_of-total, validate-IsValid, windows-Tiled,
}

-- What go/parser documents of positions: a declaration lies within the lines of its file.
abbrev pub InFile : ℕ → Option DeclInfo → Type 0
InFile n none = Unit
InFile n (some d) = (1 ≤ d.start) × (d.start ≤ d.last) × (d.last ≤ n)

abbrev pub ParsesInFile : ℕ → Option (List AstDecl) → Type 0
ParsesInFile n none = Unit
ParsesInFile n (some ds) = All (λ d. InFile n (decl d)) ds

-- The code returns chunks that are all exact.
abbrev pub Exact : List Bytes → Option (List Chunk) → Type 0
Exact ls r = (cs : List Chunk) × (r ≡ some cs) × All (IsExact ls 1 (length ls)) cs

narrow :
    (ls : List Bytes) (from to : ℕ)
    → 1 ≤ from
    → to ≤ length ls
    → (c : Chunk) → IsExact ls from to c
    → IsExact ls 1 (length ls) c
narrow ls from to h k c e = record {
  from_le = omega (arith, e.from_le);
  ordered = e.ordered;
  le_to = omega (arith, e.le_to);
  text_lines = e.text_lines;
}

windows-Exact :
    (ls : List Bytes) (from to : ℕ) (o : Options) (v : IsValid o)
    → 1 ≤ from
    → to ≤ length ls
    → Exact ls (windows ls from to o)
windows-Exact ls from to o v h k =
    let (cs, e, t) = windows-Tiled ls from to o v h k in
    (
      cs,
      e,
      All-imp (IsExact ls from to) (IsExact ls 1 (length ls)) cs (narrow ls from to h k) t.exact,
    )

whole-Exact :
    (ls : List Bytes) (d : DeclInfo)
    → InFile (length ls) (some d)
    → Exact ls (singleton (with_text d.kind d.symbol d.start d.last (text_of ls d.start d.last)))
whole-Exact ls d h =
    let (t, e) = text_of-total ls d.start d.last h.0 h.1 h.2 in
    let c : Chunk = record {
      kind = d.kind;
      symbol = d.symbol;
      start_line = d.start;
      end_line = d.last;
      text = t;
    } in
    (c ∷ [], rw e, (record { from_le = h.0; ordered = h.1; le_to = h.2; text_lines = e }, tt))

decl_chunks-Exact :
    (ls : List Bytes) (o : Options) (v : IsValid o) (d : Option DeclInfo)
    → InFile (length ls) d
    → Exact ls (decl_chunks ls o d)
unfolding decl_chunks
decl_chunks-Exact ls o v none h = ([], refl, tt)
decl_chunks-Exact ls o v (some d) h =
    elim (Bool-cases (ltb_ℤ o.max_decl_lines (pos (d.last + 1 - d.start)))) [
      | inl long ↦ rw long (windows-Exact ls d.start d.last o v h.0 h.2)
      | inr short ↦ rw short (whole-Exact ls d h)
    ]

append_to-Exact :
    (ls : List Bytes) (r s : Option (List Chunk))
    → Exact ls r
    → Exact ls s
    → Exact ls (append_to r s)
append_to-Exact ls r s (cs, e, h) (ds, f, k) =
    (cs ++ ds, rw (e, f) refl, All-append (IsExact ls 1 (length ls)) cs ds h k)

decls_chunks-Exact :
    (ls : List Bytes) (o : Options) (v : IsValid o) (ds : List AstDecl)
    → All (λ d. InFile (length ls) (decl d)) ds
    → Exact ls (decls_chunks ls o ds)
unfolding decls_chunks
decls_chunks-Exact ls o v [] h = ([], refl, tt)
decls_chunks-Exact ls o v (d ∷ ds) h =
    append_to-Exact ls (decl_chunks ls o (decl d)) (decls_chunks ls o ds)
      (decl_chunks-Exact ls o v (decl d) h.0) (decls_chunks-Exact ls o v ds h.1)

parsed_chunks-Exact :
    (ls : List Bytes) (o : Options) (v : IsValid o) (p : Option (List AstDecl))
    → ParsesInFile (length ls) p
    → Exact ls (parsed_chunks ls o p)
parsed_chunks-Exact ls o v none h = windows-Exact ls 1 (length ls) o v (omega arith) (omega arith)
parsed_chunks-Exact ls o v (some ds) h = decls_chunks-Exact ls o v ds h

module _ (parse : Parser) (filename src : Bytes) (ls : List Bytes) (o : Options) (v : IsValid o)
    (h : ParsesInFile (length ls) (parse filename src)) where
  ast_chunks-Exact : Exact ls (ast_chunks parse filename src ls o)
  unfolding ast_chunks
  ast_chunks-Exact = elim (Bool-cases (has_suffix filename (codes ".go"))) [
    | inl go ↦ rw go (parsed_chunks-Exact ls o v (parse filename src) h)
    | inr other ↦ rw other (windows-Exact ls 1 (length ls) o v (omega arith) (omega arith))
  ]

-- What `retrievable` keeps has a token, and it keeps every chunk that has one, in order.
module _ (u : Unicode) where
  pub All-keep_retrievable :
      (P : Chunk → Type 0) (cs : List Chunk)
      → All P cs
      → All (λ c. P c × (has_tokens u c.text ≡ true)) (keep_retrievable u cs)
  unfolding keep_retrievable
  All-keep_retrievable P [] h = tt
  All-keep_retrievable P (c ∷ cs) h = elim (Bool-cases (has_tokens u c.text)) [
    | inl full ↦ rw full ((h.0, full), All-keep_retrievable P cs h.1)
    | inr blank ↦ rw blank (All-keep_retrievable P cs h.1)
  ]

  pub Any-keep_retrievable :
      (P : Chunk → Type 0) (cs : List Chunk)
      → Any P cs
      → Any P (keep_retrievable u cs) ⊎ Any (λ c. P c × (has_tokens u c.text ≡ false)) cs
  unfolding keep_retrievable
  Any-keep_retrievable P [] h = absurd h
  Any-keep_retrievable P (c ∷ cs) (inl h) = elim (Bool-cases (has_tokens u c.text)) [
    | inl full ↦ rw full (inl (inl h))
    | inr blank ↦ inr (inl (h, blank))
  ]
  Any-keep_retrievable P (c ∷ cs) (inr h) = elim (Any-keep_retrievable P cs h) [
    | inl kept ↦ elim (Bool-cases (has_tokens u c.text)) [
      | inl full ↦ rw full (inl (inr kept))
      | inr blank ↦ rw blank (inl kept)
    ]
    | inr lost ↦ inr (inr lost)
  ]

  length-keep_retrievable : (cs : List Chunk) → length (keep_retrievable u cs) ≤ length cs
  unfolding keep_retrievable
  length-keep_retrievable [] = omega arith
  length-keep_retrievable (c ∷ cs) = ground (arith, length-keep_retrievable cs)

-- The outcome of a run that did not panic: exact chunks with something in them, and a count.
abbrev pub Kept : Unicode → List Bytes → Option (List Chunk × ℕ) → Type 0
Kept u ls r =
    (kept : List Chunk) × (dropped : ℕ) × (r ≡ some (kept, dropped))
    × All (λ c. IsExact ls 1 (length ls) c × (has_tokens u c.text ≡ true)) kept

module _ (u : Unicode) (ls : List Bytes) where
  kept_of-Kept : (r : Option (List Chunk)) → Exact ls r → Kept u ls (kept_of u r)
  unfolding retrievable
  kept_of-Kept r (cs, e, h) = (
    keep_retrievable u cs,
    length cs - length (keep_retrievable u cs),
    rw e refl,
    All-keep_retrievable u (IsExact ls 1 (length ls)) cs h,
  )

module _ (u : Unicode) (parse : Parser) (filename src : Bytes) (o : Options) (v : IsValid o) where
  cut-Kept :
      (ls : List Bytes)
      → ParsesInFile (length ls) (parse filename src)
      → Kept u ls (cut u parse filename src ls o)
  unfolding cut
  cut-Kept [] h = ([], 0, refl, tt)
  cut-Kept (l ∷ ls) h = elim (Bool-cases (eqb o.strategy strategy_window)) [
    | inl window ↦ rw window (
        kept_of-Kept u (l ∷ ls) (windows (l ∷ ls) 1 (length (l ∷ ls)) o)
          (windows-Exact (l ∷ ls) 1 (length (l ∷ ls)) o v (omega arith) (omega arith)))
    | inr ast ↦ rw ast (
        kept_of-Kept u (l ∷ ls) (ast_chunks parse filename src (l ∷ ls) o)
          (ast_chunks-Exact parse filename src (l ∷ ls) o v h))
  ]

-- For valid options, and a parser whose declarations lie within the lines of the file, `Chunks`
-- returns without a panic, and each chunk that it keeps holds a letter or digit, has a range
-- of lines of the file, first to last, and is byte for byte the text of those lines.
pub chunks-Kept :
    (u : Unicode) (parse : Parser) (filename src : Bytes) (o : Options)
    → validate o ≡ ok tt
    → ParsesInFile (length (split_lines u src)) (parse filename src)
    → (r : Option (List Chunk × ℕ)) × (chunks u parse filename src o ≡ ok r)
      × Kept u (split_lines u src) r
unfolding chunks
chunks-Kept u parse filename src o h k =
    let ls = split_lines u src in
    (
      cut u parse filename src ls o,
      rw h refl,
      cut-Kept u parse filename src o (validate-IsValid o h) ls k,
    )

-- Under the window strategy no line with something in it is lost: each line of the file is in a
-- kept chunk, or in a window that has no letter or digit anywhere. Here `ls` are the lines of a
-- file that is not blank and the options are valid.
pub cut-covers :
    (u : Unicode) (parse : Parser) (filename src : Bytes) (o : Options) (ls : List Bytes) (n : ℕ)
    → validate o ≡ ok tt
    → eqb o.strategy strategy_window ≡ true
    → 1 ≤ n
    → n ≤ length ls
    → (cs kept : List Chunk) × (windows ls 1 (length ls) o ≡ some cs)
      × (cut u parse filename src ls o ≡ some (kept, length cs - length kept))
      × (Any (Contains n) kept ⊎ Any (λ c. Contains n c × (has_tokens u c.text ≡ false)) cs)
unfolding cut retrievable
cut-covers u parse filename src o [] n h w p q = absurd (omega arith)
cut-covers u parse filename src o (l ∷ ls) n h w p q =
    let all = l ∷ ls in
    let (cs, e, t) =
      windows-Tiled all 1 (length all) o (validate-IsValid o h) (omega arith) (omega arith) in
    (
      cs,
      keep_retrievable u cs,
      e,
      rw w (rw e refl),
      Any-keep_retrievable u (Contains n) cs (t.covers n p q),
    )
