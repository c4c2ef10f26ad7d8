-- ===== src/Chunk/Blanking.antt =====
-- What `StripDocs` takes out of a file, and that no line moves.
use codetrail.Prelude.{
  ℕ, zero, suc, ◌+◌, ◌<◌, ◌≡◌, ◌≢◌, refl, Bool, true, false, not, ◌&&◌, ◌||◌, Option, none, some,
  List, [], ◌∷◌, length, get_or, replicate, length-replicate, leb, ltb, ◌==◌, Bytes, codes, arith,
  ok, err, Bool-cases, inl, inr, Result,
}
use codetrail.Chunk.Ast.{has_suffix}
use codetrail.Chunk.Strip.{
  Comment, Node, DocFile, DocParser, is_directive, comment_end, mark, add_group, node_doc,
  add_nodes, drop_mask, is_terminator, blank, count_lines, StripError, lines_moved, self_check,
  checked, stripped, strip_docs,
}

-- The byte at `i` is in one of the comments, which is prose and no directive.
unfoldable pub in_prose : Bytes → List Comment → ℕ → Bool
in_prose src [] i = false
in_prose src (c ∷ cs) i =
    (not (is_directive c.text) && (leb c.offset i && ltb i (comment_end src c.offset)))
    || in_prose src cs i

-- The byte at `i` is in the doc comment of the file or of one of its nodes.
unfoldable pub in_docs : Bytes → List Node → ℕ → Bool
unfolding in_prose
in_docs src [] i = false
in_docs src (n ∷ ns) i = in_prose src (node_doc n) i || in_docs src ns i

length-mark : (i start last : ℕ) (ds : List Bool) → length (mark i start last ds) ≡ length ds
unfolding mark
length-mark i start last [] = refl
length-mark i start last (d ∷ ds) = omega (arith, length-mark (i + 1) start last ds)

get_or-mark :
    (k start last i : ℕ) (ds : List Bool)
    → i < length ds
    → get_or (mark k start last ds) i false
      ≡ ((leb start (k + i) && ltb (k + i) last) || get_or ds i false)
unfolding mark
get_or-mark k start last i [] h = absurd (omega arith)
get_or-mark k start last zero (d ∷ ds) h = ground arith
get_or-mark k start last (suc i) (d ∷ ds) h =
    ground (arith, get_or-mark (k + 1) start last i ds (omega arith))

or_swap : (a b c : Bool) → (a || (b || c)) ≡ ((b || a) || c)
or_swap a b c = ground arith

add_group-eq :
    (src : Bytes) (cs : List Comment) (ds : List Bool) (i : ℕ)
    → i < length ds
    → (length (add_group src cs ds) ≡ length ds)
      × (get_or (add_group src cs ds) i false ≡ (in_prose src cs i || get_or ds i false))
unfolding add_group in_prose
add_group-eq src [] ds i h = (refl, refl)
add_group-eq src (c ∷ cs) ds i h = elim (Bool-cases (is_directive c.text)) [
  | inl directive ↦ rw directive (add_group-eq src cs ds i h)
  | inr prose ↦
      let last = comment_end src c.offset in
      let es = mark 0 c.offset last ds in
      let n = length-mark 0 c.offset last ds in
      let (m, e) = add_group-eq src cs es i (omega arith) in
      let g = get_or-mark 0 c.offset last i ds h in rw prose (omega arith, ground arith)
]

add_nodes-eq :
    (src : Bytes) (ns : List Node) (ds : List Bool) (i : ℕ)
    → i < length ds
    → (length (add_nodes src ns ds) ≡ length ds)
      × (get_or (add_nodes src ns ds) i false ≡ (in_docs src ns i || get_or ds i false))
unfolding add_nodes in_docs
add_nodes-eq src [] ds i h = (refl, refl)
add_nodes-eq src (n ∷ ns) ds i h =
    let (l, g) = add_group-eq src (node_doc n) ds i h in
    let (m, e) = add_nodes-eq src ns (add_group src (node_doc n) ds) i (omega arith) in
    (omega arith, ground arith)

get_or-replicate : (n i : ℕ) → get_or (replicate n false) i false ≡ false
get_or-replicate zero i = refl
get_or-replicate (suc n) zero = refl
get_or-replicate (suc n) (suc i) = get_or-replicate n i

-- A byte of the file is marked exactly when it is in a doc comment of the file or of a node that
-- is prose and no directive, wherever the comments stand and however they overlap.
pub drop_mask-eq :
    (src : Bytes) (f : DocFile) (i : ℕ)
    → i < length src
    → (length (drop_mask src f) ≡ length src)
      × (get_or (drop_mask src f) i false ≡ (in_docs src f.nodes i || in_prose src f.doc i))
unfolding drop_mask
drop_mask-eq src f i h =
    let all = replicate (length src) false in
    let n = length-replicate (length src) false in
    let z = get_or-replicate (length src) i in
    let (l, g) = add_group-eq src f.doc all i (omega arith) in
    let (m, e) = add_nodes-eq src f.nodes (add_group src f.doc all) i (omega arith) in
    (omega arith, ground arith)

-- One text is another with some bytes left out, none of which ends a line.
pub data IsBlanked : Bytes → Bytes → Type 0 where
  done : IsBlanked [] []
  kept : {src out : Bytes} (b : ℕ) → IsBlanked src out → IsBlanked (b ∷ src) (b ∷ out)
  left_out :
      {src out : Bytes} (b : ℕ)
      → is_terminator b ≡ false
      → IsBlanked src out
      → IsBlanked (b ∷ src) out

unchanged : (src : Bytes) → IsBlanked src src
unchanged [] = done
unchanged (b ∷ src) = kept b (unchanged src)

blank-IsBlanked : (src : Bytes) (ds : List Bool) → IsBlanked src (blank src ds)
unfolding blank
blank-IsBlanked [] ds = done
blank-IsBlanked (b ∷ src) [] = unchanged (b ∷ src)
blank-IsBlanked (b ∷ src) (d ∷ ds) = elim (Bool-cases (d && not (is_terminator b))) [
  | inl out ↦ rw out (left_out b (ground arith) (blank-IsBlanked src ds))
  | inr stay ↦ rw stay (kept b (blank-IsBlanked src ds))
]

count_lines-IsBlanked : {src out : Bytes} → IsBlanked src out → count_lines out ≡ count_lines src
unfolding count_lines
count_lines-IsBlanked done = refl
count_lines-IsBlanked (kept b h) = ground (arith, count_lines-IsBlanked h)
count_lines-IsBlanked (left_out b t h) = ground (arith, count_lines-IsBlanked h)

blank-count_lines : (src : Bytes) (ds : List Bool) → count_lines (blank src ds) ≡ count_lines src
blank-count_lines src ds = count_lines-IsBlanked (blank-IsBlanked src ds)

-- What `StripDocs` makes of a file: it is refused, for another reason than moved lines, or some
-- bytes are left out of it that end no line.
abbrev pub StripOutcome : Bytes → Result StripError Bytes → Type 0
StripOutcome src (err e) = e ≢ lines_moved
StripOutcome src (ok out) = IsBlanked src out × (count_lines out ≡ count_lines src)

module _ (parse : DocParser) (filename src : Bytes) where
  self_check-StripOutcome :
      (out : Bytes) → IsBlanked src out → StripOutcome src (self_check parse filename src out)
  unfolding self_check
  self_check-StripOutcome out h = go (parse filename out)
    where
      lines : count_lines out ≡ count_lines src
      lines = count_lines-IsBlanked h

      same : (count_lines out == count_lines src) ≡ true
      same = ground (arith, lines)

      go : (f : Option DocFile) → StripOutcome src (checked src out f)
      go none = rw same (λ e. cc)
      go (some f) = rw same (h, lines)

  stripped-StripOutcome : (f : Option DocFile) → StripOutcome src (stripped parse filename src f)
  stripped-StripOutcome none = λ e. cc
  stripped-StripOutcome (some f) =
      self_check-StripOutcome (blank src (drop_mask src f)) (blank-IsBlanked src (drop_mask src f))

  -- Whatever the parser does, `StripDocs` never fails since a line moved; a text that it returns is
  -- the source with some bytes left out, none of which ends a line, so it has as many lines.
  pub strip_docs-StripOutcome : StripOutcome src (strip_docs parse filename src)
  unfolding strip_docs
  strip_docs-StripOutcome = elim (Bool-cases (has_suffix filename (codes ".go"))) [
    | inl go ↦ rw go (stripped-StripOutcome (parse filename src))
    | inr other ↦ rw other (unchanged src, refl)
  ]
