-- ===== src/Walk/Lines.antt =====
-- packages/shared/walk/walk.go: Lines, and the lines of the chunker.
use codetrail.Prelude.{
  ℕ, suc, ◌+◌, ◌==◌, Bool, true, false, ◌≡◌, refl, ap, ◌∙◌, inl, inr, arith, List, [], ◌∷◌, length,
  if◌then◌else◌, Bytes, Bool-cases,
}
use codetrail.Prelude.Utf8.{Unicode, runes, all_rune}
use codetrail.Chunk.Defs.{newline, cons_head, trim_newline, split_newline, split_lines}

-- bytes.Count(body, "\n")
unfoldable pub count_newlines : Bytes → ℕ
count_newlines [] = 0
count_newlines (c ∷ s) = let rest = count_newlines s in if c == newline then suc rest else rest

-- body[len(body)-1] == '\n', of a body that is not empty.
unfoldable pub ends_line : Bytes → Bool
ends_line [] = false
ends_line (c ∷ []) = c == newline
ends_line (c ∷ d ∷ s) = ends_line (d ∷ s)

unfoldable pub lines : Bytes → ℕ
unfolding count_newlines ends_line
lines [] = 0
lines (c ∷ s) = let n = count_newlines (c ∷ s) in if ends_line (c ∷ s) then n else n + 1

length-cons_head :
    (c : ℕ) (s : Bytes) → length (cons_head c (split_newline s)) ≡ length (split_newline s)
unfolding split_newline
length-cons_head c [] = refl
length-cons_head c (d ∷ s) = elim (Bool-cases (d == newline)) [
  | inl e ↦ rw e refl
  | inr e ↦ rw e (head_kept (split_newline s))
]
  where
    head_kept : (ls : List Bytes) → length (cons_head c (cons_head d ls)) ≡ length (cons_head d ls)
    head_kept [] = refl
    head_kept (l ∷ ls) = refl

-- A byte before a text that is not empty.
lines_cons :
    (c d : ℕ) (s : Bytes)
    → lines (c ∷ d ∷ s) ≡ (if c == newline then suc (lines (d ∷ s)) else lines (d ∷ s))
unfolding lines count_newlines ends_line
lines_cons c d s = ground arith

length-split_newline :
    (c : ℕ) (s : Bytes) → length (split_newline (trim_newline (c ∷ s))) ≡ lines (c ∷ s)
unfolding split_newline trim_newline
length-split_newline c [] = elim (Bool-cases (c == newline)) [
  | inl e ↦ unfold lines in (unfold count_newlines in (unfold ends_line in (rw e refl)))
  | inr e ↦ unfold lines in (unfold count_newlines in (unfold ends_line in (rw e (rw e refl))))
]
length-split_newline c (d ∷ s) = elim (Bool-cases (c == newline)) [
  | inl e ↦ rw (lines_cons c d s, e) (ap suc (length-split_newline d s))
  | inr e ↦
      rw (lines_cons c d s, e)
        (length-cons_head c (trim_newline (d ∷ s)) ∙ length-split_newline d s)
]

-- In a body that is more than white space, the chunker's lines are as many as the walk counts for
-- the row of the file.
pub length-split_lines :
    (u : Unicode) (src : Bytes)
    → all_rune u.is_space (runes src) ≡ false
    → length (split_lines u src) ≡ lines src
unfolding split_lines runes all_rune
length-split_lines u [] wordy = let h : true ≡ false = wordy in cc
length-split_lines u (c ∷ s) wordy = rw wordy (length-split_newline c s)
