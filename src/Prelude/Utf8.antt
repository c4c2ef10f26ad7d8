-- ===== src/Prelude/Utf8.antt =====
-- How Go's `range` over a string reads it: one rune at a time, with the width in bytes. A byte that
-- begins no valid encoding is U+FFFD of width 1. The Unicode tables are a parameter.
use codetrail.Prelude.Tests.{leb, if◌then◌else◌}
use codetrail.Prelude.Text.{Bytes}
use Prim.Native.Nat.{ℕ, zero, suc, ◌+◌, ◌-◌, ◌*◌}
use mathlib.Core.Bool.{Bool, false, true, ◌&&◌, ◌||◌}
use mathlib.Core.List.{List, [], ◌∷◌}

-- The predicates and the case mapping of package `unicode`.
pub record Unicode : Type 0 where
  pub is_letter : ℕ → Bool
  pub is_digit : ℕ → Bool
  pub is_upper : ℕ → Bool
  pub is_lower : ℕ → Bool
  pub is_space : ℕ → Bool
  pub to_lower : ℕ → ℕ

abbrev pub rune_error : ℕ
rune_error = 0xfffd

between : ℕ → ℕ → ℕ → Bool
between lo hi b = leb lo b && leb b hi

two : ℕ → Bytes → ℕ × ℕ
unfolding between
two a (b ∷ _) = if between 0x80 0xbf b then ((a - 0xc0) * 64 + (b - 0x80), 2) else (rune_error, 1)
two a [] = (rune_error, 1)

-- The second byte's range rules out overlong forms and surrogates.
three : ℕ → Bytes → ℕ × ℕ
unfolding between
three a (b ∷ c ∷ _) =
    let lo = if between 0xe0 0xe0 a then 0xa0 else 0x80 in
    let hi = if between 0xed 0xed a then 0x9f else 0xbf in
    if between lo hi b && between 0x80 0xbf c
    then ((a - 0xe0) * 4096 + (b - 0x80) * 64 + (c - 0x80), 3)
    else (rune_error, 1)
three a _ = (rune_error, 1)

four : ℕ → Bytes → ℕ × ℕ
unfolding between
four a (b ∷ c ∷ d ∷ _) =
    let lo = if between 0xf0 0xf0 a then 0x90 else 0x80 in
    let hi = if between 0xf4 0xf4 a then 0x8f else 0xbf in
    if between lo hi b && (between 0x80 0xbf c && between 0x80 0xbf d)
    then ((a - 0xf0) * 262144 + (b - 0x80) * 4096 + (c - 0x80) * 64 + (d - 0x80), 4)
    else (rune_error, 1)
four a _ = (rune_error, 1)

-- utf8.DecodeRuneInString at the byte `a` followed by `s`.
pub decode_rune : ℕ → Bytes → ℕ × ℕ
unfolding between two three four
decode_rune a s =
    if leb a 0x7f
    then (a, 1)
    else if between 0xc2 0xdf a
    then two a s
    else if between 0xe0 0xef a
    then three a s
    else if between 0xf0 0xf4 a
    then four a s
    else (rune_error, 1)

-- The first argument counts the bytes of the current rune that are still to be skipped.
runes_from : ℕ → Bytes → List (ℕ × ℕ)
unfolding decode_rune
runes_from skip [] = []
runes_from zero (a ∷ s) = let r = decode_rune a s in r ∷ runes_from (r.1 - 1) s
runes_from (suc k) (a ∷ s) = runes_from k s

-- Each rune with its width.
unfoldable pub runes : Bytes → List (ℕ × ℕ)
unfolding runes_from
runes s = runes_from zero s

unfoldable pub any_rune : (ℕ → Bool) → List (ℕ × ℕ) → Bool
any_rune p [] = false
any_rune p ((r, w) ∷ rs) = p r || any_rune p rs

unfoldable pub all_rune : (ℕ → Bool) → List (ℕ × ℕ) → Bool
all_rune p [] = true
all_rune p ((r, w) ∷ rs) = p r && all_rune p rs
