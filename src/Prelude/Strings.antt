-- ===== src/Prelude/Strings.antt =====
-- Functions of Go's `strings` and `strconv` that the program calls on a separator of one byte, a
-- suffix or a count.
use mathlib.Core.List.{reverse, reverse-append, reverse-reverse, append_assoc}
use codetrail.Prelude.Tests.{ltb, ◌==◌, if◌then◌else◌, Bool-cases}
use codetrail.Prelude.Lists.{length, length-take, take, All, All-append}
use codetrail.Prelude.Text.{Bytes, has_prefix, join}
use Prim.Native.Nat.{ℕ, zero, suc, ◌+◌, ◌-◌, ◌/◌, ◌%◌}
use mathlib.Core.Path.{◌≡◌, refl, sym, ap, ◌∙◌, subst}
use mathlib.Core.Logic.{◌≢◌, inl, inr}
use mathlib.Core.Bool.{Bool, true, false}
use mathlib.Core.List.{List, [], ◌∷◌, ◌++◌}
use native.Mathlib.Omega.{arith}

abbrev pub cons_part : ℕ → List Bytes → List Bytes
cons_part c [] = (c ∷ []) ∷ []
cons_part c (p ∷ ps) = (c ∷ p) ∷ ps

-- strings.Split by a separator of one byte: one part more than there are separators.
unfoldable pub split : ℕ → Bytes → List Bytes
split sep [] = [] ∷ []
split sep (c ∷ s) = let ps = split sep s in if c == sep then [] ∷ ps else cons_part c ps

unfoldable pub trim_left : ℕ → Bytes → Bytes
trim_left b [] = []
trim_left b (c ∷ s) = if c == b then trim_left b s else c ∷ s

-- strings.Trim by a cut set of one byte.
unfoldable pub trim : ℕ → Bytes → Bytes
unfolding trim_left
trim b s = reverse (trim_left b (reverse (trim_left b s)))

-- strings.HasSuffix
unfoldable pub has_suffix : Bytes → Bytes → Bool
unfolding has_prefix
has_suffix s p = has_prefix (reverse s) (reverse p)

-- strings.TrimSuffix
unfoldable pub trim_suffix : Bytes → Bytes → Bytes
unfolding has_suffix
trim_suffix s p = if has_suffix s p then take (length s - length p) s else s

abbrev pub IsNot : ℕ → ℕ → Type 0
IsNot b c = (c == b) ≡ false

module _ (sep : ℕ) where
  -- Text without the separator is one part, up to the first separator or the end.
  pub split-append : (s t : Bytes) → All (IsNot sep) s → split sep (s ++ sep ∷ t) ≡ s ∷ split sep t
  unfolding split
  split-append [] t h = ground arith
  split-append (c ∷ s) t h = rw (split-append s t h.1, h.0)

  pub split_one : (s : Bytes) → All (IsNot sep) s → split sep s ≡ s ∷ []
  unfolding split
  split_one [] h = refl
  split_one (c ∷ s) h = rw (split_one s h.1, h.0)

-- The parts of a split have no separator in them, and joined by it they are the text.
pub record IsSplit (sep : ℕ) (s : Bytes) (parts : List Bytes) : Type 0 where
  pub some_part : parts ≢ []
  pub whole : join parts (sep ∷ []) ≡ s
  pub plain : All (All (IsNot sep)) parts

-- A byte before a text: a separator, or one more byte of the first part.
cut_before :
    (sep c : ℕ) (s : Bytes) (ps : List Bytes)
    → c ≡ sep
    → IsSplit sep s ps
    → IsSplit sep (c ∷ s) ([] ∷ ps)
unfolding join
cut_before sep c s [] e h = absurd (h.some_part refl)
cut_before sep c s (p ∷ ps) e h = record {
  some_part = λ q. cc;
  whole = rw (e, h.whole) refl;
  plain = (tt, h.plain);
}

grown_by :
    (sep c : ℕ) (s : Bytes) (ps : List Bytes)
    → (c == sep) ≡ false
    → IsSplit sep s ps
    → IsSplit sep (c ∷ s) (cons_part c ps)
unfolding join
grown_by sep c s [] e h = absurd (h.some_part refl)
grown_by sep c s (p ∷ []) e h = record {
  some_part = λ q. cc;
  whole = ap (λ l. c ∷ l) h.whole;
  plain = ((e, h.plain.0), tt);
}
grown_by sep c s (p ∷ q ∷ ps) e h = record {
  some_part = λ q. cc;
  whole = ap (λ l. c ∷ l) h.whole;
  plain = ((e, h.plain.0), h.plain.1);
}

pub split-IsSplit : (sep : ℕ) (s : Bytes) → IsSplit sep s (split sep s)
unfolding split join
split-IsSplit sep [] = record { some_part = λ q. cc; whole = refl; plain = (tt, tt) }
split-IsSplit sep (c ∷ s) = elim (Bool-cases (c == sep)) [
  | inl e ↦ rw e (cut_before sep c s (split sep s) (ground arith) (split-IsSplit sep s))
  | inr e ↦ rw e (grown_by sep c s (split sep s) e (split-IsSplit sep s))
]

module _ (P : ℕ → Type 0) where
  All-reverse : (s : Bytes) → All P s → All P (reverse s)
  All-reverse [] h = tt
  All-reverse (c ∷ s) h =
      subst (All P) (sym (reverse-append (c ∷ []) s))
        (All-append P (reverse s) (c ∷ []) (All-reverse s h.1) (h.0, tt))

trim_left_none : (b : ℕ) (s t : Bytes) → s ≢ [] → All (IsNot b) s → trim_left b (s ++ t) ≡ s ++ t
unfolding trim_left
trim_left_none b [] t ne h = absurd (ne refl)
trim_left_none b (c ∷ s) t ne h = rw h.0

reverse-ne : (s : Bytes) → s ≢ [] → reverse s ≢ []
reverse-ne s ne e = ne (sym (reverse-reverse s) ∙ ap reverse e)

trim_left_self : (b : ℕ) (s : Bytes) → trim_left b (b ∷ s) ≡ trim_left b s
unfolding trim_left
trim_left_self b s = ground arith

-- One separator before two parts is all that Trim takes away.
pub trim_path :
    (b : ℕ) (s t : Bytes)
    → s ≢ []
    → t ≢ []
    → All (IsNot b) s
    → All (IsNot b) t
    → trim b (b ∷ s ++ b ∷ t) ≡ s ++ b ∷ t
unfolding trim
trim_path b s t ns nt hs ht =
    let u = s ++ b ∷ t in
    let turned : reverse u ≡ reverse t ++ b ∷ reverse s =
      reverse-append s (b ∷ t)
      ∙ ap (λ r. r ++ reverse s) (reverse-append (b ∷ []) t)
      ∙ append_assoc (reverse t) (b ∷ []) (reverse s) in
    rw
      (
        trim_left_self b u,
        trim_left_none b s (b ∷ t) ns hs,
        turned,
        trim_left_none b (reverse t) (b ∷ reverse s) (reverse-ne t nt) (All-reverse _ t ht),
        ← turned,
      )
      (reverse-reverse u)

-- What is left has a suffix fewer bytes, if there was one.
pub length-trim_suffix :
    (s p : Bytes) → has_suffix s p ≡ true → length (trim_suffix s p) ≡ length s - length p
unfolding trim_suffix
length-trim_suffix s p h = rw h (omega (arith, length-take (length s - length p) s))

-- The decimal digits of n before `out`; the first argument is fuel, at most one round for a digit.
unfoldable pub digits_onto : ℕ → ℕ → Bytes → Bytes
digits_onto zero n out = out
digits_onto (suc f) n out =
    let more = digits_onto f (n / 10) ((b'0' + n % 10) ∷ out) in
    if ltb n 10 then (b'0' + n) ∷ out else more

-- `%d` of a number that is not negative.
unfoldable pub decimal : ℕ → Bytes
unfolding digits_onto
decimal n = digits_onto (suc n) n []
