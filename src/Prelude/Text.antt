-- ===== src/Prelude/Text.antt =====
-- Go strings: sequences of bytes, with the equality, the order and the few functions of the
-- `strings` package that the program calls. A literal is written `codes "..."`.
use codetrail.Prelude.Tests.{ltb, ◌==◌, Bool-cases}
use Prim.Native.Nat.{ℕ}
use Prim.Native.Char.{code}
use Prim.Native.String.{String}
use mathlib.Core.Path.{◌≡◌, refl, sym, subst}
use mathlib.Core.Logic.{◌↔◌, inl, inr}
use mathlib.Core.Bool.{Bool, true, false, ◌&&◌, ◌||◌}
use mathlib.Core.List.{List, [], ◌∷◌, ◌++◌}
use native.Mathlib.Omega.{arith}
use native.Mathlib.Decide.{ℕ_discrete}

abbrev pub Bytes : Type 0
Bytes = List ℕ

abbrev pub codes : String → Bytes
codes String.[] = []
codes (String.◌∷◌ c s) = code c ∷ codes s

pub Bytes-discrete : Discrete Bytes
Bytes-discrete = hlevel ℕ_discrete

-- s == t
unfoldable pub eqb : Bytes → Bytes → Bool
eqb [] [] = true
eqb (a ∷ s) (b ∷ t) = a == b && eqb s t
eqb _ _ = false

pub eqb_refl : (s : Bytes) → eqb s s ≡ true
unfolding eqb
eqb_refl [] = refl
eqb_refl (a ∷ s) = ground (arith, eqb_refl s)

pub eqb_eq : (s t : Bytes) → eqb s t ≡ true → s ≡ t
unfolding eqb
eqb_eq [] [] h = refl
eqb_eq (a ∷ s) (b ∷ t) h = ground (arith, eqb_eq s t)
eqb_eq [] (b ∷ t) h = cc
eqb_eq (a ∷ s) [] h = cc

pub eqb_iff : (s t : Bytes) → (eqb s t ≡ true) ↔ (s ≡ t)
eqb_iff s t = (eqb_eq s t, λ e. rw e (eqb_refl t))

-- s < t: Go compares strings byte by byte, a proper prefix first.
unfoldable pub ltb_bytes : Bytes → Bytes → Bool
ltb_bytes [] [] = false
ltb_bytes [] (b ∷ t) = true
ltb_bytes (a ∷ s) [] = false
ltb_bytes (a ∷ s) (b ∷ t) = ltb a b || (a == b && ltb_bytes s t)

pub ltb_bytes_irrefl : (s : Bytes) → ltb_bytes s s ≡ false
unfolding ltb_bytes
ltb_bytes_irrefl [] = refl
ltb_bytes_irrefl (a ∷ s) = ground (arith, ltb_bytes_irrefl s)

pub ltb_bytes_trans :
    (s t u : Bytes) → ltb_bytes s t ≡ true → ltb_bytes t u ≡ true → ltb_bytes s u ≡ true
unfolding ltb_bytes
ltb_bytes_trans [] [] u h k = cc
ltb_bytes_trans [] (b ∷ t) [] h k = cc
ltb_bytes_trans [] (b ∷ t) (c ∷ u) h k = refl
ltb_bytes_trans (a ∷ s) [] u h k = cc
ltb_bytes_trans (a ∷ s) (b ∷ t) [] h k = cc
ltb_bytes_trans (a ∷ s) (b ∷ t) (c ∷ u) h k = ground (arith, ltb_bytes_trans s t u)

-- Two strings neither of which is less are one string.
pub ltb_bytes_total : (s t : Bytes) → ltb_bytes s t ≡ false → ltb_bytes t s ≡ false → s ≡ t
unfolding ltb_bytes
ltb_bytes_total [] [] h k = refl
ltb_bytes_total [] (b ∷ t) h k = cc
ltb_bytes_total (a ∷ s) [] h k = cc
ltb_bytes_total (a ∷ s) (b ∷ t) h k = ground (arith, ltb_bytes_total s t)

pub ltb_bytes_neg_trans :
    (a b c : Bytes) → ltb_bytes b a ≡ false → ltb_bytes c b ≡ false → ltb_bytes c a ≡ false
ltb_bytes_neg_trans a b c h k = elim (Bool-cases (ltb_bytes a b)) [
  | inl less ↦ ground (arith, ltb_bytes_trans c a b)
  | inr not_less ↦
      subst (λ (x : Bytes). ltb_bytes c x ≡ false) (sym (ltb_bytes_total a b not_less h)) k
]

-- strings.HasPrefix
unfoldable pub has_prefix : Bytes → Bytes → Bool
has_prefix s [] = true
has_prefix [] (b ∷ p) = false
has_prefix (a ∷ s) (b ∷ p) = a == b && has_prefix s p

-- strings.Join
unfoldable pub join : List Bytes → Bytes → Bytes
join [] sep = []
join (l ∷ []) sep = l
join (l ∷ m ∷ ls) sep = l ++ sep ++ join (m ∷ ls) sep
