-- ===== src/Metric/Rank.antt =====
-- The rank metrics against a description of their own.
use codetrail.Prelude.{
  ℕ, ◌+◌, ◌<◌, ◌≡◌, refl, inl, inr, Bool, true, false, Option, none, some, List, [], ◌∷◌, arith,
  Bool-cases, if◌then◌else◌, Bytes,
}
use codetrail.Prelude.Int.{ℤ, pos, ltb_ℤ}
use codetrail.Prelude.Floats.{Floats}
use codetrail.Metric.Defs.{Gold, hit_from, hit_at_k, reciprocal_from, reciprocal_rank}

-- The 1-based rank of the first gold id.
unfoldable pub first_gold : ℕ → List Bytes → Gold → Option ℕ
first_gold i [] g = none
first_gold i (id ∷ ids) g =
    let rest = first_gold (i + 1) ids g in if g id then some (i + 1) else rest

abbrev pub within : ℤ → Option ℕ → Bool
within k none = false
within k (some r) = if ltb_ℤ k (pos r) then false else true

first_gold-lt : (i : ℕ) (ids : List Bytes) (g : Gold) (r : ℕ) → first_gold i ids g ≡ some r → i < r
unfolding first_gold
first_gold-lt i [] g r h = cc
first_gold-lt i (id ∷ ids) g r h = ground (arith, first_gold-lt (i + 1) ids g r)

within-late :
    (k : ℤ) (i : ℕ) (o : Option ℕ)
    → ((r : ℕ) → o ≡ some r → i < r)
    → ltb_ℤ k (pos i) ≡ true
    → within k o ≡ false
within-late k i none h e = refl
within-late k i (some r) h e = let lt' = h r refl in ground arith

hit_from-eq :
    (i : ℕ) (ids : List Bytes) (g : Gold) (k : ℤ)
    → hit_from i ids g k ≡ within k (first_gold i ids g)
unfolding hit_from first_gold
hit_from-eq i [] g k = refl
hit_from-eq i (id ∷ ids) g k = ground (
  arith,
  hit_from-eq (i + 1) ids g k,
  within-late k (i + 1) (first_gold (i + 1) ids g) (first_gold-lt (i + 1) ids g),
)

abbrev pub reciprocal_of : {F : Type 0} → Floats F → Option ℕ → F
reciprocal_of fl none = fl.of_int (pos 0)
reciprocal_of fl (some r) = fl.quot (fl.of_int (pos 1)) (fl.of_int (pos r))

reciprocal_from-eq :
    {F : Type 0} (fl : Floats F) (i : ℕ) (ids : List Bytes) (g : Gold)
    → reciprocal_from fl i ids g ≡ reciprocal_of fl (first_gold i ids g)
unfolding reciprocal_from first_gold
reciprocal_from-eq fl i [] g = refl
reciprocal_from-eq fl i (id ∷ ids) g = elim (Bool-cases (g id)) [
  | inl hit ↦ rw hit refl
  | inr miss ↦ rw miss (reciprocal_from-eq fl (i + 1) ids g)
]

-- The metrics agree on one rank: `HitAtK` holds exactly when the first gold id has a rank of at most
-- k, and the reciprocal rank is 1 over that rank, or 0 where no id is gold.
pub hit-reciprocal :
    {F : Type 0} (fl : Floats F) (ids : List Bytes) (g : Gold) (k : ℤ)
    → (hit_at_k ids g k ≡ within k (first_gold 0 ids g))
      × (reciprocal_rank fl ids g ≡ reciprocal_of fl (first_gold 0 ids g))
unfolding hit_at_k reciprocal_rank
hit-reciprocal fl ids g k = (hit_from-eq 0 ids g k, reciprocal_from-eq fl 0 ids g)
