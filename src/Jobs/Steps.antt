-- ===== src/Jobs/Steps.antt =====
-- The row that `Lease` picks, and that an id names one row.
use codetrail.Prelude.{
  All-Any, ◌≤◌, ◌≡◌, refl, sym, ◌∙◌, ap, inl, inr, Bool, true, false, Option, none, some, List, [],
  ◌∷◌, Bytes, eqb, eqb_eq, arith, All, Any, All-imp, Bool-cases, leb,
}
use codetrail.Jobs.Queue.{Row, oldest, older}
use codetrail.Jobs.Table.{AreApart, Apart}

-- The row that `Lease` picks is in the table, passes, and no row that passes is older.
pub record IsOldest (p : Row → Bool) (rows : List Row) (r : Row) : Type 0 where
  pub member : Any (λ s. s ≡ r) rows
  pub passes : p r ≡ true
  pub least : All (λ s. p s ≡ true → r.created_at ≤ s.created_at) rows

abbrev pub Picks : (Row → Bool) → List Row → Option Row → Type 0
Picks p rows none = All (λ s. p s ≡ false) rows
Picks p rows (some r) = IsOldest p rows r

older-Picks :
    (p : Row → Bool) (r : Row) (rs : List Row) (best : Option Row)
    → p r ≡ true
    → Picks p rs best
    → Picks p (r ∷ rs) (older r best)
older-Picks p r rs none h k = record {
  member = inl refl;
  passes = h;
  least = (λ e. omega arith, All-imp (λ s. p s ≡ false) _ rs (λ s n y. cc) k);
}
older-Picks p r rs (some b) h k = elim (Bool-cases (leb r.created_at b.created_at)) [
  | inl first ↦ rw first (record {
    member = inl refl;
    passes = h;
    least = (
      λ e. omega arith,
      All-imp (λ s. p s ≡ true → b.created_at ≤ s.created_at) _ rs
          (λ s m y. let n = m y in ground arith) k.least,
    );
  })
  | inr later ↦
      rw later
        (record { member = inr k.member; passes = k.passes; least = (λ e. ground arith, k.least) })
]

pub oldest-Picks : (p : Row → Bool) (rows : List Row) → Picks p rows (oldest p rows)
unfolding oldest
oldest-Picks p [] = tt
oldest-Picks p (r ∷ rs) = elim (Bool-cases (p r)) [
  | inl hit ↦ rw hit (older-Picks p r rs (oldest p rs) hit (oldest-Picks p rs))
  | inr miss ↦ rw miss (skip (oldest p rs) (oldest-Picks p rs) miss)
]
  where
    skip : (best : Option Row) → Picks p rs best → p r ≡ false → Picks p (r ∷ rs) best
    skip none k miss = (miss, k)
    skip (some b) k miss = record {
      member = inr k.member;
      passes = k.passes;
      least = (λ e. cc, k.least);
    }

-- An id names one row.
pub unique_id :
    (lower : Bytes → Bytes) (rows : List Row) (r : Row)
    → Apart lower rows
    → Any (λ s. s ≡ r) rows
    → All (λ s. eqb s.id r.id ≡ true → s ≡ r) rows
unique_id lower [] r h m = absurd m
unique_id lower (x ∷ xs) r h (inl e) = (
  λ same. e,
  All-imp (AreApart lower x) _ xs
      (λ s a same. absurd (a.ids (ap (λ (t : Row). t.id) e ∙ sym (eqb_eq s.id r.id same)))) h.0,
)
unique_id lower (x ∷ xs) r h (inr m) = (
  λ same. absurd (
      All-Any (AreApart lower x) (λ s. s ≡ r) xs ⊥
        (λ s a e. a.ids (eqb_eq x.id r.id same ∙ sym (ap (λ (t : Row). t.id) e))) h.0 m),
  unique_id lower xs r h.1 m,
)
