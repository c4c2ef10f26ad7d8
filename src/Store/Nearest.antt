-- ===== src/Store/Nearest.antt =====
-- About the row of callersSQL that stands for a group of one symbol.
use codetrail.Prelude.{
  ◌≤◌, Bool, true, false, ◌≡◌, ◌≢◌, refl, subst, inl, inr, arith, Option, none, some, List, [], ◌∷◌,
  Bytes, eqb, eqb_eq, eqb_refl, All, Any, All-imp, Bool-cases,
}
use codetrail.Store.Callers.{CallRow, nearer, nearest_of, nearest}

-- The row of a group: one of its rows, at the least depth.
abbrev pub NearestOutcome : Bytes → List CallRow → Option CallRow → Type 0
NearestOutcome id rows none = All (λ r. r.sym ≢ id) rows
NearestOutcome id rows (some c) =
    Any (λ r. r ≡ c) rows × (c.sym ≡ id) × All (λ r. r.sym ≡ id → c.depth ≤ r.depth) rows

pub nearest-NearestOutcome :
    (before : Bytes → Bytes → Bool) (id : Bytes) (rows : List CallRow)
    → NearestOutcome id rows (nearest before id rows)
unfolding nearest
nearest-NearestOutcome before id [] = tt
nearest-NearestOutcome before id (c ∷ cs) = elim (Bool-cases (eqb c.sym id)) [
  | inl e ↦
      rw e (taken (eqb_eq c.sym id e) (nearest before id cs) (nearest-NearestOutcome before id cs))
  | inr e ↦ rw e (passed e (nearest before id cs) (nearest-NearestOutcome before id cs))
]
  where
    other : eqb c.sym id ≡ false → c.sym ≢ id
    other e h = let f : eqb id id ≡ false = rw h at e in let g = eqb_refl id in cc

    passed :
        eqb c.sym id ≡ false
        → (o : Option CallRow) → NearestOutcome id cs o
        → NearestOutcome id (c ∷ cs) o
    passed e none h = (other e, h)
    passed e (some b) (m, same, least) = (inr m, same, ((λ s. absurd (other e s)), least))

    taken :
        c.sym ≡ id
        → (o : Option CallRow) → NearestOutcome id cs o
        → NearestOutcome id (c ∷ cs) (some (nearest_of before c o))
    taken e none h = (
      inl refl,
      e,
      (
        (λ s. omega arith),
        All-imp (λ (r : CallRow). r.sym ≢ id) (λ (r : CallRow). r.sym ≡ id → c.depth ≤ r.depth) cs
            (λ r n s. absurd (n s)) h,
      ),
    )
    taken e (some b) (m, same, least) = elim (Bool-cases (nearer before b c)) [
      | inl first ↦
          let chosen : b ≡ nearest_of before c (some b) = rw first refl in
          subst (λ x. NearestOutcome id (c ∷ cs) (some x)) chosen
            (inr m, same, ((λ s. no_deeper b c first), least))
      | inr second ↦
          let chosen : c ≡ nearest_of before c (some b) = rw second refl in
          subst (λ x. NearestOutcome id (c ∷ cs) (some x)) chosen
            (
              inl refl,
              e,
              (
                (λ s. omega arith),
                All-imp (λ (r : CallRow). r.sym ≡ id → b.depth ≤ r.depth)
                    (λ (r : CallRow). r.sym ≡ id → c.depth ≤ r.depth) cs
                    (λ r k s. let d = k s in let d' = not_deeper b c second in omega arith) least,
              ),
            )
    ]
      where
        no_deeper : (x y : CallRow) → nearer before x y ≡ true → x.depth ≤ y.depth
        no_deeper x y h = unfold nearer in (ground arith)

        not_deeper : (x y : CallRow) → nearer before x y ≡ false → y.depth ≤ x.depth
        not_deeper x y h = unfold nearer in (ground arith)
