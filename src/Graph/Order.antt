-- ===== src/Graph/Order.antt =====
-- About mostSpecific and firstOverlapping: the best of the ranges, in whatever order they come.
use codetrail.Prelude.{
  ℕ, Bool, true, false, ◌≡◌, refl, subst, ap, ◌⊎◌, inl, inr, arith, Option, none, some, List, [],
  ◌∷◌, ltb_bytes_irrefl, ltb_bytes_trans, ltb_bytes_total, ltb_bytes_neg_trans, All, Any,
  Bool-cases, All-member,
}
use codetrail.Graph.Containers.{
  Container, breaks_tie, more_specific, earlier, outside, apart, better_of, best_from,
  most_specific, first_overlapping, span_for,
}

-- What a comparison of the loops does: it is a strict order, and tells distinct ranges apart.
pub record IsStrict (better : Container → Container → Bool) : Type 0 where
  pub asym : (a b : Container) → better a b ≡ true → better b a ≡ false
  pub neg_trans : (a b c : Container) → better b a ≡ false → better c b ≡ false → better c a ≡ false
  pub total : (a b : Container) → better a b ≡ false → better b a ≡ false → a ≡ b

same_container : (a b : Container) → a.id ≡ b.id → a.start ≡ b.start → a.end ≡ b.end → a ≡ b
same_container a b h k e = cc

more_specific-IsStrict : IsStrict more_specific
unfolding more_specific breaks_tie
more_specific-IsStrict = record {
  asym = λ a b h. ground (arith, ltb_bytes_irrefl a.id, ltb_bytes_trans a.id b.id a.id);
  neg_trans = λ a b c h k. ground (arith, ltb_bytes_neg_trans a.id b.id c.id);
  total = λ a b h k.
      same_container a b (ground (arith, ltb_bytes_total a.id b.id)) (ground arith) (ground arith);
}

earlier-IsStrict : IsStrict earlier
unfolding earlier breaks_tie
earlier-IsStrict = record {
  asym = λ a b h. ground (arith, ltb_bytes_irrefl a.id, ltb_bytes_trans a.id b.id a.id);
  neg_trans = λ a b c h k. ground (arith, ltb_bytes_neg_trans a.id b.id c.id);
  total = λ a b h k.
      same_container a b (ground (arith, ltb_bytes_total a.id b.id)) (ground arith) (ground arith);
}

module _ (skip : Container → Bool) (better : Container → Container → Bool) where
  abbrev pub IsChosen : List Container → Option Container → Type 0
  IsChosen cs none = Unit
  IsChosen cs (some b) = Any (λ c. c ≡ b) cs × (skip b ≡ false)

  -- A range does not speak against the choice.
  abbrev pub IsSettled : Option Container → Container → Type 0
  IsSettled none c = skip c ≡ true
  IsSettled (some b) c = (skip c ≡ true) ⊎ (better c b ≡ false)

  -- The best of what is not skipped, or nothing exactly where all is skipped.
  abbrev pub IsBest : List Container → Option Container → Type 0
  IsBest cs r = IsChosen cs r × All (IsSettled r) cs

module _ (skip : Container → Bool) (better : Container → Container → Bool)
    (o : IsStrict better) where
  irrefl : (x : Container) → better x x ≡ false
  irrefl x = elim (Bool-cases (better x x)) [ inl e ↦ o.asym x x e | inr e ↦ e ]

  better_of-IsSettled :
      (c : Container) (best : Option Container) → IsSettled skip better (better_of better c best) c
  better_of-IsSettled c none = inr (irrefl c)
  better_of-IsSettled c (some b) = elim (Bool-cases (better c b)) [
    | inl e ↦ rw e (inr (irrefl c))
    | inr e ↦ rw e (inr e)
  ]

  better_of_keeps :
      (c : Container) (best : Option Container) (x : Container)
      → IsSettled skip better best x
      → IsSettled skip better (better_of better c best) x
  better_of_keeps c none x h = inl h
  better_of_keeps c (some b) x h = elim (Bool-cases (better c b)) [
    | inl e ↦ rw e (worse e h)
    | inr e ↦ rw e h
  ]
    where
      worse :
          better c b ≡ true
          → (skip x ≡ true) ⊎ (better x b ≡ false)
          → (skip x ≡ true) ⊎ (better x c ≡ false)
      worse e (inl s) = inl s
      worse e (inr w) = inr (o.neg_trans c b x (o.asym c b e) w)

  better_of-IsChosen :
      (all : List Container) (c : Container) (best : Option Container)
      → Any (λ x. x ≡ c) all
      → skip c ≡ false
      → IsChosen skip better all best
      → IsChosen skip better all (better_of better c best)
  better_of-IsChosen all c none m h k = (m, h)
  better_of-IsChosen all c (some b) m h k = elim (Bool-cases (better c b)) [
    | inl e ↦ rw e (m, h)
    | inr e ↦ rw e k
  ]

  skip-IsSettled :
      (c : Container) (best : Option Container) → skip c ≡ true → IsSettled skip better best c
  skip-IsSettled c none h = h
  skip-IsSettled c (some b) h = inl h

  -- What the loop gives over `cs`, from `best`.
  abbrev Looped : List Container → List Container → Option Container → Option Container → Type 0
  Looped all cs best r =
      IsChosen skip better all r
      × ((x : Container) → IsSettled skip better best x → IsSettled skip better r x)
      × All (IsSettled skip better r) cs

  loop_lem :
      (all cs : List Container) (best : Option Container)
      → ((c : Container) → Any (λ x. x ≡ c) cs → Any (λ x. x ≡ c) all)
      → IsChosen skip better all best
      → Looped all cs best (best_from skip better cs best)
  unfolding best_from
  loop_lem all [] best sub h = (h, (λ x k. k), tt)
  loop_lem all (c ∷ cs) best sub h = elim (Bool-cases (skip c)) [
    | inl e ↦
        let (chosen, kept, settled) = loop_lem all cs best (λ d m. sub d (inr m)) h in
        let same : best_from skip better cs best ≡ best_from skip better (c ∷ cs) best =
          rw e refl in
        subst (Looped all (c ∷ cs) best) same
          (chosen, kept, (kept c (skip-IsSettled c best e), settled))
    | inr e ↦
        let next = better_of better c best in
        let (chosen, kept, settled) =
          loop_lem all cs next (λ d m. sub d (inr m))
            (better_of-IsChosen all c best (sub c (inl refl)) e h) in
        let same : best_from skip better cs next ≡ best_from skip better (c ∷ cs) best =
          rw e refl in
        subst (Looped all (c ∷ cs) best) same (
          chosen,
          (λ x k. kept x (better_of_keeps c best x k)),
          (kept c (better_of-IsSettled c best), settled),
        )
  ]

  pub best_from-IsBest :
      (cs : List Container) → IsBest skip better cs (best_from skip better cs none)
  best_from-IsBest cs =
      let (chosen, kept, settled) = loop_lem cs cs none (λ c m. m) tt in (chosen, settled)

  -- There is one best choice among the same ranges.
  pub IsBest-unique :
      (xs ys : List Container) (r s : Option Container)
      → ((c : Container) → Any (λ x. x ≡ c) xs → Any (λ x. x ≡ c) ys)
      → ((c : Container) → Any (λ x. x ≡ c) ys → Any (λ x. x ≡ c) xs)
      → IsBest skip better xs r
      → IsBest skip better ys s
      → r ≡ s
  IsBest-unique xs ys none none to from h k = refl
  IsBest-unique xs ys none (some b) to from h k =
      let e = All-member (IsSettled skip better none) xs b h.1 (from b k.0.0) in let f = k.0.1 in cc
  IsBest-unique xs ys (some a) none to from h k =
      let e = All-member (IsSettled skip better none) ys a k.1 (to a h.0.0) in let f = h.0.1 in cc
  IsBest-unique xs ys (some a) (some b) to from h k =
      both (All-member (IsSettled skip better (some a)) xs b h.1 (from b k.0.0))
        (All-member (IsSettled skip better (some b)) ys a k.1 (to a h.0.0))
    where
      both :
          (skip b ≡ true) ⊎ (better b a ≡ false)
          → (skip a ≡ true) ⊎ (better a b ≡ false)
          → some a ≡ some b
      both (inl e) n = let f = k.0.1 in cc
      both (inr m) (inl e) = let f = h.0.1 in cc
      both (inr m) (inr n) = ap some (o.total a b n m)

pub most_specific-IsBest :
    (cs : List Container) (line : ℕ)
    → IsBest (outside line) more_specific cs (most_specific cs line)
unfolding most_specific
most_specific-IsBest cs line =
    best_from-IsBest (outside line) more_specific more_specific-IsStrict cs

pub first_overlapping-IsBest :
    (cs : List Container) (start end : ℕ)
    → IsBest (apart start end) earlier cs (first_overlapping cs start end)
unfolding first_overlapping
first_overlapping-IsBest cs start end =
    best_from-IsBest (apart start end) earlier earlier-IsStrict cs

abbrev pub SameMembers : List Container → List Container → Type 0
SameMembers xs ys =
    ((c : Container) → Any (λ x. x ≡ c) xs → Any (λ x. x ≡ c) ys)
    × ((c : Container) → Any (λ x. x ≡ c) ys → Any (λ x. x ≡ c) xs)

-- The range that a definition, or a line, is linked to does not depend on the order in which the
-- ranges come, nor on how often one comes.
pub span_for_same :
    (xs ys : List Container) (start end : ℕ)
    → SameMembers xs ys
    → (span_for xs start end ≡ span_for ys start end)
      × (most_specific xs start ≡ most_specific ys start)
unfolding span_for
span_for_same xs ys start end (to, from) =
    let inner : most_specific xs start ≡ most_specific ys start =
      IsBest-unique (outside start) more_specific more_specific-IsStrict xs ys _ _ to from
        (most_specific-IsBest xs start) (most_specific-IsBest ys start) in
    let outer : first_overlapping xs start end ≡ first_overlapping ys start end =
      IsBest-unique (apart start end) earlier earlier-IsStrict xs ys _ _ to from
        (first_overlapping-IsBest xs start end) (first_overlapping-IsBest ys start end) in
    (rw (inner, outer) refl, inner)
