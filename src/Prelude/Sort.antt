-- ===== src/Prelude/Sort.antt =====
-- `sort.Slice`: a list in the order of a comparison. The sort of the standard library is not stable,
-- so only comparisons that order all distinct elements determine its result: `sort_by-Reordered`.
use codetrail.Prelude.Tests.{if◌then◌else◌, Bool-cases}
use codetrail.Prelude.Lists.{length, All, Any, All-imp}
use Prim.Native.Nat.{suc}
use mathlib.Core.Path.{◌≡◌, refl, sym, ap, ◌∙◌}
use mathlib.Core.Logic.{◌⊎◌, inl, inr}
use mathlib.Core.Bool.{Bool, true, false}
use mathlib.Core.List.{List, [], ◌∷◌}
use native.Mathlib.Omega.{arith}

module _ {ℓ} {A : Type ℓ} (less : A → A → Bool) where
  unfoldable pub insert_by : A → List A → List A
  insert_by x [] = x ∷ []
  insert_by x (y ∷ ys) = let rest = insert_by x ys in if less x y then x ∷ y ∷ ys else y ∷ rest

  unfoldable pub sort_by : List A → List A
  unfolding insert_by
  sort_by [] = []
  sort_by (x ∷ xs) = insert_by x (sort_by xs)

  pub length-insert_by : (x : A) (xs : List A) → length (insert_by x xs) ≡ suc (length xs)
  unfolding insert_by
  length-insert_by x [] = refl
  length-insert_by x (y ∷ ys) = ground (arith, length-insert_by x ys)

  pub length-sort_by : (xs : List A) → length (sort_by xs) ≡ length xs
  unfolding sort_by
  length-sort_by [] = refl
  length-sort_by (x ∷ xs) = length-insert_by x (sort_by xs) ∙ ap suc (length-sort_by xs)

  pub All-insert_by :
      (P : A → Type 0) (x : A) (xs : List A) → P x → All P xs → All P (insert_by x xs)
  unfolding insert_by
  All-insert_by P x [] h k = (h, tt)
  All-insert_by P x (y ∷ ys) h k = elim (Bool-cases (less x y)) [
    | inl first ↦ rw first (h, k)
    | inr later ↦ rw later (k.0, All-insert_by P x ys h k.1)
  ]

  pub All-sort_by : (P : A → Type 0) (xs : List A) → All P xs → All P (sort_by xs)
  unfolding sort_by
  All-sort_by P [] h = tt
  All-sort_by P (x ∷ xs) h = All-insert_by P x (sort_by xs) h.0 (All-sort_by P xs h.1)

  pub Any-insert_by :
      (P : A → Type 0) (x : A) (xs : List A) → P x ⊎ Any P xs → Any P (insert_by x xs)
  unfolding insert_by
  Any-insert_by P x [] h = h
  Any-insert_by P x (y ∷ ys) h = elim (Bool-cases (less x y)) [
    | inl first ↦ rw first h
    | inr later ↦ rw later (move (Any-insert_by P x ys) h)
  ]
    where
      move :
          (P x ⊎ Any P ys → Any P (insert_by x ys))
          → P x ⊎ (P y ⊎ Any P ys)
          → P y ⊎ Any P (insert_by x ys)
      move ih (inl p) = inr (ih (inl p))
      move ih (inr (inl q)) = inl q
      move ih (inr (inr r)) = inr (ih (inr r))

  pub Any-sort_by : (P : A → Type 0) (xs : List A) → Any P xs → Any P (sort_by xs)
  unfolding sort_by
  Any-sort_by P [] h = h
  Any-sort_by P (x ∷ xs) (inl h) = Any-insert_by P x (sort_by xs) (inl h)
  Any-sort_by P (x ∷ xs) (inr h) = Any-insert_by P x (sort_by xs) (inr (Any-sort_by P xs h))

-- No element comes before one that is less than it.
abbrev pub IsSorted {ℓ} : {A : Type ℓ} → (A → A → Bool) → List A → Type 0
IsSorted less [] = Unit
IsSorted less (x ∷ xs) = All (λ y. less y x ≡ false) xs × IsSorted less xs

-- A comparison that puts the elements in an order, up to elements that it does not tell apart.
pub record IsOrdering {ℓ} {A : Type ℓ} (less : A → A → Bool) : Type ℓ where
  pub asym : (a b : A) → less a b ≡ true → less b a ≡ false
  pub trans : (a b c : A) → less a b ≡ true → less b c ≡ true → less a c ≡ true
  pub neg_trans : (a b c : A) → less b a ≡ false → less c b ≡ false → less c a ≡ false

module _ {ℓ} {A : Type ℓ} (less : A → A → Bool) (o : IsOrdering less) where
  insert_by-IsSorted :
      (x : A) (xs : List A) → IsSorted less xs → IsSorted less (insert_by less x xs)
  unfolding insert_by
  insert_by-IsSorted x [] h = (tt, tt)
  insert_by-IsSorted x (y ∷ ys) h = elim (Bool-cases (less x y)) [
    | inl first ↦
        let over = o.asym x y first in
        rw first (
          (
            over,
            All-imp (λ z. less z y ≡ false) (λ z. less z x ≡ false) ys (λ z. o.neg_trans x y z over)
                h.0,
          ),
          h,
        )
    | inr later ↦
        rw later
          (All-insert_by less (λ z. less z y ≡ false) x ys later h.0, insert_by-IsSorted x ys h.1)
  ]

  pub sort_by-IsSorted : (xs : List A) → IsSorted less (sort_by less xs)
  unfolding sort_by
  sort_by-IsSorted [] = tt
  sort_by-IsSorted (x ∷ xs) = insert_by-IsSorted x (sort_by less xs) (sort_by-IsSorted xs)

  insert_by_comm :
      (a b : A) (xs : List A)
      → less a b ≡ true
      → insert_by less a (insert_by less b xs) ≡ insert_by less b (insert_by less a xs)
  unfolding insert_by
  insert_by_comm a b [] h = ground (arith, o.asym a b h)
  insert_by_comm a b (x ∷ xs) h =
      ground (arith, o.asym a b h, insert_by_comm a b xs h, o.trans a b x h)

  -- One list is a rearrangement of the other, by exchanges of neighbours that `less` tells apart.
  pub data Reordered : List A → List A → Type ℓ where
    nil : Reordered [] []
    cons : {x : A} {xs ys : List A} → Reordered xs ys → Reordered (x ∷ xs) (x ∷ ys)
    swap :
        {x y : A} {xs : List A}
        → less x y ≡ true ⊎ less y x ≡ true
        → Reordered (x ∷ y ∷ xs) (y ∷ x ∷ xs)
    trans : {xs ys zs : List A} → Reordered xs ys → Reordered ys zs → Reordered xs zs

  pub sort_by-Reordered : {xs ys : List A} → Reordered xs ys → sort_by less xs ≡ sort_by less ys
  unfolding sort_by
  sort_by-Reordered nil = refl
  sort_by-Reordered (cons {x} r) = ap (insert_by less x) (sort_by-Reordered r)
  sort_by-Reordered (swap {x} {y} {xs} (inl h)) = insert_by_comm x y (sort_by less xs) h
  sort_by-Reordered (swap {x} {y} {xs} (inr h)) = sym (insert_by_comm y x (sort_by less xs) h)
  sort_by-Reordered (trans r s) = sort_by-Reordered r ∙ sort_by-Reordered s
