-- ===== src/Indexer/Filling.antt =====
-- About the vectors of a commit: reuse changes nothing in what is stored.
use codetrail.Prelude.{
  ℕ, zero, suc, ◌+◌, false, ◌≡◌, refl, ap, ◌∙◌, subst, ◌⊎◌, inl, inr, arith, Option, none, some,
  List, [], ◌∷◌, ◌++◌, map, length, get_elem?, ◌==◌, Bytes, All, Any, Bool-cases,
}
use codetrail.Indexer.Vectors.{EmbeddedSpan, todo_from, text_at, write, write_all}

module _ {C : Type 0} (f : Bytes → List C) where
  -- A span with the vector of its own text.
  abbrev pub filled : EmbeddedSpan C → EmbeddedSpan C
  filled s = record s { embedding = f s.span.text }

  abbrev pub IsFilled : EmbeddedSpan C → Type 0
  IsFilled s = s.embedding ≡ f s.span.text

  -- What holds of the span at an index, if there is one.
  abbrev pub IsFilledAt : Option (EmbeddedSpan C) → Type 0
  IsFilledAt none = Unit
  IsFilledAt (some s) = IsFilled s

  -- Every index is still to be done, or its span has the vector of its text.
  abbrev pub Left : List ℕ → List (EmbeddedSpan C) → Type 0
  Left todo spans = (j : ℕ) → Any (λ i. i ≡ j) todo ⊎ IsFilledAt (get_elem? spans j)

  write_self :
      (spans : List (EmbeddedSpan C)) (i : ℕ)
      → IsFilledAt (get_elem? (write i (f (text_at spans i)) spans) i)
  unfolding write text_at
  write_self [] i = tt
  write_self (s ∷ ss) zero = refl
  write_self (s ∷ ss) (suc i) = write_self ss i

  write-other :
      (spans : List (EmbeddedSpan C)) (i j : ℕ)
      → IsFilledAt (get_elem? spans j)
      → IsFilledAt (get_elem? (write i (f (text_at spans i)) spans) j)
  unfolding write text_at
  write-other [] i j h = h
  write-other (s ∷ ss) zero zero h = refl
  write-other (s ∷ ss) zero (suc j) h = h
  write-other (s ∷ ss) (suc i) zero h = h
  write-other (s ∷ ss) (suc i) (suc j) h = write-other ss i j h

  write-Left :
      (i : ℕ) (is : List ℕ) (spans : List (EmbeddedSpan C))
      → Left (i ∷ is) spans
      → Left is (write i (f (text_at spans i)) spans)
  write-Left i is spans h j = go (h j)
    where
      go :
          Any (λ k. k ≡ j) (i ∷ is) ⊎ IsFilledAt (get_elem? spans j)
          → Any (λ k. k ≡ j) is ⊎ IsFilledAt (get_elem? (write i (f (text_at spans i)) spans) j)
      go (inl (inl e)) = inr (
          subst (λ (k : ℕ). IsFilledAt (get_elem? (write i (f (text_at spans i)) spans) k)) e
            (write_self spans i))
      go (inl (inr m)) = inl m
      go (inr d) = inr (write-other spans i j d)

  -- The spans without their vectors.
  write-filled :
      (i : ℕ) (v : List C) (spans : List (EmbeddedSpan C))
      → map filled (write i v spans) ≡ map filled spans
  unfolding write
  write-filled i v [] = refl
  write-filled zero v (s ∷ ss) = refl
  write-filled (suc i) v (s ∷ ss) = ap (λ r. filled s ∷ r) (write-filled i v ss)

  text_at-write :
      (i : ℕ) (v : List C) (spans : List (EmbeddedSpan C)) (j : ℕ)
      → text_at (write i v spans) j ≡ text_at spans j
  unfolding write text_at
  text_at-write i v [] j = refl
  text_at-write zero v (s ∷ ss) zero = refl
  text_at-write zero v (s ∷ ss) (suc j) = refl
  text_at-write (suc i) v (s ∷ ss) zero = refl
  text_at-write (suc i) v (s ∷ ss) (suc j) = text_at-write i v ss j

  -- A batch: the vectors of the texts at its indices.
  pub write_all-Left :
      (now rest : List ℕ) (spans start : List (EmbeddedSpan C))
      → ((j : ℕ) → text_at spans j ≡ text_at start j)
      → Left (now ++ rest) spans
      → Left rest (write_all now (map f (map (text_at start) now)) spans)
  unfolding write_all
  write_all-Left [] rest spans start e h = h
  write_all-Left (i ∷ is) rest spans start e h = rw (← e i) (
      write_all-Left is rest (write i (f (text_at spans i)) spans) start
        (λ j. text_at-write i (f (text_at spans i)) spans j ∙ e j)
        (write-Left i (is ++ rest) spans h))

  pub write_all-filled :
      (now : List ℕ) (vs : List (List C)) (spans : List (EmbeddedSpan C))
      → map filled (write_all now vs spans) ≡ map filled spans
  unfolding write_all
  write_all-filled [] vs spans = refl
  write_all-filled (i ∷ is) [] spans = refl
  write_all-filled (i ∷ is) (v ∷ vs) spans =
      write_all-filled is vs (write i v spans) ∙ write-filled i v spans

  remains : {P : Type 0} → ⊥ ⊎ P → P
  remains (inl no_index) = absurd no_index
  remains (inr p) = p

  -- With nothing left to do, the spans have the vectors of their texts.
  pub Left-done : (spans : List (EmbeddedSpan C)) → Left [] spans → spans ≡ map filled spans
  Left-done [] h = refl
  Left-done (s ∷ ss) h =
      let head : s ≡ filled s = ap (λ v. record s { embedding = v }) (remains (h 0)) in
      let tail = Left-done ss (λ j. h (suc j)) in cc

  -- A span has no vector, or that of its text.
  abbrev pub IsStarted : EmbeddedSpan C → Type 0
  IsStarted s = (s.embedding ≡ []) ⊎ (s.embedding ≡ f s.span.text)

  pub todo_from-Left :
      (n : ℕ) (spans : List (EmbeddedSpan C))
      → All IsStarted spans
      → (j : ℕ) → Any (λ i. i ≡ n + j) (todo_from n spans) ⊎ IsFilledAt (get_elem? spans j)
  unfolding todo_from
  todo_from-Left n [] h j = inr tt
  todo_from-Left n (s ∷ ss) h zero = elim (Bool-cases (length s.embedding == 0)) [
    | inl e ↦ rw e (inl (inl (omega arith)))
    | inr e ↦ inr (has_vector h.0 e)
  ]
    where
      has_vector : IsStarted s → (length s.embedding == 0) ≡ false → IsFilledAt (some s)
      has_vector (inl no_vector) e = absurd (ground (arith, ap length no_vector))
      has_vector (inr e') e = e'
  todo_from-Left n (s ∷ ss) h (suc j) =
      let rest = todo_from-Left (n + 1) ss h.1 j in
      let shift : n + 1 + j ≡ n + suc j = omega arith in
      elim (Bool-cases (length s.embedding == 0)) [
        | inl e ↦ rw e (
            later (
              subst
                (λ (k : ℕ). Any (λ i. i ≡ k) (todo_from (n + 1) ss) ⊎ IsFilledAt (get_elem? ss j))
                shift rest))
        | inr e ↦ rw e (
            subst (λ (k : ℕ). Any (λ i. i ≡ k) (todo_from (n + 1) ss) ⊎ IsFilledAt (get_elem? ss j))
              shift rest)
      ]
    where
      later : {P Q R : Type 0} → P ⊎ Q → (R ⊎ P) ⊎ Q
      later (inl p) = inl (inr p)
      later (inr q) = inr q
