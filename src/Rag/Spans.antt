-- ===== src/Rag/Spans.antt =====
-- What `Search` returns with its hits: no more than asked for, each with its span.
use codetrail.Prelude.{
  ℕ, ◌+◌, ◌≡◌, refl, inl, inr, true, some, List, [], ◌∷◌, Bytes, eqb, eqb_eq, eqb_refl, All, Any,
  Bool-cases,
}
use codetrail.Prelude.Floats.{Floats}
use codetrail.Models.{Span}
use codetrail.Rag.Fuse.{
  Params, Hit, Fused, new_entry, at_entry, add_arm, add_vector, add_lexical, accumulate,
}
use codetrail.Rag.Retrieve.{Cite, wanted, keep_spans, span_at}

module _ {F : Type 0} (fl : Floats F) (R : Bytes → Type 0) where
  -- A statement about the id of an entry.
  abbrev OfId : Fused F → Type 0
  OfId f = R f.span_id

  abbrev OfHit : Hit F → Type 0
  OfHit h = R h.span_id

  at_entry-OfId :
      (f : Fused F → Fused F) (h : Hit F) (acc : List (Fused F))
      → ((x : Fused F) → (f x).span_id ≡ x.span_id)
      → R h.span_id
      → All OfId acc
      → All OfId (at_entry fl f h acc)
  unfolding at_entry
  at_entry-OfId f h [] keeps r k = (rw (keeps (new_entry fl h)) r, tt)
  at_entry-OfId f h (x ∷ xs) keeps r k = elim (Bool-cases (eqb x.span_id h.span_id)) [
    | inl same ↦ rw same (rw (keeps x) k.0, k.1)
    | inr other ↦ rw other (k.0, at_entry-OfId f h xs keeps r k.1)
  ]

  add_arm-OfId :
      (add : Hit F → ℕ → Fused F → Fused F) (i : ℕ) (hs : List (Hit F)) (acc : List (Fused F))
      → ((h : Hit F) (n : ℕ) (x : Fused F) → (add h n x).span_id ≡ x.span_id)
      → All OfHit hs
      → All OfId acc
      → All OfId (add_arm fl add i hs acc)
  unfolding add_arm
  add_arm-OfId add i [] acc keeps r k = k
  add_arm-OfId add i (h ∷ hs) acc keeps r k =
      add_arm-OfId add (i + 1) hs (at_entry fl (add h (i + 1)) h acc) keeps r.1
        (at_entry-OfId (add h (i + 1)) h acc (keeps h (i + 1)) r.0 k)

  pub accumulate-OfId :
      (p : Params F) (vector lexical : List (Hit F))
      → All OfHit vector
      → All OfHit lexical
      → All OfId (accumulate fl p vector lexical)
  unfolding accumulate
  accumulate-OfId p vector lexical v l =
      add_arm-OfId (add_lexical fl p) 0 lexical (add_arm fl (add_vector fl p) 0 vector [])
        (λ h n x. refl) l (add_arm-OfId (add_vector fl p) 0 vector [] (λ h n x. refl) v tt)

-- What Go documents of `range` over a map: it visits entries of the map, in some order.
abbrev pub VisitsOnly : {F : Type 0} → (List (Fused F) → List (Fused F)) → Type 1
VisitsOnly {F} walk = (P : Fused F → Type 0) (xs : List (Fused F)) → All P xs → All P (walk xs)

-- An id has its span in the map.
abbrev pub HasSpan : List (Bytes × Span) → Bytes → Type 0
HasSpan m id = (s : Span) × (span_at m id ≡ some s) × (s.id ≡ id)

module _ {F : Type 0} (hits : List (Fused F)) (id : Bytes) where
  HasSpan-cons : (s : Span) (m : List (Bytes × Span)) → HasSpan m id → HasSpan ((s.id, s) ∷ m) id
  unfolding span_at
  HasSpan-cons s m h = elim (Bool-cases (eqb s.id id)) [
    | inl same ↦ (s, rw same refl, eqb_eq s.id id same)
    | inr other ↦ (h.0, rw other h.1, h.2)
  ]

  pub HasSpan-keep_spans :
      (cs : List (Cite F)) (m : List (Bytes × Span))
      → HasSpan m id
      → HasSpan (keep_spans hits cs m) id
  unfolding keep_spans
  HasSpan-keep_spans [] m h = h
  HasSpan-keep_spans (c ∷ cs) m h = elim (Bool-cases (wanted hits c.span.id)) [
    | inl yes' ↦ rw yes' (HasSpan-keep_spans cs ((c.span.id, c.span) ∷ m) (HasSpan-cons c.span m h))
    | inr no' ↦ rw no' (HasSpan-keep_spans cs m h)
  ]

  -- The span of a wanted id enters the map from the arm that holds it.
  pub keep_spans-HasSpan :
      (cs : List (Cite F)) (m : List (Bytes × Span))
      → wanted hits id ≡ true
      → Any (λ c. c.span.id ≡ id) cs
      → HasSpan (keep_spans hits cs m) id
  unfolding keep_spans span_at
  keep_spans-HasSpan [] m w a = absurd a
  keep_spans-HasSpan (c ∷ cs) m w (inl e) =
      rw (rw (← e) at w)
        (HasSpan-keep_spans cs ((c.span.id, c.span) ∷ m) (c.span, rw (e, eqb_refl id) refl, e))
  keep_spans-HasSpan (c ∷ cs) m w (inr a) = keep_spans-HasSpan cs _ w a
