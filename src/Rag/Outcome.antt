-- ===== src/Rag/Outcome.antt =====
-- What `Search` returns, on every path.
use codetrail.Prelude.{
  All-take, ◌≤◌, ◌≡◌, refl, ◌⊎◌, inl, inr, true, Option, none, some, List, [], ◌∷◌, length, take,
  length-take, Bytes, eqb_refl, arith, All, Any, All-imp, ok, err, Result,
}
use codetrail.Prelude.Int.{ℤ, pos_part}
use codetrail.Prelude.Sort.{All-sort_by}
use codetrail.Prelude.Floats.{Floats}
use codetrail.Prelude.Utf8.{Unicode}
use codetrail.Rag.Fuse.{Fused, accumulate, fused_less, fuse}
use codetrail.Rag.Retrieve.{
  Cite, Retriever, Found, SearchError, hits_of, wanted, keep_spans, spans_of, after_arms,
  after_vector, after_validate, vector_arm, lexical_arm, validate_search, search,
}
use codetrail.Rag.Spans.{
  accumulate-OfId, VisitsOnly, HasSpan, HasSpan-keep_spans, keep_spans-HasSpan,
}

-- The id is that of a span which one of the arms returned.
abbrev pub FromArms : {F : Type 0} → List (Cite F) → List (Cite F) → Bytes → Type 0
FromArms vector lexical id = Any (λ c. c.span.id ≡ id) vector ⊎ Any (λ c. c.span.id ≡ id) lexical

module _ {F : Type 0} where
  hits_of-Any : (cs : List (Cite F)) → All (λ h. Any (λ c. c.span.id ≡ h.span_id) cs) (hits_of cs)
  unfolding hits_of
  hits_of-Any [] = tt
  hits_of-Any (c ∷ cs) = (
    inl refl,
    All-imp (λ h. Any (λ d. d.span.id ≡ h.span_id) cs) _ (hits_of cs) (λ h a. inr a)
        (hits_of-Any cs),
  )

  wanted-All : (hits : List (Fused F)) → All (λ h. wanted hits h.span_id ≡ true) hits
  unfolding wanted
  wanted-All [] = tt
  wanted-All (h ∷ hs) = (
    rw (eqb_refl h.span_id) refl,
    All-imp (λ x. wanted hs x.span_id ≡ true) _ hs (λ x w. ground arith) (wanted-All hs),
  )

  spans_of-HasSpan :
      (hits : List (Fused F)) (vector lexical : List (Cite F)) (id : Bytes)
      → wanted hits id ≡ true
      → FromArms vector lexical id
      → HasSpan (spans_of hits vector lexical) id
  unfolding spans_of
  spans_of-HasSpan hits vector lexical id w (inl v) =
      HasSpan-keep_spans hits id lexical (keep_spans hits vector [])
        (keep_spans-HasSpan hits id vector [] w v)
  spans_of-HasSpan hits vector lexical id w (inr l) =
      keep_spans-HasSpan hits id lexical (keep_spans hits vector []) w l

  All-both :
      (P Q R : Fused F → Type 0) (xs : List (Fused F))
      → ((x : Fused F) → P x → Q x → R x)
      → All P xs
      → All Q xs
      → All R xs
  All-both P Q R [] f h k = tt
  All-both P Q R (x ∷ xs) f h k = (f x h.0 k.0, All-both P Q R xs f h.1 k.1)

-- Without an error: both arms ran, and at most `limit` hits, each returned by an arm and with its span.
-- With one: nothing found and the error of an arm that failed, or, where the retriever itself is
-- refused, no result at all and the reason.
abbrev pub SearchOutcome :
    {F E : Type 0}
    → ℤ
    → Result (SearchError E) Unit
    → Result (SearchError E) (List (Cite F))
    → Result (SearchError E) (List (Cite F))
    → Option (Found F) × Option (SearchError E)
    → Type 0
SearchOutcome limit valid vector lexical (some res, none) =
    (valid ≡ ok tt)
    × (vs : List _) × (vector ≡ ok vs)
    × (ls : List _) × (lexical ≡ ok ls)
    × (length res.hits ≤ pos_part limit)
    × All (λ h. FromArms vs ls h.span_id × HasSpan res.spans h.span_id) res.hits
SearchOutcome limit valid vector lexical (some res, some e) =
    (valid ≡ ok tt)
    × (res.hits ≡ [])
    × (res.spans ≡ [])
    × ((vector ≡ err e) ⊎ ((vs : List _) × (vector ≡ ok vs) × (lexical ≡ err e)))
SearchOutcome limit valid vector lexical (none, some e) = valid ≡ err e
SearchOutcome limit valid vector lexical (none, none) = ⊥

module _ {F V E : Type 0} (fl : Floats F) (walk : List (Fused F) → List (Fused F))
    (visits : VisitsOnly walk) (r : Retriever F V E) (limit : ℤ) where
  fuse-FromArms :
      (vector lexical : List (Cite F))
      → All
          (λ f. FromArms vector lexical f.span_id)
          (fuse fl walk r.fusion (hits_of vector) (hits_of lexical))
  unfolding fuse
  fuse-FromArms vector lexical =
      let R = FromArms vector lexical in
      let acc = accumulate fl r.fusion (hits_of vector) (hits_of lexical) in
      All-sort_by (fused_less fl) (λ f. R f.span_id) (walk acc)
        (visits (λ f. R f.span_id) acc
          (accumulate-OfId fl R r.fusion (hits_of vector) (hits_of lexical)
            (All-imp (λ h. Any (λ c. c.span.id ≡ h.span_id) vector) _ (hits_of vector)
              (λ h a. inl a) (hits_of-Any vector))
            (All-imp (λ h. Any (λ c. c.span.id ≡ h.span_id) lexical) _ (hits_of lexical)
              (λ h a. inr a) (hits_of-Any lexical))))

  found-HasSpan :
      (hits : List (Fused F)) (vector lexical : List (Cite F))
      → All (λ f. FromArms vector lexical f.span_id) hits
      → All (λ h. HasSpan (spans_of hits vector lexical) h.span_id) hits
  found-HasSpan hits vector lexical h =
      All-both (λ x. wanted hits x.span_id ≡ true) (λ f. FromArms vector lexical f.span_id) _ hits
        (λ x w a. spans_of-HasSpan hits vector lexical x.span_id w a) (wanted-All hits) h

  found-Both :
      (hits : List (Fused F)) (vector lexical : List (Cite F))
      → All (λ f. FromArms vector lexical f.span_id) hits
      → All
          (λ h.
            FromArms vector lexical h.span_id × HasSpan (spans_of hits vector lexical) h.span_id)
          hits
  found-Both hits vector lexical h =
      All-both (λ f. FromArms vector lexical f.span_id)
        (λ h. HasSpan (spans_of hits vector lexical) h.span_id) _ hits (λ x a k. (a, k)) h
        (found-HasSpan hits vector lexical h)

  module _ (valid : Result (SearchError E) Unit) (passes : valid ≡ ok tt) where
    after_arms-SearchOutcome :
        (vector : List (Cite F)) (first res : Result (SearchError E) (List (Cite F)))
        → first ≡ ok vector
        → let (f, e) = after_arms fl walk r limit vector res in
          SearchOutcome limit valid first res (some f, e)
    after_arms-SearchOutcome vector first (err e) q = (passes, refl, refl, inr (vector, q, refl))
    after_arms-SearchOutcome vector first (ok lexical) q =
        let all = fuse fl walk r.fusion (hits_of vector) (hits_of lexical) in
        (
          passes,
          vector,
          q,
          lexical,
          refl,
          omega (arith, length-take (pos_part limit) all),
          found-Both (take (pos_part limit) all) vector lexical (
              All-take (λ f. FromArms vector lexical f.span_id) (pos_part limit) all
                (fuse-FromArms vector lexical)),
        )

    module _ (u : Unicode) (to_lower : Bytes → Bytes) (repo_id q : Bytes) where
      after_vector-SearchOutcome :
          (res : Result (SearchError E) (List (Cite F)))
          → let (f, e) = after_vector fl walk u to_lower r repo_id q limit res in
            SearchOutcome limit valid res (lexical_arm u to_lower r repo_id q) (some f, e)
      after_vector-SearchOutcome (err e) = (passes, refl, refl, inl refl)
      after_vector-SearchOutcome (ok vector) =
          after_arms-SearchOutcome vector (ok vector) (lexical_arm u to_lower r repo_id q) refl

  module _ (u : Unicode) (to_lower : Bytes → Bytes) (repo_id q : Bytes) where
    after_validate-SearchOutcome :
        (res : Result (SearchError E) Unit)
        → SearchOutcome limit res
            (vector_arm r repo_id q)
            (lexical_arm u to_lower r repo_id q)
            (after_validate fl walk u to_lower r repo_id q limit res)
    after_validate-SearchOutcome (err e) = refl
    after_validate-SearchOutcome (ok _) =
        after_vector-SearchOutcome (ok tt) refl u to_lower repo_id q (vector_arm r repo_id q)

    -- In whatever order the map of the fused spans is visited, a search succeeds only where the
    -- retriever is valid and both of its arms return, and gives at most `limit` hits, each returned by
    -- an arm, and for each the span of its id. Where an arm fails it returns no hit and the error of
    -- that arm, of the vector arm before the lexical one; and where the retriever is refused it
    -- returns the reason alone.
    pub search-SearchOutcome :
        SearchOutcome limit
          (validate_search fl r limit)
          (vector_arm r repo_id q)
          (lexical_arm u to_lower r repo_id q)
          (search fl walk u to_lower r repo_id q limit)
    unfolding search
    search-SearchOutcome = after_validate-SearchOutcome (validate_search fl r limit)
