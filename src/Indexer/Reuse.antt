-- ===== src/Indexer/Reuse.antt =====
-- About the vectors of a commit: with reuse or without, each span gets the vector of its text.
use codetrail.Prelude.{
  ℕ, zero, suc, ◌≤◌, ◌<◌, true, ◌≡◌, refl, sym, ap, ◌∙◌, subst, ◌⊎◌, inl, inr, arith, Option, none,
  some, List, [], ◌∷◌, map, length, length-map, length-drop, take-append-drop, get_elem?, take,
  drop, ◌==◌, ==_iff, Bytes, Result, ok, err, All, All-imp, Any, Bool-cases,
}
use codetrail.Indexer.Vectors.{
  EmbeddedSpan, Source, lent, lend, lend_read, vector_at, digests_of, reuse, todo_from, EmbedError,
  embed_failed, wrong_count, out_of_fuel, text_at, write_all, embed_from, embed_all, fill,
}
use codetrail.Indexer.Filling.{
  filled, IsFilledAt, Left, write_all-Left, write_all-filled, Left-done, IsStarted, todo_from-Left,
}

Result-cases : {E A : Type 0} (x : Result E A) → ((e : E) × (x ≡ err e)) ⊎ ((a : A) × (x ≡ ok a))
Result-cases (err e) = inl (e, refl)
Result-cases (ok a) = inr (a, refl)

module _ {C E : Type 0} (f : Bytes → List C) (digest : Bytes → Bytes) where
  abbrev pub PureReply : List Bytes → Result E (List (List C)) → Type 0
  PureReply ts (ok vs) = vs ≡ map f ts
  PureReply ts (err e) = Unit

  -- The store lends the vector of any text that has the digest.
  abbrev pub HonestLoan : Result E (List (Bytes × List C)) → Type 0
  HonestLoan (err e) = Unit
  HonestLoan (ok have) = (t : Bytes) (v : List C) → vector_at have (digest t) ≡ some v → v ≡ f t

  -- A vector is a function of its text, for the embedder and for the store.
  pub record IsPure (ix : Source C E) : Type 0 where
    pub embeds : (ts : List Bytes) → PureReply ts (ix.embed ts)
    pub lends : (ds : List Bytes) → HonestLoan (ix.embeddings ds ix.model ix.dim)
    pub batched : 0 < ix.embed_batch

  module _ (ix : Source C E) (pure : IsPure ix) where
    -- Every span has the vector of its text, or a call of the embedder failed.
    abbrev pub FillOutcome :
        List (EmbeddedSpan C) → Result (EmbedError E) (List (EmbeddedSpan C)) → Type 0
    FillOutcome spans (ok out) = out ≡ map (filled f) spans
    FillOutcome spans (err (embed_failed e)) = (ts : List Bytes) × (ix.embed ts ≡ err e)
    FillOutcome spans (err wrong_count) = ⊥
    FillOutcome spans (err out_of_fuel) = ⊥

    FillOutcome-eq :
        (spans spans' : List (EmbeddedSpan C)) (x : Result (EmbedError E) (List (EmbeddedSpan C)))
        → map (filled f) spans ≡ map (filled f) spans'
        → FillOutcome spans x
        → FillOutcome spans' x
    FillOutcome-eq spans spans' (ok out) e h = h ∙ e
    FillOutcome-eq spans spans' (err (embed_failed x)) e h = h
    FillOutcome-eq spans spans' (err wrong_count) e h = h
    FillOutcome-eq spans spans' (err out_of_fuel) e h = h

    -- One batch: its vectors are those of its texts, as many as it has indices.
    batch_count :
        (now : List ℕ) (spans : List (EmbeddedSpan C))
        → (length (map f (map (text_at spans) now)) == length now) ≡ true
    batch_count now spans =
        (==_iff _ _).1 (length-map (map (text_at spans) now) f ∙ length-map now (text_at spans))

    embed_from-FillOutcome :
        (fuel : ℕ) (todo : List ℕ) (spans : List (EmbeddedSpan C))
        → length todo ≤ fuel
        → Left f todo spans
        → FillOutcome spans (embed_from ix fuel todo spans)
    unfolding embed_from
    embed_from-FillOutcome zero [] spans h l = Left-done f spans l
    embed_from-FillOutcome (suc fuel) [] spans h l = Left-done f spans l
    embed_from-FillOutcome zero (i ∷ is) spans h l = absurd (omega arith)
    embed_from-FillOutcome (suc fuel) (i ∷ is) spans h l =
        let now = take ix.embed_batch (i ∷ is) in
        let rest = drop ix.embed_batch (i ∷ is) in
        let texts = map (text_at spans) now in
        let split = sym (take-append-drop ix.embed_batch (i ∷ is)) in
        elim (Result-cases (ix.embed texts)) [
          | inl (x, e) ↦ rw (e, embed_from) (texts, e)
          | inr (vs, e) ↦
              let pure_vs : vs ≡ map f texts = subst (PureReply texts) e (pure.embeds texts) in
              let spans' = write_all now (map f texts) spans in
              let shorter : length rest ≤ fuel =
                omega (arith, pure.batched, length-drop ix.embed_batch (i ∷ is)) in
              let left =
                write_all-Left f now rest spans spans (λ j. refl)
                  (subst (λ (k : List ℕ). Left f k spans) split l) in
              rw (e, embed_from, pure_vs, batch_count now spans)
                (FillOutcome-eq spans' spans (embed_from ix fuel rest spans')
                  (write_all-filled f now (map f texts) spans)
                  (embed_from-FillOutcome fuel rest spans' shorter left))
        ]

    -- Spans as `index` makes them: with no vector yet, and the digest of their text.
    abbrev pub IsFresh : EmbeddedSpan C → Type 0
    IsFresh s = (s.embedding ≡ []) × (s.span.digest ≡ digest s.span.text)

    lent-IsStarted :
        (s : EmbeddedSpan C) (o : Option (List C))
        → ((v : List C) → o ≡ some v → v ≡ f s.span.text)
        → IsFresh s
        → IsStarted f (lent ix.dim s o).0 × (filled f (lent ix.dim s o).0 ≡ filled f s)
    lent-IsStarted s none h k = (inl k.0, refl)
    lent-IsStarted s (some v) h k = elim (Bool-cases (length v == ix.dim)) [
      | inl e ↦ rw e (inr (h v refl), refl)
      | inr e ↦ rw e (inl k.0, refl)
    ]

    -- What has been lent is the vector of its text, and nothing else of a span changes.
    lend-IsStarted :
        (have : List (Bytes × List C)) (spans : List (EmbeddedSpan C))
        → ((t : Bytes) (v : List C) → vector_at have (digest t) ≡ some v → v ≡ f t)
        → All IsFresh spans
        → All (IsStarted f) (lend ix.dim have spans).0
          × (map (filled f) (lend ix.dim have spans).0 ≡ map (filled f) spans)
    unfolding lend
    lend-IsStarted have [] h k = (tt, refl)
    lend-IsStarted have (s ∷ ss) h k =
        let (started, same) =
          lent-IsStarted s (vector_at have s.span.digest)
            (λ v e. h s.span.text v (ap (vector_at have) (sym k.0.1) ∙ e)) k.0 in
        let (rest, same_rest) = lend-IsStarted have ss h k.1 in
        ((started, rest), cc (same, same_rest))

    fresh-IsStarted : (spans : List (EmbeddedSpan C)) → All IsFresh spans → All (IsStarted f) spans
    fresh-IsStarted spans k = All-imp IsFresh (IsStarted f) spans (λ s h. inl h.0) k

    lend_read-IsStarted :
        (spans : List (EmbeddedSpan C)) (r : Result E (List (Bytes × List C)))
        → HonestLoan r
        → All IsFresh spans
        → All (IsStarted f) (lend_read ix.dim spans r).0
          × (map (filled f) (lend_read ix.dim spans r).0 ≡ map (filled f) spans)
    lend_read-IsStarted spans (err e) h k = (fresh-IsStarted spans k, refl)
    lend_read-IsStarted spans (ok have) h k = lend-IsStarted have spans h k

    reuse-IsStarted :
        (spans : List (EmbeddedSpan C))
        → All IsFresh spans
        → All (IsStarted f) (reuse ix spans).0
          × (map (filled f) (reuse ix spans).0 ≡ map (filled f) spans)
    unfolding reuse
    reuse-IsStarted [] k = (tt, refl)
    reuse-IsStarted (s ∷ ss) k = elim (Bool-cases ix.reuse_on) [
      | inl e ↦ rw e (
          lend_read-IsStarted (s ∷ ss) (ix.embeddings (digests_of [] (s ∷ ss)) ix.model ix.dim)
            (pure.lends (digests_of [] (s ∷ ss))) k)
      | inr e ↦ rw e (fresh-IsStarted (s ∷ ss) k, refl)
    ]

    -- With reuse or without: where a vector is a function of its text, every span gets the vector of
    -- its own text and changes in nothing else, or a call of the embedder failed. The loop over the
    -- batches ends, and no batch comes back with another number of vectors.
    pub fill-FillOutcome :
        (spans : List (EmbeddedSpan C)) → All IsFresh spans → FillOutcome spans (fill ix spans)
    unfolding fill
    fill-FillOutcome spans k =
        let lent_spans = (reuse ix spans).0 in
        let (started, same) = reuse-IsStarted spans k in
        let todo = todo_from 0 lent_spans in
        FillOutcome-eq lent_spans spans (embed_all ix lent_spans todo) same (
          unfold embed_all in
          (embed_from-FillOutcome (length todo) todo lent_spans (omega arith) (λ j.
            subst (λ (k : ℕ). Any (λ i. i ≡ k) todo ⊎ IsFilledAt f (get_elem? lent_spans j))
              (omega arith) (todo_from-Left f 0 lent_spans started j))))
