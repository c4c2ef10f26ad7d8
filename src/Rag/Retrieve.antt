-- ===== src/Rag/Retrieve.antt =====
-- packages/shared/rag/retrieve.go: one retrieval. The store and the embedder are functions, whose
-- calls either fail or answer; what they fail with passes through.
use codetrail.Prelude.{
  Bool, true, false, not, ◌||◌, ◌&&◌, Option, none, some, List, [], ◌∷◌, map, length, take,
  if◌then◌else◌, Bytes, eqb, Result, ok, err, refuse_if, ◌>>=◌, ◌>>◌,
}
use codetrail.Prelude.Int.{ℤ, pos, ltb_ℤ, pos_part}
use codetrail.Prelude.Floats.{Floats}
use codetrail.Prelude.Utf8.{Unicode}
use codetrail.Models.{Span}
use codetrail.Rag.Decide.{Mode, mode_vector, mode_lexical, Floor, Outcome, Reason, decide}
use codetrail.Rag.Fuse.{Params, ParamsError, Hit, Fused, validate_params, fuse}
use codetrail.Rag.Terms.{terms}

-- models.Cite: a span with the score of the arm that found it.
pub record Cite (F : Type 0) : Type 0 where
  pub span : Span
  pub score : F

-- `Searcher` and `embed.Embedder`; a vector is a value of type `V`, and an error one of type `E`.
pub record Searcher (F V E : Type 0) : Type 0 where
  pub span_embedder : Bytes → Result E (Bytes × ℤ)
  pub vector_search : Bytes → V → ℤ → Result E (List (Cite F))
  pub lexical_search : Bytes → List Bytes → ℤ → Result E (List (Cite F))

pub record Embedder (V E : Type 0) : Type 0 where
  pub model : Bytes
  pub dim : ℤ
  pub embed : List Bytes → Result E (List V)

pub record Retriever (F V E : Type 0) : Type 0 where
  pub store : Searcher F V E
  pub emb : Embedder V E
  pub mode : Mode
  pub fusion : Params F
  pub candidates : ℤ
  pub split : Bool
  pub floor : Floor F

-- `spans` is the map from span ids: the latest entry of an id is the first.
pub record Found (F : Type 0) : Type 0 where
  pub hits : List (Fused F)
  pub spans : List (Bytes × Span)
  pub top_score : F
  pub vector_ran : Bool
  pub mode : Mode

pub data SearchError (E : Type 0) : Type 0 where
  bad_params : ParamsError → SearchError E
  bad_candidates bad_limit model_mismatch bad_vectors : SearchError E
  failed : E → SearchError E

abbrev pub fail_with : {E A : Type 0} → Result E A → Result (SearchError E) A
fail_with (ok a) = ok a
fail_with (err e) = err (failed e)

abbrev pub params_error : {E A : Type 0} → Result ParamsError A → Result (SearchError E) A
params_error (ok a) = ok a
params_error (err e) = err (bad_params e)

module _ {F V E : Type 0} (fl : Floats F) where
  -- A mode is one of three here, so its test has no failure.
  unfoldable pub validate_search : Retriever F V E → ℤ → Result (SearchError E) Unit
  unfolding validate_params
  validate_search r limit = do
    params_error (validate_params fl r.fusion)
    refuse_if (ltb_ℤ r.candidates (pos 1)) bad_candidates
    refuse_if (ltb_ℤ limit (pos 1)) bad_limit
    ok tt

-- The one vector that the embedder answers.
abbrev pub only_vector : {E V : Type 0} → Result E (List V) → Result (SearchError E) V
only_vector (err e) = err (failed e)
only_vector (ok (v ∷ [])) = ok v
only_vector (ok vs) = err bad_vectors

module _ {F V E : Type 0} where
  unfoldable pub embed_query : Retriever F V E → Bytes → Bytes → Result (SearchError E) V
  embed_query r repo_id q = do
    held ← fail_with (r.store.span_embedder repo_id)
    refuse_if (not (eqb held.0 r.emb.model) || not (same held.1 r.emb.dim)) model_mismatch
    only_vector (r.emb.embed (q ∷ []))
    where
      same : ℤ → ℤ → Bool
      same a b = not (ltb_ℤ a b) && not (ltb_ℤ b a)

unfoldable pub hits_of : {F : Type 0} → List (Cite F) → List (Hit F)
hits_of cs =
    map
      (λ c. record {
        span_id = c.span.id;
        path = c.span.path;
        start_line = c.span.start_line;
        score = c.score;
      })
      cs

unfoldable pub wanted : {F : Type 0} → List (Fused F) → Bytes → Bool
wanted [] id = false
wanted (h ∷ hs) id = eqb h.span_id id || wanted hs id

-- One arm of the loop in `spansOf`.
unfoldable pub keep_spans :
    {F : Type 0} → List (Fused F) → List (Cite F) → List (Bytes × Span) → List (Bytes × Span)
unfolding wanted
keep_spans hits [] out = out
keep_spans hits (c ∷ cs) out =
    keep_spans hits cs (if wanted hits c.span.id then (c.span.id, c.span) ∷ out else out)

unfoldable pub spans_of :
    {F : Type 0} → List (Fused F) → List (Cite F) → List (Cite F) → List (Bytes × Span)
unfolding keep_spans
spans_of hits vector lexical = keep_spans hits lexical (keep_spans hits vector [])

unfoldable pub span_at : List (Bytes × Span) → Bytes → Option Span
span_at [] id = none
span_at ((k, s) ∷ m) id = let rest = span_at m id in if eqb k id then some s else rest

abbrev pub vector_runs : Mode → Bool
vector_runs mode_lexical = false
vector_runs _ = true

abbrev pub lexical_runs : Mode → Bool
lexical_runs mode_vector = false
lexical_runs _ = true

module _ {F V E : Type 0} where
  unfoldable pub vector_arm :
      Retriever F V E → Bytes → Bytes → Result (SearchError E) (List (Cite F))
  unfolding embed_query
  vector_arm r repo_id q =
      if vector_runs r.mode
      then (do
        qv ← embed_query r repo_id q
        fail_with (r.store.vector_search repo_id qv r.candidates))
      else ok []

  unfoldable pub lexical_arm :
      Unicode
      → (Bytes → Bytes)
      → Retriever F V E
      → Bytes
      → Bytes
      → Result (SearchError E) (List (Cite F))
  unfolding terms
  lexical_arm u to_lower r repo_id q =
      if lexical_runs r.mode
      then fail_with (r.store.lexical_search repo_id (terms u to_lower q r.split) r.candidates)
      else ok []

module _ {F : Type 0} (fl : Floats F) where
  abbrev pub top_of : List (Cite F) → F
  top_of [] = fl.nan
  top_of (c ∷ cs) = c.score

  unfoldable pub decide_found : Found F → Floor F → Outcome × Option Reason
  unfolding decide
  decide_found res f = decide fl f (length res.hits) res.top_score res.vector_ran

module _ {F V E : Type 0} (fl : Floats F) where
  abbrev pub found : Retriever F V E → List (Fused F) → List (Cite F) → List (Cite F) → Found F
  found r hits vector lexical = record {
    hits = hits;
    spans = spans_of hits vector lexical;
    top_score = top_of fl vector;
    vector_ran = vector_runs r.mode;
    mode = r.mode;
  }

  -- What is returned with an error: nothing found, and the top score as far as it is known.
  abbrev pub unfinished : Retriever F V E → List (Cite F) → Found F
  unfinished r vector = record {
    hits = [];
    spans = [];
    top_score = top_of fl vector;
    vector_ran = vector_runs r.mode;
    mode = r.mode;
  }

  abbrev pub after_arms :
      (List (Fused F) → List (Fused F))
      → Retriever F V E
      → ℤ
      → List (Cite F)
      → Result (SearchError E) (List (Cite F))
      → Found F × Option (SearchError E)
  after_arms walk r limit vector (err e) = (unfinished r vector, some e)
  after_arms walk r limit vector (ok lexical) =
      let hits = take (pos_part limit) (fuse fl walk r.fusion (hits_of vector) (hits_of lexical)) in
      (found r hits vector lexical, none)

  abbrev pub after_vector :
      (List (Fused F) → List (Fused F))
      → Unicode
      → (Bytes → Bytes)
      → Retriever F V E
      → Bytes
      → Bytes
      → ℤ
      → Result (SearchError E) (List (Cite F))
      → Found F × Option (SearchError E)
  after_vector walk u to_lower r repo_id q limit (err e) = (unfinished r [], some e)
  after_vector walk u to_lower r repo_id q limit (ok vector) =
      after_arms walk r limit vector (lexical_arm u to_lower r repo_id q)

  -- A retriever that is not valid gives the zero result, whose mode is none: `none` here.
  abbrev pub after_validate :
      (List (Fused F) → List (Fused F))
      → Unicode
      → (Bytes → Bytes)
      → Retriever F V E
      → Bytes
      → Bytes
      → ℤ
      → Result (SearchError E) Unit
      → Option (Found F) × Option (SearchError E)
  after_validate walk u to_lower r repo_id q limit (err e) = (none, some e)
  after_validate walk u to_lower r repo_id q limit (ok _) =
      let (res, e) = after_vector walk u to_lower r repo_id q limit (vector_arm r repo_id q) in
      (some res, e)

  unfoldable pub search :
      (List (Fused F) → List (Fused F))
      → Unicode
      → (Bytes → Bytes)
      → Retriever F V E
      → Bytes
      → Bytes
      → ℤ
      → Option (Found F) × Option (SearchError E)
  unfolding validate_search vector_arm lexical_arm fuse hits_of spans_of
  search walk u to_lower r repo_id q limit =
      after_validate walk u to_lower r repo_id q limit (validate_search fl r limit)
