-- ===== src/Gateway/Honest.antt =====
-- About the route that answers: its reply says what wrote it and why, and is counted once.
use codetrail.Prelude.{
  ℕ, zero, suc, ◌+◌, ◌<◌, true, ◌≡◌, refl, sym, ap, ◌⊎◌, inl, inr, arith, Option, none, some, List,
  [], ◌∷◌, ◌++◌, length, get_elem?, ltb, Bytes, Result, ok, err, All, Bool-cases,
}
use codetrail.Prelude.Floats.{Floats}
use codetrail.Models.{Repo, Span}
use codetrail.Agent.Trace.{Stop, final, Trace}
use codetrail.Agent.Gate.{IsCitable}
use codetrail.Rag.Decide.{Outcome, outcome_answered, outcome_refused, Reason, below_floor}
use codetrail.Rag.Retrieve.{Found, decide_found}
use codetrail.Rag.Cite.{Outside, Newer}
use codetrail.Rag.Answer.{Cited, assemble, cite}
use codetrail.Gateway.Read.{Answerer, extractive, llm, Model, Handler, cited}
use codetrail.Gateway.Answering.{
  Common, Reply, bad_request, missing, crashed, refused, answered, Effect, asked_model,
  count_answered, count_refused, count_error, count_by, observed, refuse, extract, without_loop,
  after_newer, after_stop,
}

-- How often a list of effects counts an outcome, names an answerer and asks the model.
abbrev pub outcomes : List Effect → ℕ
outcomes [] = 0
outcomes (count_answered ∷ es) = suc (outcomes es)
outcomes (count_refused ∷ es) = suc (outcomes es)
outcomes (count_error ∷ es) = suc (outcomes es)
outcomes (_ ∷ es) = outcomes es

abbrev pub writers : List Effect → List Answerer
writers [] = []
writers (count_by a ∷ es) = a ∷ writers es
writers (_ ∷ es) = writers es

abbrev pub model_calls : List Effect → ℕ
model_calls [] = 0
model_calls (asked_model ∷ es) = suc (model_calls es)
model_calls (_ ∷ es) = model_calls es

-- The same, read off the reply: a rejected request and a missing repository are not counted.
abbrev pub reply_outcomes : {F : Type 0} → Reply F → ℕ
reply_outcomes (bad_request b) = 0
reply_outcomes (missing m) = 0
reply_outcomes _ = 1

abbrev pub reply_writers : {F : Type 0} → Reply F → List Answerer
reply_writers (refused c reason) = c.answered_by ∷ []
reply_writers (answered c text cs dropped) = c.answered_by ∷ []
reply_writers _ = []

cited_all :
    (o : Outside) (r : Repo) (newer : Newer) (now : ℕ) (read : List Span) (ps : List ℕ)
    → All (λ p. p < length read) ps
    → (cs : List Cited) × (cited o r newer now read ps ≡ some cs)
unfolding cited
cited_all o r newer now read [] h = ([], refl)
cited_all o r newer now read (p ∷ ps) h =
    let (sp, e) = found_at read p h.0 in
    let (cs, e') = cited_all o r newer now read ps h.1 in
    (cite o r newer now (p + 1) sp ∷ cs, rw (e, cited, e') refl)
  where
    found_at : (xs : List Span) (i : ℕ) → i < length xs → (sp : Span) × (get_elem? xs i ≡ some sp)
    found_at [] i h = absurd (omega arith)
    found_at (x ∷ xs) zero h = (x, refl)
    found_at (x ∷ xs) (suc i) h = found_at xs i (omega arith)

-- What observing the loop's length does not change.
module _ (t : Trace) (es : List Effect) where
  pub outcomes-observed : outcomes (observed t ++ es) ≡ outcomes es
  outcomes-observed = elim (Bool-cases (ltb 0 t.steps)) [ inl e ↦ rw e refl | inr e ↦ rw e refl ]

  pub writers-observed : writers (observed t ++ es) ≡ writers es
  writers-observed = elim (Bool-cases (ltb 0 t.steps)) [ inl e ↦ rw e refl | inr e ↦ rw e refl ]

  pub model_calls-observed : model_calls (observed t ++ es) ≡ model_calls es
  model_calls-observed = elim (Bool-cases (ltb 0 t.steps)) [ inl e ↦ rw e refl | inr e ↦ rw e refl ]

module _ {F E : Type 0} (fl : Floats F) (o : Outside) (h : Handler F E) (r : Repo) (out : Found F)
    (q : Bytes) where
  -- The loop wrote it: the model's own final text, and nothing is degraded.
  pub record ByLoop (c : Common F) (text : Bytes) : Type 0 where
    pub model : Model
    pub configured : h.model ≡ some model
    pub by_loop : c.answered_by ≡ llm
    pub finished : (model.ask r.id q).trace.stop ≡ some final
    pub own_text : text ≡ (model.ask r.id q).text
    pub whole : c.degraded ≡ none

  -- The extractive answer, where the floor refused nothing; degraded just where the loop ran.
  pub record ByExtract (c : Common F) (text : Bytes) (cs : List Cited) (dropped : ℕ) : Type 0 where
    pub newer : Newer
    pub known : h.newer_commit r.id ≡ ok newer
    pub by_extract : c.answered_by ≡ extractive
    pub allowed : (decide_found fl out h.floor).0 ≡ outcome_answered
    pub own_text : text ≡ (assemble o r out.spans newer out.hits h.now h.budget).text
    pub own_cites : cs ≡ (assemble o r out.spans newer out.hits h.now h.budget).citations
    pub own_drops : dropped ≡ (assemble o r out.spans newer out.hits h.now h.budget).dropped

  pub record ByRefusal (c : Common F) (reason : Option Reason) : Type 0 where
    pub by_refusal : c.answered_by ≡ extractive
    pub denied : (decide_found fl out h.floor).0 ≡ outcome_refused
    pub own_reason : reason ≡ (decide_found fl out h.floor).1

  abbrev pub Honest : Reply F → Type 0
  Honest (answered c text cs dropped) = ByLoop c text ⊎ ByExtract c text cs dropped
  Honest (refused c reason) = ByRefusal c reason
  Honest crashed = ⊥
  Honest _ = Unit

  -- When the model may be asked: the caller wants it, and the floor refused nothing, or refused the
  -- score where the deployment tries the loop all the same.
  abbrev pub MayAsk : Answerer → Type 0
  MayAsk want =
      (want ≡ llm)
      × (((decide_found fl out h.floor).0 ≡ outcome_answered)
          ⊎ (((decide_found fl out h.floor).1 ≡ some below_floor)
              × (m : Model) × (h.model ≡ some m)
              × (m.below_floor_ok ≡ true)))

  pub record IsServed (want : Answerer) (x : Reply F × List Effect) : Type 0 where
    pub honest : Honest x.0
    pub counted : outcomes x.1 ≡ reply_outcomes x.0
    pub named : writers x.1 ≡ reply_writers x.0
    pub frugal : (model_calls x.1 ≡ 0) ⊎ ((model_calls x.1 ≡ 1) × MayAsk want)

  -- The same of a part of the route that does not ask the model.
  pub record IsPart (x : Reply F × List Effect) : Type 0 where
    pub honest : Honest x.0
    pub counted : outcomes x.1 ≡ reply_outcomes x.0
    pub named : writers x.1 ≡ reply_writers x.0
    pub silent : model_calls x.1 ≡ 0

  extract-IsPart :
      (degraded : Option (Option Stop)) (trace : Option Trace) (n : Result E Newer)
      → h.newer_commit r.id ≡ n
      → (decide_found fl out h.floor).0 ≡ outcome_answered
      → IsPart (extract fl o h r out degraded trace n)
  extract-IsPart degraded trace (err e) k allowed = record {
    honest = tt;
    counted = refl;
    named = refl;
    silent = refl;
  }
  extract-IsPart degraded trace (ok newer) k allowed = record {
    honest = inr record {
      newer = newer;
      known = k;
      by_extract = refl;
      allowed = allowed;
      own_text = refl;
      own_cites = refl;
      own_drops = refl;
    };
    counted = refl;
    named = refl;
    silent = refl;
  }

  pub without_loop-IsPart :
      (d : Outcome × Option Reason) (degraded : Option (Option Stop)) (trace : Option Trace)
      → decide_found fl out h.floor ≡ d
      → IsPart (without_loop fl o h r out d degraded trace)
  unfolding refuse
  without_loop-IsPart (outcome_refused, reason) degraded trace e = record {
    honest = record {
      by_refusal = refl;
      denied = ap (λ p. p.0) e;
      own_reason = sym (ap (λ p. p.1) e);
    };
    counted = refl;
    named = refl;
    silent = refl;
  }
  without_loop-IsPart (outcome_answered, reason) degraded trace e =
      extract-IsPart degraded trace (h.newer_commit r.id) refl (ap (λ p. p.0) e)

  module _ (m : Model) (configured : h.model ≡ some m) (gate : IsCitable (m.ask r.id q)) where
    after_newer-IsPart :
        (n : Result E Newer)
        → (m.ask r.id q).trace.stop ≡ some final
        → IsPart (after_newer fl o h r out (m.ask r.id q) n)
    after_newer-IsPart (err e) s = record {
      honest = tt;
      counted = refl;
      named = refl;
      silent = refl;
    }
    after_newer-IsPart (ok newer) s =
        let a = m.ask r.id q in
        let (cs, e) = cited_all o r newer h.now a.read a.cited gate.0 in
        rw e (record {
          honest = inl record {
            model = m;
            configured = configured;
            by_loop = refl;
            finished = s;
            own_text = refl;
            whole = refl;
          };
          counted = refl;
          named = refl;
          silent = refl;
        })

    pub after_stop-IsPart :
        (d : Outcome × Option Reason) (stop : Option Stop)
        → decide_found fl out h.floor ≡ d
        → (m.ask r.id q).trace.stop ≡ stop
        → IsPart (after_stop fl o h r out d (m.ask r.id q) stop)
    after_stop-IsPart d (some final) e s = after_newer-IsPart (h.newer_commit r.id) s
    after_stop-IsPart d stop e s = without_loop-IsPart d (some stop) (some (m.ask r.id q).trace) e
