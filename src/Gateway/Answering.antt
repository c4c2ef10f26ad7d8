-- ===== src/Gateway/Answering.antt =====
-- apps/gateway/internal/handler/read.go: the route that answers a question. The loop writes the
-- answer where it can, and the extractive answer takes its place where it cannot.
use codetrail.Prelude.{
  ℕ, Bool, true, false, not, ◌&&◌, ◌||◌, Option, none, some, List, [], ◌∷◌, ◌++◌, ltb,
  if◌then◌else◌, Bytes, Result, ok, err,
}
use codetrail.Prelude.Int.{ℤ}
use codetrail.Prelude.Floats.{Floats}
use codetrail.Prelude.Utf8.{Unicode}
use codetrail.Models.{Repo}
use codetrail.Agent.Trace.{Stop, final, Trace}
use codetrail.Agent.State
use codetrail.Rag.Decide.{Mode, Outcome, outcome_answered, outcome_refused, Reason, below_floor}
use codetrail.Rag.Retrieve.{Found, decide_found}
use codetrail.Rag.Cite.{Outside, Newer}
use codetrail.Rag.Answer.{Cited, assemble}
use codetrail.Gateway.Read.{
  Answerer, extractive, llm, SearchRequest, BadRequest, Model, Handler, query, answerer, Missing,
  lookup_repo, cited, number,
}

-- The fields of an answer or a refusal that the two share.
pub record Common (F : Type 0) : Type 0 where
  pub repo_id : Bytes
  pub answered_by : Answerer
  pub degraded : Option (Option Stop)
  pub trace : Option Trace
  pub mode : Mode
  pub top_score : Option F
  pub applicable : Bool

pub data Reply (F : Type 0) : Type 0 where
  bad_request : BadRequest → Reply F
  missing : Missing → Reply F
  failed : Reply F
  crashed : Reply F
  refused : Common F → Option Reason → Reply F
  answered : Common F → Bytes → List Cited → ℕ → Reply F

-- The counters of package metrics, the model, and the clock of eviction.
pub data Effect : Type 0 where
  asked_model : Effect
  count_stop : Option Stop → Effect
  observe : ℕ → Effect
  count_answered count_refused count_error : Effect
  count_refusal : Option Reason → Effect
  count_by : Answerer → Effect
  touched : Bytes → Effect

-- `&&` over the reason, which is empty unless the outcome is a refusal.
abbrev pub is_below_floor : Option Reason → Bool
is_below_floor (some below_floor) = true
is_below_floor _ = false

abbrev pub is_refused : Outcome → Bool
is_refused outcome_refused = true
is_refused outcome_answered = false

-- The model to try, if any.
abbrev pub loop_of : Answerer → Option Model → Outcome × Option Reason → Option Model
loop_of extractive m d = none
loop_of llm none d = none
loop_of llm (some m) d =
    if not (is_refused d.0) || (is_below_floor d.1 && m.below_floor_ok) then some m else none

abbrev pub observed : Trace → List Effect
observed t = if ltb 0 t.steps then observe t.steps ∷ [] else []

module _ {F E : Type 0} (fl : Floats F) (o : Outside) (h : Handler F E) (r : Repo)
    (out : Found F) where
  abbrev pub common : Answerer → Option (Option Stop) → Option Trace → Common F
  common by degraded trace = record {
    repo_id = r.id;
    answered_by = by;
    degraded = degraded;
    trace = trace;
    mode = out.mode;
    top_score = number fl out.top_score;
    applicable = out.vector_ran;
  }

  unfoldable pub refuse :
      Option Reason → Option (Option Stop) → Option Trace → Reply F × List Effect
  unfolding number
  refuse reason degraded trace = (
    refused (common extractive degraded trace) reason,
    count_refused ∷ count_refusal reason ∷ count_by extractive ∷ touched r.id ∷ [],
  )

  abbrev pub extract : Option (Option Stop) → Option Trace → Result E Newer → Reply F × List Effect
  extract degraded trace (err e) = (failed, count_error ∷ [])
  extract degraded trace (ok newer) =
      let a = assemble o r out.spans newer out.hits h.now h.budget in
      (
        answered (common extractive degraded trace) a.text a.citations a.dropped,
        count_answered ∷ count_by extractive ∷ touched r.id ∷ [],
      )

  -- The end of the route, which the loop's degradation reaches too.
  abbrev pub without_loop :
      Outcome × Option Reason → Option (Option Stop) → Option Trace → Reply F × List Effect
  without_loop (outcome_refused, reason) degraded trace = refuse reason degraded trace
  without_loop (outcome_answered, reason) degraded trace =
      extract degraded trace (h.newer_commit r.id)

  abbrev pub from_loop : State.Answer → Option (List Cited) → Reply F × List Effect
  from_loop a none = (crashed, count_answered ∷ count_by llm ∷ touched r.id ∷ [])
  from_loop a (some cs) = (
    answered (common llm none (some a.trace)) a.text cs 0,
    count_answered ∷ count_by llm ∷ touched r.id ∷ [],
  )

  abbrev pub after_newer : State.Answer → Result E Newer → Reply F × List Effect
  after_newer a (err e) = (failed, count_error ∷ [])
  after_newer a (ok newer) = from_loop a (cited o r newer h.now a.read a.cited)

  abbrev pub after_stop :
      Outcome × Option Reason → State.Answer → Option Stop → Reply F × List Effect
  after_stop d a (some final) = after_newer a (h.newer_commit r.id)
  after_stop d a stop = without_loop d (some stop) (some a.trace)

  abbrev pub after_loop : Outcome × Option Reason → Bytes → Option Model → Reply F × List Effect
  after_loop d q none = without_loop d none none
  after_loop d q (some m) =
      let a = m.ask r.id q in
      let rest = after_stop d a a.trace.stop in
      (rest.0, asked_model ∷ count_stop a.trace.stop ∷ observed a.trace ++ rest.1)

  abbrev pub after_decision : Answerer → Bytes → Reply F × List Effect
  after_decision want q =
      let d = decide_found fl out h.floor in after_loop d q (loop_of want h.model d)

  -- A search that fails otherwise than by finding no spans is a failure of the route.
  abbrev pub after_search : Answerer → Bytes → Option E → Reply F × List Effect
  after_search want q none = after_decision want q
  after_search want q (some e) =
      if h.is_not_found e then after_decision want q else (failed, count_error ∷ [])

abbrev pub named_answerer : {F : Type 0} → Option (SearchRequest F) → Option Bytes
named_answerer none = none
named_answerer (some req) = req.answerer

module _ {F E : Type 0} (fl : Floats F) (u : Unicode) (to_lower trim_space : Bytes → Bytes)
    (o : Outside) (h : Handler F E) where
  abbrev pub after_lookup : Answerer → Bytes × ℤ → Result Missing Repo → Reply F × List Effect
  after_lookup want (q, limit) (err m) = (missing m, [])
  after_lookup want (q, limit) (ok r) =
      let (out, e) = h.search r.id q limit in after_search fl o h r out want q e

  abbrev pub after_answerer : Bytes → Bytes × ℤ → Result BadRequest Answerer → Reply F × List Effect
  after_answerer id q (err b) = (bad_request b, [])
  after_answerer id q (ok want) = after_lookup want q (lookup_repo h id)

  abbrev pub after_query :
      Bytes → Option Bytes → Result BadRequest (Bytes × ℤ) → Reply F × List Effect
  after_query id named (err b) = (bad_request b, [])
  after_query id named (ok q) = after_answerer id q (answerer h named)

  -- The route's `id` and its body; a body that does not bind is `none`.
  unfoldable pub ask : Bytes → Option (SearchRequest F) → Reply F × List Effect
  unfolding query answerer lookup_repo refuse number cited assemble decide_found
  ask id body =
      after_query id (named_answerer body) (query u to_lower trim_space body h.budget.max_spans)
