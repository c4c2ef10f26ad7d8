-- ===== src/Gateway/Read.antt =====
-- apps/gateway/internal/handler/read.go: the body of a question, the repository that a route names,
-- and the answer to a question. What a handler does besides its reply is a list of effects.
use codetrail.Prelude.{
  ℕ, ◌+◌, Bool, true, false, ◌||◌, Option, none, some, List, [], ◌∷◌, ◌++◌, length, get_elem?, ltb,
  ◌==◌, if◌then◌else◌, Bytes, codes, eqb, Result, ok, err, ◌>>=◌, ◌>>◌, refuse_if,
}
use mathlib.Core.Option
use codetrail.Prelude.Int.{ℤ, pos, ltb_ℤ}
use codetrail.Prelude.Floats.{Floats}
use codetrail.Prelude.Utf8.{Unicode}
use codetrail.Models.{Repo, Span}
use codetrail.Agent.State
use codetrail.Rag.Terms.{terms}
use codetrail.Rag.Decide.{Floor, Reason, no_spans, below_floor, unscored}
use codetrail.Rag.Retrieve.{Found}
use codetrail.Rag.Cite.{Outside, Newer}
use codetrail.Rag.Answer.{Budget, Cited, cite}

pub data Answerer : Type 0 where
  extractive llm : Answerer

-- A body after echo's binder; a key that is null or missing is `none`.
pub record SearchRequest (F : Type 0) : Type 0 where
  pub q : Bytes
  pub limit : Option ℤ
  pub mode : Option Bytes
  pub k : Option ℤ
  pub w_vector : Option F
  pub w_lexical : Option F
  pub answerer : Option Bytes

-- The texts of a 400.
pub data BadRequest : Type 0 where
  malformed_body mode_given weights_given empty_q long_q no_terms bad_limit : BadRequest
  bad_answerer no_llm : BadRequest

abbrev pub max_question_len : ℕ
max_question_len = 1000

abbrev pub max_read_limit : ℤ
max_read_limit = pos 50

abbrev pub is_given : {A : Type 0} → Option A → Bool
is_given none = false
is_given (some a) = true

abbrev pub or_default : {A : Type 0} → Option A → A → A
or_default none d = d
or_default (some a) d = a

module _ {F : Type 0} (u : Unicode) (to_lower trim_space : Bytes → Bytes) where
  abbrev pub check_question : SearchRequest F → ℤ → Result BadRequest (Bytes × ℤ)
  check_question req def_limit = do
    refuse_if (is_given req.mode) mode_given
    refuse_if (is_given req.k || (is_given req.w_vector || is_given req.w_lexical)) weights_given
    let q = trim_space req.q
    refuse_if (eqb q []) empty_q
    refuse_if (ltb max_question_len (length q)) long_q
    refuse_if (length (terms u to_lower q false) == 0) no_terms
    let limit = or_default req.limit def_limit
    refuse_if (ltb_ℤ limit (pos 1) || ltb_ℤ max_read_limit limit) bad_limit
    ok (q, limit)

  -- `none` is a body that does not bind.
  unfoldable pub query : Option (SearchRequest F) → ℤ → Result BadRequest (Bytes × ℤ)
  unfolding terms eqb
  query none def_limit = err malformed_body
  query (some req) def_limit = check_question req def_limit

-- An `Answerer`, and whether it is a Loop with BelowFloor.
pub record Model : Type 0 where
  pub ask : Bytes → Bytes → State.Answer
  pub below_floor_ok : Bool

-- The store, the retriever and the model as the handler calls them; `is_not_found` is errors.Is of
-- store.ErrNotFound. A search that fails returns what it has, as in the source.
pub record Handler (F E : Type 0) : Type 0 where
  pub get_repo : Bytes → Result E Repo
  pub repo_gone : Bytes → Result E Bool
  pub newer_commit : Bytes → Result E Newer
  pub search : Bytes → Bytes → ℤ → Found F × Option E
  pub is_not_found : E → Bool
  pub model : Option Model
  pub answer_default : Bytes
  pub floor : Floor F
  pub budget : Budget
  pub now : ℕ

unfoldable pub parse_answerer : Bytes → Result BadRequest Answerer
unfolding eqb
parse_answerer s =
    if eqb s (codes "extractive")
    then ok extractive
    else if eqb s (codes "llm")
    then ok llm
    else err bad_answerer

-- Another setting of the process than `llm`, the empty one among them, is never compared with
-- anything else.
abbrev pub default_answerer : Bytes → Result BadRequest Answerer
default_answerer s = if eqb s (codes "llm") then ok llm else ok extractive

abbrev pub wanted_answerer : Bytes → Option Bytes → Result BadRequest Answerer
wanted_answerer def none = default_answerer def
wanted_answerer def (some s) = parse_answerer s

abbrev pub available : Bool → Answerer → Result BadRequest Answerer
available has extractive = ok extractive
available has llm = if has then ok llm else err no_llm

unfoldable pub answerer : {F E : Type 0} → Handler F E → Option Bytes → Result BadRequest Answerer
unfolding parse_answerer
answerer h req = do want ← wanted_answerer h.answer_default req; available (is_given h.model) want

-- What `lookupRepo` answers when there is no repository to read.
pub data Missing : Type 0 where
  gone unknown read_failed : Missing

abbrev pub after_gone : {E : Type 0} → Result E Bool → Missing
after_gone (err e) = read_failed
after_gone (ok true) = gone
after_gone (ok false) = unknown

module _ {F E : Type 0} (h : Handler F E) where
  abbrev pub after_get : Bytes → Result E Repo → Result Missing Repo
  after_get id (ok r) = ok r
  after_get id (err e) =
      if h.is_not_found e then err (after_gone (h.repo_gone id)) else err read_failed

  unfoldable pub lookup_repo : Bytes → Result Missing Repo
  lookup_repo id = after_get id (h.get_repo id)

-- `none` where `a.Read[pos]` is out of range.
unfoldable pub cited : Outside → Repo → Newer → ℕ → List Span → List ℕ → Option (List Cited)
cited o r newer now read [] = some []
cited o r newer now read (p ∷ ps) = elim (get_elem? read p) [
  | none ↦ none
  | some sp ↦ Option.map (λ cs. cite o r newer now (p + 1) sp ∷ cs) (cited o r newer now read ps)
]

-- `nil` for a score that is not a number.
unfoldable pub number : {F : Type 0} → Floats F → F → Option F
number fl v = if fl.is_nan v then none else some v

unfoldable pub detail : {F : Type 0} → (F → Bytes) → Reason → Floor F → Bytes
detail format no_spans f = codes "Nothing in this repository's index matched the question."
detail format below_floor f =
    let s = codes "The best match scored under the configured floor of " ++ format f.value in
    if f.calibrated
    then s ++ codes "."
    else s
      ++ (codes ". That floor is a mechanism, not a measured threshold: "
          ++ codes "no evaluation has chosen this number, so it has filtered nothing.")
detail format unscored f =
    codes "The best match has no usable similarity score, so there is nothing to judge it by."
