-- ===== src/Gateway/Views.antt =====
-- apps/gateway/internal/handler/graph.go: the limits, the parameters and what the routes over the
-- symbol graph show.
use codetrail.Prelude.{
  ℕ, Bool, true, false, ◌||◌, Option, none, some, List, [], ◌∷◌, length, take, ltb, ◌==◌,
  if◌then◌else◌, Bytes, Result, ok, err,
}
use codetrail.Prelude.Int.{ℤ, pos, pos_part, ltb_ℤ}
use codetrail.Models.{Span, Symbol, Provenance, resolved, syntactic}
use codetrail.Store.Callers.{Caller}
use codetrail.Rag.Cite.{Staleness, Citation}
use codetrail.Gateway.Read.{Missing}

abbrev pub default_limit : ℕ
default_limit = 20

abbrev pub default_depth : ℕ
default_depth = 1

abbrev pub max_depth : ℕ
max_depth = 3

-- store.Approximate
pub record Approximate : Type 0 where
  pub symbol : Symbol
  pub to_name : Bytes
  pub call_path : Bytes
  pub call_line : ℕ

-- The reads of the store behind the routes, and strconv and strings.
pub record SymbolStore (E : Type 0) : Type 0 where
  pub definitions : Bytes → Bytes → Bytes → Bool → ℕ → Result E (List Symbol)
  pub symbol : Bytes → Bytes → Result E Symbol
  pub callers_of : Bytes → Bytes → ℕ → ℕ → Result E (List Caller)
  pub approximate_callers_of : Bytes → Bytes → ℕ → Result E (List Approximate)
  pub get_span : Bytes → Bytes → Result E Span
  pub atoi : Bytes → Option ℤ
  pub parse_bool : Bytes → Option Bool
  pub trim_space : Bytes → Bytes

pub data Refusal : Type 0 where
  empty_name bad_suffix bad_limit bad_depth no_symbol failed : Refusal
  missing : Missing → Refusal

abbrev pub in_range : ℤ → Refusal → Option ℤ → Result Refusal ℕ
in_range most e none = err e
in_range most e (some n) = if ltb_ℤ n (pos 1) || ltb_ℤ most n then err e else ok (pos_part n)

abbrev pub parsed_bool : Option Bool → Result Refusal Bool
parsed_bool none = err bad_suffix
parsed_bool (some b) = ok b

-- h.fail: the error is logged, and the client sees a 500.
abbrev pub or_fail : {E A : Type 0} → Result E A → Result Refusal A
or_fail (err e) = err failed
or_fail (ok a) = ok a

abbrev pub or_missing : {A : Type 0} → Result Missing A → Result Refusal A
or_missing (err e) = err (missing e)
or_missing (ok a) = ok a

unfoldable pub clip : {A : Type 0} → List A → ℕ → List A × Bool
clip rows limit = if ltb limit (length rows) then (take limit rows, true) else (rows, false)

-- What follows the last dot, if there is one.
abbrev pub or_whole : Bytes → Option Bytes → Bytes
or_whole name none = name
or_whole name (some rest) = rest

unfoldable pub after_dot : Bytes → Option Bytes
after_dot [] = none
after_dot (c ∷ s) =
    let later = after_dot s in
    elim later [ some rest ↦ some rest | none ↦ if c == b'.' then some s else none ]

unfoldable pub approx_name : Bytes → Bytes
unfolding after_dot
approx_name name = or_whole name (after_dot name)

pub record CallerView : Type 0 where
  pub symbol : Symbol
  pub depth : ℕ
  pub provenance : Provenance
  pub call_path : Bytes
  pub call_line : ℕ
  pub citation : Option Citation

pub record ApproximateCaller : Type 0 where
  pub symbol : Symbol
  pub to_name : Bytes
  pub provenance : Provenance
  pub call_path : Bytes
  pub call_line : ℕ
  pub citation : Option Citation

abbrev pub caller_view : Caller → Option Citation → CallerView
caller_view cl c = record {
  symbol = cl.symbol;
  depth = cl.depth;
  provenance = resolved;
  call_path = cl.call_path;
  call_line = cl.call_line;
  citation = c;
}

abbrev pub approximate_view : Approximate → Option Citation → ApproximateCaller
approximate_view a c = record {
  symbol = a.symbol;
  to_name = a.to_name;
  provenance = syntactic;
  call_path = a.call_path;
  call_line = a.call_line;
  citation = c;
}

pub record ApproximateView : Type 0 where
  pub count : ℕ
  pub truncated : Bool
  pub failed : Bool
  pub callers : List ApproximateCaller

pub record CallersResponse : Type 0 where
  pub repo_id : Bytes
  pub symbol : Symbol
  pub depth : ℕ
  pub truncated : Bool
  pub callers : List CallerView
  pub approximate : ApproximateView

pub record SymbolsResponse : Type 0 where
  pub repo_id : Bytes
  pub count : ℕ
  pub suffix : Bool
  pub truncated : Bool
  pub symbols : List Symbol
  pub staleness : Staleness

pub record SymbolResponse : Type 0 where
  pub symbol : Symbol
  pub citation : Option Citation
  pub staleness : Staleness
