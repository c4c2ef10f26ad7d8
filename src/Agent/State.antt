-- ===== src/Agent/State.antt =====
-- packages/shared/agent/agent.go: what the loop keeps, and the interfaces that it calls: a world `W`
-- in which the model, the tools and the clock live.
use codetrail.Prelude.{
  ℕ, ◌+◌, Bool, false, ◌||◌, Option, List, [], ◌∷◌, if◌then◌else◌, Bytes, eqb, Result, map,
}
use codetrail.Prelude.Int.{ℤ, ltb_ℤ}
use codetrail.Models.{Span}
use codetrail.Llm.{ToolCall, ToolResult, Message, ToolSpec, Request, Response, ModelError}
use codetrail.Agent.Trace.{Trace, Stop}

-- What a tool answers: `read` is the spans that it opened.
pub record ToolOutcome : Type 0 where
  pub content : Bytes
  pub not_found : Bool
  pub read : List Span

-- `malformed_call` is an error that wraps ErrMalformedCall.
pub data ToolError : Type 0 where
  malformed_call store_failure : ToolError

-- The interfaces `llm.Model` and `ToolSet`, the context's deadline and the clock. `canonical` is
-- the JSON decoder and encoder of the standard library: `none` where either fails.
pub record Env (W : Type 0) : Type 0 where
  pub model_name : Bytes
  pub system_prompt : Bytes
  pub specs : List ToolSpec
  pub expired : W → W × Bool
  pub complete : W → Request → W × Result ModelError Response
  pub call : W → ToolCall → W × Result ToolError ToolOutcome
  pub elapsed : W → W × ℕ
  pub canonical : Bytes → Option Bytes

pub record Answer : Type 0 where
  pub text : Bytes
  pub read : List Span
  pub cited : List ℕ
  pub trace : Trace

unfoldable pub read_ids : Answer → List Bytes
read_ids a = map (λ sp. sp.id) a.read

-- `seen` is a Go map: a key that is missing counts 0.
pub record Loop : Type 0 where
  pub tr : Trace
  pub msgs : List Message
  pub used_in : ℕ
  pub used_out : ℕ
  pub errs : ℕ
  pub seen : List (Bytes × ℕ)
  pub read : List Span
  pub text : Bytes

unfoldable pub seen_count : List (Bytes × ℕ) → Bytes → ℕ
seen_count [] k = 0
seen_count ((j, n) ∷ m) k = if eqb j k then n else seen_count m k

unfoldable pub seen_bump : List (Bytes × ℕ) → Bytes → List (Bytes × ℕ)
seen_bump [] k = (k, 1) ∷ []
seen_bump ((j, n) ∷ m) k = if eqb j k then (j, n + 1) ∷ m else (j, n) ∷ seen_bump m k

unfoldable pub declared : List ToolSpec → Bytes → Bool
declared [] name = false
declared (s ∷ ss) name = eqb s.name name || declared ss name

abbrev pub min_ℤ : ℤ → ℤ → ℤ
min_ℤ a b = if ltb_ℤ a b then a else b

-- How one call of the model ends: the loop goes on, or a reason to stop.
pub data Round : Type 0 where
  go_on : Loop → Round
  halt : Loop → Stop → Round

-- How one tool call is handled: a result for the model, or a reason to stop.
pub data Handled : Type 0 where
  answered : Loop → ToolResult → Handled
  ended : Loop → Stop → Handled
