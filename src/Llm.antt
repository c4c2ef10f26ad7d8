-- ===== src/Llm.antt =====
-- packages/shared/llm: llm.go and errors.go, the types of one model call and their sizes. A provider
-- bills no negative count, so token counts are natural numbers.
use codetrail.Prelude.{ℕ, ◌+◌, ◌/◌, Bool, Option, none, some, List, [], ◌∷◌, length, Bytes, codes}
use codetrail.Prelude.Int.{ℤ}

pub data Role : Type 0 where
  user assistant : Role

pub record ToolCall : Type 0 where
  pub id : Bytes
  pub name : Bytes
  pub args : Bytes

pub record ToolResult : Type 0 where
  pub call_id : Bytes
  pub content : Bytes
  pub is_error : Bool

pub record Message : Type 0 where
  pub role : Role
  pub text : Bytes
  pub calls : List ToolCall
  pub results : List ToolResult

pub record ToolSpec : Type 0 where
  pub name : Bytes
  pub description : Bytes
  pub schema : Bytes

pub record Request : Type 0 where
  pub system : Bytes
  pub messages : List Message
  pub tools : List ToolSpec
  pub max_tokens : ℤ

pub record Usage : Type 0 where
  pub input_tokens : ℕ
  pub output_tokens : ℕ
  pub estimated : Bool

pub record Response : Type 0 where
  pub text : Bytes
  pub calls : List ToolCall
  pub usage : Usage
  pub stop : Bytes

abbrev pub stop_max_tokens : Bytes
stop_max_tokens = codes "max_tokens"

abbrev pub chars_per_token : ℕ
chars_per_token = 4

unfoldable pub estimate_tokens : Bytes → ℕ
estimate_tokens s = length s / chars_per_token

calls_tokens : List ToolCall → ℕ
calls_tokens [] = 0
calls_tokens (c ∷ cs) = estimate_tokens c.name + estimate_tokens c.args + calls_tokens cs

results_tokens : List ToolResult → ℕ
results_tokens [] = 0
results_tokens (r ∷ rs) = estimate_tokens r.content + results_tokens rs

messages_tokens : List Message → ℕ
messages_tokens [] = 0
messages_tokens (m ∷ ms) =
    estimate_tokens m.text + calls_tokens m.calls + results_tokens m.results + messages_tokens ms

tools_tokens : List ToolSpec → ℕ
tools_tokens [] = 0
tools_tokens (t ∷ ts) =
    estimate_tokens t.name
    + estimate_tokens t.description
    + estimate_tokens t.schema
    + tools_tokens ts

unfoldable pub estimate_request : Request → ℕ
unfolding estimate_tokens calls_tokens results_tokens messages_tokens tools_tokens
estimate_request r = estimate_tokens r.system + messages_tokens r.messages + tools_tokens r.tools

-- errors.go: why a provider did not answer.
pub data Kind : Type 0 where
  rate_limited unauthorized unavailable deadline malformed : Kind

-- A `*Failure` somewhere in the error's chain, or any other error.
pub data ModelError : Type 0 where
  failure : Kind → ModelError
  other_error : ModelError

unfoldable pub classify : ModelError → Option Kind
classify (failure k) = some k
classify other_error = none
