-- ===== src/Agent/Trace.antt =====
-- packages/shared/agent: bounds.go and trace.go.
use codetrail.Prelude.{ℕ, false, Option, none, List, [], Bytes, Result, ok, refuse_if, ◌>>◌}
use codetrail.Prelude.Int.{ℤ, pos, leb_ℤ, ltb_ℤ}
use codetrail.Llm.{Kind, Usage, rate_limited, unauthorized, unavailable, deadline, malformed}

-- `deadline` is in nanoseconds.
pub record Bounds : Type 0 where
  pub max_steps : ℤ
  pub max_tool_calls : ℤ
  pub max_tool_errors : ℤ
  pub max_repeats : ℤ
  pub max_input_tokens : ℤ
  pub max_output_tokens : ℤ
  pub deadline : ℤ

abbrev pub per_call_output_cap : ℤ
per_call_output_cap = pos 1500

abbrev pub default_bounds : Bounds
default_bounds = record {
  max_steps = pos 6;
  max_tool_calls = pos 12;
  max_tool_errors = pos 2;
  max_repeats = pos 2;
  max_input_tokens = pos 12000;
  max_output_tokens = pos 1500;
  deadline = pos 60_000_000_000;
}

pub data BoundsError : Type 0 where
  bad_max_steps bad_max_tool_calls bad_max_tool_errors bad_max_repeats : BoundsError
  bad_max_input_tokens bad_max_output_tokens bad_deadline : BoundsError

unfoldable pub validate : Bounds → Result BoundsError Unit
validate b = do
  refuse_if (ltb_ℤ b.max_steps (pos 1)) bad_max_steps
  refuse_if (ltb_ℤ b.max_tool_calls (pos 1)) bad_max_tool_calls
  refuse_if (ltb_ℤ b.max_tool_errors (pos 0)) bad_max_tool_errors
  refuse_if (ltb_ℤ b.max_repeats (pos 0)) bad_max_repeats
  refuse_if (ltb_ℤ b.max_input_tokens (pos 1)) bad_max_input_tokens
  refuse_if (ltb_ℤ b.max_output_tokens (pos 1)) bad_max_output_tokens
  refuse_if (leb_ℤ b.deadline (pos 0)) bad_deadline
  ok tt

-- The last two are the gateway's own, decided before the loop runs.
pub data Stop : Type 0 where
  final step_limit tool_call_limit token_budget deadline_passed : Stop
  malformed_tool_call tool_error repeated_tool_call uncited : Stop
  malformed_response provider_rate_limited provider_unauthorized provider_unavailable : Stop
  busy budget_exhausted : Stop

-- The kinds and the stops are strings in the source, and the conversion keeps the spelling.
unfoldable pub stop_of : Kind → Stop
stop_of rate_limited = provider_rate_limited
stop_of unauthorized = provider_unauthorized
stop_of unavailable = provider_unavailable
stop_of deadline = deadline_passed
stop_of malformed = malformed_response

pub record ToolInvocation : Type 0 where
  pub name : Bytes
  pub ms : ℕ

-- `stop` is the empty string until the loop ends.
pub record Trace : Type 0 where
  pub model : Bytes
  pub steps : ℕ
  pub tool_calls : ℕ
  pub stop : Option Stop
  pub tools : List ToolInvocation
  pub usage : Usage
  pub citations_dropped : ℕ

unfoldable pub new_trace : Bytes → Trace
new_trace model = record {
  model = model;
  steps = 0;
  tool_calls = 0;
  stop = none;
  tools = [];
  usage = record { input_tokens = 0; output_tokens = 0; estimated = false };
  citations_dropped = 0;
}
