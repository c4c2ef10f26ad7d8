-- ===== src/Agent/Loop.antt =====
-- packages/shared/agent/agent.go: one conversation, as explicit passing of the loop's state and of
-- a world `W` in which the model, the tools and the clock live.
use codetrail.Prelude.{
  ℕ, zero, suc, ◌+◌, true, ◌||◌, none, some, List, [], ◌∷◌, ◌++◌, length, ltb, if◌then◌else◌, Bytes,
  codes, eqb, Result, ok, err,
}
use codetrail.Prelude.Int.{ℤ, pos, ◌-ℤ◌, leb_ℤ, ltb_ℤ, pos_part}
use codetrail.Llm.{
  ToolCall, ToolResult, Request, Usage, Response, ModelError, user, assistant, stop_max_tokens,
  estimate_request, classify,
}
use codetrail.Agent.Trace.{
  Bounds, Stop, new_trace, stop_of, per_call_output_cap, final, step_limit, tool_call_limit,
  token_budget, deadline_passed, malformed_tool_call, tool_error, repeated_tool_call, uncited,
  malformed_response,
}
use codetrail.Agent.Cite.{resolve}
use codetrail.Agent.State.{
  ToolOutcome, ToolError, malformed_call, store_failure, Env, Answer, Loop, seen_count, seen_bump,
  declared, min_ℤ, Round, go_on, halt, Handled, answered, ended,
}

abbrev pub bump_errs : Loop → Loop
bump_errs l = record l { errs = l.errs + 1 }

-- `correctable` with the two branches on its answer.
unfoldable pub correct : Bounds → Loop → Stop → ToolResult → Handled
correct b l s r =
    if ltb_ℤ b.max_tool_errors (pos (l.errs + 1))
    then ended (bump_errs l) s
    else answered (bump_errs l) r

abbrev pub invoked : Loop → Bytes → ℕ → Loop
invoked l name ms = record l {
  tr = record l.tr { tools = l.tr.tools ++ (record { name = name; ms = ms } ∷ []) };
}

abbrev pub tool_err : ToolCall → Bytes → ToolResult
tool_err c content = record { call_id = c.id; content = content; is_error = true }

unfoldable pub spend : Loop → Usage → Loop
spend l u = record l {
  used_in = l.used_in + u.input_tokens;
  used_out = l.used_out + u.output_tokens;
  tr = record l.tr {
    usage = record {
      input_tokens = l.used_in + u.input_tokens;
      output_tokens = l.used_out + u.output_tokens;
      estimated = l.tr.usage.estimated || u.estimated;
    };
  };
}

-- The `switch` on what the tool returned.
unfoldable pub after_call : Bounds → ToolCall → Loop → Result ToolError ToolOutcome → Handled
unfolding correct
after_call b c l (err malformed_call) =
    correct b l malformed_tool_call (tool_err c (codes "{\"error\":\"malformed_call\"}"))
after_call b c l (err store_failure) = ended l tool_error
after_call b c l (ok res) =
    answered (record l { read = l.read ++ res.read })
      (record { call_id = c.id; content = res.content; is_error = res.not_found })

-- A call that was made before, `repeat` times.
unfoldable pub repeated : Bounds → ToolCall → Loop → ℕ → Handled
unfolding correct
repeated b c l repeat =
    if ltb_ℤ b.max_repeats (pos repeat)
    then ended l repeated_tool_call
    else correct b l repeated_tool_call (tool_err c (codes "{\"error\":\"repeated_call\"}"))

-- The call is counted, and its key marked as seen.
abbrev pub counted : Bytes → Loop → Loop
counted k l = record l {
  tr = record l.tr { tool_calls = l.tr.tool_calls + 1 };
  seen = seen_bump l.seen k;
}

-- The assistant's turn, and the user's turn that carries the results.
abbrev pub said : Loop → Response → Loop
said l resp = record l {
  msgs =
      l.msgs
      ++ (record { role = assistant; text = resp.text; calls = resp.calls; results = [] } ∷ []);
}

abbrev pub replied : Loop → List ToolResult → Loop
replied l results = record l {
  msgs = l.msgs ++ (record { role = user; text = []; calls = []; results = results } ∷ []);
}

-- `stop`: for a final answer it runs the citation gate.
abbrev pub finish : Loop → Stop → ℕ → Bytes → List ℕ → Answer
finish l s dropped text cited = record {
  text = text;
  read = l.read;
  cited = cited;
  trace = record l.tr { stop = some s; citations_dropped = dropped };
}

abbrev pub gated : Loop → Bytes × List ℕ × ℕ → Answer
gated l (text, [], dropped) = finish l uncited dropped [] []
gated l (text, i ∷ cited, dropped) = finish l final dropped text (i ∷ cited)

unfoldable pub stop : Loop → Stop → Answer
stop l final = gated l (resolve l.text (length l.read))
stop l s = finish l s l.tr.citations_dropped [] []

module _ {W : Type 0} (e : Env W) where
  -- The name, a zero byte and the arguments, re-encoded where they are JSON.
  unfoldable pub repeat_key : ToolCall → Bytes
  repeat_key c = c.name ++ (0 ∷ elim (e.canonical c.args) [ none ↦ c.args | some a ↦ a ])

  -- The branches of the loop's body in `dispatch` below the ceiling on tool calls; `l` has the call
  -- counted, and `repeat` is how often its key was seen before.
  unfoldable pub handle_new : Bounds → W → Loop → ToolCall → W × Handled
  unfolding correct after_call
  handle_new b w l c =
      if declared e.specs c.name
      then (let (w1, res) = e.call w c in
          let (w2, ms) = e.elapsed w1 in (w2, after_call b c (invoked l c.name ms) res))
      else (
        w,
        correct b (invoked l c.name 0) malformed_tool_call
            (tool_err c (codes "{\"error\":\"unknown_tool\"}")),
      )

  unfoldable pub handle_call : Bounds → W → Loop → ToolCall → W × Handled
  unfolding repeated handle_new
  handle_call b w l c =
      let k = repeat_key c in
      let repeat = seen_count l.seen k in
      let l1 = counted k l in
      if leb_ℤ b.max_tool_calls (pos l.tr.tool_calls)
      then (w, ended l tool_call_limit)
      else if ltb 0 repeat
      then (w, repeated b c (invoked l1 c.name 0) repeat)
      else handle_new b w l1 c

  -- `dispatch`: the calls of one step, in order, until a ceiling fires.
  unfoldable pub dispatch : Bounds → W → Loop → List ToolResult → List ToolCall → W × Round
  unfolding handle_call
  dispatch b w l results [] = (w, go_on (replied l results))
  dispatch b w l results (c ∷ cs) =
      let (w1, h) = handle_call b w l c in
      elim h [
        | ended l1 s ↦ (w1, halt l1 s)
        | answered l1 r ↦ dispatch b w1 l1 (results ++ r ∷ []) cs
      ]

  -- Below the call of the model: an error, a truncated generation, the final text, or tool calls.
  unfoldable pub after_response : Bounds → W → Loop → Response → List ToolCall → W × Round
  unfolding dispatch
  after_response b w l resp [] = (w, halt (record l { text = resp.text }) final)
  after_response b w l resp (c ∷ cs) = dispatch b w (said l resp) [] (c ∷ cs)

  abbrev pub stop_of_error : ModelError → Stop
  stop_of_error er = elim (classify er) [ none ↦ malformed_response | some k ↦ stop_of k ]

  unfoldable pub after_complete : Bounds → W → Loop → Result ModelError Response → W × Round
  unfolding after_response spend classify
  after_complete b w l (err er) = (w, halt l (stop_of_error er))
  after_complete b w l (ok resp) =
      let l1 = spend l resp.usage in
      if eqb resp.stop stop_max_tokens
      then (w, halt l1 token_budget)
      else after_response b w l1 resp resp.calls

  abbrev pub request : Loop → ℤ → Request
  request l max_tokens = record {
    system = e.system_prompt;
    messages = l.msgs;
    tools = e.specs;
    max_tokens = max_tokens;
  }

  abbrev pub stepped : Loop → ℕ → Loop
  stepped l step = record l { tr = record l.tr { steps = step + 1 } }

  -- The body of the loop in `run`, at a step number. `EstimateRequest` does not read `MaxTokens`.
  unfoldable pub round : Bounds → ℕ → W → Loop → W × Round
  unfolding after_complete ◌-ℤ◌
  round b step w l =
      let (w1, late) = e.expired w in
      let remaining = b.max_output_tokens -ℤ pos l.used_out in
      let req = request l (min_ℤ remaining per_call_output_cap) in
      if late
      then (w1, halt l deadline_passed)
      else if ltb_ℤ b.max_input_tokens (pos (l.used_in + estimate_request (request l (pos 0))))
      then (w1, halt l token_budget)
      else if leb_ℤ remaining (pos 0)
      then (w1, halt l token_budget)
      else (let (w2, resp) = e.complete w1 req in after_complete b w2 (stepped l step) resp)

  -- The loop of `run`, by the number of rounds that are left.
  unfoldable pub run_from : ℕ → ℕ → Bounds → W → Loop → W × Answer
  unfolding round stop
  run_from zero step b w l = (w, stop l step_limit)
  run_from (suc left) step b w l =
      let (w1, r) = round b step w l in
      elim r [ halt l1 s ↦ (w1, stop l1 s) | go_on l1 ↦ run_from left (step + 1) b w1 l1 ]

  abbrev pub start : Bytes → Loop
  start question = record {
    tr = new_trace e.model_name;
    msgs = record { role = user; text = question; calls = []; results = [] } ∷ [];
    used_in = 0;
    used_out = 0;
    errs = 0;
    seen = [];
    read = [];
    text = [];
  }

  -- `Run`. The world holds the deadline that is derived once from the caller's context.
  unfoldable pub run : Bounds → W → Bytes → W × Answer
  unfolding run_from new_trace
  run b w question = run_from (pos_part b.max_steps) 0 b w (start question)
