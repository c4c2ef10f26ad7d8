-- ===== src/Agent/Tests.antt =====
-- Runs of the loop and of the gate on concrete inputs.
use codetrail.Prelude.{
  ℕ, ◌+◌, ◌≡◌, refl, false, [], ◌∷◌, length, Bytes, codes, eqb, some, ok, err, All, arith, ◌==◌,
  if◌then◌else◌,
}
use codetrail.Prelude.Int.{pos, ltb_ℤ, ◌≤ℤ◌}
use codetrail.Models.{Span, kind_func}
use codetrail.Llm.{ToolCall, Response, other_error, Usage, estimate_request}
use codetrail.Agent.Trace.{Stop, default_bounds, validate}
use codetrail.Agent.Cite.{resolve}
use codetrail.Agent.State.{Env, ToolOutcome, seen_count, seen_bump, declared}
use codetrail.Agent.Loop.{run, repeat_key}
use codetrail.Agent.Ceilings.{run-ceilings}
use codetrail.Agent.Spending.{metered, HonoursCap, run-output_budget}
use codetrail.Agent.Provenance.{run-provenance}
use codetrail.Agent.Gate.{IsCitable, resolve-untouched, run-gate}
use codetrail.Agent.Repeats.{recording, Declared, Distinct, run-no_repeats}

-- A marker that resolves stays, one that does not is removed, and a subscript is left alone.
resolve_mixed :
    resolve (codes "see [1] and [7], xs[3]") 2 ≡ (codes "see [1] and , xs[3]", 0 ∷ [], 1)
unfolding resolve
resolve_mixed = refl

-- Two markers side by side cite twice.
resolve_adjacent :
    resolve (codes "both agree [1][2]") 2 ≡ (codes "both agree [1][2]", 0 ∷ 1 ∷ [], 0)
unfolding resolve
resolve_adjacent = refl

-- Removing a marker can leave citation-shaped text behind that was never looked at.
resolve_nested : resolve (codes "[1] and [[9]8]") 2 ≡ (codes "[1] and [8]", 0 ∷ [], 1)
unfolding resolve
resolve_nested = refl

adjacent_untouched : (resolve (codes "both agree [1][2]") 2).2 ≡ 0
unfolding resolve
adjacent_untouched = refl

resolve-untouched_example : (resolve (codes "both agree [1][2]") 2).0 ≡ codes "both agree [1][2]"
resolve-untouched_example = resolve-untouched (codes "both agree [1][2]") 2 adjacent_untouched

abbrev opened_span : Span
opened_span = record {
  id = codes "s1";
  repo_id = codes "r";
  file_id = codes "f";
  path = codes "p.go";
  kind = kind_func;
  symbol = codes "T.f";
  start_line = 3;
  end_line = 5;
  text = codes "func";
  digest = codes "d";
}

abbrev read_call : ToolCall
read_call = record { id = codes "c1"; name = codes "read_span"; args = codes "{}" }

abbrev usage : Usage
usage = record { input_tokens = 7; output_tokens = 5; estimated = false }

-- The first two turns make the same call, and the third answers.
abbrev reply : ℕ → Response
reply turn =
    if turn == 2
    then record { text = codes "It is here [1]."; calls = []; usage = usage; stop = codes "end" }
    else record { text = []; calls = read_call ∷ []; usage = usage; stop = codes "tool_use" }

-- The world counts the turns. A request that leaves less than five tokens is refused.
abbrev pub scripted : Env ℕ
scripted = record {
  model_name = codes "m";
  system_prompt = codes "answer from the spans";
  specs =
      (record { name = codes "read_span"; description = codes "open a span"; schema = codes "{}" })
      ∷ [];
  expired = λ w. (w, false);
  complete = λ w r. (w + 1, if ltb_ℤ r.max_tokens (pos 5) then err other_error else ok (reply w));
  call = λ w c.
      (w, ok (record { content = codes "func"; not_found = false; read = opened_span ∷ [] }));
  elapsed = λ w. (w, 1);
  canonical = λ s. some s;
}

question : Bytes
question = codes "where is f?"

scripted_text :
    (run scripted default_bounds 0 (codes "where is f?")).1.text ≡ codes "It is here [1]."
unfolding run estimate_request eqb seen_count declared seen_bump repeat_key resolve
scripted_text = refl

scripted_log :
    (run (recording scripted) default_bounds (0, []) (codes "where is f?")).0.1 ≡ read_call ∷ []
unfolding run recording estimate_request eqb seen_count declared seen_bump repeat_key
scripted_log = refl

default_valid : validate default_bounds ≡ ok tt
unfolding validate
default_valid = refl

scripted-HonoursCap : HonoursCap scripted
scripted-HonoursCap w r resp h = ground arith

run-ceilings_example :
    let t = (run scripted default_bounds 0 question).1.trace in
    ((s : Stop) × (t.stop ≡ some s))
    × (pos t.steps ≤ℤ pos 6)
    × (pos t.tool_calls ≤ℤ pos 12)
    × (length t.tools ≡ t.tool_calls)
run-ceilings_example = run-ceilings scripted default_bounds 0 question default_valid

run-output_budget_example :
    let (world, answer) = run (metered scripted) default_bounds (0, 0) question in
    (pos world.1 ≤ℤ pos 1500) × (pos answer.trace.usage.output_tokens ≤ℤ pos 1500)
run-output_budget_example =
    run-output_budget scripted default_bounds 0 question default_valid scripted-HonoursCap

opens_p :
    (w : ℕ) (c : ToolCall) (o : ToolOutcome)
    → (scripted.call w c).1 ≡ ok o
    → All (λ s. s ≡ opened_span) o.read
opens_p w c o h =
    let e : o ≡ record { content = codes "func"; not_found = false; read = opened_span ∷ [] } =
      cc in
    rw e (refl, tt)

run-provenance_example : All (λ s. s ≡ opened_span) (run scripted default_bounds 0 question).1.read
run-provenance_example =
    run-provenance scripted default_bounds (λ s. s ≡ opened_span) opens_p 0 question

run-gate_example : IsCitable (run scripted default_bounds 0 question).1
run-gate_example = run-gate scripted default_bounds 0 question

run-no_repeats_example :
    let log = (run (recording scripted) default_bounds (0, []) question).0.1 in
    Declared scripted log × Distinct scripted log
run-no_repeats_example = run-no_repeats scripted default_bounds 0 question
