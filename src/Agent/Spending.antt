-- ===== src/Agent/Spending.antt =====
-- The token budgets bound the whole loop, and not each call.
use codetrail.Prelude.{ℕ, refl, sym, ap, subst, ◌+◌, ◌≡◌, Bytes, arith, ok, Result, err}
use codetrail.Prelude.Int.{pos, ◌≤ℤ◌, ◌-ℤ◌, -ℤ_parts}
use codetrail.Llm.{ModelError, ToolCall, Request, Response}
use codetrail.Agent.Trace.{Bounds, validate, new_trace}
use codetrail.Agent.State.{Env, Loop, ToolError, ToolOutcome, malformed_call, store_failure}
use codetrail.Agent.Loop.{after_call, run, stepped, spend}
use codetrail.Agent.Induction.{HandledIs, correct-HandledIs}
use codetrail.Agent.Rules.{CallRules, TurnRules, Heard, noted, run_rule}
use codetrail.Agent.Ceilings.{stop-counts}

-- The output that the trace reports, against the budget.
pub record IsAfforded (b : Bounds) (l : Loop) : Type 0 where
  pub total : pos l.used_out ≤ℤ b.max_output_tokens
  pub reported : l.tr.usage.output_tokens ≡ l.used_out

-- What a provider documents of `max_tokens`: no response is longer.
abbrev pub HonoursCap : {W : Type 0} → Env W → Type 0
HonoursCap {W} e =
    (w : W) (r : Request) (resp : Response)
    → (e.complete w r).1 ≡ ok resp
    → pos resp.usage.output_tokens ≤ℤ r.max_tokens

-- The counter of a provider: the output tokens of the calls that it has answered.
abbrev pub answered : ℕ → Result ModelError Response → ℕ
answered n (ok resp) = n + resp.usage.output_tokens
answered n (err x) = n

-- The same environment, whose world also has that counter.
unfoldable pub metered : {W : Type 0} → Env W → Env (W × ℕ)
metered e = record {
  model_name = e.model_name;
  system_prompt = e.system_prompt;
  specs = e.specs;
  expired = λ s. let (w, late) = e.expired s.0 in ((w, s.1), late);
  complete = λ s r. let (w, resp) = e.complete s.0 r in ((w, answered s.1 resp), resp);
  call = λ s c. let (w, res) = e.call s.0 c in ((w, s.1), res);
  elapsed = λ s. let (w, ms) = e.elapsed s.0 in ((w, s.1), ms);
  canonical = e.canonical;
}

module _ {W : Type 0} (e : Env W) (b : Bounds) (honest : HonoursCap e) where
  -- While the loop goes on, it knows what the counter says.
  abbrev Afforded : W × ℕ → Loop → Type 0
  Afforded s l = IsAfforded b l × (l.used_out ≡ s.1)

  -- At its end the counter is within the budget, and so is the report.
  abbrev Ended : W × ℕ → Loop → Type 0
  Ended s l = IsAfforded b l × (pos s.1 ≤ℤ b.max_output_tokens)

  Afforded-Ended : (s : W × ℕ) (l : Loop) → Afforded s l → Ended s l
  Afforded-Ended s l (h, k) = (h, rw (← k) h.total)

  after_call-Afforded :
      (s : W × ℕ) (c : ToolCall) (l : Loop) (res : Result ToolError ToolOutcome)
      → Afforded s l
      → HandledIs Afforded Ended (s, after_call b c l res)
  unfolding after_call
  after_call-Afforded s c l (err malformed_call) h =
      correct-HandledIs Afforded Ended b s l _ _
        (λ m. (record { total = h.0.total; reported = h.0.reported }, h.1))
        (record { total = h.0.total; reported = h.0.reported }, (Afforded-Ended s l h).1)
  after_call-Afforded s c l (err store_failure) h = Afforded-Ended s l h
  after_call-Afforded s c l (ok res) h =
      (record { total = h.0.total; reported = h.0.reported }, h.1)

  calls-Afforded : CallRules (metered e) b Afforded Ended
  unfolding metered
  calls-Afforded = record {
    limited = Afforded-Ended;
    refused = λ s l c h room.
        (record { total = h.0.total; reported = h.0.reported }, (Afforded-Ended s l h).1);
    corrected = λ s l c h room. (
      λ m. (record { total = h.0.total; reported = h.0.reported }, h.1),
      (record { total = h.0.total; reported = h.0.reported }, (Afforded-Ended s l h).1),
    );
    called = λ s l c h asked.
        let (w1, res) = e.call s.0 c in
        let (w2, ms) = e.elapsed w1 in
        after_call-Afforded (w2, s.1) c (noted (metered e) b l c ms) res
          (record { total = h.0.total; reported = h.0.reported }, h.1);
  }

  -- A response within what is left.
  Heard-Afforded :
      (w : W) (n : ℕ) (l : Loop) (resp : Response)
      → IsAfforded b l
      → l.used_out ≡ n
      → pos (n + resp.usage.output_tokens) ≤ℤ b.max_output_tokens
      → Heard (metered e) b Afforded Ended (w, n + resp.usage.output_tokens) l resp
  unfolding spend
  Heard-Afforded w n l resp h k fits =
      let t : pos (l.used_out + resp.usage.output_tokens) ≤ℤ b.max_output_tokens = rw k fits in
      (
        (record { total = t; reported = refl }, fits),
        (record { total = t; reported = refl }, fits),
        (record { total = t; reported = refl }, ap (λ (x : ℕ). x + resp.usage.output_tokens) k),
      )

  answered-fits :
      (w : W) (n : ℕ) (l : Loop) (r : Request) (res : Result ModelError Response)
      → (e.complete w r).1 ≡ res
      → IsAfforded b l
      → l.used_out ≡ n
      → r.max_tokens ≤ℤ b.max_output_tokens -ℤ pos l.used_out
      → pos (answered n res) ≤ℤ b.max_output_tokens
  answered-fits w n l r (err x) q h k fits = rw (← k) h.total
  answered-fits w n l r (ok resp) q h k fits =
      let parts = -ℤ_parts b.max_output_tokens (pos l.used_out) in
      let short = honest w r resp q in rw (← k) (omega arith)

  turns-Afforded : TurnRules (metered e) b Afforded Ended
  unfolding metered
  turns-Afforded = record {
    before = λ s l h. Afforded-Ended s l h;
    sent = λ step s l r hs h ha.
        let w1 = (e.expired s.0).0 in
        let res = (e.complete w1 r).1 in
        let l' = stepped (metered e) l step in
        let afforded : IsAfforded b l' = record { total = h.0.total; reported = h.0.reported } in
        (
          (afforded, answered-fits w1 s.1 l r res refl h.0 h.1 ha.output),
          λ resp eq.
              let fits = answered-fits w1 s.1 l r (ok resp) eq h.0 h.1 ha.output in
              let same : answered s.1 (ok resp) ≡ answered s.1 res = ap (answered s.1) (sym eq) in
              subst (λ n. Heard (metered e) b Afforded Ended ((e.complete w1 r).0, n) l' resp) same
                (Heard-Afforded (e.complete w1 r).0 s.1 l' resp afforded h.1 fits),
        );
    turned = λ s l rs h. (record { total = h.0.total; reported = h.0.reported }, h.1);
  }

valid_output : (b : Bounds) → validate b ≡ ok tt → pos 0 ≤ℤ b.max_output_tokens
unfolding validate
valid_output b h = ground arith

-- Under valid bounds, with a provider that honours the cap of each request, the output tokens of all
-- calls that the provider answered for one loop, added up by the provider itself, stay within
-- MaxOutputTokens; and so does the number that the trace reports.
pub run-output_budget :
    {W : Type 0} (e : Env W) (b : Bounds) (w : W) (question : Bytes)
    → validate b ≡ ok tt
    → HonoursCap e
    → let (world, answer) = run (metered e) b (w, 0) question in
      (pos world.1 ≤ℤ b.max_output_tokens)
      × (pos answer.trace.usage.output_tokens ≤ℤ b.max_output_tokens)
unfolding new_trace
run-output_budget e b w question v honest =
    let z = valid_output b v in
    let (l, s, eq, h) =
      run_rule (metered e) b (Afforded e b honest) (Ended e b honest) (calls-Afforded e b honest)
        (turns-Afforded e b honest) (Afforded-Ended e b honest) (w, 0) question
        (record { total = z; reported = refl }, refl) in
    (h.1, rw (eq, (stop-counts l s).3, h.0.reported) h.0.total)
