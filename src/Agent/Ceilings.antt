-- ===== src/Agent/Ceilings.antt =====
-- No run passes a ceiling of its bounds, and the trace counts what was done.
use codetrail.Prelude.{
  ℕ, ◌+◌, ◌≤◌, ◌≡◌, refl, ◌⊎◌, List, [], ◌∷◌, length, length-append, Bytes, arith, some, ok, Result,
  err,
}
use codetrail.Prelude.Int.{pos, ◌≤ℤ◌, pos_part}
use codetrail.Llm.{ToolCall, Response}
use codetrail.Agent.Trace.{Bounds, Stop, final, uncited, validate, new_trace}
use codetrail.Agent.State.{Env, Loop, ToolError, ToolOutcome, malformed_call, store_failure}
use codetrail.Agent.Loop.{after_call, bump_errs, run, start, stop, stepped, spend, gated}
use codetrail.Agent.Cite.{resolve}
use codetrail.Agent.Induction.{HandledIs, correct-HandledIs}
use codetrail.Agent.Rules.{CallRules, TurnRules, Heard, noted, HasRoom, run_rule}

-- The counts of a loop under its bounds, with `extra` corrections over the allowance.
pub record IsWithin (b : Bounds) (extra : ℕ) (l : Loop) : Type 0 where
  pub steps : l.tr.steps ≤ pos_part b.max_steps
  pub calls : pos l.tr.tool_calls ≤ℤ b.max_tool_calls
  pub tools : length l.tr.tools ≡ l.tr.tool_calls
  pub errs : pos l.errs ≤ℤ b.max_tool_errors ⊎ (extra ≡ 1)
  pub input : l.tr.usage.input_tokens ≡ l.used_in
  pub output : l.tr.usage.output_tokens ≡ l.used_out

module _ {W : Type 0} (e : Env W) (b : Bounds) where
  abbrev Going : W → Loop → Type 0
  Going w l = IsWithin b 0 l

  abbrev Stopped : W → Loop → Type 0
  Stopped w l = IsWithin b 1 l

  noted-IsWithin :
      (l : Loop) (c : ToolCall) (ms : ℕ)
      → IsWithin b 0 l
      → HasRoom e b l
      → IsWithin b 0 (noted e b l c ms)
  noted-IsWithin l c ms h room =
      ground (arith, length-append {0} l.tr.tools (record { name = c.name; ms = ms } ∷ []))

  corrected-IsWithin :
      (l : Loop)
      → IsWithin b 0 l
      → (pos (l.errs + 1) ≤ℤ b.max_tool_errors → IsWithin b 0 (bump_errs l))
        × IsWithin b 1 (bump_errs l)
  corrected-IsWithin l h = (λ m. ground arith, ground arith)

  after_call-IsWithin :
      (w : W) (c : ToolCall) (l : Loop) (res : Result ToolError ToolOutcome)
      → IsWithin b 0 l
      → HandledIs Going Stopped (w, after_call b c l res)
  unfolding after_call
  after_call-IsWithin w c l (err malformed_call) h =
      let (p, q) = corrected-IsWithin l h in correct-HandledIs Going Stopped b w l _ _ p q
  after_call-IsWithin w c l (err store_failure) h = ground arith
  after_call-IsWithin w c l (ok res) h = ground arith

  calls-IsWithin : CallRules e b Going Stopped
  calls-IsWithin = record {
    limited = λ w l h. ground arith;
    refused = λ w l c h room. let n = noted-IsWithin l c 0 h room in ground arith;
    corrected = λ w l c h room. corrected-IsWithin (noted e b l c 0) (noted-IsWithin l c 0 h room);
    called = λ w l c h asked.
        let (w1, res) = e.call w c in
        let (w2, ms) = e.elapsed w1 in
        after_call-IsWithin w2 c (noted e b l c ms) res (noted-IsWithin l c ms h asked.0);
  }

  Heard-IsWithin :
      (w : W) (l : Loop) (resp : Response) → IsWithin b 0 l → Heard e b Going Stopped w l resp
  unfolding spend
  Heard-IsWithin w l resp h = (ground arith, ground arith, ground arith)

  turns-IsWithin : TurnRules e b Going Stopped
  turns-IsWithin = record {
    before = λ w l h. ground arith;
    sent = λ step w l r hs h ha.
        let l1 = stepped e l step in
        let w2 = (e.complete (e.expired w).0 r).0 in
        let g : IsWithin b 0 l1 = ground arith in
        (ground arith, λ resp eq. Heard-IsWithin w2 l1 resp g);
    turned = λ w l rs h. ground arith;
  }

-- The trace of an answer has the counts of the loop that stopped.
pub stop-counts :
    (l : Loop) (s : Stop)
    → let a = stop l s in
      (a.trace.steps ≡ l.tr.steps)
      × (a.trace.tool_calls ≡ l.tr.tool_calls)
      × (a.trace.tools ≡ l.tr.tools)
      × (a.trace.usage ≡ l.tr.usage)
      × (a.read ≡ l.read)
unfolding stop
stop-counts l final = go (resolve l.text (length l.read))
  where
    go :
        (g : Bytes × List ℕ × ℕ)
        → let a = gated l g in
          (a.trace.steps ≡ l.tr.steps)
          × (a.trace.tool_calls ≡ l.tr.tool_calls)
          × (a.trace.tools ≡ l.tr.tools)
          × (a.trace.usage ≡ l.tr.usage)
          × (a.read ≡ l.read)
    go (text, [], dropped) = (refl, refl, refl, refl, refl)
    go (text, i ∷ cited, dropped) = (refl, refl, refl, refl, refl)
stop-counts l s = (refl, refl, refl, refl, refl)

stop-named : (l : Loop) (s : Stop) → (s' : Stop) × ((stop l s).trace.stop ≡ some s')
unfolding stop
stop-named l final = go (resolve l.text (length l.read))
  where
    go : (g : Bytes × List ℕ × ℕ) → (s' : Stop) × ((gated l g).trace.stop ≡ some s')
    go (text, [], dropped) = (uncited, refl)
    go (text, i ∷ cited, dropped) = (final, refl)
stop-named l s = (s, refl)

valid_bounds :
    (b : Bounds)
    → validate b ≡ ok tt
    → (pos 1 ≤ℤ b.max_steps) × (pos 0 ≤ℤ b.max_tool_calls) × (pos 0 ≤ℤ b.max_tool_errors)
unfolding validate
valid_bounds b h = ground arith

start-IsWithin :
    {W : Type 0} (e : Env W) (b : Bounds) (question : Bytes)
    → validate b ≡ ok tt
    → IsWithin b 0 (start e question)
unfolding new_trace
start-IsWithin e b question h = let (s, c, r) = valid_bounds b h in ground arith

-- Under valid bounds every run of the loop ends with an answer that names its stop, took no more
-- turns and counted no more tool calls than the bounds allow, and lists each tool call it counted.
pub run-ceilings :
    {W : Type 0} (e : Env W) (b : Bounds) (w : W) (question : Bytes)
    → validate b ≡ ok tt
    → let t = (run e b w question).1.trace in
      ((s : Stop) × (t.stop ≡ some s))
      × (pos t.steps ≤ℤ b.max_steps)
      × (pos t.tool_calls ≤ℤ b.max_tool_calls)
      × (length t.tools ≡ t.tool_calls)
run-ceilings e b w question v =
    let (l, s, eq, h) =
      run_rule e b (Going e b) (Stopped e b) (calls-IsWithin e b) (turns-IsWithin e b)
        (λ w l h. ground arith) w question (start-IsWithin e b question v) in
    let c = stop-counts l s in
    let p = valid_bounds b v in
    rw eq (stop-named l s, rw c.0 (ground arith), rw c.1 h.calls, rw (c.2, c.1) h.tools)
