-- ===== src/Agent/Provenance.antt =====
-- Where the spans of an answer come from, and what its citations point at.
use codetrail.Prelude.{◌≡◌, refl, Bytes, All, All-append, ok, err, Result}
use codetrail.Models.{Span}
use codetrail.Llm.{ToolCall}
use codetrail.Agent.Trace.{Bounds}
use codetrail.Agent.State.{Env, Loop, ToolError, ToolOutcome, malformed_call, store_failure}
use codetrail.Agent.Loop.{after_call, run, spend}
use codetrail.Agent.Induction.{HandledIs, correct-HandledIs}
use codetrail.Agent.Rules.{CallRules, TurnRules, noted, run_rule}
use codetrail.Agent.Ceilings.{stop-counts}

module _ {W : Type 0} (e : Env W) (b : Bounds) (R : Span → Type 0)
    (opened : (w : W) (c : ToolCall) (o : ToolOutcome) → (e.call w c).1 ≡ ok o → All R o.read) where
  abbrev AllRead : W → Loop → Type 0
  AllRead w l = All R l.read

  after_call-AllRead :
      (w : W) (c : ToolCall) (l : Loop) (res : Result ToolError ToolOutcome)
      → ((o : ToolOutcome) → res ≡ ok o → All R o.read)
      → All R l.read
      → HandledIs AllRead AllRead (w, after_call b c l res)
  unfolding after_call
  after_call-AllRead w c l (err malformed_call) ho h =
      correct-HandledIs AllRead AllRead b w l _ _ (λ m. h) h
  after_call-AllRead w c l (err store_failure) ho h = h
  after_call-AllRead w c l (ok res) ho h = All-append R l.read res.read h (ho res refl)

  calls-AllRead : CallRules e b AllRead AllRead
  calls-AllRead = record {
    limited = λ w l h. h;
    refused = λ w l c h room. h;
    corrected = λ w l c h room. (λ m. h, h);
    called = λ w l c h asked.
        let (w1, res) = e.call w c in
        let (w2, ms) = e.elapsed w1 in
        after_call-AllRead w2 c (noted e b l c ms) res (opened w c) h;
  }

  turns-AllRead : TurnRules e b AllRead AllRead
  unfolding spend
  turns-AllRead = record {
    before = λ w l h. h;
    sent = λ step w l r hs h ha. (h, λ resp eq. (h, h, h));
    turned = λ w l rs h. h;
  }

  -- Every span of an answer was opened by a tool: what holds of each span that the tool set
  -- reports as read holds of each span of the answer, whatever the model wrote.
  pub run-provenance : (w : W) (question : Bytes) → All R (run e b w question).1.read
  run-provenance w question =
      let (l, s, eq, h) =
        run_rule e b AllRead AllRead calls-AllRead turns-AllRead (λ w l h. h) w question tt in
      rw (eq, (stop-counts l s).4) h
