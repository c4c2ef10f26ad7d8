-- ===== src/Agent/Bound.antt =====
-- packages/shared/agent: the loop over the tool set of one repository, as `NewTools` binds it.
use codetrail.Prelude.{ℕ, ◌≡◌, subst, Bytes, All, ok, err, Result}
use codetrail.Agent.Trace.{Bounds}
use codetrail.Agent.State.{Env, ToolOutcome, ToolError}
use codetrail.Agent.Loop.{run}
use codetrail.Agent.Provenance.{run-provenance}
use codetrail.Agent.Answers.{Corpus, ToolLimits, Std}
use codetrail.Agent.Tools.{tool_call}
use codetrail.Agent.Opened.{Given, IsOpened, tool_call-IsOpened}

module _ {W F C : Type 0} (e : Env W) (std : Std) (corpus : Corpus F C) (repo_id : Bytes)
    (lim : ToolLimits) where
  -- The environment `e`, with the tool set in place of its tools.
  unfoldable pub with_tools : Env (W × (C × ℕ))
  with_tools = record {
    model_name = e.model_name;
    system_prompt = e.system_prompt;
    specs = e.specs;
    expired = λ s. let (w, late) = e.expired s.0 in ((w, s.1), late);
    complete = λ s r. let (w, resp) = e.complete s.0 r in ((w, s.1), resp);
    call = λ s c. let (t, res) = tool_call std corpus repo_id lim s.1 c in ((s.0, t), res);
    elapsed = λ s. let (w, ms) = e.elapsed s.0 in ((w, s.1), ms);
    canonical = e.canonical;
  }

  IsOpened-read :
      (n : ℕ) (x : (C × ℕ) × Result ToolError ToolOutcome) (o : ToolOutcome)
      → IsOpened corpus repo_id lim n x
      → x.1 ≡ ok o
      → All (Given corpus repo_id) o.read
  IsOpened-read n (w, err er) o h eq = cc
  IsOpened-read n (w, ok p) o h eq =
      let same : p ≡ o = cc in subst (λ q. All (Given corpus repo_id) q.read) same h.0

  -- Whatever the model writes and whatever tools it calls, each span that an answer rests on, and
  -- so each that it can cite, was given by the store for the one repository that was asked about.
  pub run-Given :
      (b : Bounds) (w : W) (c : C) (question : Bytes)
      → All (Given corpus repo_id) (run with_tools b (w, (c, 0)) question).1.read
  unfolding with_tools
  run-Given b w c question =
      run-provenance with_tools b (Given corpus repo_id)
        (λ s call o eq.
          IsOpened-read s.1.1 (tool_call std corpus repo_id lim s.1 call) o
            (tool_call-IsOpened corpus repo_id std lim s.1 call) eq)
        (w, (c, 0)) question
