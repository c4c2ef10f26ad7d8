-- ===== src/Agent/Repeats.antt =====
-- The tool set is asked only for tools that it declares, and never twice for one call.
use codetrail.Prelude.{
  ℕ, suc, ◌<◌, ◌≡◌, ◌≢◌, refl, List, [], ◌∷◌, Bytes, true, false, arith, All, All-imp, ok, err,
  Result, eqb, eqb_iff, eqb_refl, if◌then◌else◌, ltb,
}
use codetrail.Llm.{ToolCall}
use codetrail.Agent.Trace.{Bounds}
use codetrail.Agent.State.{
  Env, Loop, ToolError, ToolOutcome, malformed_call, store_failure, seen_count, seen_bump, declared,
}
use codetrail.Agent.Loop.{after_call, bump_errs, run, spend, repeat_key}
use codetrail.Agent.Induction.{HandledIs, correct-HandledIs}
use codetrail.Agent.Rules.{CallRules, TurnRules, noted, run_rule}

-- The same environment, whose world also keeps the calls that reach the tool set, newest first.
unfoldable pub recording : {W : Type 0} → Env W → Env (W × List ToolCall)
recording e = record {
  model_name = e.model_name;
  system_prompt = e.system_prompt;
  specs = e.specs;
  expired = λ s. let (w, late) = e.expired s.0 in ((w, s.1), late);
  complete = λ s r. let (w, resp) = e.complete s.0 r in ((w, s.1), resp);
  call = λ s c. let (w, res) = e.call s.0 c in ((w, c ∷ s.1), res);
  elapsed = λ s. let (w, ms) = e.elapsed s.0 in ((w, s.1), ms);
  canonical = e.canonical;
}

pub seen_count-bump :
    (m : List (Bytes × ℕ)) (k j : Bytes)
    → seen_count (seen_bump m k) j ≡ (if eqb k j then suc (seen_count m j) else seen_count m j)
unfolding seen_count seen_bump
seen_count-bump [] k j = ground arith
seen_count-bump ((i, n) ∷ m) k j =
    ground (arith, seen_count-bump m k j, eqb_iff i k, eqb_iff i j, eqb_iff k j)

module _ {W : Type 0} (e : Env W) where
  -- Calls of declared tools, no two of which have one key.
  abbrev pub Distinct : List ToolCall → Type 0
  Distinct [] = Unit
  Distinct (c ∷ cs) = All (λ d. repeat_key e c ≢ repeat_key e d) cs × Distinct cs

  abbrev pub Declared : List ToolCall → Type 0
  Declared = All (λ c. declared e.specs c.name ≡ true)

  -- The loop has seen every call of the log.
  abbrev HasSeen : Loop → ToolCall → Type 0
  HasSeen l c = 0 < seen_count l.seen (repeat_key e c)

  record IsLogged (log : List ToolCall) (l : Loop) : Type 0 where
    known : Declared log
    distinct : Distinct log
    seen : All (HasSeen l) log

  HasSeen-counted :
      (l : Loop) (k : Bytes) (c : ToolCall)
      → HasSeen l c
      → 0 < seen_count (seen_bump l.seen k) (repeat_key e c)
  HasSeen-counted l k c h = rw seen_count-bump (ground arith)

  fresh :
      (l : Loop) (c d : ToolCall)
      → ltb 0 (seen_count l.seen (repeat_key e c)) ≡ false
      → HasSeen l d
      → repeat_key e c ≢ repeat_key e d
  fresh l c d new h eq = let h' : 0 < seen_count l.seen (repeat_key e c) = rw eq h in ground arith

  module _ (b : Bounds) where
    abbrev Logged : W × List ToolCall → Loop → Type 0
    Logged s l = IsLogged s.1 l

    key-recording : (c : ToolCall) → repeat_key (recording e) c ≡ repeat_key e c
    unfolding recording repeat_key
    key-recording c = refl

    -- A call that is counted leaves the log as it was.
    noted-IsLogged :
        (log : List ToolCall) (l : Loop) (c : ToolCall) (ms : ℕ)
        → IsLogged log l
        → IsLogged log (noted (recording e) b l c ms)
    noted-IsLogged log l c ms h = record {
      known = h.known;
      distinct = h.distinct;
      seen =
          All-imp (HasSeen l) (HasSeen (noted (recording e) b l c ms)) log
            (HasSeen-counted l (repeat_key (recording e) c)) h.seen;
    }

    -- A call that reaches the tool set enters the log.
    asked-IsLogged :
        (log : List ToolCall) (l : Loop) (c : ToolCall) (ms : ℕ)
        → IsLogged log l
        → ltb 0 (seen_count l.seen (repeat_key e c)) ≡ false
        → declared e.specs c.name ≡ true
        → IsLogged (c ∷ log) (noted (recording e) b l c ms)
    asked-IsLogged log l c ms h new known = record {
      known = (known, h.known);
      distinct = (
        All-imp (HasSeen l) (λ d. repeat_key e c ≢ repeat_key e d) log (λ d. fresh l c d new)
            h.seen,
        h.distinct,
      );
      seen = (
        rw (key-recording, seen_count-bump, eqb_refl) (omega arith),
        (noted-IsLogged log l c ms h).seen,
      );
    }

    after_call-IsLogged :
        (s : W × List ToolCall) (c : ToolCall) (l : Loop) (res : Result ToolError ToolOutcome)
        → IsLogged s.1 l
        → HandledIs Logged Logged (s, after_call b c l res)
    unfolding after_call
    after_call-IsLogged s c l (err malformed_call) h =
        correct-HandledIs Logged Logged b s l _ _ (λ m. same h) (same h)
      where
        same : IsLogged s.1 l → IsLogged s.1 (bump_errs l)
        same h = record { known = h.known; distinct = h.distinct; seen = h.seen }
    after_call-IsLogged s c l (err store_failure) h = h
    after_call-IsLogged s c l (ok res) h = record {
      known = h.known;
      distinct = h.distinct;
      seen = h.seen;
    }

    calls-IsLogged : CallRules (recording e) b Logged Logged
    unfolding recording
    calls-IsLogged = record {
      limited = λ w l h. h;
      refused = λ w l c h room. noted-IsLogged w.1 l c 0 h;
      corrected = λ w l c h room.
          let n = noted-IsLogged w.1 l c 0 h in
          (
            λ m. record { known = n.known; distinct = n.distinct; seen = n.seen },
            record { known = n.known; distinct = n.distinct; seen = n.seen },
          );
      called = λ w l c h asked.
          let (w1, res) = e.call w.0 c in
          let (w2, ms) = e.elapsed w1 in
          let new : ltb 0 (seen_count l.seen (repeat_key e c)) ≡ false =
            rw (key-recording c) at asked.1 in
          after_call-IsLogged (w2, c ∷ w.1) c (noted (recording e) b l c ms) res
            (asked-IsLogged w.1 l c ms h new asked.2);
    }

    turns-IsLogged : TurnRules (recording e) b Logged Logged
    unfolding recording spend
    turns-IsLogged = record {
      before = λ w l h. h;
      sent = λ step w l r hs h ha. (
        record { known = h.known; distinct = h.distinct; seen = h.seen },
        λ resp eq. (
          record { known = h.known; distinct = h.distinct; seen = h.seen },
          record { known = h.known; distinct = h.distinct; seen = h.seen },
          record { known = h.known; distinct = h.distinct; seen = h.seen },
        ),
      );
      turned = λ w l rs h. record { known = h.known; distinct = h.distinct; seen = h.seen };
    }

    -- In one run every call that reaches the tool set is of a tool that the set declares, and no two
    -- of those calls have the same name and the same arguments up to how the JSON is spelled.
    pub run-no_repeats :
        (w : W) (question : Bytes)
        → let log = (run (recording e) b (w, []) question).0.1 in Declared log × Distinct log
    run-no_repeats w question =
        let (l, s, eq, h) =
          run_rule (recording e) b Logged Logged calls-IsLogged turns-IsLogged (λ w l h. h) (w, [])
            question (record { known = tt; distinct = tt; seen = tt }) in
        (h.known, h.distinct)
