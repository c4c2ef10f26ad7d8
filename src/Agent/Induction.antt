-- ===== src/Agent/Induction.antt =====
-- The induction rule of the tool loop: what every tool call and every turn keep, holds at the end.
use codetrail.Prelude.{
  ℕ, zero, suc, ◌+◌, ◌<◌, ◌≡◌, refl, List, [], ◌∷◌, ◌++◌, Bytes, arith, Bool, true, false,
  if◌then◌else◌, Bool-cases, inl, inr,
}
use codetrail.Prelude.Int.{pos_part, pos, ◌≤ℤ◌, ltb_ℤ}
use codetrail.Llm.{ToolCall, ToolResult}
use codetrail.Agent.Trace.{Bounds, Stop, step_limit}
use codetrail.Agent.State.{Env, Loop, Answer, Round, go_on, halt, Handled, answered, ended}
use codetrail.Agent.Loop.{
  replied, correct, bump_errs, handle_call, dispatch, round, run_from, run, start, stop,
}

-- `P` of a loop that goes on, `Q` of one that has stopped.
module _ {W : Type 0} (P Q : W → Loop → Type 0) where
  abbrev pub HandledIs : W × Handled → Type 0
  HandledIs (w, answered l r) = P w l
  HandledIs (w, ended l s) = Q w l

  abbrev pub RoundIs : W × Round → Type 0
  RoundIs (w, go_on l) = P w l
  RoundIs (w, halt l s) = Q w l

module _ {W : Type 0} (P Q : W → Loop → Type 0) where
  pub HandledIs-if :
      (t : Bool) (x y : W × Handled)
      → (t ≡ true → HandledIs P Q x)
      → (t ≡ false → HandledIs P Q y)
      → HandledIs P Q (if t then x else y)
  HandledIs-if true x y hx hy = hx refl
  HandledIs-if false x y hx hy = hy refl

  -- The rule for the two branches of `correctable`.
  pub correct-HandledIs :
      (b : Bounds) (w : W) (l : Loop) (s : Stop) (r : ToolResult)
      → (pos (l.errs + 1) ≤ℤ b.max_tool_errors → P w (bump_errs l))
      → Q w (bump_errs l)
      → HandledIs P Q (w, correct b l s r)
  unfolding correct
  correct-HandledIs b w l s r hp hq =
      elim (Bool-cases (ltb_ℤ b.max_tool_errors (pos (l.errs + 1)))) [
        | inl over ↦ rw over hq
        | inr room ↦ rw room (hp (ground arith))
      ]

  pub RoundIs-if :
      (t : Bool) (x y : W × Round)
      → (t ≡ true → RoundIs P Q x)
      → (t ≡ false → RoundIs P Q y)
      → RoundIs P Q (if t then x else y)
  RoundIs-if true x y hx hy = hx refl
  RoundIs-if false x y hx hy = hy refl

module _ {W : Type 0} (Q : W → Loop → Type 0) where
  -- The answer comes from a stopped loop of which `Q` holds.
  abbrev pub EndsIn : W × Answer → Type 0
  EndsIn r = (l : Loop) × (s : Stop) × (r.1 ≡ stop l s) × Q r.0 l

module _ {W : Type 0} (e : Env W) (b : Bounds) (P Q : W → Loop → Type 0) where
  pub dispatch_induction :
      ((w : W) (l : Loop) (c : ToolCall) → P w l → HandledIs P Q (handle_call e b w l c))
      → ((w : W) (l : Loop) (rs : List ToolResult) → P w l → P w (replied l rs))
      → (w : W) (l : Loop) (rs : List ToolResult) (cs : List ToolCall) → P w l
      → RoundIs P Q (dispatch e b w l rs cs)
  unfolding dispatch
  dispatch_induction hh hr w l rs [] h = hr w l rs h
  dispatch_induction hh hr w l rs (c ∷ cs) h =
      go (handle_call e b w l c) (hh w l c h)
        λ w1 l1 r h1. dispatch_induction hh hr w1 l1 (rs ++ r ∷ []) cs h1
    where
      go :
          (x : W × Handled)
          → HandledIs P Q x
          → ((w1 : W) (l1 : Loop) (r : ToolResult)
              → P w1 l1
              → RoundIs P Q (dispatch e b w1 l1 (rs ++ r ∷ []) cs))
          → RoundIs P Q (
              let (w1, h) = x in
              elim h [
                | ended l1 s ↦ (w1, halt l1 s)
                | answered l1 r ↦ dispatch e b w1 l1 (rs ++ r ∷ []) cs
              ])
      go (w1, ended l1 s) q ih = q
      go (w1, answered l1 r) p ih = ih w1 l1 r p

  pub run_from_induction :
      (n : ℕ)
      → ((step : ℕ) (w : W) (l : Loop) → step < n → P w l → RoundIs P Q (round e b step w l))
      → ((w : W) (l : Loop) → P w l → Q w l)
      → (left step : ℕ) (w : W) (l : Loop) → left + step ≡ n
      → P w l
      → EndsIn Q (run_from e left step b w l)
  unfolding run_from
  run_from_induction n hr hq zero step w l eq h = (l, step_limit, refl, hq w l h)
  run_from_induction n hr hq (suc left) step w l eq h =
      go (round e b step w l) (hr step w l (omega arith) h)
        λ w1 l1 h1. run_from_induction n hr hq left (step + 1) w1 l1 (omega arith) h1
    where
      go :
          (x : W × Round)
          → RoundIs P Q x
          → ((w1 : W) (l1 : Loop) → P w1 l1 → EndsIn Q (run_from e left (step + 1) b w1 l1))
          → EndsIn Q (
              let (w1, r) = x in
              elim r [
                | halt l1 s ↦ (w1, stop l1 s)
                | go_on l1 ↦ run_from e left (step + 1) b w1 l1
              ])
      go (w1, halt l1 s) q ih = (l1, s, refl, q)
      go (w1, go_on l1) p ih = ih w1 l1 p

  pub run_induction :
      ((step : ℕ) (w : W) (l : Loop)
        → step < pos_part b.max_steps
        → P w l
        → RoundIs P Q (round e b step w l))
      → ((w : W) (l : Loop) → P w l → Q w l)
      → (w : W) (question : Bytes) → P w (start e question)
      → EndsIn Q (run e b w question)
  unfolding run
  run_induction hr hq w question h =
      run_from_induction (pos_part b.max_steps) hr hq (pos_part b.max_steps) 0 w (start e question)
        (omega arith) h
