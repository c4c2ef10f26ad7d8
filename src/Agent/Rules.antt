-- ===== src/Agent/Rules.antt =====
-- One rule for a tool call and one for a turn of the loop: an invariant is proved at each place
-- where the code changes its state, and nowhere else.
use codetrail.Prelude.{
  ℕ, ◌+◌, ◌<◌, ◌≡◌, refl, List, [], ◌∷◌, Bytes, true, false, Bool-cases, inl, inr, Result, ok, err,
  ltb, arith, eqb,
}
use codetrail.Prelude.Int.{ℤ, pos, ◌-ℤ◌, ◌≤ℤ◌, leb_ℤ, ltb_ℤ, pos_part}
use codetrail.Llm.{
  ToolCall, ToolResult, Request, Response, ModelError, stop_max_tokens, estimate_request,
}
use codetrail.Agent.Trace.{Bounds, per_call_output_cap}
use codetrail.Agent.State.{Env, Loop, seen_count, declared, min_ℤ}
use codetrail.Agent.Loop.{
  bump_errs, invoked, counted, repeat_key, repeated, after_call, handle_new, handle_call, said,
  replied, stepped, spend, request, after_response, after_complete, round, run, start,
}
use codetrail.Agent.Induction.{
  HandledIs, RoundIs, EndsIn, correct-HandledIs, RoundIs-if, dispatch_induction, run_induction,
}

module _ {W : Type 0} (e : Env W) (b : Bounds) where
  -- The loop once the call `c` has been counted and entered in the trace.
  abbrev pub noted : Loop → ToolCall → ℕ → Loop
  noted l c ms = invoked (counted (repeat_key e c) l) c.name ms

  -- The call is below the ceiling on tool calls.
  abbrev pub HasRoom : Loop → Type 0
  HasRoom l = leb_ℤ b.max_tool_calls (pos l.tr.tool_calls) ≡ false

  -- The tool set is asked.
  abbrev pub Asked : Loop → ToolCall → Type 0
  Asked l c =
      HasRoom l
      × (ltb 0 (seen_count l.seen (repeat_key e c)) ≡ false)
      × (declared e.specs c.name ≡ true)

  pub record CallRules (P Q : W → Loop → Type 0) : Type 0 where
    pub limited : (w : W) (l : Loop) → P w l → Q w l
    pub refused : (w : W) (l : Loop) (c : ToolCall) → P w l → HasRoom l → Q w (noted l c 0)
    pub corrected :
        (w : W) (l : Loop) (c : ToolCall)
        → P w l
        → HasRoom l
        → (pos (l.errs + 1) ≤ℤ b.max_tool_errors → P w (bump_errs (noted l c 0)))
          × Q w (bump_errs (noted l c 0))
    pub called :
        (w : W) (l : Loop) (c : ToolCall)
        → P w l
        → Asked l c
        → (let (w1, res) = e.call w c in
            let (w2, ms) = e.elapsed w1 in HandledIs P Q (w2, after_call b c (noted l c ms) res))

  pub handle_call_rule :
      (P Q : W → Loop → Type 0)
      → CallRules P Q
      → (w : W) (l : Loop) (c : ToolCall) → P w l
      → HandledIs P Q (handle_call e b w l c)
  unfolding handle_call handle_new repeated
  handle_call_rule P Q rules w l c h =
      let k = repeat_key e c in
      elim (Bool-cases (leb_ℤ b.max_tool_calls (pos l.tr.tool_calls))) [
        | inl full ↦ rw full (rules.limited w l h)
        | inr room ↦ rw room (elim (Bool-cases (ltb 0 (seen_count l.seen k))) [
          | inl again ↦
              rw again (elim (Bool-cases (ltb_ℤ b.max_repeats (pos (seen_count l.seen k)))) [
                | inl much ↦ rw much (rules.refused w l c h room)
                | inr few ↦
                    let (p, q) = rules.corrected w l c h room in
                    rw few (correct-HandledIs P Q b w (noted l c 0) _ _ p q)
              ])
          | inr new ↦ rw new (elim (Bool-cases (declared e.specs c.name)) [
            | inl known ↦ rw known (rules.called w l c h (room, new, known))
            | inr unknown ↦
                let (p, q) = rules.corrected w l c h room in
                rw unknown (correct-HandledIs P Q b w (noted l c 0) _ _ p q)
          ])
        ])
      ]

  -- What the budget guarantees of a request that is sent.
  pub record IsAffordable (l : Loop) (r : Request) : Type 0 where
    pub shape : r ≡ request e l r.max_tokens
    pub input : pos (l.used_in + estimate_request (request e l (pos 0))) ≤ℤ b.max_input_tokens
    pub output : r.max_tokens ≤ℤ b.max_output_tokens -ℤ pos l.used_out
    pub capped : r.max_tokens ≤ℤ per_call_output_cap
    pub positive : pos 1 ≤ℤ r.max_tokens

  -- After a response: truncated, final, or with tool calls.
  abbrev pub Heard : (P Q : W → Loop → Type 0) → W → Loop → Response → Type 0
  Heard P Q w l resp =
      Q w (spend l resp.usage)
      × Q w (record (spend l resp.usage) { text = resp.text })
      × P w (said (spend l resp.usage) resp)

  pub record TurnRules (P Q : W → Loop → Type 0) : Type 0 where
    pub before : (w : W) (l : Loop) → P w l → Q (e.expired w).0 l
    pub sent :
        (step : ℕ) (w : W) (l : Loop) (r : Request)
        → step < pos_part b.max_steps
        → P w l
        → IsAffordable l r
        → (let (w2, res) = e.complete (e.expired w).0 r in
            Q w2 (stepped e l step)
            × ((resp : Response) → res ≡ ok resp → Heard P Q w2 (stepped e l step) resp))
    pub turned : (w : W) (l : Loop) (rs : List ToolResult) → P w l → P w (replied l rs)

  min_ℤ-le : (x y : ℤ) → (min_ℤ x y ≤ℤ x) × (min_ℤ x y ≤ℤ y)
  min_ℤ-le x y = ground arith

  min_ℤ-pos : (x y : ℤ) → leb_ℤ x (pos 0) ≡ false → pos 1 ≤ℤ y → pos 1 ≤ℤ min_ℤ x y
  min_ℤ-pos x y h k = ground arith

  module _ (P Q : W → Loop → Type 0) (calls : CallRules P Q) (turns : TurnRules P Q) where
    -- What the loop does with the model's answer.
    after_complete_rule :
        (step : ℕ) (w : W) (l : Loop) (r : Request)
        → step < pos_part b.max_steps
        → P w l
        → IsAffordable l r
        → RoundIs P Q (
            let (w2, resp) = e.complete (e.expired w).0 r in
            after_complete e b w2 (stepped e l step) resp)
    unfolding after_complete after_response
    after_complete_rule step w l r hs h ha =
        let (w2, resp) = e.complete (e.expired w).0 r in
        let (q, heard) = turns.sent step w l r hs h ha in go w2 resp q heard
      where
        go :
            (w2 : W) (res : Result ModelError Response)
            → Q w2 (stepped e l step)
            → ((resp : Response) → res ≡ ok resp → Heard P Q w2 (stepped e l step) resp)
            → RoundIs P Q (after_complete e b w2 (stepped e l step) res)
        go w2 (err er) q heard = q
        go w2 (ok resp) q heard =
            let (cut, final, more) = heard resp refl in
            elim (Bool-cases (eqb resp.stop stop_max_tokens)) [
              | inl truncated ↦ rw truncated cut
              | inr whole ↦
                  rw whole (answer (spend (stepped e l step) resp.usage) resp resp.calls final more)
            ]
          where
            answer :
                (l1 : Loop) (resp : Response) (cs : List ToolCall)
                → Q w2 (record l1 { text = resp.text })
                → P w2 (said l1 resp)
                → RoundIs P Q (after_response e b w2 l1 resp cs)
            answer l1 resp [] q p = q
            answer l1 resp (c ∷ cs) q p =
                dispatch_induction e b P Q (handle_call_rule P Q calls) turns.turned w2
                  (said l1 resp) [] (c ∷ cs) p

    round_rule :
        (step : ℕ) (w : W) (l : Loop)
        → step < pos_part b.max_steps
        → P w l
        → RoundIs P Q (round e b step w l)
    unfolding round
    round_rule step w l hs h =
        let w1 = (e.expired w).0 in
        let remaining = b.max_output_tokens -ℤ pos l.used_out in
        RoundIs-if P Q (e.expired w).1 _ _ (λ late. turns.before w l h)
          λ intime.
            RoundIs-if P Q
              (ltb_ℤ b.max_input_tokens (pos (l.used_in + estimate_request (request e l (pos 0)))))
              _ _ (λ over. turns.before w l h)
              λ afford.
                RoundIs-if P Q (leb_ℤ remaining (pos 0)) _ _ (λ spent. turns.before w l h)
                  λ left.
                    let (a, c) = min_ℤ-le remaining per_call_output_cap in
                    after_complete_rule step w l (request e l (min_ℤ remaining per_call_output_cap))
                      hs h
                      (record {
                        shape = refl;
                        input = ground arith;
                        output = a;
                        capped = c;
                        positive = min_ℤ-pos remaining per_call_output_cap left (omega arith);
                      })

    -- What every call and every turn keep, holds when `Run` answers.
    pub run_rule :
        ((w : W) (l : Loop) → P w l → Q w l)
        → (w : W) (question : Bytes) → P w (start e question)
        → EndsIn Q (run e b w question)
    run_rule hq = run_induction e b P Q round_rule hq
