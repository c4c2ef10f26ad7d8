-- ===== src/Gateway/Ask.antt =====
-- apps/gateway/internal/handler/ask.go: Loop.Ask under any interleaving of requests. A step is one
-- operation on what the requests share: the slots of the channel `sem` and the budget.
use codetrail.Prelude.{
  ℕ, ◌+◌, ◌≤◌, ◌<◌, true, false, ◌≡◌, arith, some, List, [], ◌∷◌, ◌++◌, length, Bytes,
}
use codetrail.Agent.Trace.{Stop, busy, budget_exhausted, new_trace}
use codetrail.Agent.State.{Answer}
use codetrail.Gateway.Budget.{SpendAt, Budget, new_budget, allow, spend, remaining}

-- Where a request is that holds a slot: before `allow`, in the loop with a reservation, after
-- `spend`, and about to give its slot back.
pub data Phase : Type 0 where
  entered running settled leaving : Phase

-- `log` is what the requests have spent so far, and `answers` what they got.
pub record World : Type 0 where
  pub slots : List Phase
  pub budget : Budget
  pub clock : ℕ
  pub log : List SpendAt
  pub answers : List Answer

-- The answer of a request that never reaches the model.
abbrev pub degraded : Bytes → Stop → Answer
degraded model stop = record {
  text = [];
  read = [];
  cited = [];
  trace = record (new_trace model) { stop = some stop };
}

-- What NewLoop makes.
abbrev pub start : ℕ → ℕ → World
start limit clock = record {
  slots = [];
  budget = (remaining clock (new_budget limit)).0;
  clock = clock;
  log = [];
  answers = [];
}

abbrev pub used : Answer → ℕ
used a = a.trace.usage.input_tokens + a.trace.usage.output_tokens

-- The parameters are the capacity of `sem`, the sum of the two ceilings on tokens, and the model's
-- name. Any request may move, and the clock does not run back. In `settle` the answer is that of
-- agent.Run, whatever usage the provider reports.
module _ (capacity want : ℕ) (model : Bytes) where
  pub data Step : World → World → Type 0 where
    turn_away :
        (w : World)
        → capacity ≤ length w.slots
        → Step w (record w { answers = degraded model busy ∷ w.answers })
    enter :
        (w : World) → length w.slots < capacity → Step w (record w { slots = entered ∷ w.slots })
    admit :
        (w : World) (xs ys : List Phase) (now : ℕ)
        → w.slots ≡ xs ++ entered ∷ ys
        → w.clock ≤ now
        → (allow now want w.budget).1 ≡ true
        → Step w (record w {
          slots = xs ++ running ∷ ys;
          budget = (allow now want w.budget).0;
          clock = now;
        })
    refuse :
        (w : World) (xs ys : List Phase) (now : ℕ)
        → w.slots ≡ xs ++ entered ∷ ys
        → w.clock ≤ now
        → (allow now want w.budget).1 ≡ false
        → Step w (record w {
          slots = xs ++ leaving ∷ ys;
          budget = (allow now want w.budget).0;
          clock = now;
          answers = degraded model budget_exhausted ∷ w.answers;
        })
    settle :
        (w : World) (xs ys : List Phase) (now later : ℕ) (a : Answer)
        → w.slots ≡ xs ++ running ∷ ys
        → w.clock ≤ now
        → now ≤ later
        → Step w (record w {
          slots = xs ++ settled ∷ ys;
          budget = spend now later want (used a) w.budget;
          clock = later;
          log = w.log ++ record { at = later; n = used a } ∷ [];
          answers = a ∷ w.answers;
        })
    gauge :
        (w : World) (xs ys : List Phase) (now : ℕ)
        → w.slots ≡ xs ++ settled ∷ ys
        → w.clock ≤ now
        → Step w (record w {
          slots = xs ++ leaving ∷ ys;
          budget = (remaining now w.budget).0;
          clock = now;
        })
    leave :
        (w : World) (xs ys : List Phase)
        → w.slots ≡ xs ++ leaving ∷ ys
        → Step w (record w { slots = xs ++ ys })

  pub data Reach (s : World) : World → Type 0 where
    here : Reach s s
    next : {w w' : World} → Reach s w → Step w w' → Reach s w'

-- The requests that hold a reservation.
abbrev pub runs : Phase → ℕ
runs running = 1
runs _ = 0

abbrev pub running_count : List Phase → ℕ
running_count [] = 0
running_count (p ∷ ps) = runs p + running_count ps

pub running_count-append :
    (xs ys : List Phase) → running_count (xs ++ ys) ≡ running_count xs + running_count ys
running_count-append [] ys = omega arith
running_count-append (x ∷ xs) ys = omega (arith, running_count-append xs ys)
