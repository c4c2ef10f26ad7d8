-- ===== src/Gateway/Budget.antt =====
-- apps/gateway/internal/handler/ask.go: the rolling allowance of tokens. Each function is one method
-- of `budget`, whose lock makes it one step; the clock's reading is an argument. Counts are natural
-- numbers: Window.antt shows that what `spend` and `prune` subtract was added before.
use codetrail.Prelude.{
  ℕ, ◌+◌, ◌-◌, ◌*◌, Bool, true, false, List, [], ◌∷◌, ◌++◌, leb, ltb, if◌then◌else◌,
}

pub record SpendAt : Type 0 where
  pub at : ℕ
  pub n : ℕ

pub record Budget : Type 0 where
  pub limit : ℕ
  pub spent : List SpendAt
  pub total : ℕ
  pub reserved : ℕ

-- An hour, in nanoseconds.
abbrev pub budget_window : ℕ
budget_window = 3600 * 1000000000

abbrev pub new_budget : ℕ → Budget
new_budget limit = record { limit = limit; spent = []; total = 0; reserved = 0 }

-- `!b.spent[i].at.After(now.Add(-budgetWindow))`
abbrev pub expired : ℕ → SpendAt → Bool
expired now s = leb (s.at + budget_window) now

-- The loop of prune over the spends and the total.
unfoldable pub prune_from : ℕ → List SpendAt → ℕ → List SpendAt × ℕ
prune_from now [] total = ([], total)
prune_from now (s ∷ ss) total =
    if expired now s then prune_from now ss (total - s.n) else (s ∷ ss, total)

unfoldable pub prune : ℕ → Budget → Budget
unfolding prune_from
prune now b =
    let kept = prune_from now b.spent b.total in record b { spent = kept.0; total = kept.1 }

abbrev pub reserve : ℕ → Budget → Budget × Bool
reserve want b =
    if ltb b.limit (b.total + b.reserved + want)
    then (b, false)
    else (record b { reserved = b.reserved + want }, true)

unfoldable pub allow : ℕ → ℕ → Budget → Budget × Bool
unfolding prune
allow now want b = reserve want (prune now b)

abbrev pub settle : ℕ → ℕ → ℕ → Budget → Budget
settle later want actual b = record b {
  reserved = b.reserved - want;
  spent = b.spent ++ record { at = later; n = actual } ∷ [];
  total = b.total + actual;
}

-- The clock is read by prune, and again for the entry.
unfoldable pub spend : ℕ → ℕ → ℕ → ℕ → Budget → Budget
unfolding prune
spend now later want actual b = settle later want actual (prune now b)

abbrev pub left : Budget → ℕ
left b = if leb b.limit (b.total + b.reserved) then 0 else b.limit - b.total - b.reserved

unfoldable pub remaining : ℕ → Budget → Budget × ℕ
unfolding prune
remaining now b = (prune now b, left (prune now b))
