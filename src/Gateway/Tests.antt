-- ===== src/Gateway/Tests.antt =====
-- A request that runs and one that is turned away.
use codetrail.Prelude.{
  Any, ◌⊎◌, ◌<◌, ◌+◌, ◌-◌, ◌*◌, ◌≤◌, ◌≡◌, refl, true, arith, [], ◌∷◌, codes, Bytes, leb,
}
use codetrail.Gateway.Budget.{allow, remaining}
use codetrail.Gateway.Ask.{
  World, entered, running, start, running_count, Reach, enter, admit, here, next,
}
use codetrail.Gateway.Ceiling.{capped_in_hour, used_in_hour, Reach-ceiling}

abbrev model : Bytes
model = codes "m"

abbrev first : World
first = start 100 5

abbrev one_inside : World
one_inside = record first { slots = entered ∷ [] }

abbrev one_running : World
one_running = record one_inside {
  slots = running ∷ [];
  budget = (allow 9 60 one_inside.budget).0;
  clock = 9;
}

allowed : (allow 9 60 one_inside.budget).1 ≡ true
unfolding allow remaining
allowed = refl

reached : Reach 1 60 model first one_running
reached =
    next (next here (enter first (omega arith)))
      (admit one_inside [] [] 9 refl (omega arith) allowed)

Reach-ceiling_example :
    let held = running_count (running ∷ []) * 60 in
    (1 ≤ 1)
    × (capped_in_hour 60 12 one_running.log + held ≤ 100)
    × ((used_in_hour 12 one_running.log + held ≤ 100) ⊎ Any (λ s. 60 < s.n) one_running.log)
    × ((allow 12 60 one_running.budget).1 ≡ leb (used_in_hour 12 one_running.log + held + 60) 100)
    × ((remaining 12 one_running.budget).1 ≡ 100 - (used_in_hour 12 one_running.log + held))
Reach-ceiling_example = Reach-ceiling 1 60 100 model 5 12 reached (omega arith)
