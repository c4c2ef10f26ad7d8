-- ===== src/Gateway/Ceiling.antt =====
-- About Ask: whatever the interleaving, the slots and the hourly allowance hold.
use codetrail.Prelude.{
  min, ltb, if◌then◌else◌, ◌<◌, ◌⊎◌, inl, inr, Any, Bool-cases, ℕ, suc, ◌+◌, ◌-◌, ◌*◌, ◌≤◌, true,
  false, ◌≡◌, refl, sym, ◌∙◌, subst, arith, List, [], ◌∷◌, ◌++◌, leb, length, length-append, Bytes,
}
use native.Mathlib.Nat.{le_trans}
use codetrail.Gateway.Budget.{SpendAt, Budget, allow, spend, remaining}
use codetrail.Gateway.Window.{
  spent_since, Represents, allow-Represents, spend-Represents, remaining-Represents,
}
use codetrail.Gateway.Ask.{
  Phase, entered, running, settled, leaving, World, start, used, Step, Reach, runs, running_count,
  running_count-append, turn_away, enter, admit, refuse, settle, gauge, leave, here, next,
}

-- The tokens of the runs that were entered less than an hour ago, in nanoseconds.
pub used_in_hour : ℕ → List SpendAt → ℕ
used_in_hour now [] = 0
used_in_hour now (s ∷ ss) =
    (if ltb now (s.at + 3_600_000_000_000) then s.n else 0) + used_in_hour now ss

-- The same, with each run up to its ceilings only.
pub capped_in_hour : ℕ → ℕ → List SpendAt → ℕ
capped_in_hour want now [] = 0
capped_in_hour want now (s ∷ ss) =
    (if ltb now (s.at + 3_600_000_000_000) then min s.n want else 0) + capped_in_hour want now ss

used_in_hour-spent : (now : ℕ) (h : List SpendAt) → used_in_hour now h ≡ spent_since now h
unfolding used_in_hour
used_in_hour-spent now [] = refl
used_in_hour-spent now (s ∷ ss) = ground (arith, used_in_hour-spent now ss)

capped_le : (want now : ℕ) (h : List SpendAt) → capped_in_hour want now h ≤ spent_since now h
unfolding capped_in_hour
capped_le want now [] = omega arith
capped_le want now (s ∷ ss) = ground (arith, capped_le want now ss)

capped_mono :
    (want now now' : ℕ) (h : List SpendAt)
    → now ≤ now'
    → capped_in_hour want now' h ≤ capped_in_hour want now h
unfolding capped_in_hour
capped_mono want now now' [] l = omega arith
capped_mono want now now' (s ∷ ss) l = ground (arith, capped_mono want now now' ss l)

capped-snoc :
    (want now m : ℕ) (h : List SpendAt)
    → capped_in_hour want now (h ++ record { at = now; n = m } ∷ [])
      ≡ capped_in_hour want now h + min m want
unfolding capped_in_hour
capped-snoc want now m [] = ground arith
capped-snoc want now m (s ∷ ss) = omega (arith, capped-snoc want now m ss)

-- Only a run past its ceilings makes a difference.
capped_or_over :
    (want now : ℕ) (h : List SpendAt)
    → (capped_in_hour want now h ≡ used_in_hour now h) ⊎ Any (λ s. want < s.n) h
unfolding capped_in_hour used_in_hour
capped_or_over want now [] = inl refl
capped_or_over want now (s ∷ ss) = elim (capped_or_over want now ss) [
  | inr over ↦ inr (inr over)
  | inl same ↦ elim (Bool-cases (ltb want s.n)) [
    | inl over ↦ inr (inl (ground arith))
    | inr fits ↦ inl (ground arith)
  ]
]

one_more : (n w : ℕ) → (n + 1) * w ≡ n * w + w
one_more n w = grind arith

-- A slot that changes its phase.
count_moved :
    (slots xs ys : List Phase) (p q : Phase)
    → slots ≡ xs ++ p ∷ ys
    → running_count (xs ++ q ∷ ys) + runs p ≡ running_count slots + runs q
count_moved slots xs ys p q e =
    rw (e, running_count-append xs (p ∷ ys), running_count-append xs (q ∷ ys)) (omega arith)

length_moved :
    (slots xs ys : List Phase) (p q : Phase)
    → slots ≡ xs ++ p ∷ ys
    → length (xs ++ q ∷ ys) ≡ length slots
length_moved slots xs ys p q e = rw (e, length-append xs (p ∷ ys), length-append xs (q ∷ ys)) refl

allow_limit : (now want : ℕ) (b : Budget) → (allow now want b).0.limit ≡ b.limit
unfolding allow
allow_limit now want b = ground arith

spend_limit : (now later want m : ℕ) (b : Budget) → (spend now later want m b).limit ≡ b.limit
unfolding spend
spend_limit now later want m b = refl

remaining_limit : (now : ℕ) (b : Budget) → (remaining now b).0.limit ≡ b.limit
unfolding remaining
remaining_limit now b = refl

module _ (capacity want limit : ℕ) (model : Bytes) where
  pub record IsWorld (w : World) : Type 0 where
    pub slots_free : length w.slots ≤ capacity
    pub limit_kept : w.budget.limit ≡ limit
    pub shown : Represents w.clock w.log (running_count w.slots * want) w.budget
    pub within : capped_in_hour want w.clock w.log + running_count w.slots * want ≤ limit

  Step-IsWorld : {w w' : World} → Step capacity want model w w' → IsWorld w → IsWorld w'
  Step-IsWorld (turn_away w full) v = record {
    slots_free = v.slots_free;
    limit_kept = v.limit_kept;
    shown = v.shown;
    within = v.within;
  }
  Step-IsWorld (enter w room) v =
      let same : running_count w.slots ≡ 0 + running_count w.slots = omega arith in
      record {
        slots_free = omega arith;
        limit_kept = v.limit_kept;
        shown = subst (λ (n : ℕ). Represents w.clock w.log (n * want) w.budget) same v.shown;
        within = rw (← same) v.within;
      }
  Step-IsWorld (admit w xs ys now e later granted) v =
      let (decided, rep) = allow-Represents later want v.shown in
      let fits : leb (spent_since now w.log + running_count w.slots * want + want) w.budget.limit
          ≡ true =
        sym decided ∙ granted in
      let moved : running_count (xs ++ running ∷ ys) ≡ running_count w.slots + 1 =
        omega (arith, count_moved w.slots xs ys entered running e) in
      let more = one_more (running_count w.slots) want in
      record {
        slots_free = rw (length_moved w.slots xs ys entered running e) v.slots_free;
        limit_kept = allow_limit now want w.budget ∙ v.limit_kept;
        shown = rw (moved, more) (rw fits at rep);
        within = rw (moved, more) (ground (arith, v.limit_kept, capped_le want now w.log));
      }
  Step-IsWorld (refuse w xs ys now e later denied) v =
      let (decided, rep) = allow-Represents later want v.shown in
      let over : leb (spent_since now w.log + running_count w.slots * want + want) w.budget.limit
          ≡ false =
        sym decided ∙ denied in
      let moved : running_count (xs ++ leaving ∷ ys) ≡ running_count w.slots =
        omega (arith, count_moved w.slots xs ys entered leaving e) in
      record {
        slots_free = rw (length_moved w.slots xs ys entered leaving e) v.slots_free;
        limit_kept = allow_limit now want w.budget ∙ v.limit_kept;
        shown = rw moved (rw over at rep);
        within = rw moved (omega (arith, v.within, capped_mono want w.clock now w.log later));
      }
  Step-IsWorld (settle w xs ys now later a e l l') v =
      let rep = spend-Represents l later want (used a) l' v.shown in
      let moved : running_count w.slots ≡ running_count (xs ++ settled ∷ ys) + 1 =
        omega (arith, count_moved w.slots xs ys running settled e) in
      let more = one_more (running_count (xs ++ settled ∷ ys)) want in
      let freed : running_count w.slots * want - want ≡ running_count (xs ++ settled ∷ ys) * want =
        rw (moved, more) (omega arith) in
      let total : running_count w.slots * want ≡ running_count (xs ++ settled ∷ ys) * want + want =
        rw (moved, more) refl in
      record {
        slots_free = rw (length_moved w.slots xs ys running settled e) v.slots_free;
        limit_kept = spend_limit now later want (used a) w.budget ∙ v.limit_kept;
        shown = rw (← freed) rep;
        within =
            rw (capped-snoc want later (used a) w.log) (
              omega (arith, v.within, total, capped_mono want w.clock later w.log (le_trans l l')));
      }
  Step-IsWorld (gauge w xs ys now e l) v =
      let (left, rep) = remaining-Represents l v.shown in
      let moved : running_count (xs ++ leaving ∷ ys) ≡ running_count w.slots =
        omega (arith, count_moved w.slots xs ys settled leaving e) in
      record {
        slots_free = rw (length_moved w.slots xs ys settled leaving e) v.slots_free;
        limit_kept = remaining_limit now w.budget ∙ v.limit_kept;
        shown = rw moved rep;
        within = rw moved (omega (arith, v.within, capped_mono want w.clock now w.log l));
      }
  Step-IsWorld (leave w xs ys e) v =
      let moved : running_count w.slots ≡ running_count (xs ++ ys) =
        rw (e, running_count-append xs (leaving ∷ ys), running_count-append xs ys) (omega arith) in
      let shorter : length w.slots ≡ suc (length (xs ++ ys)) =
        rw (e, length-append xs (leaving ∷ ys), length-append xs ys) (omega arith) in
      record {
        slots_free = omega (arith, v.slots_free);
        limit_kept = v.limit_kept;
        shown = rw (← moved) v.shown;
        within = rw (← moved) v.within;
      }

  Reach-IsWorld :
      (clock : ℕ) {w : World} → Reach capacity want model (start limit clock) w → IsWorld w
  unfolding capped_in_hour
  Reach-IsWorld clock here =
      unfold remaining in
      (record {
        slots_free = omega arith;
        limit_kept = refl;
        shown = record {
          old = [];
          history = refl;
          gone = tt;
          counted = refl;
          reserved = omega arith;
          sorted = tt;
          past = tt;
        };
        within = omega arith;
      })
  Reach-IsWorld clock (next r s) = Step-IsWorld s (Reach-IsWorld clock r)

  -- However the requests of a process interleave, at most as many hold a slot as the channel has. At
  -- any time the runs that ended in the last hour, each counted up to its ceilings on tokens, with the
  -- ceilings of each run that goes on, are within the hourly limit; and so is what they have really
  -- used, unless some run has reported more than its ceilings. `allow` grants a reservation exactly
  -- when it fits beside what was really used and what is reserved, and `remaining` is what they leave.
  pub Reach-ceiling :
      (clock now : ℕ) {w : World}
      → Reach capacity want model (start limit clock) w
      → w.clock ≤ now
      → let held = running_count w.slots * want in
        (length w.slots ≤ capacity)
        × (capped_in_hour want now w.log + held ≤ limit)
        × ((used_in_hour now w.log + held ≤ limit) ⊎ Any (λ s. want < s.n) w.log)
        × ((allow now want w.budget).1 ≡ leb (used_in_hour now w.log + held + want) limit)
        × ((remaining now w.budget).1 ≡ limit - (used_in_hour now w.log + held))
  Reach-ceiling clock now {w} r later =
      let v = Reach-IsWorld clock r in
      let same = used_in_hour-spent now w.log in
      let capped : capped_in_hour want now w.log + running_count w.slots * want ≤ limit =
        omega (arith, v.within, capped_mono want w.clock now w.log later) in
      (
        v.slots_free,
        capped,
        elim (capped_or_over want now w.log) [ inl e ↦ inl (omega arith) | inr over ↦ inr over ],
        rw (same, ← v.limit_kept) (allow-Represents later want v.shown).0,
        rw (same, ← v.limit_kept) (remaining-Represents later v.shown).0,
      )
