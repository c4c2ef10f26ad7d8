-- ===== src/Metric/Sweep.antt =====
-- The floor sweep counts every case once, and a higher floor never answers more.
use codetrail.Prelude.{ℕ, ◌+◌, ◌≤◌, ◌≡◌, refl, ◌∙◌, true, List, [], ◌∷◌, map, length, arith, All}
use mathlib.Core.Path.{ap₂}
use codetrail.Prelude.Floats.{Floats}
use codetrail.Metric.Defs.{
  Recorded, ByReason, Confusion, tally_one, tally_all, empty_confusion, sweep,
}

abbrev pub answered : {F : Type 0} → Confusion F → ℕ
answered c = c.answered_with_gold + c.answered_without_gold

abbrev pub refused : {F : Type 0} → Confusion F → ℕ
refused c = c.refused_with_gold + c.refused_without_gold

abbrev pub reasons : ByReason → ℕ
reasons b = b.no_spans + b.below_floor + b.unscored

abbrev pub total : {F : Type 0} → Confusion F → ℕ
total c = answered c + refused c + c.unscoreable

-- A statement about a list of two.
abbrev pub OfTwo : {A : Type 0} → (A → A → Type 0) → List A → Type 0
OfTwo P (a ∷ b ∷ []) = P a b
OfTwo P _ = ⊥

module _ {F : Type 0} (fl : Floats F) where
  -- One more case: one cell more, and a reason exactly for a refusal.
  tally_one-counts :
      (f : F) (o : Recorded F) (c : Confusion F)
      → let d = tally_one fl f o c in
        (total d ≡ total c + 1)
        × (reasons d.by_reason + refused c ≡ reasons c.by_reason + refused d)
        × (d.floor ≡ c.floor)
  unfolding tally_one
  tally_one-counts f o c = (ground arith, ground arith, ground arith)

  tally_all-counts :
      (f : F) (os : List (Recorded F)) (c : Confusion F)
      → let d = tally_all fl f os c in
        (total d ≡ total c + length os)
        × (reasons d.by_reason + refused c ≡ reasons c.by_reason + refused d)
        × (d.floor ≡ c.floor)
  unfolding tally_all
  tally_all-counts f [] c = (omega arith, omega arith, refl)
  tally_all-counts f (o ∷ os) c =
      let (t, r, e) = tally_one-counts f o c in
      let (t', r', e') = tally_all-counts f os (tally_one fl f o c) in
      (omega arith, omega arith, e' ∙ e)

  -- A floor `g` under which all that `f` refuses is refused.
  abbrev pub NotBelow : F → F → Type 0
  NotBelow f g = (x : F) → fl.lt x f ≡ true → fl.lt x g ≡ true

  tally_one_mono :
      (f g : F) (o : Recorded F) (c d : Confusion F)
      → NotBelow f g
      → answered d ≤ answered c
      → answered (tally_one fl g o d) ≤ answered (tally_one fl f o c)
  unfolding tally_one
  tally_one_mono f g o c d h le = ground (arith, h o.top_score)

  tally_all_mono :
      (f g : F) (os : List (Recorded F)) (c d : Confusion F)
      → NotBelow f g
      → answered d ≤ answered c
      → answered (tally_all fl g os d) ≤ answered (tally_all fl f os c)
  unfolding tally_all
  tally_all_mono f g [] c d h le = le
  tally_all_mono f g (o ∷ os) c d h le =
      tally_all_mono f g os (tally_one fl f o c) (tally_one fl g o d) h
        (tally_one_mono f g o c d h le)

  abbrev pub IsCounted : List (Recorded F) → Confusion F → Type 0
  IsCounted os c = (total c ≡ length os) × (reasons c.by_reason ≡ refused c)

  -- A sweep has one table for each floor, in the order of the floors; each table counts every case
  -- in exactly one of its five cells, and its reasons add up to its refusals.
  pub sweep-counts :
      (os : List (Recorded F)) (floors : List F)
      → (map (λ c. c.floor) (sweep fl os floors) ≡ floors) × All (IsCounted os) (sweep fl os floors)
  unfolding sweep
  sweep-counts os [] = (refl, tt)
  sweep-counts os (f ∷ floors) =
      let (t, r, e) = tally_all-counts f os (empty_confusion fl f) in
      let (fs, rest) = sweep-counts os floors in (ap₂ ◌∷◌ e fs, ((omega arith, omega arith), rest))

  -- Where the second floor refuses every score that the first refuses, it answers no more cases.
  pub sweep_mono :
      (os : List (Recorded F)) (f g : F)
      → NotBelow f g
      → OfTwo (λ low high. answered high ≤ answered low) (sweep fl os (f ∷ g ∷ []))
  unfolding sweep
  sweep_mono os f g h =
      tally_all_mono f g os (empty_confusion fl f) (empty_confusion fl g) h (omega arith)
