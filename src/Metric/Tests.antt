-- ===== src/Metric/Tests.antt =====
-- The metrics on a few cases, with integers in place of float64.
use codetrail.Prelude.{
  ◌≡◌, refl, Bool, true, false, List, [], ◌∷◌, Any, Bytes, codes, eqb, inl, inr, arith, ◌≤◌, ◌&&◌,
}
use codetrail.Prelude.Int.{ℤ, pos, ltb_ℤ, leb_ℤ, ◌+ℤ◌, ◌≤ℤ◌, ◌-ℤ◌}
use codetrail.Prelude.Floats.{Floats}
use codetrail.Metric.Defs.{Recorded, sweep, Gold, Region, gold}
use codetrail.Metric.Sweep.{OfTwo, NotBelow, answered, sweep_mono}
use codetrail.Metric.GoldSet.{Meets, overlap_of, gold-greatest}

abbrev whole : Floats ℤ
whole = record {
  of_int = λ n. n;
  add = λ a b. a +ℤ b;
  mul = λ a b. a;
  quot = λ a b. b;
  lt = ltb_ℤ;
  feq = λ a b. leb_ℤ a b && leb_ℤ b a;
  is_nan = λ a. false;
  nan = pos 0;
}

abbrev recorded : Bytes → ℤ → Bool → Recorded ℤ
recorded id top has = record {
  case_id = id;
  top_score = top;
  hits = 3;
  vector_ran = true;
  gold_rank = 1;
  answer_has_gold = has;
  scoreable = true;
}

abbrev cases : List (Recorded ℤ)
cases = recorded (codes "a") (pos 2) true ∷ recorded (codes "b") (pos 5) false ∷ []

higher : NotBelow whole (pos 1) (pos 4)
higher x h = ground arith

sweep_mono_example :
    OfTwo (λ low high. answered high ≤ answered low) (sweep whole cases (pos 1 ∷ pos 4 ∷ []))
sweep_mono_example = sweep_mono whole cases (pos 1) (pos 4) higher

abbrev ranked : List Bytes
ranked = codes "x" ∷ codes "y" ∷ codes "z" ∷ []

abbrev only_y : Gold
only_y id = eqb id (codes "y")

abbrev f_go : Bytes
f_go = codes "f.go"

abbrev region_p : Region
region_p = record { id = codes "p"; path = f_go; start = 1; last = 4 }

abbrev region_q : Region
region_q = record { id = codes "q"; path = f_go; start = 3; last = 9 }

gold_two : gold f_go 3 6 (region_q ∷ region_p ∷ []) ≡ (codes "p" ∷ codes "q" ∷ [], codes "q")
unfolding gold eqb ◌-ℤ◌
gold_two = refl

gold-greatest_example :
    Any (λ id. id ≡ codes "p") (gold f_go 3 6 (region_q ∷ region_p ∷ [])).0
    × ((t : Region) × Meets f_go 3 6 t
        × Any (λ u. u ≡ t) (region_q ∷ region_p ∷ [])
        × (t.id ≡ (gold f_go 3 6 (region_q ∷ region_p ∷ [])).1)
        × (overlap_of f_go 3 6 region_p ≤ℤ overlap_of f_go 3 6 t))
gold-greatest_example =
    gold-greatest f_go 3 6 (region_q ∷ region_p ∷ []) region_p (inr (inl refl))
      (refl, omega arith, omega arith) (omega arith) (omega arith)
