-- ===== src/Metric/Defs.antt =====
-- apps/evalrunner/internal/metric: metric.go and gold.go, what the evaluation reports.
use codetrail.Prelude.{
  ℕ, ◌+◌, min, max, Bool, true, false, not, ◌||◌, Option, none, some, List, [], ◌∷◌, map, length,
  ltb, ◌==◌, if◌then◌else◌, Bytes, eqb, ltb_bytes,
}
use codetrail.Prelude.Int.{ℤ, pos, negsuc, ◌-ℤ◌, ltb_ℤ}
use codetrail.Prelude.Sort.{sort_by}
use codetrail.Prelude.Floats.{Floats}
use codetrail.Rag.Decide.{
  Mode, mode_lexical, Outcome, Reason, outcome_answered, outcome_refused, no_spans, below_floor,
  unscored, decide,
}

-- A gold set is a Go map from ids to true.
abbrev pub Gold : Type 0
Gold = Bytes → Bool

-- The loop of `HitAtK` at the index `i`.
unfoldable pub hit_from : ℕ → List Bytes → Gold → ℤ → Bool
hit_from i [] gold k = false
hit_from i (id ∷ ids) gold k =
    let rest = hit_from (i + 1) ids gold k in
    if ltb_ℤ k (pos (i + 1)) then false else if gold id then true else rest

unfoldable pub hit_at_k : List Bytes → Gold → ℤ → Bool
unfolding hit_from
hit_at_k ranked gold k = hit_from 0 ranked gold k

module _ {F : Type 0} (fl : Floats F) where
  unfoldable pub reciprocal_from : ℕ → List Bytes → Gold → F
  reciprocal_from i [] gold = fl.of_int (pos 0)
  reciprocal_from i (id ∷ ids) gold =
      let rest = reciprocal_from (i + 1) ids gold in
      if gold id then fl.quot (fl.of_int (pos 1)) (fl.of_int (pos (i + 1))) else rest

  unfoldable pub reciprocal_rank : List Bytes → Gold → F
  unfolding reciprocal_from
  reciprocal_rank ranked gold = reciprocal_from 0 ranked gold

  sum_from : F → List F → F
  sum_from acc [] = acc
  sum_from acc (x ∷ xs) = sum_from (fl.add acc x) xs

  unfoldable pub mean_over_all : List F → F
  unfolding sum_from
  mean_over_all [] = fl.of_int (pos 0)
  mean_over_all (x ∷ xs) =
      fl.quot (sum_from (fl.of_int (pos 0)) (x ∷ xs)) (fl.of_int (pos (length (x ∷ xs))))

-- One case of the evaluation, recorded.
pub record Recorded (F : Type 0) : Type 0 where
  pub case_id : Bytes
  pub top_score : F
  pub hits : ℕ
  pub vector_ran : Bool
  pub gold_rank : ℕ
  pub answer_has_gold : Bool
  pub scoreable : Bool

-- `by_reason` is a Go map on a closed set of reasons.
pub record ByReason : Type 0 where
  pub no_spans : ℕ
  pub below_floor : ℕ
  pub unscored : ℕ

pub record Confusion (F : Type 0) : Type 0 where
  pub floor : F
  pub answered_with_gold : ℕ
  pub answered_without_gold : ℕ
  pub refused_with_gold : ℕ
  pub refused_without_gold : ℕ
  pub unscoreable : ℕ
  pub by_reason : ByReason

-- The empty reason never comes with a refusal.
unfoldable pub count_reason : Option Reason → ByReason → ByReason
count_reason none b = b
count_reason (some no_spans) b = record b { no_spans = b.no_spans + 1 }
count_reason (some below_floor) b = record b { below_floor = b.below_floor + 1 }
count_reason (some unscored) b = record b { unscored = b.unscored + 1 }

unfoldable pub tally :
    {F : Type 0} → Recorded F → Outcome × Option Reason → Confusion F → Confusion F
unfolding count_reason
tally o (outcome_refused, reason) c =
    let d = record c { by_reason = count_reason reason c.by_reason } in
    if o.answer_has_gold
    then record d { refused_with_gold = d.refused_with_gold + 1 }
    else record d { refused_without_gold = d.refused_without_gold + 1 }
tally o (outcome_answered, reason) c =
    if o.answer_has_gold
    then record c { answered_with_gold = c.answered_with_gold + 1 }
    else record c { answered_without_gold = c.answered_without_gold + 1 }

module _ {F : Type 0} (fl : Floats F) where
  unfoldable pub tally_one : F → Recorded F → Confusion F → Confusion F
  unfolding tally decide
  tally_one f o c =
      if o.scoreable
      then tally o
          (decide fl (record { value = f; calibrated = false }) o.hits o.top_score o.vector_ran) c
      else record c { unscoreable = c.unscoreable + 1 }

  unfoldable pub tally_all : F → List (Recorded F) → Confusion F → Confusion F
  unfolding tally_one
  tally_all f [] c = c
  tally_all f (o ∷ os) c = tally_all f os (tally_one f o c)

  abbrev pub empty_confusion : F → Confusion F
  empty_confusion f = record {
    floor = f;
    answered_with_gold = 0;
    answered_without_gold = 0;
    refused_with_gold = 0;
    refused_without_gold = 0;
    unscoreable = 0;
    by_reason = record { no_spans = 0; below_floor = 0; unscored = 0 };
  }

  unfoldable pub sweep : List (Recorded F) → List F → List (Confusion F)
  unfolding tally_all
  sweep outcomes floors = map (λ f. tally_all f outcomes (empty_confusion f)) floors

unfoldable pub applicable : Mode → Bool
applicable mode_lexical = false
applicable _ = true

-- gold.go: one indexed region.
pub record Region : Type 0 where
  pub id : Bytes
  pub path : Bytes
  pub start : ℕ
  pub last : ℕ

pub record Hit : Type 0 where
  pub region : Region
  pub overlap : ℤ

-- A region of another file, or that does not meet the range, is passed over.
unfoldable pub hits_of : Bytes → ℕ → ℕ → List Region → List Hit
hits_of path start last [] = []
hits_of path start last (s ∷ ss) =
    let rest = hits_of path start last ss in
    if not (eqb s.path path) || (ltb s.last start || ltb last s.start)
    then rest
    else record { region = s; overlap = pos (min last s.last + 1) -ℤ pos (max start s.start) }
      ∷ rest

-- By start line, end line and id.
unfoldable pub hit_less : Hit → Hit → Bool
hit_less a b =
    let s = a.region in
    let t = b.region in
    if s.start == t.start
    then (if s.last == t.last then ltb_bytes s.id t.id else ltb s.last t.last)
    else ltb s.start t.start

-- `best` and `bestOverlap`.
pub record Best : Type 0 where
  pub id : Bytes
  pub overlap : ℤ

-- The loop over the sorted hits: only a greater overlap replaces the best.
unfoldable pub strict_from : Best → List Hit → Best
strict_from b [] = b
strict_from b (h ∷ hs) =
    strict_from
      (if ltb_ℤ b.overlap h.overlap then record { id = h.region.id; overlap = h.overlap } else b) hs

abbrev pub no_best : Best
no_best = record { id = []; overlap = negsuc 0 }

-- `Gold`: every overlapping region, and the one that overlaps most.
unfoldable pub gold : Bytes → ℕ → ℕ → List Region → List Bytes × Bytes
unfolding hits_of hit_less sort_by strict_from
gold path start last spans =
    let hits = sort_by hit_less (hits_of path start last spans) in
    (map (λ h. h.region.id) hits, (strict_from no_best hits).id)
