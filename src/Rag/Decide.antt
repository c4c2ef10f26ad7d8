-- ===== src/Rag/Decide.antt =====
-- packages/shared/rag: decide.go, the grounded-or-refused rule, and the modes of rag.go.
use codetrail.Prelude.{
  ℕ, Bool, ◌||◌, Option, none, some, ◌==◌, if◌then◌else◌, Bytes, codes, eqb, Result, ok, refuse_if,
  ◌>>◌,
}
use codetrail.Prelude.Int.{pos, negsuc}
use codetrail.Prelude.Floats.{Floats}

pub data Mode : Type 0 where
  mode_vector mode_lexical mode_hybrid : Mode

-- `none` is the error for an unknown mode.
unfoldable pub parse_mode : Bytes → Option Mode
parse_mode s =
    if eqb s (codes "vector")
    then some mode_vector
    else if eqb s (codes "lexical")
    then some mode_lexical
    else if eqb s (codes "hybrid")
    then some mode_hybrid
    else none

pub record Floor (F : Type 0) : Type 0 where
  pub value : F
  pub calibrated : Bool

pub data FloorError : Type 0 where
  floor_nan floor_range : FloorError

pub data Outcome : Type 0 where
  outcome_answered outcome_refused : Outcome

-- The empty reason of an answer is `none`.
pub data Reason : Type 0 where
  no_spans below_floor unscored : Reason

module _ {F : Type 0} (fl : Floats F) where
  abbrev pub default_floor : Floor F
  default_floor = record { value = fl.of_int (negsuc 0); calibrated = Bool.false }

  unfoldable pub validate_floor : Floor F → Result FloorError Unit
  validate_floor f = do
    refuse_if (fl.is_nan f.value) floor_nan
    refuse_if (fl.lt f.value (fl.of_int (negsuc 0)) || fl.lt (fl.of_int (pos 1)) f.value)
        floor_range
    ok tt

  unfoldable pub decide : Floor F → ℕ → F → Bool → Outcome × Option Reason
  decide f hits top vector_ran =
      if hits == 0
      then (outcome_refused, some no_spans)
      else if vector_ran
      then (if fl.is_nan top
          then (outcome_refused, some unscored)
          else if fl.lt top f.value
          then (outcome_refused, some below_floor)
          else (outcome_answered, none))
      else (outcome_answered, none)
