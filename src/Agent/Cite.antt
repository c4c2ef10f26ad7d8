-- ===== src/Agent/Cite.antt =====
-- packages/shared/agent/cite.go: the citation gate. `[n]` names the span that the loop read at
-- position n.
use codetrail.Prelude.{
  ℕ, zero, suc, ◌+◌, ◌-◌, ◌*◌, ◌^◌, Bool, false, not, ◌&&◌, ◌||◌, Option, none, some, List, [], ◌∷◌,
  ◌++◌, length, take, drop, leb, ltb, ◌==◌, if◌then◌else◌, Bytes,
}

abbrev pub is_digit : ℕ → Bool
is_digit c = leb b'0' c && leb c b'9'

unfoldable pub subscripted : ℕ → Bool
subscripted b =
    (leb b'a' b && leb b b'z')
    || ((leb b'A' b && leb b b'Z') || is_digit b)
    || (b == b'_' || (b == b')' || (b == b']' || b == b'}')))

-- The digits at the head of a text, and what follows them.
unfoldable pub digits : Bytes → Bytes × Bytes
digits [] = ([], [])
digits (c ∷ s) = let r = digits s in if is_digit c then (c ∷ r.0, r.1) else ([], c ∷ s)

abbrev pub close : Bytes × Bytes → Option Bytes
close ([], rest) = none
close (d ∷ ds, []) = none
close (d ∷ ds, c ∷ rest) = if c == b']' then some (d ∷ ds) else none

-- The digits of a match of `\[(\d+)\]` that begins with the first byte.
unfoldable pub match_at : Bytes → Option Bytes
unfolding digits
match_at [] = none
match_at (c ∷ s) = if c == b'[' then close (digits s) else none

-- One match: where it begins and ends, and its digits.
pub record Match : Type 0 where
  pub lo : ℕ
  pub hi : ℕ
  pub num : Bytes

-- FindAllStringSubmatchIndex: leftmost matches that do not overlap. The first argument counts the
-- bytes of the last match that are still to be passed over.
unfoldable pub find_all : ℕ → ℕ → Bytes → List Match
unfolding match_at
find_all skip pos [] = []
find_all (suc k) pos (c ∷ s) = find_all k (pos + 1) s
find_all zero pos (c ∷ s) = elim (match_at (c ∷ s)) [
  | none ↦ find_all zero (pos + 1) s
  | some ds ↦
      record { lo = pos; hi = pos + length ds + 2; num = ds } ∷ find_all (length ds + 1) (pos + 1) s
]

unfoldable pub value_from : ℕ → Bytes → ℕ
value_from n [] = n
value_from n (c ∷ s) = value_from (n * 10 + (c - b'0')) s

-- strconv.Atoi on digits: an error where the value does not fit an int64.
unfoldable pub atoi : Bytes → Option ℕ
unfolding value_from
atoi s = let n = value_from 0 s in if ltb n (2 ^ 63) then some n else none

-- text[a:b]
unfoldable pub slice : Bytes → ℕ → ℕ → Bytes
slice s a b = take (b - a) (drop a s)

unfoldable pub byte_at : Bytes → ℕ → ℕ
byte_at [] i = 0
byte_at (c ∷ s) zero = c
byte_at (c ∷ s) (suc i) = byte_at s i

unfoldable pub mem : ℕ → List ℕ → Bool
mem n [] = false
mem n (m ∷ ms) = n == m || mem n ms

-- The variables of the loop in `Resolve`. `prev` is -1 at the start, which no position equals.
-- `seen` holds what `order` holds, so membership is asked of `order`.
pub record Gate : Type 0 where
  pub order : List ℕ
  pub dropped : ℕ
  pub out : Bytes
  pub kept : ℕ
  pub prev : Option ℕ

abbrev pub at_prev : ℕ → Option ℕ → Bool
at_prev lo none = false
at_prev lo (some p) = lo == p

-- The test that a match is a subscript and no marker.
unfoldable pub is_subscript : Bytes → Gate → Match → Bool
unfolding subscripted byte_at
is_subscript text g m =
    ltb 0 m.lo && (not (at_prev m.lo g.prev) && subscripted (byte_at text (m.lo - 1)))

abbrev drop_marker : Bytes → Gate → Match → Gate
drop_marker text g m = record g {
  dropped = g.dropped + 1;
  out = g.out ++ slice text g.kept m.lo;
  kept = m.hi;
}

-- The number of a marker, if a span was read at that position.
unfoldable pub position : ℕ → Bytes → Option ℕ
unfolding atoi
position reads num = elim (atoi num) [
  | none ↦ none
  | some n ↦ if ltb n 1 || ltb reads n then none else some (n - 1)
]

unfoldable pub gate_marker : Bytes → Gate → Match → Option ℕ → Gate
unfolding mem slice
gate_marker text g m none = drop_marker text g m
gate_marker text g m (some i) = if mem i g.order then g else record g { order = g.order ++ i ∷ [] }

unfoldable pub gate_step : Bytes → ℕ → Gate → Match → Gate
unfolding is_subscript gate_marker position
gate_step text reads g m =
    if is_subscript text g m
    then g
    else gate_marker text (record g { prev = some m.hi }) m (position reads m.num)

unfoldable pub gate_loop : Bytes → ℕ → Gate → List Match → Gate
unfolding gate_step
gate_loop text reads g [] = g
gate_loop text reads g (m ∷ ms) = gate_loop text reads (gate_step text reads g m) ms

abbrev pub empty_gate : Gate
empty_gate = record { order = []; dropped = 0; out = []; kept = 0; prev = none }

-- `Resolve` reads of `read` only its length.
unfoldable pub resolve : Bytes → ℕ → Bytes × List ℕ × ℕ
unfolding gate_loop find_all
resolve text reads =
    let g = gate_loop text reads empty_gate (find_all 0 0 text) in
    (g.out ++ drop g.kept text, g.order, g.dropped)
