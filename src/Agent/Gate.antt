-- ===== src/Agent/Gate.antt =====
-- What the citation gate lets through.
use codetrail.Prelude.{
  ℕ, ◌<◌, ◌≡◌, ◌≢◌, refl, ◌⊎◌, inl, inr, List, [], ◌∷◌, ◌++◌, length, Bytes, false, arith, All,
  All-append, Bool-cases, Option, none, some,
}
use codetrail.Agent.Trace.{Bounds, Stop, final}
use codetrail.Agent.Cite.{
  Match, Gate, find_all, mem, position, gate_marker, gate_step, gate_loop, is_subscript, empty_gate,
  resolve,
}
use codetrail.Agent.State.{Env, Loop, Answer, Round, go_on, halt}
use codetrail.Agent.Loop.{gated, stop, run, round}
use codetrail.Agent.Induction.{RoundIs, run_induction}

abbrev pub DistinctPositions : List ℕ → Type 0
DistinctPositions [] = Unit
DistinctPositions (n ∷ ns) = All (λ m. n ≢ m) ns × DistinctPositions ns

-- What is known of the gate's variables after any number of matches.
pub record IsGated (reads : ℕ) (text : Bytes) (g : Gate) : Type 0 where
  pub in_range : All (λ i. i < reads) g.order
  pub distinct : DistinctPositions g.order
  pub untouched : g.dropped ≡ 0 → (g.out ≡ []) × (g.kept ≡ 0)

position-lt : (reads : ℕ) (num : Bytes) (i : ℕ) → position reads num ≡ some i → i < reads
unfolding position
position-lt reads num i h = ground arith

-- A position that is not yet in a list may be put at its end.
distinct-snoc :
    (n : ℕ) (ns : List ℕ)
    → mem n ns ≡ false
    → DistinctPositions ns
    → DistinctPositions (ns ++ n ∷ [])
unfolding mem
distinct-snoc n [] h d = (tt, tt)
distinct-snoc n (m ∷ ns) h d =
    let other : m ≢ n = ground arith in
    let rest : mem n ns ≡ false = ground arith in
    (All-append (λ k. m ≢ k) ns (n ∷ []) d.0 (other, tt), distinct-snoc n ns rest d.1)

gate_marker-IsGated :
    (reads : ℕ) (text : Bytes) (g : Gate) (m : Match) (p : Option ℕ)
    → ((i : ℕ) → p ≡ some i → i < reads)
    → IsGated reads text g
    → IsGated reads text (gate_marker text g m p)
unfolding gate_marker
gate_marker-IsGated reads text g m none hp h = record {
  in_range = h.in_range;
  distinct = h.distinct;
  untouched = λ z. absurd (omega (arith, z));
}
gate_marker-IsGated reads text g m (some i) hp h = elim (Bool-cases (mem i g.order)) [
  | inl old ↦ rw old h
  | inr new ↦ rw new (record {
    in_range = All-append (λ j. j < reads) g.order (i ∷ []) h.in_range (hp i refl, tt);
    distinct = distinct-snoc i g.order new h.distinct;
    untouched = h.untouched;
  })
]

gate_loop-IsGated :
    (reads : ℕ) (text : Bytes) (g : Gate) (ms : List Match)
    → IsGated reads text g
    → IsGated reads text (gate_loop text reads g ms)
unfolding gate_loop gate_step
gate_loop-IsGated reads text g [] h = h
gate_loop-IsGated reads text g (m ∷ ms) h =
    gate_loop-IsGated reads text (gate_step text reads g m) ms
      (elim (Bool-cases (is_subscript text g m)) [
        | inl code ↦ rw code h
        | inr marker ↦ rw marker (
            gate_marker-IsGated reads text (record g { prev = some m.hi }) m (position reads m.num)
              (position-lt reads m.num)
              (record { in_range = h.in_range; distinct = h.distinct; untouched = h.untouched }))
      ])

resolve-IsGated :
    (text : Bytes) (reads : ℕ)
    → IsGated reads text (gate_loop text reads empty_gate (find_all 0 0 text))
resolve-IsGated text reads =
    gate_loop-IsGated reads text empty_gate (find_all 0 0 text)
      (record { in_range = tt; distinct = tt; untouched = λ z. (refl, refl) })

-- The positions that the gate resolves are positions of spans that were read, each named once.
pub resolve-gate :
    (text : Bytes) (reads : ℕ)
    → let (out, order, dropped) = resolve text reads in
      All (λ i. i < reads) order × DistinctPositions order
unfolding resolve
resolve-gate text reads = let h = resolve-IsGated text reads in (h.in_range, h.distinct)

-- A text from which no marker is dropped is served as the model wrote it.
pub resolve-untouched :
    (text : Bytes) (reads : ℕ) → (resolve text reads).2 ≡ 0 → (resolve text reads).0 ≡ text
unfolding resolve
resolve-untouched text reads z =
    let (o, k) = (resolve-IsGated text reads).untouched z in rw (o, k) refl

-- A served text comes with a citation, and every citation names a span that was read.
abbrev pub IsCitable : Answer → Type 0
IsCitable a =
    All (λ i. i < length a.read) a.cited
    × DistinctPositions a.cited
    × (((a.trace.stop ≡ some final) × (a.cited ≢ []))
        ⊎ ((a.trace.stop ≢ some final) × (a.text ≡ []) × (a.cited ≡ [])))

stop-IsCitable : (l : Loop) (s : Stop) → IsCitable (stop l s)
unfolding stop
stop-IsCitable l final = go (resolve l.text (length l.read)) (resolve-gate l.text (length l.read))
  where
    go :
        (g : Bytes × List ℕ × ℕ)
        → All (λ i. i < length l.read) g.1 × DistinctPositions g.1
        → IsCitable (gated l g)
    go (text, [], dropped) h = (tt, tt, inr ((λ e. cc), refl, refl))
    go (text, i ∷ cited, dropped) h = (h.0, h.1, inl (refl, λ e. cc))
stop-IsCitable l s = (tt, tt, inr ((λ e. cc), refl, refl))

any_round : {W : Type 0} (x : W × Round) → RoundIs (λ w l. Unit) (λ w l. Unit) x
any_round (w, go_on l) = tt
any_round (w, halt l s) = tt

-- Any run of the loop: an answer with text has the stop `final` and at least one citation, and any
-- other stop serves neither text nor citations. Every citation is a position of a span that was
-- read, and none is listed twice.
pub run-gate :
    {W : Type 0} (e : Env W) (b : Bounds) (w : W) (question : Bytes)
    → IsCitable (run e b w question).1
run-gate e b w question =
    let (l, s, eq, h) =
      run_induction e b (λ w l. Unit) (λ w l. Unit)
        (λ step w l hs h. any_round (round e b step w l)) (λ w l h. tt) w question tt in
    rw eq (stop-IsCitable l s)
