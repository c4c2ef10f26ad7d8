-- ===== src/Jobs/Leases.antt =====
-- What a lease promises: the oldest claimable job, to one worker, until it expires or is given back.
use codetrail.Prelude.{
  All-Any, ℕ, ◌+◌, ◌≤◌, ◌≡◌, ◌≢◌, refl, Bool, true, false, not, ◌&&◌, Option, none, some, List, [],
  ◌∷◌, Bytes, eqb, eqb_iff, eqb_refl, arith, All, Bool-cases, inl, inr, err, sym, ◌∙◌, ap, subst,
}
use codetrail.Prelude.Int.{ℤ}
use codetrail.Jobs.Queue.{
  Row, Job, find_row, claimable, oldest, update_where, lease_row, lease_on, lease, scan, holds,
  complete, fail, not_leased,
}
use codetrail.Jobs.Steps.{IsOldest, Picks, oldest-Picks}

-- The rows that a `Lease` at `now` may take.
abbrev pub free : (Row → Bool) → ℕ → Row → Bool
free locked now r = claimable now r && not (locked r)

abbrev pub LeaseOutcome : (Row → Bool) → ℕ → Bytes → ℕ → List Row → List Row × Option Job → Type 0
LeaseOutcome locked now worker d rows (rows', none) =
    (rows' ≡ rows) × All (λ s. free locked now s ≡ false) rows
LeaseOutcome locked now worker d rows (rows', some j) =
    (r : Row) × IsOldest (free locked now) rows r
    × (j ≡ scan (lease_row now worker d r))
    × (rows' ≡ update_where (λ s. eqb s.id r.id) (lease_row now worker d) rows)

-- `Lease` takes the oldest row that is active, unlocked and past its time, counts the attempt and
-- marks it as the worker's until `now + d`; it takes nothing, and changes nothing, exactly when
-- there is no such row.
pub lease-outcome :
    (locked : Row → Bool) (now : ℕ) (worker : Bytes) (d : ℕ) (rows : List Row)
    → LeaseOutcome locked now worker d rows (lease locked now worker d rows)
unfolding lease
lease-outcome locked now worker d rows =
    go (oldest (free locked now) rows) (oldest-Picks (free locked now) rows)
  where
    go :
        (best : Option Row)
        → Picks (free locked now) rows best
        → LeaseOutcome locked now worker d rows (lease_on now worker d rows best)
    go none k = (refl, k)
    go (some r) k = (r, k, refl, refl)

-- What an update gives every row that has the id.
All-updated :
    (P : Row → Type 0) (id : Bytes) (f : Row → Row)
    → ((r : Row) → eqb r.id id ≡ true → P (f r))
    → (rows : List Row)
    → All (λ r. eqb r.id id ≡ true → P r) (update_where (λ s. eqb s.id id) f rows)
unfolding update_where
All-updated P id f hp [] = tt
All-updated P id f hp (r ∷ rs) = elim (Bool-cases (eqb r.id id)) [
  | inl hit ↦ rw hit (λ e. hp r hit, All-updated P id f hp rs)
  | inr miss ↦ rw miss (λ e. cc, All-updated P id f hp rs)
]

lease_row-later :
    (now now' : ℕ) (worker : Bytes) (d : ℕ) (r : Row)
    → now' ≤ now + d
    → claimable now' (lease_row now worker d r) ≡ false
unfolding claimable lease_row
lease_row-later now now' worker d r h = ground arith

outcome-some :
    (locked : Row → Bool) (now : ℕ) (worker : Bytes) (d : ℕ) (rows : List Row)
    (x : List Row × Option Job) (k : Job)
    → LeaseOutcome locked now worker d rows x
    → x.1 ≡ some k
    → (r : Row) × IsOldest (free locked now) rows r × (k ≡ scan (lease_row now worker d r))
outcome-some locked now worker d rows (rows', none) k o e = cc
outcome-some locked now worker d rows (rows', some j) k (r, best, ej, er) e =
    let same : j ≡ k = cc in (r, best, sym same ∙ ej)

id-leased :
    (now : ℕ) (worker : Bytes) (d : ℕ) (r : Row) → (scan (lease_row now worker d r)).id ≡ r.id
unfolding scan lease_row
id-leased now worker d r = refl

-- What is known of the table after a `Lease` that took a job.
leased_rows :
    (P : Row → Type 0) (locked : Row → Bool) (now d : ℕ) (worker : Bytes) (rows rows' : List Row)
    (j : Job)
    → ((r : Row) → P (lease_row now worker d r))
    → lease locked now worker d rows ≡ (rows', some j)
    → All (λ s. eqb s.id j.id ≡ true → P s) rows'
leased_rows P locked now d worker rows rows' j hp e =
    let (r, best, ej, er) =
      subst (LeaseOutcome locked now worker d rows) e (lease-outcome locked now worker d rows) in
    rw (er, ej, id-leased) (All-updated P r.id (lease_row now worker d) (λ r h. hp r) rows)

-- On the table that a `Lease` leaves, no further `Lease` takes the job until the lease is past its
-- time, whoever asks and whatever is locked.
pub lease_exclusive :
    (locked locked' : Row → Bool) (now now' d d' : ℕ) (worker other : Bytes) (rows rows' : List Row)
    (j k : Job)
    → lease locked now worker d rows ≡ (rows', some j)
    → now' ≤ now + d
    → (lease locked' now' other d' rows').1 ≡ some k
    → k.id ≢ j.id
lease_exclusive locked locked' now now' d d' worker other rows rows' j k e h e' same =
    let (r, best, ek) =
      outcome-some locked' now' other d' rows' (lease locked' now' other d' rows') k
        (lease-outcome locked' now' other d' rows') e' in
    let id : r.id ≡ j.id =
      sym (id-leased now' other d' r) ∙ sym (ap (λ (x : Job). x.id) ek) ∙ same in
    let taken =
      leased_rows (λ s. claimable now' s ≡ false) locked now d worker rows rows' j
        (λ s. lease_row-later now now' worker d s h) e in
    All-Any (λ s. eqb s.id j.id ≡ true → claimable now' s ≡ false) (λ s. s ≡ r) rows' ⊥
      (λ s t eq.
        let busy = t (rw (eq, id) (eqb_refl j.id)) in
        let open' = best.passes in
        let busy' : claimable now' r ≡ false = rw (← eq) busy in ground arith)
      taken best.member

-- No row has the id and the holder.
find_row-holds :
    (id w : Bytes) (rows : List Row)
    → All (λ s. eqb s.id id ≡ true → holds id w s ≡ false) rows
    → find_row (holds id w) rows ≡ none
unfolding find_row holds
find_row-holds id w [] h = refl
find_row-holds id w (r ∷ rs) h =
    let first = h.0 in let rest = find_row-holds id w rs h.1 in ground arith

leased-not_held :
    (now d : ℕ) (worker other id : Bytes) (r : Row)
    → other ≢ worker
    → holds id other (lease_row now worker d r) ≡ false
unfolding holds lease_row
leased-not_held now d worker other id r n = ground (arith, eqb_iff worker other)

-- On the table that a worker's `Lease` of a job leaves, any other worker's `Complete` and `Fail` of
-- the job are refused and change nothing: one whose lease was reclaimed cannot finish or requeue it.
pub zombie_refused :
    (locked : Row → Bool) (now d : ℕ) (worker other : Bytes) (rows rows' : List Row) (j : Job)
    (later rb rm : ℕ) (repo_id reason : Bytes) (m : ℤ)
    → lease locked now worker d rows ≡ (rows', some j)
    → other ≢ worker
    → (complete later j.id other repo_id rows' ≡ (rows', err not_leased))
      × (fail rb rm later j.id other reason m rows' ≡ (rows', err not_leased))
unfolding complete fail
zombie_refused locked now d worker other rows rows' j later rb rm repo_id reason m e n =
    let gone = find_row-holds j.id other rows' (
      leased_rows (λ s. holds j.id other s ≡ false) locked now d worker rows rows' j
        (λ s. leased-not_held now d worker other j.id s n) e) in
    (rw gone refl, rw gone refl)
