-- ===== src/Jobs/Tests.antt =====
-- Two jobs in the queue, a lease, and what follows it.
use codetrail.Prelude.{
  ◌⊎◌, ◌≡◌, ◌≢◌, refl, Bool, true, false, List, [], ◌∷◌, Bytes, codes, eqb, eqb_iff, ok, err, some,
  none, All, Any, arith, ◌+◌, inl, length,
}
use codetrail.Prelude.Int.{pos, leb_ℤ}
use codetrail.Jobs.Queue.{
  Row, Job, pending, leased, enqueue, lease, complete, fail, sweep, not_leased, holds, backoff,
  is_active,
}
use codetrail.Jobs.Table.{IsTable}
use codetrail.Jobs.Invariant.{
  here, next, claimed, failed_by, Reach-IsTable, enqueue-IsTable, lease-IsTable,
}
use codetrail.Jobs.Leases.{LeaseOutcome, lease-outcome, lease_exclusive, zombie_refused}
use codetrail.Jobs.Retries.{AfterFail, IsOld, fail-outcome, sweep-outcome}

abbrev same_case : Bytes → Bytes
same_case s = s

abbrev unlocked : Row → Bool
unlocked r = false

abbrev queued : Bytes → Bytes → Row
queued id remote = record {
  id = id;
  remote = remote;
  ref = codes "main";
  status = pending;
  attempts = 0;
  leased_by = none;
  leased_until = none;
  error = [];
  repo_id = none;
  created_at = 5;
  updated_at = 5;
}

abbrev running : Row
running = record (queued (codes "a") (codes "r")) {
  status = leased;
  attempts = 1;
  leased_by = some (codes "w");
  leased_until = some 110;
  updated_at = 10;
}

abbrev waiting : Row
waiting = queued (codes "b") (codes "s")

abbrev two_jobs : List Row
two_jobs = queued (codes "a") (codes "r") ∷ waiting ∷ []

abbrev leased_jobs : List Row
leased_jobs = running ∷ waiting ∷ []

abbrev job_a : Job
job_a = record {
  id = codes "a";
  remote = codes "r";
  ref = codes "main";
  status = leased;
  attempts = 1;
  error = [];
  repo_id = [];
}

abbrev job_b : Job
job_b = record {
  id = codes "b";
  remote = codes "s";
  ref = codes "main";
  status = leased;
  attempts = 1;
  error = [];
  repo_id = [];
}

enqueue_second :
    (enqueue same_case 5 (codes "a") (codes "r") (codes "main") (waiting ∷ [])).0 ≡ two_jobs
unfolding enqueue eqb
enqueue_second = refl

lease_first : lease unlocked 10 (codes "w") 100 two_jobs ≡ (leased_jobs, some job_a)
unfolding lease eqb
lease_first = refl

lease_second : (lease unlocked 50 (codes "v") 100 leased_jobs).1 ≡ some job_b
unfolding lease eqb
lease_second = refl

empty-IsTable : IsTable same_case []
empty-IsTable = record { valid = tt; apart = tt }

one-IsTable : IsTable same_case (waiting ∷ [])
unfolding enqueue eqb
one-IsTable = enqueue-IsTable same_case 5 (codes "b") (codes "s") (codes "main") [] empty-IsTable

two-IsTable : IsTable same_case two_jobs
two-IsTable =
    rw (← enqueue_second) (
      enqueue-IsTable same_case 5 (codes "a") (codes "r") (codes "main") (waiting ∷ []) one-IsTable)

leased-IsTable : IsTable same_case leased_jobs
leased-IsTable =
    let t = lease-IsTable same_case unlocked 10 (codes "w") 100 two_jobs two-IsTable in
    rw lease_first at t

lease-outcome_example :
    LeaseOutcome unlocked 10 (codes "w") 100 two_jobs (lease unlocked 10 (codes "w") 100 two_jobs)
lease-outcome_example = lease-outcome unlocked 10 (codes "w") 100 two_jobs

lease_exclusive_example : job_b.id ≢ job_a.id
lease_exclusive_example =
    lease_exclusive unlocked unlocked 10 50 100 100 (codes "w") (codes "v") two_jobs leased_jobs
      job_a job_b lease_first (omega arith) lease_second

not_eqb : eqb (codes "v") (codes "w") ≡ false
unfolding eqb
not_eqb = refl

other_worker : codes "v" ≢ codes "w"
other_worker e =
    let n : eqb (codes "v") (codes "w") ≡ false = not_eqb in
    ground (arith, eqb_iff (codes "v") (codes "w"))

zombie_refused_example :
    (complete 60 (codes "a") (codes "v") (codes "x") leased_jobs ≡ (leased_jobs, err not_leased))
    × (fail 30 600 60 (codes "a") (codes "v") (codes "late") (pos 3) leased_jobs
        ≡ (leased_jobs, err not_leased))
zombie_refused_example =
    zombie_refused unlocked 10 100 (codes "w") (codes "v") two_jobs leased_jobs job_a 60 30 600
      (codes "x") (codes "late") (pos 3) lease_first other_worker

Reach-IsTable_example :
    IsTable same_case
      (fail 30 600 60
        (codes "a")
        (codes "w")
        (codes "net")
        (pos 3)
        (lease unlocked 10 (codes "w") 100 two_jobs).0).0
Reach-IsTable_example = Reach-IsTable same_case two-IsTable (
    next (next here (claimed unlocked 10 (codes "w") 100))
      (failed_by 30 600 60 (codes "a") (codes "w") (codes "net") (pos 3)))

w_holds : holds (codes "a") (codes "w") running ≡ true
unfolding holds eqb
w_holds = refl

abbrev requeued : Row
requeued = record running {
  status = pending;
  leased_by = none;
  leased_until = some 90;
  error = codes "net";
  updated_at = 60;
}

fail_first :
    (fail 30 600 60 (codes "a") (codes "w") (codes "net") (pos 3) leased_jobs).0
    ≡ requeued ∷ waiting ∷ []
unfolding fail eqb
fail_first = refl

fail-outcome_example :
    ((fail 30 600 60 (codes "a") (codes "w") (codes "net") (pos 3) leased_jobs).1 ≡ ok tt)
    × AfterFail (leb_ℤ (pos 3) (pos 1)) (60 + backoff 30 600 1) 80 requeued
fail-outcome_example =
    fail-outcome same_case 30 600 60 80 (codes "a") (codes "w") (codes "net") (pos 3) leased_jobs
      running requeued leased-IsTable (inl refl) w_holds (rw fail_first (inl refl)) refl

waiting_active : is_active waiting.status ≡ true
unfolding is_active
waiting_active = refl

sweep-outcome_example :
    let (kept, n) = sweep 10_000 10 leased_jobs in
    (length kept + n ≡ length leased_jobs)
    × All (λ s. ¬ IsOld 10_000 10 s) kept
    × All (λ r. Any (λ s. s ≡ r) kept ⊎ IsOld 10_000 10 r) leased_jobs
sweep-outcome_example = sweep-outcome 10_000 10 leased_jobs
