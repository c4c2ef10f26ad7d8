-- ===== src/Indexer/Reported.antt =====
-- About the last write of a leased job: the metric says what the row does.
use codetrail.Prelude.{
  All-Any, ℕ, ◌+◌, Bool, true, false, ◌≡◌, refl, subst, inl, inr, arith, List, [], ◌∷◌, Bytes, eqb,
  eqb_refl, Result, ok, err, Any, Bool-cases, ltb,
}
use codetrail.Prelude.Int.{pos, leb_ℤ}
use codetrail.Jobs.Queue.{
  Row, Job, pending, done, failed, find_row, claimable, holds, backoff, complete, complete_row,
  fail, QueueError, affected, update_where,
}
use codetrail.Jobs.Table.{IsTable, complete_row-Keeps}
use codetrail.Jobs.Steps.{unique_id}
use codetrail.Jobs.Retries.{fail-outcome, All-one, find_row-member, holds-id}
use codetrail.Indexer.Job.{
  Ended, job_done, job_failed, job_retried, Ending, end_done, end_retry, end_failed, end_indexed,
  Worker, ended_by, completed, end_job,
}

-- What a metric says of the row of its job: done, failed for good, or waiting for the end of its
-- backoff.
abbrev pub Reported : Worker → ℕ → ℕ → Ended → Row → Type 0
Reported k attempts now' job_done s = (s.status ≡ done) × (claimable now' s ≡ false)
Reported k attempts now' job_failed s = (s.status ≡ failed) × (claimable now' s ≡ false)
Reported k attempts now' job_retried s =
    (s.status ≡ pending)
    × (claimable now' s ≡ ltb (k.now + backoff k.retry_base k.retry_max attempts) now')

complete_row-done :
    (now : ℕ) (repo_id : Bytes) (now' : ℕ) (r : Row)
    → ((complete_row now repo_id r).status ≡ done)
      × (claimable now' (complete_row now repo_id r) ≡ false)
unfolding complete_row claimable
complete_row-done now repo_id now' r = (refl, refl)

pub completed_rows : (x : List Row × Result QueueError Unit) → (completed x).0 ≡ x.0
completed_rows (rows, ok u) = refl
completed_rows (rows, err e) = refl

pub completed_told :
    (x : List Row × Result QueueError Unit) → x.1 ≡ ok tt → (completed x).1 ≡ job_done
completed_told (rows, ok u) h = refl
completed_told (rows, err e) h = cc

-- The row of an update that finds it.
updated_there :
    (p : Row → Bool) (f : Row → Row) (r : Row) (rows : List Row)
    → p r ≡ true
    → Any (λ x. x ≡ r) rows
    → Any (λ x. x ≡ f r) (update_where p f rows)
unfolding update_where
updated_there p f r [] h m = absurd m
updated_there p f r (x ∷ xs) h (inl e) = inl (rw (e, h) refl)
updated_there p f r (x ∷ xs) h (inr m) = inr (updated_there p f r xs h m)

pub affected_there :
    (p : Row → Bool) (f : Row → Row) (r : Row) (rows : List Row)
    → p r ≡ true
    → Any (λ x. x ≡ r) rows
    → Any (λ x. x ≡ f r) (affected f p rows (find_row p rows)).0
affected_there p f r rows h m =
    let (first, e) = find_row-member p r rows h m in rw e (updated_there p f r rows h m)

module _ (lower : Bytes → Bytes) (k : Worker) (job : Job) (now' : ℕ) (rows : List Row) (r s : Row)
    (table : IsTable lower rows) (member : Any (λ x. x ≡ r) rows)
    (held : holds job.id k.name r ≡ true) (same : s.id ≡ job.id) where
  complete-outcome :
      (repo_id : Bytes)
      → Any (λ x. x ≡ s) (complete k.now job.id k.name repo_id rows).0
      → ((complete k.now job.id k.name repo_id rows).1 ≡ ok tt)
        × Reported k r.attempts now' job_done s
  unfolding complete
  complete-outcome repo_id there =
      let After = Reported k r.attempts now' job_done in
      let (first, e) = find_row-member (holds job.id k.name) r rows held member in
      let all =
        All-one After job.id (holds job.id k.name) (complete_row k.now repo_id) r
          (complete_row-Keeps k.now repo_id).id held (holds-id job.id k.name r held)
          (complete_row-done k.now repo_id now' r) rows
          (unique_id lower rows r table.apart member) in
      (
        rw e refl,
        All-Any (λ x. eqb x.id job.id ≡ true → After x) (λ x. x ≡ s) _ (After s)
            (λ x h k. rw (← k) (h (rw (k, same) (eqb_refl job.id)))) all (rw e at there),
      )

  -- A limit of m attempts, and the metric that says whether this was the last.
  retry-Reported :
      (attempts : r.attempts ≡ job.attempts) (reason : Bytes)
      → Any (λ x. x ≡ s) (fail k.retry_base k.retry_max k.now job.id k.name reason k.tries rows).0
      → Reported k r.attempts now' (ended_by k.tries job) s
  retry-Reported attempts reason there =
      let (told, after) =
        fail-outcome lower k.retry_base k.retry_max k.now now' job.id k.name reason k.tries rows r s
          table member held there same in
      elim (Bool-cases (leb_ℤ k.tries (pos r.attempts))) [
        | inl last ↦ rw (← attempts, last) (rw last at after)
        | inr more ↦ rw (← attempts, more) (rw more at after)
      ]

  final-Reported :
      (reason : Bytes)
      → Any (λ x. x ≡ s) (fail k.retry_base k.retry_max k.now job.id k.name reason (pos 0) rows).0
      → Reported k r.attempts now' job_failed s
  final-Reported reason there =
      let (told, after) =
        fail-outcome lower k.retry_base k.retry_max k.now now' job.id k.name reason (pos 0) rows r s
          table member held there same in
      let all : leb_ℤ (pos 0) (pos r.attempts) ≡ true = ground arith in rw all at after

  pub end_job-Reported :
      (attempts : r.attempts ≡ job.attempts) (lands : k.lands ≡ true) (e : Ending)
      → Any (λ x. x ≡ s) (end_job k job e rows).0
      → Reported k r.attempts now' (end_job k job e rows).1 s
  unfolding end_job
  end_job-Reported attempts lands (end_done id) there' =
      let x = complete k.now job.id k.name id rows in
      let there : Any (λ (y : Row). y ≡ s) (completed x).0 = simp lands at there' in
      let (told, after) =
        complete-outcome id
          (subst (λ (l : List Row). Any (λ y. y ≡ s) l) (completed_rows x) there) in
      simp lands (rw (completed_told x told) after)
  end_job-Reported attempts lands (end_retry e) there =
      retry-Reported attempts e (simp lands at there)
  end_job-Reported attempts lands (end_failed e) there = final-Reported e (simp lands at there)
  end_job-Reported attempts lands (end_indexed id e) there =
      retry-Reported attempts e (simp lands at there)
