-- ===== src/Indexer/Ending.antt =====
-- About a leased job: how its row ends, and that the metric says what it knows.
use codetrail.Prelude.{
  some, ◌⊎◌, if◌then◌else◌, ℕ, true, false, ◌≡◌, refl, ◌∙◌, inl, inr, arith, List, Bytes, ok, Any,
  Bool-cases,
}
use codetrail.Prelude.Int.{ℤ, pos, leb_ℤ, ◌≤ℤ◌}
use codetrail.Jobs.Queue.{Row, Job, holds, complete, complete_row, fail, fail_row}
use codetrail.Jobs.Table.{IsTable, complete_row-Keeps, fail_row-Keeps}
use codetrail.Jobs.Retries.{find_row-member, holds-id}
use codetrail.Indexer.Ends.{EndsBy, ending-EndsBy}
use codetrail.Indexer.Job.{
  Ended, job_done, job_failed, job_retried, Ending, end_done, end_retry, end_failed, end_indexed,
  Work, Worker, ending, ended_by, end_job, do_job,
}
use codetrail.Indexer.Reported.{
  Reported, end_job-Reported, completed_rows, completed_told, affected_there,
}

module _ (k : Worker) (job : Job) (rows : List Row) (r : Row) (member : Any (λ x. x ≡ r) rows)
    (held : holds job.id k.name r ≡ true) (lands : k.lands ≡ true) where
  -- The row that a job has in the end.
  end_row : Ending → Row
  end_row (end_done id) = complete_row k.now id r
  end_row (end_retry e) = fail_row k.retry_base k.retry_max k.now k.tries e r
  end_row (end_failed e) = fail_row k.retry_base k.retry_max k.now (pos 0) e r
  end_row (end_indexed id e) = fail_row k.retry_base k.retry_max k.now k.tries e r

  end_row_there : (e : Ending) → Any (λ x. x ≡ end_row e) (end_job k job e rows).0
  unfolding end_job end_row
  end_row_there (end_done id) = simp lands (
      rw (completed_rows (complete k.now job.id k.name id rows)) (
        unfold complete in
        (affected_there (holds job.id k.name) (complete_row k.now id) r rows held member)))
  end_row_there (end_retry e) = simp lands (
      unfold fail in
      (affected_there (holds job.id k.name) (fail_row k.retry_base k.retry_max k.now k.tries e) r
        rows held member))
  end_row_there (end_failed e) = simp lands (
      unfold fail in
      (affected_there (holds job.id k.name) (fail_row k.retry_base k.retry_max k.now (pos 0) e) r
        rows held member))
  end_row_there (end_indexed id e) = simp lands (
      unfold fail in
      (affected_there (holds job.id k.name) (fail_row k.retry_base k.retry_max k.now k.tries e) r
        rows held member))

  end_row-id : (e : Ending) → (end_row e).id ≡ job.id
  unfolding end_row
  end_row-id (end_done id) = (complete_row-Keeps k.now id).id r ∙ holds-id job.id k.name r held
  end_row-id (end_retry e) =
      (fail_row-Keeps k.retry_base k.retry_max k.now k.tries e).id r ∙ holds-id job.id k.name r held
  end_row-id (end_failed e) =
      (fail_row-Keeps k.retry_base k.retry_max k.now (pos 0) e).id r ∙ holds-id job.id k.name r held
  end_row-id (end_indexed id e) =
      (fail_row-Keeps k.retry_base k.retry_max k.now k.tries e).id r ∙ holds-id job.id k.name r held

-- What the row says of the ending: the repository, or the reason.
abbrev pub Names : Ending → Row → Type 0
Names (end_done id) s = s.repo_id ≡ some id
Names (end_retry e) s = s.error ≡ e
Names (end_failed e) s = s.error ≡ e
Names (end_indexed id e) s = s.error ≡ e

fail_row-error :
    (k : Worker) (m : ℤ) (e : Bytes) (r : Row)
    → (fail_row k.retry_base k.retry_max k.now m e r).error ≡ e
unfolding fail_row
fail_row-error k m e r = ground arith

complete_row-repo_id : (now : ℕ) (id : Bytes) (r : Row) → (complete_row now id r).repo_id ≡ some id
unfolding complete_row
complete_row-repo_id now id r = refl

end_row-Names :
    (k : Worker) (job : Job) (rows : List Row) (r : Row) (member : Any (λ x. x ≡ r) rows)
    (held : holds job.id k.name r ≡ true) (lands : k.lands ≡ true) (e : Ending)
    → Names e (end_row k job rows r member held lands e)
unfolding end_row
end_row-Names k job rows r member held lands (end_done id) = complete_row-repo_id k.now id r
end_row-Names k job rows r member held lands (end_retry e) = fail_row-error k k.tries e r
end_row-Names k job rows r member held lands (end_failed e) = fail_row-error k (pos 0) e r
end_row-Names k job rows r member held lands (end_indexed id e) = fail_row-error k k.tries e r

complete_ok :
    (k : Worker) (job : Job) (rows : List Row) (r : Row)
    → Any (λ x. x ≡ r) rows
    → holds job.id k.name r ≡ true
    → (id : Bytes) → (complete k.now job.id k.name id rows).1 ≡ ok tt
unfolding complete
complete_ok k job rows r member held id =
    let (first, q) = find_row-member (holds job.id k.name) r rows held member in rw q refl

-- The metric of a job, by its ending.
abbrev pub Told : Worker → Job → Ending → Ended → Type 0
Told k job (end_done id) x = x ≡ (if k.lands then job_done else job_retried)
Told k job (end_failed e) x = x ≡ job_failed
Told k job e x =
    ((k.tries ≤ℤ pos job.attempts) × (x ≡ job_failed))
    ⊎ ((¬ (k.tries ≤ℤ pos job.attempts)) × (x ≡ job_retried))

ended_by-Told :
    (k : Worker) (job : Job)
    → ((k.tries ≤ℤ pos job.attempts) × (ended_by k.tries job ≡ job_failed))
      ⊎ ((¬ (k.tries ≤ℤ pos job.attempts)) × (ended_by k.tries job ≡ job_retried))
ended_by-Told k job = elim (Bool-cases (leb_ℤ k.tries (pos job.attempts))) [
  | inl last ↦ rw last (inl (ground arith, refl))
  | inr more ↦ rw more (inr (λ h. ground arith, refl))
]

-- A job ends for its reason, and is counted accordingly; and where the last write lands its row is what
-- the metric says, and otherwise the table is as it was.
abbrev pub JobOutcome : Worker → Work → Job → ℕ → List Row → Row → List Row × Ended → Type 0
JobOutcome k w job now' rows r x =
    (e : Ending) × EndsBy w k.tries job e
    × Told k job e x.1
    × (((k.lands ≡ true)
          × (s : Row) × Any (λ y. y ≡ s) x.0
          × (s.id ≡ job.id)
          × Names e s
          × Reported k r.attempts now' x.1 s)
        ⊎ ((k.lands ≡ false) × (x.0 ≡ rows)))

end_job-lost :
    (k : Worker) (job : Job) (rows : List Row) (e : Ending)
    → k.lands ≡ false
    → Told k job e (end_job k job e rows).1 × ((end_job k job e rows).0 ≡ rows)
unfolding end_job
end_job-lost k job rows (end_done id) lost = simp lost (refl, refl)
end_job-lost k job rows (end_retry e) lost = (ended_by-Told k job, simp lost refl)
end_job-lost k job rows (end_failed e) lost = (refl, simp lost refl)
end_job-lost k job rows (end_indexed id e) lost = (ended_by-Told k job, simp lost refl)

end_job-Told :
    (k : Worker) (job : Job) (rows : List Row) (e : Ending)
    → k.lands ≡ true
    → ((id : Bytes) → (complete k.now job.id k.name id rows).1 ≡ ok tt)
    → Told k job e (end_job k job e rows).1
unfolding end_job
end_job-Told k job rows (end_done id) lands told =
    simp lands (completed_told (complete k.now job.id k.name id rows) (told id))
end_job-Told k job rows (end_retry e) lands told = ended_by-Told k job
end_job-Told k job rows (end_failed e) lands told = refl
end_job-Told k job rows (end_indexed id e) lands told = ended_by-Told k job

-- A job that its worker holds, in a well-formed table, ends done only where its commit was indexed
-- before or every part of the work went well; failed for good only where it was leased too often,
-- names a commit, is refused by admission for another reason than its host, or is too large; and
-- otherwise because a part failed, to be tried again below the limit of attempts. The metric says
-- which. Where the last write lands, the row afterwards is done or failed, and never claimable again,
-- or waits and is claimable from just after the backoff of its attempts on, as the metric says, and
-- it names the repository, or the reason. Where it does not land, no row changes.
pub do_job-Reported :
    (lower : Bytes → Bytes) (k : Worker) (w : Work) (job : Job) (now' : ℕ) (rows : List Row)
    (r : Row)
    → IsTable lower rows
    → Any (λ x. x ≡ r) rows
    → holds job.id k.name r ≡ true
    → r.attempts ≡ job.attempts
    → JobOutcome k w job now' rows r (do_job k w job rows)
unfolding do_job
do_job-Reported lower k w job now' rows r table member held attempts = elim (Bool-cases k.lands) [
  | inr lost ↦ let (told, same) = end_job-lost k job rows e lost in (e, why, told, inr (lost, same))
  | inl lands ↦
      let s = end_row k job rows r member held lands e in
      let there = end_row_there k job rows r member held lands e in
      let same = end_row-id k job rows r member held lands e in
      let completes : (id : Bytes) → (complete k.now job.id k.name id rows).1 ≡ ok tt =
        complete_ok k job rows r member held in
      (
        e,
        why,
        end_job-Told k job rows e lands completes,
        inl (
          lands,
          s,
          there,
          same,
          end_row-Names k job rows r member held lands e,
          end_job-Reported lower k job now' rows r s table member held same attempts lands e there,
        ),
      )
]
  where
    e : Ending
    e = ending k.tries w job

    why : EndsBy w k.tries job e
    why = ending-EndsBy w k.tries job
