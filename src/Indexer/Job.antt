-- ===== src/Indexer/Job.antt =====
-- apps/indexer/cmd/main.go: one leased job, as far as the queue sees it. Each part of the work that
-- is not the indexer's own code (git, the file system, the store, go/types) is its result, and what
-- the indexer decides on these results is modelled.
use codetrail.Prelude.{
  ℕ, Bool, true, false, ◌&&◌, ◌||◌, Option, none, some, List, [], ◌∷◌, ◌++◌, length, leb, ◌==◌,
  if◌then◌else◌, Bytes, codes, Result, ok, err,
}
use codetrail.Prelude.Int.{ℤ, pos, ltb_ℤ, leb_ℤ}
use codetrail.Prelude.Strings.{decimal}
use codetrail.Admit.{Net, Policy, Error, rule_host, Remote, check}
use codetrail.Jobs.Queue.{Row, Job, QueueError, complete, fail}

unfoldable pub is_hex : ℕ → Bool
is_hex c = (leb b'0' c && leb c b'9') || ((leb b'a' c && leb c b'f') || (leb b'A' c && leb c b'F'))

unfoldable pub all_hex : Bytes → Bool
unfolding is_hex
all_hex [] = true
all_hex (c ∷ s) = is_hex c && all_hex s

-- The two lengths of a commit's hash. A byte of a rune past ASCII is no digit.
unfoldable pub is_commit_sha : Bytes → Bool
unfolding all_hex
is_commit_sha ref = (length ref == 40 || length ref == 64) && all_hex ref

-- The metric that a job is counted under.
pub data Ended : Type 0 where
  job_done job_failed job_retried : Ended

-- The last statement of a job. `end_retry` is `fail` under the worker's limit of attempts, and
-- `end_failed` is `failFinally`.
pub data Ending : Type 0 where
  end_done : Bytes → Ending
  end_retry : Bytes → Ending
  end_failed : Bytes → Ending
  -- `failIndexed`: the repository is removed if that was the last attempt.
  end_indexed : Bytes → Bytes → Ending

pub data CloneError : Type 0 where
  too_large : Bytes → CloneError
  clone_error : Bytes → CloneError

-- What happens to a job: the results of its parts, with the text of an error.
pub record Work : Type 0 where
  pub net : Net
  pub hosts : Policy
  pub reason_of : Error → Bytes
  pub cleared : Result Bytes Unit
  pub skip_clone : Bool
  pub resolved : Bytes → Result Bytes Bytes
  pub repo_id : Bytes → Bytes → Bytes
  pub fast : Bytes → Bool
  pub cloned : Bytes → Result CloneError Bytes
  pub walked : Result Bytes Unit
  pub indexed : Bytes → Result Bytes Unit
  pub put : Result Bytes Unit
  pub put_spans : Result Bytes Unit
  pub graphed : Result Bytes Unit

abbrev pub after_graph : Bytes → Result Bytes Unit → Ending
after_graph id (err e) = end_indexed id e
after_graph id (ok u) = end_done id

abbrev pub after_spans : Work → Bytes → Result Bytes Unit → Ending
after_spans w id (err e) = end_indexed id e
after_spans w id (ok u) = after_graph id w.graphed

abbrev pub after_put : Work → Bytes → Result Bytes Unit → Ending
after_put w id (err e) = end_retry e
after_put w id (ok u) = after_spans w id w.put_spans

abbrev pub after_index : Work → Bytes → Result Bytes Unit → Ending
after_index w id (err e) = end_retry e
after_index w id (ok u) = after_put w id w.put

abbrev pub after_walk : Work → Bytes → Result Bytes Unit → Ending
after_walk w id (err e) = end_retry e
after_walk w id (ok u) = after_index w id (w.indexed id)

abbrev pub after_clone : Work → Remote → Result CloneError Bytes → Ending
after_clone w r (err (too_large e)) = end_failed e
after_clone w r (err (clone_error e)) = end_retry e
after_clone w r (ok commit) = after_walk w (w.repo_id r.key commit) w.walked

-- The ref is resolved before the clone, and a commit that is indexed already is not cloned.
abbrev pub after_resolve : Work → Remote → Result Bytes Bytes → Ending
after_resolve w r (err e) = after_clone w r (w.cloned r.url)
after_resolve w r (ok sha) =
    let id = w.repo_id r.key sha in
    if w.fast id then end_done id else after_clone w r (w.cloned r.url)

abbrev pub after_clear : Work → Remote → Result Bytes Unit → Ending
after_clear w r (err e) = end_retry e
after_clear w r (ok u) =
    if w.skip_clone then after_resolve w r (w.resolved r.url) else after_clone w r (w.cloned r.url)

abbrev pub is_host_rule : Error → Bool
is_host_rule (rule_host, d) = true
is_host_rule e = false

-- A host off the list may be a worker with another list, so that the job is tried again.
abbrev pub after_check : Work → Result Error Remote → Ending
after_check w (err e) =
    if is_host_rule e then end_retry (w.reason_of e) else end_failed (w.reason_of e)
after_check w (ok r) = after_clear w r w.cleared

-- How a leased job ends, before the queue is told.
unfoldable pub ending : ℤ → Work → Job → Ending
unfolding is_commit_sha decimal check
ending tries w job =
    if ltb_ℤ tries (pos job.attempts)
    then end_failed (codes "abandoned after " ++ (decimal job.attempts ++ codes " attempts"))
    else if is_commit_sha job.ref
    then end_failed (codes "ref must be a branch or tag name: a commit sha cannot be cloned")
    else after_check w (check w.net w.hosts job.remote)

-- The queue as the worker reaches it: its waits, the time, its name, and whether the last write lands,
-- which a cancelled context or a dead connection prevents.
pub record Worker : Type 0 where
  pub tries : ℤ
  pub retry_base : ℕ
  pub retry_max : ℕ
  pub now : ℕ
  pub name : Bytes
  pub lands : Bool

abbrev pub completed : List Row × Result QueueError Unit → List Row × Ended
completed (rows, ok u) = (rows, job_done)
completed (rows, err e) = (rows, job_retried)

abbrev pub ended_by : ℤ → Job → Ended
ended_by tries job = if leb_ℤ tries (pos job.attempts) then job_failed else job_retried

-- `recordFailure`: what the queue answers is only logged.
abbrev pub record_failure : Worker → Job → Bytes → ℤ → List Row → List Row
record_failure k job reason m rows =
    if k.lands then (fail k.retry_base k.retry_max k.now job.id k.name reason m rows).0 else rows

unfoldable pub end_job : Worker → Job → Ending → List Row → List Row × Ended
unfolding complete fail
end_job k job (end_done id) rows =
    if k.lands then completed (complete k.now job.id k.name id rows) else (rows, job_retried)
end_job k job (end_retry e) rows = (record_failure k job e k.tries rows, ended_by k.tries job)
end_job k job (end_failed e) rows = (record_failure k job e (pos 0) rows, job_failed)
end_job k job (end_indexed id e) rows = (record_failure k job e k.tries rows, ended_by k.tries job)

-- `failIndexed` removes the repository just on the last attempt.
unfoldable pub drops : Worker → Job → Ending → Option Bytes
drops k job (end_indexed id e) = if leb_ℤ k.tries (pos job.attempts) then some id else none
drops k job end = none

unfoldable pub do_job : Worker → Work → Job → List Row → List Row × Ended
unfolding ending end_job
do_job k w job rows = end_job k job (ending k.tries w job) rows
