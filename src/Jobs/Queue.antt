-- ===== src/Jobs/Queue.antt =====
-- packages/shared/jobs/jobs.go: the indexing queue. A SQL statement is one atomic step on the rows
-- of the table `jobs`, at the time `now` in milliseconds; the table's constraints are those of the
-- migrations 0003 and 0005. What the code does not decide is an argument: `lower` of Postgres, the
-- new job's id (a hash), and the rows that another transaction has locked.
use codetrail.Prelude.{
  ℕ, ◌+◌, ◌-◌, ◌*◌, ◌^◌, min, Bool, true, false, not, ◌&&◌, Option, none, some, List, [], ◌∷◌, leb,
  ltb, if◌then◌else◌, Bytes, eqb, Result, ok, err, length,
}
use codetrail.Prelude.Int.{ℤ, pos, leb_ℤ}

pub data Status : Type 0 where
  pending leased done failed : Status

pub record Row : Type 0 where
  pub id : Bytes
  pub remote : Bytes
  pub ref : Bytes
  pub status : Status
  pub attempts : ℕ
  pub leased_by : Option Bytes
  pub leased_until : Option ℕ
  pub error : Bytes
  pub repo_id : Option Bytes
  pub created_at : ℕ
  pub updated_at : ℕ

-- What a caller sees of a row.
pub record Job : Type 0 where
  pub id : Bytes
  pub remote : Bytes
  pub ref : Bytes
  pub status : Status
  pub attempts : ℕ
  pub error : Bytes
  pub repo_id : Bytes

pub data QueueError : Type 0 where
  not_found not_leased duplicate_id : QueueError

-- `cols` and `scan`.
unfoldable pub scan : Row → Job
scan r = record {
  id = r.id;
  remote = r.remote;
  ref = r.ref;
  status = r.status;
  attempts = r.attempts;
  error = r.error;
  repo_id = elim r.repo_id [ none ↦ [] | some i ↦ i ];
}

-- In milliseconds: DefaultRetryBase and DefaultRetryMax.
abbrev pub default_retry_base : ℕ
default_retry_base = 30_000

abbrev pub default_retry_max : ℕ
default_retry_max = 600_000

-- `status IN ('pending', 'leased')`
unfoldable pub is_active : Status → Bool
is_active pending = true
is_active leased = true
is_active _ = false

unfoldable pub find_row : (Row → Bool) → List Row → Option Row
find_row p [] = none
find_row p (r ∷ rs) = if p r then some r else find_row p rs

-- The key of the partial unique index: `(lower(remote), ref) WHERE status IN (...)`.
unfoldable pub conflicts : (Bytes → Bytes) → Bytes → Bytes → Row → Bool
unfolding is_active
conflicts lower remote ref r =
    is_active r.status && (eqb (lower r.remote) (lower remote) && eqb r.ref ref)

unfoldable pub new_row : ℕ → Bytes → Bytes → Bytes → Row
new_row now id remote ref = record {
  id = id;
  remote = remote;
  ref = ref;
  status = pending;
  attempts = 0;
  leased_by = none;
  leased_until = none;
  error = [];
  repo_id = none;
  created_at = now;
  updated_at = now;
}

abbrev insert_new : Row → List Row → Option Row → List Row × Result QueueError Job
insert_new r rows (some clash) = (rows, err duplicate_id)
insert_new r rows none = (r ∷ rows, ok (scan r))

abbrev enqueue_on : Row → List Row → Option Row → List Row × Result QueueError Job
enqueue_on r rows (some old) = (rows, ok (scan old))
enqueue_on r rows none = insert_new r rows (find_row (λ s. eqb s.id r.id) rows)

-- `Enqueue`: an active job for the repository and ref comes back as it is.
unfoldable pub enqueue :
    (Bytes → Bytes) → ℕ → Bytes → Bytes → Bytes → List Row → List Row × Result QueueError Job
unfolding new_row find_row conflicts scan
enqueue lower now id remote ref rows =
    enqueue_on (new_row now id remote ref) rows (find_row (conflicts lower remote ref) rows)

-- The WHERE clause of `Lease`.
unfoldable pub claimable : ℕ → Row → Bool
unfolding is_active
claimable now r = is_active r.status && elim r.leased_until [ none ↦ true | some t ↦ ltb t now ]

abbrev pub older : Row → Option Row → Option Row
older r none = some r
older r (some s) = if leb r.created_at s.created_at then some r else some s

-- `ORDER BY created_at LIMIT 1` over the rows that pass.
unfoldable pub oldest : (Row → Bool) → List Row → Option Row
oldest p [] = none
oldest p (r ∷ rs) = let best = oldest p rs in if p r then older r best else best

-- UPDATE ... WHERE: the rows that pass are replaced.
unfoldable pub update_where : (Row → Bool) → (Row → Row) → List Row → List Row
update_where p f [] = []
update_where p f (r ∷ rs) = (if p r then f r else r) ∷ update_where p f rs

unfoldable pub lease_row : ℕ → Bytes → ℕ → Row → Row
lease_row now worker d r = record r {
  status = leased;
  attempts = r.attempts + 1;
  leased_by = some worker;
  leased_until = some (now + d);
  updated_at = now;
}

abbrev pub lease_on : ℕ → Bytes → ℕ → List Row → Option Row → List Row × Option Job
lease_on now worker d rows none = (rows, none)
lease_on now worker d rows (some r) = (
  update_where (λ s. eqb s.id r.id) (lease_row now worker d) rows,
  some (scan (lease_row now worker d r)),
)

-- `Lease`; `locked` rows are skipped.
unfoldable pub lease : (Row → Bool) → ℕ → Bytes → ℕ → List Row → List Row × Option Job
unfolding claimable oldest update_where lease_row scan
lease locked now worker d rows =
    lease_on now worker d rows (oldest (λ r. claimable now r && not (locked r)) rows)

abbrev pub held_by : Option Bytes → Bytes → Bool
held_by none worker = false
held_by (some w) worker = eqb w worker

-- `WHERE id = $1 AND leased_by = $2`: NULL equals nothing.
unfoldable pub holds : Bytes → Bytes → Row → Bool
holds id worker r = eqb r.id id && held_by r.leased_by worker

abbrev pub affected :
    (Row → Row) → (Row → Bool) → List Row → Option Row → List Row × Result QueueError Unit
affected f p rows none = (rows, err not_leased)
affected f p rows (some r) = (update_where p f rows, ok tt)

unfoldable pub complete_row : ℕ → Bytes → Row → Row
complete_row now repo_id r = record r {
  status = done;
  leased_by = none;
  leased_until = none;
  error = [];
  repo_id = some repo_id;
  updated_at = now;
}

unfoldable pub complete : ℕ → Bytes → Bytes → Bytes → List Row → List Row × Result QueueError Unit
unfolding holds complete_row update_where find_row
complete now id worker repo_id rows =
    affected (complete_row now repo_id) (holds id worker) rows (find_row (holds id worker) rows)

-- least(base * 2 ^ least(greatest(attempts - 1, 0), 16), max)
unfoldable pub backoff : ℕ → ℕ → ℕ → ℕ
backoff retry_base retry_max attempts = min (retry_base * 2 ^ min (attempts - 1) 16) retry_max

unfoldable pub fail_row : ℕ → ℕ → ℕ → ℤ → Bytes → Row → Row
unfolding backoff
fail_row retry_base retry_max now max_attempts reason r =
    if leb_ℤ max_attempts (pos r.attempts)
    then record r {
      status = failed;
      leased_by = none;
      leased_until = none;
      error = reason;
      updated_at = now;
    }
    else record r {
      status = pending;
      leased_by = none;
      leased_until = some (now + backoff retry_base retry_max r.attempts);
      error = reason;
      updated_at = now;
    }

unfoldable pub fail :
    ℕ → ℕ → ℕ → Bytes → Bytes → Bytes → ℤ → List Row → List Row × Result QueueError Unit
unfolding holds fail_row update_where find_row
fail retry_base retry_max now id worker reason max_attempts rows =
    affected (fail_row retry_base retry_max now max_attempts reason) (holds id worker) rows
      (find_row (holds id worker) rows)

-- `status IN ('done', 'failed') AND updated_at < now() - $1`; a time before 0 is before every row.
unfoldable pub is_stale : ℕ → ℕ → Row → Bool
unfolding is_active
is_stale now keep_for r = not (is_active r.status) && ltb (r.updated_at + keep_for) now

unfoldable pub delete_where : (Row → Bool) → List Row → List Row
delete_where p [] = []
delete_where p (r ∷ rs) = let rest = delete_where p rs in if p r then rest else r ∷ rest

unfoldable pub sweep : ℕ → ℕ → List Row → List Row × ℕ
unfolding delete_where is_stale
sweep now keep_for rows =
    let kept = delete_where (is_stale now keep_for) rows in (kept, length rows - length kept)

unfoldable pub get : Bytes → List Row → Result QueueError Job
unfolding find_row scan
get id rows = elim (find_row (λ r. eqb r.id id) rows) [
  | none ↦ err not_found
  | some r ↦ ok (scan r)
]
