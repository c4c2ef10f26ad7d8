-- ===== src/Jobs/Retries.antt =====
-- What `Fail` and `Sweep` do to the rows.
use codetrail.Prelude.{
  All-self, All-imp, ◌<◌, ◌⊎◌, All-Any, ℕ, ◌+◌, ◌*◌, ◌^◌, ◌-◌, ◌≤◌, min, ◌≡◌, refl, Bool, true,
  false, some, List, [], ◌∷◌, Bytes, eqb, eqb_refl, eqb_eq, arith, All, Any, Bool-cases, inl, inr,
  ok, length, if◌then◌else◌, ltb,
}
use codetrail.Prelude.Int.{ℤ, pos, leb_ℤ}
use codetrail.Jobs.Queue.{
  Row, Status, pending, leased, done, failed, is_active, find_row, claimable, update_where, holds,
  fail, fail_row, backoff, is_stale, delete_where, sweep,
}
use codetrail.Jobs.Table.{IsTable, fail_row-Keeps}
use codetrail.Jobs.Steps.{unique_id}
use native.Mathlib.Nat.{one-le-pow, pow-le-pow_right}

-- The wait before a retry is at least the base and at most the maximum, where the base is not over
-- the maximum, and it does not shrink as the attempts add up.
pub backoff_bounds :
    (rb rm a : ℕ)
    → rb ≤ rm
    → (rb ≤ backoff rb rm a) × (backoff rb rm a ≤ rm) × (backoff rb rm a ≤ backoff rb rm (a + 1))
unfolding backoff
backoff_bounds rb rm a h =
    let x = 2 ^ min (a - 1) 16 in
    let y = 2 ^ min (a + 1 - 1) 16 in
    let one' : 1 ≤ x = one-le-pow (min (a - 1) 16) 2 (omega arith) in
    let grows : x ≤ y = pow-le-pow_right {n = 2} (omega arith) (omega arith) in
    let base : rb ≤ rb * x = grind arith in
    let more : rb * x ≤ rb * y = grind arith in (omega arith, omega arith, omega arith)

-- The row that a failed attempt leaves behind.
module _ (rb rm now : ℕ) (m : ℤ) (reason : Bytes) (r : Row) where
  fail_row-retry :
      (now' : ℕ)
      → leb_ℤ m (pos r.attempts) ≡ false
      → ((fail_row rb rm now m reason r).status ≡ pending)
        × (claimable now' (fail_row rb rm now m reason r)
            ≡ ltb (now + backoff rb rm r.attempts) now')
  unfolding fail_row claimable
  fail_row-retry now' h = rw h (refl, refl)

  fail_row-terminal :
      (now' : ℕ)
      → leb_ℤ m (pos r.attempts) ≡ true
      → ((fail_row rb rm now m reason r).status ≡ failed)
        × (claimable now' (fail_row rb rm now m reason r) ≡ false)
  unfolding fail_row claimable
  fail_row-terminal now' h = rw h (refl, refl)

-- An update of the rows that pass gives each row with the id of `r` the update of `r`.
pub All-one :
    (P : Row → Type 0) (id : Bytes) (p : Row → Bool) (f : Row → Row) (r : Row)
    → ((s : Row) → (f s).id ≡ s.id)
    → p r ≡ true
    → r.id ≡ id
    → P (f r)
    → (rows : List Row) → All (λ s. eqb s.id r.id ≡ true → s ≡ r) rows
    → All (λ s. eqb s.id id ≡ true → P s) (update_where p f rows)
unfolding update_where
All-one P id p f r fid hp ei h [] u = tt
All-one P id p f r fid hp ei h (s ∷ rs) u = (first, All-one P id p f r fid hp ei h rs u.1)
  where
    first : eqb (if p s then f s else s).id id ≡ true → P (if p s then f s else s)
    first e = elim (Bool-cases (p s)) [
      | inl hit ↦
          let k : eqb s.id r.id ≡ true = rw (ei, ← fid s) (rw hit at e) in rw hit (rw (u.0 k) h)
      | inr miss ↦
          let k : eqb s.id r.id ≡ true = rw ei (rw miss at e) in
          let same : s ≡ r = u.0 k in let no' : p r ≡ false = rw (← same) miss in cc
    ]

pub find_row-member :
    (p : Row → Bool) (r : Row) (rows : List Row)
    → p r ≡ true
    → Any (λ s. s ≡ r) rows
    → (s : Row) × (find_row p rows ≡ some s)
unfolding find_row
find_row-member p r [] h m = absurd m
find_row-member p r (x ∷ xs) h (inl e) = (x, rw (e, h) refl)
find_row-member p r (x ∷ xs) h (inr m) = elim (Bool-cases (p x)) [
  | inl hit ↦ (x, rw hit refl)
  | inr miss ↦ rw miss (find_row-member p r xs h m)
]

-- What the holder's `Fail` makes of its job: an attempt that was the last one ends it for good, and
-- any other sends it back to wait, for the backoff of its attempts and no longer.
abbrev pub AfterFail : Bool → ℕ → ℕ → Row → Type 0
AfterFail true until now' s = (s.status ≡ failed) × (claimable now' s ≡ false)
AfterFail false until now' s = (s.status ≡ pending) × (claimable now' s ≡ ltb until now')

pub holds-id : (id worker : Bytes) (r : Row) → holds id worker r ≡ true → r.id ≡ id
unfolding holds
holds-id id worker r h = eqb_eq r.id id (ground arith)

fail_row-AfterFail :
    (rb rm now now' : ℕ) (m : ℤ) (reason : Bytes) (r : Row)
    → AfterFail
        (leb_ℤ m (pos r.attempts))
        (now + backoff rb rm r.attempts)
        now'
        (fail_row rb rm now m reason r)
fail_row-AfterFail rb rm now now' m reason r = elim (Bool-cases (leb_ℤ m (pos r.attempts))) [
  | inl over ↦ rw over (fail_row-terminal rb rm now m reason r now' over)
  | inr room ↦ rw room (fail_row-retry rb rm now m reason r now' room)
]

-- In a well-formed table the holder of a job that calls `Fail` succeeds, and the row that then has
-- the job's id is as `AfterFail` says: after the last attempt the job is failed and is never
-- claimable again, and before that it waits, claimable from just after the end of its backoff on.
pub fail-outcome :
    (lower : Bytes → Bytes) (rb rm now now' : ℕ) (id worker reason : Bytes) (m : ℤ)
    (rows : List Row) (r s : Row)
    → IsTable lower rows
    → Any (λ x. x ≡ r) rows
    → holds id worker r ≡ true
    → Any (λ x. x ≡ s) (fail rb rm now id worker reason m rows).0
    → s.id ≡ id
    → ((fail rb rm now id worker reason m rows).1 ≡ ok tt)
      × AfterFail (leb_ℤ m (pos r.attempts)) (now + backoff rb rm r.attempts) now' s
unfolding fail
fail-outcome lower rb rm now now' id worker reason m rows r s t member held there same =
    let After = AfterFail (leb_ℤ m (pos r.attempts)) (now + backoff rb rm r.attempts) now' in
    let (first, e) = find_row-member (holds id worker) r rows held member in
    let all =
      All-one After id (holds id worker) (fail_row rb rm now m reason) r
        (fail_row-Keeps rb rm now m reason).id held (holds-id id worker r held)
        (fail_row-AfterFail rb rm now now' m reason r) rows
        (unique_id lower rows r t.apart member) in
    (
      rw e refl,
      All-Any (λ x. eqb x.id id ≡ true → After x) (λ x. x ≡ s) _ (After s)
          (λ x h k. rw (← k) (h (rw (k, same) (eqb_refl id)))) all (rw e at there),
    )

length-delete_where :
    (p : Row → Bool) (rows : List Row) → length (delete_where p rows) ≤ length rows
unfolding delete_where
length-delete_where p [] = omega arith
length-delete_where p (r ∷ rs) = ground (arith, length-delete_where p rs)

-- A row that is done or failed, and has not changed for longer than `keep_for`.
abbrev pub IsOld : ℕ → ℕ → Row → Type 0
IsOld now keep_for r = ((r.status ≡ done) ⊎ (r.status ≡ failed)) × (r.updated_at + keep_for < now)

is_stale-IsOld :
    (now keep_for : ℕ) (r : Row) → is_stale now keep_for r ≡ true → IsOld now keep_for r
unfolding is_stale is_active
is_stale-IsOld now keep_for r h = by_status r.status refl
  where
    by_status : (x : Status) → r.status ≡ x → IsOld now keep_for r
    by_status pending e = let k = rw e at h in ground arith
    by_status leased e = let k = rw e at h in ground arith
    by_status done e = (inl e, ground arith)
    by_status failed e = (inr e, ground arith)

fresh-ne-IsOld :
    (now keep_for : ℕ) (r : Row) → is_stale now keep_for r ≡ false → ¬ IsOld now keep_for r
unfolding is_stale is_active
fresh-ne-IsOld now keep_for r h (inl e, old) = let k = rw e at h in ground arith
fresh-ne-IsOld now keep_for r h (inr e, old) = let k = rw e at h in ground arith

-- A row that does not pass is not deleted.
Any-delete_where :
    (p : Row → Bool) (r : Row) (rows : List Row)
    → p r ≡ false
    → Any (λ s. s ≡ r) rows
    → Any (λ s. s ≡ r) (delete_where p rows)
unfolding delete_where
Any-delete_where p r [] h m = absurd m
Any-delete_where p r (x ∷ xs) h (inl e) = rw (e, h) (inl refl)
Any-delete_where p r (x ∷ xs) h (inr m) = elim (Bool-cases (p x)) [
  | inl hit ↦ rw hit (Any-delete_where p r xs h m)
  | inr miss ↦ rw miss (inr (Any-delete_where p r xs h m))
]

deleted-none : (p : Row → Bool) (rows : List Row) → All (λ s. p s ≡ false) (delete_where p rows)
unfolding delete_where
deleted-none p [] = tt
deleted-none p (r ∷ rs) = elim (Bool-cases (p r)) [
  | inl hit ↦ rw hit (deleted-none p rs)
  | inr miss ↦ rw miss (miss, deleted-none p rs)
]

-- `Sweep` reports how many rows went, leaves no job that is done or failed and has not changed for
-- longer than `keep_for`, and leaves every other row as it is: a pending or leased job, however old it
-- is, and one that ended more recently.
pub sweep-outcome :
    (now keep_for : ℕ) (rows : List Row)
    → let (kept, n) = sweep now keep_for rows in
      (length kept + n ≡ length rows)
      × All (λ s. ¬ IsOld now keep_for s) kept
      × All (λ r. Any (λ s. s ≡ r) kept ⊎ IsOld now keep_for r) rows
unfolding sweep
sweep-outcome now keep_for rows = (
  omega (arith, length-delete_where (is_stale now keep_for) rows),
  All-imp (λ s. is_stale now keep_for s ≡ false) _ _ (fresh-ne-IsOld now keep_for)
      (deleted-none (is_stale now keep_for) rows),
  All-self _ rows (λ r m. elim (Bool-cases (is_stale now keep_for r)) [
    | inl t ↦ inr (is_stale-IsOld now keep_for r t)
    | inr f ↦ inl (Any-delete_where (is_stale now keep_for) r rows f m)
  ]),
)
