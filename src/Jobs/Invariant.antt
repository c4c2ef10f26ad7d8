-- ===== src/Jobs/Invariant.antt =====
-- The table's invariant under each statement, and under any sequence of statements.
use codetrail.Prelude.{
  ℕ, ◌≡◌, refl, Bool, true, false, not, ◌&&◌, Option, none, some, List, [], ◌∷◌, Bytes, eqb,
  eqb_iff, arith, All, All-imp, Bool-cases, Option-cases, inl, inr,
}
use codetrail.Prelude.Int.{ℤ}
use codetrail.Jobs.Queue.{
  Row, is_active, find_row, conflicts, new_row, enqueue, claimable, oldest, lease_row, lease_on,
  lease, holds, complete_row, complete, fail_row, fail, is_stale, delete_where, sweep,
}
use codetrail.Jobs.Table.{
  IsRowValid, AreApart, Apart, IsTable, Still, Apart-update_where, All-update_where,
  lease_row-Keeps, complete_row-Keeps, fail_row-Keeps, lease_row-IsRowValid,
  complete_row-IsRowValid, fail_row-IsRowValid, held-active,
}
use codetrail.Jobs.Steps.{Picks, oldest-Picks, unique_id}

find_row-none :
    (p : Row → Bool) (rows : List Row) → find_row p rows ≡ none → All (λ r. p r ≡ false) rows
unfolding find_row
find_row-none p [] h = tt
find_row-none p (r ∷ rs) h = elim (Bool-cases (p r)) [
  | inl hit ↦ absurd (let k = h in ground arith)
  | inr miss ↦ (miss, find_row-none p rs (ground arith))
]

module _ (lower : Bytes → Bytes) where
  -- `Enqueue` adds a row only where no active row has its key and no row has its id.
  pub enqueue-IsTable :
      (now : ℕ) (id remote ref : Bytes) (rows : List Row)
      → IsTable lower rows
      → IsTable lower (enqueue lower now id remote ref rows).0
  unfolding enqueue
  enqueue-IsTable now id remote ref rows t =
      elim (Option-cases (find_row (conflicts lower remote ref) rows)) [
        | inr (old, e) ↦ rw e t
        | inl free ↦ rw free (elim (Option-cases (find_row (λ s. eqb s.id id) rows)) [
          | inr (clash, e) ↦ rw e t
          | inl fresh ↦ rw fresh (record {
            valid = (record { held = λ e. cc; free = λ n. refl }, t.valid);
            apart =
                (apart_from rows (find_row-none _ rows free) (find_row-none _ rows fresh), t.apart);
          })
        ])
      ]
    where
      apart_from :
          (rs : List Row)
          → All (λ s. conflicts lower remote ref s ≡ false) rs
          → All (λ s. eqb s.id id ≡ false) rs
          → All (AreApart lower (new_row now id remote ref)) rs
      apart_from [] h k = tt
      apart_from (s ∷ rs) h k = (
        record { ids = λ e. ground (arith, eqb_iff s.id id); keys = λ a. h.0 },
        apart_from rs h.1 k.1,
      )

  claimed-active :
      (locked : Row → Bool) (now : ℕ) (r : Row)
      → (claimable now r && not (locked r)) ≡ true
      → is_active r.status ≡ true
  unfolding claimable
  claimed-active locked now r h = ground arith

  -- `Lease` gives the row it claims a holder and a time, and activates nothing.
  pub lease-IsTable :
      (locked : Row → Bool) (now : ℕ) (worker : Bytes) (d : ℕ) (rows : List Row)
      → IsTable lower rows
      → IsTable lower (lease locked now worker d rows).0
  unfolding lease
  lease-IsTable locked now worker d rows t = go (oldest p rows) (oldest-Picks p rows)
    where
      p : Row → Bool
      p r = claimable now r && not (locked r)

      go :
          (best : Option Row)
          → Picks p rows best
          → IsTable lower (lease_on now worker d rows best).0
      go none k = t
      go (some r) k = record {
        valid =
            All-update_where (λ s. eqb s.id r.id) (lease_row now worker d) IsRowValid
              (λ s m v. lease_row-IsRowValid now worker d s) rows t.valid;
        apart =
            Apart-update_where (λ s. eqb s.id r.id) (lease_row now worker d)
              (lease_row-Keeps now worker d) lower rows
              (All-imp (λ s. eqb s.id r.id ≡ true → s ≡ r)
                (Still (λ s. eqb s.id r.id) (lease_row now worker d) (lease_row-Keeps now worker d))
                rows (λ s same hit act. rw (same hit) (claimed-active locked now r k.passes))
                (unique_id lower rows r t.apart k.member))
              t.apart;
      }

  module _ (id worker : Bytes) (rows : List Row) (t : IsTable lower rows) where
    -- A row that its holder updates was leased, so it was active.
    pub complete-IsTable :
        (now : ℕ) (repo_id : Bytes) → IsTable lower (complete now id worker repo_id rows).0
    unfolding complete is_active
    complete-IsTable now repo_id = elim (Option-cases (find_row (holds id worker) rows)) [
      | inl missing ↦ rw missing t
      | inr (r, e) ↦ rw e (record {
        valid =
            All-update_where (holds id worker) (complete_row now repo_id) IsRowValid
              (λ s m v. complete_row-IsRowValid now repo_id s) rows t.valid;
        apart =
            Apart-update_where (holds id worker) (complete_row now repo_id)
              (complete_row-Keeps now repo_id) lower rows
              (All-imp IsRowValid
                (Still (holds id worker) (complete_row now repo_id)
                  (complete_row-Keeps now repo_id))
                rows (λ s v hit act. rw (held-active id worker s v hit) refl) t.valid)
              t.apart;
      })
    ]

    pub fail-IsTable :
        (rb rm now : ℕ) (reason : Bytes) (m : ℤ)
        → IsTable lower (fail rb rm now id worker reason m rows).0
    unfolding fail is_active
    fail-IsTable rb rm now reason m = elim (Option-cases (find_row (holds id worker) rows)) [
      | inl missing ↦ rw missing t
      | inr (r, e) ↦ rw e (record {
        valid =
            All-update_where (holds id worker) (fail_row rb rm now m reason) IsRowValid
              (λ s hit v. fail_row-IsRowValid rb rm now m reason s) rows t.valid;
        apart =
            Apart-update_where (holds id worker) (fail_row rb rm now m reason)
              (fail_row-Keeps rb rm now m reason) lower rows
              (All-imp IsRowValid
                (Still (holds id worker) (fail_row rb rm now m reason)
                  (fail_row-Keeps rb rm now m reason))
                rows (λ s v hit act. rw (held-active id worker s v hit) refl) t.valid)
              t.apart;
      })
    ]

  All-delete_where :
      (P : Row → Type 0) (p : Row → Bool) (rows : List Row)
      → All P rows
      → All P (delete_where p rows)
  unfolding delete_where
  All-delete_where P p [] h = tt
  All-delete_where P p (r ∷ rs) h = elim (Bool-cases (p r)) [
    | inl hit ↦ rw hit (All-delete_where P p rs h.1)
    | inr miss ↦ rw miss (h.0, All-delete_where P p rs h.1)
  ]

  Apart-delete_where :
      (p : Row → Bool) (rows : List Row) → Apart lower rows → Apart lower (delete_where p rows)
  unfolding delete_where
  Apart-delete_where p [] h = tt
  Apart-delete_where p (r ∷ rs) h = elim (Bool-cases (p r)) [
    | inl hit ↦ rw hit (Apart-delete_where p rs h.1)
    | inr miss ↦ rw miss (All-delete_where (AreApart lower r) p rs h.0, Apart-delete_where p rs h.1)
  ]

  pub sweep-IsTable :
      (now keep_for : ℕ) (rows : List Row)
      → IsTable lower rows
      → IsTable lower (sweep now keep_for rows).0
  unfolding sweep
  sweep-IsTable now keep_for rows t = record {
    valid = All-delete_where IsRowValid (is_stale now keep_for) rows t.valid;
    apart = Apart-delete_where (is_stale now keep_for) rows t.apart;
  }

-- One statement of the queue, by any gateway or indexer, at any time.
pub data Step (lower : Bytes → Bytes) (rows : List Row) : List Row → Type 0 where
  enqueued :
      (now : ℕ) (id remote ref : Bytes) → Step lower rows (enqueue lower now id remote ref rows).0
  claimed :
      (locked : Row → Bool) (now : ℕ) (worker : Bytes) (d : ℕ)
      → Step lower rows (lease locked now worker d rows).0
  completed :
      (now : ℕ) (id worker repo_id : Bytes)
      → Step lower rows (complete now id worker repo_id rows).0
  failed_by :
      (rb rm now : ℕ) (id worker reason : Bytes) (m : ℤ)
      → Step lower rows (fail rb rm now id worker reason m rows).0
  swept : (now keep_for : ℕ) → Step lower rows (sweep now keep_for rows).0

pub data Reach (lower : Bytes → Bytes) (rows : List Row) : List Row → Type 0 where
  here : Reach lower rows rows
  next : {mid last : List Row} → Reach lower rows mid → Step lower mid last → Reach lower rows last

Step-IsTable :
    (lower : Bytes → Bytes) {rows last : List Row}
    → Step lower rows last
    → IsTable lower rows
    → IsTable lower last
Step-IsTable lower {rows} (enqueued now id remote ref) t =
    enqueue-IsTable lower now id remote ref rows t
Step-IsTable lower {rows} (claimed locked now worker d) t =
    lease-IsTable lower locked now worker d rows t
Step-IsTable lower {rows} (completed now id worker repo_id) t =
    complete-IsTable lower id worker rows t now repo_id
Step-IsTable lower {rows} (failed_by rb rm now id worker reason m) t =
    fail-IsTable lower id worker rows t rb rm now reason m
Step-IsTable lower {rows} (swept now keep_for) t = sweep-IsTable lower now keep_for rows t

-- From a well-formed table, whatever statements run and in whatever order: ids stay unique, no two
-- active jobs are for one repository and ref, and a row has a holder exactly while it is leased.
pub Reach-IsTable :
    (lower : Bytes → Bytes) {rows last : List Row}
    → IsTable lower rows
    → Reach lower rows last
    → IsTable lower last
Reach-IsTable lower t here = t
Reach-IsTable lower t (next r s) = Step-IsTable lower s (Reach-IsTable lower t r)
