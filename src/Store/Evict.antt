-- ===== src/Store/Evict.antt =====
-- packages/shared/store/evict.go: the two statements of Evict, and RepoGone, over the tables of
-- repositories and of tombstones. `before` is the order of text in the database.
use codetrail.Prelude.{
  ℕ, Bool, false, not, ◌&&◌, ◌||◌, Option, none, some, List, [], ◌∷◌, length, drop, ltb, ◌==◌,
  if◌then◌else◌, Bytes, eqb,
}
use codetrail.Prelude.Int.{ℤ, pos, pos_part, ltb_ℤ}
use codetrail.Prelude.Sort.{sort_by}

pub record StoredRepo : Type 0 where
  pub id : Bytes
  pub remote : Bytes
  pub ref : Bytes
  pub commit : Bytes
  pub indexed_at : ℕ
  pub last_queried_at : ℕ

pub record Tombstone : Type 0 where
  pub id : Bytes
  pub remote : Bytes
  pub ref : Bytes
  pub commit : Bytes
  pub indexed_at : ℕ
  pub evicted_at : ℕ

pub record Tables : Type 0 where
  pub repos : List StoredRepo
  pub tombs : List Tombstone

pub data EvictError : Type 0 where
  delete_failed trim_failed : EvictError

-- ORDER BY last_queried_at DESC, id DESC
unfoldable pub lru_before : (Bytes → Bytes → Bool) → StoredRepo → StoredRepo → Bool
lru_before before a b =
    ltb b.last_queried_at a.last_queried_at
    || (a.last_queried_at == b.last_queried_at && before b.id a.id)

-- ORDER BY evicted_at DESC, id DESC
unfoldable pub newer_tomb : (Bytes → Bytes → Bool) → Tombstone → Tombstone → Bool
newer_tomb before a b =
    ltb b.evicted_at a.evicted_at || (a.evicted_at == b.evicted_at && before b.id a.id)

unfoldable pub has_repo : Bytes → List StoredRepo → Bool
unfolding eqb
has_repo id [] = false
has_repo id (r ∷ rs) = eqb r.id id || has_repo id rs

unfoldable pub has_tomb : Bytes → List Tombstone → Bool
unfolding eqb
has_tomb id [] = false
has_tomb id (t ∷ ts) = eqb t.id id || has_tomb id ts

-- DELETE FROM repos WHERE id IN (...), and the same of the tombstones.
unfoldable pub without : List StoredRepo → List StoredRepo → List StoredRepo
unfolding has_repo
without gone [] = []
without gone (r ∷ rs) = let rest = without gone rs in if has_repo r.id gone then rest else r ∷ rest

unfoldable pub without_tombs : List Tombstone → List Tombstone → List Tombstone
unfolding has_tomb
without_tombs gone [] = []
without_tombs gone (t ∷ ts) =
    let rest = without_tombs gone ts in if has_tomb t.id gone then rest else t ∷ rest

abbrev pub tomb_of : ℕ → StoredRepo → Tombstone
tomb_of now r = record {
  id = r.id;
  remote = r.remote;
  ref = r.ref;
  commit = r.commit;
  indexed_at = r.indexed_at;
  evicted_at = now;
}

-- INSERT ... ON CONFLICT (id) DO UPDATE
unfoldable pub put_tomb : Tombstone → List Tombstone → List Tombstone
unfolding eqb
put_tomb t [] = t ∷ []
put_tomb t (x ∷ xs) = let rest = put_tomb t xs in if eqb x.id t.id then t ∷ xs else x ∷ rest

unfoldable pub bury : ℕ → List StoredRepo → List Tombstone → List Tombstone
unfolding put_tomb
bury now [] ts = ts
bury now (r ∷ rs) ts = bury now rs (put_tomb (tomb_of now r) ts)

-- What falls beyond the OFFSET of each statement.
unfoldable pub lru_tail : (Bytes → Bytes → Bool) → ℕ → List StoredRepo → List StoredRepo
unfolding lru_before
lru_tail before keep rs = drop keep (sort_by (lru_before before) rs)

unfoldable pub tomb_tail : (Bytes → Bytes → Bool) → ℕ → List Tombstone → List Tombstone
unfolding newer_tomb
tomb_tail before keep ts = drop keep (sort_by (newer_tomb before) ts)

-- The second statement; one that fails leaves what the first did.
abbrev pub trim : (Bytes → Bytes → Bool) → Bool → ℤ → ℕ → Tables → Tables × ℕ × Option EvictError
trim before works keep n t = if not works || ltb_ℤ keep (pos 0) then (t, n, some trim_failed) else (
  record t { tombs = without_tombs (tomb_tail before (pos_part keep) t.tombs) t.tombs },
  n,
  none,
)

-- Postgres refuses a negative OFFSET; `delete_works` and `trim_works` say whether the statements
-- otherwise succeed.
unfoldable pub evict :
    (Bytes → Bytes → Bool) → Bool → Bool → ℕ → ℤ → ℤ → Tables → Tables × ℕ × Option EvictError
unfolding lru_tail tomb_tail without without_tombs bury
evict before delete_works trim_works now keep keep_tombs t =
    let gone = lru_tail before (pos_part keep) t.repos in
    if not delete_works || ltb_ℤ keep (pos 0)
    then (t, 0, some delete_failed)
    else trim before trim_works keep_tombs (length gone)
        (record { repos = without gone t.repos; tombs = bury now gone t.tombs })

unfoldable pub repo_gone : Bytes → Tables → Bool
unfolding has_tomb has_repo
repo_gone id t = has_tomb id t.tombs && not (has_repo id t.repos)
