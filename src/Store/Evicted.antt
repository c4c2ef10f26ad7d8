-- ===== src/Store/Evicted.antt =====
-- About Evict: the least recently queried repositories go, and each leaves its tombstone.
use codetrail.Prelude.{
  ℕ, zero, suc, ◌-◌, ◌≤◌, ◌<◌, Bool, true, false, not, ◌||◌, ◌≡◌, refl, sym, ap, ◌∙◌, subst, ◌⊎◌,
  inl, inr, arith, Option, none, some, List, [], ◌∷◌, length, length-drop, take, drop,
  take-append-drop, ltb, Bytes, All, All-imp, Any, Any-append_split, Any-map, All-self, All-member,
  Bool-cases,
}
use codetrail.Prelude.Int.{ℤ, pos, pos_part, ltb_ℤ}
use codetrail.Prelude.Sort.{
  sort_by, IsOrdering, IsSorted, sort_by-IsSorted, Any-sort_by, length-sort_by,
}
use codetrail.Store.Evict.{
  StoredRepo, Tombstone, Tables, EvictError, delete_failed, trim_failed, lru_before, has_repo,
  has_tomb, without, without_tombs, bury, lru_tail, tomb_tail, trim, evict, repo_gone,
}
use codetrail.Store.Gone.{
  has_repo-Any, Stays, without-Stays, Accounted, without-Accounted, without-absent, bury-has,
  without_tombs_none, tomb_tail_none,
}

lru_before-IsOrdering :
    (before : Bytes → Bytes → Bool) → IsOrdering before → IsOrdering (lru_before before)
unfolding lru_before
lru_before-IsOrdering before o = record {
  asym = λ a b h. ground (arith, o.asym b.id a.id);
  trans = λ a b c h k. ground (arith, o.trans c.id b.id a.id);
  neg_trans = λ a b c h k. ground (arith, o.neg_trans c.id b.id a.id);
}

-- In a sorted list, nothing after a place comes before what stands ahead of it.
sorted_split :
    {A : Type 0} (less : A → A → Bool) (n : ℕ) (xs : List A)
    → IsSorted less xs
    → All (λ x. All (λ y. less y x ≡ false) (drop n xs)) (take n xs)
sorted_split less zero [] h = tt
sorted_split less zero (x ∷ xs) h = tt
sorted_split less (suc n) [] h = tt
sorted_split less (suc n) (x ∷ xs) h = (All-drop n xs h.0, sorted_split less n xs h.1)
  where
    All-drop :
        (k : ℕ) (ys : List _)
        → All (λ y. less y x ≡ false) ys
        → All (λ y. less y x ≡ false) (drop k ys)
    All-drop zero ys q = q
    All-drop (suc k) [] q = tt
    All-drop (suc k) (y ∷ ys) q = All-drop k ys q.1

-- A repository whose last query is older, or as old under an id that is not greater.
abbrev pub Older : (Bytes → Bytes → Bool) → StoredRepo → StoredRepo → Type 0
Older before g r =
    (g.last_queried_at < r.last_queried_at)
    ⊎ ((g.last_queried_at ≡ r.last_queried_at) × (before r.id g.id ≡ false))

lru_before-Older :
    (before : Bytes → Bytes → Bool) (g r : StoredRepo)
    → lru_before before g r ≡ false
    → Older before g r
unfolding lru_before
lru_before-Older before g r h = ground arith

module _ (before : Bytes → Bytes → Bool) (o : IsOrdering before) (now keep : ℕ) (t : Tables) where
  abbrev pub gone_from : List StoredRepo
  unfolding lru_tail
  gone_from = lru_tail before keep t.repos

  -- What the first statement does to the repositories.
  pub record Evicts (rs : List StoredRepo) (n : ℕ) : Type 0 where
    pub stay : All (Stays gone_from t.repos) rs
    pub accounted : Accounted gone_from rs t.repos
    pub least_recent : All (λ r. All (λ g. Older before g r) gone_from) rs
    pub number : (n ≡ length gone_from) × (n ≡ length t.repos - keep)

  Evicts_lem : Evicts (without gone_from t.repos) (length gone_from)
  unfolding lru_tail
  Evicts_lem =
      let sorted = sort_by (lru_before before) t.repos in
      record {
        stay = without-Stays gone_from t.repos;
        accounted = without-Accounted gone_from t.repos;
        least_recent =
            All-imp (Stays gone_from t.repos) (λ r. All (λ g. Older before g r) gone_from)
              (without gone_from t.repos)
              (λ r h.
                All-imp (λ g. lru_before before g r ≡ false) (λ g. Older before g r) gone_from
                  (λ g k. lru_before-Older before g r k)
                  (older r h.1 (
                    Any-append_split (λ x. x ≡ r) (take keep sorted) (drop keep sorted)
                      (subst (Any (λ x. x ≡ r)) (sym (take-append-drop keep sorted))
                        (Any-sort_by (lru_before before) (λ x. x ≡ r) t.repos h.0)))))
              (without-Stays gone_from t.repos);
        number = (
          refl,
          length-drop keep sorted ∙ ap (λ n. n - keep) (length-sort_by (lru_before before) t.repos),
        );
      }
    where
      older :
          (r : StoredRepo)
          → has_repo r.id gone_from ≡ false
          → Any (λ x. x ≡ r) (take keep (sort_by (lru_before before) t.repos))
            ⊎ Any (λ x. x ≡ r) (drop keep (sort_by (lru_before before) t.repos))
          → All (λ g. lru_before before g r ≡ false) gone_from
      older r h (inl m) =
          All-member
            (λ x.
              All (λ g. lru_before before g x ≡ false)
                (drop keep (sort_by (lru_before before) t.repos)))
            (take keep (sort_by (lru_before before) t.repos)) r
            (sorted_split (lru_before before) keep (sort_by (lru_before before) t.repos)
              (sort_by-IsSorted (lru_before before) (lru_before-IsOrdering before o) t.repos))
            m
      older r h (inr m) =
          let there =
            has_repo-Any r.id gone_from
              (Any-map (λ x. x ≡ r) (λ x. x.id ≡ r.id) gone_from (λ x e. ap (λ y. y.id) e) m) in
          absurd (not_both there h)
        where
          not_both : has_repo r.id gone_from ≡ true → has_repo r.id gone_from ≡ false → ⊥
          not_both a b = cc

-- What Evict leaves, by its error: what it was called with is in the tables before.
abbrev pub EvictOutcome :
    (before : Bytes → Bytes → Bool)
    → IsOrdering before
    → Bool
    → Bool
    → ℕ
    → ℤ
    → ℤ
    → Tables
    → Tables × ℕ × Option EvictError
    → Type 0
EvictOutcome before o delete_works trim_works now keep keep_tombs t (t', n, some delete_failed) =
    ((not delete_works || ltb_ℤ keep (pos 0)) ≡ true) × (t' ≡ t) × (n ≡ 0)
EvictOutcome before o delete_works trim_works now keep keep_tombs t (t', n, some trim_failed) =
    ((not trim_works || ltb_ℤ keep_tombs (pos 0)) ≡ true)
    × (ltb_ℤ keep (pos 0) ≡ false)
    × Evicts before o now (pos_part keep) t t'.repos n
    × All (λ g. repo_gone g.id t' ≡ true) (lru_tail before (pos_part keep) t.repos)
EvictOutcome before o delete_works trim_works now keep keep_tombs t (t', n, none) =
    (ltb_ℤ keep (pos 0) ≡ false)
    × Evicts before o now (pos_part keep) t t'.repos n
    × All
        (λ g.
          (repo_gone g.id t' ≡ true)
          ⊎ (pos_part keep_tombs
              < length (bury now (lru_tail before (pos_part keep) t.repos) t.tombs)))
        (lru_tail before (pos_part keep) t.repos)

-- Evict that fails on its first statement changes nothing, and does so only where the statement fails
-- or `keep` is negative; it fails on its second only where that does or its number is negative. But for
-- the first case each repository stays or is gone, those that are gone are all but `keep`, and each of
-- them was last queried before every one that stays, or at the same time under an id that is not
-- greater; and each of their ids answers that it is gone, unless the second statement, which drops
-- tombstones, ran with more of them than it keeps.
pub evict-EvictOutcome :
    (before : Bytes → Bytes → Bool) (o : IsOrdering before) (delete_works trim_works : Bool)
    (now : ℕ) (keep keep_tombs : ℤ) (t : Tables)
    → EvictOutcome before o delete_works trim_works now keep keep_tombs t
        (evict before delete_works trim_works now keep keep_tombs t)
unfolding evict
evict-EvictOutcome before o delete_works trim_works now keep keep_tombs t =
    elim (Bool-cases (not delete_works || ltb_ℤ keep (pos 0))) [
      | inl fails ↦ rw fails (fails, refl, refl)
      | inr works ↦ rw works (trimmed (ground arith))
    ]
  where
    gone : List StoredRepo
    gone = lru_tail before (pos_part keep) t.repos

    buried : Tables
    buried = record { repos = without gone t.repos; tombs = bury now gone t.tombs }

    all_gone : All (λ g. repo_gone g.id buried ≡ true) gone
    all_gone =
        All-self (λ g. repo_gone g.id buried ≡ true) gone
          (λ g m. is_gone g.id (
            has_repo-Any g.id gone
              (Any-map (λ x. x ≡ g) (λ x. x.id ≡ g.id) gone (λ x e. ap (λ y. y.id) e) m)))
      where
        is_gone : (id : Bytes) → has_repo id gone ≡ true → repo_gone id buried ≡ true
        is_gone id h =
            gone_when (bury-has now gone t.tombs id (rw h refl)) (without-absent gone t.repos id h)
          where
            gone_when :
                has_tomb id buried.tombs ≡ true
                → has_repo id buried.repos ≡ false
                → repo_gone id buried ≡ true
            gone_when a b = unfold repo_gone in (rw (a, b) refl)

    some_gone :
        (ts : List Tombstone)
        → without_tombs (tomb_tail before (pos_part keep_tombs) buried.tombs) buried.tombs ≡ ts
        → All
            (λ g.
              (repo_gone g.id (record buried { tombs = ts }) ≡ true)
              ⊎ (pos_part keep_tombs < length buried.tombs))
            gone
    some_gone ts e = elim (Bool-cases (ltb (pos_part keep_tombs) (length buried.tombs))) [
      | inl over ↦ All-self _ gone (λ g m. inr (ground arith))
      | inr within ↦
          let same : buried.tombs ≡ ts = sym (none_trimmed (ground arith)) ∙ e in
          subst
            (λ l.
              All
                (λ g.
                  (repo_gone g.id (record buried { tombs = l }) ≡ true)
                  ⊎ (pos_part keep_tombs < length buried.tombs))
                gone)
            same (All-imp _ _ gone (λ g h. inl h) all_gone)
    ]
      where
        none_trimmed :
            length buried.tombs ≤ pos_part keep_tombs
            → without_tombs (tomb_tail before (pos_part keep_tombs) buried.tombs) buried.tombs
              ≡ buried.tombs
        none_trimmed h =
            let tail : tomb_tail before (pos_part keep_tombs) buried.tombs ≡ [] =
              tomb_tail_none before (pos_part keep_tombs) buried.tombs h in
            ap (λ l. without_tombs l buried.tombs) tail ∙ without_tombs_none buried.tombs

    trimmed :
        ltb_ℤ keep (pos 0) ≡ false
        → EvictOutcome before o delete_works trim_works now keep keep_tombs t
            (trim before trim_works keep_tombs (length gone) buried)
    trimmed q = elim (Bool-cases (not trim_works || ltb_ℤ keep_tombs (pos 0))) [
      | inl fails ↦ rw fails (fails, q, Evicts_lem before o now (pos_part keep) t, all_gone)
      | inr works ↦ rw works (q, Evicts_lem before o now (pos_part keep) t, some_gone _ refl)
    ]
