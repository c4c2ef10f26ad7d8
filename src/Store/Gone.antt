-- ===== src/Store/Gone.antt =====
-- About the repositories that Evict removes, and the tombstones that it writes and drops.
use codetrail.Prelude.{
  drop_all, ℕ, ◌≤◌, Bool, true, false, ◌||◌, ◌≡◌, refl, ap, subst, ◌⊎◌, inl, inr, arith, List, [],
  ◌∷◌, length, Bytes, eqb, eqb_eq, eqb_refl, All, All-imp, Any, Bool-cases,
}
use codetrail.Prelude.Sort.{sort_by, length-sort_by}
use codetrail.Store.Evict.{
  StoredRepo, Tombstone, newer_tomb, has_repo, has_tomb, without, without_tombs, tomb_of, put_tomb,
  bury, tomb_tail,
}

pub has_repo-Any :
    (id : Bytes) (rs : List StoredRepo) → Any (λ r. r.id ≡ id) rs → has_repo id rs ≡ true
unfolding has_repo
has_repo-Any id [] h = absurd h
has_repo-Any id (r ∷ rs) (inl e) = ground (arith, eqb_refl id, e)
has_repo-Any id (r ∷ rs) (inr m) = ground (arith, has_repo-Any id rs m)

-- The repositories that stay: those of the table whose id is not among the gone.
abbrev pub Stays : List StoredRepo → List StoredRepo → StoredRepo → Type 0
Stays gone rs r = Any (λ x. x ≡ r) rs × (has_repo r.id gone ≡ false)

pub without-Stays : (gone rs : List StoredRepo) → All (Stays gone rs) (without gone rs)
unfolding without
without-Stays gone [] = tt
without-Stays gone (r ∷ rs) = elim (Bool-cases (has_repo r.id gone)) [
  | inl out ↦ rw out (later (without-Stays gone rs))
  | inr stays ↦ rw stays ((inl refl, stays), later (without-Stays gone rs))
]
  where
    later : All (Stays gone rs) (without gone rs) → All (Stays gone (r ∷ rs)) (without gone rs)
    later = All-imp (Stays gone rs) (Stays gone (r ∷ rs)) (without gone rs) (λ x h. (inr h.0, h.1))

-- Each repository of `rs` is in `out`, or its id is among the gone.
abbrev pub Accounted : List StoredRepo → List StoredRepo → List StoredRepo → Type 0
Accounted gone out rs = All (λ r. Any (λ x. x ≡ r) out ⊎ (has_repo r.id gone ≡ true)) rs

pub without-Accounted : (gone rs : List StoredRepo) → Accounted gone (without gone rs) rs
unfolding without
without-Accounted gone [] = tt
without-Accounted gone (r ∷ rs) = elim (Bool-cases (has_repo r.id gone)) [
  | inl out ↦
      let same : without gone rs ≡ without gone (r ∷ rs) = rw out refl in
      subst (λ l. Accounted gone l (r ∷ rs)) same (inr out, without-Accounted gone rs)
  | inr stays ↦
      let same : r ∷ without gone rs ≡ without gone (r ∷ rs) = rw stays refl in
      subst (λ l. Accounted gone l (r ∷ rs)) same
        (inl (inl refl), All-imp _ _ rs later (without-Accounted gone rs))
]
  where
    later :
        (x : StoredRepo)
        → Any (λ y. y ≡ x) (without gone rs) ⊎ (has_repo x.id gone ≡ true)
        → Any (λ y. y ≡ x) (r ∷ without gone rs) ⊎ (has_repo x.id gone ≡ true)
    later x (inl m) = inl (inr m)
    later x (inr h) = inr h

pub without-absent :
    (gone rs : List StoredRepo) (id : Bytes)
    → has_repo id gone ≡ true
    → has_repo id (without gone rs) ≡ false
unfolding without has_repo
without-absent gone [] id h = refl
without-absent gone (r ∷ rs) id h = elim (Bool-cases (has_repo r.id gone)) [
  | inl out ↦ rw out (without-absent gone rs id h)
  | inr stays ↦ elim (Bool-cases (eqb r.id id)) [
    | inl same ↦
        let e = eqb_eq r.id id same in let f : has_repo id gone ≡ false = rw e at stays in cc
    | inr other ↦ rw (stays, other) (without-absent gone rs id h)
  ]
]

put_tomb-has :
    (t : Tombstone) (ts : List Tombstone) (id : Bytes)
    → (eqb t.id id || has_tomb id ts) ≡ true
    → has_tomb id (put_tomb t ts) ≡ true
unfolding put_tomb has_tomb
put_tomb-has t [] id h = h
put_tomb-has t (x ∷ xs) id h = elim (Bool-cases (eqb x.id t.id)) [
  | inl same ↦ let e = eqb_eq x.id t.id same in rw same (ground (arith, e))
  | inr other ↦ rw other (ground (arith, put_tomb-has t xs id))
]

pub bury-has :
    (now : ℕ) (gone : List StoredRepo) (ts : List Tombstone) (id : Bytes)
    → (has_repo id gone || has_tomb id ts) ≡ true
    → has_tomb id (bury now gone ts) ≡ true
unfolding bury has_repo
bury-has now [] ts id h = h
bury-has now (r ∷ rs) ts id h =
    bury-has now rs (put_tomb (tomb_of now r) ts) id
      (ground (arith, put_tomb-has (tomb_of now r) ts id))

pub without_tombs_none : (ts : List Tombstone) → without_tombs [] ts ≡ ts
unfolding without_tombs has_tomb
without_tombs_none [] = refl
without_tombs_none (t ∷ ts) = ap (◌∷◌ t) (without_tombs_none ts)

pub tomb_tail_none :
    (before : Bytes → Bytes → Bool) (keep : ℕ) (ts : List Tombstone)
    → length ts ≤ keep
    → tomb_tail before keep ts ≡ []
unfolding tomb_tail
tomb_tail_none before keep ts h =
    drop_all keep (sort_by (newer_tomb before) ts)
      (omega (arith, length-sort_by (newer_tomb before) ts))
