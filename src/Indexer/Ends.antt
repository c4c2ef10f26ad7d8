-- ===== src/Indexer/Ends.antt =====
-- About doJob up to its last write: why a job ends as it does.
use codetrail.Prelude.{
  if◌then◌else◌, ℕ, ◌≤◌, ◌≡◌, ◌≢◌, refl, ◌⊎◌, inl, inr, arith, Bool, true, false, [], ◌∷◌, length,
  Bytes, Result, ok, err, All, Bool-cases,
}
use codetrail.Prelude.Int.{ℤ, pos, ◌≤ℤ◌, ltb_ℤ}
use codetrail.Admit.{Error, rule_form, rule_scheme, rule_host, Remote, check}
use codetrail.Jobs.Queue.{Job}
use codetrail.Indexer.Job.{
  is_hex, all_hex, is_commit_sha, Ending, end_done, end_retry, end_failed, end_indexed, CloneError,
  too_large, clone_error, Work, after_graph, after_spans, after_put, after_index, after_walk,
  after_clone, after_resolve, after_clear, after_check, ending,
}

-- A digit, or a letter from a to f of either case.
abbrev pub IsHexDigit : ℕ → Type 0
IsHexDigit c = ((b'0' ≤ c) × (c ≤ b'9')) ⊎ (((b'a' ≤ c) × (c ≤ b'f')) ⊎ ((b'A' ≤ c) × (c ≤ b'F')))

abbrev pub IsSha : Bytes → Type 0
IsSha s = ((length s ≡ 40) ⊎ (length s ≡ 64)) × All IsHexDigit s

all_hex-All : (s : Bytes) → all_hex s ≡ true → All IsHexDigit s
unfolding all_hex is_hex
all_hex-All [] h = tt
all_hex-All (c ∷ s) h = (ground arith, all_hex-All s (ground arith))

All-all_hex : (s : Bytes) → All IsHexDigit s → all_hex s ≡ true
unfolding all_hex is_hex
All-all_hex [] h = refl
All-all_hex (c ∷ s) h = let first = h.0 in ground (arith, All-all_hex s h.1)

is_commit_sha-IsSha : (s : Bytes) → is_commit_sha s ≡ true → IsSha s
unfolding is_commit_sha
is_commit_sha-IsSha s h = (ground arith, all_hex-All s (ground arith))

other-ne-IsSha : (s : Bytes) → is_commit_sha s ≡ false → ¬ IsSha s
unfolding is_commit_sha
other-ne-IsSha s h (size, hex) = ground (arith, All-all_hex s hex)

module _ (w : Work) where
  -- Every part of the work went well, for the commit that was cloned.
  pub record IsWhole (r : Remote) (id : Bytes) : Type 0 where
    pub commit : Bytes
    pub was_cloned : w.cloned r.url ≡ ok commit
    pub own_id : id ≡ w.repo_id r.key commit
    pub was_walked : w.walked ≡ ok tt
    pub was_indexed : w.indexed id ≡ ok tt
    pub was_put : w.put ≡ ok tt
    pub has_spans : w.put_spans ≡ ok tt
    pub has_graph : w.graphed ≡ ok tt

  -- The commit of the ref is indexed already.
  pub record IsKnown (r : Remote) (id : Bytes) : Type 0 where
    pub sha : Bytes
    pub may_skip : w.skip_clone ≡ true
    pub was_resolved : w.resolved r.url ≡ ok sha
    pub own_id : id ≡ w.repo_id r.key sha
    pub is_fast : w.fast id ≡ true

  -- Why the work for an admitted remote ends as it does.
  abbrev pub WorkEnds : Remote → Ending → Type 0
  WorkEnds r (end_done id) = IsKnown r id ⊎ IsWhole r id
  WorkEnds r (end_retry e) =
      (w.cleared ≡ err e)
      ⊎ ((w.cloned r.url ≡ err (clone_error e))
          ⊎ ((w.walked ≡ err e) ⊎ (((id : Bytes) × (w.indexed id ≡ err e)) ⊎ (w.put ≡ err e))))
  WorkEnds r (end_failed e) = w.cloned r.url ≡ err (too_large e)
  WorkEnds r (end_indexed id e) = (w.put ≡ ok tt) × ((w.put_spans ≡ err e) ⊎ (w.graphed ≡ err e))

  -- Why a job ends as it does. A host off the list is left to another worker.
  abbrev pub EndsBy : ℤ → Job → Ending → Type 0
  EndsBy tries job (end_done id) =
      (pos job.attempts ≤ℤ tries)
      × (¬ IsSha job.ref)
      × (r : Remote) × (check w.net w.hosts job.remote ≡ ok r)
      × WorkEnds r (end_done id)
  EndsBy tries job (end_retry e) =
      ((x : Error) × (check w.net w.hosts job.remote ≡ err x) × (x.0 ≡ rule_host))
      ⊎ ((r : Remote) × (check w.net w.hosts job.remote ≡ ok r) × WorkEnds r (end_retry e))
  EndsBy tries job (end_failed e) =
      (¬ (pos job.attempts ≤ℤ tries))
      ⊎ (IsSha job.ref
          ⊎ (((x : Error) × (check w.net w.hosts job.remote ≡ err x) × (x.0 ≢ rule_host))
              ⊎ ((r : Remote) × (check w.net w.hosts job.remote ≡ ok r)
                  × WorkEnds r (end_failed e))))
  EndsBy tries job (end_indexed id e) =
      (r : Remote) × (check w.net w.hosts job.remote ≡ ok r) × WorkEnds r (end_indexed id e)

  module _ (r : Remote) where
    after_walk-WorkEnds :
        (commit : Bytes)
        → w.cloned r.url ≡ ok commit
        → WorkEnds r (after_walk w (w.repo_id r.key commit) w.walked)
    after_walk-WorkEnds commit c = by_walk w.walked refl
      where
        id : Bytes
        id = w.repo_id r.key commit

        by_graph :
            (g : Result Bytes Unit)
            → w.graphed ≡ g
            → w.walked ≡ ok tt
            → w.indexed id ≡ ok tt
            → w.put ≡ ok tt
            → w.put_spans ≡ ok tt
            → WorkEnds r (after_graph id g)
        by_graph (err e) q a b p s = (p, inr q)
        by_graph (ok u) q a b p s = inr (record {
          commit = commit;
          was_cloned = c;
          own_id = refl;
          was_walked = a;
          was_indexed = b;
          was_put = p;
          has_spans = s;
          has_graph = q;
        })

        by_spans :
            (s : Result Bytes Unit)
            → w.put_spans ≡ s
            → w.walked ≡ ok tt
            → w.indexed id ≡ ok tt
            → w.put ≡ ok tt
            → WorkEnds r (after_spans w id s)
        by_spans (err e) q a b p = (p, inl q)
        by_spans (ok u) q a b p = by_graph w.graphed refl a b p q

        by_put :
            (p : Result Bytes Unit)
            → w.put ≡ p
            → w.walked ≡ ok tt
            → w.indexed id ≡ ok tt
            → WorkEnds r (after_put w id p)
        by_put (err e) q a b = inr (inr (inr (inr q)))
        by_put (ok u) q a b = by_spans w.put_spans refl a b q

        by_index :
            (b : Result Bytes Unit)
            → w.indexed id ≡ b
            → w.walked ≡ ok tt
            → WorkEnds r (after_index w id b)
        by_index (err e) q a = inr (inr (inr (inl (id, q))))
        by_index (ok u) q a = by_put w.put refl a q

        by_walk : (a : Result Bytes Unit) → w.walked ≡ a → WorkEnds r (after_walk w id a)
        by_walk (err e) q = inr (inr (inl q))
        by_walk (ok u) q = by_index (w.indexed id) refl q

    after_clone-WorkEnds : WorkEnds r (after_clone w r (w.cloned r.url))
    after_clone-WorkEnds = by_clone (w.cloned r.url) refl
      where
        by_clone :
            (x : Result CloneError Bytes) → w.cloned r.url ≡ x → WorkEnds r (after_clone w r x)
        by_clone (err (too_large e)) q = q
        by_clone (err (clone_error e)) q = inr (inl q)
        by_clone (ok commit) q = after_walk-WorkEnds commit q

    after_resolve-WorkEnds :
        (x : Result Bytes Bytes)
        → w.resolved r.url ≡ x
        → w.skip_clone ≡ true
        → WorkEnds r (after_resolve w r x)
    after_resolve-WorkEnds (err e) q skip = after_clone-WorkEnds
    after_resolve-WorkEnds (ok sha) q skip = by_fast (w.fast (w.repo_id r.key sha)) refl
      where
        by_fast :
            (b : Bool)
            → w.fast (w.repo_id r.key sha) ≡ b
            → WorkEnds r
                (if b then end_done (w.repo_id r.key sha) else after_clone w r (w.cloned r.url))
        by_fast true known = inl (record {
          sha = sha;
          may_skip = skip;
          was_resolved = q;
          own_id = refl;
          is_fast = known;
        })
        by_fast false new = after_clone-WorkEnds

    after_clear-WorkEnds : (x : Result Bytes Unit) → w.cleared ≡ x → WorkEnds r (after_clear w r x)
    after_clear-WorkEnds (err e) q = inl q
    after_clear-WorkEnds (ok u) q = by_skip w.skip_clone refl
      where
        by_skip :
            (b : Bool)
            → w.skip_clone ≡ b
            → WorkEnds r (
                if b
                then after_resolve w r (w.resolved r.url)
                else after_clone w r (w.cloned r.url))
        by_skip true skip = after_resolve-WorkEnds (w.resolved r.url) refl skip
        by_skip false whole = after_clone-WorkEnds

  admitted-EndsBy :
      (tries : ℤ) (job : Job) (r : Remote) (e : Ending)
      → pos job.attempts ≤ℤ tries
      → (¬ IsSha job.ref)
      → check w.net w.hosts job.remote ≡ ok r
      → WorkEnds r e
      → EndsBy tries job e
  admitted-EndsBy tries job r (end_done id) a n c h = (a, n, r, c, h)
  admitted-EndsBy tries job r (end_retry x) a n c h = inr (r, c, h)
  admitted-EndsBy tries job r (end_failed x) a n c h = inr (inr (inr (r, c, h)))
  admitted-EndsBy tries job r (end_indexed id x) a n c h = (r, c, h)

  after_check-EndsBy :
      (tries : ℤ) (job : Job) (x : Result Error Remote)
      → check w.net w.hosts job.remote ≡ x
      → pos job.attempts ≤ℤ tries
      → (¬ IsSha job.ref)
      → EndsBy tries job (after_check w x)
  after_check-EndsBy tries job (ok r) q a n =
      admitted-EndsBy tries job r (after_clear w r w.cleared) a n q
        (after_clear-WorkEnds r w.cleared refl)
  after_check-EndsBy tries job (err (rule_host, d)) q a n = inl ((rule_host, d), q, refl)
  after_check-EndsBy tries job (err (rule_form, d)) q a n =
      inr (inr (inl ((rule_form, d), q, λ e. cc)))
  after_check-EndsBy tries job (err (rule_scheme, d)) q a n =
      inr (inr (inl ((rule_scheme, d), q, λ e. cc)))

  pub ending-EndsBy : (tries : ℤ) (job : Job) → EndsBy tries job (ending tries w job)
  unfolding ending
  ending-EndsBy tries job = elim (Bool-cases (ltb_ℤ tries (pos job.attempts))) [
    | inl over ↦ rw over (inl (λ h. ground arith))
    | inr room ↦ elim (Bool-cases (is_commit_sha job.ref)) [
      | inl sha ↦ rw (room, sha) (inr (inl (is_commit_sha-IsSha job.ref sha)))
      | inr named ↦
          rw (room, named)
            (after_check-EndsBy tries job (check w.net w.hosts job.remote) refl (ground arith)
              (other-ne-IsSha job.ref named))
    ]
  ]
