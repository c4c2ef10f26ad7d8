-- ===== src/Gateway/Submitted.antt =====
-- About the jobs of the queue: every one is for a repository that admission let in.
use codetrail.Prelude.{
  ◌⊎◌, Result-cases, ℕ, ◌≤◌, Bool, true, false, not, ◌&&◌, ◌||◌, ◌≡◌, ◌≢◌, refl, sym, ap, ◌∙◌,
  subst, inl, inr, arith, Option, none, some, List, [], ◌∷◌, ◌++◌, length, Bytes, codes, eqb,
  eqb_iff, has_prefix, Result, ok, err, All, Bool-cases, Option-cases, if◌then◌else◌, ltb,
}
use codetrail.Prelude.Int.{ℤ}
use codetrail.Admit.{is_plain, Net, Policy, Remote, check}
use codetrail.Jobs.Queue.{
  Row, Job, QueueError, find_row, conflicts, new_row, enqueue, oldest, claimable, update_where,
  lease_row, lease, holds, affected, complete_row, complete, fail_row, fail, delete_where, is_stale,
  sweep,
}
use codetrail.Gateway.Submit.{
  RepoRequest, has_dots, all_ref, valid_ref, queued, ref_or_head, post_ref, post_repo,
}

-- A letter or a digit, or one of the four signs of a ref.
abbrev pub IsRefByte : ℕ → Type 0
IsRefByte c =
    ((b'a' ≤ c) × (c ≤ b'z'))
    ⊎ (((b'A' ≤ c) × (c ≤ b'Z'))
        ⊎ (((b'0' ≤ c) × (c ≤ b'9')) ⊎ ((c ≡ b'.') ⊎ ((c ≡ b'_') ⊎ ((c ≡ b'-') ⊎ (c ≡ b'/'))))))

-- Text that is no option of a command line: of such bytes, with no `-` at its front and no `..` in it.
pub record IsSafeRef (s : Bytes) : Type 0 where
  pub filled : s ≢ []
  pub bounded : length s ≤ 255
  pub no_option : has_prefix s (codes "-") ≡ false
  pub no_dots : (a b : Bytes) → s ≢ a ++ (codes ".." ++ b)
  pub plain : All IsRefByte s

has_dots_complete : (a b : Bytes) → has_dots (a ++ (codes ".." ++ b)) ≡ true
unfolding has_dots
has_dots_complete [] b = refl
has_dots_complete (c ∷ a) b = ground (arith, has_dots_complete a b)

all_ref-All : (s : Bytes) → all_ref s ≡ true → All IsRefByte s
unfolding all_ref is_plain
all_ref-All [] h = tt
all_ref-All (c ∷ s) h = (ground arith, all_ref-All s (ground arith))

-- The tests of a text that passes.
passed :
    (a b c d e f : Bool)
    → (if a || (b || (c || (d || e))) then false else f) ≡ true
    → (a ≡ false) × (c ≡ false) × (d ≡ false) × (e ≡ false) × (f ≡ true)
passed a b c d e f h = ground arith

valid_ref-IsSafeRef : (s : Bytes) → valid_ref s ≡ true → IsSafeRef s
unfolding valid_ref
valid_ref-IsSafeRef s h =
    let (empty, long, dash, dots, all) =
      passed (eqb s []) (eqb s (codes ".")) (ltb 255 (length s)) (has_prefix s (codes "-"))
        (has_dots s) (all_ref s) h in
    record {
      filled = λ e. ground (arith, eqb_iff s []);
      bounded = ground arith;
      no_option = dash;
      no_dots = λ a b e. cc (ap has_dots e, has_dots_complete a b);
      plain = all_ref-All s all;
    }

-- An update or a deletion brings no row of its own.
module _ (P : Row → Type 0) (p : Row → Bool) where
  All-update_where :
      (f : Row → Row) (rows : List Row)
      → ((r : Row) → P r → P (f r))
      → All P rows
      → All P (update_where p f rows)
  unfolding update_where
  All-update_where f [] k h = tt
  All-update_where f (r ∷ rows) k h = elim (Bool-cases (p r)) [
    | inl e ↦ rw e (k r h.0, All-update_where f rows k h.1)
    | inr e ↦ rw e (h.0, All-update_where f rows k h.1)
  ]

  All-delete_where : (rows : List Row) → All P rows → All P (delete_where p rows)
  unfolding delete_where
  All-delete_where [] h = tt
  All-delete_where (r ∷ rows) h = elim (Bool-cases (p r)) [
    | inl e ↦ rw e (All-delete_where rows h.1)
    | inr e ↦ rw e (h.0, All-delete_where rows h.1)
  ]

  All-affected :
      (f : Row → Row) (rows : List Row) (found : Option Row)
      → ((r : Row) → P r → P (f r))
      → All P rows
      → All P (affected f p rows found).0
  All-affected f rows none k h = h
  All-affected f rows (some r) k h = All-update_where f rows k h

-- What Check admitted, under the ref of a submission.
pub record IsSubmitted (net : Net) (policy : Policy) (row : Row) : Type 0 where
  pub raw : Bytes
  pub admitted : Remote
  pub passes : check net policy raw ≡ ok admitted
  pub same_url : row.remote ≡ admitted.url
  pub safe : IsSafeRef row.ref

module _ (net : Net) (policy : Policy) (lower : Bytes → Bytes) where
  -- A submission, or a statement of an indexer, at any time.
  pub data ServiceStep (rows : List Row) : List Row → Type 0 where
    posted :
        (now : ℕ) (new_id : Bytes) (answers : Bool) (body : Option RepoRequest)
        → ServiceStep rows
            (post_repo
              record {
                net = net;
                policy = policy;
                lower = lower;
                now = now;
                new_id = new_id;
                answers = answers;
              }
              body
              rows).0
    claimed :
        (locked : Row → Bool) (now : ℕ) (worker : Bytes) (d : ℕ)
        → ServiceStep rows (lease locked now worker d rows).0
    completed :
        (now : ℕ) (id worker repo_id : Bytes)
        → ServiceStep rows (complete now id worker repo_id rows).0
    failed_by :
        (rb rm now : ℕ) (id worker reason : Bytes) (m : ℤ)
        → ServiceStep rows (fail rb rm now id worker reason m rows).0
    swept : (now keep_for : ℕ) → ServiceStep rows (sweep now keep_for rows).0

  pub data ServiceReach (rows : List Row) : List Row → Type 0 where
    here : ServiceReach rows rows
    next :
        {mid last : List Row}
        → ServiceReach rows mid
        → ServiceStep mid last
        → ServiceReach rows last

  same_identity :
      (r s : Row)
      → s.remote ≡ r.remote
      → s.ref ≡ r.ref
      → IsSubmitted net policy r
      → IsSubmitted net policy s
  same_identity r s e e' h = record {
    raw = h.raw;
    admitted = h.admitted;
    passes = h.passes;
    same_url = e ∙ h.same_url;
    safe = subst IsSafeRef (sym e') h.safe;
  }

  abbrev IsClean : List Row → Type 0
  IsClean rows = All (IsSubmitted net policy) rows

  enqueue-IsClean :
      (now : ℕ) (id remote ref : Bytes) (rows : List Row)
      → IsSubmitted net policy (new_row now id remote ref)
      → IsClean rows
      → IsClean (enqueue lower now id remote ref rows).0
  unfolding enqueue
  enqueue-IsClean now id remote ref rows new h =
      elim (Option-cases (find_row (conflicts lower remote ref) rows)) [
        | inr (old, e) ↦ rw e h
        | inl e ↦
            elim (Option-cases (find_row (λ s. eqb s.id (new_row now id remote ref).id) rows)) [
              | inr (clash, e') ↦ rw (e, e') h
              | inl e' ↦ rw (e, e') (new, h)
            ]
      ]

  lease-IsClean :
      (locked : Row → Bool) (now : ℕ) (worker : Bytes) (d : ℕ) (rows : List Row)
      → IsClean rows
      → IsClean (lease locked now worker d rows).0
  unfolding lease lease_row
  lease-IsClean locked now worker d rows h =
      elim (Option-cases (oldest (λ r. claimable now r && not (locked r)) rows)) [
        | inl e ↦ rw e h
        | inr (r, e) ↦ rw e (
            All-update_where (IsSubmitted net policy) (λ s. eqb s.id r.id) (lease_row now worker d)
              rows (λ s k. same_identity s (lease_row now worker d s) refl refl k) h)
      ]

  fail_row-same :
      (rb rm now : ℕ) (m : ℤ) (reason : Bytes) (r : Row)
      → IsSubmitted net policy r
      → IsSubmitted net policy (fail_row rb rm now m reason r)
  unfolding fail_row
  fail_row-same rb rm now m reason r k =
      same_identity r (fail_row rb rm now m reason r) (ground arith) (ground arith) k

  queued_rows : (x : List Row × Result QueueError Job) → (queued x).0 ≡ x.0
  queued_rows (rows, ok j) = refl
  queued_rows (rows, err e) = refl

  post_ref-IsClean :
      (now : ℕ) (new_id : Bytes) (answers : Bool) (rows : List Row) (raw : Bytes) (r : Remote)
      (ref : Bytes)
      → check net policy raw ≡ ok r
      → IsClean rows
      → IsClean
          (post_ref
            record {
              net = net;
              policy = policy;
              lower = lower;
              now = now;
              new_id = new_id;
              answers = answers;
            }
            rows
            r
            ref).0
  post_ref-IsClean now new_id answers rows raw r ref c h = elim (Bool-cases (valid_ref ref)) [
    | inr bad ↦ rw bad h
    | inl good ↦ elim (Bool-cases answers) [
      | inr down ↦ rw (good, down) h
      | inl up ↦
          let new : IsSubmitted net policy (new_row now new_id r.url ref) =
            unfold new_row in
            (record {
              raw = raw;
              admitted = r;
              passes = c;
              same_url = refl;
              safe = valid_ref-IsSafeRef ref good;
            }) in
          rw (good, up, queued_rows (enqueue lower now new_id r.url ref rows))
            (enqueue-IsClean now new_id r.url ref rows new h)
    ]
  ]

  post_repo-IsClean :
      (now : ℕ) (new_id : Bytes) (answers : Bool) (body : Option RepoRequest) (rows : List Row)
      → IsClean rows
      → IsClean
          (post_repo
            record {
              net = net;
              policy = policy;
              lower = lower;
              now = now;
              new_id = new_id;
              answers = answers;
            }
            body
            rows).0
  unfolding post_repo
  post_repo-IsClean now new_id answers none rows h = h
  post_repo-IsClean now new_id answers (some req) rows h =
      elim (Result-cases (check net policy req.remote)) [
        | inl (e, refused) ↦ rw refused h
        | inr (r, c) ↦ rw c (
            post_ref-IsClean now new_id answers rows req.remote r
              (ref_or_head (net.trim_space req.ref)) c h)
      ]

  ServiceStep-IsClean : {rows last : List Row} → ServiceStep rows last → IsClean rows → IsClean last
  ServiceStep-IsClean {rows} (posted now new_id answers body) h =
      post_repo-IsClean now new_id answers body rows h
  ServiceStep-IsClean {rows} (claimed locked now worker d) h =
      lease-IsClean locked now worker d rows h
  ServiceStep-IsClean {rows} (completed now id worker repo_id) h =
      unfold complete complete_row in
      (All-affected (IsSubmitted net policy) (holds id worker) (complete_row now repo_id) rows _
        (λ r k. same_identity r (complete_row now repo_id r) refl refl k) h)
  ServiceStep-IsClean {rows} (failed_by rb rm now id worker reason m) h =
      unfold fail in
      (All-affected (IsSubmitted net policy) (holds id worker) (fail_row rb rm now m reason) rows _
        (λ r k. fail_row-same rb rm now m reason r k) h)
  ServiceStep-IsClean {rows} (swept now keep_for) h =
      unfold sweep in (All-delete_where (IsSubmitted net policy) (is_stale now keep_for) rows h)

  -- Whatever is submitted to the gateway and whatever the indexers do to the queue, every job that a
  -- queue holds which was empty at first is for a URL that admission gave, at a ref of one to
  -- 255 bytes, each a letter, a digit or one of `.`, `_`, `-` and `/`, with no `-` at its front and no
  -- `..` in it.
  pub ServiceReach-IsSubmitted :
      {rows : List Row} → ServiceReach [] rows → All (IsSubmitted net policy) rows
  ServiceReach-IsSubmitted here = tt
  ServiceReach-IsSubmitted (next r s) = ServiceStep-IsClean s (ServiceReach-IsSubmitted r)
