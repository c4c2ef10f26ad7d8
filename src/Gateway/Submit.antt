-- ===== src/Gateway/Submit.antt =====
-- apps/gateway/internal/handler/handler.go: the submission of a repository, and what a caller sees of
-- its job. The queue is that of packages/shared/jobs.
use codetrail.Prelude.{
  ℕ, Bool, true, false, not, ◌&&◌, ◌||◌, Option, none, some, List, [], ◌∷◌, length, ltb, ◌==◌,
  if◌then◌else◌, Bytes, codes, eqb, has_prefix, Result, ok, err,
}
use codetrail.Admit.{Net, Policy, Error, Remote, is_plain, check}
use codetrail.Jobs.Queue.{Row, Status, Job, QueueError, not_found, enqueue, get}

pub record RepoRequest : Type 0 where
  pub remote : Bytes
  pub ref : Bytes

pub record JobView : Type 0 where
  pub id : Bytes
  pub remote : Bytes
  pub ref : Bytes
  pub status : Status
  pub repo_id : Bytes

unfoldable pub view : Job → JobView
view j = record {
  id = j.id;
  remote = j.remote;
  ref = j.ref;
  status = j.status;
  repo_id = j.repo_id;
}

abbrev pub max_ref_len : ℕ
max_ref_len = 255

-- strings.Contains(s, "..")
unfoldable pub has_dots : Bytes → Bool
unfolding has_prefix
has_dots [] = false
has_dots (c ∷ s) = has_prefix (c ∷ s) (codes "..") || has_dots s

-- As in admission, a byte of a rune past ASCII is none of these.
unfoldable pub all_ref : Bytes → Bool
unfolding is_plain
all_ref [] = true
all_ref (c ∷ s) = (is_plain c || c == b'/') && all_ref s

unfoldable pub valid_ref : Bytes → Bool
valid_ref s =
    if eqb s []
      || (eqb s (codes ".")
          || (ltb max_ref_len (length s) || (has_prefix s (codes "-") || has_dots s)))
    then false
    else all_ref s

pub data PostReply : Type 0 where
  malformed_body : PostReply
  not_admitted : Error → PostReply
  bad_ref : PostReply
  post_failed : PostReply
  accepted : JobView → PostReply

-- The environment of one request: the folding of text by Unicode and by Postgres, the time, the id
-- that a new job would get, and whether the database answers.
pub record Post : Type 0 where
  pub net : Net
  pub policy : Policy
  pub lower : Bytes → Bytes
  pub now : ℕ
  pub new_id : Bytes
  pub answers : Bool

abbrev pub queued : List Row × Result QueueError Job → List Row × PostReply
queued (rows, ok j) = (rows, accepted (view j))
queued (rows, err e) = (rows, post_failed)

abbrev pub ref_or_head : Bytes → Bytes
ref_or_head [] = codes "HEAD"
ref_or_head (c ∷ s) = c ∷ s

abbrev pub post_ref : Post → List Row → Remote → Bytes → List Row × PostReply
post_ref p rows r ref =
    if not (valid_ref ref)
    then (rows, bad_ref)
    else if p.answers
    then queued (enqueue p.lower p.now p.new_id r.url ref rows)
    else (rows, post_failed)

abbrev pub post_remote : Post → List Row → Bytes → Result Error Remote → List Row × PostReply
post_remote p rows ref (err e) = (rows, not_admitted e)
post_remote p rows ref (ok r) = post_ref p rows r (ref_or_head (p.net.trim_space ref))

-- The reply and the rows of the queue; a body that does not bind is `none`.
unfoldable pub post_repo : Post → Option RepoRequest → List Row → List Row × PostReply
post_repo p none rows = (rows, malformed_body)
post_repo p (some req) rows = post_remote p rows req.ref (check p.net p.policy req.remote)

pub data GetReply : Type 0 where
  no_such_job get_failed : GetReply
  found_job : JobView → GetReply

abbrev pub read_job : Result QueueError Job → GetReply
read_job (ok j) = found_job (view j)
read_job (err not_found) = no_such_job
read_job (err e) = get_failed

unfoldable pub get_job : Bool → Bytes → List Row → GetReply
unfolding view get
get_job answers id rows = if answers then read_job (get id rows) else get_failed
