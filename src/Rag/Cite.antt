-- ===== src/Rag/Cite.antt =====
-- packages/shared/rag/cite.go: the citation of a span, what is known of its staleness, and its link
-- on the forge.
use codetrail.Prelude.{
  ℕ, ◌*◌, ◌==◌, Bool, false, Option, none, some, List, [], ◌∷◌, ◌++◌, map, length, take, ltb,
  if◌then◌else◌, Bytes, codes, eqb, join, Result, ok, err,
}
use mathlib.Core.Option
use codetrail.Prelude.Int.{ℤ, pos, ltb_ℤ, sub_ℕ}
use codetrail.Prelude.Strings.{split, decimal}
use codetrail.Models.{Repo, Span}
use codetrail.Admit.{Net, Policy, Error, Remote, new_policy, check}

-- The zero value, with an empty commit, says that the corpus holds no later index of the ref.
pub record Newer : Type 0 where
  pub commit : Bytes
  pub indexed_at : ℕ

abbrev pub stale_unknown : Bytes
stale_unknown = codes "unknown"

abbrev pub stale_superseded : Bytes
stale_superseded = codes "superseded"

pub record Staleness : Type 0 where
  pub state : Bytes
  pub forge_checked : Bool
  pub indexed_at : ℕ
  pub newer_commit : Bytes
  pub newer_indexed_at : ℕ
  pub note : Bytes

-- A citation without its link is `none` where the format of the link has none; Permalink.antt shows
-- that this does not happen.
pub record Citation : Type 0 where
  pub repo_id : Bytes
  pub remote : Bytes
  pub commit : Bytes
  pub ref : Bytes
  pub path : Bytes
  pub start_line : ℕ
  pub end_line : ℕ
  pub digest : Bytes
  pub permalink : Option Bytes
  pub staleness : Staleness

-- What the code takes from elsewhere: `int(d.Hours())` and `int(d.Hours() / 24)`, which go by
-- float64, url.PathEscape, and what admission takes.
pub record Outside : Type 0 where
  pub whole_hours : ℤ → ℕ
  pub whole_days : ℤ → ℕ
  pub path_escape : Bytes → Bytes
  pub net : Net

unfoldable pub plural : ℕ → Bytes → Bytes
unfolding decimal
plural n unit =
    if n == 1
    then decimal n ++ (codes " " ++ unit)
    else decimal n ++ (codes " " ++ (unit ++ codes "s"))

-- An hour, in nanoseconds.
abbrev pub hour : ℕ
hour = 3600 * 1000000000

unfoldable pub ago : Outside → ℤ → Bytes
unfolding plural
ago o d =
    if ltb_ℤ d (pos hour)
    then codes "less than an hour"
    else if ltb_ℤ d (pos (24 * hour))
    then plural (o.whole_hours d) (codes "hour")
    else plural (o.whole_days d) (codes "day")

unfoldable pub short : Bytes → Bytes
short sha = if ltb 7 (length sha) then take 7 sha else sha

abbrev pub indexed_note : Outside → Repo → ℕ → Bytes
indexed_note o r now =
    codes "Correct at commit "
    ++ (short r.commit
        ++ (codes ", indexed " ++ (ago o (sub_ℕ now r.indexed_at) ++ codes " ago. ")))

unfoldable pub staleness_of : Outside → Repo → Newer → ℕ → Staleness
unfolding ago short eqb
staleness_of o r newer now =
    if eqb newer.commit []
    then record {
      state = stale_unknown;
      forge_checked = false;
      indexed_at = r.indexed_at;
      newer_commit = [];
      newer_indexed_at = 0;
      note =
          indexed_note o r now
          ++ (codes "codetrail has not checked whether " ++ (r.ref ++ codes " has moved since."));
    }
    else record {
      state = stale_superseded;
      forge_checked = false;
      indexed_at = r.indexed_at;
      newer_commit = newer.commit;
      newer_indexed_at = newer.indexed_at;
      note =
          indexed_note o r now
          ++ (r.ref
              ++ (codes " is also indexed here at the later commit "
                  ++ (short newer.commit
                      ++ (codes
                            ", so this citation is from an older commit. codetrail did not ask the forge, so "
                          ++ (r.ref ++ codes " may have moved again.")))));
    }

-- The part of a format before the commit. The other parts are the same for both forges.
abbrev pub forges : List (Bytes × Bytes)
forges = (codes "github.com", codes "/blob/") ∷ (codes "codeberg.org", codes "/src/commit/") ∷ []

unfoldable pub forge_format : List (Bytes × Bytes) → Bytes → Option Bytes
unfolding eqb
forge_format [] host = none
forge_format ((h, f) ∷ fs) host = if eqb h host then some f else forge_format fs host

unfoldable pub forge_hosts : List (Bytes × Bytes) → List Bytes
forge_hosts fs = map (λ f. f.0) fs

unfoldable pub forge_policy : Outside → Policy
unfolding new_policy forge_hosts
forge_policy o = new_policy o.net (forge_hosts forges)

unfoldable pub escape_path : Outside → Bytes → Bytes
unfolding split join
escape_path o p = join (map o.path_escape (split b'/' p)) (codes "/")

abbrev pub link : Outside → Remote → Bytes → Bytes → ℕ → ℕ → Bytes → Bytes
link o r commit path start end format =
    r.url
    ++ (format
        ++ (commit
            ++ (codes "/"
                ++ (escape_path o path
                    ++ (codes "#L" ++ (decimal start ++ (codes "-L" ++ decimal end)))))))

-- `none` where the table of forges has no format for an admitted host.
abbrev pub link_of : Outside → Bytes → Bytes → ℕ → ℕ → Result Error Remote → Option Bytes
link_of o commit path start end (err e) = some []
link_of o commit path start end (ok r) =
    Option.map (link o r commit path start end) (forge_format forges r.host)

unfoldable pub permalink_of : Outside → Bytes → Bytes → Bytes → ℕ → ℕ → Option Bytes
unfolding forge_policy escape_path forge_format decimal check
permalink_of o remote commit path start end =
    link_of o commit path start end (check o.net (forge_policy o) remote)

unfoldable pub new_citation : Outside → Repo → Span → Newer → ℕ → Citation
unfolding permalink_of staleness_of
new_citation o r s newer now = record {
  repo_id = r.id;
  remote = r.remote;
  commit = r.commit;
  ref = r.ref;
  path = s.path;
  start_line = s.start_line;
  end_line = s.end_line;
  digest = s.digest;
  permalink = permalink_of o r.remote r.commit s.path s.start_line s.end_line;
  staleness = staleness_of o r newer now;
}
