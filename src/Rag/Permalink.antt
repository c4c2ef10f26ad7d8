-- ===== src/Rag/Permalink.antt =====
-- About Permalink: a link is pinned to the commit, in the shape of the forge that holds the code.
use codetrail.Prelude.{
  List, map, ◌++◌, join, ℕ, true, ◌≡◌, refl, sym, ◌⊎◌, inl, inr, arith, Option, some, [], ◌∷◌,
  Bytes, codes, eqb, eqb_eq, Result, ok, err, Bool-cases,
}
use codetrail.Admit.{Error, Remote, allows, check}
use codetrail.Admit.Sound.{check-IsRemote}
use codetrail.Prelude.Strings.{split, decimal, IsSplit, split-IsSplit}
use codetrail.Rag.Cite.{
  escape_path, Outside, forges, forge_format, forge_policy, link, link_of, permalink_of,
}

-- The host of a link's remote, and the part of its format before the commit.
abbrev pub OfForge : Bytes → Bytes → Type 0
OfForge host format =
    ((host ≡ codes "github.com") × (format ≡ codes "/blob/"))
    ⊎ ((host ≡ codes "codeberg.org") × (format ≡ codes "/src/commit/"))

-- A path with each of its segments escaped, and the slashes between them kept.
abbrev pub IsEscaped : Outside → Bytes → Bytes → Type 0
IsEscaped o path escaped =
    (segments : List Bytes) × IsSplit b'/' path segments
    × (escaped ≡ join (map o.path_escape segments) (codes "/"))

-- No link for a remote that is refused, and the link of an admitted one.
abbrev pub LinkOutcome :
    Outside → Bytes → Bytes → ℕ → ℕ → Result Error Remote → Option Bytes → Type 0
LinkOutcome o commit path start end (err e) l = l ≡ some []
LinkOutcome o commit path start end (ok r) l =
    (format : Bytes) × (escaped : Bytes) × OfForge r.host format
    × IsEscaped o path escaped
    × (l
        ≡ some (
            r.url
            ++ (format
                ++ (commit
                    ++ (codes "/"
                        ++ (escaped
                            ++ (codes "#L" ++ (decimal start ++ (codes "-L" ++ decimal end)))))))))

escape_path-IsEscaped : (o : Outside) (path : Bytes) → IsEscaped o path (escape_path o path)
unfolding escape_path
escape_path-IsEscaped o path = (split b'/' path, split-IsSplit b'/' path, refl)

-- That text is lower case and has no space at its ends.
abbrev pub IsTidy : Outside → Bytes → Type 0
IsTidy o h = o.net.to_lower (o.net.trim_space h) ≡ h

module _ (o : Outside) (github : IsTidy o (codes "github.com"))
    (codeberg : IsTidy o (codes "codeberg.org")) where
  forge_policy_hosts : forge_policy o ≡ codes "github.com" ∷ codes "codeberg.org" ∷ []
  unfolding forge_policy
  forge_policy_hosts = rw (github, codeberg)

  -- A host that the policy allows has a format.
  forge_format_allowed :
      (host : Bytes)
      → allows (forge_policy o) host ≡ true
      → (format : Bytes) × OfForge host format × (forge_format forges host ≡ some format)
  unfolding allows forge_format
  forge_format_allowed host h = elim (Bool-cases (eqb (codes "github.com") host)) [
    | inl e ↦ (codes "/blob/", inl (sym (eqb_eq _ _ e), refl), rw e)
    | inr e ↦
        let a : eqb (codes "codeberg.org") host ≡ true = ground (arith, forge_policy_hosts) in
        (codes "/src/commit/", inr (sym (eqb_eq _ _ a), refl), rw (e, a))
  ]

  link_of-LinkOutcome :
      (commit path : Bytes) (start end : ℕ) (a : Result Error Remote)
      → ((r : Remote) → a ≡ ok r → allows (forge_policy o) r.host ≡ true)
      → (l : Option Bytes) × (link_of o commit path start end a ≡ l)
        × LinkOutcome o commit path start end a l
  link_of-LinkOutcome commit path start end (err e) h = (some [], refl, refl)
  link_of-LinkOutcome commit path start end (ok r) h =
      let (format, forge, found) = forge_format_allowed r.host (h r refl) in
      (
        some (link o r commit path start end format),
        rw found,
        (format, escape_path o path, forge, escape_path-IsEscaped o path, refl),
      )

  -- A span has an empty link exactly where its repository's remote is refused; any other link is the
  -- remote's URL, what its own forge puts before a commit, which is never missing, the commit that was
  -- given, the path with each segment escaped and the slashes kept, and `#L` with the first line and
  -- `-L` with the last. The names of the two forges are unchanged by ToLower and TrimSpace.
  pub permalink_of-LinkOutcome :
      (remote commit path : Bytes) (start end : ℕ)
      → LinkOutcome o commit path start end
          (check o.net (forge_policy o) remote)
          (permalink_of o remote commit path start end)
  unfolding permalink_of
  permalink_of-LinkOutcome remote commit path start end =
      let (l, e, out) =
        link_of-LinkOutcome commit path start end (check o.net (forge_policy o) remote)
          (λ r a. (check-IsRemote o.net (forge_policy o) remote r a).allowed) in
      rw e out
