-- ===== src/Admit/Sound.antt =====
-- About Check: what an admitted remote is, and that its URL is admitted as itself.
use codetrail.Prelude.{
  ◌⊎◌, Bool, ◌||◌, if◌then◌else◌, ℕ, zero, suc, ◌≤◌, true, false, ◌≡◌, ◌≢◌, refl, inl, inr, arith,
  Option, none, some, [], ◌∷◌, ◌++◌, length, Bytes, codes, eqb, eqb_iff, ok, Bool-cases, All,
}
use codetrail.Prelude.Strings.{
  split, trim, has_suffix, length-trim_suffix, IsNot, trim_path, split-append, split_one,
}
use codetrail.Admit.Defs.{
  Url, Net, Remote, Policy, allows, is_plain, all_plain, valid_segment, strip_git, owner_name,
  url_of, check_name, check_parts, check_url, check,
}

strip_git-ends :
    (f : ℕ) (name : Bytes) → length name ≤ f → has_suffix (strip_git f name) (codes ".git") ≡ false
unfolding strip_git
strip_git-ends zero [] h = unfold has_suffix in refl
strip_git-ends zero (c ∷ s) h = absurd (omega arith)
strip_git-ends (suc f) name h = elim (Bool-cases (has_suffix name (codes ".git"))) [
  | inl e ↦ rw e (strip_git-ends f _ (omega (arith, length-trim_suffix name (codes ".git") e)))
  | inr e ↦ rw e e
]

-- A remote that Check accepts, by its tests.
pub record IsChecked (net : Net) (p : Policy) (r : Remote) : Type 0 where
  pub allowed : allows p r.host ≡ true
  pub owner_plain : valid_segment r.owner ≡ true
  pub name_plain : valid_segment r.name ≡ true
  pub name_bare : has_suffix r.name (codes ".git") ≡ false
  pub url_shape : r.url ≡ url_of r.host r.owner r.name
  pub key_shape :
      r.key ≡ r.host ++ (codes "/" ++ (net.to_lower r.owner ++ (codes "/" ++ net.to_lower r.name)))

module _ (net : Net) (p : Policy) where
  check_name-IsChecked :
      (host owner name : Bytes) {r : Remote}
      → allows p host ≡ true
      → has_suffix name (codes ".git") ≡ false
      → check_name net host owner name ≡ ok r
      → IsChecked net p r
  unfolding check_name
  check_name-IsChecked host owner name a b h = ground arith

  check_parts-IsChecked :
      (host : Bytes) (o : Option (Bytes × Bytes)) {r : Remote}
      → allows p host ≡ true
      → check_parts net host o ≡ ok r
      → IsChecked net p r
  check_parts-IsChecked host none a h = cc
  check_parts-IsChecked host (some (owner, name)) a h =
      check_name-IsChecked host owner _ a (strip_git-ends (length name) name (omega arith)) h

  check_url-IsChecked : (o : Option Url) {r : Remote} → check_url net p o ≡ ok r → IsChecked net p r
  check_url-IsChecked none h = cc
  check_url-IsChecked (some u) {r} h = ground (
    arith,
    check_parts-IsChecked (net.to_lower u.hostname) (owner_name (split b'/' (trim b'/' u.path)))
        {r = r},
  )

  pub check-IsChecked : (raw : Bytes) (r : Remote) → check net p raw ≡ ok r → IsChecked net p r
  unfolding check
  check-IsChecked raw r h =
      ground (arith, check_url-IsChecked (net.parse (net.trim_space raw)) {r = r})

abbrev pub IsNameByte : ℕ → Type 0
IsNameByte c =
    ((b'a' ≤ c) × (c ≤ b'z'))
    ⊎ (((b'A' ≤ c) × (c ≤ b'Z'))
        ⊎ (((b'0' ≤ c) × (c ≤ b'9')) ⊎ ((c ≡ b'.') ⊎ ((c ≡ b'_') ⊎ (c ≡ b'-')))))

-- A name of one segment of a path: letters, digits, `.`, `_` and `-`, and no way up or here.
pub record IsPlainName (s : Bytes) : Type 0 where
  pub filled : s ≢ []
  pub not_here : s ≢ codes "."
  pub not_up : s ≢ codes ".."
  pub plain : All IsNameByte s

all_plain-All : (s : Bytes) → all_plain s ≡ true → All IsNameByte s
unfolding all_plain is_plain
all_plain-All [] h = tt
all_plain-All (c ∷ s) h = (ground arith, all_plain-All s (ground arith))

segment_parts :
    (a b c d : Bool)
    → (if a || (b || c) then false else d) ≡ true
    → (a ≡ false) × (b ≡ false) × (c ≡ false) × (d ≡ true)
segment_parts a b c d h = ground arith

valid_segment-IsPlainName : (s : Bytes) → valid_segment s ≡ true → IsPlainName s
unfolding valid_segment
valid_segment-IsPlainName s h =
    let (empty, here, up, all) =
      segment_parts (eqb s []) (eqb s (codes ".")) (eqb s (codes "..")) (all_plain s) h in
    record {
      filled = λ e. ground (arith, eqb_iff s []);
      not_here = λ e. ground (arith, eqb_iff s (codes "."));
      not_up = λ e. ground (arith, eqb_iff s (codes ".."));
      plain = all_plain-All s all;
    }

pub record IsRemote (net : Net) (p : Policy) (r : Remote) : Type 0 where
  pub allowed : allows p r.host ≡ true
  pub owner_plain : IsPlainName r.owner
  pub name_plain : IsPlainName r.name
  pub name_bare : has_suffix r.name (codes ".git") ≡ false
  pub url_shape :
      r.url ≡ codes "https://" ++ (r.host ++ (codes "/" ++ (r.owner ++ (codes "/" ++ r.name))))
  pub key_shape :
      r.key ≡ r.host ++ (codes "/" ++ (net.to_lower r.owner ++ (codes "/" ++ net.to_lower r.name)))

-- A remote that Check admits has an allowed host, and its owner and its name are names of letters,
-- digits, `.`, `_` and `-` which are not empty and neither `.` nor `..`, the name with no `.git` at its
-- end; its URL is these three after `https://`, and its key is the host with the owner and the name in
-- lower case.
pub check-IsRemote :
    (net : Net) (p : Policy) (raw : Bytes) (r : Remote) → check net p raw ≡ ok r → IsRemote net p r
check-IsRemote net p raw r h =
    let v = check-IsChecked net p raw r h in
    record {
      allowed = v.allowed;
      owner_plain = valid_segment-IsPlainName r.owner v.owner_plain;
      name_plain = valid_segment-IsPlainName r.name v.name_plain;
      name_bare = v.name_bare;
      url_shape = v.url_shape;
      key_shape = v.key_shape;
    }

all_plain-IsNot : (s : Bytes) → all_plain s ≡ true → All (IsNot b'/') s
unfolding all_plain
all_plain-IsNot [] h = tt
all_plain-IsNot (c ∷ s) h = (ground arith, all_plain-IsNot s (ground arith))

valid_segment-ne : (s : Bytes) → valid_segment s ≡ true → s ≢ []
unfolding valid_segment
valid_segment-ne [] h e = cc
valid_segment-ne (c ∷ s) h e = cc

valid_segment-IsNot : (s : Bytes) → valid_segment s ≡ true → All (IsNot b'/') s
unfolding valid_segment
valid_segment-IsNot s h = all_plain-IsNot s (ground arith)

strip_git_bare :
    (f : ℕ) (name : Bytes) → has_suffix name (codes ".git") ≡ false → strip_git f name ≡ name
unfolding strip_git
strip_git_bare zero name h = refl
strip_git_bare (suc f) name h = rw h

owner_name_pair : (o n : Bytes) → o ≢ [] → n ≢ [] → owner_name (o ∷ n ∷ []) ≡ some (o, n)
unfolding owner_name
owner_name_pair o n ho hn = ground (arith, eqb_iff o [], eqb_iff n [])

-- The path `/owner/name` of two plain names gives them back.
owner_name_path :
    (o n : Bytes)
    → valid_segment o ≡ true
    → valid_segment n ≡ true
    → owner_name (split b'/' (trim b'/' (b'/' ∷ o ++ b'/' ∷ n))) ≡ some (o, n)
owner_name_path o n ho hn =
    let so = valid_segment-IsNot o ho in
    let sn = valid_segment-IsNot n hn in
    let eo = valid_segment-ne o ho in
    let en = valid_segment-ne n hn in
    rw (trim_path b'/' o n eo en so sn, split-append b'/' o n so, split_one b'/' n sn)
      (owner_name_pair o n eo en)

-- What url.Parse makes of the URL of a remote.
abbrev pub plain_url : Remote → Url
plain_url r = record {
  scheme = codes "https";
  has_user = false;
  port = [];
  hostname = r.host;
  path = codes "/" ++ (r.owner ++ (codes "/" ++ r.name));
}

check_name_again :
    (net : Net) (p : Policy) (r : Remote)
    → IsChecked net p r
    → check_name net r.host r.owner r.name ≡ ok r
unfolding check_name
check_name_again net p r v =
    let filled = valid_segment-ne r.name v.name_plain in
    ground (arith, eqb_iff r.name [], v.owner_plain, v.name_plain, v.url_shape, v.key_shape, filled)

module _ (net : Net) (p : Policy) (raw : Bytes) (r : Remote) where
  -- The URL of a remote that Check admitted is admitted again, as the same remote, where it has no
  -- space at its ends, url.Parse reads it as https with that host and path, and the host and the
  -- scheme are in lower case.
  pub check_again :
      check net p raw ≡ ok r
      → net.trim_space r.url ≡ r.url
      → net.parse r.url ≡ some (plain_url r)
      → net.equal_fold (codes "https") (codes "https") ≡ true
      → net.to_lower r.host ≡ r.host
      → check net p r.url ≡ ok r
  unfolding check eqb check_name
  check_again h spaces parsed folds lower =
      let v = check-IsChecked net p raw r h in
      let filled : eqb r.url [] ≡ false = rw v.url_shape (unfold eqb in refl) in
      rw
        (
          spaces,
          filled,
          parsed,
          folds,
          lower,
          v.allowed,
          owner_name_path r.owner r.name v.owner_plain v.name_plain,
          strip_git_bare (length r.name) r.name v.name_bare,
        )
        (check_name_again net p r v)
