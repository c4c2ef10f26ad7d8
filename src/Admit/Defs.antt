-- ===== src/Admit/Defs.antt =====
-- packages/shared/admit/admit.go: Policy, NewPolicy, Check and validSegment.
use codetrail.Prelude.{
  ℕ, zero, suc, Bool, true, false, not, ◌&&◌, ◌||◌, Option, none, some, List, [], ◌∷◌, ◌++◌, length,
  leb, ◌==◌, if◌then◌else◌, Bytes, codes, eqb, Result, ok, err, ◌>>◌, refuse_if,
}
use codetrail.Prelude.Strings.{split, trim, has_suffix, trim_suffix}

-- What Check reads of a *url.URL: the scheme, `User != nil`, Port(), Hostname() and Path.
pub record Url : Type 0 where
  pub scheme : Bytes
  pub has_user : Bool
  pub port : Bytes
  pub hostname : Bytes
  pub path : Bytes

-- url.Parse, and the functions of package strings that go by the tables of Unicode: TrimSpace,
-- ToLower and EqualFold.
pub record Net : Type 0 where
  pub parse : Bytes → Option Url
  pub trim_space : Bytes → Bytes
  pub to_lower : Bytes → Bytes
  pub equal_fold : Bytes → Bytes → Bool

pub data Rule : Type 0 where
  rule_form rule_scheme rule_host : Rule

-- An *Error: the rule, and which of its texts the detail is.
pub data Detail : Type 0 where
  empty_url no_url bad_scheme credentials has_port bad_host bad_path bad_owner bad_name : Detail

abbrev pub Error : Type 0
Error = Rule × Detail

pub record Remote : Type 0 where
  pub url : Bytes
  pub key : Bytes
  pub host : Bytes
  pub owner : Bytes
  pub name : Bytes

abbrev pub default_hosts : List Bytes
default_hosts = codes "github.com" ∷ codes "codeberg.org" ∷ []

-- A Policy: the keys of its map.
abbrev pub Policy : Type 0
Policy = List Bytes

unfoldable pub new_policy : Net → List Bytes → Policy
unfolding eqb
new_policy net [] = []
new_policy net (h ∷ hosts) =
    let k = net.to_lower (net.trim_space h) in
    let rest = new_policy net hosts in if eqb k [] then rest else k ∷ rest

unfoldable pub allows : Policy → Bytes → Bool
unfolding eqb
allows [] host = false
allows (h ∷ p) host = eqb h host || allows p host

unfoldable pub is_plain : ℕ → Bool
is_plain c =
    (leb b'a' c && leb c b'z')
    || ((leb b'A' c && leb c b'Z') || (leb b'0' c && leb c b'9'))
    || (c == b'.' || (c == b'_' || c == b'-'))

-- Every byte of a rune past ASCII, and of text that is no UTF-8, is 128 or more, so that the loop
-- over runes is one over bytes.
unfoldable pub all_plain : Bytes → Bool
unfolding is_plain
all_plain [] = true
all_plain (c ∷ s) = is_plain c && all_plain s

unfoldable pub valid_segment : Bytes → Bool
unfolding all_plain eqb
valid_segment s =
    if eqb s [] || (eqb s (codes ".") || eqb s (codes "..")) then false else all_plain s

-- `for strings.HasSuffix(name, ".git")`: the first argument is fuel, at most one round for a byte.
unfoldable pub strip_git : ℕ → Bytes → Bytes
strip_git zero name = name
strip_git (suc f) name =
    let rest = strip_git f (trim_suffix name (codes ".git")) in
    if has_suffix name (codes ".git") then rest else name

-- len(parts) != 2 || parts[0] == "" || parts[1] == ""
unfoldable pub owner_name : List Bytes → Option (Bytes × Bytes)
unfolding eqb
owner_name (a ∷ b ∷ []) = if eqb a [] || eqb b [] then none else some (a, b)
owner_name _ = none

abbrev pub url_of : Bytes → Bytes → Bytes → Bytes
url_of host owner name = codes "https://" ++ (host ++ (codes "/" ++ (owner ++ (codes "/" ++ name))))

-- The end of Check, on the trimmed name.
unfoldable pub check_name : Net → Bytes → Bytes → Bytes → Result Error Remote
unfolding valid_segment eqb
check_name net host owner name = do
  refuse_if (eqb name []) (rule_form, bad_path)
  refuse_if (not (valid_segment owner)) (rule_form, bad_owner)
  refuse_if (not (valid_segment name)) (rule_form, bad_name)
  ok record {
    url = url_of host owner name;
    key = host ++ (codes "/" ++ (net.to_lower owner ++ (codes "/" ++ net.to_lower name)));
    host = host;
    owner = owner;
    name = name;
  }

abbrev pub check_parts : Net → Bytes → Option (Bytes × Bytes) → Result Error Remote
check_parts net host none = err (rule_form, bad_path)
check_parts net host (some (owner, name)) = check_name net host owner (strip_git (length name) name)

abbrev pub check_url : Net → Policy → Option Url → Result Error Remote
check_url net p none = err (rule_form, no_url)
check_url net p (some u) = do
  refuse_if (not (net.equal_fold u.scheme (codes "https"))) (rule_scheme, bad_scheme)
  refuse_if u.has_user (rule_form, credentials)
  refuse_if (not (eqb u.port [])) (rule_form, has_port)
  let host = net.to_lower u.hostname
  refuse_if (not (allows p host)) (rule_host, bad_host)
  check_parts net host (owner_name (split b'/' (trim b'/' u.path)))

unfoldable pub check : Net → Policy → Bytes → Result Error Remote
check net p raw =
    let s = net.trim_space raw in
    if eqb s [] then err (rule_form, empty_url) else check_url net p (net.parse s)
