-- ===== src/Admit/Tests.antt =====
-- Runs of Check on concrete URLs.
use codetrail.Prelude.{
  false, ◌≡◌, refl, none, some, [], ◌∷◌, drop, Bytes, codes, eqb, has_prefix, ◌==◌, if◌then◌else◌,
  ok, err,
}
use codetrail.Prelude.Strings.{split, trim, has_suffix, trim_suffix}
use codetrail.Admit.Defs.{
  Net, Remote, rule_form, rule_host, bad_host, bad_name, default_hosts, allows, strip_git,
  owner_name, check_name, check,
}
use codetrail.Admit.Sound.{IsRemote, check-IsRemote, check_again}

abbrev before : Bytes → Bytes
before [] = []
before (c ∷ s) = if c == b'/' then [] else c ∷ before s

abbrev from : Bytes → Bytes
from [] = []
from (c ∷ s) = if c == b'/' then c ∷ s else from s

-- A parser of `https://host/path`, and text that is ASCII in lower case.
abbrev plain : Net
plain = record {
  parse = λ s.
      if has_prefix s (codes "https://")
      then some record {
        scheme = codes "https";
        has_user = false;
        port = [];
        hostname = before (drop 8 s);
        path = from (drop 8 s);
      }
      else none;
  trim_space = λ s. s;
  to_lower = λ s. s;
  equal_fold = eqb;
}

abbrev one_repo : Remote
one_repo = record {
  url = codes "https://github.com/o/n.go";
  key = codes "github.com/o/n.go";
  host = codes "github.com";
  owner = codes "o";
  name = codes "n.go";
}

admitted : check plain default_hosts (codes "https://github.com/o/n.go.git.git/") ≡ ok one_repo
unfolding check eqb has_prefix allows owner_name split trim check_name strip_git has_suffix
    trim_suffix
admitted = refl

refused_host :
    check plain default_hosts (codes "https://gitlab.com/o/n") ≡ err (rule_host, bad_host)
unfolding check eqb has_prefix allows
refused_host = refl

refused_name :
    check plain default_hosts (codes "https://github.com/o/a b") ≡ err (rule_form, bad_name)
unfolding check eqb has_prefix allows owner_name split trim check_name strip_git has_suffix
refused_name = refl

check-IsRemote_example : IsRemote plain default_hosts one_repo
check-IsRemote_example = check-IsRemote plain default_hosts _ one_repo admitted

check_again_example : check plain default_hosts one_repo.url ≡ ok one_repo
check_again_example =
    check_again plain default_hosts _ one_repo admitted refl (unfold has_prefix in refl)
      (unfold eqb in refl) refl
