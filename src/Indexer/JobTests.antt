-- ===== src/Indexer/JobTests.antt =====
-- A leased job that is indexed, and one whose clone fails for good.
use codetrail.Prelude.{◌≡◌, refl, inl, true, false, none, some, [], ◌∷◌, Bytes, codes, eqb, ok, err}
use codetrail.Prelude.Int.{pos}
use codetrail.Prelude.Strings.{split, trim, has_suffix}
use codetrail.Admit.{Net, allows, owner_name, check_name, strip_git}
use codetrail.Jobs.Queue.{Row, Job, leased, holds}
use codetrail.Jobs.Table.{IsTable}
use codetrail.Indexer.Job.{Work, Worker, too_large, job_failed, ending, do_job, end_done}
use codetrail.Indexer.Ending.{JobOutcome, do_job-Reported}

abbrev same : Bytes → Bytes
same s = s

abbrev net : Net
net = record {
  parse = λ s. some record {
    scheme = codes "https";
    has_user = false;
    port = [];
    hostname = codes "github.com";
    path = codes "/o/n";
  };
  trim_space = same;
  to_lower = same;
  equal_fold = eqb;
}

abbrev work : Work
work = record {
  net = net;
  hosts = codes "github.com" ∷ [];
  reason_of = λ e. codes "refused";
  cleared = ok tt;
  skip_clone = true;
  resolved = λ url. err (codes "no such ref");
  repo_id = λ key commit. commit;
  fast = λ id. false;
  cloned = λ url. ok (codes "c0");
  walked = ok tt;
  indexed = λ id. ok tt;
  put = ok tt;
  put_spans = ok tt;
  graphed = ok tt;
}

abbrev worker : Worker
worker = record {
  tries = pos 3;
  retry_base = 30;
  retry_max = 600;
  now = 50;
  name = codes "w";
  lands = true;
}

abbrev running : Row
running = record {
  id = codes "a";
  remote = codes "https://github.com/o/n";
  ref = codes "main";
  status = leased;
  attempts = 1;
  leased_by = some (codes "w");
  leased_until = some 110;
  error = [];
  repo_id = none;
  created_at = 5;
  updated_at = 10;
}

abbrev job : Job
job = record {
  id = codes "a";
  remote = codes "https://github.com/o/n";
  ref = codes "main";
  status = leased;
  attempts = 1;
  error = [];
  repo_id = [];
}

one_job-IsTable : IsTable same (running ∷ [])
one_job-IsTable = record {
  valid = (record { held = λ e. (λ e. cc, λ e. cc); free = λ n. absurd (n refl) }, tt);
  apart = (tt, tt);
}

held : holds (codes "a") (codes "w") running ≡ true
unfolding holds eqb
held = refl

do_job-Reported_example :
    JobOutcome worker work job 90 (running ∷ []) running (do_job worker work job (running ∷ []))
do_job-Reported_example =
    do_job-Reported same worker work job 90 (running ∷ []) running one_job-IsTable (inl refl) held
      refl

ends_done : ending (pos 3) work job ≡ end_done (codes "c0")
unfolding ending eqb allows owner_name split trim check_name strip_git has_suffix
ends_done = refl

too_large_fails :
    (do_job worker
      (record work { cloned = λ url. err (too_large (codes "too large")) })
      job
      (running ∷ [])).1
    ≡ job_failed
unfolding do_job eqb allows owner_name split trim check_name strip_git has_suffix
too_large_fails = refl
