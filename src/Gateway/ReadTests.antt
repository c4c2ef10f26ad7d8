-- ===== src/Gateway/ReadTests.antt =====
-- A question that the model answers, and a submission.
use codetrail.Prelude.{
  ◌*◌, ◌/◌, ◌≡◌, refl, length, true, false, none, some, List, [], ◌∷◌, Bytes, codes, eqb, leb, ◌&&◌,
  ◌||◌, ◌==◌, All, ok,
}
use codetrail.Prelude.Int.{ℤ, pos, ltb_ℤ, leb_ℤ, ◌+ℤ◌, pos_part}
use codetrail.Prelude.Floats.{Floats}
use codetrail.Prelude.Utf8.{Unicode, runes}
use codetrail.Prelude.Strings.{split, trim, has_suffix}
use codetrail.Models.{Repo, Span, kind_func}
use codetrail.Admit.{Net, allows, owner_name, check_name, strip_git, check}
use codetrail.Jobs.Queue.{Row, enqueue}
use codetrail.Agent.Trace.{final, new_trace}
use codetrail.Agent.State
use codetrail.Rag.Decide.{mode_hybrid}
use codetrail.Rag.Cite.{Outside}
use codetrail.Rag.Answer.{default_budget}
use codetrail.Gateway.Read.{SearchRequest, Handler, Model, llm}
use codetrail.Gateway.Answering.{
  ask, asked_model, count_stop, observe, count_answered, count_by, touched,
}
use codetrail.Gateway.Served.{Served}
use codetrail.Gateway.Submit.{RepoRequest, post_repo, valid_ref, has_dots, all_ref}
use codetrail.Gateway.Submitted.{IsSubmitted, posted, here, next, ServiceReach-IsSubmitted}

abbrev pub letters : Unicode
letters = record {
  is_letter = λ r. (leb b'a' r && leb r b'z') || (leb b'A' r && leb r b'Z');
  is_digit = λ r. leb b'0' r && leb r b'9';
  is_upper = λ r. leb b'A' r && leb r b'Z';
  is_lower = λ r. leb b'a' r && leb r b'z';
  is_space = λ r. r == 32;
  to_lower = λ r. r;
}

abbrev pub whole : Floats ℤ
whole = record {
  of_int = λ n. n;
  add = λ a b. a +ℤ b;
  mul = λ a b. a;
  quot = λ a b. b;
  lt = ltb_ℤ;
  feq = λ a b. leb_ℤ a b && leb_ℤ b a;
  is_nan = λ a. false;
  nan = pos 0;
}

abbrev pub same : Bytes → Bytes
same s = s

abbrev pub net : Net
net = record {
  parse = λ s. some record {
    scheme = codes "https";
    has_user = false;
    port = [];
    hostname = codes "github.com";
    path = codes "/o/n";
  };
  trim_space = same;
  to_lower = same;
  equal_fold = eqb;
}

abbrev pub outside : Outside
outside = record {
  whole_hours = λ d. pos_part d / (3600 * 1000000000);
  whole_days = λ d. pos_part d / (24 * (3600 * 1000000000));
  path_escape = same;
  net = net;
}

abbrev pub repo : Repo
repo = record {
  id = codes "r";
  remote = codes "https://github.com/o/n";
  ref = codes "main";
  commit = codes "0123456789";
  size_bytes = 10;
  indexed_at = 0;
}

abbrev pub one_span : Span
one_span = record {
  id = codes "s";
  repo_id = codes "r";
  file_id = codes "f";
  path = codes "q.go";
  kind = kind_func;
  symbol = codes "f";
  start_line = 3;
  end_line = 4;
  text = codes "func f";
  digest = codes "d";
}

abbrev pub reply_of : State.Answer
reply_of = record {
  text = codes "see [1]";
  read = one_span ∷ [];
  cited = 0 ∷ [];
  trace = record (new_trace (codes "m")) { stop = some final; steps = 1 };
}

abbrev pub model : Model
model = record { ask = λ id q. reply_of; below_floor_ok = false }

abbrev pub handler : Handler ℤ Unit
handler = record {
  get_repo = λ id. ok repo;
  repo_gone = λ id. ok false;
  newer_commit = λ id. ok record { commit = []; indexed_at = 0 };
  search = λ id q n. (
    record {
      hits =
          record {
            span_id = codes "s";
            path = codes "q.go";
            start_line = 3;
            score = pos 1;
            vector_score = pos 1;
            vector_rank = 1;
            lexical_rank = 0;
          }
          ∷ [];
      spans = (codes "s", one_span) ∷ [];
      top_score = pos 1;
      vector_ran = true;
      mode = mode_hybrid;
    },
    none,
  );
  is_not_found = λ e. false;
  model = some model;
  answer_default = codes "extractive";
  floor = record { value = pos 0; calibrated = false };
  budget = default_budget;
  now = 5;
}

abbrev question : SearchRequest ℤ
question = record {
  q = codes "where is f";
  limit = none;
  mode = none;
  k = none;
  w_vector = none;
  w_lexical = none;
  answerer = some (codes "llm");
}

abbrev body : RepoRequest
body = record { remote = codes "https://github.com/o/n"; ref = codes "v1.2" }

abbrev rows : List Row
rows =
    (post_repo
      record {
        net = net;
        policy = codes "github.com" ∷ [];
        lower = same;
        now = 7;
        new_id = codes "j";
        answers = true;
      }
      (some body) []).0

ServiceReach-IsSubmitted_example : All (IsSubmitted net (codes "github.com" ∷ [])) rows
ServiceReach-IsSubmitted_example =
    ServiceReach-IsSubmitted net (codes "github.com" ∷ []) same
      (next here (posted 7 (codes "j") true (some body)))

one_job : length rows ≡ 1
unfolding post_repo check eqb allows owner_name split trim check_name strip_git has_suffix valid_ref
    has_dots all_ref enqueue
one_job = refl

asked_once :
    (ask whole letters same same outside handler (codes "r") (some question)).1
    ≡ asked_model
      ∷ count_stop (some final)
      ∷ observe 1
      ∷ count_answered
      ∷ count_by llm
      ∷ touched (codes "r")
      ∷ []
unfolding ask runes
asked_once = refl
