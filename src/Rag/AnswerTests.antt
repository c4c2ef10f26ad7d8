-- ===== src/Rag/AnswerTests.antt =====
-- An answer of one span and its link.
use codetrail.Prelude.{
  ℕ, ◌+◌, ◌*◌, ◌/◌, ◌≡◌, refl, false, some, List, [], ◌∷◌, Bytes, codes, eqb, arith, length, take,
}
use codetrail.Prelude.Int.{ℤ, pos, pos_part}
use codetrail.Prelude.Strings.{decimal, trim, has_suffix}
use codetrail.Models.{Repo, Span, kind_func}
use codetrail.Admit.{Net, check, allows, owner_name, check_name, strip_git}
use codetrail.Agent.Cite.{match_at, atoi}
use codetrail.Rag.Fuse.{Fused}
use codetrail.Rag.Retrieve.{span_at}
use codetrail.Rag.Cite.{Outside, Newer, forge_policy, permalink_of}
use codetrail.Rag.Permalink.{LinkOutcome, permalink_of-LinkOutcome}
use codetrail.Rag.Answer.{render, assemble, default_budget}
use codetrail.Rag.Assembly.{ShowsMost, Shows, WithinBudget, present, assemble-Shows}
use codetrail.Rag.Marker.{render-marker}

abbrev same : Bytes → Bytes
same s = s

abbrev net : Net
net = record {
  parse = λ s. some record {
    scheme = codes "https";
    has_user = false;
    port = [];
    hostname = codes "github.com";
    path = codes "/o/n";
  };
  trim_space = same;
  to_lower = same;
  equal_fold = eqb;
}

abbrev outside : Outside
outside = record {
  whole_hours = λ d. pos_part d / (3600 * 1000000000);
  whole_days = λ d. pos_part d / (24 * (3600 * 1000000000));
  path_escape = same;
  net = net;
}

abbrev repo : Repo
repo = record {
  id = codes "r";
  remote = codes "https://github.com/o/n";
  ref = codes "main";
  commit = codes "0123456789";
  size_bytes = 10;
  indexed_at = 0;
}

abbrev one_span : Bytes → Span
one_span id = record {
  id = id;
  repo_id = codes "r";
  file_id = codes "f";
  path = codes "p/q.go";
  kind = kind_func;
  symbol = codes "f";
  start_line = 3;
  end_line = 12;
  text = codes "func f";
  digest = codes "d";
}

abbrev hit : Bytes → Fused ℤ
hit id = record {
  span_id = id;
  path = codes "p/q.go";
  start_line = 3;
  score = pos 1;
  vector_score = pos 1;
  vector_rank = 1;
  lexical_rank = 0;
}

abbrev newer : Newer
newer = record { commit = []; indexed_at = 0 }

abbrev three_hits : List (Fused ℤ)
three_hits = hit (codes "a") ∷ hit (codes "b") ∷ hit (codes "c") ∷ []

abbrev held : List (Bytes × Span)
held = (codes "a", one_span (codes "a")) ∷ (codes "c", one_span (codes "c")) ∷ []

link :
    permalink_of outside (codes "https://github.com/o/n") (codes "0123") (codes "p/q.go") 3 12
    ≡ some (codes "https://github.com/o/n/blob/0123/p/q.go#L3-L12")
unfolding permalink_of allows owner_name trim check_name strip_git has_suffix
link = refl

permalink_of-LinkOutcome_example :
    LinkOutcome outside
      (codes "0123")
      (codes "p/q.go")
      3
      12
      (check net (forge_policy outside) (codes "https://github.com/o/n"))
      (permalink_of outside (codes "https://github.com/o/n") (codes "0123") (codes "p/q.go") 3 12)
permalink_of-LinkOutcome_example =
    permalink_of-LinkOutcome outside refl refl (codes "https://github.com/o/n") (codes "0123")
      (codes "p/q.go") 3 12

assemble_one :
    (assemble outside repo held newer three_hits 5
      (record { max_spans = pos 1; max_chars = pos 100 })).text
    ≡ codes "[1] p/q.go:3-12 (f)\nfunc f"
unfolding assemble span_at
assemble_one = refl

assemble-Shows_example :
    ((k : ℕ) × Shows outside repo newer 5
        (take k (present held three_hits))
        (assemble outside repo held newer three_hits 5 default_budget)
      × ShowsMost default_budget [] (present held three_hits) k)
    × (length (assemble outside repo held newer three_hits 5 default_budget).citations
          + (assemble outside repo held newer three_hits 5 default_budget).dropped
        ≡ 3)
    × WithinBudget default_budget (assemble outside repo held newer three_hits 5 default_budget)
assemble-Shows_example = assemble-Shows outside repo held newer 5 default_budget three_hits

render-marker_example :
    (match_at (render 12 (one_span (codes "a"))) ≡ some (decimal 12))
    × (atoi (decimal 12) ≡ some 12)
render-marker_example = render-marker 12 (one_span (codes "a")) (omega arith)
