-- ===== src/Graph/Tests.antt =====
-- A file with two functions, one of which calls the other.
use codetrail.Prelude.{
  ℕ, ◌≡◌, refl, inl, inr, true, Option, none, some, List, [], ◌∷◌, ◌++◌, map, Bytes, codes, Any,
  ◌==◌, if◌then◌else◌,
}
use codetrail.Models.{kind_func, Edge, resolved, syntactic}
use codetrail.Indexer.Vectors.{EmbeddedSpan}
use codetrail.Graph.Containers.{Container, most_specific, span_for}
use codetrail.Graph.Order.{SameMembers, span_for_same}
use codetrail.Graph.Build.{
  Def, Call, Target, GraphJob, from_at, file_at, defs_at, spans_at, build_graph,
}
use codetrail.Graph.Rows.{IsGraph, build_graph-IsGraph}

abbrev first : Container
first = record { id = codes "w1"; start = 1; end = 4 }

abbrev second : Container
second = record { id = codes "w2"; start = 3; end = 6 }

abbrev ranges : List Container
ranges = first ∷ second ∷ []

abbrev swapped : List Container
swapped = second ∷ first ∷ []

abbrev text_of_parts : List Bytes → Bytes
text_of_parts [] = []
text_of_parts (p ∷ ps) = p ++ text_of_parts ps

abbrev def_at : Bytes → ℕ → ℕ → Def
def_at name start end = record {
  kind = kind_func;
  name = name;
  pkg = codes "p";
  path = codes "p.go";
  start_line = start;
  end_line = end;
}

abbrev call_at : Bytes → ℕ → Call
call_at name offset = record {
  path = codes "p.go";
  name = name;
  offset = offset;
  line = 2;
  from_start = 1;
}

abbrev span_at : Bytes → ℕ → ℕ → EmbeddedSpan ℕ
span_at id start end = record {
  span = record {
    id = id;
    repo_id = codes "r";
    file_id = codes "f";
    path = codes "p.go";
    kind = kind_func;
    symbol = id;
    start_line = start;
    end_line = end;
    text = [];
    digest = [];
  };
  embedding = [];
}

-- The call at offset 20 is resolved to line 5, and that at 30 is not.
abbrev resolve_at : Bytes → ℕ → Option Target
resolve_at p n = if n == 20 then some (record { path = codes "p.go"; line = 5 }) else none

abbrev job : GraphJob ℕ
job = record {
  hash = text_of_parts;
  repo_id = codes "r";
  parsed =
      record {
        defs = def_at (codes "f") 1 3 ∷ def_at (codes "g") 4 6 ∷ [];
        calls = call_at (codes "g") 20 ∷ call_at (codes "h") 30 ∷ [];
        unnameable = 0;
      }
      ∷ [];
  files =
      record {
        id = codes "f";
        repo_id = codes "r";
        path = codes "p.go";
        lang = codes "go";
        lines = 6;
        blob = [];
      }
      ∷ [];
  spans = span_at (codes "s1") 1 3 ∷ span_at (codes "s2") 5 6 ∷ [];
  typecheck = true;
  check = resolve_at;
}

provenances : map (λ (e : Edge). e.provenance) (build_graph job).1.edges ≡ resolved ∷ syntactic ∷ []
unfolding build_graph from_at file_at most_specific defs_at
provenances = refl

-- The second function is cited by the span that it overlaps.
cited : map (λ s. s.span_id) (build_graph job).0.symbols ≡ codes "s1" ∷ codes "s2" ∷ []
unfolding build_graph file_at span_for spans_at
cited = refl

build_graph-IsGraph_example : IsGraph ℕ job (build_graph job)
build_graph-IsGraph_example = build_graph-IsGraph ℕ job

both_ways : SameMembers ranges swapped
both_ways = (swap first second, swap second first)
  where
    swap : (a b c : Container) → Any (λ x. x ≡ c) (a ∷ b ∷ []) → Any (λ x. x ≡ c) (b ∷ a ∷ [])
    swap a b c (inl e) = inr (inl e)
    swap a b c (inr (inl e)) = inl e
    swap a b c (inr (inr e)) = absurd e

span_for_same_example :
    (span_for ranges 3 4 ≡ span_for swapped 3 4)
    × (most_specific ranges 3 ≡ most_specific swapped 3)
span_for_same_example = span_for_same ranges swapped 3 4 both_ways
