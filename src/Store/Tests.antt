-- ===== src/Store/Tests.antt =====
-- The callers of a function in a small table, one of them through a cycle.
use codetrail.Prelude.{
  ℕ, ◌+◌, ◌≡◌, refl, Option, none, some, List, [], ◌∷◌, map, Bytes, codes, ltb_bytes,
}
use codetrail.Prelude.Sort.{sort_by}
use codetrail.Models.{Symbol, Edge, kind_func, calls, resolved}
use codetrail.Store.Callers.{Caller, callers_of}
use codetrail.Store.Reached.{CallersOutcome, callers_of-CallersOutcome}

abbrev symbol : Bytes → ℕ → Symbol
symbol id line = record {
  id = id;
  repo_id = codes "r";
  file_id = codes "f";
  path = codes "p.go";
  name = id;
  pkg = codes "p";
  kind = kind_func;
  start_line = line;
  end_line = line + 1;
  span_id = [];
}

abbrev edge : Bytes → Bytes → ℕ → Edge
edge from to line = record {
  id = from;
  repo_id = codes "r";
  from_symbol_id = from;
  to_symbol_id = to;
  to_name = to;
  kind = calls;
  provenance = resolved;
  path = codes "p.go";
  line = line;
}

abbrev table : List Symbol
table =
    symbol (codes "a") 1 ∷ symbol (codes "b") 3 ∷ symbol (codes "c") 5 ∷ symbol (codes "d") 7 ∷ []

-- b calls a, c calls b, b calls c, and d calls c.
abbrev edges : List Edge
edges =
    edge (codes "b") (codes "a") 3
    ∷ edge (codes "c") (codes "b") 5
    ∷ edge (codes "b") (codes "c") 4
    ∷ edge (codes "d") (codes "c") 7
    ∷ []

abbrev ids_of : Option (List Caller) → List (Bytes × ℕ)
ids_of none = []
ids_of (some ks) = map (λ k. (k.symbol.id, k.depth)) ks

two_deep :
    ids_of (callers_of ltb_bytes table edges (codes "r") (codes "a") 2 10)
    ≡ (codes "b", 1) ∷ (codes "c", 2) ∷ []
unfolding callers_of sort_by
two_deep = refl

three_deep :
    ids_of (callers_of ltb_bytes table edges (codes "r") (codes "a") 3 10)
    ≡ (codes "b", 1) ∷ (codes "c", 2) ∷ (codes "d", 3) ∷ []
unfolding callers_of sort_by
three_deep = refl

callers_of-CallersOutcome_example :
    CallersOutcome ltb_bytes table edges
      (codes "r")
      (codes "a")
      2
      10
      (callers_of ltb_bytes table edges (codes "r") (codes "a") 2 10)
callers_of-CallersOutcome_example =
    callers_of-CallersOutcome ltb_bytes table edges (codes "r") (codes "a") 2 10
