-- ===== src/Store/EvictTests.antt =====
-- Three repositories, two of which stay.
use codetrail.Prelude.{
  ℕ, ◌≡◌, refl, true, [], ◌∷◌, map, Bytes, codes, ltb_bytes, ltb_bytes_irrefl, ltb_bytes_trans,
  ltb_bytes_neg_trans, arith,
}
use codetrail.Prelude.Int.{pos}
use codetrail.Prelude.Sort.{IsOrdering, sort_by}
use codetrail.Store.Evict.{StoredRepo, Tables, evict}
use codetrail.Store.Evicted.{EvictOutcome, evict-EvictOutcome}

bytes_ordered : IsOrdering ltb_bytes
bytes_ordered = record {
  asym = λ a b h. ground (arith, ltb_bytes_irrefl a, ltb_bytes_trans a b a);
  trans = λ a b c h k. ltb_bytes_trans a b c h k;
  neg_trans = λ a b c h k. ltb_bytes_neg_trans a b c h k;
}

abbrev repo : Bytes → ℕ → StoredRepo
repo id at = record {
  id = id;
  remote = id;
  ref = id;
  commit = id;
  indexed_at = 0;
  last_queried_at = at;
}

abbrev tables : Tables
tables = record {
  repos = repo (codes "a") 3 ∷ repo (codes "b") 1 ∷ repo (codes "c") 2 ∷ [];
  tombs = [];
}

two_stay :
    map (λ (r : StoredRepo). r.id) (evict ltb_bytes true true 9 (pos 2) (pos 5) tables).0.repos
    ≡ codes "a" ∷ codes "c" ∷ []
unfolding evict sort_by
two_stay = refl

evict-EvictOutcome_example :
    EvictOutcome ltb_bytes bytes_ordered true true 9
      (pos 2)
      (pos 5)
      tables
      (evict ltb_bytes true true 9 (pos 2) (pos 5) tables)
evict-EvictOutcome_example =
    evict-EvictOutcome ltb_bytes bytes_ordered true true 9 (pos 2) (pos 5) tables
