-- ===== src/Gateway/SymbolTests.antt =====
-- The callers of a symbol, two of which are cited by one span.
use codetrail.Prelude.{◌≡◌, refl, true, some, [], ◌∷◌, Bytes, codes, ok, err}
use codetrail.Prelude.Int.{pos}
use codetrail.Models.{Symbol, kind_func}
use codetrail.Store.Callers.{Caller}
use codetrail.Gateway.Views.{SymbolStore, approx_name}
use codetrail.Gateway.ReadTests.{one_span}

abbrev symbol : Bytes → Symbol
symbol id = record {
  id = id;
  repo_id = codes "r";
  file_id = codes "f";
  path = codes "p.go";
  name = codes "T.f";
  pkg = codes "p";
  kind = kind_func;
  start_line = 1;
  end_line = 2;
  span_id = codes "s";
}

abbrev caller : Bytes → Caller
caller id = record { symbol = symbol id; depth = 1; call_path = codes "p.go"; call_line = 2 }

abbrev store : SymbolStore Unit
store = record {
  definitions = λ r name pkg suffix limit. ok [];
  symbol = λ r id. ok (symbol id);
  callers_of = λ r id depth limit. ok (caller (codes "a") ∷ caller (codes "b") ∷ []);
  approximate_callers_of = λ r name limit. err tt;
  get_span = λ r id. ok one_span;
  atoi = λ raw. some (pos 2);
  parse_bool = λ raw. some true;
  trim_space = λ s. s;
}

last_name : approx_name (codes "a.T.f") ≡ codes "f"
unfolding approx_name
last_name = refl
