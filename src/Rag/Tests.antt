-- ===== src/Rag/Tests.antt =====
-- Terms of a query, and a search in a store with one span.
use codetrail.Prelude.{
  ℕ, ◌≡◌, refl, true, false, List, [], ◌∷◌, Bytes, codes, eqb, ok, leb, ◌&&◌, ◌||◌, ◌==◌,
}
use codetrail.Prelude.Int.{ℤ, pos, ltb_ℤ, leb_ℤ, ◌+ℤ◌}
use codetrail.Prelude.Floats.{Floats}
use codetrail.Prelude.Utf8.{Unicode, runes}
use codetrail.Models.{Span, kind_func}
use codetrail.Rag.Decide.{mode_hybrid}
use codetrail.Rag.Fuse.{Fused}
use codetrail.Rag.Terms.{terms}
use codetrail.Rag.Retrieve.{
  validate_search, vector_arm, lexical_arm, Cite, Retriever, Searcher, Embedder, search,
}
use codetrail.Rag.Spans.{VisitsOnly}
use codetrail.Rag.Outcome.{SearchOutcome, search-SearchOutcome}

abbrev letters : Unicode
letters = record {
  is_letter = λ r. (leb b'a' r && leb r b'z') || (leb b'A' r && leb r b'Z');
  is_digit = λ r. leb b'0' r && leb r b'9';
  is_upper = λ r. leb b'A' r && leb r b'Z';
  is_lower = λ r. leb b'a' r && leb r b'z';
  is_space = λ r. r == 32;
  to_lower = λ r. r;
}

abbrev whole : Floats ℤ
whole = record {
  of_int = λ n. n;
  add = λ a b. a +ℤ b;
  mul = λ a b. a;
  quot = λ a b. b;
  lt = ltb_ℤ;
  feq = λ a b. leb_ℤ a b && leb_ℤ b a;
  is_nan = λ a. false;
  nan = pos 0;
}

abbrev same_case : Bytes → Bytes
same_case s = s

-- A run of capitals ends before the capital of the next word.
terms_camel :
    terms letters same_case (codes "HTTPServer? v2") true
    ≡ codes "HTTPServer" ∷ codes "HTTP" ∷ codes "Server" ∷ codes "v2" ∷ []
unfolding terms runes eqb
terms_camel = refl

abbrev stored : Span
stored = record {
  id = codes "s1";
  repo_id = codes "r";
  file_id = codes "f";
  path = codes "p.go";
  kind = kind_func;
  symbol = codes "f";
  start_line = 3;
  end_line = 5;
  text = codes "func f";
  digest = codes "d";
}

abbrev one_cite : List (Cite ℤ)
one_cite = record { span = stored; score = pos 1 } ∷ []

abbrev store : Searcher ℤ ℕ Unit
store = record {
  span_embedder = λ r. ok (codes "m", pos 3);
  vector_search = λ r v n. ok one_cite;
  lexical_search = λ r ts n. ok one_cite;
}

abbrev embedder : Embedder ℕ Unit
embedder = record { model = codes "m"; dim = pos 3; embed = λ qs. ok (7 ∷ []) }

abbrev retriever : Retriever ℤ ℕ Unit
retriever = record {
  store = store;
  emb = embedder;
  mode = mode_hybrid;
  fusion = record { k = pos 60; w_vector = pos 1; w_lexical = pos 1 };
  candidates = pos 50;
  split = true;
  floor = record { value = pos 0; calibrated = false };
}

abbrev in_order : List (Fused ℤ) → List (Fused ℤ)
in_order fs = fs

in_order-VisitsOnly : VisitsOnly in_order
in_order-VisitsOnly P xs h = h

search-SearchOutcome_example :
    SearchOutcome
      (pos 5)
      (validate_search whole retriever (pos 5))
      (vector_arm retriever (codes "r") (codes "f"))
      (lexical_arm letters same_case retriever (codes "r") (codes "f"))
      (search whole in_order letters same_case retriever (codes "r") (codes "f") (pos 5))
search-SearchOutcome_example =
    search-SearchOutcome whole in_order in_order-VisitsOnly retriever (pos 5) letters same_case
      (codes "r") (codes "f")
