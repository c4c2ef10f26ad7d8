-- ===== src/Indexer/Tests.antt =====
-- The vectors of three spans, one of them lent.
use codetrail.Prelude.{
  ℕ, ◌≡◌, refl, subst, inl, inr, arith, true, none, some, List, [], ◌∷◌, map, length, Bytes, codes,
  eqb, eqb_eq, ok, Bool-cases,
}
use codetrail.Models.{kind_func}
use codetrail.Indexer.Vectors.{EmbeddedSpan, Source, vector_at, fill, changed_files, reuse}
use codetrail.Indexer.Reuse.{IsPure, HonestLoan, FillOutcome, fill-FillOutcome}
use codetrail.Prelude.Int.{pos}

abbrev vector : Bytes → List ℕ
vector t = length t ∷ []

abbrev same : Bytes → Bytes
same t = t

abbrev lent_one : List (Bytes × List ℕ)
lent_one = (codes "ab", 2 ∷ []) ∷ []

abbrev source : Source ℕ Unit
source = record {
  model = codes "m";
  dim = 1;
  embed = λ ts. ok (map vector ts);
  embeddings = λ ds m d. ok lent_one;
  has_repo = λ id. true;
  count_spans = λ id. ok 2;
  span_embedder = λ id. ok (codes "m", 1);
  reuse_on = true;
  embed_batch = 2;
}

lent_one_honest : HonestLoan {E = Unit} vector same (ok lent_one)
unfolding vector_at
lent_one_honest t v h = elim (Bool-cases (eqb (codes "ab") t)) [
  | inl e ↦
      let found : some (2 ∷ []) ≡ some v = rw e at h in
      subst (λ (x : Bytes). v ≡ vector x) (eqb_eq (codes "ab") t e) (cc)
  | inr e ↦ let missed : none ≡ some v = rw e at h in cc
]

source_pure : IsPure vector same source
source_pure = record { embeds = λ ts. refl; lends = λ ds. lent_one_honest; batched = omega arith }

abbrev fresh : Bytes → EmbeddedSpan ℕ
fresh t = record {
  span = record {
    id = t;
    repo_id = codes "r";
    file_id = codes "f";
    path = codes "p.go";
    kind = kind_func;
    symbol = t;
    start_line = 1;
    end_line = 2;
    text = t;
    digest = t;
  };
  embedding = [];
}

abbrev three : List (EmbeddedSpan ℕ)
three = fresh (codes "a") ∷ fresh (codes "ab") ∷ fresh (codes "abc") ∷ []

one_lent : (reuse source three).1 ≡ 1
unfolding reuse eqb
one_lent = refl

one_changed :
    changed_files
      ((codes "a", codes "1") ∷ (codes "b", codes "2") ∷ [])
      ((codes "a", codes "1") ∷ [])
    ≡ pos 1
unfolding changed_files
one_changed = refl

fill-FillOutcome_example : FillOutcome vector same source source_pure three (fill source three)
fill-FillOutcome_example =
    fill-FillOutcome vector same source source_pure three
      ((refl, refl), ((refl, refl), ((refl, refl), tt)))
