-- ===== src/Rag/Bounds.antt =====
-- What bounds a query's terms, and what `Search` returns with its hits.
use codetrail.Prelude.{
  ◌≤◌, ◌≡◌, ◌≢◌, inl, inr, Bool, false, ◌||◌, List, [], ◌∷◌, ◌++◌, length, length-append, Bytes,
  eqb, eqb_iff, arith, All, All-append, Bool-cases, leb,
}
use codetrail.Prelude.Utf8.{Unicode}
use codetrail.Rag.Terms.{max_terms, has_term, add_term, add_all, terms, terms_of, word_runs}

abbrev pub NoRepeats : List Bytes → Type 0
NoRepeats [] = Unit
NoRepeats (t ∷ ts) = All (λ s. t ≢ s) ts × NoRepeats ts

-- The list that `Terms` builds, at any time.
pub record IsTerms (ts : List Bytes) : Type 0 where
  pub short : length ts ≤ max_terms
  pub filled : All (λ t. t ≢ []) ts
  pub distinct : NoRepeats ts

NoRepeats-snoc :
    (ts : List Bytes) (s : Bytes) → has_term s ts ≡ false → NoRepeats ts → NoRepeats (ts ++ s ∷ [])
unfolding has_term
NoRepeats-snoc [] s h d = (tt, tt)
NoRepeats-snoc (t ∷ ts) s h d =
    let other : t ≢ s = ground (arith, eqb_iff t s) in
    let rest : has_term s ts ≡ false = ground arith in
    (All-append (λ x. t ≢ x) ts (s ∷ []) d.0 (other, tt), NoRepeats-snoc ts s rest d.1)

add_term-IsTerms : (ts : List Bytes) (s : Bytes) → IsTerms ts → IsTerms (add_term ts s)
unfolding add_term
add_term-IsTerms ts s h =
    elim (Bool-cases (eqb s [] || (has_term s ts || leb max_terms (length ts)))) [
      | inl skip ↦ rw skip h
      | inr new ↦
          let room : leb max_terms (length ts) ≡ false = ground arith in
          let fresh : has_term s ts ≡ false = ground arith in
          let full : s ≢ [] = ground (arith, eqb_iff s []) in
          rw new (record {
            short = ground (arith, length-append ts (s ∷ []));
            filled = All-append (λ t. t ≢ []) ts (s ∷ []) h.filled (full, tt);
            distinct = NoRepeats-snoc ts s fresh h.distinct;
          })
    ]

add_all-IsTerms : (ts ss : List Bytes) → IsTerms ts → IsTerms (add_all ts ss)
unfolding add_all
add_all-IsTerms ts [] h = h
add_all-IsTerms ts (s ∷ ss) h = add_all-IsTerms (add_term ts s) ss (add_term-IsTerms ts s h)

-- A query has at most 32 terms, none of them empty and no two of them equal, whatever the tables of
-- Unicode say of its runes and however a run is put in lower case.
pub terms-IsTerms :
    (u : Unicode) (to_lower : Bytes → Bytes) (q : Bytes) (split : Bool)
    → IsTerms (terms u to_lower q split)
unfolding terms
terms-IsTerms u to_lower q split =
    add_all-IsTerms [] (terms_of u to_lower split (word_runs u q))
      (record { short = omega arith; filled = tt; distinct = tt })
