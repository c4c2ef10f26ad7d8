-- ===== src/Rag/Fuse.antt =====
-- packages/shared/rag/fuse.go: two ranked arms become one ranking. The map of the code is a list in
-- the order of insertion; `range` over it visits it in any order, which is the argument `walk`.
use codetrail.Prelude.{
  ℕ, ◌+◌, Bool, not, ◌&&◌, ◌||◌, List, [], ◌∷◌, ltb, ◌==◌, if◌then◌else◌, Bytes, eqb, ltb_bytes,
  Result, ok, refuse_if, ◌>>◌,
}
use codetrail.Prelude.Int.{ℤ, pos, ◌+ℤ◌, ltb_ℤ}
use codetrail.Prelude.Sort.{sort_by}
use codetrail.Prelude.Floats.{Floats}

pub record Params (F : Type 0) : Type 0 where
  pub k : ℤ
  pub w_vector : F
  pub w_lexical : F

pub data ParamsError : Type 0 where
  bad_k bad_w_vector bad_w_lexical no_weight : ParamsError

pub record Hit (F : Type 0) : Type 0 where
  pub span_id : Bytes
  pub path : Bytes
  pub start_line : ℕ
  pub score : F

-- A rank of 0 says that the arm did not return the span.
pub record Fused (F : Type 0) : Type 0 where
  pub span_id : Bytes
  pub path : Bytes
  pub start_line : ℕ
  pub score : F
  pub vector_score : F
  pub vector_rank : ℕ
  pub lexical_rank : ℕ

module _ {F : Type 0} (fl : Floats F) where
  abbrev pub default_params : Params F
  default_params = record {
    k = pos 60;
    w_vector = fl.of_int (pos 1);
    w_lexical = fl.of_int (pos 1);
  }

  unfoldable pub validate_params : Params F → Result ParamsError Unit
  validate_params p = do
    refuse_if (ltb_ℤ p.k (pos 0)) bad_k
    refuse_if (fl.is_nan p.w_vector || fl.lt p.w_vector (fl.of_int (pos 0))) bad_w_vector
    refuse_if (fl.is_nan p.w_lexical || fl.lt p.w_lexical (fl.of_int (pos 0))) bad_w_lexical
    refuse_if (fl.feq p.w_vector (fl.of_int (pos 0)) && fl.feq p.w_lexical (fl.of_int (pos 0)))
        no_weight
    ok tt

  unfoldable pub rrf : ℤ → ℕ → F
  rrf k rank = fl.quot (fl.of_int (pos 1)) (fl.of_int (k +ℤ pos rank))

  abbrev pub new_entry : Hit F → Fused F
  new_entry h = record {
    span_id = h.span_id;
    path = h.path;
    start_line = h.start_line;
    score = fl.of_int (pos 0);
    vector_score = fl.of_int (pos 0);
    vector_rank = 0;
    lexical_rank = 0;
  }

  -- `entry`, and what is written through the pointer that it returns.
  unfoldable pub at_entry : (Fused F → Fused F) → Hit F → List (Fused F) → List (Fused F)
  at_entry f h [] = f (new_entry h) ∷ []
  at_entry f h (x ∷ xs) =
      let rest = at_entry f h xs in if eqb x.span_id h.span_id then f x ∷ xs else x ∷ rest

  abbrev pub add_vector : Params F → Hit F → ℕ → Fused F → Fused F
  add_vector p h rank f = record f {
    vector_rank = rank;
    vector_score = h.score;
    score = fl.add f.score (fl.mul p.w_vector (rrf p.k rank));
  }

  abbrev pub add_lexical : Params F → Hit F → ℕ → Fused F → Fused F
  add_lexical p h rank f = record f {
    lexical_rank = rank;
    score = fl.add f.score (fl.mul p.w_lexical (rrf p.k rank));
  }

  -- The loop over one arm, at the index `i`.
  unfoldable pub add_arm :
      (Hit F → ℕ → Fused F → Fused F) → ℕ → List (Hit F) → List (Fused F) → List (Fused F)
  unfolding at_entry
  add_arm add i [] acc = acc
  add_arm add i (h ∷ hs) acc = add_arm add (i + 1) hs (at_entry (add h (i + 1)) h acc)

  -- The comparison of `sortFused`.
  unfoldable pub fused_less : Fused F → Fused F → Bool
  fused_less a b =
      if not (fl.feq a.score b.score)
      then fl.lt b.score a.score
      else if not (eqb a.path b.path)
      then ltb_bytes a.path b.path
      else if not (a.start_line == b.start_line)
      then ltb a.start_line b.start_line
      else ltb_bytes a.span_id b.span_id

  -- The map once both arms are in.
  unfoldable pub accumulate : Params F → List (Hit F) → List (Hit F) → List (Fused F)
  unfolding add_arm rrf
  accumulate p vector lexical =
      add_arm (add_lexical p) 0 lexical (add_arm (add_vector p) 0 vector [])

  unfoldable pub fuse :
      (List (Fused F) → List (Fused F)) → Params F → List (Hit F) → List (Hit F) → List (Fused F)
  unfolding accumulate fused_less
  fuse walk p vector lexical = sort_by fused_less (walk (accumulate p vector lexical))
