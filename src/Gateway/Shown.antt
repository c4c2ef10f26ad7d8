-- ===== src/Gateway/Shown.antt =====
-- About the route that lists the callers of a symbol.
use codetrail.Prelude.{
  ℕ, zero, suc, ◌+◌, ◌≤◌, Bool, true, false, ◌||◌, ◌≡◌, refl, sym, ap, subst, ◌⊎◌, inl, inr, arith,
  Option, none, some, List, [], ◌∷◌, length, take, ltb, Bytes, eqb, Result, ok, err, ◌>>=◌, All,
  Bool-cases,
}
use codetrail.Prelude.Int.{ℤ, pos, negsuc, pos_part, ltb_ℤ}
use codetrail.Models.{Repo, Symbol}
use codetrail.Rag.Cite.{Outside, Newer}
use codetrail.Gateway.Read.{Handler}
use codetrail.Gateway.Symbols.{Seen, depth_of, limit_of, cite_rows, approximate_rows, approximate}
use codetrail.Gateway.Views.{
  Approximate, SymbolStore, Refusal, bad_limit, bad_depth, in_range, clip, approx_name,
  ApproximateCaller, ApproximateView, approximate_view, default_limit,
}
use codetrail.Gateway.Cited.{Unread, AreViews, IsTrue, RowsOutcome, cite_rows-RowsOutcome}

-- A number from 1 to `most`, of what a parameter is read as, or a refusal of what is no such number.
abbrev pub IsOutside : ℕ → Option ℤ → Type 0
IsOutside most none = Unit
IsOutside most (some z) = (ltb_ℤ z (pos 1) || ltb_ℤ (pos most) z) ≡ true

abbrev pub IsParam : ℕ → Refusal → Option ℤ → Result Refusal ℕ → Type 0
IsParam most e x (ok n) = (1 ≤ n) × (n ≤ most)
IsParam most e x (err f) = (f ≡ e) × IsOutside most x

in_range-IsParam :
    (most : ℕ) (e : Refusal) (x : Option ℤ) → IsParam most e x (in_range (pos most) e x)
in_range-IsParam most e none = (refl, tt)
in_range-IsParam most e (some z) = elim (Bool-cases (ltb_ℤ z (pos 1) || ltb_ℤ (pos most) z)) [
  | inl out ↦ rw out (refl, out)
  | inr within ↦ rw within (bounds z within)
]
  where
    bounds :
        (z : ℤ)
        → (ltb_ℤ z (pos 1) || ltb_ℤ (pos most) z) ≡ false
        → (1 ≤ pos_part z) × (pos_part z ≤ most)
    bounds (negsuc n) h = ground arith
    bounds (pos n) h = ground arith

module _ {F E : Type 0} (o : Outside) (h : Handler F E) (s : SymbolStore E) where
  -- A parameter that is given is what `most` says, and one that is not has a value in the bounds.
  abbrev pub ParamOutcome : ℕ → Refusal → Bytes → Result Refusal ℕ → Type 0
  ParamOutcome most e raw (ok n) = (1 ≤ n) × (n ≤ most)
  ParamOutcome most e raw (err f) = (f ≡ e) × (eqb raw [] ≡ false) × IsOutside most (s.atoi raw)

  given-ParamOutcome :
      (most : ℕ) (e : Refusal) (raw : Bytes)
      → eqb raw [] ≡ false
      → (x : Result Refusal ℕ) → IsParam most e (s.atoi raw) x
      → ParamOutcome most e raw x
  given-ParamOutcome most e raw given (ok n) k = k
  given-ParamOutcome most e raw given (err f) (same, out) = (same, given, out)

  pub depth_of-ParamOutcome : (raw : Bytes) → ParamOutcome 3 bad_depth raw (depth_of o h s raw)
  unfolding depth_of
  depth_of-ParamOutcome raw = elim (Bool-cases (eqb raw [])) [
    | inl empty ↦ rw empty (omega arith)
    | inr given ↦
        let k =
          given-ParamOutcome 3 bad_depth raw given (in_range (pos 3) bad_depth (s.atoi raw))
            (in_range-IsParam 3 bad_depth (s.atoi raw)) in
        let same : in_range (pos 3) bad_depth (s.atoi raw) ≡ depth_of o h s raw = rw given refl in
        subst (ParamOutcome 3 bad_depth raw) same k
  ]

  pub limit_of-ParamOutcome :
      (raw : Bytes) → ParamOutcome 50 bad_limit raw (limit_of o h s raw default_limit)
  unfolding limit_of
  limit_of-ParamOutcome raw = elim (Bool-cases (eqb raw [])) [
    | inl empty ↦ rw empty (omega arith)
    | inr given ↦
        let k =
          given-ParamOutcome 50 bad_limit raw given (in_range (pos 50) bad_limit (s.atoi raw))
            (in_range-IsParam 50 bad_limit (s.atoi raw)) in
        let same : in_range (pos 50) bad_limit (s.atoi raw) ≡ limit_of o h s raw default_limit =
          rw given refl in
        subst (ParamOutcome 50 bad_limit raw) same k
  ]

take-length_le : {A : Type 0} (n : ℕ) (xs : List A) → length xs ≤ n → take n xs ≡ xs
take-length_le zero [] h = refl
take-length_le zero (x ∷ xs) h = absurd (omega arith)
take-length_le (suc n) [] h = refl
take-length_le (suc n) (x ∷ xs) h = ap (◌∷◌ x) (take-length_le n xs (omega arith))

-- The rows are cut to the limit, and the flag says whether there were more.
abbrev pub IsClipped : {A : Type 0} → ℕ → List A → List A → Bool → Type 0
IsClipped limit rows shown truncated =
    (shown ≡ take limit rows) × (truncated ≡ ltb limit (length rows))

pub clip-IsClipped :
    {A : Type 0} (rows : List A) (limit : ℕ)
    → IsClipped limit rows (clip rows limit).0 (clip rows limit).1
unfolding clip
clip-IsClipped rows limit = elim (Bool-cases (ltb limit (length rows))) [
  | inl over ↦ rw over (refl, refl)
  | inr within ↦ rw within (sym (take-length_le limit rows (ground arith)), refl)
]

module _ {F E : Type 0} (o : Outside) (h : Handler F E) (s : SymbolStore E) where
  -- The approximate callers: none where the store failed, and the calls of the symbol's last name
  -- otherwise, cut to the limit and cited.
  pub record Approximated (r : Repo) (newer : Newer) (sy : Symbol) (limit : ℕ) (v : ApproximateView)
      : Type 0 where
    pub rows : List Approximate
    pub shown : List Approximate
    pub from_store : s.approximate_callers_of r.id (approx_name sy.name) (limit + 1) ≡ ok rows
    pub clipped : IsClipped limit rows shown v.truncated
    pub views : AreViews o h s r newer (λ a. a.symbol) approximate_view shown v.callers
    pub counted : v.count ≡ length v.callers
    pub not_failed : v.failed ≡ false

  abbrev pub ApproximateOutcome : Repo → Newer → Symbol → ℕ → Result E ApproximateView → Type 0
  ApproximateOutcome r newer sy limit (err e) = Unread s r e
  ApproximateOutcome r newer sy limit (ok v) =
      Approximated r newer sy limit v
      ⊎ ((v.failed ≡ true)
          × (v.callers ≡ [])
          × (v.count ≡ 0)
          × (e : E) × (s.approximate_callers_of r.id (approx_name sy.name) (limit + 1) ≡ err e))

  pub approximate-ApproximateOutcome :
      (r : Repo) (newer : Newer) (seen : Seen) (sy : Symbol) (limit : ℕ)
      → All (IsTrue o h s r newer) seen
      → ApproximateOutcome r newer sy limit (approximate o h s r newer seen sy limit)
  unfolding approximate
  approximate-ApproximateOutcome r newer seen sy limit k =
      by_rows (s.approximate_callers_of r.id (approx_name sy.name) (limit + 1)) refl
    where
      by_rows :
          (x : Result E (List Approximate))
          → s.approximate_callers_of r.id (approx_name sy.name) (limit + 1) ≡ x
          → ApproximateOutcome r newer sy limit (approximate_rows o h s r newer seen limit x)
      by_rows (err e) q = inr (refl, refl, refl, e, q)
      by_rows (ok rows) q =
          by_views
            (cite_rows o h s (λ a. a.symbol) approximate_view r newer seen (clip rows limit).0)
            (cite_rows-RowsOutcome o h s r newer (λ a. a.symbol) approximate_view
              (clip rows limit).0 seen k)
        where
          by_views :
              (y : Result E (List ApproximateCaller × Seen))
              → RowsOutcome o h s r newer (λ a. a.symbol) approximate_view (clip rows limit).0 y
              → ApproximateOutcome r newer sy limit (
                  y >>= λ p. ok (record {
                    count = length p.0;
                    truncated = (clip rows limit).1;
                    failed = false;
                    callers = p.0;
                  }))
          by_views (err e) v = v
          by_views (ok (views, seen')) (are, all_true) = inl (record {
            rows = rows;
            shown = (clip rows limit).0;
            from_store = q;
            clipped = clip-IsClipped rows limit;
            views = are;
            counted = refl;
            not_failed = refl;
          })
