-- ===== src/Store/Rounds.antt =====
-- About the rounds of callersSQL: they end, and their rows are closed under calls.
use codetrail.Prelude.{
  ℕ, zero, suc, ◌+◌, ◌≤◌, ◌<◌, ◌≡◌, refl, sym, ap, subst, ◌⊎◌, inl, inr, arith, some, List, [], ◌∷◌,
  ◌++◌, Bytes, All, Any, All-append, All-imp, Any-append_left, Any-append_right, Any-append_split,
}
use codetrail.Models.{Edge}
use codetrail.Store.Callers.{CallRow, further, grow, also, rounds}
use codetrail.Store.Chains.{IsCallRow, grow-IsCallRow}

module _ (repo_id : Bytes) (depth : ℕ) (es : List Edge) where
  -- The rounds from the rows of one, and all rows in the end.
  pub data Ran : List CallRow → List CallRow → Type 0 where
    stop : Ran [] []
    round :
        {rows out : List CallRow} (more : List CallRow)
        → Ran (grow repo_id depth es rows) more
        → out ≡ rows ++ more
        → Ran rows out

  below_or_none :
      (n : ℕ) (rows : List CallRow) (P : CallRow → Type 0)
      → All (λ r. P r × (n < depth)) rows
      → (rows ≡ []) ⊎ (n < depth)
  below_or_none n [] P h = inl refl
  below_or_none n (r ∷ rows) P h = inr h.0.1

  -- The fuel that callers_of gives is enough.
  pub rounds-Ran :
      (target : Bytes) (fuel n : ℕ) (rows : List CallRow)
      → All (IsCallRow repo_id es target depth n) rows
      → (rows ≡ []) ⊎ ((depth + 1 ≤ fuel + n) × (1 ≤ fuel))
      → (out : List CallRow) × (rounds fuel repo_id depth es rows ≡ some out)
        × Ran rows out
        × All (λ r. IsCallRow repo_id es target depth r.depth r) out
  unfolding rounds
  rounds-Ran target fuel n [] h enough = ([], none_left fuel, stop, tt)
    where
      none_left : (f : ℕ) → rounds f repo_id depth es [] ≡ some []
      none_left zero = refl
      none_left (suc f) = refl
  rounds-Ran target zero n (c ∷ cs) h (inl e) = cc
  rounds-Ran target zero n (c ∷ cs) h (inr e) = absurd (omega arith)
  rounds-Ran target (suc fuel) n (c ∷ cs) h (inl e) = cc
  rounds-Ran target (suc fuel) n (c ∷ cs) h (inr enough) =
      let next = grow repo_id depth es (c ∷ cs) in
      let both = grow-IsCallRow repo_id es target depth n (c ∷ cs) h in
      let rows' = All-imp _ (IsCallRow repo_id es target depth (n + 1)) next (λ r k. k.0) both in
      let (more, found, ran, ok) =
        rounds-Ran target fuel (n + 1) next rows'
          (fuel_left (below_or_none n next (IsCallRow repo_id es target depth (n + 1)) both)) in
      (
        (c ∷ cs) ++ more,
        ap (also (c ∷ cs)) found,
        round more ran refl,
        All-append (λ r. IsCallRow repo_id es target depth r.depth r) (c ∷ cs) more
            (All-imp (IsCallRow repo_id es target depth n) _ (c ∷ cs)
              (λ r k. record { level = refl; bounded = k.bounded; chain = k.chain; site = k.site })
              h)
            ok,
      )
    where
      fuel_left : {A : Type 0} → A ⊎ (n < depth) → A ⊎ ((depth + 1 ≤ fuel + (n + 1)) × (1 ≤ fuel))
      fuel_left (inl e) = inl e
      fuel_left (inr below) = inr (omega arith)

  pub first_rows :
      (rows out : List CallRow) (P : CallRow → Type 0) → Ran rows out → Any P rows → Any P out
  first_rows rows out P stop m = m
  first_rows rows out P (round more ran e) m = rw e (Any-append_left P rows more m)

  grow-Any :
      (rows : List CallRow) (c : CallRow) (P : CallRow → Type 0)
      → Any (λ r. r ≡ c) rows
      → Any P (further repo_id depth c es)
      → Any P (grow repo_id depth es rows)
  unfolding grow
  grow-Any [] c P m h = absurd m
  grow-Any (r ∷ rows) c P (inl e) h =
      Any-append_left P (further repo_id depth r es) (grow repo_id depth es rows)
        (subst (λ (x : CallRow). Any P (further repo_id depth x es)) (sym e) h)
  grow-Any (r ∷ rows) c P (inr m) h =
      Any-append_right P (further repo_id depth r es) (grow repo_id depth es rows)
        (grow-Any rows c P m h)

  -- The rows in the end are closed under the term that recurs.
  pub Ran-closed :
      (rows out : List CallRow) (c : CallRow) (P : CallRow → Type 0)
      → Ran rows out
      → Any (λ r. r ≡ c) out
      → Any P (further repo_id depth c es)
      → Any P out
  Ran-closed rows out c P stop m h = absurd m
  Ran-closed rows out c P (round more ran e) m h = rw e (
      Any-append_right P rows more (
        later (Any-append_split (λ r. r ≡ c) rows more (rw e at m))
          (λ n. Ran-closed (grow repo_id depth es rows) more c P ran n h)))
    where
      later :
          Any (λ r. r ≡ c) rows ⊎ Any (λ r. r ≡ c) more
          → (Any (λ r. r ≡ c) more → Any P more)
          → Any P more
      later (inl here) ih =
          first_rows (grow repo_id depth es rows) more P ran (grow-Any rows c P here h)
      later (inr there) ih = ih there
