-- ===== src/Store/Chains.antt =====
-- About the recursive part of callersSQL: chains of calls.
use codetrail.Prelude.{
  ℕ, zero, suc, max, ◌+◌, ◌≤◌, ◌<◌, Bool, true, false, ◌≡◌, refl, sym, ap, ◌∙◌, subst, inl, inr,
  arith, List, [], ◌∷◌, Bytes, eqb_eq, All, Any, All-append, Any-map, All-self, Bool-cases,
}
use codetrail.Models.{Edge}
use codetrail.Store.Callers.{
  CallRow, calls_into, on_path, rows_where, direct_row, direct, further_row, recurs, further, grow,
}

pub rows_where-All :
    (test : Edge → Bool) (row : Edge → CallRow) (P : CallRow → Type 0) (es : List Edge)
    → All (λ e. test e ≡ true → P (row e)) es
    → All P (rows_where test row es)
unfolding rows_where
rows_where-All test row P [] h = tt
rows_where-All test row P (e ∷ es) h = elim (Bool-cases (test e)) [
  | inl passes ↦ rw passes (h.0 passes, rows_where-All test row P es h.1)
  | inr fails ↦ rw fails (rows_where-All test row P es h.1)
]

pub rows_where-Any :
    (test : Edge → Bool) (row : Edge → CallRow) (P : CallRow → Type 0) (es : List Edge)
    → Any (λ e. (test e ≡ true) × P (row e)) es
    → Any P (rows_where test row es)
unfolding rows_where
rows_where-Any test row P [] h = h
rows_where-Any test row P (e ∷ es) (inl h) = rw h.0 (inl h.1)
rows_where-Any test row P (e ∷ es) (inr h) = elim (Bool-cases (test e)) [
  | inl passes ↦ rw passes (inr (rows_where-Any test row P es h))
  | inr fails ↦ rw fails (rows_where-Any test row P es h)
]

module _ (repo_id : Bytes) (es : List Edge) where
  -- There is a call in `a` that is resolved to `b`.
  abbrev pub Calls : Bytes → Bytes → Type 0
  Calls a b = Any (λ e. (calls_into repo_id b e ≡ true) × (e.from_symbol_id ≡ a)) es

  -- A chain of n calls from one symbol to another.
  unfoldable pub Chain : ℕ → Bytes → Bytes → Type 0
  Chain zero a b = a ≡ b
  Chain (suc n) a b = (c : Bytes) × Calls a c × Chain n c b

  -- The place of a row is that of a call in its symbol.
  abbrev pub AtCall : Bytes → Bytes → ℕ → Type 0
  AtCall a path line =
      Any (λ e. (e.repo_id ≡ repo_id) × (e.from_symbol_id ≡ a) × (e.path ≡ path) × (e.line ≡ line))
        es

  module _ (target : Bytes) (depth : ℕ) where
    pub record IsCallRow (n : ℕ) (r : CallRow) : Type 0 where
      pub level : r.depth ≡ n
      pub bounded : (1 ≤ r.depth) × (r.depth ≤ max 1 depth)
      pub chain : Chain r.depth r.sym target
      pub site : AtCall r.sym r.call_path r.call_line

    own_repo : (id : Bytes) (e : Edge) → calls_into repo_id id e ≡ true → e.repo_id ≡ repo_id
    unfolding calls_into
    own_repo id e h = eqb_eq e.repo_id repo_id (ground arith)

    call_site :
        (id : Bytes) (e : Edge)
        → calls_into repo_id id e ≡ true
        → Any (λ x. x ≡ e) es
        → AtCall e.from_symbol_id e.path e.line
    call_site id e h m =
        Any-map (λ x. x ≡ e) _ es
          (λ x s. (
            ap (λ y. y.repo_id) s ∙ own_repo id e h,
            ap (λ y. y.from_symbol_id) s,
            ap (λ y. y.path) s,
            ap (λ y. y.line) s,
          ))
          m

    a_call :
        (id : Bytes) (e : Edge)
        → calls_into repo_id id e ≡ true
        → Any (λ x. x ≡ e) es
        → Calls e.from_symbol_id id
    a_call id e h m =
        Any-map (λ x. x ≡ e) _ es
          (λ x s. (
            subst (λ (y : Edge). calls_into repo_id id y ≡ true) (sym s) h,
            ap (λ y. y.from_symbol_id) s,
          ))
          m

    pub direct-IsCallRow : All (IsCallRow 1) (direct repo_id target es)
    unfolding direct Chain
    direct-IsCallRow =
        rows_where-All (calls_into repo_id target) (direct_row target) (IsCallRow 1) es (
          All-self _ es (λ e m h. record {
            level = refl;
            bounded = omega arith;
            chain = (target, a_call target e h m, refl);
            site = call_site target e h m;
          }))

    pub recurs-parts :
        (c : CallRow) (e : Edge)
        → recurs repo_id depth c e ≡ true
        → (calls_into repo_id c.sym e ≡ true)
          × (c.depth < depth)
          × (on_path e.from_symbol_id c.path ≡ false)
    unfolding recurs
    recurs-parts c e h = (ground arith, ground arith, ground arith)

    -- A row with its own depth in the form of a successor.
    longer :
        (c : CallRow) (a : Bytes)
        → Calls a c.sym
        → Chain c.depth c.sym target
        → Chain (c.depth + 1) a target
    unfolding Chain
    longer c a h k =
        subst (λ (n : ℕ). Chain n a target) (let e : suc c.depth ≡ c.depth + 1 = omega arith in e)
          (c.sym, h, k)

    further-IsCallRow :
        (n : ℕ) (c : CallRow)
        → IsCallRow n c
        → All (λ r. IsCallRow (n + 1) r × (n < depth)) (further repo_id depth c es)
    unfolding further
    further-IsCallRow n c h = rows_where-All (recurs repo_id depth c) (further_row c) _ es (
        All-self _ es (λ e m k.
          let (into, below, new) = recurs-parts c e k in
          (
            record {
              level = ap (λ x. x + 1) h.level;
              bounded = omega arith;
              chain = longer c e.from_symbol_id (a_call c.sym e into m) h.chain;
              site = call_site c.sym e into m;
            },
            let level = h.level in omega arith,
          )))

    pub grow-IsCallRow :
        (n : ℕ) (cs : List CallRow)
        → All (IsCallRow n) cs
        → All (λ r. IsCallRow (n + 1) r × (n < depth)) (grow repo_id depth es cs)
    unfolding grow
    grow-IsCallRow n [] h = tt
    grow-IsCallRow n (c ∷ cs) h =
        All-append _ (further repo_id depth c es) (grow repo_id depth es cs)
          (further-IsCallRow n c h.0) (grow-IsCallRow n cs h.1)
