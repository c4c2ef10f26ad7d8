-- ===== src/Store/Complete.antt =====
-- About callersSQL: a chain of calls is not lost, although no row goes through a symbol twice.
use codetrail.Prelude.{
  ℕ, zero, suc, ◌+◌, ◌≤◌, ◌<◌, true, false, ◌≡◌, ◌≢◌, refl, sym, ap, ◌∙◌, subst, ◌⊎◌, inl, inr,
  arith, List, [], ◌∷◌, ◌++◌, Bytes, eqb, eqb_eq, eqb_refl, All, Any, All-append, Any-append_right,
  Any-map, All-self, All-member, Bool-cases,
}
use codetrail.Models.{Edge}
use codetrail.Store.Callers.{
  CallRow, calls_into, on_path, direct_row, direct, further_row, recurs, further, grow,
}
use codetrail.Store.Chains.{Calls, Chain, rows_where-Any, rows_where-All}
use codetrail.Store.Rounds.{Ran, stop, round, first_rows, Ran-closed}

Any-member :
    {A : Type 0} (P : A → Type 0) (xs : List A) → Any P xs → (x : A) × P x × Any (λ y. y ≡ x) xs
Any-member P [] h = absurd h
Any-member P (x ∷ xs) (inl h) = (x, h, inl refl)
Any-member P (x ∷ xs) (inr h) = let (y, p, there) = Any-member P xs h in (y, p, inr there)

on_path-append :
    (s x : Bytes) (p : List Bytes) → on_path s (p ++ x ∷ []) ≡ true → (on_path s p ≡ true) ⊎ (x ≡ s)
unfolding on_path
on_path-append s x [] h = inr (eqb_eq x s (ground arith))
on_path-append s x (y ∷ p) h = elim (Bool-cases (eqb y s)) [
  | inl e ↦ inl (rw e refl)
  | inr e ↦ rw e (on_path-append s x p (rw e at h))
]

module _ (repo_id : Bytes) (depth : ℕ) (es : List Edge) (target : Bytes) where
  abbrev pub ReachedBy : ℕ → Bytes → CallRow → Type 0
  ReachedBy n s r = (r.sym ≡ s) × (r.depth ≤ n)

  -- What lies on a row's path, but for the target, has a row that is no deeper.
  abbrev Retraced : List CallRow → CallRow → Type 0
  Retraced all c =
      (s : Bytes) → on_path s c.path ≡ true → s ≢ target → Any (ReachedBy c.depth s) all

  -- Rows that are among `all`, each of which has P as a member of `all`.
  present :
      (all rows : List CallRow) (P : CallRow → Type 0)
      → ((x : CallRow) → Any (λ y. y ≡ x) rows → Any (λ y. y ≡ x) all)
      → All (λ x. Any (λ y. y ≡ x) all → P x) rows
      → All P rows
  present all rows P sub h =
      All-self P rows (λ r m. All-member (λ x. Any (λ y. y ≡ x) all → P x) rows r h m (sub r m))

  itself :
      (all : List CallRow) (r : CallRow) (s : Bytes)
      → r.sym ≡ s
      → Any (λ y. y ≡ r) all
      → Any (ReachedBy r.depth s) all
  itself all r s e m =
      Any-map (λ y. y ≡ r) (ReachedBy r.depth s) all
        (λ y h.
          let d : y.depth ≡ r.depth = ap (λ z. z.depth) h in (ap (λ z. z.sym) h ∙ e, omega arith))
        m

  direct-Retraced :
      (all : List CallRow)
      → ((x : CallRow) → Any (λ y. y ≡ x) (direct repo_id target es) → Any (λ y. y ≡ x) all)
      → All (Retraced all) (direct repo_id target es)
  unfolding direct on_path
  direct-Retraced all sub = present all (direct repo_id target es) (Retraced all) sub (
      rows_where-All (calls_into repo_id target) (direct_row target) _ es (
        All-self _ es (λ e m h here s on ne. elim (Bool-cases (eqb target s)) [
          | inl same ↦ absurd (ne (sym (eqb_eq target s same)))
          | inr other ↦
              itself all (direct_row target e) s (eqb_eq e.from_symbol_id s (ground arith)) here
        ])))

  further-Retraced :
      (all : List CallRow) (c : CallRow)
      → Retraced all c
      → All (λ x. Any (λ y. y ≡ x) all → Retraced all x) (further repo_id depth c es)
  unfolding further
  further-Retraced all c old = rows_where-All (recurs repo_id depth c) (further_row c) _ es (
      All-self _ es (λ e m h here s on ne. elim (on_path-append s e.from_symbol_id c.path on) [
        | inl before ↦
            Any-map (ReachedBy c.depth s) (ReachedBy (c.depth + 1) s) all
              (λ y k. let d = k.1 in (k.0, omega arith)) (old s before ne)
        | inr same ↦ itself all (further_row c e) s same here
      ]))

  grow-Retraced :
      (all rows : List CallRow)
      → All (Retraced all) rows
      → All (λ x. Any (λ y. y ≡ x) all → Retraced all x) (grow repo_id depth es rows)
  unfolding grow
  grow-Retraced all [] h = tt
  grow-Retraced all (c ∷ cs) h =
      All-append _ (further repo_id depth c es) (grow repo_id depth es cs)
        (further-Retraced all c h.0) (grow-Retraced all cs h.1)

  Ran-Retraced :
      (all rows out : List CallRow)
      → Ran repo_id depth es rows out
      → ((x : CallRow) → Any (λ y. y ≡ x) out → Any (λ y. y ≡ x) all)
      → All (Retraced all) rows
      → All (Retraced all) out
  Ran-Retraced all rows out stop sub h = tt
  Ran-Retraced all rows out (round more ran e) sub h =
      let next = grow repo_id depth es rows in
      let sub' : (x : CallRow) → Any (λ y. y ≡ x) more → Any (λ y. y ≡ x) all = λ x m.
        sub x
          (subst (λ l. Any (λ y. y ≡ x) l) (sym e) (Any-append_right (λ y. y ≡ x) rows more m)) in
      let next_ok : All (Retraced all) next =
        present all next (Retraced all)
          (λ x m. sub' x (first_rows repo_id depth es next more (λ y. y ≡ x) ran m))
          (grow-Retraced all rows h) in
      subst (All (Retraced all)) (sym e)
        (All-append (Retraced all) rows more h (Ran-Retraced all next more ran sub' next_ok))

  recurs_when :
      (c : CallRow) (e : Edge)
      → calls_into repo_id c.sym e ≡ true
      → c.depth < depth
      → on_path e.from_symbol_id c.path ≡ false
      → recurs repo_id depth c e ≡ true
  unfolding recurs
  recurs_when c e into below new = ground arith

  -- A symbol that a chain of at most `depth` calls leads from has a row that is no deeper.
  pub Ran-complete :
      (out : List CallRow)
      → Ran repo_id depth es (direct repo_id target es) out
      → (n : ℕ) (s : Bytes) → n ≤ depth
      → s ≢ target
      → Chain repo_id es n s target
      → Any (ReachedBy n s) out
  unfolding Chain
  Ran-complete out ran zero s le ne h = absurd (ne h)
  Ran-complete out ran (suc n) s le ne (u, call, rest) = elim (Bool-cases (eqb u target)) [
    | inl same ↦
        first_rows repo_id depth es (direct repo_id target es) out (ReachedBy (suc n) s) ran
          (from_target (rw (eqb_eq u target same) at call))
    | inr other ↦
        let step = Ran-complete out ran n u (omega arith) (λ e. not_same e other) rest in
        let (c, (is_u, near), there) = Any-member (ReachedBy n u) out step in
        extend c is_u near there
  ]
    where
      not_same : u ≡ target → eqb u target ≡ false → ⊥
      not_same e f = let g : eqb target target ≡ false = rw e at f in let h = eqb_refl target in cc

      from_target : Calls repo_id es s target → Any (ReachedBy (suc n) s) (direct repo_id target es)
      from_target m =
          unfold direct in
          (rows_where-Any (calls_into repo_id target) (direct_row target) (ReachedBy (suc n) s) es
            (Any-map _ _ es (λ e k. (k.0, (k.1, omega arith))) m))

      recurring :
          (c : CallRow) (e : Edge)
          → c.sym ≡ u
          → c.depth ≤ n
          → on_path s c.path ≡ false
          → calls_into repo_id u e ≡ true
          → e.from_symbol_id ≡ s
          → recurs repo_id depth c e ≡ true
      recurring c e is_u near new into from =
          recurs_when c e (rw is_u into) (omega arith) (rw from new)

      extend :
          (c : CallRow)
          → c.sym ≡ u
          → c.depth ≤ n
          → Any (λ y. y ≡ c) out
          → Any (ReachedBy (suc n) s) out
      extend c is_u near there = elim (Bool-cases (on_path s c.path)) [
        | inl on ↦
            Any-map (ReachedBy c.depth s) (ReachedBy (suc n) s) out
              (λ y k. let d = k.1 in (k.0, omega arith))
              (All-member (Retraced out) out c
                (Ran-Retraced out (direct repo_id target es) out ran (λ x m. m)
                  (direct-Retraced out (λ x m.
                    first_rows repo_id depth es (direct repo_id target es) out (λ y. y ≡ x) ran m)))
                there s on ne)
        | inr new ↦
            Ran-closed repo_id depth es (direct repo_id target es) out c (ReachedBy (suc n) s) ran
              there
              (unfold further in
                (rows_where-Any (recurs repo_id depth c) (further_row c) (ReachedBy (suc n) s) es (
                  Any-map _ _ es (λ e k. (recurring c e is_u near new k.0 k.1, (k.1, omega arith)))
                    call)))
      ]
