-- ===== src/Store/Reached.antt =====
-- About CallersOf: its callers are those that chains of calls lead from, each at its distance.
use codetrail.Prelude.{
  All-take, length-take_or, All-Any, ℕ, ◌+◌, ◌≤◌, ◌<◌, max, Bool, false, ◌≡◌, ◌≢◌, refl, sym, subst,
  ◌⊎◌, inl, inr, arith, Option, none, some, List, [], ◌∷◌, take, length, Bytes, eqb, eqb_eq,
  eqb_refl, All, Any, All-imp, All-member, Bool-cases,
}
use codetrail.Prelude.Sort.{sort_by, All-sort_by, Any-sort_by}
use codetrail.Models.{Symbol, Edge}
use codetrail.Store.Callers.{
  Caller, CallRow, direct, nearest, caller_of, grouped, listed_before, listed, callers_of,
}
use codetrail.Store.Chains.{Chain, AtCall, IsCallRow, direct-IsCallRow}
use codetrail.Store.Rounds.{Ran, rounds-Ran}
use codetrail.Store.Complete.{ReachedBy, Ran-complete}
use codetrail.Store.Nearest.{NearestOutcome, nearest-NearestOutcome}

module _ (before : Bytes → Bytes → Bool) (symbols : List Symbol) (es : List Edge)
    (repo_id target : Bytes) (depth : ℕ) where
  -- A caller is a symbol of the table, at the end of a chain of as many calls as its depth, and of no
  -- shorter one; it is shown with the place of a call in it.
  pub record IsCaller (k : Caller) : Type 0 where
    pub known : Any (λ s. s ≡ k.symbol) symbols
    pub bounded : (1 ≤ k.depth) × (k.depth ≤ max 1 depth)
    pub chain : Chain repo_id es k.depth k.symbol.id target
    pub shortest :
        (k.symbol.id ≡ target) ⊎ ((n : ℕ) → n < k.depth → ¬ Chain repo_id es n k.symbol.id target)
    pub site : AtCall repo_id es k.symbol.id k.call_path k.call_line

  -- A symbol is listed, or is the target itself, or no chain of at most `depth` calls leads from it.
  abbrev pub IsAccounted : List Caller → Symbol → Type 0
  IsAccounted ks s =
      Any (λ k. k.symbol ≡ s) ks
      ⊎ ((s.id ≡ target) ⊎ ((n : ℕ) → n ≤ depth → ¬ Chain repo_id es n s.id target))

  abbrev pub CallersOutcome : ℕ → Option (List Caller) → Type 0
  CallersOutcome limit none = ⊥
  CallersOutcome limit (some ks) =
      All IsCaller ks × (length ks ≤ limit) × ((length ks ≡ limit) ⊎ All (IsAccounted ks) symbols)

  module _ (out : List CallRow) (ran : Ran repo_id depth es (direct repo_id target es) out)
      (rows : All (λ r. IsCallRow repo_id es target depth r.depth r) out) where
    is_target : (id : Bytes) → (id ≡ target) ⊎ (id ≢ target)
    is_target id = elim (Bool-cases (eqb id target)) [
      | inl e ↦ inl (eqb_eq id target e)
      | inr e ↦
          inr (λ h. let f : eqb target target ≡ false = rw h at e in let g = eqb_refl target in cc)
    ]

    row-IsCaller :
        (s : Symbol) (c : CallRow)
        → Any (λ x. x ≡ s) symbols
        → NearestOutcome s.id out (some c)
        → IsCaller (record {
          symbol = s;
          depth = c.depth;
          call_path = c.call_path;
          call_line = c.call_line;
        })
    row-IsCaller s c m (there, same, least) =
        let r = All-member (λ r. IsCallRow repo_id es target depth r.depth r) out c rows there in
        record {
          known = m;
          bounded = r.bounded;
          chain = subst (λ x. Chain repo_id es c.depth x target) same r.chain;
          shortest = elim (is_target s.id) [
            | inl t ↦ inl t
            | inr ne ↦ inr (λ n short chain. too_near ne n short (
                Ran-complete repo_id depth es target out ran n s.id
                  (let b = r.bounded in omega arith) ne chain))
          ];
          site = subst (λ x. AtCall repo_id es x c.call_path c.call_line) same r.site;
        }
      where
        too_near :
            s.id ≢ target
            → (n : ℕ) → n < c.depth
            → Any (ReachedBy repo_id depth es target n s.id) out
            → ⊥
        too_near ne n short m =
            All-Any (λ x. x.sym ≡ s.id → c.depth ≤ x.depth)
              (ReachedBy repo_id depth es target n s.id) out ⊥
              (λ x far near. let d = far near.0 in let d' = near.1 in omega arith) least m

    caller_of-All :
        (P : Caller → Type 0) (s : Symbol) (o : Option CallRow) (ks : List Caller)
        → ((c : CallRow)
            → o ≡ some c
            → P (record {
              symbol = s;
              depth = c.depth;
              call_path = c.call_path;
              call_line = c.call_line;
            }))
        → All P ks
        → All P (caller_of s o ks)
    caller_of-All P s none ks f h = h
    caller_of-All P s (some c) ks f h = (f c refl, h)

    grouped-IsCaller :
        (ss : List Symbol)
        → ((s : Symbol) → Any (λ x. x ≡ s) ss → Any (λ x. x ≡ s) symbols)
        → All IsCaller (grouped before ss out)
    unfolding grouped
    grouped-IsCaller [] sub = tt
    grouped-IsCaller (s ∷ ss) sub =
        caller_of-All IsCaller s (nearest before s.id out) (grouped before ss out)
          (λ c e.
            row-IsCaller s c (sub s (inl refl))
              (subst (NearestOutcome s.id out) e (nearest-NearestOutcome before s.id out)))
          (grouped-IsCaller ss (λ x m. sub x (inr m)))

    accounted :
        (s : Symbol) (ks : List Caller) (o : Option CallRow)
        → NearestOutcome s.id out o
        → IsAccounted (caller_of s o ks) s
    accounted s ks (some c) h = inl (inl refl)
    accounted s ks none h = elim (is_target s.id) [
      | inl t ↦ inr (inl t)
      | inr ne ↦ inr (
          inr (λ n le chain.
            All-Any (λ r. r.sym ≢ s.id) (ReachedBy repo_id depth es target n s.id) out ⊥
              (λ r other near. other near.0) h
              (Ran-complete repo_id depth es target out ran n s.id le ne chain)))
    ]

    still :
        (x s : Symbol) (o : Option CallRow) (ks : List Caller)
        → IsAccounted ks x
        → IsAccounted (caller_of s o ks) x
    still x s none ks h = h
    still x s (some c) ks (inl m) = inl (inr m)
    still x s (some c) ks (inr h) = inr h

    grouped-IsAccounted : (ss : List Symbol) → All (IsAccounted (grouped before ss out)) ss
    unfolding grouped
    grouped-IsAccounted [] = tt
    grouped-IsAccounted (s ∷ ss) = (
      accounted s (grouped before ss out) (nearest before s.id out)
          (nearest-NearestOutcome before s.id out),
      All-imp (IsAccounted (grouped before ss out))
          (IsAccounted (caller_of s (nearest before s.id out) (grouped before ss out))) ss
          (λ x h. still x s (nearest before s.id out) (grouped before ss out) h)
          (grouped-IsAccounted ss),
    )

  -- CallersOf returns. Each caller it lists is a symbol of the table from which a chain of as many
  -- resolved calls as its depth leads to the target, at most the given depth or 1, and no shorter
  -- chain does unless it is the target itself; the place shown is that of a call in it. It lists at
  -- most `limit` callers, and where it lists fewer, each symbol of the table is listed, or is the
  -- target, or no chain of at most the given depth leads from it.
  pub callers_of-CallersOutcome :
      (limit : ℕ) → CallersOutcome limit (callers_of before symbols es repo_id target depth limit)
  unfolding callers_of
  callers_of-CallersOutcome limit =
      let (out, found, ran, rows) =
        rounds-Ran repo_id depth es target (depth + 2) 1 (direct repo_id target es)
          (direct-IsCallRow repo_id es target depth) (inr (omega arith, omega arith)) in
      rw found (outcome out ran rows)
    where
      sorted :
          (ks : List Caller) (s : Symbol)
          → IsAccounted ks s
          → IsAccounted (sort_by (listed_before before) ks) s
      sorted ks s (inl m) = inl (Any-sort_by (listed_before before) (λ k. k.symbol ≡ s) ks m)
      sorted ks s (inr h) = inr h

      shown :
          (whole : List Caller)
          → (length (take limit whole) ≡ limit) ⊎ (take limit whole ≡ whole)
          → All (IsAccounted whole) symbols
          → (length (take limit whole) ≡ limit) ⊎ All (IsAccounted (take limit whole)) symbols
      shown whole (inl e) h = inl e
      shown whole (inr e) h = inr (subst (λ ks. All (IsAccounted ks) symbols) (sym e) h)

      outcome :
          (out : List CallRow)
          → Ran repo_id depth es (direct repo_id target es) out
          → All (λ r. IsCallRow repo_id es target depth r.depth r) out
          → CallersOutcome limit (listed before symbols limit (some out))
      outcome out ran rows =
          let whole = sort_by (listed_before before) (grouped before symbols out) in
          let (short, full) = length-take_or limit whole in
          (
            All-take IsCaller limit whole (
                All-sort_by (listed_before before) IsCaller (grouped before symbols out)
                  (grouped-IsCaller out ran rows symbols (λ s m. m))),
            short,
            shown whole full (
                All-imp (IsAccounted (grouped before symbols out)) (IsAccounted whole) symbols
                  (sorted (grouped before symbols out)) (grouped-IsAccounted out ran rows symbols)),
          )
