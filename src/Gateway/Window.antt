-- ===== src/Gateway/Window.antt =====
-- About `budget` of ask.go: the list of spends stands for the whole history of the process.
use mathlib.Core.List.{append_assoc}
use codetrail.Prelude.{
  ℕ, ◌+◌, ◌-◌, ◌≤◌, true, false, ◌≡◌, refl, sym, ap, ◌∙◌, subst, inl, inr, arith, List, [], ◌∷◌,
  ◌++◌, leb, ltb, if◌then◌else◌, All, All-append, All-imp, Bool-cases,
}
use codetrail.Gateway.Budget.{
  SpendAt, Budget, expired, prune_from, prune, reserve, settle, allow, spend, remaining,
}

abbrev pub sum : List SpendAt → ℕ
sum [] = 0
sum (s ∷ ss) = s.n + sum ss

-- The tokens of a history that were spent in the hour before `now`.
abbrev pub spent_since : ℕ → List SpendAt → ℕ
spent_since now [] = 0
spent_since now (s ∷ ss) = (if expired now s then 0 else s.n) + spent_since now ss

-- A history in the order of its times.
abbrev pub IsSorted : List SpendAt → Type 0
IsSorted [] = Unit
IsSorted (s ∷ ss) = All (λ u. s.at ≤ u.at) ss × IsSorted ss

abbrev IsExpired : ℕ → SpendAt → Type 0
IsExpired now s = expired now s ≡ true

abbrev Before : ℕ → SpendAt → Type 0
Before now s = s.at ≤ now

sum-append : (xs ys : List SpendAt) → sum (xs ++ ys) ≡ sum xs + sum ys
sum-append [] ys = omega arith
sum-append (x ∷ xs) ys = omega (arith, sum-append xs ys)

IsSorted-snoc :
    (xs : List SpendAt) (y : SpendAt) → IsSorted xs → All (Before y.at) xs → IsSorted (xs ++ y ∷ [])
IsSorted-snoc [] y h k = (tt, tt)
IsSorted-snoc (x ∷ xs) y h k = (All-append _ xs (y ∷ []) h.0 (k.0, tt), IsSorted-snoc xs y h.1 k.1)

-- What is not expired at the head of a sorted list is followed by nothing expired.
spent_since_all :
    (now : ℕ) (s : SpendAt) (ss : List SpendAt)
    → expired now s ≡ false
    → All (λ u. s.at ≤ u.at) ss
    → spent_since now ss ≡ sum ss
spent_since_all now s [] e h = refl
spent_since_all now s (u ∷ us) e h = ground (arith, h.0, spent_since_all now s us e h.1)

spent_since_old :
    (now : ℕ) (old ss : List SpendAt)
    → All (IsExpired now) old
    → spent_since now (old ++ ss) ≡ spent_since now ss
spent_since_old now [] ss h = refl
spent_since_old now (s ∷ old) ss h = rw h.0 (omega (arith, spent_since_old now old ss h.1))

IsSorted-suffix : (old ss : List SpendAt) → IsSorted (old ++ ss) → IsSorted ss
IsSorted-suffix [] ss h = h
IsSorted-suffix (s ∷ old) ss h = IsSorted-suffix old ss h.1

-- The loop of prune takes off just the expired spends, and their tokens off the total.
record IsPruned (now : ℕ) (ss kept : List SpendAt) (total : ℕ) : Type 0 where
  old : List SpendAt
  parts : ss ≡ old ++ kept
  gone : All (IsExpired now) old
  counted : total ≡ sum kept
  window : total ≡ spent_since now ss

prune_from-IsPruned :
    (now : ℕ) (ss : List SpendAt)
    → IsSorted ss
    → IsPruned now ss (prune_from now ss (sum ss)).0 (prune_from now ss (sum ss)).1
unfolding prune_from
prune_from-IsPruned now [] h = record {
  old = [];
  parts = refl;
  gone = tt;
  counted = refl;
  window = refl;
}
prune_from-IsPruned now (s ∷ ss) h = elim (Bool-cases (expired now s)) [
  | inl e ↦
      let rest : s.n + sum ss - s.n ≡ sum ss = omega arith in
      let p = prune_from-IsPruned now ss h.1 in
      rw (e, rest)
        (record {
          old = s ∷ p.old;
          parts = ap (λ l. s ∷ l) p.parts;
          gone = (e, p.gone);
          counted = p.counted;
          window = rw e (omega (arith, p.window));
        })
  | inr e ↦ rw e (record {
    old = [];
    parts = refl;
    gone = tt;
    counted = refl;
    window = rw (e, spent_since_all now s ss e h.0);
  })
]

-- A budget at a time: the process has spent `h`, and `held` tokens are reserved.
pub record Represents (now : ℕ) (h : List SpendAt) (held : ℕ) (b : Budget) : Type 0 where
  pub old : List SpendAt
  pub history : h ≡ old ++ b.spent
  pub gone : All (λ s. expired now s ≡ true) old
  pub counted : b.total ≡ sum b.spent
  pub reserved : b.reserved ≡ held
  pub sorted : IsSorted h
  pub past : All (λ s. s.at ≤ now) h

module _ {now held : ℕ} {h : List SpendAt} (b : Budget) (r : Represents now h held b) where
  held_as : (held' : ℕ) → Represents now h held' (record b { reserved = held' })
  held_as held' = record {
    old = r.old;
    history = r.history;
    gone = r.gone;
    counted = r.counted;
    reserved = refl;
    sorted = r.sorted;
    past = r.past;
  }

  reserve-Represents :
      (want : ℕ)
      → let granted = leb (b.total + held + want) b.limit in
        ((reserve want b).1 ≡ granted)
        × Represents now h (if granted then held + want else held) (reserve want b).0
  reserve-Represents want = elim (Bool-cases (leb (b.total + held + want) b.limit)) [
    | inl e ↦
        let t : ltb b.limit (b.total + b.reserved + want) ≡ false = ground (arith, r.reserved) in
        rw (e, t, r.reserved) (refl, held_as (held + want))
    | inr e ↦
        let t : ltb b.limit (b.total + b.reserved + want) ≡ true = ground (arith, r.reserved) in
        rw (e, t) (refl, r)
  ]

  settle-Represents :
      (time want actual : ℕ)
      → now ≤ time
      → Represents time
          (h ++ record { at = time; n = actual } ∷ [])
          (held - want)
          (settle time want actual b)
  settle-Represents time want actual later =
      let past = All-imp (Before now) (Before time) h (λ s k. omega arith) r.past in
      record {
        old = r.old;
        history =
            ap (λ l. l ++ record { at = time; n = actual } ∷ []) r.history
            ∙ append_assoc r.old b.spent _;
        gone = All-imp (IsExpired now) (IsExpired time) r.old (λ s e. ground arith) r.gone;
        counted =
            omega (arith, r.counted, sum-append b.spent (record { at = time; n = actual } ∷ []));
        reserved = ap (λ (n : ℕ). n - want) r.reserved;
        sorted = IsSorted-snoc h (record { at = time; n = actual }) r.sorted past;
        past = All-append _ h _ past (omega arith, tt);
      }

module _ {now now' held : ℕ} {h : List SpendAt} {b : Budget} (later : now ≤ now') where
  prune-window :
      Represents now h held b
      → Represents now' h held (prune now' b) × ((prune now' b).total ≡ spent_since now' h)
  unfolding prune
  prune-window r =
      let sorted = IsSorted-suffix r.old b.spent (subst IsSorted r.history r.sorted) in
      let p = prune_from-IsPruned now' b.spent sorted in
      let gone = All-imp (IsExpired now) (IsExpired now') r.old (λ s e. ground arith) r.gone in
      rw r.counted (
        record {
          old = r.old ++ p.old;
          history = r.history ∙ ap (λ l. r.old ++ l) p.parts ∙ sym (append_assoc r.old p.old _);
          gone = All-append _ r.old p.old gone p.gone;
          counted = p.counted;
          reserved = r.reserved;
          sorted = r.sorted;
          past = All-imp (Before now) (Before now') h (λ s k. omega arith) r.past;
        },
        p.window
            ∙ sym (spent_since_old now' r.old b.spent gone)
            ∙ ap (spent_since now') (sym r.history),
      )

  -- `allow` grants a request exactly when what the last hour spent, what is reserved and the request
  -- are within the limit, and then holds it.
  pub allow-Represents :
      (want : ℕ)
      → Represents now h held b
      → let granted = leb (spent_since now' h + held + want) b.limit in
        ((allow now' want b).1 ≡ granted)
        × Represents now' h (if granted then held + want else held) (allow now' want b).0
  unfolding allow
  allow-Represents want r =
      let (r', window) = prune-window r in rw (← window) (reserve-Represents (prune now' b) r' want)

  -- `spend` gives back a reservation and enters what was used into the history.
  pub spend-Represents :
      (time want actual : ℕ)
      → now' ≤ time
      → Represents now h held b
      → Represents time
          (h ++ record { at = time; n = actual } ∷ [])
          (held - want)
          (spend now' time want actual b)
  unfolding spend
  spend-Represents time want actual l r =
      settle-Represents (prune now' b) (prune-window r).0 time want actual l

  -- `remaining` is what the limit leaves besides the last hour's spends and the reservations.
  pub remaining-Represents :
      Represents now h held b
      → ((remaining now' b).1 ≡ b.limit - (spent_since now' h + held))
        × Represents now' h held (remaining now' b).0
  unfolding remaining
  remaining-Represents r =
      let (r', window) = prune-window r in (rw (window, r'.reserved) (ground arith), r')

-- As time goes on, less of a history lies in the last hour.
pub spent_since_mono :
    (now now' : ℕ) (h : List SpendAt) → now ≤ now' → spent_since now' h ≤ spent_since now h
spent_since_mono now now' [] l = omega arith
spent_since_mono now now' (s ∷ ss) l = ground (arith, spent_since_mono now now' ss l)

pub spent_since-snoc :
    (now m : ℕ) (h : List SpendAt)
    → spent_since now (h ++ record { at = now; n = m } ∷ []) ≡ spent_since now h + m
spent_since-snoc now m [] = ground arith
spent_since-snoc now m (s ∷ ss) = omega (arith, spent_since-snoc now m ss)
