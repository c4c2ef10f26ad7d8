-- ===== src/Jobs/Table.antt =====
-- What holds of the table between statements, and that every statement keeps it.
use codetrail.Prelude.{
  ℕ, ◌≡◌, ◌≢◌, refl, sym, ◌∙◌, ◌⊎◌, inl, inr, Bool, true, false, ◌&&◌, none, List, [], ◌∷◌, Bytes,
  arith, All, Bool-cases, if◌then◌else◌,
}
use codetrail.Prelude.Int.{ℤ, pos, leb_ℤ}
use codetrail.Jobs.Queue.{
  Status, Row, pending, leased, done, failed, is_active, conflicts, update_where, lease_row, holds,
  complete_row, fail_row,
}

-- A row has a holder exactly while it is leased, and a leased row says until when.
pub record IsRowValid (r : Row) : Type 0 where
  pub held : r.status ≡ leased → (r.leased_by ≢ none) × (r.leased_until ≢ none)
  pub free : r.status ≢ leased → r.leased_by ≡ none

module _ (lower : Bytes → Bytes) where
  -- Two rows have different ids, and are not both active for one repository and ref.
  pub record AreApart (r s : Row) : Type 0 where
    pub ids : r.id ≢ s.id
    pub keys : is_active r.status ≡ true → conflicts lower r.remote r.ref s ≡ false

  abbrev pub Apart : List Row → Type 0
  Apart [] = Unit
  Apart (r ∷ rs) = All (AreApart r) rs × Apart rs

  pub record IsTable (rows : List Row) : Type 0 where
    pub valid : All IsRowValid rows
    pub apart : Apart rows

-- An update that keeps a row's identity and activates nothing.
pub record Keeps (f : Row → Row) : Type 0 where
  pub id : (r : Row) → (f r).id ≡ r.id
  pub remote : (r : Row) → (f r).remote ≡ r.remote
  pub ref : (r : Row) → (f r).ref ≡ r.ref

module _ (p : Row → Bool) (f : Row → Row) (k : Keeps f) where
  -- The update does not make an inactive row active.
  abbrev pub Still : Row → Type 0
  Still r = p r ≡ true → is_active (f r).status ≡ true → is_active r.status ≡ true

  abbrev updated : Row → Row
  updated r = if p r then f r else r

  updated-keeps :
      (r : Row)
      → Still r
      → ((updated r).id ≡ r.id)
        × ((updated r).remote ≡ r.remote)
        × ((updated r).ref ≡ r.ref)
        × (is_active (updated r).status ≡ true → is_active r.status ≡ true)
  updated-keeps r still = elim (Bool-cases (p r)) [
    | inl hit ↦ rw hit (k.id r, k.remote r, k.ref r, still hit)
    | inr miss ↦ rw miss (refl, refl, refl, λ h. h)
  ]

  module _ (lower : Bytes → Bytes) where
    AreApart-updated :
        (r s : Row)
        → Still r
        → Still s
        → AreApart lower r s
        → AreApart lower (updated r) (updated s)
    unfolding conflicts
    AreApart-updated r s st st' h =
        let (i, m, f, a) = updated-keeps r st in
        let (i', m', f', a') = updated-keeps s st' in
        record {
          ids = λ e. h.ids (sym i ∙ e ∙ i');
          keys = λ act.
              rw (m, f, m', f')
                (inactive (is_active (updated s).status) (is_active s.status) _ a'
                  (h.keys (a act)));
        }
      where
        inactive : (b' b c : Bool) → (b' ≡ true → b ≡ true) → (b && c) ≡ false → (b' && c) ≡ false
        inactive true b c h e = rw (h refl) at e
        inactive false b c h e = refl

    pub Apart-update_where :
        (rows : List Row) → All Still rows → Apart lower rows → Apart lower (update_where p f rows)
    unfolding update_where
    Apart-update_where [] st h = tt
    Apart-update_where (r ∷ rs) st h = (each rs st.1 h.0, Apart-update_where rs st.1 h.1)
      where
        each :
            (rs : List Row)
            → All Still rs
            → All (AreApart lower r) rs
            → All (AreApart lower (updated r)) (update_where p f rs)
        each [] st' h = tt
        each (s ∷ rs) st' h = (AreApart-updated r s st.0 st'.0 h.0, each rs st'.1 h.1)

module _ (p : Row → Bool) (f : Row → Row) where
  pub All-update_where :
      (P : Row → Type 0)
      → ((r : Row) → p r ≡ true → P r → P (f r))
      → (rows : List Row) → All P rows
      → All P (update_where p f rows)
  unfolding update_where
  All-update_where P hp [] h = tt
  All-update_where P hp (r ∷ rs) h = elim (Bool-cases (p r)) [
    | inl hit ↦ rw hit (hp r hit h.0, All-update_where P hp rs h.1)
    | inr miss ↦ rw miss (h.0, All-update_where P hp rs h.1)
  ]

pub lease_row-Keeps : (now : ℕ) (worker : Bytes) (d : ℕ) → Keeps (lease_row now worker d)
unfolding lease_row
lease_row-Keeps now worker d = record { id = λ r. refl; remote = λ r. refl; ref = λ r. refl }

pub complete_row-Keeps : (now : ℕ) (repo_id : Bytes) → Keeps (complete_row now repo_id)
unfolding complete_row
complete_row-Keeps now repo_id = record { id = λ r. refl; remote = λ r. refl; ref = λ r. refl }

pub fail_row-Keeps : (rb rm now : ℕ) (m : ℤ) (reason : Bytes) → Keeps (fail_row rb rm now m reason)
unfolding fail_row
fail_row-Keeps rb rm now m reason = record {
  id = λ r. ground arith;
  remote = λ r. ground arith;
  ref = λ r. ground arith;
}

pub lease_row-IsRowValid :
    (now : ℕ) (worker : Bytes) (d : ℕ) (r : Row) → IsRowValid (lease_row now worker d r)
unfolding lease_row
lease_row-IsRowValid now worker d r = record {
  held = λ e. ((λ z. cc), λ z. cc);
  free = λ n. absurd (n refl);
}

pub complete_row-IsRowValid :
    (now : ℕ) (repo_id : Bytes) (r : Row) → IsRowValid (complete_row now repo_id r)
unfolding complete_row
complete_row-IsRowValid now repo_id r = record { held = λ e. cc; free = λ n. refl }

pub fail_row-IsRowValid :
    (rb rm now : ℕ) (m : ℤ) (reason : Bytes) (r : Row) → IsRowValid (fail_row rb rm now m reason r)
unfolding fail_row
fail_row-IsRowValid rb rm now m reason r = elim (Bool-cases (leb_ℤ m (pos r.attempts))) [
  | inl over ↦ rw over (record { held = λ e. cc; free = λ n. refl })
  | inr room ↦ rw room (record { held = λ e. cc; free = λ n. refl })
]

-- A held row is leased.
pub held-active :
    (id worker : Bytes) (r : Row) → IsRowValid r → holds id worker r ≡ true → r.status ≡ leased
unfolding holds
held-active id worker r v h = elim (status_cases r.status) [
  | inl yes' ↦ yes'
  | inr no' ↦ let n = v.free no' in ground arith
]
  where
    status_cases : (s : Status) → (s ≡ leased) ⊎ (s ≢ leased)
    status_cases leased = inl refl
    status_cases pending = inr (λ e. cc)
    status_cases done = inr (λ e. cc)
    status_cases failed = inr (λ e. cc)
