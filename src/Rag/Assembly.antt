-- ===== src/Rag/Assembly.antt =====
-- About Assemble: which spans an answer shows, how it shows them, and its budget.
use mathlib.Core.List.{append_assoc, append-nil}
use codetrail.Prelude.{
  ℕ, zero, suc, ◌+◌, ◌≤◌, ◌&&◌, ◌||◌, true, false, ◌≡◌, refl, sym, ap, ◌∙◌, subst, ◌⊎◌, inl, inr,
  arith, none, some, List, [], ◌∷◌, ◌++◌, length, length-append, take, ltb, if◌then◌else◌, Bytes,
  codes, join, Bool-cases, Option-cases,
}
use codetrail.Prelude.Int.{pos, ◌≤ℤ◌, leb_ℤ, ltb_ℤ}
use codetrail.Models.{Repo, Span}
use codetrail.Rag.Fuse.{Fused}
use codetrail.Rag.Retrieve.{span_at}
use codetrail.Rag.Cite.{Outside, Newer}
use codetrail.Rag.Answer.{
  Budget, Cited, Answer, render, cite, block, over, extend, assemble_from, assemble,
}

-- The spans of the hits that have one, in the order of the hits.
abbrev pub present : {F : Type 0} → List (Bytes × Span) → List (Fused F) → List Span
present spans [] = []
present spans (h ∷ hs) = elim (span_at spans h.span_id) [
  | none ↦ present spans hs
  | some sp ↦ sp ∷ present spans hs
]

-- Spans under the markers from n on.
abbrev pub blocks : ℕ → List Span → List Bytes
blocks n [] = []
blocks n (s ∷ ss) = render n s ∷ blocks (suc n) ss

abbrev pub cites : Outside → Repo → Newer → ℕ → ℕ → List Span → List Cited
cites o r newer now n [] = []
cites o r newer now n (s ∷ ss) = cite o r newer now n s ∷ cites o r newer now (suc n) ss

-- The answer shows just these spans, each whole, under the markers 1, 2, and so on.
pub record Shows (o : Outside) (r : Repo) (newer : Newer) (now : ℕ) (ss : List Span) (a : Answer)
    : Type 0 where
  pub text_shown : a.text ≡ join (blocks 1 ss) (codes "\n\n")
  pub cites_shown : a.citations ≡ cites o r newer now 1 ss

blocks-append :
    (n m : ℕ) (ss : List Span) (s : Span)
    → m ≡ length ss + n
    → blocks n (ss ++ s ∷ []) ≡ blocks n ss ++ render m s ∷ []
blocks-append n m [] s e = let e' : m ≡ n = omega arith in rw e'
blocks-append n m (t ∷ ss) s e =
    ap (λ bs. render n t ∷ bs) (blocks-append (suc n) m ss s (omega arith))

join-append :
    (x : Bytes) (xs : List Bytes) (y sep : Bytes)
    → join ((x ∷ xs) ++ y ∷ []) sep ≡ (join (x ∷ xs) sep ++ sep) ++ y
unfolding join
join-append x [] y sep = refl
join-append x (z ∷ xs) y sep = rw (join-append z xs y sep) (simp append_assoc)

render-ne : (n : ℕ) (s : Span) (rest : Bytes) → ltb 0 (length (render n s ++ rest)) ≡ true
unfolding render
render-ne n s rest = ground arith

join-ne :
    (n : ℕ) (s : Span) (bs : List Bytes) (sep : Bytes)
    → ltb 0 (length (join (render n s ∷ bs) sep)) ≡ true
unfolding join
join-ne n s [] sep = subst (λ t. ltb 0 (length t) ≡ true) (append-nil _) (render-ne n s [])
join-ne n s (b ∷ bs) sep = rw (append_assoc (render n s) sep (join (b ∷ bs) sep)) (render-ne n s _)

module _ (o : Outside) (r : Repo) (newer : Newer) (now : ℕ) where
  cites-append :
      (n m : ℕ) (ss : List Span) (s : Span)
      → m ≡ length ss + n
      → cites o r newer now n (ss ++ s ∷ [])
        ≡ cites o r newer now n ss ++ cite o r newer now m s ∷ []
  cites-append n m [] s e = let e' : m ≡ n = omega arith in rw e'
  cites-append n m (t ∷ ss) s e =
      ap (λ cs. cite o r newer now n t ∷ cs) (cites-append (suc n) m ss s (omega arith))

  length-cites : (n : ℕ) (ss : List Span) → length (cites o r newer now n ss) ≡ length ss
  length-cites n [] = refl
  length-cites n (s ∷ ss) = ap suc (length-cites (suc n) ss)

  -- One span more.
  extend-text :
      (ss : List Span) (s : Span)
      → let j = join (blocks 1 ss) (codes "\n\n") in
        let shown = render (length ss + 1) s in
        j ++ (if ltb 0 (length j) then codes "\n\n" ++ shown else shown)
        ≡ join (blocks 1 (ss ++ s ∷ [])) (codes "\n\n")
  extend-text [] s = unfold join in refl
  extend-text (t ∷ ss) s =
      rw
        (
          join-ne 1 t (blocks 2 ss) (codes "\n\n"),
          blocks-append 2 (length (t ∷ ss) + 1) ss s (omega arith),
          join-append (render 1 t) (blocks 2 ss) (render (length (t ∷ ss) + 1) s) (codes "\n\n"),
        )
        (sym (append_assoc (join (blocks 1 (t ∷ ss)) (codes "\n\n")) (codes "\n\n") _))

  extend-Shows :
      (ss : List Span) (a : Answer) (s : Span)
      → Shows o r newer now ss a
      → Shows o r newer now (ss ++ s ∷ []) (extend o r newer now a s)
  extend-Shows ss a s h =
      let n : length a.citations ≡ length ss = ap length h.cites_shown ∙ length-cites 1 ss in
      record {
        text_shown = rw (n, h.text_shown) (extend-text ss s);
        cites_shown = rw (n, h.cites_shown) (sym (cites-append 1 (length ss + 1) ss s refl));
      }

-- An answer has one citation at most, or is within its budget.
abbrev pub WithinBudget : Budget → Answer → Type 0
WithinBudget b a =
    (length a.citations ≤ 1)
    ⊎ ((pos (length a.citations) ≤ℤ b.max_spans) × (pos (length a.text) ≤ℤ b.max_chars))

-- Beside the spans shown, of which there are some, one more does not fit: they are as many as the budget
-- has, or the text with it would be longer than the budget.
abbrev pub HasNoRoom : Budget → List Span → Span → Type 0
HasNoRoom b ss s =
    (1 ≤ length ss)
    × ((b.max_spans ≤ℤ pos (length ss))
        ⊎ (ltb_ℤ b.max_chars (pos (length (join (blocks 1 (ss ++ s ∷ [])) (codes "\n\n")))) ≡ true))

-- All spans are shown, or the next one does not fit.
abbrev pub ShowsMost : Budget → List Span → List Span → ℕ → Type 0
ShowsMost b before all k =
    (take k all ≡ all)
    ⊎ ((s : Span) × (take (suc k) all ≡ take k all ++ s ∷ [])
        × HasNoRoom b (before ++ take k all) s)

over-HasNoRoom :
    (o : Outside) (r : Repo) (newer : Newer) (now : ℕ) (b : Budget) (ss : List Span) (a : Answer)
    (s : Span)
    → Shows o r newer now ss a
    → over b a s ≡ true
    → HasNoRoom b ss s
unfolding over
over-HasNoRoom o r newer now b ss a s h e =
    let n : length a.citations ≡ length ss =
      ap length h.cites_shown ∙ length-cites o r newer now 1 ss in
    let longer = ap length (extend-Shows o r newer now ss a s h).text_shown in
    let sum = length-append a.text (block a s) in
    parts (length a.citations) (length ss) (length a.text + length (block a s)) _ n
      (sym sum ∙ longer) e
  where
    parts :
        (n m x y : ℕ)
        → n ≡ m
        → x ≡ y
        → (ltb 0 n && (leb_ℤ b.max_spans (pos n) || ltb_ℤ b.max_chars (pos x))) ≡ true
        → (1 ≤ m) × ((b.max_spans ≤ℤ pos m) ⊎ (ltb_ℤ b.max_chars (pos y) ≡ true))
    parts n m x y e q h = let k = rw (e, q) at h in (ground arith, ground arith)

module _ (o : Outside) (r : Repo) (newer : Newer) (now : ℕ) (b : Budget) where
  extend-WithinBudget :
      (a : Answer) (s : Span) → over b a s ≡ false → WithinBudget b (extend o r newer now a s)
  unfolding over
  extend-WithinBudget a s h =
      let n : length (a.citations ++ cite o r newer now (length a.citations + 1) s ∷ [])
          ≡ length a.citations + 1 =
        length-append a.citations _ in
      let m = length-append a.text (block a s) in
      rw (n, m) (fits (length a.citations) (length a.text + length (block a s)) h)
    where
      fits :
          (n m : ℕ)
          → (ltb 0 n && (leb_ℤ b.max_spans (pos n) || ltb_ℤ b.max_chars (pos m))) ≡ false
          → (n + 1 ≤ 1) ⊎ ((pos (n + 1) ≤ℤ b.max_spans) × (pos m ≤ℤ b.max_chars))
      fits zero m h = inl (omega arith)
      fits (suc n) m h = inr (ground arith, ground arith)

abbrev drops : ℕ → Answer → Answer
drops n a = record a { dropped = a.dropped + n }

module _ (o : Outside) (r : Repo) (newer : Newer) (now : ℕ) where
  drops-Shows :
      (n : ℕ) (ss : List Span) (a : Answer)
      → Shows o r newer now ss a
      → Shows o r newer now ss (drops n a)
  drops-Shows n ss a h = record { text_shown = h.text_shown; cites_shown = h.cites_shown }

  length-extend :
      (a : Answer) (s : Span) → length (extend o r newer now a s).citations ≡ length a.citations + 1
  length-extend a s = length-append a.citations _

module _ {F : Type 0} (o : Outside) (r : Repo) (spans : List (Bytes × Span)) (newer : Newer)
    (now : ℕ) (b : Budget) where
  module _ (x : Fused F) (hits : List (Fused F)) (a : Answer) where
    -- The three ways of a round.
    assemble_from_miss :
        span_at spans x.span_id ≡ none
        → assemble_from o r spans newer now b (x ∷ hits) a
          ≡ assemble_from o r spans newer now b hits (drops 1 a)
    unfolding assemble_from
    assemble_from_miss e = rw (e, assemble_from)

    assemble_from_full :
        (s : Span)
        → span_at spans x.span_id ≡ some s
        → over b a s ≡ true
        → assemble_from o r spans newer now b (x ∷ hits) a ≡ drops (length (x ∷ hits)) a
    unfolding assemble_from
    assemble_from_full s e full = rw (e, assemble_from, full)

    assemble_from_room :
        (s : Span)
        → span_at spans x.span_id ≡ some s
        → over b a s ≡ false
        → assemble_from o r spans newer now b (x ∷ hits) a
          ≡ assemble_from o r spans newer now b hits (extend o r newer now a s)
    unfolding assemble_from
    assemble_from_room s e room = rw (e, assemble_from, room)

  assemble_from-WithinBudget :
      (hits : List (Fused F)) (a : Answer)
      → WithinBudget b a
      → WithinBudget b (assemble_from o r spans newer now b hits a)
  assemble_from-WithinBudget [] a h = unfold assemble_from in h
  assemble_from-WithinBudget (x ∷ hits) a h = elim (Option-cases (span_at spans x.span_id)) [
    | inl e ↦ rw (assemble_from_miss x hits a e) (assemble_from-WithinBudget hits (drops 1 a) h)
    | inr (s, e) ↦ elim (Bool-cases (over b a s)) [
      | inl full ↦ rw (assemble_from_full x hits a s e full) h
      | inr room ↦ rw (assemble_from_room x hits a s e room) (
          assemble_from-WithinBudget hits (extend o r newer now a s)
            (extend-WithinBudget o r newer now b a s room))
    ]
  ]

  -- What the loop makes of an answer that shows `ss`.
  abbrev Continues : List (Fused F) → List Span → Answer → Answer → Type 0
  Continues hits ss a out =
      (k : ℕ) × Shows o r newer now (ss ++ take k (present spans hits)) out
      × ShowsMost b ss (present spans hits) k
      × (length out.citations + out.dropped ≡ length a.citations + a.dropped + length hits)

  assemble_from-Continues :
      (hits : List (Fused F)) (ss : List Span) (a : Answer)
      → Shows o r newer now ss a
      → Continues hits ss a (assemble_from o r spans newer now b hits a)
  assemble_from-Continues [] ss a h =
      unfold assemble_from in (0, rw (append-nil ss) h, inl refl, omega arith)
  assemble_from-Continues (x ∷ hits) ss a h = elim (Option-cases (span_at spans x.span_id)) [
    | inl e ↦
        let (k, shown, most, count) =
          assemble_from-Continues hits ss (drops 1 a) (drops-Shows o r newer now 1 ss a h) in
        rw (assemble_from_miss x hits a e, e, present) (k, shown, most, omega arith)
    | inr (s, e) ↦ elim (Bool-cases (over b a s)) [
      | inl full ↦
          rw (assemble_from_full x hits a s e full, e, present)
            (
              0,
              rw (append-nil ss) (drops-Shows o r newer now (length (x ∷ hits)) ss a h),
              stops s (present spans hits) (over-HasNoRoom o r newer now b ss a s h full),
              omega arith,
            )
      | inr room ↦
          let (k, shown, most, count) =
            assemble_from-Continues hits (ss ++ s ∷ []) (extend o r newer now a s)
              (extend-Shows o r newer now ss a s h) in
          rw (assemble_from_room x hits a s e room, e, present)
            (
              suc k,
              rw (← append_assoc ss (s ∷ []) (take k (present spans hits))) shown,
              goes_on s k (present spans hits) most,
              omega (arith, length-extend o r newer now a s),
            )
    ]
  ]
    where
      stops : (s : Span) (more : List Span) → HasNoRoom b ss s → ShowsMost b ss (s ∷ more) 0
      stops s more k = inr (s, refl, subst (λ l. HasNoRoom b l s) (sym (append-nil ss)) k)

      goes_on :
          (s : Span) (k : ℕ) (more : List Span)
          → ShowsMost b (ss ++ s ∷ []) more k
          → ShowsMost b ss (s ∷ more) (suc k)
      goes_on s k more (inl e) = inl (ap (λ l. s ∷ l) e)
      goes_on s k more (inr (s', e, full)) = inr (
        s',
        ap (λ l. s ∷ l) e,
        subst (λ l. HasNoRoom b l s') (append_assoc ss (s ∷ []) (take k more)) full,
      )

  -- The answer shows the spans of the best ranked hits that have one, each of them whole, under
  -- the markers 1, 2, and so on, with a citation of each, and stops before one only where it shows
  -- some and the next is past the budget on spans or on characters; and every hit is cited or counted
  -- as dropped. It has one citation at most, or is within both budgets.
  pub assemble-Shows :
      (hits : List (Fused F))
      → ((k : ℕ) × Shows o r newer now
            (take k (present spans hits))
            (assemble o r spans newer hits now b)
          × ShowsMost b [] (present spans hits) k)
        × (length (assemble o r spans newer hits now b).citations
              + (assemble o r spans newer hits now b).dropped
            ≡ length hits)
        × WithinBudget b (assemble o r spans newer hits now b)
  unfolding assemble
  assemble-Shows hits =
      let empty : Answer = record { text = []; citations = []; dropped = 0 } in
      let (k, shown, most, count) =
        assemble_from-Continues hits [] empty
          (unfold join in record { text_shown = refl; cites_shown = refl }) in
      ((k, shown, most), omega arith, assemble_from-WithinBudget hits empty (inl (omega arith)))
