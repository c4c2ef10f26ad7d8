-- ===== src/Metric/GoldSet.antt =====
-- The gold set of a declaration: every region that meets it, and one that overlaps it most.
use codetrail.Prelude.{
  ℕ, ◌+◌, ◌≤◌, ◌≡◌, refl, ◌⊎◌, inl, inr, Bool, false, not, ◌||◌, List, [], ◌∷◌, map, min, max, sym,
  ◌∙◌, ap, arith, All, Any, All-imp, Bool-cases, Bytes, eqb, eqb_eq, eqb_iff, ltb,
}
use codetrail.Prelude.Int.{ℤ, pos, negsuc, ◌-ℤ◌, ◌≤ℤ◌, ltb_ℤ, -ℤ_parts}
use codetrail.Prelude.Sort.{sort_by, All-sort_by, Any-sort_by}
use codetrail.Metric.Defs.{Region, Hit, hits_of, hit_less, Best, strict_from, no_best, gold}

module _ (path : Bytes) (start last : ℕ) where
  abbrev pub Meets : Region → Type 0
  Meets s = (s.path ≡ path) × (start ≤ s.last) × (s.start ≤ last)

  abbrev pub overlap_of : Region → ℤ
  overlap_of s = pos (min last s.last + 1) -ℤ pos (max start s.start)

  abbrev IsHit : List Region → Hit → Type 0
  IsHit spans h = Meets h.region × (h.overlap ≡ overlap_of h.region) × Any (λ t. t ≡ h.region) spans

  passed_over : Region → Bool
  passed_over s = not (eqb s.path path) || (ltb s.last start || ltb last s.start)

  passed_over-Meets : (s : Region) → passed_over s ≡ false → Meets s
  unfolding passed_over
  passed_over-Meets s h = (eqb_eq s.path path (ground arith), ground arith, ground arith)

  not_passed : (s : Region) → Meets s → passed_over s ≡ false
  unfolding passed_over
  not_passed s h = ground (arith, eqb_iff s.path path)

  hits_of_sound : (spans : List Region) → All (IsHit spans) (hits_of path start last spans)
  unfolding hits_of passed_over
  hits_of_sound [] = tt
  hits_of_sound (s ∷ ss) =
      let rest =
        All-imp (IsHit ss) (IsHit (s ∷ ss)) (hits_of path start last ss)
          (λ h k. (k.0, k.1, inr k.2)) (hits_of_sound ss) in
      elim (Bool-cases (passed_over s)) [
        | inl out ↦ rw out rest
        | inr met ↦ rw met ((passed_over-Meets s met, refl, inl refl), rest)
      ]

  hits_of_complete :
      (spans : List Region) (s : Region)
      → Any (λ t. t ≡ s) spans
      → Meets s
      → Any (λ h. (h.region ≡ s) × (h.overlap ≡ overlap_of s)) (hits_of path start last spans)
  unfolding hits_of passed_over
  hits_of_complete [] s m h = absurd m
  hits_of_complete (x ∷ xs) s (inl e) h = rw (e, not_passed s h) (inl (refl, refl))
  hits_of_complete (x ∷ xs) s (inr m) h = elim (Bool-cases (passed_over x)) [
    | inl out ↦ rw out (hits_of_complete xs s m h)
    | inr met ↦ rw met (inr (hits_of_complete xs s m h))
  ]

-- What the loop over the hits ends with.
record IsBest (b : Best) (hs : List Hit) (r : Best) : Type 0 where
  start_le : b.overlap ≤ℤ r.overlap
  all_le : All (λ h. h.overlap ≤ℤ r.overlap) hs
  found : (r ≡ b) ⊎ Any (λ h. (h.region.id ≡ r.id) × (h.overlap ≡ r.overlap)) hs

strict_from-IsBest : (b : Best) (hs : List Hit) → IsBest b hs (strict_from b hs)
unfolding strict_from
strict_from-IsBest b [] = record { start_le = omega arith; all_le = tt; found = inl refl }
strict_from-IsBest b (h ∷ hs) = elim (Bool-cases (ltb_ℤ b.overlap h.overlap)) [
  | inl more ↦
      let c : Best = record { id = h.region.id; overlap = h.overlap } in
      let r = strict_from-IsBest c hs in
      rw more (record {
        start_le = ground (arith, r.start_le);
        all_le = (r.start_le, r.all_le);
        found = inr (elim r.found [
          | inl e ↦ inl (ap (λ (x : Best). x.id) (sym e), ap (λ (x : Best). x.overlap) (sym e))
          | inr a ↦ inr a
        ]);
      })
  | inr less ↦
      let r = strict_from-IsBest b hs in
      rw less (record {
        start_le = r.start_le;
        all_le = (ground (arith, r.start_le), r.all_le);
        found = elim r.found [ inl e ↦ inl e | inr a ↦ inr (inr a) ];
      })
]

Any-map :
    {A B : Type 0} (P : A → Type 0) (Q : B → Type 0) (f : A → B) (xs : List A)
    → ((a : A) → P a → Q (f a))
    → Any P xs
    → Any Q (map f xs)
Any-map P Q f [] h k = k
Any-map P Q f (x ∷ xs) h (inl k) = inl (h x k)
Any-map P Q f (x ∷ xs) h (inr k) = inr (Any-map P Q f xs h k)

All-map :
    {A B : Type 0} (P : A → Type 0) (Q : B → Type 0) (f : A → B) (xs : List A)
    → ((a : A) → P a → Q (f a))
    → All P xs
    → All Q (map f xs)
All-map P Q f [] h k = tt
All-map P Q f (x ∷ xs) h k = (h x k.0, All-map P Q f xs h k.1)

All-Any {ℓ} :
    {A : Type ℓ} (P Q R : A → Type 0) (xs : List A)
    → ((a : A) → P a → Q a → R a)
    → All P xs
    → Any Q xs
    → (a : A) × R a
All-Any P Q R [] f h k = absurd k
All-Any P Q R (x ∷ xs) f h (inl k) = (x, f x h.0 k)
All-Any P Q R (x ∷ xs) f h (inr k) = All-Any P Q R xs f h.1 k

module _ (path : Bytes) (start last : ℕ) (spans : List Region) where
  overlap_pos :
      (s : Region)
      → Meets path start last s
      → start ≤ last
      → s.start ≤ s.last
      → pos 1 ≤ℤ overlap_of path start last s
  overlap_pos s m h k =
      omega (arith, -ℤ_parts (pos (min last s.last + 1)) (pos (max start s.start)))

  -- The best of hits, one of which overlaps at all, is a hit that no other overlaps more than.
  strict-greatest :
      (hs : List Hit) (s : Region)
      → All (IsHit path start last spans) hs
      → Any (λ h. (h.region ≡ s) × (h.overlap ≡ overlap_of path start last s)) hs
      → pos 1 ≤ℤ overlap_of path start last s
      → (t : Region) × Meets path start last t
        × Any (λ u. u ≡ t) spans
        × (t.id ≡ (strict_from no_best hs).id)
        × (overlap_of path start last s ≤ℤ overlap_of path start last t)
  strict-greatest hs s sound there one' =
      let r = strict_from no_best hs in
      let b = strict_from-IsBest no_best hs in
      let (_, le) =
        All-Any (λ h. h.overlap ≤ℤ r.overlap)
          (λ h. (h.region ≡ s) × (h.overlap ≡ overlap_of path start last s))
          (λ h. overlap_of path start last s ≤ℤ r.overlap) hs (λ h k e. rw (← e.1) k) b.all_le
          there in
      elim b.found [
        | inl none' ↦
            absurd
              (let z : r.overlap ≡ negsuc 0 = ap (λ (x : Best). x.overlap) none' in ground arith)
        | inr f ↦
            let (h, k) =
              All-Any (IsHit path start last spans)
                (λ h. (h.region.id ≡ r.id) × (h.overlap ≡ r.overlap))
                (λ h.
                  Meets path start last h.region
                  × Any (λ u. u ≡ h.region) spans
                  × (h.region.id ≡ r.id)
                  × (overlap_of path start last h.region ≡ r.overlap))
                hs (λ h a e. (a.0, a.2, e.0, sym a.1 ∙ e.1)) sound f in
            (h.region, k.0, k.1, k.2, rw k.3 le)
      ]

-- A region of the gold set, named by its id.
abbrev pub IsGoldId : Bytes → ℕ → ℕ → List Region → Bytes → Type 0
IsGoldId path start last spans id =
    (t : Region) × Meets path start last t × (t.id ≡ id) × Any (λ u. u ≡ t) spans

-- The lenient gold set holds only ids of regions of the file that meet the range.
pub gold-IsGoldId :
    (path : Bytes) (start last : ℕ) (spans : List Region)
    → All (IsGoldId path start last spans) (gold path start last spans).0
unfolding gold
gold-IsGoldId path start last spans =
    let all = hits_of path start last spans in
    All-map (IsHit path start last spans) (IsGoldId path start last spans) (λ h. h.region.id)
      (sort_by hit_less all) (λ h k. (h.region, k.0, refl, k.2))
      (All-sort_by hit_less (IsHit path start last spans) all (hits_of_sound path start last spans))

-- A region of the file that meets the range, neither of which ends before it starts, is in the
-- lenient gold set, and the strict id is that of one of the regions that meets the range and overlaps it at
-- least as much.
pub gold-greatest :
    (path : Bytes) (start last : ℕ) (spans : List Region) (s : Region)
    → Any (λ t. t ≡ s) spans
    → Meets path start last s
    → start ≤ last
    → s.start ≤ s.last
    → Any (λ id. id ≡ s.id) (gold path start last spans).0
      × ((t : Region) × Meets path start last t
          × Any (λ u. u ≡ t) spans
          × (t.id ≡ (gold path start last spans).1)
          × (overlap_of path start last s ≤ℤ overlap_of path start last t))
unfolding gold
gold-greatest path start last spans s m meets h1 h2 =
    let all = hits_of path start last spans in
    let hits = sort_by hit_less all in
    let sound =
      All-sort_by hit_less (IsHit path start last spans) all
        (hits_of_sound path start last spans) in
    let there = Any-sort_by hit_less _ all (hits_of_complete path start last spans s m meets) in
    (
      Any-map _ (λ id. id ≡ s.id) (λ h. h.region.id) hits (λ h k. ap (λ (x : Region). x.id) k.0)
          there,
      strict-greatest path start last spans hits s sound there
          (overlap_pos path start last spans s meets h1 h2),
    )
