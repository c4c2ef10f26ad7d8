-- ===== src/Chunk/Tiling.antt =====
-- The windows of chunk.go's `windows`: exact, bounded, and without a gap.
use codetrail.Prelude.{
  ℕ, zero, ◌+◌, ◌-◌, ◌≤◌, ◌<◌, min, ◌≡◌, refl, inl, inr, false, Option, some, List, [], ◌∷◌, length,
  leb, Bytes, arith, All, Any, take, drop, join, Bool-cases, All-imp, ◌≢◌, suc, ok,
}
use native.Mathlib.Decide.{dec_le, ℕ_discrete}
use codetrail.Prelude.Int.{ℤ, pos, negsuc, ◌-ℤ◌, leb_ℤ, ltb_ℤ}
use codetrail.Models.{kind_file}
use codetrail.Chunk.Defs.{
  Options, Chunk, validate, newline, text_of, window_at, cons_until, tile, tile_by, windows,
}

-- A chunk's text is exactly the lines that its range names, and the range lies in `from..to`.
pub record IsExact (ls : List Bytes) (from to : ℕ) (c : Chunk) : Type 0 where
  pub from_le : from ≤ c.start_line
  pub ordered : c.start_line ≤ c.end_line
  pub le_to : c.end_line ≤ to
  pub text_lines : text_of ls c.start_line c.end_line ≡ some c.text

abbrev pub Contains : ℕ → Chunk → Type 0
Contains n c = (c.start_line ≤ n) × (n ≤ c.end_line)

pub text_of-total :
    (ls : List Bytes) (start last : ℕ)
    → 1 ≤ start
    → start ≤ last
    → last ≤ length ls
    → (t : Bytes) × (text_of ls start last ≡ some t)
unfolding text_of
text_of-total ls zero last h k l = absurd (omega arith)
text_of-total ls (suc lo) last h k l =
    (join (take (last - lo) (drop lo ls)) (newline ∷ []), ground arith)

-- One round makes an exact window of at most `w` lines, as long as it can be.
window_at_total :
    (ls : List Bytes) (w start to : ℕ)
    → 1 ≤ w
    → 1 ≤ start
    → start ≤ to
    → to ≤ length ls
    → (c : Chunk) × (window_at ls (pos w) start to ≡ some c)
      × (c.start_line ≡ start)
      × (c.end_line ≡ min (start + w - 1) to)
      × (c.kind ≡ kind_file)
      × (text_of ls start (min (start + w - 1) to) ≡ some c.text)
unfolding window_at
window_at_total ls w start to hw hs ht hl =
    let last = min (start + w - 1) to in
    let (t, e) = text_of-total ls start last hs (omega arith) (omega arith) in
    (
      record { kind = kind_file; symbol = []; start_line = start; end_line = last; text = t },
      rw e,
      refl,
      refl,
      refl,
      e,
    )

-- The windows from `start` on: exact, at most `w` long, and every line from `start` is in one.
pub record IsTiling (ls : List Bytes) (w start to : ℕ) (cs : List Chunk) : Type 0 where
  pub exact : All (IsExact ls start to) cs
  pub short : All (λ c. c.end_line < c.start_line + w) cs
  pub covers : (n : ℕ) → start ≤ n → n ≤ to → Any (Contains n) cs

widen :
    (ls : List Bytes) (from mid to : ℕ)
    → from ≤ mid
    → (c : Chunk) → IsExact ls mid to c
    → IsExact ls from to c
widen ls from mid to h c e = record {
  from_le = omega arith;
  ordered = e.ordered;
  le_to = e.le_to;
  text_lines = e.text_lines;
}

module _ (ls : List Bytes) (w to start : ℕ) (c : Chunk) (hs : c.start_line ≡ start)
    (he : c.end_line ≡ min (start + w - 1) to) (hw : 1 ≤ w) (h1 : 1 ≤ start) (ht : start ≤ to)
    (ht' : text_of ls start (min (start + w - 1) to) ≡ some c.text) where
  first-IsExact : IsExact ls start to c
  first-IsExact = record {
    from_le = omega arith;
    ordered = omega arith;
    le_to = omega arith;
    text_lines = rw (hs, he) ht';
  }

  IsTiling-last : c.end_line ≡ to → IsTiling ls w start to (c ∷ [])
  IsTiling-last e = record {
    exact = (first-IsExact, tt);
    short = (omega arith, tt);
    covers = λ n p q. inl (omega arith);
  }

  IsTiling-cons :
      (stride : ℕ) (cs : List Chunk)
      → stride ≤ w
      → c.end_line ≢ to
      → IsTiling ls w (start + stride) to cs
      → IsTiling ls w start to (c ∷ cs)
  IsTiling-cons stride cs hle ne r = record {
    exact = (
      first-IsExact,
      All-imp (IsExact ls (start + stride) to) (IsExact ls start to) cs
          (widen ls start (start + stride) to (omega arith)) r.exact,
    );
    short = (omega arith, r.short);
    covers = λ n p q. elim (dec_le n c.end_line) [
      | yes inside ↦ inl (omega arith)
      | no beyond ↦ inr (r.covers n (omega arith) q)
    ];
  }

-- What the loop of `windows` returns from `start` on.
abbrev pub Tiled : List Bytes → ℕ → ℕ → ℕ → Option (List Chunk) → Type 0
Tiled ls w start to r = (cs : List Chunk) × (r ≡ some cs) × IsTiling ls w start to cs

module _ (ls : List Bytes) (w stride to : ℕ) (h1 : 1 ≤ stride) (h2 : stride ≤ w)
    (h4 : to ≤ length ls) where
  Tiled-round :
      (start : ℕ) (rest : Option (List Chunk))
      → 1 ≤ start
      → start ≤ to
      → Tiled ls w (start + stride) to rest
      → Tiled ls w start to (cons_until to rest (window_at ls (pos w) start to))
  Tiled-round start rest h3 ht ih =
      let (c, e, es, el, k, et) = window_at_total ls w start to (omega arith) h3 ht h4 in
      elim (ℕ_discrete c.end_line to) [
        | yes p ↦ (
          c ∷ [],
          rw e (ground arith),
          IsTiling-last ls w to start c es el (omega arith) h3 ht et p,
        )
        | no p ↦
            let (cs, er, t) = ih in
            (
              c ∷ cs,
              rw (e, er) (ground arith),
              IsTiling-cons ls w to start c es el (omega arith) h3 ht et stride cs h2 p t,
            )
      ]

  tile-Tiled :
      (fuel start : ℕ)
      → 1 ≤ start
      → 1 ≤ fuel
      → to + 1 < fuel + start
      → Tiled ls w start to (tile fuel ls (pos w) stride start to)
  unfolding tile
  tile-Tiled zero start h3 hf h5 = absurd (omega arith)
  tile-Tiled (suc fuel) start h3 hf h5 = elim (Bool-cases (leb start to)) [
    | inr past ↦
        ([], rw past, record { exact = tt; short = tt; covers = λ n p q. absurd (ground arith) })
    | inl on ↦ rw on (
        Tiled-round start (tile fuel ls (pos w) stride (start + stride) to) h3 (ground arith)
          (tile-Tiled fuel (start + stride) (omega arith) (ground arith) (omega arith)))
  ]

-- What valid options give: a positive window, and an overlap below it.
pub record IsValid (o : Options) : Type 0 where
  pub size : ℕ
  pub overlap : ℕ
  pub size_lem : o.window_lines ≡ pos size
  pub overlap_lem : o.window_overlap ≡ pos overlap
  pub overlap_lt : overlap < size

positive : (z : ℤ) → leb_ℤ z (pos 0) ≡ false → (n : ℕ) × (z ≡ pos n)
positive (pos n) h = (n, refl)
positive (negsuc n) h = absurd (ground arith)

nonnegative : (z : ℤ) → ltb_ℤ z (pos 0) ≡ false → (n : ℕ) × (z ≡ pos n)
nonnegative (pos n) h = (n, refl)
nonnegative (negsuc n) h = absurd (ground arith)

valid_tests :
    (o : Options)
    → validate o ≡ ok tt
    → (leb_ℤ o.window_lines (pos 0) ≡ false)
      × (ltb_ℤ o.window_overlap (pos 0) ≡ false)
      × (leb_ℤ o.window_lines o.window_overlap ≡ false)
unfolding validate
valid_tests o h = ground arith

pub validate-IsValid : (o : Options) → validate o ≡ ok tt → IsValid o
validate-IsValid o h =
    let (a, b, c) = valid_tests o h in
    let (w, ew) = positive o.window_lines a in
    let (v, ev) = nonnegative o.window_overlap b in
    record { size = w; overlap = v; size_lem = ew; overlap_lem = ev; overlap_lt = ground arith }

tile_by-eq :
    (ls : List Bytes) (from to : ℕ) (w : ℤ) (d : ℤ) (k : ℕ)
    → d ≡ pos (suc k)
    → tile_by ls from to w d ≡ tile (suc (suc to)) ls w (suc k) from to
unfolding tile
tile_by-eq ls from to w d k h = rw h

sub-pos : (w v : ℕ) → v < w → pos w -ℤ pos v ≡ pos (suc (w - v - 1))
unfolding ◌-ℤ◌
sub-pos w v h = ground arith

-- Under valid options the windows of a range of lines are exact, at most as long as the options
-- say, and leave out no line; the loop ends and no slice is out of range.
pub windows-Tiled :
    (ls : List Bytes) (from to : ℕ) (o : Options) (v : IsValid o)
    → 1 ≤ from
    → to ≤ length ls
    → Tiled ls v.size from to (windows ls from to o)
unfolding windows
windows-Tiled ls from to o v h1 h2 =
    let k = v.size - v.overlap - 1 in
    rw v.size_lem (
      rw v.overlap_lem (
        rw
          (tile_by-eq ls from to (pos v.size) (pos v.size -ℤ pos v.overlap) k
            (sub-pos v.size v.overlap v.overlap_lt))
          (tile-Tiled ls v.size (suc k) to (omega arith) (omega (arith, v.overlap_lt)) h2
            (suc (suc to)) from h1 (omega arith) (omega arith))))
