-- ===== src/Graph/Links.antt =====
-- About buildGraph: every id that a row of the graph names is the id of a row that is there.
use codetrail.Prelude.{
  ℕ, ◌≤◌, true, false, ◌≡◌, refl, sym, ap, subst, ◌⊎◌, inl, inr, arith, Option, none, some, List,
  [], ◌∷◌, Bytes, eqb, eqb_eq, eqb_refl, All, Any, Any-map, Bool-cases,
}
use codetrail.Models.{Symbol}
use codetrail.Indexer.Vectors.{EmbeddedSpan}
use codetrail.Graph.Containers.{
  Container, or_else, outside, apart, more_specific, earlier, most_specific, first_overlapping,
  span_for,
}
use codetrail.Graph.Order.{IsBest, most_specific-IsBest, first_overlapping-IsBest}
use codetrail.Graph.Build.{Def, GraphJob, container_of, spans_at, id_of, symbol_of}

-- A range that a definition may be linked to: it holds the first line, or shares a line with it.
abbrev pub Touches : ℕ → ℕ → Container → Type 0
Touches start end c = ((c.start ≤ start) × (start ≤ c.end)) ⊎ ((start ≤ c.end) × (c.start ≤ end))

-- What `span_for` finds, by what it was given.
abbrev pub Found : ℕ → ℕ → List Container → Option Container → Type 0
Found start end cs none = All (λ c. ¬ Touches start end c) cs
Found start end cs (some b) = Any (λ c. c ≡ b) cs × Touches start end b

inside-Touches : (start end : ℕ) (c : Container) → outside start c ≡ false → Touches start end c
unfolding outside
inside-Touches start end c h = inl (ground arith, ground arith)

overlap-Touches : (start end : ℕ) (c : Container) → apart start end c ≡ false → Touches start end c
unfolding apart
overlap-Touches start end c h = inr (ground arith, ground arith)

skip-ne-Touches :
    (start end : ℕ) (c : Container)
    → outside start c ≡ true
    → apart start end c ≡ true
    → ¬ Touches start end c
unfolding outside apart
skip-ne-Touches start end c h k (inl t) = ground arith
skip-ne-Touches start end c h k (inr t) = ground arith

All-both :
    (P Q R : Container → Type 0) (cs : List Container)
    → ((c : Container) → P c → Q c → R c)
    → All P cs
    → All Q cs
    → All R cs
All-both P Q R [] f h k = tt
All-both P Q R (c ∷ cs) f h k = (f c h.0 k.0, All-both P Q R cs f h.1 k.1)

or_else-Found :
    (cs : List Container) (start end : ℕ) (o q : Option Container)
    → IsBest (outside start) more_specific cs o
    → IsBest (apart start end) earlier cs q
    → Found start end cs (or_else o q)
or_else-Found cs start end (some b) q h k = (h.0.0, inside-Touches start end b h.0.1)
or_else-Found cs start end none (some b) h k = (k.0.0, overlap-Touches start end b k.0.1)
or_else-Found cs start end none none h k =
    All-both _ _ (λ c. ¬ Touches start end c) cs (skip-ne-Touches start end) h.1 k.1

span_for-Found : (cs : List Container) (start end : ℕ) → Found start end cs (span_for cs start end)
unfolding span_for
span_for-Found cs start end =
    or_else-Found cs start end (most_specific cs start) (first_overlapping cs start end)
      (most_specific-IsBest cs start) (first_overlapping-IsBest cs start end)

-- The span that a symbol is cited by is one of its own file that touches it, and a symbol has none
-- only where no span of its file does.
abbrev pub IsLinked : (C : Type 0) → List (EmbeddedSpan C) → Symbol → Type 0
IsLinked C spans s =
    Any
      (λ x.
        (x.span.id ≡ s.span_id)
        × (x.span.path ≡ s.path)
        × Touches s.start_line s.end_line (container_of x))
      spans
    ⊎ ((s.span_id ≡ [])
        × All (λ x. x.span.path ≡ s.path → ¬ Touches s.start_line s.end_line (container_of x))
            spans)

module _ (C : Type 0) (path : Bytes) where
  spans_at-Any :
      (P : Container → Type 0) (spans : List (EmbeddedSpan C))
      → Any P (spans_at spans path)
      → Any (λ x. (x.span.path ≡ path) × P (container_of x)) spans
  unfolding spans_at
  spans_at-Any P [] h = h
  spans_at-Any P (s ∷ ss) h = elim (Bool-cases (eqb s.span.path path)) [
    | inl e ↦ here (spans_at-Any P ss) e (rw e at h)
    | inr e ↦ inr (spans_at-Any P ss (rw e at h))
  ]
    where
      here :
          (Any P (spans_at ss path) → Any (λ x. (x.span.path ≡ path) × P (container_of x)) ss)
          → eqb s.span.path path ≡ true
          → P (container_of s) ⊎ Any P (spans_at ss path)
          → ((s.span.path ≡ path) × P (container_of s))
            ⊎ Any (λ x. (x.span.path ≡ path) × P (container_of x)) ss
      here ih e (inl p) = inl (eqb_eq s.span.path path e, p)
      here ih e (inr m) = inr (ih m)

  spans_at-All :
      (P : Container → Type 0) (spans : List (EmbeddedSpan C))
      → All P (spans_at spans path)
      → All (λ x. x.span.path ≡ path → P (container_of x)) spans
  unfolding spans_at
  spans_at-All P [] h = tt
  spans_at-All P (s ∷ ss) h = elim (Bool-cases (eqb s.span.path path)) [
    | inl e ↦
        let k : P (container_of s) × All P (spans_at ss path) = rw e at h in
        ((λ q. k.0), spans_at-All P ss k.1)
    | inr e ↦ ((λ q. absurd (other e q)), spans_at-All P ss (rw e at h))
  ]
    where
      other : eqb s.span.path path ≡ false → ¬ (s.span.path ≡ path)
      other e q = let f : eqb path path ≡ false = rw q at e in let r = eqb_refl path in cc

-- The symbol of a definition.
pub symbol_of-IsLinked :
    (C : Type 0) (j : GraphJob C) (d : Def) (file_id : Bytes)
    → IsLinked C j.spans (symbol_of j d file_id)
symbol_of-IsLinked C j d file_id =
    linked (span_for (spans_at j.spans d.path) d.start_line d.end_line)
      (span_for-Found (spans_at j.spans d.path) d.start_line d.end_line)
  where
    linked :
        (o : Option Container)
        → Found d.start_line d.end_line (spans_at j.spans d.path) o
        → IsLinked C j.spans (record (symbol_of j d file_id) { span_id = id_of o })
    linked none h =
        inr (refl, spans_at-All C d.path (λ c. ¬ Touches d.start_line d.end_line c) j.spans h)
    linked (some b) (member, touches) = inl (
        Any-map _ _ j.spans
          (λ x h.
            (ap (λ c. c.id) h.1, h.0, subst (Touches d.start_line d.end_line) (sym h.1) touches))
          (spans_at-Any C d.path (λ c. c ≡ b) j.spans member))
