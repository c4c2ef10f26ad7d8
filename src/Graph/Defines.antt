-- ===== src/Graph/Defines.antt =====
-- About the first loop of buildGraph: the symbols, and the maps that are filled beside them.
use codetrail.Prelude.{
  ℕ, ◌&&◌, ◌≡◌, refl, inl, inr, arith, Option, none, some, List, [], ◌∷◌, ◌++◌, ◌==◌, Bytes, eqb,
  eqb_eq, All, Any, All-append, All-imp, Any-append_left, Bool-cases,
}
use codetrail.Models.{Symbol}
use codetrail.Indexer.Index.{FileRow}
use codetrail.Graph.Containers.{Container}
use codetrail.Graph.Links.{IsLinked, symbol_of-IsLinked}
use codetrail.Graph.Build.{
  Def, ParsedFile, GraphJob, file_at, or_this, defs_at, from_at, Defined, first_from, symbol_of,
  add_placed, add_defs, define,
}

-- A symbol that the maps `from` and `defs` speak of.
abbrev pub StartsAt : List Symbol → Bytes × ℕ × Bytes → Type 0
StartsAt syms (path, line, id) =
    Any (λ s. (s.id ≡ id) × (s.path ≡ path) × (s.start_line ≡ line)) syms

abbrev pub Ranges : List Symbol → Bytes → Container → Type 0
Ranges syms path c =
    Any (λ s. (s.id ≡ c.id) × (s.path ≡ path) × (s.start_line ≡ c.start) × (s.end_line ≡ c.end))
      syms

from_at-StartsAt :
    (syms : List Symbol) (m : List (Bytes × ℕ × Bytes)) (path : Bytes) (line : ℕ) (id : Bytes)
    → All (StartsAt syms) m
    → from_at m path line ≡ some id
    → StartsAt syms (path, line, id)
unfolding from_at
from_at-StartsAt syms [] path line id h e = cc
from_at-StartsAt syms ((p, n, x) ∷ m) path line id h e =
    elim (Bool-cases (eqb p path && n == line)) [
      | inl here ↦
          let same : some x ≡ some id = rw here at e in
          let path_eq : p ≡ path = eqb_eq p path (ground arith) in
          let line_eq : n ≡ line = ground arith in
          let id_eq : x ≡ id = cc in rw (← path_eq, ← line_eq, ← id_eq) h.0
      | inr other ↦ from_at-StartsAt syms m path line id h.1 (rw other at e)
    ]

pub defs_at-Ranges :
    (syms : List Symbol) (m : List (Bytes × Container)) (path : Bytes)
    → All (λ e. Ranges syms e.0 e.1) m
    → All (Ranges syms path) (defs_at m path)
unfolding defs_at
defs_at-Ranges syms [] path h = tt
defs_at-Ranges syms ((p, c) ∷ m) path h = elim (Bool-cases (eqb p path)) [
  | inl here ↦ rw here (rw (← eqb_eq p path here) h.0, defs_at-Ranges syms m path h.1)
  | inr other ↦ rw other (defs_at-Ranges syms m path h.1)
]

file_at-found :
    (fs : List FileRow) (path id : Bytes)
    → file_at fs path ≡ some id
    → Any (λ f. (f.id ≡ id) × (f.path ≡ path)) fs
unfolding file_at
file_at-found [] path id e = cc
file_at-found (f ∷ fs) path id e = later (file_at fs path) (file_at-found fs path id) e
  where
    later :
        (o : Option Bytes)
        → (o ≡ some id → Any (λ f. (f.id ≡ id) × (f.path ≡ path)) fs)
        → or_this f.id o (eqb f.path path) ≡ some id
        → Any (λ f. (f.id ≡ id) × (f.path ≡ path)) (f ∷ fs)
    later (some x) ih e = inr (ih e)
    later none ih e = elim (Bool-cases (eqb f.path path)) [
      | inl here ↦ let h : some f.id ≡ some id = rw here at e in inl (cc, eqb_eq f.path path here)
      | inr other ↦ let h : none ≡ some id = rw other at e in cc
    ]

module _ (C : Type 0) (j : GraphJob C) where
  -- A symbol is of this repository, in a file that has a row, and is linked to its span.
  pub record IsPlaced (s : Symbol) : Type 0 where
    pub own_repo : s.repo_id ≡ j.repo_id
    pub in_file : Any (λ f. (f.id ≡ s.file_id) × (f.path ≡ s.path)) j.files
    pub linked : IsLinked C j.spans s

  pub record IsDefined (g : Defined) : Type 0 where
    pub placed : All IsPlaced g.symbols
    pub ranges : All (λ e. Ranges g.symbols e.0 e.1) g.defs
    pub starts : All (StartsAt g.symbols) g.from

  last_of : (P : Symbol → Type 0) (syms : List Symbol) (s : Symbol) → P s → Any P (syms ++ s ∷ [])
  last_of P [] s h = inl h
  last_of P (x ∷ xs) s h = inr (last_of P xs s h)

  first_from-StartsAt :
      (syms : List Symbol) (path : Bytes) (line : ℕ) (id : Bytes) (o : Option Bytes)
      (m : List (Bytes × ℕ × Bytes))
      → StartsAt syms (path, line, id)
      → All (StartsAt syms) m
      → All (StartsAt syms) (first_from path line id o m)
  first_from-StartsAt syms path line id (some old) m h k = k
  first_from-StartsAt syms path line id none m h k = All-append (StartsAt syms) m _ k (h, tt)

  add_placed-IsDefined :
      (g : Defined) (d : Def) (o : Option Bytes)
      → file_at j.files d.path ≡ o
      → IsDefined g
      → IsDefined (add_placed j g d o)
  add_placed-IsDefined g d none e h = h
  add_placed-IsDefined g d (some file_id) e h =
      let s = symbol_of j d file_id in
      let all = g.symbols ++ s ∷ [] in
      record {
        placed = All-append IsPlaced g.symbols (s ∷ []) h.placed (
          record {
            own_repo = refl;
            in_file = file_at-found j.files d.path file_id e;
            linked = symbol_of-IsLinked C j d file_id;
          },
          tt,
        );
        ranges =
            All-append (λ e. Ranges all e.0 e.1) g.defs _
              (All-imp (λ e. Ranges g.symbols e.0 e.1) (λ e. Ranges all e.0 e.1) g.defs
                (λ e k. Any-append_left _ g.symbols (s ∷ []) k) h.ranges)
              (last_of _ g.symbols s (refl, refl, refl, refl), tt);
        starts =
            first_from-StartsAt all d.path d.start_line s.id (from_at g.from d.path d.start_line)
              g.from (last_of _ g.symbols s (refl, refl, refl))
              (All-imp (StartsAt g.symbols) (StartsAt all) g.from
                (λ e k. Any-append_left _ g.symbols (s ∷ []) k) h.starts);
      }

  add_defs-IsDefined : (ds : List Def) (g : Defined) → IsDefined g → IsDefined (add_defs j ds g)
  unfolding add_defs
  add_defs-IsDefined [] g h = h
  add_defs-IsDefined (d ∷ ds) g h =
      add_defs-IsDefined ds _ (add_placed-IsDefined g d (file_at j.files d.path) refl h)

  pub define-IsDefined :
      (fs : List ParsedFile) (g : Defined) → IsDefined g → IsDefined (define j fs g)
  unfolding define
  define-IsDefined [] g h = h
  define-IsDefined (f ∷ fs) g h =
      let k = add_defs-IsDefined f.defs g h in
      define-IsDefined fs _ (record { placed = k.placed; ranges = k.ranges; starts = k.starts })

  -- The caller of a call is a symbol that starts where the call says.
  pub from-StartsAt :
      (g : Defined) (path : Bytes) (line : ℕ) (id : Bytes)
      → IsDefined g
      → from_at g.from path line ≡ some id
      → StartsAt g.symbols (path, line, id)
  from-StartsAt g path line id h e = from_at-StartsAt g.symbols g.from path line id h.starts e
