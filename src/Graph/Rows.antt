-- ===== src/Graph/Rows.antt =====
-- About buildGraph: every id that a row of the graph names is the id of a row that is there.
use codetrail.Prelude.{
  All-self, sym, subst, ap, ◌∙◌, ℕ, ◌+◌, ◌≤◌, true, false, ◌≡◌, refl, ◌⊎◌, inl, inr, arith, Option,
  none, some, List, [], ◌∷◌, ◌++◌, length, Bytes, All, Any, All-append, All-member, Any-map,
  Bool-cases,
}
use codetrail.Models.{Edge, Provenance, resolved, syntactic}
use codetrail.Graph.Containers.{Container, outside, most_specific}
use codetrail.Graph.Order.{most_specific-IsBest}
use codetrail.Graph.Defines.{
  Ranges, IsDefined, IsPlaced, defs_at-Ranges, define-IsDefined, from-StartsAt,
}
use codetrail.Graph.Build.{
  edge_id, Call, ParsedFile, Target, GraphJob, defs_at, from_at, Defined, Called, target_of,
  plain_edge, to_symbol, to_target, add_edge, add_call, add_calls, connect, define, nothing_defined,
  nothing_called, build_graph,
}

abbrev resolved_one : Provenance → ℕ
resolved_one resolved = 1
resolved_one syntactic = 0

pub count_resolved : List Edge → ℕ
count_resolved [] = 0
count_resolved (e ∷ es) = resolved_one e.provenance + count_resolved es

count_resolved-append :
    (xs : List Edge) (e : Edge)
    → (count_resolved (xs ++ e ∷ []) ≡ count_resolved xs + resolved_one e.provenance)
      × (length (xs ++ e ∷ []) ≡ length xs + 1)
unfolding count_resolved
count_resolved-append [] e = omega arith
count_resolved-append (x ∷ xs) e = omega (arith, count_resolved-append xs e)

module _ (C : Type 0) (j : GraphJob C) (g : Defined) where
  -- Where an edge leads: nowhere if it is syntactic, and else to a symbol that holds the line which the
  -- type checker gave for the edge's own call.
  abbrev pub IsAimed : Call → Edge → Type 0
  IsAimed c e =
      ((e.provenance ≡ syntactic) × (e.to_symbol_id ≡ []))
      ⊎ ((e.provenance ≡ resolved)
          × (j.typecheck ≡ true)
          × (t : Target) × (j.check c.path c.offset ≡ some t)
          × Any
              (λ s.
                (s.id ≡ e.to_symbol_id)
                × (s.path ≡ t.path)
                × (s.start_line ≤ t.line)
                × (t.line ≤ s.end_line))
              g.symbols)

  abbrev pub IsParsed : Call → Type 0
  IsParsed c = Any (λ f. Any (λ d. d ≡ c) f.calls) j.parsed

  -- An edge is that of a call of the parsed files, and has its place, its name and its id.
  pub record IsJoined (e : Edge) : Type 0 where
    pub call : Call
    pub parsed : IsParsed call
    pub place : (e.path ≡ call.path) × (e.line ≡ call.line) × (e.to_name ≡ call.name)
    pub own_id : e.id ≡ edge_id j.hash j.repo_id e.from_symbol_id call.path call.offset call.name
    pub own_repo : e.repo_id ≡ j.repo_id
    pub from_there : Any (λ s. (s.id ≡ e.from_symbol_id) × (s.path ≡ e.path)) g.symbols
    pub aimed : IsAimed call e

  pub record IsConnected (a : Called) : Type 0 where
    pub joined : All IsJoined a.edges
    pub resolved_count : a.resolved ≡ count_resolved a.edges
    pub all_counted : a.resolved + a.syntactic ≡ length a.edges

  target_of-check :
      (c : Call) (t : Target)
      → target_of j c ≡ some t
      → (j.typecheck ≡ true) × (j.check c.path c.offset ≡ some t)
  unfolding target_of
  target_of-check c t e = elim (Bool-cases j.typecheck) [
    | inl on ↦ (on, rw on at e)
    | inr off ↦ let h : none ≡ some t = rw off at e in cc
  ]

  holds_line :
      (line : ℕ) (b : Container) → outside line b ≡ false → (b.start ≤ line) × (line ≤ b.end)
  unfolding outside
  holds_line line b h = ground arith

  to_target-IsAimed :
      (h : IsDefined C j g) (c : Call) (from_id : Bytes) (o : Option Target)
      → target_of j c ≡ o
      → IsAimed c (to_target j g (plain_edge j c from_id) o)
  to_target-IsAimed h c from_id none e = inl (refl, refl)
  to_target-IsAimed h c from_id (some t) e =
      aimed (most_specific (defs_at g.defs t.path) t.line)
        (most_specific-IsBest (defs_at g.defs t.path) t.line).0
    where
      aimed :
          (o : Option Container)
          → (elim o as (λ _. Type 0) [
            | none ↦ Unit
            | some b ↦ Any (λ c. c ≡ b) (defs_at g.defs t.path) × (outside t.line b ≡ false)
          ])
          → IsAimed c (to_symbol j (plain_edge j c from_id) o)
      aimed none k = inl (refl, refl)
      aimed (some b) (member, inside) =
          let (on, found) = target_of-check c t e in
          let range = holds_line t.line b inside in
          let there =
            All-member (Ranges g.symbols t.path) (defs_at g.defs t.path) b
              (defs_at-Ranges g.symbols g.defs t.path h.ranges) member in
          inr (
            refl,
            on,
            t,
            found,
            Any-map _ _ g.symbols
                (λ s k.
                  let from_start = k.2 in let to_end = k.3 in (k.0, k.1, omega arith, omega arith))
                there,
          )

  add_edge-IsConnected :
      (a : Called) (e : Edge)
      → IsConnected a
      → IsJoined e
      → IsConnected (add_edge j a e e.provenance)
  add_edge-IsConnected a e h k = by_provenance e.provenance refl
    where
      by_provenance : (p : Provenance) → e.provenance ≡ p → IsConnected (add_edge j a e p)
      by_provenance resolved q =
          let (some_more, one_more) = count_resolved-append a.edges e in
          let one : resolved_one e.provenance ≡ 1 = rw q in
          let old = h.resolved_count in
          let all = h.all_counted in
          record {
            joined = All-append IsJoined a.edges (e ∷ []) h.joined (k, tt);
            resolved_count = omega arith;
            all_counted = omega arith;
          }
      by_provenance syntactic q =
          let (some_more, one_more) = count_resolved-append a.edges e in
          let one : resolved_one e.provenance ≡ 0 = rw q in
          let old = h.resolved_count in
          let all = h.all_counted in
          record {
            joined = All-append IsJoined a.edges (e ∷ []) h.joined (k, tt);
            resolved_count = omega arith;
            all_counted = omega arith;
          }

  -- The fields that a target does not change.
  to_target_keeps :
      (e : Edge) (o : Option Target)
      → ((to_target j g e o).repo_id ≡ e.repo_id)
        × ((to_target j g e o).from_symbol_id ≡ e.from_symbol_id)
        × ((to_target j g e o).path ≡ e.path)
        × ((to_target j g e o).id ≡ e.id)
        × ((to_target j g e o).line ≡ e.line)
        × ((to_target j g e o).to_name ≡ e.to_name)
  to_target_keeps e none = (refl, refl, refl, refl, refl, refl)
  to_target_keeps e (some t) = kept (most_specific (defs_at g.defs t.path) t.line)
    where
      kept :
          (o : Option Container)
          → ((to_symbol j e o).repo_id ≡ e.repo_id)
            × ((to_symbol j e o).from_symbol_id ≡ e.from_symbol_id)
            × ((to_symbol j e o).path ≡ e.path)
            × ((to_symbol j e o).id ≡ e.id)
            × ((to_symbol j e o).line ≡ e.line)
            × ((to_symbol j e o).to_name ≡ e.to_name)
      kept none = (refl, refl, refl, refl, refl, refl)
      kept (some b) = (refl, refl, refl, refl, refl, refl)

  add_call-IsConnected :
      (a : Called) (c : Call) (o : Option Bytes)
      → IsDefined C j g
      → from_at g.from c.path c.from_start ≡ o
      → IsParsed c
      → IsConnected a
      → IsConnected (add_call j g a c o)
  add_call-IsConnected a c none d e m h = h
  add_call-IsConnected a c (some from_id) d e m h =
      let plain = plain_edge j c from_id in
      let (repo, from, path, id, line, name) = to_target_keeps plain (target_of j c) in
      let there = from-StartsAt C j g c.path c.from_start from_id d e in
      add_edge-IsConnected a (to_target j g plain (target_of j c)) h (record {
        call = c;
        parsed = m;
        place = (path, line, name);
        own_id = id ∙ ap (λ x. edge_id j.hash j.repo_id x c.path c.offset c.name) (sym from);
        own_repo = repo;
        from_there =
            rw (from, path)
              (Any-map (λ s. (s.id ≡ from_id) × (s.path ≡ c.path) × (s.start_line ≡ c.from_start))
                (λ s. (s.id ≡ from_id) × (s.path ≡ c.path)) g.symbols (λ s k. (k.0, k.1)) there);
        aimed = to_target-IsAimed d c from_id (target_of j c) refl;
      })

  add_calls-IsConnected :
      (cs : List Call) (a : Called)
      → IsDefined C j g
      → All IsParsed cs
      → IsConnected a
      → IsConnected (add_calls j g cs a)
  unfolding add_calls
  add_calls-IsConnected [] a d m h = h
  add_calls-IsConnected (c ∷ cs) a d m h =
      add_calls-IsConnected cs _ d m.1
        (add_call-IsConnected a c (from_at g.from c.path c.from_start) d refl m.0 h)

  connect-IsConnected :
      (fs : List ParsedFile) (a : Called)
      → IsDefined C j g
      → All (λ f. Any (λ x. x ≡ f) j.parsed) fs
      → IsConnected a
      → IsConnected (connect j g fs a)
  unfolding connect
  connect-IsConnected [] a d m h = h
  connect-IsConnected (f ∷ fs) a d m h =
      connect-IsConnected fs _ d m.1 (add_calls-IsConnected f.calls a d of_file h)
    where
      of_file : All IsParsed f.calls
      of_file = All-self IsParsed f.calls (λ c there.
          Any-map (λ x. x ≡ f) (λ x. Any (λ d. d ≡ c) x.calls) j.parsed
            (λ x e. subst (λ y. Any (λ d. d ≡ c) y.calls) (sym e) there) m.0)

-- The rows of a graph.
abbrev pub IsGraph : (C : Type 0) → GraphJob C → Defined × Called → Type 0
IsGraph C j (g, a) = All (IsPlaced C j) g.symbols × IsConnected C j g a

-- A symbol is in a file of the job, and its span is one of that
-- file which holds its first line or shares a line with it; it has no span only where none does. An
-- edge is that of a call of the parsed files, with its place, its name and the id that these give it. It
-- goes from a symbol of its own file, and is syntactic and leads nowhere, or is resolved and leads to a
-- symbol that holds the line which the type checker gave for that call, at its offset. The two
-- counters add up to the edges, and the one of resolved edges is their number.
pub build_graph-IsGraph : (C : Type 0) (j : GraphJob C) → IsGraph C j (build_graph j)
unfolding build_graph count_resolved
build_graph-IsGraph C j =
    let none_yet : IsDefined C j (nothing_defined j) = record {
      placed = tt;
      ranges = tt;
      starts = tt;
    } in
    let d = define-IsDefined C j j.parsed (nothing_defined j) none_yet in
    (
      d.placed,
      connect-IsConnected C j (define j j.parsed (nothing_defined j)) j.parsed (nothing_called j) d
          (All-self _ j.parsed (λ f m. m))
          (record { joined = tt; resolved_count = refl; all_counted = omega arith }),
    )
