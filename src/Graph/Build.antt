-- ===== src/Graph/Build.antt =====
-- apps/indexer/cmd/graph.go: buildGraph, from the parsed files to the rows of the graph, and the ids
-- of packages/shared/store/graph.go. What go/types resolved is a function of the place of a call.
use codetrail.Prelude.{
  ℕ, ◌+◌, Bool, true, false, ◌&&◌, Option, none, some, List, [], ◌∷◌, ◌++◌, ◌==◌, if◌then◌else◌,
  Bytes, eqb,
}
use codetrail.Prelude.Strings.{decimal}
use codetrail.Models.{SpanKind, Symbol, Edge, Provenance, resolved, syntactic, calls, kind_name}
use codetrail.Indexer.Vectors.{EmbeddedSpan}
use codetrail.Indexer.Index.{FileRow}
use codetrail.Graph.Containers.{Container, most_specific, span_for}

-- symbols.Def, symbols.Call and symbols.File
pub record Def : Type 0 where
  pub kind : SpanKind
  pub name : Bytes
  pub pkg : Bytes
  pub path : Bytes
  pub start_line : ℕ
  pub end_line : ℕ

pub record Call : Type 0 where
  pub path : Bytes
  pub name : Bytes
  pub offset : ℕ
  pub line : ℕ
  pub from_start : ℕ

pub record ParsedFile : Type 0 where
  pub defs : List Def
  pub calls : List Call
  pub unnameable : ℕ

-- symbols.Target
pub record Target : Type 0 where
  pub path : Bytes
  pub line : ℕ

-- graphJob, with the hash of the ids, the setting TYPECHECK, and what the type checker resolves by
-- path and offset.
pub record GraphJob (C : Type 0) : Type 0 where
  pub hash : List Bytes → Bytes
  pub repo_id : Bytes
  pub parsed : List ParsedFile
  pub files : List FileRow
  pub spans : List (EmbeddedSpan C)
  pub typecheck : Bool
  pub check : Bytes → ℕ → Option Target

unfoldable pub symbol_id : (List Bytes → Bytes) → Bytes → Bytes → ℕ → Bytes → Bytes → Bytes
unfolding decimal
symbol_id hash repo_id path start kind name =
    hash (repo_id ∷ path ∷ decimal start ∷ kind ∷ name ∷ [])

unfoldable pub edge_id : (List Bytes → Bytes) → Bytes → Bytes → Bytes → ℕ → Bytes → Bytes
unfolding decimal
edge_id hash repo_id from path offset name =
    hash (repo_id ∷ from ∷ path ∷ decimal offset ∷ name ∷ [])

abbrev pub or_this : Bytes → Option Bytes → Bool → Option Bytes
or_this id (some later) b = some later
or_this id none true = some id
or_this id none false = none

-- fileIDs[path]: the last file of a path is the one that stays in the map.
unfoldable pub file_at : List FileRow → Bytes → Option Bytes
unfolding eqb
file_at [] path = none
file_at (f ∷ fs) path = or_this f.id (file_at fs path) (eqb f.path path)

abbrev pub container_of : {C : Type 0} → EmbeddedSpan C → Container
container_of s = record { id = s.span.id; start = s.span.start_line; end = s.span.end_line }

-- spans[path]
unfoldable pub spans_at : {C : Type 0} → List (EmbeddedSpan C) → Bytes → List Container
unfolding eqb
spans_at [] path = []
spans_at (s ∷ ss) path =
    let rest = spans_at ss path in if eqb s.span.path path then container_of s ∷ rest else rest

-- defs[path], of a map from a path to the list that was appended under it.
unfoldable pub defs_at : List (Bytes × Container) → Bytes → List Container
unfolding eqb
defs_at [] path = []
defs_at ((p, c) ∷ m) path = let rest = defs_at m path in if eqb p path then c ∷ rest else rest

-- from[path][line]
unfoldable pub from_at : List (Bytes × ℕ × Bytes) → Bytes → ℕ → Option Bytes
unfolding eqb
from_at [] path line = none
from_at ((p, n, id) ∷ m) path line =
    let rest = from_at m path line in if eqb p path && n == line then some id else rest

-- The id of the choice, or "".
abbrev pub id_of : Option Container → Bytes
id_of none = []
id_of (some c) = c.id

-- The variables of the loop over the definitions.
pub record Defined : Type 0 where
  pub symbols : List Symbol
  pub defs : List (Bytes × Container)
  pub from : List (Bytes × ℕ × Bytes)
  pub unnameable : ℕ

-- The variables of the loop over the calls.
pub record Called : Type 0 where
  pub edges : List Edge
  pub resolved : ℕ
  pub syntactic : ℕ

-- `if _, seen := ...; !seen`
abbrev pub first_from :
    Bytes → ℕ → Bytes → Option Bytes → List (Bytes × ℕ × Bytes) → List (Bytes × ℕ × Bytes)
first_from path line id (some old) m = m
first_from path line id none m = m ++ (path, line, id) ∷ []

module _ {C : Type 0} (j : GraphJob C) where
  abbrev pub symbol_of : Def → Bytes → Symbol
  symbol_of d file_id = record {
    id = symbol_id j.hash j.repo_id d.path d.start_line (kind_name d.kind) d.name;
    repo_id = j.repo_id;
    file_id = file_id;
    path = d.path;
    name = d.name;
    pkg = d.pkg;
    kind = d.kind;
    start_line = d.start_line;
    end_line = d.end_line;
    span_id = id_of (span_for (spans_at j.spans d.path) d.start_line d.end_line);
  }

  -- `none` is a definition in a file that has no row.
  abbrev pub add_placed : Defined → Def → Option Bytes → Defined
  add_placed g d none = g
  add_placed g d (some file_id) =
      let s = symbol_of d file_id in
      record g {
        symbols = g.symbols ++ s ∷ [];
        defs =
            g.defs ++ (d.path, record { id = s.id; start = d.start_line; end = d.end_line }) ∷ [];
        from = first_from d.path d.start_line s.id (from_at g.from d.path d.start_line) g.from;
      }

  unfoldable pub add_defs : List Def → Defined → Defined
  add_defs [] g = g
  add_defs (d ∷ ds) g = add_defs ds (add_placed g d (file_at j.files d.path))

  unfoldable pub define : List ParsedFile → Defined → Defined
  unfolding add_defs
  define [] g = g
  define (f ∷ fs) g =
      let h = add_defs f.defs g in define fs (record h { unnameable = h.unnameable + f.unnameable })

  -- resolveCalls, looked up at a call: a worker that does not type-check resolves nothing.
  unfoldable pub target_of : Call → Option Target
  target_of c = if j.typecheck then j.check c.path c.offset else none

  abbrev pub plain_edge : Call → Bytes → Edge
  plain_edge c from_id = record {
    id = edge_id j.hash j.repo_id from_id c.path c.offset c.name;
    repo_id = j.repo_id;
    from_symbol_id = from_id;
    to_symbol_id = [];
    to_name = c.name;
    kind = calls;
    provenance = syntactic;
    path = c.path;
    line = c.line;
  }

  abbrev pub to_symbol : Edge → Option Container → Edge
  to_symbol e none = e
  to_symbol e (some c) = record e { to_symbol_id = c.id; provenance = resolved }

  abbrev pub to_target : Defined → Edge → Option Target → Edge
  to_target g e none = e
  to_target g e (some t) = to_symbol e (most_specific (defs_at g.defs t.path) t.line)

  abbrev pub add_edge : Called → Edge → Provenance → Called
  add_edge a e resolved = record a { resolved = a.resolved + 1; edges = a.edges ++ e ∷ [] }
  add_edge a e syntactic = record a { syntactic = a.syntactic + 1; edges = a.edges ++ e ∷ [] }

  -- `none` is a call outside every definition that has a row.
  abbrev pub add_call : Defined → Called → Call → Option Bytes → Called
  add_call g a c none = a
  add_call g a c (some from_id) =
      let e = to_target g (plain_edge c from_id) (target_of c) in add_edge a e e.provenance

  unfoldable pub add_calls : Defined → List Call → Called → Called
  unfolding target_of
  add_calls g [] a = a
  add_calls g (c ∷ cs) a = add_calls g cs (add_call g a c (from_at g.from c.path c.from_start))

  unfoldable pub connect : Defined → List ParsedFile → Called → Called
  unfolding add_calls
  connect g [] a = a
  connect g (f ∷ fs) a = connect g fs (add_calls g f.calls a)

  abbrev pub nothing_defined : Defined
  nothing_defined = record { symbols = []; defs = []; from = []; unnameable = 0 }

  abbrev pub nothing_called : Called
  nothing_called = record { edges = []; resolved = 0; syntactic = 0 }

  unfoldable pub build_graph : Defined × Called
  unfolding define connect
  build_graph = let g = define j.parsed nothing_defined in (g, connect g j.parsed nothing_called)
