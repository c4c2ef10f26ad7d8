-- ===== src/Store/Callers.antt =====
-- packages/shared/store/graph_read.go: CallersOf, the recursive statement callersSQL over the table of
-- edges, its grouping, its order and its limit.
use codetrail.Prelude.{
  ℕ, zero, suc, ◌+◌, Bool, false, not, ◌&&◌, ◌||◌, Option, none, some, List, [], ◌∷◌, ◌++◌, take,
  ltb, ◌==◌, if◌then◌else◌, Bytes, eqb,
}
use codetrail.Prelude.Sort.{sort_by}
use codetrail.Models.{Symbol, Edge}

-- store.Caller
pub record Caller : Type 0 where
  pub symbol : Symbol
  pub depth : ℕ
  pub call_path : Bytes
  pub call_line : ℕ

-- A row of the common table expression `callers`.
pub record CallRow : Type 0 where
  pub sym : Bytes
  pub depth : ℕ
  pub path : List Bytes
  pub call_path : Bytes
  pub call_line : ℕ

-- e.to_symbol_id = id, where the empty id is NULL and equals nothing.
unfoldable pub calls_into : Bytes → Bytes → Edge → Bool
unfolding eqb
calls_into repo_id id e = eqb e.repo_id repo_id && (eqb e.to_symbol_id id && not (eqb id []))

-- id = ANY(path)
unfoldable pub on_path : Bytes → List Bytes → Bool
unfolding eqb
on_path id [] = false
on_path id (x ∷ xs) = eqb x id || on_path id xs

-- A row for each edge that passes a test.
unfoldable pub rows_where : (Edge → Bool) → (Edge → CallRow) → List Edge → List CallRow
rows_where test row [] = []
rows_where test row (e ∷ es) =
    let rest = rows_where test row es in if test e then row e ∷ rest else rest

-- The term that does not recur: the calls of the symbol itself.
abbrev pub direct_row : Bytes → Edge → CallRow
direct_row id e = record {
  sym = e.from_symbol_id;
  depth = 1;
  path = id ∷ e.from_symbol_id ∷ [];
  call_path = e.path;
  call_line = e.line;
}

unfoldable pub direct : Bytes → Bytes → List Edge → List CallRow
unfolding rows_where calls_into
direct repo_id id es = rows_where (calls_into repo_id id) (direct_row id) es

-- The term that recurs, for one row.
abbrev pub further_row : CallRow → Edge → CallRow
further_row c e = record {
  sym = e.from_symbol_id;
  depth = c.depth + 1;
  path = c.path ++ e.from_symbol_id ∷ [];
  call_path = e.path;
  call_line = e.line;
}

unfoldable pub recurs : Bytes → ℕ → CallRow → Edge → Bool
unfolding calls_into on_path
recurs repo_id depth c e =
    calls_into repo_id c.sym e && (ltb c.depth depth && not (on_path e.from_symbol_id c.path))

unfoldable pub further : Bytes → ℕ → CallRow → List Edge → List CallRow
unfolding rows_where recurs
further repo_id depth c es = rows_where (recurs repo_id depth c) (further_row c) es

unfoldable pub grow : Bytes → ℕ → List Edge → List CallRow → List CallRow
unfolding further
grow repo_id depth es [] = []
grow repo_id depth es (c ∷ cs) = further repo_id depth c es ++ grow repo_id depth es cs

abbrev pub also : List CallRow → Option (List CallRow) → Option (List CallRow)
also rows none = none
also rows (some more) = some (rows ++ more)

-- WITH RECURSIVE: rounds over the rows of the last one, until a round has none. The first argument
-- is fuel, and `none` means that it ran out.
unfoldable pub rounds : ℕ → Bytes → ℕ → List Edge → List CallRow → Option (List CallRow)
unfolding grow
rounds fuel repo_id depth es [] = some []
rounds zero repo_id depth es (c ∷ cs) = none
rounds (suc fuel) repo_id depth es (c ∷ cs) =
    also (c ∷ cs) (rounds fuel repo_id depth es (grow repo_id depth es (c ∷ cs)))

-- ORDER BY c.depth, c.call_path, c.call_line, where `before` is the order of text in the database.
unfoldable pub nearer : (Bytes → Bytes → Bool) → CallRow → CallRow → Bool
nearer before a b =
    ltb a.depth b.depth
    || (a.depth == b.depth
        && (before a.call_path b.call_path
            || (eqb a.call_path b.call_path && ltb a.call_line b.call_line)))

abbrev pub nearest_of : (Bytes → Bytes → Bool) → CallRow → Option CallRow → CallRow
nearest_of before c none = c
nearest_of before c (some b) = if nearer before b c then b else c

-- The group of a symbol: its nearest row, which has the least depth.
unfoldable pub nearest : (Bytes → Bytes → Bool) → Bytes → List CallRow → Option CallRow
unfolding nearer eqb
nearest before id [] = none
nearest before id (c ∷ cs) =
    let rest = nearest before id cs in
    if eqb c.sym id then some (nearest_of before c rest) else rest

abbrev pub caller_of : Symbol → Option CallRow → List Caller → List Caller
caller_of s none rest = rest
caller_of s (some c) rest =
    record { symbol = s; depth = c.depth; call_path = c.call_path; call_line = c.call_line } ∷ rest

unfoldable pub grouped : (Bytes → Bytes → Bool) → List Symbol → List CallRow → List Caller
unfolding nearest
grouped before [] rows = []
grouped before (s ∷ ss) rows = caller_of s (nearest before s.id rows) (grouped before ss rows)

-- ORDER BY depth, s.path, s.start_line, s.id
unfoldable pub listed_before : (Bytes → Bytes → Bool) → Caller → Caller → Bool
listed_before before a b =
    ltb a.depth b.depth
    || (a.depth == b.depth
        && (before a.symbol.path b.symbol.path
            || (eqb a.symbol.path b.symbol.path
                && (ltb a.symbol.start_line b.symbol.start_line
                    || (a.symbol.start_line == b.symbol.start_line
                        && before a.symbol.id b.symbol.id)))))

abbrev pub listed :
    (Bytes → Bytes → Bool) → List Symbol → ℕ → Option (List CallRow) → Option (List Caller)
listed before symbols limit none = none
listed before symbols limit (some rows) =
    some (take limit (sort_by (listed_before before) (grouped before symbols rows)))

-- A row of round n has depth n, and none past the given depth recurs.
unfoldable pub callers_of :
    (Bytes → Bytes → Bool) → List Symbol → List Edge → Bytes → Bytes → ℕ → ℕ → Option (List Caller)
unfolding rounds direct grouped listed_before
callers_of before symbols edges repo_id symbol_id depth limit =
    listed before symbols limit
      (rounds (depth + 2) repo_id depth edges (direct repo_id symbol_id edges))
