-- ===== src/Gateway/Symbols.antt =====
-- apps/gateway/internal/handler/graph.go: the routes over the symbol graph, with limitOf of read.go.
-- A request is its parameters; a handler that answers 200 gives its response and the repository that
-- it touches, and any other gives its refusal.
use codetrail.Prelude.{
  ℕ, ◌+◌, Bool, true, false, Option, none, some, List, [], ◌∷◌, length, if◌then◌else◌, Bytes, eqb,
  Result, ok, err, ◌>>=◌, ◌>>◌, refuse_if,
}
use codetrail.Prelude.Int.{pos}
use codetrail.Models.{Repo, Span, Symbol}
use codetrail.Store.Callers.{Caller}
use codetrail.Rag.Cite.{Outside, Newer, Citation, staleness_of, new_citation}
use codetrail.Gateway.Read.{Handler, max_read_limit, lookup_repo}
use codetrail.Gateway.Views.{
  default_limit, default_depth, max_depth, Approximate, SymbolStore, Refusal, in_range, parsed_bool,
  or_fail, or_missing, clip, approx_name, CallerView, caller_view, approximate_view,
  ApproximateView, CallersResponse, SymbolsResponse, SymbolResponse, empty_name, bad_limit,
  bad_depth, no_symbol, failed,
}

-- The map of a citer: what it has read, by span.
abbrev pub Seen : Type 0
Seen = List (Bytes × Citation)

unfoldable pub seen_at : Seen → Bytes → Option Citation
unfolding eqb
seen_at [] id = none
seen_at ((k, c) ∷ m) id = let rest = seen_at m id in if eqb k id then some c else rest

module _ {F E : Type 0} (o : Outside) (h : Handler F E) (s : SymbolStore E) where
  unfoldable pub depth_of : Bytes → Result Refusal ℕ
  unfolding eqb
  depth_of raw =
      if eqb raw [] then ok default_depth else in_range (pos max_depth) bad_depth (s.atoi raw)

  unfoldable pub limit_of : Bytes → ℕ → Result Refusal ℕ
  unfolding eqb
  limit_of raw def = if eqb raw [] then ok def else in_range max_read_limit bad_limit (s.atoi raw)

  unfoldable pub bool_of : Bytes → Result Refusal Bool
  unfolding eqb
  bool_of raw = if eqb raw [] then ok false else parsed_bool (s.parse_bool raw)

  abbrev pub symbol_or_none : Result E Symbol → Result Refusal Symbol
  symbol_or_none (ok sy) = ok sy
  symbol_or_none (err e) = if h.is_not_found e then err no_symbol else err failed

  abbrev pub read_and_keep :
      Repo → Newer → Seen → Bytes → Result E Span → Result E (Option Citation × Seen)
  read_and_keep r newer seen id (err e) = err e
  read_and_keep r newer seen id (ok sp) =
      let c = new_citation o r sp newer h.now in ok (some c, (id, c) ∷ seen)

  abbrev pub seen_or_read :
      Repo → Newer → Seen → Bytes → Option Citation → Result E (Option Citation × Seen)
  seen_or_read r newer seen id (some c) = ok (some c, seen)
  seen_or_read r newer seen id none = read_and_keep r newer seen id (s.get_span r.id id)

  -- citer.of
  unfoldable pub cite_symbol : Repo → Newer → Seen → Symbol → Result E (Option Citation × Seen)
  unfolding eqb
  cite_symbol r newer seen sy =
      if eqb sy.span_id []
      then ok (none, seen)
      else seen_or_read r newer seen sy.span_id (seen_at seen sy.span_id)

  -- The loops of callersOfSymbol and `approximate`: one view for each row.
  unfoldable pub cite_rows :
      {A V : Type 0}
      → (A → Symbol)
      → (A → Option Citation → V)
      → Repo
      → Newer
      → Seen
      → List A
      → Result E (List V × Seen)
  cite_rows symbol_of view r newer seen [] = ok ([], seen)
  cite_rows symbol_of view r newer seen (a ∷ rows) = do
    (c, seen') ← cite_symbol r newer seen (symbol_of a)
    (rest, seen'') ← cite_rows symbol_of view r newer seen' rows
    ok (view a c ∷ rest, seen'')

  abbrev pub approximate_rows :
      Repo → Newer → Seen → ℕ → Result E (List Approximate) → Result E ApproximateView
  approximate_rows r newer seen limit (err e) =
      ok (record { count = 0; truncated = false; failed = true; callers = [] })
  approximate_rows r newer seen limit (ok rows) = do
    (callers, seen') ← cite_rows (λ a. a.symbol) approximate_view r newer seen (clip rows limit).0
    ok (record {
      count = length callers;
      truncated = (clip rows limit).1;
      failed = false;
      callers = callers;
    })

  unfoldable pub approximate : Repo → Newer → Seen → Symbol → ℕ → Result E ApproximateView
  unfolding approx_name clip cite_rows
  approximate r newer seen sy limit =
      approximate_rows r newer seen limit
        (s.approximate_callers_of r.id (approx_name sy.name) (limit + 1))

  -- The response, from the callers that are shown and those that are approximate.
  abbrev pub callers_response :
      Repo → Symbol → ℕ → Bool → List CallerView → ApproximateView → CallersResponse × Bytes
  callers_response r sy depth truncated callers approx = (
    record {
      repo_id = r.id;
      symbol = sy;
      depth = depth;
      truncated = truncated;
      callers = callers;
      approximate = approx;
    },
    r.id,
  )

  -- callersOfSymbol from the citing loop on.
  abbrev pub after_newer :
      Repo → Symbol → ℕ → ℕ → List Caller → Newer → Result Refusal (CallersResponse × Bytes)
  after_newer r sy depth limit rows newer = do
    (callers, seen) ←
        or_fail (cite_rows (λ cl. cl.symbol) caller_view r newer [] (clip rows limit).0)
    approx ← or_fail (approximate r newer seen sy limit)
    ok (callers_response r sy depth (clip rows limit).1 callers approx)

  -- callersOfSymbol once the symbol is there.
  abbrev pub after_symbol : ℕ → ℕ → Repo → Symbol → Result Refusal (CallersResponse × Bytes)
  after_symbol depth limit r sy = do
    rows ← or_fail (s.callers_of r.id sy.id depth (limit + 1))
    newer ← or_fail (h.newer_commit r.id)
    after_newer r sy depth limit rows newer

  unfoldable pub callers_of_symbol :
      Bytes → Bytes → Bytes → Bytes → Result Refusal (CallersResponse × Bytes)
  unfolding depth_of limit_of lookup_repo cite_rows approximate clip
  callers_of_symbol repo_param symbol_param depth_param limit_param = do
    depth ← depth_of depth_param
    limit ← limit_of limit_param default_limit
    r ← or_missing (lookup_repo h repo_param)
    sy ← symbol_or_none (s.symbol r.id symbol_param)
    after_symbol depth limit r sy

  unfoldable pub get_symbol : Bytes → Bytes → Result Refusal (SymbolResponse × Bytes)
  unfolding lookup_repo cite_symbol staleness_of
  get_symbol repo_param symbol_param = do
    r ← or_missing (lookup_repo h repo_param)
    sy ← symbol_or_none (s.symbol r.id symbol_param)
    newer ← or_fail (h.newer_commit r.id)
    (cite, seen) ← or_fail (cite_symbol r newer [] sy)
    ok (record { symbol = sy; citation = cite; staleness = staleness_of o r newer h.now }, r.id)

  unfoldable pub list_symbols :
      Bytes → Bytes → Bytes → Bytes → Bytes → Result Refusal (SymbolsResponse × Bytes)
  unfolding bool_of limit_of lookup_repo clip staleness_of eqb
  list_symbols repo_param name_param pkg_param suffix_param limit_param = do
    let name = s.trim_space name_param
    refuse_if (eqb name []) empty_name
    suffix ← bool_of suffix_param
    limit ← limit_of limit_param default_limit
    r ← or_missing (lookup_repo h repo_param)
    rows ← or_fail (s.definitions r.id name (s.trim_space pkg_param) suffix (limit + 1))
    newer ← or_fail (h.newer_commit r.id)
    let shown = (clip rows limit).0
    ok (
      record {
        repo_id = r.id;
        count = length shown;
        suffix = suffix;
        truncated = (clip rows limit).1;
        symbols = shown;
        staleness = staleness_of o r newer h.now;
      },
      r.id,
    )
