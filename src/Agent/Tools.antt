-- ===== src/Agent/Tools.antt =====
-- packages/shared/agent/tools.go and frame.go: the four tools over one repository. The store and the
-- standard library's JSON are arguments; `C` is the world that the store lives in.
use codetrail.Prelude.{
  ℕ, zero, ◌+◌, true, false, ◌&&◌, ◌||◌, Option, none, some, List, [], ◌∷◌, length, ltb,
  if◌then◌else◌, Bytes, codes, eqb, Result, ok, err,
}
use codetrail.Prelude.Int.{ℤ, pos, ltb_ℤ}
use codetrail.Models.{Span, Symbol}
use codetrail.Llm.{ToolCall}
use codetrail.Rag.Retrieve.{Found}
use codetrail.Rag.Terms.{terms}
use codetrail.Agent.State.{ToolOutcome, ToolError, malformed_call, store_failure}
use codetrail.Agent.Answers.{
  ToolLimits, max_tool_query, Caller, Approximate, StoreError, missing, broken, Corpus, hits_view,
  span_missing, budget_exhausted, span_view, definitions_view, callers_view, Std, tool_data,
  is_empty, hit_views,
}

abbrev pub malformed : {C : Type 0} → C × ℕ → (C × ℕ) × Result ToolError ToolOutcome
malformed w = (w, err malformed_call)

-- `decode`, and what a tool does with the arguments.
abbrev pub decoded :
    {C A : Type 0}
    → C × ℕ
    → Option A
    → (A → (C × ℕ) × Result ToolError ToolOutcome)
    → (C × ℕ) × Result ToolError ToolOutcome
decoded w none f = malformed w
decoded w (some a) f = f a

-- A depth that is left out is 1.
abbrev pub depth_or : ℤ → ℤ
depth_or (pos zero) = pos 1
depth_or d = d

-- The state of a tool set is the store's world, and the characters that read_span has spent.
module _ {F C : Type 0} (std : Std) (corpus : Corpus F C) (repo_id : Bytes) (lim : ToolLimits) where
  abbrev pub after_search : Result StoreError (Found F) → Result ToolError ToolOutcome
  after_search (err missing) = tool_data std (codes "search_code") (hits_view []) [] true
  after_search (err broken) = err store_failure
  after_search (ok out) =
      let hits = hit_views out.spans out.hits in
      tool_data std (codes "search_code") (hits_view hits) [] (is_empty hits)

  unfoldable pub search_tool : C × ℕ → Bytes → (C × ℕ) × Result ToolError ToolOutcome
  unfolding tool_data hit_views terms
  search_tool w args = decoded w (std.decode_search args) (λ a.
      let q = std.trim_space a in
      let (c, res) = corpus.search w.0 repo_id q lim.max_hits in
      if eqb q []
        || (ltb max_tool_query (length q) || is_empty (terms std.unicode std.to_lower q false))
      then malformed w
      else ((c, w.1), after_search res))

  -- The budget on characters, and the span whole.
  abbrev pub after_span :
      Bytes → C → ℕ → Result StoreError Span → (C × ℕ) × Result ToolError ToolOutcome
  after_span id c chars (err missing) =
      ((c, chars), tool_data std (codes "read_span") (span_missing id) [] true)
  after_span id c chars (err broken) = ((c, chars), err store_failure)
  after_span id c chars (ok sp) =
      if ltb 0 chars && ltb_ℤ lim.max_span_chars (pos (chars + length sp.text))
      then (
        (c, chars),
        tool_data std (codes "read_span") (budget_exhausted id chars lim.max_span_chars) [] true,
      )
      else (
        (c, chars + length sp.text),
        tool_data std (codes "read_span") (span_view sp) (sp ∷ []) false,
      )

  unfoldable pub read_span_tool : C × ℕ → Bytes → (C × ℕ) × Result ToolError ToolOutcome
  unfolding tool_data
  read_span_tool w args = decoded w (std.decode_span args) (λ id.
      let (c, res) = corpus.get_span w.0 repo_id id in
      if eqb (std.trim_space id) [] then malformed w else after_span id c w.1 res)

  abbrev pub after_definitions : Result StoreError (List Symbol) → Result ToolError ToolOutcome
  after_definitions (err e) = err store_failure
  after_definitions (ok syms) =
      tool_data std (codes "definition_of") (definitions_view syms) [] (is_empty syms)

  unfoldable pub definition_tool : C × ℕ → Bytes → (C × ℕ) × Result ToolError ToolOutcome
  unfolding tool_data
  definition_tool w args = decoded w (std.decode_definition args) (λ a.
      let (c, res) = corpus.definitions w.0 repo_id a.0 a.1 a.2 lim.max_definitions in
      if eqb (std.trim_space a.0) [] then malformed w else ((c, w.1), after_definitions res))

  abbrev pub after_approximate :
      C
      → ℕ
      → List Caller
      → Result StoreError (List Approximate)
      → (C × ℕ) × Result ToolError ToolOutcome
  after_approximate c chars cs (err e) = ((c, chars), err store_failure)
  after_approximate c chars cs (ok as') = (
    (c, chars),
    tool_data std (codes "callers_of") (callers_view cs as') [] (is_empty cs && is_empty as'),
  )

  abbrev pub after_callers :
      Bytes → C → ℕ → Result StoreError (List Caller) → (C × ℕ) × Result ToolError ToolOutcome
  after_callers id c chars (err e) = ((c, chars), err store_failure)
  after_callers id c chars (ok cs) =
      let (c1, res) = corpus.approximate_callers_of c repo_id id lim.max_callers in
      after_approximate c1 chars cs res

  unfoldable pub callers_tool : C × ℕ → Bytes → (C × ℕ) × Result ToolError ToolOutcome
  unfolding tool_data
  callers_tool w args = decoded w (std.decode_callers args) (λ a.
      let depth = depth_or a.1 in
      let (c, res) = corpus.callers_of w.0 repo_id a.0 depth lim.max_callers in
      if eqb (std.trim_space a.0) [] || (ltb_ℤ depth (pos 1) || ltb_ℤ lim.max_depth depth)
      then malformed w
      else after_callers a.0 c w.1 res)

  -- `Call`, by the name of the tool.
  unfoldable pub tool_call : C × ℕ → ToolCall → (C × ℕ) × Result ToolError ToolOutcome
  unfolding search_tool read_span_tool definition_tool callers_tool
  tool_call w c =
      if eqb c.name (codes "search_code")
      then search_tool w c.args
      else if eqb c.name (codes "read_span")
      then read_span_tool w c.args
      else if eqb c.name (codes "definition_of")
      then definition_tool w c.args
      else if eqb c.name (codes "callers_of")
      then callers_tool w c.args
      else malformed w
