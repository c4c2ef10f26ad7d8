-- ===== src/Agent/Opened.antt =====
-- What the tool set opens: spans that the store gave for this repository, within a budget.
use codetrail.Prelude.{
  ℕ, ◌+◌, ◌≤◌, ◌≡◌, refl, ◌⊎◌, inl, inr, Bool, true, false, ◌&&◌, Option, none, some, List, [], ◌∷◌,
  length, Bytes, codes, eqb, arith, All, Bool-cases, Option-cases, ok, err, Result, ltb,
  if◌then◌else◌,
}
use codetrail.Prelude.Int.{pos, ltb_ℤ, ◌≤ℤ◌}
use codetrail.Models.{Span, Symbol}
use codetrail.Rag.Retrieve.{Found}
use codetrail.Llm.{ToolCall}
use codetrail.Agent.State.{ToolOutcome, ToolError}
use codetrail.Agent.Answers.{
  Corpus, ToolLimits, StoreError, missing, broken, Std, View, tool_data, Caller, Approximate,
  is_empty, span_view, definitions_view, callers_view,
}
use codetrail.Agent.Tools.{
  search_tool, read_span_tool, definition_tool, callers_tool, after_search, after_span,
  after_definitions, after_callers, after_approximate, tool_call, decoded, malformed, depth_or,
}

abbrev pub chars_of : List Span → ℕ
chars_of [] = 0
chars_of (s ∷ ss) = length s.text + chars_of ss

module _ {F C : Type 0} (corpus : Corpus F C) (repo_id : Bytes) where
  -- The store gave the span for this repository.
  abbrev pub Given : Span → Type 0
  Given s = (c : C) × (id : Bytes) × ((corpus.get_span c repo_id id).1 ≡ ok s)

  -- One tool call: what it read was given by the store, its characters are counted, and it does not
  -- read past the budget unless nothing was read before.
  abbrev pub IsOpened : ToolLimits → ℕ → (C × ℕ) × Result ToolError ToolOutcome → Type 0
  IsOpened lim chars (w, err e) = chars ≤ w.1
  IsOpened lim chars (w, ok o) =
      All Given o.read
      × (w.1 ≡ chars + chars_of o.read)
      × ((o.read ≡ []) ⊎ ((chars ≡ 0) ⊎ (pos w.1 ≤ℤ lim.max_span_chars)))

  module _ (std : Std) (lim : ToolLimits) where
    nothing-IsOpened :
        (c : C) (chars : ℕ) (name : Bytes) (v : View) (empty : Bool)
        → IsOpened lim chars ((c, chars), tool_data std name v [] empty)
    unfolding tool_data
    nothing-IsOpened c chars name v empty = elim (Option-cases (std.marshal v)) [
      | inl e ↦ rw (e, IsOpened) (omega arith)
      | inr (b, e) ↦ rw (e, IsOpened) (tt, omega arith, inl refl)
    ]

    IsOpened-if :
        (chars : ℕ) (t : Bool) (x y : (C × ℕ) × Result ToolError ToolOutcome)
        → IsOpened lim chars x
        → (t ≡ false → IsOpened lim chars y)
        → IsOpened lim chars (if t then x else y)
    IsOpened-if chars true x y hx hy = hx
    IsOpened-if chars false x y hx hy = hy refl

    refused-IsOpened :
        (w : C × ℕ) (t : Bool) (y : (C × ℕ) × Result ToolError ToolOutcome)
        → (t ≡ false → IsOpened lim w.1 y)
        → IsOpened lim w.1 (if t then malformed w else y)
    refused-IsOpened w true y h = omega arith
    refused-IsOpened w false y h = h refl

    decoded-IsOpened :
        {A : Type 0} (w : C × ℕ) (m : Option A) (f : A → (C × ℕ) × Result ToolError ToolOutcome)
        → ((a : A) → IsOpened lim w.1 (f a))
        → IsOpened lim w.1 (decoded w m f)
    decoded-IsOpened w none f h = omega arith
    decoded-IsOpened w (some a) f h = h a

    after_search-IsOpened :
        (c : C) (chars : ℕ) (res : Result StoreError (Found F))
        → IsOpened lim chars ((c, chars), after_search std corpus repo_id lim res)
    after_search-IsOpened c chars (err missing) = nothing-IsOpened c chars _ _ _
    after_search-IsOpened c chars (err broken) = omega arith
    after_search-IsOpened c chars (ok out) = nothing-IsOpened c chars _ _ _

    search_tool-IsOpened :
        (w : C × ℕ) (args : Bytes) → IsOpened lim w.1 (search_tool std corpus repo_id lim w args)
    unfolding search_tool
    search_tool-IsOpened w args = decoded-IsOpened w (std.decode_search args) _ (λ a.
        let res = corpus.search w.0 repo_id (std.trim_space a) lim.max_hits in
        (refused-IsOpened w _ _ (λ t. after_search-IsOpened res.0 w.1 res.1)))

    span-IsOpened :
        (c : C) (chars : ℕ) (sp : Span)
        → Given sp
        → (ltb 0 chars && ltb_ℤ lim.max_span_chars (pos (chars + length sp.text))) ≡ false
        → IsOpened lim chars (
          (c, chars + length sp.text),
          tool_data std (codes "read_span") (span_view sp) (sp ∷ []) false,
        )
    unfolding tool_data
    span-IsOpened c chars sp g room = elim (Option-cases (std.marshal (span_view sp))) [
      | inl e ↦ rw (e, IsOpened) (omega arith)
      | inr (b, e) ↦
          rw (e, IsOpened)
            (
              (g, tt),
              omega arith,
              inr (elim (Bool-cases (ltb 0 chars)) [
                | inl some' ↦ inr (ground arith)
                | inr none' ↦ inl (ground arith)
              ]),
            )
    ]

    after_span-IsOpened :
        (id : Bytes) (c : C) (chars : ℕ) (res : Result StoreError Span)
        → ((sp : Span) → res ≡ ok sp → Given sp)
        → IsOpened lim chars (after_span std corpus repo_id lim id c chars res)
    after_span-IsOpened id c chars (err missing) g = nothing-IsOpened c chars _ _ _
    after_span-IsOpened id c chars (err broken) g = omega arith
    after_span-IsOpened id c chars (ok sp) g =
        IsOpened-if chars _ _ _ (nothing-IsOpened c chars _ _ _)
          (λ room. span-IsOpened c chars sp (g sp refl) room)

    read_span_tool-IsOpened :
        (w : C × ℕ) (args : Bytes) → IsOpened lim w.1 (read_span_tool std corpus repo_id lim w args)
    unfolding read_span_tool
    read_span_tool-IsOpened w args = decoded-IsOpened w (std.decode_span args) _ (λ id.
        let res = corpus.get_span w.0 repo_id id in
        (refused-IsOpened w _ _
          (λ t. after_span-IsOpened id res.0 w.1 res.1 (λ sp eq. (w.0, id, eq)))))

    definition_tool-IsOpened :
        (w : C × ℕ) (args : Bytes)
        → IsOpened lim w.1 (definition_tool std corpus repo_id lim w args)
    unfolding definition_tool
    definition_tool-IsOpened w args = decoded-IsOpened w (std.decode_definition args) _ (λ a.
        let res = corpus.definitions w.0 repo_id a.0 a.1 a.2 lim.max_definitions in
        (refused-IsOpened w _ _ (λ t. go res.0 res.1)))
      where
        go :
            (c : C) (res : Result StoreError (List Symbol))
            → IsOpened lim w.1 ((c, w.1), after_definitions std corpus repo_id lim res)
        go c (err e) = omega arith
        go c (ok syms) =
            nothing-IsOpened c w.1 (codes "definition_of") (definitions_view syms) (is_empty syms)

    callers_tool-IsOpened :
        (w : C × ℕ) (args : Bytes) → IsOpened lim w.1 (callers_tool std corpus repo_id lim w args)
    unfolding callers_tool
    callers_tool-IsOpened w args = decoded-IsOpened w (std.decode_callers args) _ (λ a.
        let res = corpus.callers_of w.0 repo_id a.0 (depth_or a.1) lim.max_callers in
        (refused-IsOpened w _ _ (λ t. go a.0 res.0 res.1)))
      where
        last :
            (c : C) (cs : List Caller) (res : Result StoreError (List Approximate))
            → IsOpened lim w.1 (after_approximate std corpus repo_id lim c w.1 cs res)
        last c cs (err e) = omega arith
        last c cs (ok as') =
            nothing-IsOpened c w.1 (codes "callers_of") (callers_view cs as')
              (is_empty cs && is_empty as')

        go :
            (id : Bytes) (c : C) (res : Result StoreError (List Caller))
            → IsOpened lim w.1 (after_callers std corpus repo_id lim id c w.1 res)
        go id c (err e) = omega arith
        go id c (ok cs) =
            let r = corpus.approximate_callers_of c repo_id id lim.max_callers in last r.0 cs r.1

    -- A call of any tool, with any arguments: every span that it reports as read was given by the
    -- store for the repository of the tool set, the characters of those spans are what it adds to
    -- the count, and it reads past the budget only where nothing was read before.
    pub tool_call-IsOpened :
        (w : C × ℕ) (c : ToolCall) → IsOpened lim w.1 (tool_call std corpus repo_id lim w c)
    unfolding tool_call
    tool_call-IsOpened w c =
        let is = λ (name : Bytes). eqb c.name name in
        let y3 =
          if is (codes "callers_of")
          then callers_tool std corpus repo_id lim w c.args
          else malformed w in
        let y2 =
          if is (codes "definition_of")
          then definition_tool std corpus repo_id lim w c.args
          else y3 in
        let y1 =
          if is (codes "read_span") then read_span_tool std corpus repo_id lim w c.args else y2 in
        IsOpened-if w.1 (is (codes "search_code")) (search_tool std corpus repo_id lim w c.args) y1
          (search_tool-IsOpened w c.args)
          (λ a.
            IsOpened-if w.1 (is (codes "read_span"))
              (read_span_tool std corpus repo_id lim w c.args) y2 (read_span_tool-IsOpened w c.args)
              (λ b.
                IsOpened-if w.1 (is (codes "definition_of"))
                  (definition_tool std corpus repo_id lim w c.args) y3
                  (definition_tool-IsOpened w c.args)
                  (λ d.
                    IsOpened-if w.1 (is (codes "callers_of"))
                      (callers_tool std corpus repo_id lim w c.args) (malformed w)
                      (callers_tool-IsOpened w c.args) (λ e. omega arith))))
