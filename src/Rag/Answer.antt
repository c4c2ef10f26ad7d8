-- ===== src/Rag/Answer.antt =====
-- packages/shared/rag/answer.go: the extractive answer, spans that are cited whole within a budget.
use codetrail.Prelude.{
  ℕ, ◌+◌, Bool, ◌&&◌, ◌||◌, none, some, List, [], ◌∷◌, ◌++◌, length, ltb, if◌then◌else◌, Bytes,
  codes, eqb, Result, ok, refuse_if, ◌>>◌,
}
use codetrail.Prelude.Int.{ℤ, pos, ltb_ℤ, leb_ℤ}
use codetrail.Prelude.Strings.{decimal}
use codetrail.Models.{Repo, Span, SpanKind}
use codetrail.Rag.Fuse.{Fused}
use codetrail.Rag.Retrieve.{span_at}
use codetrail.Rag.Cite.{Outside, Newer, Citation, new_citation}

pub record Budget : Type 0 where
  pub max_spans : ℤ
  pub max_chars : ℤ

abbrev pub default_budget : Budget
default_budget = record { max_spans = pos 5; max_chars = pos 8000 }

pub data BudgetError : Type 0 where
  bad_spans bad_chars : BudgetError

unfoldable pub validate_budget : Budget → Result BudgetError Unit
validate_budget b = do
  refuse_if (ltb_ℤ b.max_spans (pos 1)) bad_spans
  refuse_if (ltb_ℤ b.max_chars (pos 1)) bad_chars
  ok tt

pub record Cited : Type 0 where
  pub marker : ℕ
  pub span_id : Bytes
  pub kind : SpanKind
  pub symbol : Bytes
  pub citation : Citation

pub record Answer : Type 0 where
  pub text : Bytes
  pub citations : List Cited
  pub dropped : ℕ

unfoldable pub render : ℕ → Span → Bytes
unfolding eqb decimal
render marker sp =
    let head =
      codes "["
      ++ (decimal marker
          ++ (codes "] "
              ++ (sp.path
                  ++ (codes ":"
                      ++ (decimal sp.start_line ++ (codes "-" ++ decimal sp.end_line)))))) in
    (if eqb sp.symbol [] then head else head ++ (codes " (" ++ (sp.symbol ++ codes ")")))
    ++ (codes "\n" ++ sp.text)

abbrev pub cite : Outside → Repo → Newer → ℕ → ℕ → Span → Cited
cite o r newer now marker sp = record {
  marker = marker;
  span_id = sp.id;
  kind = sp.kind;
  symbol = sp.symbol;
  citation = new_citation o r sp newer now;
}

-- The text that a span adds to an answer.
abbrev pub block : Answer → Span → Bytes
block a sp =
    let shown = render (length a.citations + 1) sp in
    if ltb 0 (length a.text) then codes "\n\n" ++ shown else shown

-- len(a.Citations) > 0 && (len(a.Citations) >= b.MaxSpans || sb.Len()+len(block) > b.MaxChars)
unfoldable pub over : Budget → Answer → Span → Bool
unfolding render
over b a sp =
    ltb 0 (length a.citations)
    && (leb_ℤ b.max_spans (pos (length a.citations))
        || ltb_ℤ b.max_chars (pos (length a.text + length (block a sp))))

abbrev pub extend : Outside → Repo → Newer → ℕ → Answer → Span → Answer
extend o r newer now a sp = record a {
  text = a.text ++ block a sp;
  citations = a.citations ++ cite o r newer now (length a.citations + 1) sp ∷ [];
}

module _ {F : Type 0} (o : Outside) (r : Repo) (spans : List (Bytes × Span)) (newer : Newer) where
  -- The loop over the hits from an answer in the making; `rest` are the hits after this one.
  unfoldable pub assemble_from : ℕ → Budget → List (Fused F) → Answer → Answer
  unfolding over
  assemble_from now b [] a = a
  assemble_from now b (h ∷ rest) a = elim (span_at spans h.span_id) [
    | none ↦ assemble_from now b rest (record a { dropped = a.dropped + 1 })
    | some sp ↦
        let more = assemble_from now b rest (extend o r newer now a sp) in
        if over b a sp then record a { dropped = a.dropped + length (h ∷ rest) } else more
  ]

  unfoldable pub assemble : List (Fused F) → ℕ → Budget → Answer
  unfolding assemble_from
  assemble hits now b = assemble_from now b hits (record { text = []; citations = []; dropped = 0 })
