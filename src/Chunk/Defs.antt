-- ===== src/Chunk/Defs.antt =====
-- packages/shared/chunk/chunk.go and window.go: options, lines and fixed windows.
use codetrail.Prelude.{
  ℕ, zero, suc, ◌+◌, ◌-◌, min, Bool, not, ◌&&◌, ◌||◌, Option, none, some, List, [], ◌∷◌, length,
  take, drop, leb, ◌==◌, if◌then◌else◌, Bytes, codes, eqb, join, Result, ok, refuse_if, ◌>>◌,
}
use codetrail.Prelude.Int.{ℤ, pos, negsuc, ◌-ℤ◌, leb_ℤ, ltb_ℤ}
use codetrail.Prelude.Utf8.{Unicode, runes, any_rune, all_rune}
use codetrail.Models.{SpanKind, kind_file}

abbrev pub strategy_ast : Bytes
strategy_ast = codes "ast"

abbrev pub strategy_window : Bytes
strategy_window = codes "window"

pub record Options : Type 0 where
  pub strategy : Bytes
  pub window_lines : ℤ
  pub window_overlap : ℤ
  pub max_decl_lines : ℤ

-- `start_line` and `end_line` are 1-based and inclusive.
pub record Chunk : Type 0 where
  pub kind : SpanKind
  pub symbol : Bytes
  pub start_line : ℕ
  pub end_line : ℕ
  pub text : Bytes

abbrev pub defaults : Options
defaults = record {
  strategy = strategy_ast;
  window_lines = pos 40;
  window_overlap = pos 10;
  max_decl_lines = pos 200;
}

pub data OptionsError : Type 0 where
  unknown_strategy bad_window_lines bad_window_overlap bad_max_decl_lines : OptionsError

unfoldable pub validate : Options → Result OptionsError Unit
validate o = do
  refuse_if (not (eqb o.strategy strategy_ast || eqb o.strategy strategy_window)) unknown_strategy
  refuse_if (leb_ℤ o.window_lines (pos 0)) bad_window_lines
  refuse_if (ltb_ℤ o.window_overlap (pos 0) || leb_ℤ o.window_lines o.window_overlap)
      bad_window_overlap
  refuse_if (leb_ℤ o.max_decl_lines (pos 0)) bad_max_decl_lines
  ok tt

abbrev pub newline : ℕ
newline = 10

-- strings.TrimSuffix(s, "\n")
unfoldable pub trim_newline : Bytes → Bytes
trim_newline [] = []
trim_newline (c ∷ []) = if c == newline then [] else c ∷ []
trim_newline (c ∷ d ∷ s) = c ∷ trim_newline (d ∷ s)

abbrev pub cons_head : ℕ → List Bytes → List Bytes
cons_head c [] = (c ∷ []) ∷ []
cons_head c (l ∷ ls) = (c ∷ l) ∷ ls

-- strings.Split(s, "\n")
unfoldable pub split_newline : Bytes → List Bytes
split_newline [] = [] ∷ []
split_newline (c ∷ s) =
    let rest = split_newline s in if c == newline then [] ∷ rest else cons_head c rest

-- strings.TrimSpace(src) is empty exactly when every rune is a space.
unfoldable pub split_lines : Unicode → Bytes → List Bytes
split_lines u src = if all_rune u.is_space (runes src) then [] else split_newline (trim_newline src)

-- strings.Join(ls[start-1:last], "\n"), where `none` is Go's panic on a slice out of range.
unfoldable pub text_of : List Bytes → ℕ → ℕ → Option Bytes
text_of ls zero last = none
text_of ls (suc lo) last =
    if leb lo last && leb last (length ls)
    then some (join (take (last - lo) (drop lo ls)) (newline ∷ []))
    else none

abbrev pub with_text : SpanKind → Bytes → ℕ → ℕ → Option Bytes → Option Chunk
with_text k sym start last none = none
with_text k sym start last (some t) =
    some (record { kind = k; symbol = sym; start_line = start; end_line = last; text = t })

-- One round of the loop of `windows`. A negative `WindowLines` would end before `start - 1`, where
-- the slice panics.
unfoldable pub window_at : List Bytes → ℤ → ℕ → ℕ → Option Chunk
unfolding text_of
window_at ls (negsuc w) start to = none
window_at ls (pos w) start to =
    let last = min (start + w - 1) to in with_text kind_file [] start last (text_of ls start last)

abbrev pub cons_to : Chunk → Option (List Chunk) → Option (List Chunk)
cons_to c none = none
cons_to c (some cs) = some (c ∷ cs)

-- `if end == to { break }`
abbrev pub cons_until : ℕ → Option (List Chunk) → Option Chunk → Option (List Chunk)
cons_until to rest none = none
cons_until to rest (some c) = if c.end_line == to then some (c ∷ []) else cons_to c rest

-- The loop of `windows`, on fuel: `none` also where the fuel runs out.
unfoldable pub tile : ℕ → List Bytes → ℤ → ℕ → ℕ → ℕ → Option (List Chunk)
unfolding window_at
tile zero ls w stride start to = none
tile (suc fuel) ls w stride start to =
    let rest = tile fuel ls w stride (start + stride) to in
    let round = cons_until to rest (window_at ls w start to) in
    if leb start to then round else some []

-- A stride that does not advance is refused.
abbrev pub tile_by : List Bytes → ℕ → ℕ → ℤ → ℤ → Option (List Chunk)
tile_by ls from to w (pos (suc k)) = tile (suc (suc to)) ls w (suc k) from to
tile_by ls from to w _ = some []

unfoldable pub windows : List Bytes → ℕ → ℕ → Options → Option (List Chunk)
unfolding tile ◌-ℤ◌
windows ls from to opt =
    tile_by ls from to opt.window_lines (opt.window_lines -ℤ opt.window_overlap)

unfoldable pub has_tokens : Unicode → Bytes → Bool
has_tokens u text = any_rune (λ r. u.is_letter r || u.is_digit r) (runes text)

unfoldable pub keep_retrievable : Unicode → List Chunk → List Chunk
unfolding has_tokens
keep_retrievable u [] = []
keep_retrievable u (c ∷ cs) =
    let kept = keep_retrievable u cs in if has_tokens u c.text then c ∷ kept else kept

unfoldable pub retrievable : Unicode → List Chunk → List Chunk × ℕ
unfolding keep_retrievable
retrievable u cs = let kept = keep_retrievable u cs in (kept, length cs - length kept)
