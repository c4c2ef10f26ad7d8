-- ===== src/Chunk/Tests.antt =====
-- Cutting a small file, by windows and by declarations.
use codetrail.Prelude.{
  true, ℕ, ◌≡◌, refl, List, [], ◌∷◌, length, ◌-◌, Bytes, codes, eqb, has_prefix, join, leb, ◌&&◌,
  ◌||◌, ◌==◌, ok, Option, some, none, Any, ◌⊎◌, arith, false,
}
use codetrail.Prelude.Int.{pos}
use codetrail.Prelude.Utf8.{Unicode, runes, any_rune, all_rune}
use codetrail.Models.{kind_func}
use codetrail.Chunk.Defs.{
  Options, Chunk, strategy_ast, strategy_window, validate, split_lines, split_newline, trim_newline,
  windows, has_tokens,
}
use codetrail.Chunk.Ast.{Parser, func_decl, ident, star_expr, decl, has_suffix, cut, chunks}
use codetrail.Chunk.Tiling.{Contains, IsValid, Tiled, validate-IsValid, windows-Tiled}
use codetrail.Chunk.Exact.{Kept, chunks-Kept, cut-covers}

abbrev letters : Unicode
letters = record {
  is_letter = λ r. leb b'a' r && leb r b'z';
  is_digit = λ r. leb b'0' r && leb r b'9';
  is_upper = λ r. leb b'A' r && leb r b'Z';
  is_lower = λ r. leb b'a' r && leb r b'z';
  is_space = λ r. r == 32 || r == 10;
  to_lower = λ r. r;
}

abbrev by_window : Options
by_window = record {
  strategy = strategy_window;
  window_lines = pos 2;
  window_overlap = pos 1;
  max_decl_lines = pos 9;
}

abbrev by_decl : Options
by_decl = record {
  strategy = strategy_ast;
  window_lines = pos 2;
  window_overlap = pos 1;
  max_decl_lines = pos 9;
}

-- Five lines: a package clause, a blank line and a method of three lines.
abbrev source : Bytes
source = codes "package p\n\nfunc (t *T) f() {\n\treturn\n}\n"

abbrev source_lines : List Bytes
source_lines =
    codes "package p" ∷ [] ∷ codes "func (t *T) f() {" ∷ codes "\treturn" ∷ codes "}" ∷ []

abbrev one_method : Parser
one_method name src = some (
    func_decl (some (codes "f")) (star_expr (ident (codes "T")) ∷ [])
      (record { pos_line = 3; doc_line = none; end_line = 5 })
    ∷ [])

split_source : split_lines letters source ≡ source_lines
unfolding split_lines split_newline trim_newline all_rune runes
split_source = refl

window_valid : validate by_window ≡ ok tt
unfolding validate eqb
window_valid = refl

decl_valid : validate by_decl ≡ ok tt
unfolding validate eqb
decl_valid = refl

cut_method :
    cut letters one_method (codes "p.go") source source_lines by_decl
    ≡ some (
      record {
        kind = kind_func;
        symbol = codes "T.f";
        start_line = 3;
        end_line = 5;
        text = codes "func (t *T) f() {\n\treturn\n}";
      }
          ∷ [],
      0,
    )
unfolding cut eqb has_suffix has_prefix any_rune runes join
cut_method = refl

window-IsValid : IsValid by_window
window-IsValid = validate-IsValid by_window window_valid

windows-Tiled_example :
    Tiled source_lines window-IsValid.size 2 5 (windows source_lines 2 5 by_window)
windows-Tiled_example =
    windows-Tiled source_lines 2 5 by_window window-IsValid (omega arith) (omega arith)

chunks-Kept_example :
    (r : Option (List Chunk × ℕ)) × (chunks letters one_method (codes "p.go") source by_decl ≡ ok r)
    × Kept letters (split_lines letters source) r
unfolding decl
chunks-Kept_example =
    chunks-Kept letters one_method (codes "p.go") source by_decl decl_valid
      (rw split_source ((omega arith, omega arith, omega arith), tt))

window_strategy : eqb by_window.strategy strategy_window ≡ true
unfolding eqb
window_strategy = refl

cut-covers_example :
    (cs kept : List Chunk) × (windows source_lines 1 (length source_lines) by_window ≡ some cs)
    × (cut letters one_method (codes "p.go") source source_lines by_window
        ≡ some (kept, length cs - length kept))
    × (Any (Contains 2) kept ⊎ Any (λ c. Contains 2 c × (has_tokens letters c.text ≡ false)) cs)
cut-covers_example =
    cut-covers letters one_method (codes "p.go") source by_window source_lines 2 window_valid
      window_strategy (omega arith) (omega arith)
