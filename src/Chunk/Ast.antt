-- ===== src/Chunk/Ast.antt =====
-- packages/shared/chunk/ast.go. go/parser is not part of the repository: its result on a file is an
-- argument, as the part of go/ast that the code looks at, with positions as physical lines.
use codetrail.Prelude.{
  ℕ, ◌+◌, ◌-◌, Bool, Option, none, some, List, [], ◌∷◌, ◌++◌, length, if◌then◌else◌, Bytes, codes,
  eqb, has_prefix, Result, ok, ◌>>◌,
}
use codetrail.Prelude.Int.{pos, ltb_ℤ}
use codetrail.Prelude.Utf8.{Unicode}
use codetrail.Models.{SpanKind, kind_func, kind_type, kind_const, kind_var}
use codetrail.Chunk.Defs.{
  Options, OptionsError, Chunk, validate, strategy_window, split_lines, text_of, with_text, windows,
  retrievable,
}
use mathlib.Core.List.{reverse}

-- The receiver's type expression.
pub data Expr : Type 0 where
  star_expr : Expr → Expr
  index_expr : Expr → Expr
  index_list_expr : Expr → Expr
  ident : Bytes → Expr
  other_expr : Expr

-- `d.Tok`; `import` is the one token that is no span.
pub data Token : Type 0 where
  import_tok type_tok const_tok var_tok : Token

pub data Spec : Type 0 where
  type_spec : Option Bytes → Spec
  value_spec : List Bytes → Spec
  import_spec : Spec

-- The first line of `d.Pos()`, of its doc comment if it has one, and the line of `d.End()`.
pub record Place : Type 0 where
  pub pos_line : ℕ
  pub doc_line : Option ℕ
  pub end_line : ℕ

-- `recv` holds the types of the receiver list, empty for a function.
pub data AstDecl : Type 0 where
  func_decl : Option Bytes → List Expr → Place → AstDecl
  gen_decl : Token → List Spec → Place → AstDecl
  bad_decl : AstDecl

pub record DeclInfo : Type 0 where
  pub kind : SpanKind
  pub symbol : Bytes
  pub start : ℕ
  pub last : ℕ

unfoldable pub recv_base : Expr → Bytes
recv_base (star_expr x) = recv_base x
recv_base (index_expr x) = recv_base x
recv_base (index_list_expr x) = recv_base x
recv_base (ident name) = name
recv_base other_expr = []

unfoldable pub first_name : List Spec → Bytes
first_name [] = []
first_name (type_spec (some name) ∷ _) = name
first_name (type_spec none ∷ specs) = first_name specs
first_name (value_spec (name ∷ _) ∷ _) = name
first_name (value_spec [] ∷ specs) = first_name specs
first_name (import_spec ∷ specs) = first_name specs

abbrev pub dot : Bytes
dot = codes "."

method_symbol : Bytes → List Expr → Bytes
unfolding recv_base
method_symbol name [] = name
method_symbol name (recv ∷ _) =
    let base = recv_base recv in if eqb base [] then name else base ++ dot ++ name

abbrev start_line : Place → ℕ
start_line p = elim p.doc_line [ none ↦ p.pos_line | some l ↦ l ]

abbrev located : SpanKind → Bytes → Place → Option DeclInfo
located k sym p = some (record { kind = k; symbol = sym; start = start_line p; last = p.end_line })

-- `Decl`; `none` is its `false`.
unfoldable pub decl : AstDecl → Option DeclInfo
unfolding method_symbol first_name
decl (func_decl none recv p) = none
decl (func_decl (some name) recv p) = located kind_func (method_symbol name recv) p
decl (gen_decl type_tok specs p) = located kind_type (first_name specs) p
decl (gen_decl const_tok specs p) = located kind_const (first_name specs) p
decl (gen_decl var_tok specs p) = located kind_var (first_name specs) p
decl (gen_decl import_tok specs p) = none
decl bad_decl = none

abbrev pub append_to : Option (List Chunk) → Option (List Chunk) → Option (List Chunk)
append_to none rest = none
append_to (some cs) none = none
append_to (some cs) (some ds) = some (cs ++ ds)

abbrev pub singleton : Option Chunk → Option (List Chunk)
singleton none = none
singleton (some c) = some (c ∷ [])

-- One declaration: nothing, windows over a long one, or one chunk. `end - start + 1` is at least 1
-- in the source too, since a declaration does not end before it starts.
unfoldable pub decl_chunks : List Bytes → Options → Option DeclInfo → Option (List Chunk)
decl_chunks ls opt none = some []
decl_chunks ls opt (some d) =
    if ltb_ℤ opt.max_decl_lines (pos (d.last + 1 - d.start))
    then windows ls d.start d.last opt
    else singleton (with_text d.kind d.symbol d.start d.last (text_of ls d.start d.last))

unfoldable pub decls_chunks : List Bytes → Options → List AstDecl → Option (List Chunk)
unfolding decl decl_chunks
decls_chunks ls opt [] = some []
decls_chunks ls opt (d ∷ ds) = append_to (decl_chunks ls opt (decl d)) (decls_chunks ls opt ds)

-- strings.HasSuffix
unfoldable pub has_suffix : Bytes → Bytes → Bool
has_suffix s t = has_prefix (reverse s) (reverse t)

-- go/parser.ParseFile on a file name and its bytes: `none` is a file that does not parse.
abbrev pub Parser : Type 0
Parser = Bytes → Bytes → Option (List AstDecl)

abbrev pub parsed_chunks : List Bytes → Options → Option (List AstDecl) → Option (List Chunk)
parsed_chunks ls opt none = windows ls 1 (length ls) opt
parsed_chunks ls opt (some ds) = decls_chunks ls opt ds

unfoldable pub ast_chunks : Parser → Bytes → Bytes → List Bytes → Options → Option (List Chunk)
unfolding windows decls_chunks
ast_chunks parse filename src ls opt =
    if has_suffix filename (codes ".go")
    then parsed_chunks ls opt (parse filename src)
    else windows ls 1 (length ls) opt

abbrev pub kept_of : Unicode → Option (List Chunk) → Option (List Chunk × ℕ)
kept_of u none = none
kept_of u (some cs) = some (retrievable u cs)

-- What `Chunks` does to a file of the lines `ls` once its options are valid.
unfoldable pub cut :
    Unicode → Parser → Bytes → Bytes → List Bytes → Options → Option (List Chunk × ℕ)
unfolding windows ast_chunks retrievable
cut u parse filename src [] opt = some ([], 0)
cut u parse filename src ls opt = kept_of u (
    if eqb opt.strategy strategy_window
    then windows ls 1 (length ls) opt
    else ast_chunks parse filename src ls opt)

-- `Chunks`: invalid options are an error, and `ok none` is a panic.
unfoldable pub chunks :
    Unicode → Parser → Bytes → Bytes → Options → Result OptionsError (Option (List Chunk × ℕ))
unfolding validate cut
chunks u parse filename src opt = do
  validate opt
  ok (cut u parse filename src (split_lines u src) opt)
