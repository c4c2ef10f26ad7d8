-- ===== src/Chunk/Strip.antt =====
-- packages/shared/chunk/strip.go: doc comments are blanked, and no line moves. go/parser is an
-- argument: of its tree, the code reads the doc comments of some kinds of node.
use codetrail.Prelude.{
  ℕ, ◌+◌, Bool, false, not, ◌&&◌, ◌||◌, Option, none, some, List, [], ◌∷◌, length, drop, replicate,
  leb, ltb, ◌==◌, if◌then◌else◌, Bytes, codes, has_prefix, Result, ok, err,
}
use codetrail.Chunk.Defs.{newline}
use codetrail.Chunk.Ast.{has_suffix}

-- A comment's offset in the file, and its text as go/ast holds it.
pub record Comment : Type 0 where
  pub offset : ℕ
  pub text : Bytes

-- The nodes in the order of ast.Inspect, each with its doc comment group, empty where it is nil.
pub data Node : Type 0 where
  func_node gen_node type_node value_node import_node field_node : List Comment → Node
  other_node : Node

pub record DocFile : Type 0 where
  pub doc : List Comment
  pub nodes : List Node

-- parser.ParseFile with comments: `none` is a file that does not parse.
abbrev pub DocParser : Type 0
DocParser = Bytes → Bytes → Option DocFile

unfoldable pub is_lower_alnum : ℕ → Bool
is_lower_alnum b = (leb b'a' b && leb b b'z') || (leb b'0' b && leb b b'9')

-- strings.Index(s, t), for a `t` that is not empty.
unfoldable pub index_of : Bytes → Bytes → Option ℕ
unfolding has_prefix
index_of [] t = none
index_of (c ∷ s) t =
    let rest = index_of s t in
    if has_prefix (c ∷ s) t then some 0 else elim rest [ none ↦ none | some i ↦ some (i + 1) ]

-- The name before the colon, and the byte after it. The fields of a name must be lower case letters
-- or digits, and so must that byte; an empty name is refused.
name_value : ℕ → Bytes → Bool
unfolding is_lower_alnum
name_value i [] = false
name_value i (c ∷ []) = false
name_value i (c ∷ d ∷ s) =
    let rest = name_value (i + 1) (d ∷ s) in
    if c == b':' then ltb 0 i && is_lower_alnum d else is_lower_alnum c && rest

unfoldable pub is_directive : Bytes → Bool
unfolding name_value has_prefix
is_directive text =
    if has_prefix text (codes "//")
    then (let c = drop 2 text in
        has_prefix c (codes "line ")
        || (has_prefix c (codes "extern ") || (has_prefix c (codes "export ") || name_value 0 c)))
    else false

abbrev offset_or : ℕ → ℕ → Option ℕ → ℕ
offset_or base last none = last
offset_or base last (some i) = base + i

-- src[start+1] == '*'
abbrev starts_block : Bytes → Bool
starts_block (_ ∷ c ∷ _) = c == b'*'
starts_block _ = false

unfoldable pub comment_end : Bytes → ℕ → ℕ
unfolding index_of
comment_end src start =
    if starts_block (drop start src)
    then offset_or (start + 4) (length src) (index_of (drop (start + 2) src) (codes "*/"))
    else offset_or start (length src) (index_of (drop start src) (newline ∷ []))

-- drop[i] = true for start <= i < last; the first argument is the index of the mask's head.
unfoldable pub mark : ℕ → ℕ → ℕ → List Bool → List Bool
mark i start last [] = []
mark i start last (d ∷ ds) = ((leb start i && ltb i last) || d) ∷ mark (i + 1) start last ds

-- `add`, on the comments of one group.
unfoldable pub add_group : Bytes → List Comment → List Bool → List Bool
unfolding mark is_directive comment_end
add_group src [] ds = ds
add_group src (c ∷ cs) ds =
    add_group src cs
      (if is_directive c.text then ds else mark 0 c.offset (comment_end src c.offset) ds)

unfoldable pub node_doc : Node → List Comment
node_doc (func_node g) = g
node_doc (gen_node g) = g
node_doc (type_node g) = g
node_doc (value_node g) = g
node_doc (import_node g) = g
node_doc (field_node g) = g
node_doc other_node = []

unfoldable pub add_nodes : Bytes → List Node → List Bool → List Bool
unfolding add_group node_doc
add_nodes src [] ds = ds
add_nodes src (n ∷ ns) ds = add_nodes src ns (add_group src (node_doc n) ds)

unfoldable pub drop_mask : Bytes → DocFile → List Bool
unfolding add_nodes add_group
drop_mask src f = add_nodes src f.nodes (add_group src f.doc (replicate (length src) false))

abbrev pub carriage_return : ℕ
carriage_return = 13

abbrev pub is_terminator : ℕ → Bool
is_terminator b = b == newline || b == carriage_return

-- The loop that writes `out`; the mask is as long as the source.
unfoldable pub blank : Bytes → List Bool → Bytes
blank [] ds = []
blank (b ∷ src) [] = b ∷ src
blank (b ∷ src) (d ∷ ds) =
    let rest = blank src ds in if d && not (is_terminator b) then rest else b ∷ rest

-- bytes.Count(s, "\n")
unfoldable pub count_lines : Bytes → ℕ
count_lines [] = 0
count_lines (b ∷ s) = let rest = count_lines s in if b == newline then rest + 1 else rest

pub data StripError : Type 0 where
  unparsed lines_moved broken : StripError

abbrev pub checked : Bytes → Bytes → Option DocFile → Result StripError Bytes
checked src out none = if count_lines out == count_lines src then err broken else err lines_moved
checked src out (some f) = if count_lines out == count_lines src then ok out else err lines_moved

-- `selfCheck`, with what `StripDocs` returns after it.
unfoldable pub self_check : DocParser → Bytes → Bytes → Bytes → Result StripError Bytes
unfolding count_lines
self_check parse filename src out = checked src out (parse filename out)

abbrev pub stripped : DocParser → Bytes → Bytes → Option DocFile → Result StripError Bytes
stripped parse filename src none = err unparsed
stripped parse filename src (some f) = self_check parse filename src (blank src (drop_mask src f))

unfoldable pub strip_docs : DocParser → Bytes → Bytes → Result StripError Bytes
unfolding self_check blank drop_mask
strip_docs parse filename src =
    if has_suffix filename (codes ".go")
    then stripped parse filename src (parse filename src)
    else ok src
