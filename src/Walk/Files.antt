-- ===== src/Walk/Files.antt =====
-- packages/shared/walk/walk.go: Files, over a directory tree. The tree is what filepath.WalkDir meets,
-- in its order, and a regular file stands with what ReadRegular makes of it.
use codetrail.Prelude.{
  Bool, not, ◌||◌, Option, none, some, List, [], ◌∷◌, ◌++◌, length, if◌then◌else◌, Bytes, codes,
  eqb, Result, ok, err, ◌>>=◌, ◌>>◌, refuse_if,
}
use codetrail.Prelude.Int.{ℤ, pos, leb_ℤ}
use codetrail.Walk.Lines.{lines}
use codetrail.Indexer.Index.{WalkFile, ReadFile, read_body, read_skipped, read_failed}

-- `other` is a link, a device or the like. A directory that cannot be read has no entries.
mutual
  pub data Node : Type 0 where
    regular : Bytes → ReadFile → Node
    other : Bytes → Node
    directory : Bytes → Nodes → Node
    unreadable : Bytes → Node

  pub data Nodes : Type 0 where
    end : Nodes
    entry : Node → Nodes → Nodes

pub data WalkError : Type 0 where
  bad_max_files bad_max_bytes cancelled unreadable_dir file_failed too_many : WalkError

-- The limits, the context at the time of a path, and the standard library.
pub record Limits : Type 0 where
  pub max_files : ℤ
  pub max_bytes : ℤ
  pub cancelled : Bytes → Bool
  pub utf8_valid : Bytes → Bool
  pub to_lower : Bytes → Bytes
  pub ext : Bytes → Bytes

-- filepath.Rel of an entry: the path below the root, whose own is empty here.
unfoldable pub below : Bytes → Bytes → Bytes
unfolding eqb
below dir name = if eqb dir [] then name else dir ++ (b'/' ∷ name)

-- langByExt
unfoldable pub lang_of : Bytes → Bytes
unfolding eqb
lang_of ext =
    if eqb ext (codes ".go")
    then codes "go"
    else if eqb ext (codes ".md")
    then codes "markdown"
    else if eqb ext (codes ".sql")
    then codes "sql"
    else if eqb ext (codes ".ts")
    then codes "typescript"
    else if eqb ext (codes ".tsx")
    then codes "typescript"
    else if eqb ext (codes ".js")
    then codes "javascript"
    else if eqb ext (codes ".yml")
    then codes "yaml"
    else if eqb ext (codes ".yaml")
    then codes "yaml"
    else if eqb ext (codes ".json")
    then codes "json"
    else []

module _ (lim : Limits) where
  -- The entry is passed over, with what is below it.
  unfoldable pub is_hidden : Bytes → Bytes → Bool
  unfolding eqb
  is_hidden path name = not (lim.utf8_valid path) || eqb name (codes ".git")

  unfoldable pub file_of : Bytes → Bytes → WalkFile
  unfolding lines lang_of
  file_of path body = record {
    path = path;
    lines = lines body;
    lang = lang_of (lim.to_lower (lim.ext path));
  }

  abbrev pub add_read : Bytes → List WalkFile → ReadFile → Result WalkError (List WalkFile)
  add_read path out read_skipped = ok out
  add_read path out read_failed = err file_failed
  add_read path out (read_body body) =
      if leb_ℤ lim.max_files (pos (length out))
      then err too_many
      else ok (out ++ file_of path body ∷ [])

  -- The callback for an entry, up to the tests of its kind: a hidden one changes nothing.
  abbrev pub visit :
      Bytes
      → Bytes
      → List WalkFile
      → Result WalkError (List WalkFile)
      → Result WalkError (List WalkFile)
  visit path name out rest =
      if lim.cancelled path then err cancelled else (if is_hidden path name then ok out else rest)

  unfoldable mutual
    pub walk_node : Bytes → Node → List WalkFile → Result WalkError (List WalkFile)
    walk_node dir (regular name read) out =
        visit (below dir name) name out (add_read (below dir name) out read)
    walk_node dir (other name) out = visit (below dir name) name out (ok out)
    walk_node dir (unreadable name) out = visit (below dir name) name out (err unreadable_dir)
    walk_node dir (directory name nodes) out =
        visit (below dir name) name out (walk_nodes (below dir name) nodes out)

    pub walk_nodes : Bytes → Nodes → List WalkFile → Result WalkError (List WalkFile)
    walk_nodes dir end out = ok out
    walk_nodes dir (entry n ns) out = walk_node dir n out >>= λ out'. walk_nodes dir ns out'

  -- `none` is a root that is not there, and any other is a directory that can be read.
  abbrev pub walk_root : Option Nodes → Result WalkError (List WalkFile)
  walk_root none = err unreadable_dir
  walk_root (some nodes) = if lim.cancelled [] then err cancelled else walk_nodes [] nodes []

  unfoldable pub files : Option Nodes → Result WalkError (List WalkFile)
  unfolding walk_node is_hidden file_of below
  files root = do
    refuse_if (leb_ℤ lim.max_files (pos 0)) bad_max_files
    refuse_if (leb_ℤ lim.max_bytes (pos 0)) bad_max_bytes
    walk_root root
