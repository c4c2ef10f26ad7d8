-- ===== src/Indexer/Index.antt =====
-- apps/indexer/cmd/main.go: `index` up to the vectors, and the ids of packages/shared/store. Each file
-- of a walk becomes one row, and the spans of its chunks.
use codetrail.Prelude.{
  ℕ, ◌+◌, Bool, false, not, ◌&&◌, ◌||◌, Option, none, some, List, [], ◌∷◌, ◌++◌, map, ◌==◌,
  if◌then◌else◌, Bytes, codes, eqb, Result, ok, err, ◌>>=◌,
}
use codetrail.Prelude.Strings.{decimal}
use codetrail.Prelude.Utf8.{Unicode}
use codetrail.Chunk.Defs.{Chunk, Options, OptionsError}
use codetrail.Chunk.Ast.{Parser, chunks}
use codetrail.Chunk.Strip.{DocParser, StripError, strip_docs}
use codetrail.Indexer.Vectors.{EmbeddedSpan}

-- walk.File, without the size.
pub record WalkFile : Type 0 where
  pub path : Bytes
  pub lines : ℕ
  pub lang : Bytes

-- models.File
pub record FileRow : Type 0 where
  pub id : Bytes
  pub repo_id : Bytes
  pub path : Bytes
  pub lang : Bytes
  pub lines : ℕ
  pub blob : Bytes

-- walk.ReadRegular: the bytes, ErrSkipped, or another error.
pub data ReadFile : Type 0 where
  read_body : Bytes → ReadFile
  read_skipped read_failed : ReadFile

-- What `index` takes from elsewhere: the hashes over SHA-256 and git's, the file system at the time
-- of each file, the context, utf8.Valid, and the parsers.
pub record Tree : Type 0 where
  pub hash : List Bytes → Bytes
  pub digest : Bytes → Bytes
  pub blob_hash : Bytes → Bytes
  pub read : Bytes → ReadFile
  pub cancelled : Bytes → Bool
  pub utf8_valid : Bytes → Bool
  pub unicode : Unicode
  pub parser : Parser
  pub doc_parser : DocParser
  pub parses : Bytes → Bytes → Bool
  pub strip : Bool
  pub options : Options

unfoldable pub file_id : Tree → Bytes → Bytes → Bytes
file_id t repo_id path = t.hash (repo_id ∷ path ∷ [])

unfoldable pub span_id : Tree → Bytes → Bytes → ℕ → ℕ → Bytes → Bytes
unfolding decimal
span_id t repo_id path start end digest =
    t.hash (repo_id ∷ path ∷ decimal start ∷ decimal end ∷ digest ∷ [])

unfoldable pub has_zero : Bytes → Bool
has_zero [] = false
has_zero (c ∷ s) = c == 0 || has_zero s

-- walk.Indexable
unfoldable pub indexable : Tree → WalkFile → Bytes → Bool
unfolding has_zero eqb
indexable t f body = not (eqb f.lang []) && (t.utf8_valid body && not (has_zero body))

pub data IndexError : Type 0 where
  index_cancelled reading_failed index_panic : IndexError
  chunking_failed : OptionsError → IndexError

-- The variables of the loop: the rows, the spans, how many files parsed, and the counters of the log.
pub record Indexed (C : Type 0) : Type 0 where
  pub rows : List FileRow
  pub spans : List (EmbeddedSpan C)
  pub parsed : ℕ
  pub vanished : ℕ
  pub unstrippable : ℕ
  pub tokenless : ℕ
  pub unparsed : ℕ

abbrev pub new_row : Tree → Bytes → WalkFile → FileRow
new_row t repo_id f = record {
  id = file_id t repo_id f.path;
  repo_id = repo_id;
  path = f.path;
  lang = f.lang;
  lines = f.lines;
  blob = [];
}

abbrev pub span_of : {C : Type 0} → Tree → Bytes → WalkFile → Chunk → EmbeddedSpan C
span_of t repo_id f c =
    let d = t.digest c.text in
    record {
      span = record {
        id = span_id t repo_id f.path c.start_line c.end_line d;
        repo_id = repo_id;
        file_id = file_id t repo_id f.path;
        path = f.path;
        kind = c.kind;
        symbol = c.symbol;
        start_line = c.start_line;
        end_line = c.end_line;
        text = c.text;
        digest = d;
      };
      embedding = [];
    }

-- The text that is cut into chunks; `none` is a file that cannot be stripped.
abbrev pub stripped_or_not : Result StripError Bytes → Option Bytes
stripped_or_not (ok src) = some src
stripped_or_not (err e) = none

unfoldable pub source_of : Tree → WalkFile → Bytes → Option Bytes
source_of t f body =
    if t.strip then stripped_or_not (strip_docs t.doc_parser f.path body) else some body

module _ {C : Type 0} (t : Tree) (repo_id : Bytes) where
  abbrev pub count_parsed : WalkFile → Bytes → Indexed C → Indexed C
  count_parsed f body a =
      if eqb f.lang (codes "go")
      then (if t.parses f.path body
          then record a { parsed = a.parsed + 1 }
          else record a { unparsed = a.unparsed + 1 })
      else a

  abbrev pub add_chunks :
      WalkFile
      → Indexed C
      → Result OptionsError (Option (List Chunk × ℕ))
      → Result IndexError (Indexed C)
  add_chunks f a (err e) = err (chunking_failed e)
  add_chunks f a (ok none) = err index_panic
  add_chunks f a (ok (some (cs, blank))) = ok (record a {
    spans = a.spans ++ map (span_of t repo_id f) cs;
    tokenless = a.tokenless + blank;
  })

  abbrev pub add_source : WalkFile → Indexed C → Option Bytes → Result IndexError (Indexed C)
  add_source f a none = ok (record a { unstrippable = a.unstrippable + 1 })
  add_source f a (some src) = add_chunks f a (chunks t.unicode t.parser f.path src t.options)

  -- One round of the loop, once the file is read.
  abbrev pub add_file : WalkFile → Indexed C → ReadFile → Result IndexError (Indexed C)
  add_file f a read_failed = err reading_failed
  add_file f a read_skipped =
      ok (record a { rows = a.rows ++ new_row t repo_id f ∷ []; vanished = a.vanished + 1 })
  add_file f a (read_body body) =
      let b = record a {
        rows = a.rows ++ record (new_row t repo_id f) { blob = t.blob_hash body } ∷ [];
      } in
      if indexable t f body then add_source f (count_parsed f body b) (source_of t f body) else ok b

  unfoldable pub index_from : List WalkFile → Indexed C → Result IndexError (Indexed C)
  index_from [] a = ok a
  index_from (f ∷ fs) a =
      if t.cancelled f.path
      then err index_cancelled
      else (add_file f a (t.read f.path) >>= λ b. index_from fs b)
