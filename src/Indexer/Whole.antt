-- ===== src/Indexer/Whole.antt =====
-- About `index` over a whole walk: one row for a file, and spans that are true to their files.
use codetrail.Prelude.{◌≡◌, List, ◌++◌, map, Bytes, Result, ok, err, All}
use codetrail.Indexer.Vectors.{EmbeddedSpan}
use codetrail.Indexer.Index.{
  WalkFile, Tree, IndexError, index_cancelled, reading_failed, index_panic, chunking_failed,
  Indexed,
}
use codetrail.Indexer.Indexes.{OfFiles}

-- The rows that the walk's files add, and their spans.
abbrev pub IndexOutcome :
    (C : Type 0) → Tree → Bytes → List WalkFile → Indexed C → Result IndexError (Indexed C) → Type 0
IndexOutcome C t repo_id fs a (ok out) =
    (more : List (EmbeddedSpan C)) × (out.spans ≡ a.spans ++ more)
    × All (OfFiles C t repo_id fs) more
    × (map (λ r. r.path) out.rows ≡ map (λ r. r.path) a.rows ++ map (λ f. f.path) fs)
IndexOutcome C t repo_id fs a (err index_cancelled) = Unit
IndexOutcome C t repo_id fs a (err reading_failed) = Unit
IndexOutcome C t repo_id fs a (err index_panic) = ⊥
IndexOutcome C t repo_id fs a (err (chunking_failed e)) = ⊥
