-- ===== src/Walk/Tests.antt =====
-- The lines of a file that does not end in a line break, and a tree with a hidden directory.
use codetrail.Prelude.{
  ◌≡◌, refl, true, false, some, List, [], ◌∷◌, map, Result, ok, err, length, leb, ◌&&◌, ◌||◌, ◌==◌,
  Bytes, codes,
}
use codetrail.Prelude.Utf8.{Unicode, runes, all_rune}
use codetrail.Chunk.Defs.{split_lines}
use codetrail.Prelude.Int.{pos}
use codetrail.Indexer.Index.{WalkFile, read_body, read_skipped}
use codetrail.Walk.Files.{regular, directory, Nodes, end, entry, Limits, files}
use codetrail.Walk.Listed.{FilesOutcome, files-FilesOutcome}
use codetrail.Walk.Lines.{count_newlines, ends_line, lines, length-split_lines}

abbrev ascii : Unicode
ascii = record {
  is_letter = λ r. leb b'a' r && leb r b'z';
  is_digit = λ r. leb b'0' r && leb r b'9';
  is_upper = λ r. leb b'A' r && leb r b'Z';
  is_lower = λ r. leb b'a' r && leb r b'z';
  is_space = λ r. r == 32 || r == 10;
  to_lower = λ r. r;
}

abbrev source : Bytes
source = codes "package b\nvar X = 1"

two_lines : lines source ≡ 2
unfolding lines count_newlines ends_line
two_lines = refl

has_text : all_rune ascii.is_space (runes source) ≡ false
unfolding all_rune runes
has_text = refl

length-split_lines_example : length (split_lines ascii source) ≡ lines source
length-split_lines_example = length-split_lines ascii source has_text

abbrev limits : Limits
limits = record {
  max_files = pos 5;
  max_bytes = pos 100;
  cancelled = λ p. false;
  utf8_valid = λ p. true;
  to_lower = λ s. s;
  ext = λ p. codes ".go";
}

abbrev tree : Nodes
tree =
    entry (directory (codes ".git") (entry (regular (codes "HEAD") (read_body (codes "x"))) end)) (
      entry (directory (codes "a") (entry (regular (codes "b.go") (read_body source)) end))
        (entry (regular (codes "c.go") read_skipped) end))

abbrev paths_of : {E : Type 0} → Result E (List WalkFile) → List Bytes
paths_of (err e) = []
paths_of (ok fs) = map (λ f. f.path) fs

one_file : paths_of (files limits (some tree)) ≡ codes "a/b.go" ∷ []
unfolding files
one_file = refl

files-FilesOutcome_example : FilesOutcome limits tree (files limits (some tree))
files-FilesOutcome_example = files-FilesOutcome limits tree
