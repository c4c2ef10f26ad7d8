-- ===== src/Indexer/IndexTests.antt =====
-- A walk of two files, one of them gone when it is read.
use codetrail.Prelude.{
  ℕ, true, false, none, List, [], ◌∷◌, leb, ◌&&◌, ◌||◌, ◌==◌, if◌then◌else◌, Bytes, codes, eqb,
}
use codetrail.Prelude.Int.{pos}
use codetrail.Prelude.Utf8.{Unicode}
use codetrail.Chunk.Defs.{Options, strategy_window}
use codetrail.Indexer.Index.{WalkFile, ReadFile, read_body, read_skipped, Tree, Indexed}

abbrev ascii : Unicode
ascii = record {
  is_letter = λ r. leb b'a' r && leb r b'z';
  is_digit = λ r. leb b'0' r && leb r b'9';
  is_upper = λ r. leb b'A' r && leb r b'Z';
  is_lower = λ r. leb b'a' r && leb r b'z';
  is_space = λ r. r == 32 || r == 10;
  to_lower = λ r. r;
}

abbrev pairs : Options
pairs = record {
  strategy = strategy_window;
  window_lines = pos 2;
  window_overlap = pos 1;
  max_decl_lines = pos 9;
}

abbrev first_of : List Bytes → Bytes
first_of [] = []
first_of (x ∷ xs) = x

abbrev walked : Bytes → ReadFile
unfolding eqb
walked p = if eqb p (codes "a.txt") then read_body (codes "one\ntwo\n") else read_skipped

abbrev tree : Tree
tree = record {
  hash = first_of;
  digest = λ t. t;
  blob_hash = λ b. b;
  read = walked;
  cancelled = λ p. false;
  utf8_valid = λ b. true;
  unicode = ascii;
  parser = λ name src. none;
  doc_parser = λ name src. none;
  parses = λ p b. false;
  strip = false;
  options = pairs;
}

abbrev two_files : List WalkFile
two_files =
    record { path = codes "a.txt"; lines = 2; lang = codes "text" }
    ∷ record { path = codes "b.txt"; lines = 1; lang = codes "text" }
    ∷ []

abbrev nothing_yet : Indexed ℕ
nothing_yet = record {
  rows = [];
  spans = [];
  parsed = 0;
  vanished = 0;
  unstrippable = 0;
  tokenless = 0;
  unparsed = 0;
}
