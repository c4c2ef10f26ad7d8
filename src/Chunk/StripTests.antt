-- ===== src/Chunk/StripTests.antt =====
-- Blanking the doc comments of a small file.
use codetrail.Prelude.{◌≡◌, refl, [], ◌∷◌, Bytes, codes, some, ok, has_prefix}
use codetrail.Chunk.Ast.{has_suffix}
use codetrail.Chunk.Strip.{DocFile, DocParser, func_node, strip_docs}
use codetrail.Chunk.Blanking.{StripOutcome, strip_docs-StripOutcome}

abbrev documented : Bytes
documented = codes "//go:build x\n/* a\nb */\nfunc f()\n"

abbrev documented_file : DocFile
documented_file = record {
  doc = record { offset = 0; text = codes "//go:build x" } ∷ [];
  nodes = func_node (record { offset = 13; text = codes "/* a\nb */" } ∷ []) ∷ [];
}

abbrev parse_documented : DocParser
parse_documented name src = some documented_file

-- The directive stays, and of the block comment its line break.
strip_documented :
    strip_docs parse_documented (codes "f.go") documented
    ≡ ok (codes "//go:build x\n\n\nfunc f()\n")
unfolding strip_docs has_suffix has_prefix
strip_documented = refl

strip_docs-StripOutcome_example :
    StripOutcome documented (strip_docs parse_documented (codes "f.go") documented)
strip_docs-StripOutcome_example = strip_docs-StripOutcome parse_documented (codes "f.go") documented
