-- ===== src/Models.antt =====
-- packages/shared/models/models.go: the rows that the other packages pass around. A Go string is
-- `Bytes`; a time is a number of nanoseconds; `Option` stands where the empty string means NULL.
use codetrail.Prelude.{ℕ, Bytes, codes}

pub record Repo : Type 0 where
  pub id : Bytes
  pub remote : Bytes
  pub ref : Bytes
  pub commit : Bytes
  pub size_bytes : ℕ
  pub indexed_at : ℕ

-- `SpanKind` is a string type in the source, and a closed set.
pub data SpanKind : Type 0 where
  kind_func kind_type kind_const kind_var kind_file : SpanKind

pub record Span : Type 0 where
  pub id : Bytes
  pub repo_id : Bytes
  pub file_id : Bytes
  pub path : Bytes
  pub kind : SpanKind
  pub symbol : Bytes
  pub start_line : ℕ
  pub end_line : ℕ
  pub text : Bytes
  pub digest : Bytes

pub record Symbol : Type 0 where
  pub id : Bytes
  pub repo_id : Bytes
  pub file_id : Bytes
  pub path : Bytes
  pub name : Bytes
  pub pkg : Bytes
  pub kind : SpanKind
  pub start_line : ℕ
  pub end_line : ℕ
  pub span_id : Bytes

abbrev pub kind_name : SpanKind → Bytes
kind_name kind_func = codes "func"
kind_name kind_type = codes "type"
kind_name kind_const = codes "const"
kind_name kind_var = codes "var"
kind_name kind_file = codes "file"

pub data Provenance : Type 0 where
  resolved syntactic : Provenance

pub data EdgeKind : Type 0 where
  calls imports references : EdgeKind

pub record Edge : Type 0 where
  pub id : Bytes
  pub repo_id : Bytes
  pub from_symbol_id : Bytes
  pub to_symbol_id : Bytes
  pub to_name : Bytes
  pub kind : EdgeKind
  pub provenance : Provenance
  pub path : Bytes
  pub line : ℕ
