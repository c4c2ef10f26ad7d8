-- ===== src/Indexer/Vectors.antt =====
-- apps/indexer/cmd/reindex.go and the end of `index` in main.go: where the vectors of a commit's
-- spans come from, the store of earlier commits or the embedder. A vector is a list of components.
use codetrail.Prelude.{
  ℕ, zero, suc, ◌+◌, Bool, true, false, ◌&&◌, ◌||◌, Option, none, some, List, [], ◌∷◌, map, length,
  get_elem?, take, drop, ◌==◌, if◌then◌else◌, Bytes, eqb, Result, ok, err,
}
use codetrail.Prelude.Int.{ℤ, negsuc, pos}
use codetrail.Models.{Span}

-- store.EmbeddedSpan
pub record EmbeddedSpan (C : Type 0) : Type 0 where
  pub span : Span
  pub embedding : List C

-- The parts of an indexer that its vectors depend on: the embedder, `store.EmbeddingsByDigest` and
-- the reads of fastPath. The map that the store answers is an association list.
pub record Source (C E : Type 0) : Type 0 where
  pub model : Bytes
  pub dim : ℕ
  pub embed : List Bytes → Result E (List (List C))
  pub embeddings : List Bytes → Bytes → ℕ → Result E (List (Bytes × List C))
  pub has_repo : Bytes → Bool
  pub count_spans : Bytes → Result E ℕ
  pub span_embedder : Bytes → Result E (Bytes × ℕ)
  pub reuse_on : Bool
  pub embed_batch : ℕ

abbrev has_spans : {E : Type 0} → Result E ℕ → Bool
has_spans (err e) = false
has_spans (ok zero) = false
has_spans (ok (suc n)) = true

abbrev by_this : {E : Type 0} → Bytes → ℕ → Result E (Bytes × ℕ) → Bool
by_this model dim (err e) = false
by_this model dim (ok (m, d)) = eqb m model && d == dim

-- The commit is indexed already in the form that this worker would give it.
unfoldable pub fast_path : {C E : Type 0} → Source C E → Bytes → Bool
unfolding eqb
fast_path ix repo_id =
    ix.has_repo repo_id
    && (has_spans (ix.count_spans repo_id) && by_this ix.model ix.dim (ix.span_embedder repo_id))

unfoldable pub seen : Bytes → List Bytes → Bool
seen d [] = false
seen d (x ∷ xs) = eqb x d || seen d xs

-- The digests of the spans, each once.
unfoldable pub digests_of : {C : Type 0} → List Bytes → List (EmbeddedSpan C) → List Bytes
unfolding seen
digests_of found [] = []
digests_of found (s ∷ ss) =
    let old = digests_of found ss in
    let new = s.span.digest ∷ digests_of (s.span.digest ∷ found) ss in
    if seen s.span.digest found then old else new

unfoldable pub vector_at : {C : Type 0} → List (Bytes × List C) → Bytes → Option (List C)
vector_at [] d = none
vector_at ((k, v) ∷ m) d = let rest = vector_at m d in if eqb k d then some v else rest

-- One span of the loop in `reuse`; a vector of another width is not taken.
abbrev pub lent : {C : Type 0} → ℕ → EmbeddedSpan C → Option (List C) → EmbeddedSpan C × ℕ
lent dim s none = (s, 0)
lent dim s (some v) = if length v == dim then (record s { embedding = v }, 1) else (s, 0)

unfoldable pub lend :
    {C : Type 0} → ℕ → List (Bytes × List C) → List (EmbeddedSpan C) → List (EmbeddedSpan C) × ℕ
unfolding vector_at
lend dim have [] = ([], 0)
lend dim have (s ∷ ss) =
    let first = lent dim s (vector_at have s.span.digest) in
    let rest = lend dim have ss in (first.0 ∷ rest.0, first.1 + rest.1)

abbrev pub lend_read :
    {C E : Type 0}
    → ℕ
    → List (EmbeddedSpan C)
    → Result E (List (Bytes × List C))
    → List (EmbeddedSpan C) × ℕ
lend_read dim spans (err e) = (spans, 0)
lend_read dim spans (ok have) = lend dim have spans

-- `reuse`: the spans, and how many of them have a vector of an earlier commit.
unfoldable pub reuse :
    {C E : Type 0} → Source C E → List (EmbeddedSpan C) → List (EmbeddedSpan C) × ℕ
unfolding lend digests_of
reuse ix [] = ([], 0)
reuse ix (s ∷ ss) =
    if ix.reuse_on
    then lend_read ix.dim (s ∷ ss) (ix.embeddings (digests_of [] (s ∷ ss)) ix.model ix.dim)
    else (s ∷ ss, 0)

-- The indices, from n on, of the spans that have no vector.
unfoldable pub todo_from : {C : Type 0} → ℕ → List (EmbeddedSpan C) → List ℕ
todo_from n [] = []
todo_from n (s ∷ ss) =
    let rest = todo_from (n + 1) ss in if length s.embedding == 0 then n ∷ rest else rest

pub data EmbedError (E : Type 0) : Type 0 where
  embed_failed : E → EmbedError E
  wrong_count out_of_fuel : EmbedError E

abbrev pub text_in : {C : Type 0} → Option (EmbeddedSpan C) → Bytes
text_in none = []
text_in (some s) = s.span.text

-- `spans[i].Text` and `spans[i].Embedding = v`; an index is one of the list.
unfoldable pub text_at : {C : Type 0} → List (EmbeddedSpan C) → ℕ → Bytes
text_at spans i = text_in (get_elem? spans i)

unfoldable pub write : {C : Type 0} → ℕ → List C → List (EmbeddedSpan C) → List (EmbeddedSpan C)
write i v [] = []
write zero v (s ∷ ss) = record s { embedding = v } ∷ ss
write (suc i) v (s ∷ ss) = s ∷ write i v ss

unfoldable pub write_all :
    {C : Type 0} → List ℕ → List (List C) → List (EmbeddedSpan C) → List (EmbeddedSpan C)
unfolding write
write_all (i ∷ is) (v ∷ vs) spans = write_all is vs (write i v spans)
write_all _ _ spans = spans

module _ {C E : Type 0} (ix : Source C E) where
  -- The loop of embedAll over what is left of `todo`; the first argument is fuel, at most one round
  -- for an index.
  unfoldable pub embed_from :
      ℕ → List ℕ → List (EmbeddedSpan C) → Result (EmbedError E) (List (EmbeddedSpan C))
  unfolding write_all text_at
  embed_from fuel [] spans = ok spans
  embed_from zero (i ∷ is) spans = err out_of_fuel
  embed_from (suc fuel) (i ∷ is) spans =
      let now = take ix.embed_batch (i ∷ is) in
      elim (ix.embed (map (text_at spans) now)) [
        | err e ↦ err (embed_failed e)
        | ok vecs ↦
            if length vecs == length now
            then embed_from fuel (drop ix.embed_batch (i ∷ is)) (write_all now vecs spans)
            else err wrong_count
      ]

  unfoldable pub embed_all :
      List (EmbeddedSpan C) → List ℕ → Result (EmbedError E) (List (EmbeddedSpan C))
  unfolding embed_from
  embed_all spans todo = embed_from (length todo) todo spans

  -- The end of `index`: what can be reused is, and the rest is embedded.
  unfoldable pub fill : List (EmbeddedSpan C) → Result (EmbedError E) (List (EmbeddedSpan C))
  unfolding embed_all reuse todo_from
  fill spans = let lent_spans = (reuse ix spans).0 in embed_all lent_spans (todo_from 0 lent_spans)

-- changedFiles: the files of this commit by path and blob, and the previous commit's; the source's
-- -1 says that there is no previous commit.
unfoldable pub blob_at : List (Bytes × Bytes) → Bytes → Option Bytes
blob_at [] p = none
blob_at ((k, b) ∷ m) p = let rest = blob_at m p in if eqb k p then some b else rest

abbrev pub is_changed : Bytes → Option Bytes → ℕ
is_changed blob none = 1
is_changed blob (some b) = if eqb b blob then 0 else 1

unfoldable pub count_changed : List (Bytes × Bytes) → List (Bytes × Bytes) → ℕ
unfolding blob_at eqb
count_changed [] before = 0
count_changed ((path, blob) ∷ now) before =
    is_changed blob (blob_at before path) + count_changed now before

unfoldable pub changed_files : List (Bytes × Bytes) → List (Bytes × Bytes) → ℤ
unfolding count_changed
changed_files now [] = negsuc 0
changed_files now (b ∷ before) = pos (count_changed now (b ∷ before))
