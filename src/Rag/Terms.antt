-- ===== src/Rag/Terms.antt =====
-- packages/shared/rag/terms.go: the terms of a query. `to_lower` is strings.ToLower.
use codetrail.Prelude.{
  ℕ, ◌+◌, ◌-◌, ◌/◌, ◌%◌, Bool, false, not, ◌&&◌, ◌||◌, Option, none, some, List, [], ◌∷◌, ◌++◌, map,
  length, take, drop, leb, ltb, if◌then◌else◌, Bytes, eqb,
}
use codetrail.Prelude.Utf8.{Unicode, runes}

abbrev pub max_terms : ℕ
max_terms = 32

unfoldable pub has_term : Bytes → List Bytes → Bool
has_term s [] = false
has_term s (t ∷ ts) = eqb t s || has_term s ts

-- `add`: `seen` holds what `out` holds.
unfoldable pub add_term : List Bytes → Bytes → List Bytes
unfolding has_term
add_term out s =
    if eqb s [] || (has_term s out || leb max_terms (length out)) then out else out ++ s ∷ []

-- q[start:i]
abbrev pub cut_at : Bytes → ℕ → ℕ → Bytes
cut_at q start i = take (i - start) (drop start q)

-- `none` is the source's -1.
abbrev pub close_run : Bytes → Option ℕ → ℕ → List Bytes
close_run q none i = []
close_run q (some start) i = cut_at q start i ∷ []

abbrev pub open_run : Option ℕ → ℕ → Option ℕ
open_run none i = some i
open_run (some start) i = some start

-- The loop over the runes, at the byte `i`.
unfoldable pub runs_from : Unicode → Bytes → ℕ → Option ℕ → List (ℕ × ℕ) → List Bytes
runs_from u q i start [] = close_run q start (length q)
runs_from u q i start ((r, w) ∷ rs) =
    let go_on = runs_from u q (i + w) (open_run start i) rs in
    let over = runs_from u q (i + w) none rs in
    if u.is_letter r || u.is_digit r then go_on else close_run q start i ++ over

unfoldable pub word_runs : Unicode → Bytes → List Bytes
unfolding runs_from
word_runs u q = runs_from u q 0 none (runes q)

-- The UTF-8 of a rune that was decoded.
unfoldable pub encode_rune : ℕ → Bytes
encode_rune r =
    if ltb r 0x80
    then r ∷ []
    else if ltb r 0x800
    then (0xc0 + r / 64) ∷ (0x80 + r % 64) ∷ []
    else if ltb r 0x10000
    then (0xe0 + r / 4096) ∷ (0x80 + (r / 64) % 64) ∷ (0x80 + r % 64) ∷ []
    else (0xf0 + r / 262144)
      ∷ (0x80 + (r / 4096) % 64)
      ∷ (0x80 + (r / 64) % 64)
      ∷ (0x80 + r % 64)
      ∷ []

unfoldable pub encode : List ℕ → Bytes
unfolding encode_rune
encode [] = []
encode (r ∷ rs) = encode_rune r ++ encode rs

abbrev lower_next : Unicode → List ℕ → Bool
lower_next u [] = false
lower_next u (r ∷ rs) = u.is_lower r

-- A part begins at `r`, after `last` and before `rs`.
unfoldable pub splits : Unicode → ℕ → ℕ → List ℕ → Bool
splits u last r rs =
    (u.is_upper r && not (u.is_upper last))
    || (u.is_upper r && (u.is_upper last && lower_next u rs))

-- The loop from the second rune on: the part so far, and the rune before.
unfoldable pub parts_from : Unicode → List ℕ → ℕ → List ℕ → List Bytes
unfolding splits encode
parts_from u part last [] = encode part ∷ []
parts_from u part last (r ∷ rs) =
    let cut = parts_from u (r ∷ []) r rs in
    let grow = parts_from u (part ++ r ∷ []) r rs in
    if splits u last r rs then encode part ∷ cut else grow

unfoldable pub camel_parts : Unicode → List ℕ → List Bytes
unfolding parts_from
camel_parts u [] = [] ∷ []
camel_parts u (r ∷ rs) = parts_from u (r ∷ []) r rs

unfoldable pub add_all : List Bytes → List Bytes → List Bytes
unfolding add_term
add_all out [] = out
add_all out (s ∷ ss) = add_all (add_term out s) ss

unfoldable pub terms_of : Unicode → (Bytes → Bytes) → Bool → List Bytes → List Bytes
unfolding camel_parts
terms_of u to_lower split [] = []
terms_of u to_lower split (run ∷ runs) =
    let parts = if split then camel_parts u (map (λ r. r.0) (runes run)) else [] in
    to_lower run ∷ (map to_lower parts ++ terms_of u to_lower split runs)

unfoldable pub terms : Unicode → (Bytes → Bytes) → Bytes → Bool → List Bytes
unfolding add_all terms_of word_runs
terms u to_lower q split = add_all [] (terms_of u to_lower split (word_runs u q))
