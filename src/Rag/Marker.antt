-- ===== src/Rag/Marker.antt =====
-- About the markers that answer.go renders: the citation gate of packages/shared/agent reads them.
use mathlib.Core.List.{append_assoc}
use codetrail.Prelude.{
  ℕ, zero, suc, ◌+◌, ◌/◌, ◌%◌, ◌^◌, ◌<◌, true, ◌≡◌, ◌≢◌, refl, ap, ◌∙◌, inl, inr, arith, some, [],
  ◌∷◌, ◌++◌, ltb, lt→ltb, Bytes, codes, eqb, Bool-cases, All,
}
use codetrail.Prelude.Strings.{digits_onto, decimal}
use codetrail.Models.{Span}
use codetrail.Agent.Cite.{is_digit, digits, close, match_at, value_from, atoi}
use codetrail.Rag.Answer.{render}

-- The digits of n before `out` stand for n before `out`.
value_from-digits_onto :
    (f n : ℕ) (out : Bytes) → n < f → value_from 0 (digits_onto f n out) ≡ value_from n out
unfolding value_from digits_onto
value_from-digits_onto zero n out h = absurd (omega arith)
value_from-digits_onto (suc f) n out h = elim (Bool-cases (ltb n 10)) [
  | inl e ↦ rw e (ap (λ m. value_from m out) (omega arith))
  | inr e ↦ rw e (
      value_from-digits_onto f (n / 10) ((b'0' + n % 10) ∷ out) (ground arith)
      ∙ ap (λ m. value_from m out) (omega arith))
]

abbrev IsDigit : ℕ → Type 0
IsDigit c = is_digit c ≡ true

digits_onto-All :
    (f n : ℕ) (out : Bytes) → n < f → All IsDigit out → All IsDigit (digits_onto f n out)
unfolding digits_onto
digits_onto-All zero n out h a = absurd (omega arith)
digits_onto-All (suc f) n out h a = elim (Bool-cases (ltb n 10)) [
  | inl e ↦ rw e (ground arith, a)
  | inr e ↦
      rw e (digits_onto-All f (n / 10) ((b'0' + n % 10) ∷ out) (ground arith) (ground arith, a))
]

digits_onto-ne : (f n : ℕ) (out : Bytes) → n < f → digits_onto f n out ≢ []
unfolding digits_onto
digits_onto-ne zero n out h = absurd (omega arith)
digits_onto-ne (suc f) n out h = elim (Bool-cases (ltb n 10)) [
  | inl e ↦ rw e (λ p. cc)
  | inr e ↦ rw e (digits_onto-ne f (n / 10) ((b'0' + n % 10) ∷ out) (ground arith))
]

digits-append : (ds rest : Bytes) → All IsDigit ds → digits (ds ++ b']' ∷ rest) ≡ (ds, b']' ∷ rest)
unfolding digits
digits-append [] rest h = refl
digits-append (d ∷ ds) rest h = rw (digits-append ds rest h.1, h.0)

close_found : (ds rest : Bytes) → ds ≢ [] → close (ds, b']' ∷ rest) ≡ some ds
close_found [] rest h = absurd (h refl)
close_found (d ∷ ds) rest h = refl

-- A block begins with its marker.
render_form : (n : ℕ) (s : Span) → (rest : Bytes) × (render n s ≡ b'[' ∷ decimal n ++ b']' ∷ rest)
unfolding render
render_form n s = elim (Bool-cases (eqb s.symbol [])) [
  | inl e ↦ rw e (_, append_assoc (b'[' ∷ decimal n) (b']' ∷ _) _)
  | inr e ↦
      let tail : Bytes =
        codes " "
        ++ (s.path ++ (codes ":" ++ (decimal s.start_line ++ (codes "-" ++ decimal s.end_line)))) in
      let name : Bytes = codes " (" ++ (s.symbol ++ codes ")") in
      rw e (
        tail ++ (name ++ (codes "\n" ++ s.text)),
        append_assoc (b'[' ∷ (decimal n ++ b']' ∷ tail)) name (codes "\n" ++ s.text)
            ∙ append_assoc (b'[' ∷ decimal n) (b']' ∷ tail) (name ++ (codes "\n" ++ s.text)),
      )
]

-- The marker of a rendered span is a marker for the citation gate, which reads off it the number
-- that was rendered, where that fits an int64.
pub render-marker :
    (n : ℕ) (s : Span)
    → n < 2 ^ 63
    → (match_at (render n s) ≡ some (decimal n)) × (atoi (decimal n) ≡ some n)
render-marker n s h =
    let (rest, e) = render_form n s in
    let ne = digits_onto-ne (suc n) n [] (omega arith) in
    let num = digits_onto-All (suc n) n [] (omega arith) tt in
    let value = value_from-digits_onto (suc n) n [] (omega arith) in
    (
      rw e (unfold match_at decimal in (rw (digits-append _ rest num) (close_found _ rest ne))),
      unfold atoi decimal in (rw (value, lt→ltb n (2 ^ 63) h)),
    )
