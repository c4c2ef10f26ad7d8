-- ===== src/Gateway/Cited.antt =====
-- About the routes over the symbol graph: what they show is what the store gave, and a citation that
-- was kept is the one that a read would give.
use codetrail.Prelude.{
  false, ◌≡◌, refl, inl, inr, Option, none, some, List, [], ◌∷◌, Bytes, eqb, eqb_eq, Result, ok,
  err, ◌>>=◌, All, Bool-cases,
}
use codetrail.Models.{Repo, Span, Symbol}
use codetrail.Rag.Cite.{Outside, Newer, Citation, new_citation}
use codetrail.Gateway.Read.{Handler}
use codetrail.Gateway.Symbols.{Seen, seen_at, read_and_keep, seen_or_read, cite_symbol, cite_rows}
use codetrail.Gateway.Views.{SymbolStore}

-- A span of the repository that the store fails to read.
abbrev pub Unread : {E : Type 0} → SymbolStore E → Repo → E → Type 0
Unread s r e = (id : Bytes) × (s.get_span r.id id ≡ err e)

module _ {F E : Type 0} (o : Outside) (h : Handler F E) (s : SymbolStore E) (r : Repo)
    (newer : Newer) where
  -- A citation is that of the symbol's span as the store reads it now, and a symbol without a span
  -- has none.
  abbrev pub IsCited : Symbol → Option Citation → Type 0
  IsCited sy none = sy.span_id ≡ []
  IsCited sy (some c) =
      (eqb sy.span_id [] ≡ false)
      × (sp : Span) × (s.get_span r.id sy.span_id ≡ ok sp)
      × (c ≡ new_citation o r sp newer h.now)

  abbrev pub IsTrue : Bytes × Citation → Type 0
  IsTrue (id, c) =
      (sp : Span) × (s.get_span r.id id ≡ ok sp) × (c ≡ new_citation o r sp newer h.now)

  abbrev pub CiteOutcome : Symbol → Result E (Option Citation × Seen) → Type 0
  CiteOutcome sy (ok (c, seen)) = IsCited sy c × All IsTrue seen
  CiteOutcome sy (err e) = s.get_span r.id sy.span_id ≡ err e

  seen_at-IsTrue :
      (seen : Seen) (id : Bytes) (c : Citation)
      → All IsTrue seen
      → seen_at seen id ≡ some c
      → IsTrue (id, c)
  unfolding seen_at
  seen_at-IsTrue [] id c k e = cc
  seen_at-IsTrue ((x, d) ∷ m) id c k e = elim (Bool-cases (eqb x id)) [
    | inl here ↦
        let same : some d ≡ some c = rw here at e in
        let id_eq : x ≡ id = eqb_eq x id here in let c_eq : d ≡ c = cc in rw (← id_eq, ← c_eq) k.0
    | inr other ↦ seen_at-IsTrue m id c k.1 (rw other at e)
  ]

  cite_symbol-CiteOutcome :
      (seen : Seen) (sy : Symbol)
      → All IsTrue seen
      → CiteOutcome sy (cite_symbol o h s r newer seen sy)
  unfolding cite_symbol
  cite_symbol-CiteOutcome seen sy k = elim (Bool-cases (eqb sy.span_id [])) [
    | inl e ↦ rw e (eqb_eq sy.span_id [] e, k)
    | inr e ↦ rw e (known e (seen_at seen sy.span_id) (λ c. seen_at-IsTrue seen sy.span_id c k))
  ]
    where
      read :
          eqb sy.span_id [] ≡ false
          → (x : Result E Span) → s.get_span r.id sy.span_id ≡ x
          → CiteOutcome sy (read_and_keep o h s r newer seen sy.span_id x)
      read e (err x) q = q
      read e (ok sp) q = ((e, sp, q, refl), ((sp, q, refl), k))

      known :
          eqb sy.span_id [] ≡ false
          → (c : Option Citation) → ((c' : Citation) → c ≡ some c' → IsTrue (sy.span_id, c'))
          → CiteOutcome sy (seen_or_read o h s r newer seen sy.span_id c)
      known e (some c) f = let (sp, q, same) = f c refl in ((e, sp, q, same), k)
      known e none f = read e (s.get_span r.id sy.span_id) refl

  -- There is a view for each row, in order, with the citation of its symbol.
  abbrev pub AreViews :
      {A V : Type 0} → (A → Symbol) → (A → Option Citation → V) → List A → List V → Type 0
  AreViews symbol_of view [] [] = Unit
  AreViews symbol_of view [] (v ∷ vs) = ⊥
  AreViews symbol_of view (a ∷ as') [] = ⊥
  AreViews symbol_of view (a ∷ as') (v ∷ vs) =
      ((c : Option Citation) × IsCited (symbol_of a) c × (v ≡ view a c))
      × AreViews symbol_of view as' vs

  module _ {A V : Type 0} (symbol_of : A → Symbol) (view : A → Option Citation → V) where
    abbrev pub RowsOutcome : List A → Result E (List V × Seen) → Type 0
    RowsOutcome rows (err e) = Unread s r e
    RowsOutcome rows (ok (views, seen)) = AreViews symbol_of view rows views × All IsTrue seen

    pub cite_rows-RowsOutcome :
        (rows : List A) (seen : Seen)
        → All IsTrue seen
        → RowsOutcome rows (cite_rows o h s symbol_of view r newer seen rows)
    unfolding cite_rows
    cite_rows-RowsOutcome [] seen k = (tt, k)
    cite_rows-RowsOutcome (a ∷ rows) seen k =
        first (cite_symbol o h s r newer seen (symbol_of a))
          (cite_symbol-CiteOutcome seen (symbol_of a) k) (λ seen'. cite_rows-RowsOutcome rows seen')
      where
        rest :
            (c : Option Citation)
            → IsCited (symbol_of a) c
            → (x : Result E (List V × Seen)) → RowsOutcome rows x
            → RowsOutcome (a ∷ rows) (x >>= λ p. ok (view a c ∷ p.0, p.1))
        rest c cited (err e) q = q
        rest c cited (ok (views, seen')) (same, all_true) = (((c, cited, refl), same), all_true)

        first :
            (x : Result E (Option Citation × Seen))
            → CiteOutcome (symbol_of a) x
            → ((seen' : Seen)
                → All IsTrue seen'
                → RowsOutcome rows (cite_rows o h s symbol_of view r newer seen' rows))
            → RowsOutcome (a ∷ rows) (
                x >>= λ p.
                cite_rows o h s symbol_of view r newer p.1 rows >>= λ q. ok (view a p.0 ∷ q.0, q.1))
        first (err e) q ih = ((symbol_of a).span_id, q)
        first (ok (c, seen')) (cited, all_true) ih =
            rest c cited (cite_rows o h s symbol_of view r newer seen' rows) (ih seen' all_true)
