-- ===== src/Walk/Listed.antt =====
-- About Files: the files of the tree that are to be indexed, all of them or none.
use mathlib.Core.List.{append-nil, append_assoc}
use codetrail.Prelude.{
  suc, ◌==◌, Option, none, codes, eqb, ℕ, ◌+◌, ◌≤◌, ◌<◌, Bool, true, false, not, ◌||◌, ◌≡◌, refl,
  sym, ap, ◌∙◌, inl, inr, arith, some, List, [], ◌∷◌, ◌++◌, length, length-append, if◌then◌else◌,
  Bytes, Result, ok, err, ◌>>=◌, Bool-cases, subst,
}
use codetrail.Prelude.Int.{ℤ, pos, negsuc, leb_ℤ}
use codetrail.Indexer.Index.{WalkFile, ReadFile, read_body, read_skipped, read_failed}
use codetrail.Chunk.Defs.{newline}
use codetrail.Walk.Lines.{lines, count_newlines, ends_line}
use codetrail.Walk.Files.{
  lang_of, Node, regular, other, directory, unreadable, Nodes, end, entry, WalkError, bad_max_files,
  bad_max_bytes, cancelled, unreadable_dir, file_failed, too_many, Limits, below, is_hidden,
  file_of, add_read, visit, walk_node, walk_nodes, walk_root, files,
}

-- The lines of a file: one for each newline, and one for what follows the last of them.
pub line_total : Bytes → ℕ
line_total [] = 0
line_total (c ∷ []) = 1
line_total (c ∷ d ∷ s) = let rest = line_total (d ∷ s) in if c == newline then suc rest else rest

line_total-lines : (s : Bytes) → line_total s ≡ lines s
unfolding line_total lines count_newlines ends_line
line_total-lines [] = refl
line_total-lines (c ∷ []) = ground arith
line_total-lines (c ∷ d ∷ s) = lines_step (line_total-lines (d ∷ s))
  where
    lines_step : line_total (d ∷ s) ≡ lines (d ∷ s) → line_total (c ∷ d ∷ s) ≡ lines (c ∷ d ∷ s)
    lines_step e = ground arith

module _ (lim : Limits) where
  -- What is passed over, with what is below it: a path that is not UTF-8, and the name `.git`.
  unfoldable pub skips : Bytes → Bytes → Bool
  unfolding eqb
  skips path name = not (lim.utf8_valid path) || eqb name (codes ".git")

  skips-is_hidden : (path name : Bytes) → skips path name ≡ is_hidden lim path name
  unfolding skips is_hidden
  skips-is_hidden path name = refl

  abbrev pub shown : Bytes → Bytes → WalkFile
  shown path body = record {
    path = path;
    lines = line_total body;
    lang = lang_of (lim.to_lower (lim.ext path));
  }

  shown-file_of : (path body : Bytes) → shown path body ≡ file_of lim path body
  unfolding file_of
  shown-file_of path body = rw (line_total-lines body) refl

  -- The files that can be read, but for hidden entries and what lies below them.
  abbrev pub readable : Bytes → ReadFile → List WalkFile
  readable path (read_body body) = shown path body ∷ []
  readable path read_skipped = []
  readable path read_failed = []

  unfoldable mutual
    pub listed : Bytes → Node → List WalkFile
    listed dir (regular name read) =
        if skips (below dir name) name then [] else readable (below dir name) read
    listed dir (other name) = []
    listed dir (unreadable name) = []
    listed dir (directory name nodes) =
        let inner = listed_nodes (below dir name) nodes in
        if skips (below dir name) name then [] else inner

    pub listed_nodes : Bytes → Nodes → List WalkFile
    listed_nodes dir end = []
    listed_nodes dir (entry n ns) = listed dir n ++ listed_nodes dir ns

  abbrev pub of_read : ReadFile → Option WalkError
  of_read (read_body body) = none
  of_read read_skipped = none
  of_read read_failed = some file_failed

  -- The context is looked at before an entry is, and a hidden entry is not looked into.
  abbrev pub at_entry : Bytes → Bytes → Option WalkError → Option WalkError
  at_entry path name inner =
      if lim.cancelled path then some cancelled else (if skips path name then none else inner)

  abbrev pub or_later : Option WalkError → Option WalkError → Option WalkError
  or_later (some e) later = some e
  or_later none later = later

  -- The first failure that a walk without limits meets: the context is done, or what is to be read
  -- cannot be.
  unfoldable mutual
    pub trouble : Bytes → Node → Option WalkError
    trouble dir (regular name read) = at_entry (below dir name) name (of_read read)
    trouble dir (other name) = at_entry (below dir name) name none
    trouble dir (unreadable name) = at_entry (below dir name) name (some unreadable_dir)
    trouble dir (directory name nodes) =
        let inner = first_trouble (below dir name) nodes in at_entry (below dir name) name inner

    pub first_trouble : Bytes → Nodes → Option WalkError
    first_trouble dir end = none
    first_trouble dir (entry n ns) = or_later (trouble dir n) (first_trouble dir ns)

  module _ (m : ℕ) (limit : lim.max_files ≡ pos m) where
    abbrev WalkOutcome :
        List WalkFile → List WalkFile → Option WalkError → Result WalkError (List WalkFile) → Type 0
    WalkOutcome base all clear (ok out) = (out ≡ base ++ all) × (length out ≤ m) × (clear ≡ none)
    WalkOutcome base all clear (err too_many) = m < length base + length all
    WalkOutcome base all clear (err bad_max_files) = ⊥
    WalkOutcome base all clear (err bad_max_bytes) = ⊥
    WalkOutcome base all clear (err cancelled) = clear ≡ some cancelled
    WalkOutcome base all clear (err unreadable_dir) = clear ≡ some unreadable_dir
    WalkOutcome base all clear (err file_failed) = clear ≡ some file_failed

    nothing_more : (base : List WalkFile) → length base ≤ m → WalkOutcome base [] none (ok base)
    nothing_more base h = (sym (append-nil base), h, refl)

    add_read-WalkOutcome :
        (path : Bytes) (base : List WalkFile) (read : ReadFile)
        → length base ≤ m
        → WalkOutcome base (readable path read) (of_read read) (add_read lim path base read)
    add_read-WalkOutcome path base read_skipped h = nothing_more base h
    add_read-WalkOutcome path base read_failed h = refl
    add_read-WalkOutcome path base (read_body body) h =
        elim (Bool-cases (leb_ℤ lim.max_files (pos (length base)))) [
          | inl full ↦ rw full (full_up (rw limit at full))
          | inr room ↦ rw room (
            ap (λ x. base ++ x ∷ []) (sym (shown-file_of path body)),
            one_more (rw limit at room),
            refl,
          )
        ]
      where
        full_up : leb_ℤ (pos m) (pos (length base)) ≡ true → m < length base + 1
        full_up q = ground arith

        one_more :
            leb_ℤ (pos m) (pos (length base)) ≡ false
            → length (base ++ file_of lim path body ∷ []) ≤ m
        one_more q = ground (arith, length-append {0} base (file_of lim path body ∷ []))

    visit-WalkOutcome :
        (path name : Bytes) (base all : List WalkFile) (clear : Option WalkError)
        (rest : Result WalkError (List WalkFile))
        → length base ≤ m
        → WalkOutcome base all clear rest
        → WalkOutcome base
            (if skips path name then [] else all)
            (at_entry path name clear)
            (visit lim path name base rest)
    visit-WalkOutcome path name base all clear rest h k = elim (Bool-cases (lim.cancelled path)) [
      | inl stopped ↦ rw stopped refl
      | inr going ↦ rw going (elim (Bool-cases (is_hidden lim path name)) [
        | inl hidden ↦ rw (hidden, skips-is_hidden path name ∙ hidden) (nothing_more base h)
        | inr seen ↦ rw (seen, skips-is_hidden path name ∙ seen) k
      ])
    ]

    then_nodes :
        (base first rest : List WalkFile) (clear clear' : Option WalkError)
        (x : Result WalkError (List WalkFile))
        (k : List WalkFile → Result WalkError (List WalkFile))
        → WalkOutcome base first clear x
        → ((out : List WalkFile) → length out ≤ m → WalkOutcome out rest clear' (k out))
        → WalkOutcome base (first ++ rest) (or_later clear clear') (x >>= k)
    then_nodes base first rest clear clear' (ok out) k (same, h, c) next =
        joined (k out) (next out h)
      where
        joined :
            (y : Result WalkError (List WalkFile))
            → WalkOutcome out rest clear' y
            → WalkOutcome base (first ++ rest) (or_later clear clear') y
        joined (ok out') (same', h', c') =
            (same' ∙ ap (λ l. l ++ rest) same ∙ append_assoc base first rest, h', rw (c, c') refl)
        joined (err too_many) q =
            omega
              (arith, ap length same, length-append {0} base first, length-append {0} first rest)
        joined (err bad_max_files) q = q
        joined (err bad_max_bytes) q = q
        joined (err cancelled) q = rw (c, q) refl
        joined (err unreadable_dir) q = rw (c, q) refl
        joined (err file_failed) q = rw (c, q) refl
    then_nodes base first rest clear clear' (err too_many) k h next =
        omega (arith, length-append {0} first rest)
    then_nodes base first rest clear clear' (err bad_max_files) k h next = h
    then_nodes base first rest clear clear' (err bad_max_bytes) k h next = h
    then_nodes base first rest clear clear' (err cancelled) k h next = rw h refl
    then_nodes base first rest clear clear' (err unreadable_dir) k h next = rw h refl
    then_nodes base first rest clear clear' (err file_failed) k h next = rw h refl

    passed_over : (b : Bool) (xs : List WalkFile) → xs ≡ [] → (if b then [] else xs) ≡ []
    passed_over true xs h = refl
    passed_over false xs h = h

    mutual
      unfolding walk_node listed trouble

      walk_node-WalkOutcome :
          (dir : Bytes) (n : Node) (base : List WalkFile)
          → length base ≤ m
          → WalkOutcome base (listed dir n) (trouble dir n) (walk_node lim dir n base)
      walk_node-WalkOutcome dir (regular name read) base h =
          visit-WalkOutcome (below dir name) name base (readable (below dir name) read)
            (of_read read) (add_read lim (below dir name) base read) h
            (add_read-WalkOutcome (below dir name) base read h)
      walk_node-WalkOutcome dir (other name) base h =
          subst
            (λ l.
              WalkOutcome base l (at_entry (below dir name) name none)
                (visit lim (below dir name) name base (ok base)))
            (passed_over (skips (below dir name) name) [] refl)
            (visit-WalkOutcome (below dir name) name base [] none (ok base) h (nothing_more base h))
      walk_node-WalkOutcome dir (unreadable name) base h =
          subst
            (λ l.
              WalkOutcome base l (at_entry (below dir name) name (some unreadable_dir))
                (visit lim (below dir name) name base (err unreadable_dir)))
            (passed_over (skips (below dir name) name) [] refl)
            (visit-WalkOutcome (below dir name) name base [] (some unreadable_dir)
              (err unreadable_dir) h refl)
      walk_node-WalkOutcome dir (directory name nodes) base h =
          visit-WalkOutcome (below dir name) name base (listed_nodes (below dir name) nodes)
            (first_trouble (below dir name) nodes) (walk_nodes lim (below dir name) nodes base) h
            (walk_nodes-WalkOutcome (below dir name) nodes base h)

      walk_nodes-WalkOutcome :
          (dir : Bytes) (ns : Nodes) (base : List WalkFile)
          → length base ≤ m
          → WalkOutcome base
              (listed_nodes dir ns)
              (first_trouble dir ns)
              (walk_nodes lim dir ns base)
      walk_nodes-WalkOutcome dir end base h = nothing_more base h
      walk_nodes-WalkOutcome dir (entry n ns) base h =
          then_nodes base (listed dir n) (listed_nodes dir ns) (trouble dir n)
            (first_trouble dir ns) (walk_node lim dir n base) (λ out. walk_nodes lim dir ns out)
            (walk_node-WalkOutcome dir n base h) (λ out k. walk_nodes-WalkOutcome dir ns out k)

  abbrev pub whole_trouble : Nodes → Option WalkError
  whole_trouble nodes = if lim.cancelled [] then some cancelled else first_trouble [] nodes

  -- The whole walk, by what the tree lists.
  abbrev pub FilesOutcome : Nodes → Result WalkError (List WalkFile) → Type 0
  FilesOutcome nodes (ok out) =
      (out ≡ listed_nodes [] nodes)
      × (leb_ℤ (pos (length out)) lim.max_files ≡ true)
      × (whole_trouble nodes ≡ none)
  FilesOutcome nodes (err too_many) =
      leb_ℤ (pos (length (listed_nodes [] nodes))) lim.max_files ≡ false
  FilesOutcome nodes (err bad_max_files) = leb_ℤ lim.max_files (pos 0) ≡ true
  FilesOutcome nodes (err bad_max_bytes) = leb_ℤ lim.max_bytes (pos 0) ≡ true
  FilesOutcome nodes (err cancelled) = whole_trouble nodes ≡ some cancelled
  FilesOutcome nodes (err unreadable_dir) = whole_trouble nodes ≡ some unreadable_dir
  FilesOutcome nodes (err file_failed) = whole_trouble nodes ≡ some file_failed

  from_outcome :
      (m : ℕ) (limit : lim.max_files ≡ pos m) (nodes : Nodes) (x : Result WalkError (List WalkFile))
      → lim.cancelled [] ≡ false
      → WalkOutcome m limit [] (listed_nodes [] nodes) (first_trouble [] nodes) x
      → FilesOutcome nodes x
  from_outcome m limit nodes (ok out) going (same, h, c) =
      (same, rw limit (ground arith), rw (going, c) refl)
  from_outcome m limit nodes (err too_many) going h = rw limit (ground arith)
  from_outcome m limit nodes (err bad_max_files) going h = absurd h
  from_outcome m limit nodes (err bad_max_bytes) going h = absurd h
  from_outcome m limit nodes (err cancelled) going h = rw (going, h) refl
  from_outcome m limit nodes (err unreadable_dir) going h = rw (going, h) refl
  from_outcome m limit nodes (err file_failed) going h = rw (going, h) refl

  -- A walk that succeeds gives exactly the files of the tree that can be read as they stand and are not
  -- hidden, nor below a hidden directory, in the tree's order, each with the number of its lines and
  -- the language of its extension, and they are at most MaxFiles; and then no failure was met. It
  -- fails for their number only where they are more, and for a limit only where that is not
  -- positive. Any other failure is the first in the order of the walk: the context is done, or a
  -- directory or a file cannot be read.
  pub files-FilesOutcome : (nodes : Nodes) → FilesOutcome nodes (files lim (some nodes))
  unfolding files
  files-FilesOutcome nodes = elim (Bool-cases (leb_ℤ lim.max_files (pos 0))) [
    | inl low ↦ rw low low
    | inr high ↦ elim (Bool-cases (leb_ℤ lim.max_bytes (pos 0))) [
      | inl none_at_all ↦ rw (high, none_at_all) none_at_all
      | inr bytes ↦ rw (high, bytes) (by_limit lim.max_files high refl)
    ]
  ]
    where
      by_limit :
          (z : ℤ)
          → leb_ℤ z (pos 0) ≡ false
          → lim.max_files ≡ z
          → FilesOutcome nodes (walk_root lim (some nodes))
      by_limit (pos m) high limit = elim (Bool-cases (lim.cancelled [])) [
        | inl stopped ↦ rw stopped (rw stopped refl)
        | inr going ↦ rw going (
            from_outcome m limit nodes (walk_nodes lim [] nodes []) going
              (walk_nodes-WalkOutcome m limit [] nodes [] (omega arith)))
      ]
      by_limit (negsuc n) high limit = absurd (ground arith)
