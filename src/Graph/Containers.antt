-- ===== src/Graph/Containers.antt =====
-- apps/indexer/cmd/graph.go: which of several ranges of lines a line belongs to.
use codetrail.Prelude.{
  ℕ, Bool, ◌&&◌, ◌||◌, Option, none, some, List, [], ◌∷◌, ltb, ◌==◌, if◌then◌else◌, Bytes,
  ltb_bytes,
}

pub record Container : Type 0 where
  pub id : Bytes
  pub start : ℕ
  pub end : ℕ

-- The ties of both loops: `start` of both is one.
unfoldable pub breaks_tie : Container → Container → Bool
breaks_tie c best =
    (c.start == best.start && ltb c.end best.end)
    || (c.start == best.start && (c.end == best.end && ltb_bytes c.id best.id))

unfoldable pub more_specific : Container → Container → Bool
unfolding breaks_tie
more_specific c best = ltb best.start c.start || breaks_tie c best

unfoldable pub earlier : Container → Container → Bool
unfolding breaks_tie
earlier c best = ltb c.start best.start || breaks_tie c best

-- `continue` in mostSpecific, and in firstOverlapping.
unfoldable pub outside : ℕ → Container → Bool
outside line c = ltb line c.start || ltb c.end line

unfoldable pub apart : ℕ → ℕ → Container → Bool
apart start end c = ltb c.end start || ltb end c.start

abbrev pub better_of :
    (Container → Container → Bool) → Container → Option Container → Option Container
better_of better c none = some c
better_of better c (some best) = if better c best then some c else some best

-- The loop of both: `none` is `found == false`.
unfoldable pub best_from :
    (Container → Bool)
    → (Container → Container → Bool)
    → List Container
    → Option Container
    → Option Container
best_from skip better [] best = best
best_from skip better (c ∷ cs) best =
    best_from skip better cs (if skip c then best else better_of better c best)

unfoldable pub most_specific : List Container → ℕ → Option Container
unfolding best_from outside more_specific
most_specific cs line = best_from (outside line) more_specific cs none

unfoldable pub first_overlapping : List Container → ℕ → ℕ → Option Container
unfolding best_from apart earlier
first_overlapping cs start end = best_from (apart start end) earlier cs none

abbrev pub or_else : Option Container → Option Container → Option Container
or_else (some c) o = some c
or_else none o = o

unfoldable pub span_for : List Container → ℕ → ℕ → Option Container
unfolding most_specific first_overlapping
span_for cs start end = or_else (most_specific cs start) (first_overlapping cs start end)
