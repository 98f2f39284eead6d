-- ===== src/Bob/Setting.antt =====
-- The setter: the columns that its statements name, and its Overwrite on a row that it has set.
use april_homework.Common.{◌≡◌, refl, List, [], ◌∷◌, ◌++◌, map, Text, Option, none, some}
use april_homework.Repository.{Row}
use april_homework.Bob.{
  RowSetter, Value, Cell, default, arg, add_if, set_or, cell_of, column_names, set_columns,
  overwrite, insert_values, expressions,
}

-- The names of the columns whose value is not DEFAULT.
abbrev pub given : {A : Type 0} → List Text → List (Cell A) → List Text
given [] cells = []
given (n ∷ ns) [] = []
given (n ∷ ns) (default ∷ cells) = given ns cells
given (n ∷ ns) (arg v ∷ cells) = n ∷ given ns cells

given-add_if :
    {A B : Type 0} (o : Option A) (f : A → Value B) (n : Text) (ns : List Text)
    (cells : List (Cell B))
    → given (n ∷ ns) (cell_of o f ∷ cells) ≡ add_if o (λ _. n) (given ns cells)
given-add_if none f n ns cells = refl
given-add_if (some a) f n ns cells = refl

map-add_if :
    {A B C : Type 0} (g : B → C) (o : Option A) (f : A → B) (rest : List B)
    → map g (add_if o f rest) ≡ add_if o (λ a. g (f a)) (map g rest)
map-add_if g none f rest = refl
map-add_if g (some a) f rest = refl

set_or-set_or : {A : Type 0} (o : Option A) (a : A) → set_or o (set_or o a) ≡ set_or o a
set_or-set_or none a = refl
set_or-set_or (some b) a = refl

-- For every setter, an INSERT gives a value to the columns that SetColumns names and to no other,
-- and an UPDATE assigns to those columns, in that order; and to overwrite a row twice is to
-- overwrite it once.
pub set_columns-agrees :
    {Amount : Type 0} (s : RowSetter Amount) (prefix : List Text) (t : Row Amount)
    → (given column_names (insert_values s) ≡ set_columns s)
      × (map (λ e. e.0) (expressions prefix s) ≡ map (λ c. prefix ++ c ∷ []) (set_columns s))
      × (overwrite s (overwrite s t) ≡ overwrite s t)
unfolding column_names insert_values set_columns expressions overwrite
set_columns-agrees s prefix t = (
  rw
      (
        given-add_if s.id,
        given-add_if s.base_currency,
        given-add_if s.quote_currency,
        given-add_if s.rate,
        given-add_if s.effective_date,
        given-add_if s.source,
        given-add_if s.source_published_at,
        given-add_if s.created_at,
      )
      refl,
  simp (map-add_if) refl,
  simp (set_or-set_or) refl,
)
