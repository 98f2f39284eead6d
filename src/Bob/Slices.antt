-- ===== src/Bob/Slices.antt =====
-- internal/db/bob/bob/exchange_rates.bob.go: the methods of a row and of a slice of rows that read
-- or change the table by primary keys. The statements that bob builds and runs are arguments; the
-- hooks around them, of which the program registers none, are in Hooks.
use april_homework.Common.{List, [], ◌∷◌, map, Text, Option, none, some, Result, ok, err}
use april_homework.Repository.{Row}
use april_homework.Bob.{RowSetter, copy_matching_rows}

-- The statements over the table, by what follows WHERE: `none` is `id IN NULL`, `some ids` is a
-- list of keys. An UPDATE returns the rows that it changed.
pub record Statements (Amount : Type 0) : Type 1 where
  pub World : Type 0
  pub select_in : Option (List Text) → World → Result (List (Row Amount))
  pub update_in : RowSetter Amount → Option (List Text) → World → Result (List (Row Amount)) × World
  pub delete_in : Option (List Text) → World → Option Text × World
  pub select_one : Text → World → Result (Row Amount)
  pub select_columns : List Text → Text → World → Result (Row Amount)
  pub update_one : RowSetter Amount → Text → World → Result (Row Amount) × World
  pub delete_one : Text → World → Option Text × World

module _ {Amount : Type 0} where
  -- primaryKeyVals
  unfoldable pub primary_key_vals : Row Amount → Text
  primary_key_vals o = o.id

  -- pkIN
  unfoldable pub pk_in : List (Row Amount) → Option (List Text)
  unfolding primary_key_vals
  pk_in [] = none
  pk_in (o ∷ os) = some (primary_key_vals o ∷ map primary_key_vals os)

  -- `*o = *v`, or the error with the row as it was.
  abbrev pub replaced :
      {W : Type 0} → Row Amount → Result (Row Amount) × W → (Option Text × Row Amount) × W
  replaced o (ok v, w) = ((none, v), w)
  replaced o (err e, w) = ((some e, o), w)

  -- What the loaders do with the rows that came back.
  abbrev pub loaded :
      {W : Type 0}
      → List (Row Amount)
      → Result (List (Row Amount)) × W
      → (Option Text × List (Row Amount)) × W
  loaded o (ok rows, w) = ((none, copy_matching_rows o rows), w)
  loaded o (err e, w) = ((some e, o), w)

  module _ (q : Statements Amount) where
    open q use {
      World, select_in, update_in, delete_in, select_one, select_columns, update_one, delete_one,
    }

    -- FindExchangeRate
    unfoldable pub find : Text → List Text → World → Result (Row Amount)
    find id [] w = select_one id w
    find id (c ∷ cols) w = select_columns (c ∷ cols) id w

    -- Update
    unfoldable pub update :
        Row Amount → RowSetter Amount → World → (Option Text × Row Amount) × World
    unfolding primary_key_vals
    update o s w = replaced o (update_one s (primary_key_vals o) w)

    -- Delete
    unfoldable pub delete : Row Amount → World → Option Text × World
    unfolding primary_key_vals
    delete o w = delete_one (primary_key_vals o) w

    -- Reload
    unfoldable pub reload : Row Amount → World → (Option Text × Row Amount) × World
    reload o w = replaced o (select_one o.id w, w)

    -- UpdateAll, with UpdateMod
    unfoldable pub update_all :
        List (Row Amount) → RowSetter Amount → World → (Option Text × List (Row Amount)) × World
    unfolding pk_in copy_matching_rows
    update_all [] vals w = ((none, []), w)
    update_all (o ∷ os) vals w = loaded (o ∷ os) (update_in vals (pk_in (o ∷ os)) w)

    -- DeleteAll, with DeleteMod
    unfoldable pub delete_all : List (Row Amount) → World → Option Text × World
    unfolding pk_in
    delete_all [] w = (none, w)
    delete_all (o ∷ os) w = delete_in (pk_in (o ∷ os)) w

    -- ReloadAll
    unfoldable pub reload_all :
        List (Row Amount) → World → (Option Text × List (Row Amount)) × World
    unfolding pk_in copy_matching_rows
    reload_all [] w = ((none, []), w)
    reload_all (o ∷ os) w = loaded (o ∷ os) (select_in (pk_in (o ∷ os)) w, w)
