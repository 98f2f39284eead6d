-- ===== src/Bob/Hooks.antt =====
-- internal/db/bob/bob/exchange_rates.bob.go: the hooks that run around the queries of the table, and
-- the mods of UPDATE, DELETE and MERGE that run them and bring a slice of rows up to date. What is
-- registered as a hook, and how bob runs it, are arguments.
use april_homework.Common.{◌≡◌, refl, List, [], ◌∷◌, Text, Option, none, some, ok}
use april_homework.Repository.{Row}
use april_homework.Bob.{RowSetter, Cell, insert_values, expressions, copy_matching_rows, Value}
use april_homework.Bob.Slices.{pk_in, loaded}

-- bob.QueryType
pub data QueryType : Type 0 where
  select_query insert_query update_query delete_query merge_query other_query : QueryType

-- RunHooks of each list of hooks, on a slice; the state is what the hooks change.
pub record Hooks (Amount S : Type 0) : Type 0 where
  pub after_select : List (Row Amount) → S → Option Text × S
  pub after_insert : List (Row Amount) → S → Option Text × S
  pub after_update : List (Row Amount) → S → Option Text × S
  pub after_delete : List (Row Amount) → S → Option Text × S
  pub after_merge : List (Row Amount) → S → Option Text × S
  pub before_insert : RowSetter Amount → S → Option Text × S
  pub before_update : List (Row Amount) → S → Option Text × S
  pub before_delete : List (Row Amount) → S → Option Text × S
  pub before_merge : List (Row Amount) → S → Option Text × S

-- What a query retrieved, by its type.
pub data Retrieved (Amount : Type 0) : Type 0 where
  one_row : Row Amount → Retrieved Amount
  row_pointers : List (Row Amount) → Retrieved Amount
  row_slice : List (Row Amount) → Retrieved Amount
  other_value : Retrieved Amount

module _ {Amount S : Type 0} where
  -- AfterQueryHook of a slice
  unfoldable pub slice_after_query_hook :
      Hooks Amount S → QueryType → List (Row Amount) → S → Option Text × S
  slice_after_query_hook h select_query o s = h.after_select o s
  slice_after_query_hook h insert_query o s = h.after_insert o s
  slice_after_query_hook h update_query o s = h.after_update o s
  slice_after_query_hook h delete_query o s = h.after_delete o s
  slice_after_query_hook h merge_query o s = h.after_merge o s
  slice_after_query_hook h other_query o s = (none, s)

  -- AfterQueryHook of a row
  unfoldable pub row_after_query_hook :
      Hooks Amount S → QueryType → Row Amount → S → Option Text × S
  row_after_query_hook h select_query o s = h.after_select (o ∷ []) s
  row_after_query_hook h insert_query o s = h.after_insert (o ∷ []) s
  row_after_query_hook h update_query o s = h.after_update (o ∷ []) s
  row_after_query_hook h delete_query o s = h.after_delete (o ∷ []) s
  row_after_query_hook h merge_query o s = h.after_merge (o ∷ []) s
  row_after_query_hook h other_query o s = (none, s)

  -- The loader of the mods: the error, the slice after it, and the state.
  unfoldable pub load_matching :
      (List (Row Amount) → S → Option Text × S)
      → List (Row Amount)
      → Retrieved Amount
      → S
      → (Option Text × List (Row Amount)) × S
  unfolding copy_matching_rows
  load_matching run_after o (one_row r) s = ((none, copy_matching_rows o (r ∷ [])), s)
  load_matching run_after o (row_pointers rs) s = ((none, copy_matching_rows o rs), s)
  load_matching run_after o (row_slice rs) s = ((none, copy_matching_rows o rs), s)
  load_matching run_after o other_value s = let out = run_after o s in ((out.0, o), out.1)

-- What a mod adds to a query: a hook, a loader, and for UPDATE and DELETE the keys after WHERE.
pub record QueryMod (Amount S : Type 0) : Type 0 where
  pub hook : S → Option Text × S
  pub loader : Retrieved Amount → S → (Option Text × List (Row Amount)) × S
  pub where_keys : Option (Option (List Text))

module _ {Amount S : Type 0} (h : Hooks Amount S) (o : List (Row Amount)) where
  -- ExchangeRateSlice.UpdateMod
  unfoldable pub slice_update_mod : QueryMod Amount S
  unfolding load_matching pk_in
  slice_update_mod = record {
    hook = h.before_update o;
    loader = load_matching h.after_update o;
    where_keys = some (pk_in o);
  }

  unfoldable pub slice_delete_mod : QueryMod Amount S
  unfolding load_matching pk_in
  slice_delete_mod = record {
    hook = h.before_delete o;
    loader = load_matching h.after_delete o;
    where_keys = some (pk_in o);
  }

  unfoldable pub slice_merge_mod : QueryMod Amount S
  unfolding load_matching
  slice_merge_mod = record {
    hook = h.before_merge o;
    loader = load_matching h.after_merge o;
    where_keys = none;
  }

-- ExchangeRateSetter.Apply: the hook and the values that it adds to an INSERT.
pub record InsertMod (Amount S : Type 0) : Type 0 where
  pub hook : S → Option Text × S
  pub values : List (Cell Amount)

unfoldable pub setter_apply :
    {Amount S : Type 0} → Hooks Amount S → RowSetter Amount → InsertMod Amount S
unfolding insert_values
setter_apply h s = record { hook = h.before_insert s; values = insert_values s }

-- ExchangeRateSetter.UpdateMod: SET, with no prefix.
unfoldable pub setter_update_mod :
    {Amount : Type 0} → RowSetter Amount → List (List Text × Value Amount)
unfolding expressions
setter_update_mod s = expressions [] s

-- A row that is retrieved runs the hooks of the slice that holds it alone.
pub row_after_query_hook-slice :
    {Amount S : Type 0} (h : Hooks Amount S) (q : QueryType) (r : Row Amount) (s : S)
    → row_after_query_hook h q r s ≡ slice_after_query_hook h q (r ∷ []) s
unfolding row_after_query_hook slice_after_query_hook
row_after_query_hook-slice h select_query r s = refl
row_after_query_hook-slice h insert_query r s = refl
row_after_query_hook-slice h update_query r s = refl
row_after_query_hook-slice h delete_query r s = refl
row_after_query_hook-slice h merge_query r s = refl
row_after_query_hook-slice h other_query r s = refl

-- The rows that an UPDATE with its mod returns leave in the slice what UpdateAll leaves, and run no
-- hook.
pub slice_update_mod-loaded :
    {Amount S : Type 0} (h : Hooks Amount S) (o rows : List (Row Amount)) (s : S)
    → (slice_update_mod h o).loader (row_slice rows) s ≡ loaded o (ok rows, s)
unfolding slice_update_mod load_matching copy_matching_rows
slice_update_mod-loaded h o rows s = refl
