-- ===== src/Bob/Counts.antt =====
-- internal/db/bob/bob/bob_counts.bob.go: the count of a relation as a column of the query, and how it
-- is read from the row. The writer of an expression and the quoting of a dialect are arguments.
use april_homework.Common.{
  ℕ, suc, Text, codes, List, [], ◌∷◌, ◌++◌, Option, none, some, Result, ok, err, if◌then◌else◌,
}
use april_homework.Common.Int.{ℤ}
use april_homework.Strings.{text_eq}

-- An expression: it writes to a text, and returns its arguments or an error.
abbrev pub Expression : Type 0 → Type 0
Expression A = Text → Result (List A) × Text

-- aliasedExpr
pub record AliasedExpr (A : Type 0) : Type 0 where
  pub expr : Expression A
  pub alias : Text

abbrev pub count_column : Text → Text
count_column name = codes "__count_" ++ name

abbrev pub write_alias :
    {A : Type 0} → (Text → Text) → Text → Result (List A) × Text → Result (List A) × Text
write_alias quoted alias (err e, w) = (err e, w)
write_alias quoted alias (ok args, w) = (ok args, w ++ codes " AS " ++ quoted alias)

module _ {A : Type 0} where
  -- aliasedExpr.WriteSQL
  unfoldable pub write_sql : (Text → Text) → AliasedExpr A → Expression A
  write_sql quoted a w = write_alias quoted a.alias (a.expr w)

  -- countPreloadMod.applyCount, on the columns that are preloaded.
  unfoldable pub apply_count :
      Text → (Text → Expression A) → Text → List (AliasedExpr A) → List (AliasedExpr A)
  apply_count name count_expr parent columns =
      columns ++ record { expr = count_expr parent; alias = count_column name } ∷ []

  -- countPreloadMod.Apply
  unfoldable pub count_apply :
      Text → (Text → Expression A) → List (AliasedExpr A) → List (AliasedExpr A)
  unfolding apply_count
  count_apply name count_expr = apply_count name count_expr []

-- The loop that finds the column; `none` is -1.
unfoldable pub column_index : ℕ → Text → List Text → Option ℕ
column_index i name [] = none
column_index i name (col ∷ cols) =
    let rest = column_index (suc i) name cols in if text_eq col name then some i else rest

-- What is kept of a row until the row is mapped: nothing, or the count, which may be NULL.
pub data Link : Type 0 where
  no_link : Link
  count_link : Option ℤ → Link

abbrev pub scan_at : Option ℕ → (ℕ → Option ℤ) → Link
scan_at none row = no_link
scan_at (some i) row = count_link (row i)

-- The function that runs before a row is mapped.
unfoldable pub before_row : Text → List Text → (ℕ → Option ℤ) → Link
unfolding column_index
before_row name cols = scan_at (column_index 0 (count_column name) cols)

module _ {Any T E S : Type 0} (as_preloadable : Any → Option T)
    (preload_count : T → Text → ℤ → S → Option E × S) where
  abbrev pub preload_as : Option T → Text → ℤ → S → Option E × S
  preload_as none name n s = (none, s)
  preload_as (some t) name n s = preload_count t name n s

  -- The function that runs after a row is mapped.
  unfoldable pub after_row : Text → Link → Any → S → Option E × S
  after_row name no_link retrieved s = (none, s)
  after_row name (count_link none) retrieved s = (none, s)
  after_row name (count_link (some n)) retrieved s = preload_as (as_preloadable retrieved) name n s

  -- The mapper of countPreloader, on one row.
  unfoldable pub count_mapper : Text → List Text → (ℕ → Option ℤ) → Any → S → Option E × S
  unfolding before_row after_row
  count_mapper name cols row = after_row name (before_row name cols row)

  -- countPreloader: the mod of the query and the mapper; it adds no loader.
  unfoldable pub count_preloader :
      {A : Type 0}
      → Text
      → (Text → Expression A)
      → Text
      → (List (AliasedExpr A) → List (AliasedExpr A))
        × (List Text → (ℕ → Option ℤ) → Any → S → Option E × S)
  unfolding apply_count count_mapper
  count_preloader name count_expr parent = (apply_count name count_expr parent, count_mapper name)
