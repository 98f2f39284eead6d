-- ===== src/Bob/Counted.antt =====
-- The column that a count adds to the query, and the column that is read from the row.
use april_homework.Common.{
  ℕ, suc, ◌+◌, ◌≡◌, refl, ap, ◌∙◌, inl, inr, Text, List, [], ◌∷◌, ◌++◌, map, map-append,
  append_assoc, length-map, Option, none, some, length, Bool-cases, In, arith,
}
use april_homework.Common.Int.{ℤ}
use april_homework.Strings.{text_eq}
use april_homework.Strings.Laws.{text_eq_iff, text_eq_refl}
use april_homework.Bob.Counts.{
  Expression, AliasedExpr, count_column, apply_count, column_index, no_link, count_link, scan_at,
  before_row, preload_as, after_row, count_mapper,
}

column_index-found :
    (i : ℕ) (name : Text) (before later : List Text)
    → ¬ In name before
    → column_index i name (before ++ name ∷ later) ≡ some (i + length before)
unfolding column_index
column_index-found i name [] later absent = rw (text_eq_refl name) (ground arith)
column_index-found i name (c ∷ before) later absent = elim (Bool-cases (text_eq c name)) [
  | inl e ↦ absurd (absent (inl ((text_eq_iff c name).0 e)))
  | inr e ↦
      let rest = column_index-found (suc i) name before later (λ k. absent (inr k)) in
      let n : suc i + length before ≡ i + suc (length before) = omega arith in
      rw e (rest ∙ ap some n)
]

column_index-missing :
    (i : ℕ) (name : Text) (cols : List Text) → ¬ In name cols → column_index i name cols ≡ none
unfolding column_index
column_index-missing i name [] absent = refl
column_index-missing i name (c ∷ cols) absent = elim (Bool-cases (text_eq c name)) [
  | inl e ↦ absurd (absent (inl ((text_eq_iff c name).0 e)))
  | inr e ↦ rw e (column_index-missing (suc i) name cols (λ k. absent (inr k)))
]

abbrev pub aliases : {A : Type 0} → List (AliasedExpr A) → List Text
aliases columns = map (λ c. c.alias) columns

module _ {A : Type 0} (name : Text) (count_expr : Text → Expression A) (parent : Text)
    (columns later : List (AliasedExpr A)) (row : ℕ → Option ℤ)
    (absent : ¬ In (count_column name) (aliases columns)) where
  aliases-apply_count :
      aliases (apply_count name count_expr parent columns ++ later)
      ≡ aliases columns ++ count_column name ∷ aliases later
  unfolding apply_count
  aliases-apply_count =
      ap aliases (append_assoc columns _ later) ∙ map-append (λ c. c.alias) columns _

  pub before_row-apply_count :
      before_row name (aliases (apply_count name count_expr parent columns ++ later)) row
      ≡ count_link (row (length columns))
  unfolding before_row
  before_row-apply_count =
      ap (λ l. scan_at (column_index 0 (count_column name) l) row) aliases-apply_count
      ∙ ap (λ o. scan_at o row)
          (column_index-found 0 (count_column name) (aliases columns) (aliases later) absent)
      ∙ ap (λ n. count_link (row n))
          (omega (arith, length-map (λ (c : AliasedExpr A). c.alias) columns))

  pub before_row-missing : before_row name (aliases columns) row ≡ no_link
  unfolding before_row
  before_row-missing =
      ap (λ o. scan_at o row) (column_index-missing 0 (count_column name) (aliases columns) absent)

-- A count that was added to the columns of a query, none of which had its name, is read from the
-- value at its place in the row, also if more columns follow: it is handed to PreloadCount with the
-- name if it is not NULL and the value can preload counts, and otherwise nothing happens. A query
-- that was not given the column changes nothing either.
pub count_mapper-apply_count :
    {Any T E S A : Type 0} (as_preloadable : Any → Option T)
    (preload_count : T → Text → ℤ → S → Option E × S) (name : Text)
    (count_expr : Text → Expression A) (parent : Text) (columns later : List (AliasedExpr A))
    (row : ℕ → Option ℤ) (retrieved : Any) (s : S)
    → ¬ In (count_column name) (aliases columns)
    → ((n : ℤ)
        → row (length columns) ≡ some n
        → count_mapper as_preloadable preload_count name
            (aliases (apply_count name count_expr parent columns ++ later))
            row
            retrieved
            s
          ≡ preload_as as_preloadable preload_count (as_preloadable retrieved) name n s)
      × (row (length columns) ≡ none
          → count_mapper as_preloadable preload_count name
              (aliases (apply_count name count_expr parent columns ++ later))
              row
              retrieved
              s
            ≡ (none, s))
      × (count_mapper as_preloadable preload_count name (aliases columns) row retrieved s
          ≡ (none, s))
unfolding count_mapper after_row
count_mapper-apply_count as_preloadable preload_count name count_expr parent columns later row
      retrieved s absent =
    let found = before_row-apply_count name count_expr parent columns later row absent in
    let missing = before_row-missing name count_expr parent columns later row absent in
    (
      λ n e.
          ap (λ l. after_row as_preloadable preload_count name l retrieved s)
            (found ∙ ap count_link e),
      λ e.
          ap (λ l. after_row as_preloadable preload_count name l retrieved s)
            (found ∙ ap count_link e),
      ap (λ l. after_row as_preloadable preload_count name l retrieved s) missing,
    )
