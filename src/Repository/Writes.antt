-- ===== src/Repository/Writes.antt =====
-- What the statements of one transaction do to the table: the setters that are sent, in their order,
-- each with the time that the table's default gives a new row.
use april_homework.Common.{◌≡◌, refl, ap, ◌∙◌, List, [], ◌∷◌, map, Option, some, if◌then◌else◌}
use april_homework.Time.{Time}
use april_homework.Repository.{Row, Setter}
use april_homework.Repository.Table.{
  Key, key_eq, setter_key, upsert_row, value_at, value_at-upsert_row, IsUnique, upsert_row-IsUnique,
}

-- The value of a key after these setters, the last one winning.
abbrev pub overlay :
    {A : Type 0} → Key → List (Setter A) → Option (A × Option Time) → Option (A × Option Time)
overlay k [] v = v
overlay k (s ∷ ss) v =
    overlay k ss (if key_eq (setter_key s) k then some (s.rate, s.source_published_at) else v)

module _ {Amount : Type 0} where
  abbrev pub setters_of : List (Setter Amount × Time) → List (Setter Amount)
  setters_of ws = map (λ x. x.0) ws

  -- The statements in turn.
  abbrev pub apply_writes : List (Setter Amount × Time) → List (Row Amount) → List (Row Amount)
  apply_writes [] rows = rows
  apply_writes ((s, created) ∷ ws) rows = apply_writes ws (upsert_row s created rows)

  pub value_at-apply_writes :
      (k : Key) (ws : List (Setter Amount × Time)) (rows : List (Row Amount))
      → value_at k (apply_writes ws rows) ≡ overlay k (setters_of ws) (value_at k rows)
  value_at-apply_writes k [] rows = refl
  value_at-apply_writes k ((s, created) ∷ ws) rows =
      value_at-apply_writes k ws (upsert_row s created rows)
      ∙ ap (overlay k (setters_of ws)) (value_at-upsert_row k s created rows)

  pub apply_writes-IsUnique :
      (ws : List (Setter Amount × Time)) (rows : List (Row Amount))
      → IsUnique rows
      → IsUnique (apply_writes ws rows)
  apply_writes-IsUnique [] rows u = u
  apply_writes-IsUnique ((s, created) ∷ ws) rows u =
      apply_writes-IsUnique ws (upsert_row s created rows) (upsert_row-IsUnique s created rows u)
