-- ===== src/Bob/Mods.antt =====
-- internal/db/bob/factory/exchange_rates.bob.go: the mods of a template, which set or clear the
-- function of one column.
use april_homework.Common.{[], ◌∷◌, Text, Option, some}
use april_homework.Time.{Time}
use april_homework.Bob.Factory.{Template, Generators, apply_mods}

-- The mods of a column: the argument is the function that the mod sets, or `none` for Unset. Set
-- takes the constant function, Func takes its argument, Random a generator of random values.
module _ {Amount : Type 0} where
  unfoldable pub set_id : Option (Unit {0} → Text) → Template Amount → Template Amount
  set_id f o = record o { id = f }

  unfoldable pub set_base_currency : Option (Unit {0} → Text) → Template Amount → Template Amount
  set_base_currency f o = record o { base_currency = f }

  unfoldable pub set_quote_currency : Option (Unit {0} → Text) → Template Amount → Template Amount
  set_quote_currency f o = record o { quote_currency = f }

  unfoldable pub set_rate : Option (Unit {0} → Amount) → Template Amount → Template Amount
  set_rate f o = record o { rate = f }

  unfoldable pub set_effective_date : Option (Unit {0} → Time) → Template Amount → Template Amount
  set_effective_date f o = record o { effective_date = f }

  unfoldable pub set_source : Option (Unit {0} → Text) → Template Amount → Template Amount
  set_source f o = record o { source = f }

  unfoldable pub set_source_published_at :
      Option (Unit {0} → Option Time) → Template Amount → Template Amount
  set_source_published_at f o = record o { source_published_at = f }

  unfoldable pub set_created_at : Option (Unit {0} → Time) → Template Amount → Template Amount
  set_created_at f o = record o { created_at = f }

  -- RandomizeAllColumns: the mods of the eight columns in turn, with the generators `r`.
  unfoldable pub randomize_all_columns : Generators Amount → Template Amount → Template Amount
  unfolding apply_mods set_id set_base_currency set_quote_currency set_rate set_effective_date
      set_source set_source_published_at set_created_at
  randomize_all_columns r = apply_mods (
      set_id (some r.id)
      ∷ set_base_currency (some r.base_currency)
      ∷ set_quote_currency (some r.quote_currency)
      ∷ set_rate (some r.rate)
      ∷ set_effective_date (some r.effective_date)
      ∷ set_source (some r.source)
      ∷ set_source_published_at (some r.source_published_at)
      ∷ set_created_at (some r.created_at)
      ∷ [])
