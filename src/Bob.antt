-- ===== src/Bob.antt =====
-- internal/db/bob, the code that bob generates for the table exchange_rates: the setter of a row
-- (bob/exchange_rates.bob.go), and below this module the templates of the factory.
pub mod Factory
pub mod Mods
pub mod Setting
pub mod Templates
pub mod Info
pub mod Errors
pub mod Described
pub mod Matching
pub mod Slices
pub mod Synced
pub mod Creating
pub mod Created
pub mod Joins
pub mod RandInt
pub mod Loaders
pub mod Counts
pub mod Counted
pub mod Filters
pub mod Hooks
pub mod Random
use april_homework.Common.{
  ◌==◌, List, [], ◌∷◌, ◌++◌, Text, codes, Option, none, some, Bool, true, false, if◌then◌else◌,
}
use april_homework.Strings.{text_eq}
use april_homework.Time.{Time}
use april_homework.Repository.{Row}

-- ExchangeRateSetter: `none` is a value that is left out. `source_published_at` may be left out, or
-- be null, or be a time.
pub record RowSetter (Amount : Type 0) : Type 0 where
  pub id : Option Text
  pub base_currency : Option Text
  pub quote_currency : Option Text
  pub rate : Option Amount
  pub effective_date : Option Time
  pub source : Option Text
  pub source_published_at : Option (Option Time)
  pub created_at : Option Time

-- An argument of a statement, by the type of its column.
pub data Value (Amount : Type 0) : Type 0 where
  uuid_value : Text → Value Amount
  text_value : Text → Value Amount
  amount_value : Amount → Value Amount
  time_value : Time → Value Amount
  null_time_value : Option Time → Value Amount

abbrev pub add_if : {A B : Type 0} → Option A → (A → B) → List B → List B
add_if none f rest = rest
add_if (some a) f rest = f a ∷ rest

abbrev pub set_or : {A : Type 0} → Option A → A → A
set_or none a = a
set_or (some b) a = b

-- A value of the VALUES list of an INSERT.
pub data Cell (Amount : Type 0) : Type 0 where
  default : Cell Amount
  arg : Value Amount → Cell Amount

abbrev pub cell_of : {A B : Type 0} → Option A → (A → Value B) → Cell B
cell_of none f = default
cell_of (some a) f = arg (f a)

-- buildExchangeRateColumns
unfoldable pub column_names : List Text
column_names =
    codes "id"
    ∷ codes "base_currency"
    ∷ codes "quote_currency"
    ∷ codes "rate"
    ∷ codes "effective_date"
    ∷ codes "source"
    ∷ codes "source_published_at"
    ∷ codes "created_at"
    ∷ []

module _ {Amount : Type 0} where
  -- SetColumns
  unfoldable pub set_columns : RowSetter Amount → List Text
  set_columns s =
      add_if s.id (λ _. codes "id")
        (add_if s.base_currency (λ _. codes "base_currency")
          (add_if s.quote_currency (λ _. codes "quote_currency")
            (add_if s.rate (λ _. codes "rate")
              (add_if s.effective_date (λ _. codes "effective_date")
                (add_if s.source (λ _. codes "source")
                  (add_if s.source_published_at (λ _. codes "source_published_at")
                    (add_if s.created_at (λ _. codes "created_at") [])))))))

  -- Overwrite
  unfoldable pub overwrite : RowSetter Amount → Row Amount → Row Amount
  overwrite s t = record {
    id = set_or s.id t.id;
    base_currency = set_or s.base_currency t.base_currency;
    quote_currency = set_or s.quote_currency t.quote_currency;
    rate = set_or s.rate t.rate;
    effective_date = set_or s.effective_date t.effective_date;
    source = set_or s.source t.source;
    source_published_at = set_or s.source_published_at t.source_published_at;
    created_at = set_or s.created_at t.created_at;
  }

  -- Apply, for an INSERT: the values in the order of the columns.
  unfoldable pub insert_values : RowSetter Amount → List (Cell Amount)
  insert_values s =
      cell_of s.id uuid_value
      ∷ cell_of s.base_currency text_value
      ∷ cell_of s.quote_currency text_value
      ∷ cell_of s.rate amount_value
      ∷ cell_of s.effective_date time_value
      ∷ cell_of s.source text_value
      ∷ cell_of s.source_published_at null_time_value
      ∷ cell_of s.created_at time_value
      ∷ []

  -- Expressions: the assignments of an UPDATE, a path of names and a value each.
  unfoldable pub expressions : List Text → RowSetter Amount → List (List Text × Value Amount)
  expressions prefix s =
      add_if s.id (λ v. (prefix ++ codes "id" ∷ [], uuid_value v))
        (add_if s.base_currency (λ v. (prefix ++ codes "base_currency" ∷ [], text_value v))
          (add_if s.quote_currency (λ v. (prefix ++ codes "quote_currency" ∷ [], text_value v))
            (add_if s.rate (λ v. (prefix ++ codes "rate" ∷ [], amount_value v))
              (add_if s.effective_date (λ v. (prefix ++ codes "effective_date" ∷ [], time_value v))
                (add_if s.source (λ v. (prefix ++ codes "source" ∷ [], text_value v))
                  (add_if s.source_published_at
                    (λ v. (prefix ++ codes "source_published_at" ∷ [], null_time_value v))
                    (add_if s.created_at (λ v. (prefix ++ codes "created_at" ∷ [], time_value v))
                      [])))))))

  -- The inner loop of copyMatchingRows: the first row of the list with the key of `old`.
  unfoldable pub matching_row : Row Amount → List (Row Amount) → Row Amount
  matching_row old [] = old
  matching_row old (new ∷ from) =
      let rest = matching_row old from in if text_eq new.id old.id then new else rest

  -- copyMatchingRows
  unfoldable pub copy_matching_rows : List (Row Amount) → List (Row Amount) → List (Row Amount)
  unfolding matching_row
  copy_matching_rows [] from = []
  copy_matching_rows (old ∷ rows) from = matching_row old from ∷ copy_matching_rows rows from
