-- ===== src/Bob/Described.antt =====
-- The description of the table beside the code that writes its rows.
use april_homework.Common.{
  ◌≡◌, refl, subst, inl, inr, List, [], map, Text, codes, Option, none, some, false, In,
}
use april_homework.Bob.{RowSetter, add_if, set_columns, column_names}
use april_homework.Bob.Factory.{Randoms, or_random, ensure_creatable}
use april_homework.Bob.Info.{Column, column_slice, exchange_rate_columns, exchange_rates}

add_if-or_random :
    {A B : Type 0} (o : Option A) (random : A) (b : B) (rest : List B)
    → In b (add_if (or_random o random) (λ _. b) rest)
add_if-or_random none random b rest = inl refl
add_if-or_random (some a) random b rest = inl refl

add_if-In :
    {A B : Type 0} (o : Option A) (f : A → B) (b : B) (rest : List B)
    → In b rest
    → In b (add_if o f rest)
add_if-In none f b rest i = i
add_if-In (some a) f b rest i = inr i

-- A column for which an INSERT needs a value.
abbrev pub IsRequired : Column → Type 0
IsRequired c = (c.nullable ≡ false) × (c.default ≡ [])

module _ {Amount : Type 0} (random : Randoms Amount) (m : RowSetter Amount) where
  abbrev pub filled_columns : List Text
  filled_columns = set_columns (ensure_creatable random m)

  id_filled : In (codes "id") filled_columns
  unfolding set_columns ensure_creatable
  id_filled = search add_if-or_random

  quote_currency_filled : In (codes "quote_currency") filled_columns
  unfolding set_columns ensure_creatable
  quote_currency_filled = search (add_if-In, add_if-or_random)

  rate_filled : In (codes "rate") filled_columns
  unfolding set_columns ensure_creatable
  rate_filled = search (add_if-In, add_if-or_random)

  effective_date_filled : In (codes "effective_date") filled_columns
  unfolding set_columns ensure_creatable
  effective_date_filled = search (add_if-In, add_if-or_random)

  source_filled : In (codes "source") filled_columns
  unfolding set_columns ensure_creatable
  source_filled = search (add_if-In, add_if-or_random) depth 8

-- The columns of the description are, in order, those of the queries; and a setter that
-- ensureCreatableExchangeRate has completed gives a value to every column of the description that
-- is not nullable and has no default, whatever it held before.
pub ensure_creatable-described :
    {Amount : Type 0} (random : Randoms Amount) (m : RowSetter Amount)
    → (map (λ c. c.name) (column_slice exchange_rates.columns) ≡ column_names)
      × ((c : Column)
          → In c (column_slice exchange_rates.columns)
          → IsRequired c
          → In c.name (filled_columns random m))
unfolding column_slice exchange_rates exchange_rate_columns column_names
ensure_creatable-described random m = (refl, every)
  where
    every :
        (c : Column)
        → In c (column_slice exchange_rates.columns)
        → IsRequired c
        → In c.name (filled_columns random m)
    every c (inl e) h = subst (λ x. In x.name (filled_columns random m)) e (id_filled random m)
    every c (inr (inl e)) h = absurd (cc (e, h.1))
    every c (inr (inr (inl e))) h =
        subst (λ x. In x.name (filled_columns random m)) e (quote_currency_filled random m)
    every c (inr (inr (inr (inl e)))) h =
        subst (λ x. In x.name (filled_columns random m)) e (rate_filled random m)
    every c (inr (inr (inr (inr (inl e))))) h =
        subst (λ x. In x.name (filled_columns random m)) e (effective_date_filled random m)
    every c (inr (inr (inr (inr (inr (inl e)))))) h =
        subst (λ x. In x.name (filled_columns random m)) e (source_filled random m)
    every c (inr (inr (inr (inr (inr (inr (inl e))))))) h = absurd (cc (e, h.0))
    every c (inr (inr (inr (inr (inr (inr (inr (inl e)))))))) h = absurd (cc (e, h.1))
    every c (inr (inr (inr (inr (inr (inr (inr (inr e)))))))) h = absurd e
