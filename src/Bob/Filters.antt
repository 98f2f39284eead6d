-- ===== src/Bob/Filters.antt =====
-- internal/db/bob/bob/exchange_rates.bob.go and bob_where.bob.go: the columns of the table under an
-- alias, and the filters over them. The operators of a filter are those of bob: a filter is its
-- column here, with whether the column may be null.
use april_homework.Common.{
  ◌≡◌, refl, List, [], ◌∷◌, map, Text, codes, Option, none, some, if◌then◌else◌, Bool, Result,
}
use april_homework.Strings.{text_eq}
use april_homework.Bob.{column_names}

-- psql.Quote of a table and a column; an empty part is left out of the statement.
pub record Quoted : Type 0 where
  pub table : Text
  pub column : Text

-- exchangeRateColumns: the columns with their parent, the alias, and the columns one by one.
pub record Columns : Type 0 where
  pub columns_expr : List Text
  pub parent : Option Text
  pub table_alias : Text
  pub id : Quoted
  pub base_currency : Quoted
  pub quote_currency : Quoted
  pub rate : Quoted
  pub effective_date : Quoted
  pub source : Quoted
  pub source_published_at : Quoted
  pub created_at : Quoted

abbrev pub quote_column : Text → Text → Quoted
quote_column table name = record { table = table; column = name }

-- buildExchangeRateColumns
unfoldable pub build_columns : Text → Columns
unfolding column_names text_eq
build_columns table = record {
  columns_expr = column_names;
  parent = if text_eq table [] then none else some table;
  table_alias = table;
  id = quote_column table (codes "id");
  base_currency = quote_column table (codes "base_currency");
  quote_currency = quote_column table (codes "quote_currency");
  rate = quote_column table (codes "rate");
  effective_date = quote_column table (codes "effective_date");
  source = quote_column table (codes "source");
  source_published_at = quote_column table (codes "source_published_at");
  created_at = quote_column table (codes "created_at");
}

-- The columns of ExchangeRates.
unfoldable pub exchange_rates_columns : Columns
unfolding build_columns
exchange_rates_columns = build_columns (codes "exchange_rates")

-- ExchangeRateExists: a query over the table, by the column that must hold a value, says whether it
-- has a row.
unfoldable pub exchange_rate_exists :
    {W : Type 0} → (Quoted → Text → W → Result Bool) → Text → W → Result Bool
unfolding exchange_rates_columns build_columns
exchange_rate_exists exists id w = exists exchange_rates_columns.id id w

-- Alias
unfoldable pub columns_alias : Columns → Text
columns_alias c = c.table_alias

-- AliasedAs and Unqualified of exchangeRateColumns
unfoldable pub columns_aliased_as : Columns → Text → Columns
unfolding build_columns
columns_aliased_as c table = build_columns table

unfoldable pub unqualified : Columns → Columns
unfolding build_columns
unqualified c = build_columns []

-- psql.WhereMod and psql.WhereNullMod
pub data Filter : Type 0 where
  where_column : Quoted → Filter
  where_null_column : Quoted → Filter

-- exchangeRateWhere
pub record ExchangeRateWhere : Type 0 where
  pub id : Filter
  pub base_currency : Filter
  pub quote_currency : Filter
  pub rate : Filter
  pub effective_date : Filter
  pub source : Filter
  pub source_published_at : Filter
  pub created_at : Filter

-- buildExchangeRateWhere
unfoldable pub build_where : Columns → ExchangeRateWhere
build_where cols = record {
  id = where_column cols.id;
  base_currency = where_column cols.base_currency;
  quote_currency = where_column cols.quote_currency;
  rate = where_column cols.rate;
  effective_date = where_column cols.effective_date;
  source = where_column cols.source;
  source_published_at = where_null_column cols.source_published_at;
  created_at = where_column cols.created_at;
}

-- AliasedAs of exchangeRateWhere
unfoldable pub where_aliased_as : ExchangeRateWhere → Text → ExchangeRateWhere
unfolding build_where build_columns
where_aliased_as w alias = build_where (build_columns alias)

-- Where, over the columns of the table under its own name.
unfoldable pub where_exchange_rates : ExchangeRateWhere
unfolding build_where exchange_rates_columns
where_exchange_rates = build_where exchange_rates_columns

abbrev pub filter_list : ExchangeRateWhere → List Filter
filter_list w =
    w.id ∷ w.base_currency ∷ w.quote_currency ∷ w.rate ∷ w.effective_date ∷ w.source
    ∷ w.source_published_at ∷ w.created_at ∷ []

abbrev pub filter_column : Filter → Quoted
filter_column (where_column c) = c
filter_column (where_null_column c) = c

-- Under each alias there is a filter for each column of the queries, in their order and qualified by
-- the alias; and an alias replaces the one before.
pub where_aliased_as-columns :
    (w : ExchangeRateWhere) (c : Columns) (alias other : Text)
    → (map filter_column (filter_list (where_aliased_as w alias))
        ≡ map (quote_column alias) (columns_aliased_as c alias).columns_expr)
      × (where_aliased_as (where_aliased_as w other) alias ≡ where_aliased_as w alias)
      × (columns_alias (columns_aliased_as (columns_aliased_as c other) alias) ≡ alias)
      × (columns_aliased_as (unqualified c) alias ≡ columns_aliased_as c alias)
unfolding where_aliased_as build_where build_columns columns_aliased_as columns_alias unqualified
    column_names
where_aliased_as-columns w c alias other = (refl, refl, refl, refl)
