-- ===== src/Repository.antt =====
-- internal/db/repository.go over the table of internal/db/migrations: upsert a batch of rates in one
-- transaction, read the latest rate of each currency, read the history of one currency.
-- PostgreSQL, uuid.NewV7 and the decimal package are parameters, in the record `Database`.
pub mod Table
pub mod Writes
pub mod Setters
pub mod Postgres
pub mod Ordering
pub mod Upsert
pub mod Sorting
pub mod KeepFirst
pub mod Latest
pub mod History
pub mod Overlay
pub mod ReadBack
pub mod ReadHistory
pub mod Clients
use april_homework.Common.{
  ℕ, zero, suc, List, [], ◌∷◌, ◌++◌, map, Text, codes, Option, none, some, Bool, true, false,
  Result, ok, err, wrap, ◌||◌, not, if◌then◌else◌, ltb, take, ◌>>=◌,
}
use april_homework.Common.Int.{ℤ, pos, negsuc, ltb_ℤ}
use april_homework.Strings.{text_eq, text_lt, quote}
use april_homework.Time.{Time, zero_time, is_zero, after}
use april_homework.Entities.{ExchangeRate}

-- bob.ExchangeRate, a row of exchange_rates. `Amount` is decimal.Decimal.
pub record Row (Amount : Type 0) : Type 0 where
  pub id : Text
  pub base_currency : Text
  pub quote_currency : Text
  pub rate : Amount
  pub effective_date : Time
  pub source : Text
  pub source_published_at : Option Time
  pub created_at : Time

-- The columns that toExchangeRateSetter sets. The setter of bob leaves created_at unset, so that
-- the table's default NOW() fills it.
pub record Setter (Amount : Type 0) : Type 0 where
  pub id : Text
  pub base_currency : Text
  pub quote_currency : Text
  pub rate : Amount
  pub effective_date : Time
  pub source : Text
  pub source_published_at : Option Time

-- The conditions that History puts on the rows: EQ on quote_currency, GTE and LTE on effective_date.
pub data RowFilter : Type 0 where
  quote_currency_eq : Text → RowFilter
  effective_date_gte : Time → RowFilter
  effective_date_lte : Time → RowFilter

-- sm.OrderBy of a column, with Asc or Desc
pub data OrderBy : Type 0 where
  quote_currency_asc quote_currency_desc effective_date_asc effective_date_desc : OrderBy

-- The mods of a query over the table.
pub record HistoryQuery : Type 0 where
  pub filters : List RowFilter
  pub order : List OrderBy
  pub limit : ℕ

-- What the repository calls. `World` is the state of the server, `Tx` an open transaction.
pub record Database : Type 1 where
  pub Amount : Type 0
  pub World : Type 0
  pub Tx : Type 0
  -- the n-th identifier that a batch asks for
  pub new_id : World → ℕ → Result Text
  pub parse_amount : Text → Result Amount
  pub string_fixed : Amount → Text
  pub begin_tx : World → Result Tx
  pub insert_on_conflict : Setter Amount → Tx → Result Tx
  pub commit : Tx → World → Result World
  pub select_all : List OrderBy → World → Result (List (Row Amount))
  pub select_history : HistoryQuery → World → Result (List (Row Amount))

-- sort.Slice by QuoteCurrency, on distinct keys: insertion into a sorted list.
unfoldable pub insert_rate : ExchangeRate → List ExchangeRate → List ExchangeRate
insert_rate r [] = r ∷ []
insert_rate r (q ∷ qs) =
    if text_lt q.quote_currency r.quote_currency then q ∷ insert_rate r qs else r ∷ q ∷ qs

unfoldable pub sort_rates : List ExchangeRate → List ExchangeRate
unfolding insert_rate
sort_rates [] = []
sort_rates (r ∷ rs) = insert_rate r (sort_rates rs)

abbrev pub has_quote : Text → List ExchangeRate → Bool
has_quote c [] = false
has_quote c (r ∷ rs) = text_eq r.quote_currency c || has_quote c rs

-- The loop of LatestRates: the map keeps the first rate of each currency.
unfoldable pub keep_first : List ExchangeRate → List ExchangeRate → List ExchangeRate
keep_first latest [] = latest
keep_first latest (rate ∷ rates) =
    keep_first (if has_quote rate.quote_currency latest then latest else latest ++ rate ∷ []) rates

unfoldable pub clamp_limit : ℤ → ℕ
clamp_limit (negsuc n) = 100
clamp_limit (pos zero) = 100
clamp_limit (pos (suc n)) = if ltb 500 (suc n) then 100 else suc n

-- `if bound != nil { mods = append(mods, …) }`
abbrev pub add_bound : (Time → RowFilter) → Option Time → List RowFilter → List RowFilter
add_bound filter none mods = mods
add_bound filter (some bound) mods = mods ++ filter bound ∷ []

-- The mods of History.
unfoldable pub history_query : Text → Option Time → Option Time → ℤ → HistoryQuery
unfolding clamp_limit
history_query currency from_date to_date limit = record {
  filters =
      add_bound effective_date_lte to_date
        (add_bound effective_date_gte from_date (quote_currency_eq currency ∷ []));
  order = effective_date_desc ∷ [];
  limit = clamp_limit limit;
}

abbrev pub some_unless : Bool → Time → Option Time
some_unless true t = none
some_unless false t = some t

abbrev pub time_or_zero : Option Time → Time
time_or_zero none = zero_time
time_or_zero (some t) = t

module _ (db : Database) where
  open db use {
    Amount, World, Tx, new_id, parse_amount, string_fixed, begin_tx, insert_on_conflict, commit,
    select_all, select_history,
  }

  -- toExchangeRateSetter
  unfoldable pub to_exchange_rate_setter : World → ℕ → ExchangeRate → Result (Setter Amount)
  to_exchange_rate_setter w n rate = do
    id ← wrap (λ e. codes "generate rate id: " ++ e) (new_id w n)
    amount ←
        wrap
          (λ e.
            codes "parse "
            ++ rate.quote_currency
            ++ codes " rate "
            ++ quote rate.rate
            ++ codes ": "
            ++ e)
          (parse_amount rate.rate)
    ok (record {
      id = id;
      base_currency = rate.base_currency;
      quote_currency = rate.quote_currency;
      rate = amount;
      effective_date = rate.effective_date;
      source = rate.source;
      source_published_at = some_unless (is_zero rate.source_published_at) rate.source_published_at;
    })

  -- The body of the loop of UpsertRates.
  unfoldable pub upsert_one : World → ℕ → ExchangeRate → Tx → Result Tx
  unfolding to_exchange_rate_setter
  upsert_one w n rate tx = do
    setter ← to_exchange_rate_setter w n rate
    wrap (λ e. codes "upsert " ++ rate.quote_currency ++ codes ": " ++ e)
        (insert_on_conflict setter tx)

  -- The loop of UpsertRates, inside the transaction.
  unfoldable pub upsert_each : World → ℕ → List ExchangeRate → Tx → Result Tx
  unfolding upsert_one
  upsert_each w n [] tx = ok tx
  upsert_each w n (rate ∷ rates) tx = do
    tx' ← upsert_one w n rate tx
    upsert_each w (suc n) rates tx'

  unfoldable pub run_upsert : World → List ExchangeRate → Result World
  unfolding upsert_each
  run_upsert w rates = do
    tx ← wrap (λ e. codes "begin tx: " ++ e) (begin_tx w)
    tx' ← upsert_each w 0 rates tx
    wrap (λ e. codes "commit tx: " ++ e) (commit tx' w)

  -- The deferred rollback drops the transaction: on an error the world is what it was.
  unfoldable pub rolled_back : World → Result World → Option Text × World
  rolled_back w (ok w') = (none, w')
  rolled_back w (err e) = (some e, w)

  unfoldable pub upsert_rates : List ExchangeRate → World → Option Text × World
  unfolding run_upsert rolled_back
  upsert_rates rates w = rolled_back w (run_upsert w rates)

  unfoldable pub to_entity : Row Amount → ExchangeRate
  to_entity row = record {
    id = row.id;
    base_currency = row.base_currency;
    quote_currency = row.quote_currency;
    rate = string_fixed row.rate;
    effective_date = row.effective_date;
    source = row.source;
    source_published_at = time_or_zero row.source_published_at;
  }

  unfoldable pub to_entities : List (Row Amount) → List ExchangeRate
  unfolding to_entity
  to_entities = map to_entity

  -- LatestRates; `order` is the order in which the range over the map visits its values.
  unfoldable pub latest_rates :
      (List ExchangeRate → List ExchangeRate) → World → Result (List ExchangeRate)
  unfolding to_entities keep_first sort_rates
  latest_rates order w = do
    rows ←
        wrap (λ e. codes "query latest rates: " ++ e)
          (select_all (quote_currency_asc ∷ effective_date_desc ∷ []) w)
    ok (sort_rates (order (keep_first [] (to_entities rows))))

  unfoldable pub history : Text → Option Time → Option Time → ℤ → World → Result (List ExchangeRate)
  unfolding history_query to_entities
  history currency from_date to_date limit w = do
    rows ←
        wrap (λ e. codes "query history: " ++ e)
          (select_history (history_query currency from_date to_date limit) w)
    ok (to_entities rows)
