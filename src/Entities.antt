-- ===== src/Entities.antt =====
-- internal/entities/rate.go: the currencies, the exchange rate and the failure of a fetch.
use april_homework.Common.{List, [], ◌∷◌, Text, codes}
use april_homework.Time.{Time, zero_time}

abbrev pub base_currency : Text
base_currency = codes "EUR"

unfoldable pub default_currencies : List Text
default_currencies =
    codes "USD"
    ∷ codes "GBP"
    ∷ codes "JPY"
    ∷ codes "CHF"
    ∷ codes "PLN"
    ∷ codes "SEK"
    ∷ codes "NOK"
    ∷ codes "DKK"
    ∷ codes "CAD"
    ∷ codes "AUD"
    ∷ []

pub record ExchangeRate : Type 0 where
  pub id : Text
  pub base_currency : Text
  pub quote_currency : Text
  pub rate : Text
  pub effective_date : Time
  pub source : Text
  pub source_published_at : Time

-- Go's zero value `entities.ExchangeRate{}`.
abbrev pub zero_rate : ExchangeRate
zero_rate = record {
  id = [];
  base_currency = [];
  quote_currency = [];
  rate = [];
  effective_date = zero_time;
  source = [];
  source_published_at = zero_time;
}

pub record FetchFailure : Type 0 where
  pub currency : Text
  pub error : Text

abbrev pub zero_failure : FetchFailure
zero_failure = record { currency = []; error = [] }
