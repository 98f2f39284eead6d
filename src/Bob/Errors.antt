-- ===== src/Bob/Errors.antt =====
-- internal/db/bob/dberrors: the errors of the unique constraints of exchange_rates.
use april_homework.Common.{List, [], ◌∷◌, Text, codes, Option, none, some, Bool, false, ◌&&◌, ◌||◌}
use april_homework.Strings.{text_eq}

pub record UniqueConstraintError : Type 0 where
  pub schema : Text
  pub table : Text
  pub columns : List Text
  pub s : Text

-- What Is reads of a *pgconn.PgError.
pub record PgError : Type 0 where
  pub code : Text
  pub constraint_name : Text

-- Error
unfoldable pub error_text : UniqueConstraintError → Text
error_text e = e.s

-- Is; the target is `none` if it is another kind of error.
unfoldable pub is_error : UniqueConstraintError → Option PgError → Bool
is_error e none = false
is_error e (some target) =
    text_eq target.code (codes "23505") && (text_eq e.s [] || text_eq target.constraint_name e.s)

-- ErrUniqueConstraint
unfoldable pub err_unique_constraint : UniqueConstraintError
err_unique_constraint = record { schema = []; table = []; columns = []; s = [] }

pub record ExchangeRateErrors : Type 0 where
  pub err_pkey : UniqueConstraintError
  pub err_source_base_quote_date_key : UniqueConstraintError

unfoldable pub exchange_rate_errors : ExchangeRateErrors
exchange_rate_errors = record {
  err_pkey = record {
    schema = [];
    table = codes "exchange_rates";
    columns = codes "id" ∷ [];
    s = codes "exchange_rates_pkey";
  };
  err_source_base_quote_date_key = record {
    schema = [];
    table = codes "exchange_rates";
    columns =
        codes "source"
        ∷ codes "base_currency"
        ∷ codes "quote_currency"
        ∷ codes "effective_date"
        ∷ [];
    s = codes "exchange_rates_source_base_currency_quote_currency_effectiv_key";
  };
}
