-- ===== src/Bob/Info.antt =====
-- internal/db/bob/dbinfo: the description of the table exchange_rates, exchange_rates.bob.go, with
-- the types of bob_types.bob.go.
use april_homework.Common.{List, [], ◌∷◌, Text, codes, Option, some, Bool, true, false}

pub record Column : Type 0 where
  pub name : Text
  pub db_type : Text
  pub default : Text
  pub comment : Text
  pub nullable : Bool
  pub generated : Bool
  pub auto_incr : Bool

-- `desc` is a null.Val[bool].
pub record IndexColumn : Type 0 where
  pub name : Text
  pub desc : Option Bool
  pub is_expression : Bool

pub record Index : Type 0 where
  pub type : Text
  pub name : Text
  pub columns : List IndexColumn
  pub unique : Bool
  pub comment : Text
  pub nulls_first : List Bool
  pub nulls_distinct : Bool
  pub where_clause : Text
  pub include : List Text

pub record Constraint : Type 0 where
  pub name : Text
  pub columns : List Text
  pub comment : Text

pub record ForeignKey : Type 0 where
  pub constraint : Constraint
  pub foreign_table : Text
  pub foreign_columns : List Text

pub record Check : Type 0 where
  pub constraint : Constraint
  pub expression : Text

-- Table, over the types of its parts.
pub record Table (Cols Idxs Fks Us Cs : Type 0) : Type 0 where
  pub schema : Text
  pub name : Text
  pub columns : Cols
  pub indexes : Idxs
  pub primary_key : Option Constraint
  pub foreign_keys : Fks
  pub uniques : Us
  pub checks : Cs
  pub comment : Text

pub record ExchangeRateColumns : Type 0 where
  pub id : Column
  pub base_currency : Column
  pub quote_currency : Column
  pub rate : Column
  pub effective_date : Column
  pub source : Column
  pub source_published_at : Column
  pub created_at : Column

unfoldable pub column_slice : ExchangeRateColumns → List Column
column_slice c =
    c.id ∷ c.base_currency ∷ c.quote_currency ∷ c.rate ∷ c.effective_date ∷ c.source
    ∷ c.source_published_at ∷ c.created_at ∷ []

pub record ExchangeRateIndexes : Type 0 where
  pub pkey : Index
  pub quote_currency_effective_date : Index
  pub source_base_quote_date_key : Index

unfoldable pub index_slice : ExchangeRateIndexes → List Index
index_slice i = i.pkey ∷ i.quote_currency_effective_date ∷ i.source_base_quote_date_key ∷ []

pub record ExchangeRateForeignKeys : Type 0 where

unfoldable pub foreign_key_slice : ExchangeRateForeignKeys → List ForeignKey
foreign_key_slice f = []

pub record ExchangeRateUniques : Type 0 where
  pub source_base_quote_date_key : Constraint

unfoldable pub unique_slice : ExchangeRateUniques → List Constraint
unique_slice u = u.source_base_quote_date_key ∷ []

pub record ExchangeRateChecks : Type 0 where

unfoldable pub check_slice : ExchangeRateChecks → List Check
check_slice c = []

-- A column with a name, a type and a default, neither generated nor counted up.
abbrev pub column : Text → Text → Text → Bool → Column
column name db_type default nullable = record {
  name = name;
  db_type = db_type;
  default = default;
  comment = [];
  nullable = nullable;
  generated = false;
  auto_incr = false;
}

abbrev pub ascending : Text → IndexColumn
ascending name = record { name = name; desc = some false; is_expression = false }

abbrev pub descending : Text → IndexColumn
descending name = record { name = name; desc = some true; is_expression = false }

abbrev pub key_name : Text
key_name = codes "exchange_rates_source_base_currency_quote_currency_effectiv_key"

unfoldable pub exchange_rate_columns : ExchangeRateColumns
exchange_rate_columns = record {
  id = column (codes "id") (codes "uuid") [] false;
  base_currency = column (codes "base_currency") (codes "character") (codes "'EUR'::bpchar") false;
  quote_currency = column (codes "quote_currency") (codes "character") [] false;
  rate = column (codes "rate") (codes "numeric") [] false;
  effective_date = column (codes "effective_date") (codes "date") [] false;
  source = column (codes "source") (codes "text") [] false;
  source_published_at =
      column (codes "source_published_at") (codes "timestamp with time zone") (codes "NULL") true;
  created_at = column (codes "created_at") (codes "timestamp with time zone") (codes "now()") false;
}

unfoldable pub exchange_rate_indexes : ExchangeRateIndexes
exchange_rate_indexes = record {
  pkey = record {
    type = codes "btree";
    name = codes "exchange_rates_pkey";
    columns = ascending (codes "id") ∷ [];
    unique = true;
    comment = [];
    nulls_first = false ∷ [];
    nulls_distinct = false;
    where_clause = [];
    include = [];
  };
  quote_currency_effective_date = record {
    type = codes "btree";
    name = codes "exchange_rates_quote_currency_effective_date_idx";
    columns = ascending (codes "quote_currency") ∷ descending (codes "effective_date") ∷ [];
    unique = false;
    comment = [];
    nulls_first = false ∷ true ∷ [];
    nulls_distinct = false;
    where_clause = [];
    include = [];
  };
  source_base_quote_date_key = record {
    type = codes "btree";
    name = key_name;
    columns =
        ascending (codes "source")
        ∷ ascending (codes "base_currency")
        ∷ ascending (codes "quote_currency")
        ∷ ascending (codes "effective_date")
        ∷ [];
    unique = true;
    comment = [];
    nulls_first = false ∷ false ∷ false ∷ false ∷ [];
    nulls_distinct = false;
    where_clause = [];
    include = [];
  };
}

unfoldable pub primary_key : Constraint
primary_key = record { name = codes "exchange_rates_pkey"; columns = codes "id" ∷ []; comment = [] }

unfoldable pub exchange_rate_uniques : ExchangeRateUniques
exchange_rate_uniques = record {
  source_base_quote_date_key = record {
    name = key_name;
    columns =
        codes "source"
        ∷ codes "base_currency"
        ∷ codes "quote_currency"
        ∷ codes "effective_date"
        ∷ [];
    comment = [];
  };
}

-- ExchangeRates; the foreign keys and the checks have no fields.
unfoldable pub exchange_rates :
    Table ExchangeRateColumns ExchangeRateIndexes ExchangeRateForeignKeys ExchangeRateUniques
      ExchangeRateChecks
unfolding exchange_rate_columns exchange_rate_indexes primary_key exchange_rate_uniques
exchange_rates = record {
  schema = [];
  name = codes "exchange_rates";
  columns = exchange_rate_columns;
  indexes = exchange_rate_indexes;
  primary_key = some primary_key;
  foreign_keys = record {};
  uniques = exchange_rate_uniques;
  checks = record {};
  comment = [];
}
