-- ===== src/Config.antt =====
-- internal/config/config.go: the settings that the environment gives, checked and put into groups;
-- and what cmd/rates-service/main.go does with them. The escaping of net/url is a parameter. A
-- time.Duration is a count of nanoseconds in 64 bits.
pub mod Currencies
pub mod Loading
use april_homework.Common.{
  ℕ, ltb, ◌-◌, ◌*◌, ◌%◌, ◌^◌, List, [], ◌∷◌, ◌++◌, map, Text, codes, Option, none, some, Bool, true,
  false, Result, ok, err, ◌||◌, if◌then◌else◌,
}
use april_homework.Common.Int.{ℤ, pos, negsuc, ltb_ℤ}
use april_homework.Strings.{text_eq, to_upper, to_lower, trim_space, split, print_int, quote}
use april_homework.Entities.{default_currencies}

pub record Input : Type 0 where
  pub db_username : Text
  pub db_password : Text
  pub db_host : Text
  pub db_port : Text
  pub db_name : Text
  pub db_schema : Text
  pub redis_address : Text
  pub redis_password : Text
  pub redis_db : ℤ
  pub log_level : Text
  pub host : Text
  pub port : ℤ
  pub read_timeout : ℤ
  pub write_timeout : ℤ
  pub bank_lv_url : Text
  pub selected_currencies : Text
  pub fetch_concurrency : ℤ
  pub rate_limit_enabled : Bool
  pub rate_limit_limit : ℤ
  pub rate_limit_window : ℤ

pub record ServerConfig : Type 0 where
  pub host : Text
  pub port : ℤ
  pub address : Text
  pub read_timeout : ℤ
  pub write_timeout : ℤ

pub record RedisConfig : Type 0 where
  pub address : Text
  pub password : Text
  pub db : ℤ

pub record FetcherConfig : Type 0 where
  pub bank_lv_url : Text
  pub currencies : List Text
  pub concurrency : ℤ

pub record RateLimitConfig : Type 0 where
  pub enabled : Bool
  pub limit : ℤ
  pub window : ℤ

pub record Config : Type 0 where
  pub log_level : Text
  pub server : ServerConfig
  pub database_uri : Text
  pub redis : RedisConfig
  pub fetcher : FetcherConfig
  pub rate_limit : RateLimitConfig

-- The loop of splitCurrencies.
unfoldable pub keep_codes : List Text → List Text
keep_codes [] = []
keep_codes (part ∷ parts) =
    let code = to_upper (trim_space part) in
    let rest = keep_codes parts in if text_eq code [] then rest else code ∷ rest

unfoldable pub split_currencies : Text → List Text
unfolding keep_codes
split_currencies value = keep_codes (split value b',')

-- A signed 64-bit value from the residue of its bits.
unfoldable pub signed : ℕ → ℤ
signed n = if ltb n (2 ^ 63) then pos n else negsuc (2 ^ 64 - 1 - n)

abbrev pub bits : ℤ → ℕ
bits (pos n) = n % 2 ^ 64
bits (negsuc n) = (2 ^ 64 - 1) - n % 2 ^ 64

-- time.Duration(n) * time.Second
unfoldable pub seconds : ℤ → ℤ
unfolding signed
seconds n = signed (bits n * 1000000000 % 2 ^ 64)

-- `Values.Encode` writes the keys in order: search_path, then sslmode.
abbrev pub query_of : (Text → Text) → Text → Text
query_of escape [] = codes "sslmode=disable"
query_of escape (c ∷ s) = codes "search_path=" ++ escape (c ∷ s) ++ codes "&sslmode=disable"

module _ (query_escape : Text → Text) (user_password : Text → Text → Text) where
  unfoldable pub database_uri : Input → Text
  database_uri i =
      codes "postgres://"
      ++ user_password i.db_username i.db_password
      ++ codes "@"
      ++ i.db_host
      ++ codes ":"
      ++ i.db_port
      ++ codes "/"
      ++ i.db_name
      ++ codes "?"
      ++ query_of query_escape i.db_schema

  unfoldable pub config_of : Input → Config
  unfolding database_uri split_currencies seconds
  config_of i = record {
    log_level = i.log_level;
    server = record {
      host = i.host;
      port = i.port;
      address = i.host ++ codes ":" ++ print_int i.port;
      read_timeout = seconds i.read_timeout;
      write_timeout = seconds i.write_timeout;
    };
    database_uri = database_uri i;
    redis = record { address = i.redis_address; password = i.redis_password; db = i.redis_db };
    fetcher = record {
      bank_lv_url = i.bank_lv_url;
      currencies = split_currencies i.selected_currencies;
      concurrency = i.fetch_concurrency;
    };
    rate_limit = record {
      enabled = i.rate_limit_enabled;
      limit = i.rate_limit_limit;
      window = seconds i.rate_limit_window;
    };
  }

  -- Input.Load
  unfoldable pub load : Input → Result Config
  unfolding config_of
  load i =
      if ltb_ℤ i.port (pos 1) || ltb_ℤ (pos 65535) i.port
      then err (codes "expected port range from 1 to 65535, received: " ++ print_int i.port)
      else if ltb_ℤ i.fetch_concurrency (pos 1)
      then err (codes "FETCH_CONCURRENCY must be greater than zero")
      else ok (config_of i)

-- The level of newLogger.
pub data Level : Type 0 where
  debug : Level
  info : Level
  warn : Level
  error : Level

unfoldable pub log_level_of : Text → Level
log_level_of level =
    let name = to_lower level in
    if text_eq name (codes "debug")
    then debug
    else if text_eq name (codes "warn")
    then warn
    else if text_eq name (codes "error")
    then error
    else info

unfoldable pub docs_url : Text → ℤ → Text
docs_url host port =
    let shown =
      if text_eq host [] || text_eq host (codes "0.0.0.0") || text_eq host (codes "::")
      then codes "localhost"
      else host in
    codes "http://" ++ shown ++ codes ":" ++ print_int port ++ codes "/api/docs/"

abbrev pub or_default : List Text → List Text
or_default [] = default_currencies
or_default (c ∷ cs) = c ∷ cs

-- The currencies of `runFetch`.
unfoldable pub fetch_currencies : Config → List Text
fetch_currencies cfg = or_default cfg.fetcher.currencies
