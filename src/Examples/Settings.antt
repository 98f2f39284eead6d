-- ===== src/Examples/Settings.antt =====
-- Settings of the environment.
use april_homework.Common.{◌≡◌, ◌≢◌, ◌↔◌, ◌++◌, [], Text, codes, true, In}
use april_homework.Common.Int.{pos}
use april_homework.Strings.{canonical, split}
use april_homework.Config.{Input, split_currencies}
use april_homework.Config.Currencies.{split_currencies-exact}

abbrev pub input : Input
input = record {
  db_username = codes "local_user";
  db_password = codes "local_db";
  db_host = codes "localhost";
  db_port = codes "5432";
  db_name = codes "rates-service";
  db_schema = codes "rates";
  redis_address = codes "localhost:6379";
  redis_password = [];
  redis_db = pos 0;
  log_level = codes "info";
  host = codes "0.0.0.0";
  port = pos 8888;
  read_timeout = pos 5;
  write_timeout = pos 5;
  bank_lv_url = codes "https://www.bank.lv/vk/ecb_rss.xml";
  selected_currencies = codes "USD, gbp,";
  fetch_concurrency = pos 4;
  rate_limit_enabled = true;
  rate_limit_limit = pos 120;
  rate_limit_window = pos 60;
}

abbrev pub same : Text → Text
same s = s

abbrev pub joined : Text → Text → Text
joined user password = user ++ codes ":" ++ password

split_currencies-exact_example : In (codes "GBP") (split_currencies (codes "USD, gbp,")) ↔ (
    (codes "GBP" ≢ [])
    × (p : Text) × In p (split (codes "USD, gbp,") b',')
    × (canonical p ≡ codes "GBP"))
split_currencies-exact_example = split_currencies-exact (codes "USD, gbp,") (codes "GBP")
