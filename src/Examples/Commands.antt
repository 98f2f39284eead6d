-- ===== src/Examples/Commands.antt =====
-- The command line with the settings of the environment, over the database in memory.
use mathlib.Core.List.Perm
use april_homework.Common.{◌≡◌, ◌≢◌, ◌↔◌, refl, List, [], ◌∷◌, Text, codes, none, ok, err}
use april_homework.Strings.{split, text_eq, to_upper, trim_space}
use april_homework.Ingestion.{normalize_currencies}
use april_homework.Ingestion.Settle.{unfetched}
use april_homework.Repository.{upsert_rates}
use april_homework.Config.{split_currencies, Config, config_of, fetch_currencies}
use april_homework.Command.{Host, printed, command_of, fetch_configured, load_config, main}
use april_homework.Command.Status.{main-status}
use april_homework.Command.Fetch.{configured_fetcher, main-fetch}
use april_homework.Command.Serve.{served_run, main-serve}
use april_homework.Service.{to_list}
use april_homework.Service.Lifecycle.{first_error}
use april_homework.Examples.Running.{failed_run}
use april_homework.Examples.Memory.{memory}
use april_homework.Examples.Feeds.{online}
use april_homework.Examples.Requests.{counters, visit}
use april_homework.Examples.Routes.{web}
use april_homework.Examples.Settings.{input, same, joined}

abbrev host : Host memory
host = record {
  parse_env = ok input;
  query_escape = same;
  user_password = joined;
  new_pool = λ uri. none;
  marshal = λ result. ok (codes "{}");
  web = web;
  redis = counters;
  ping = λ w. none;
  order = λ l. l;
  run_server = λ cfg handler w. (failed_run, (handler visit w (λ k. 0)).1);
}

abbrev cfg : Config
cfg = config_of same joined input

abbrev args : List Text
args = codes "rates-service" ∷ codes "fetch" ∷ []

loaded : load_config memory host ≡ ok cfg
unfolding load_config april_homework.Config.load
loaded = refl

named : command_of args ≡ codes "fetch"
unfolding command_of
named = refl

codes_are : normalize_currencies (fetch_currencies cfg) ≡ codes "USD" ∷ codes "GBP" ∷ []
unfolding normalize_currencies fetch_currencies config_of split_currencies split to_upper trim_space
    text_eq
codes_are = refl

codes_some : normalize_currencies (fetch_currencies cfg) ≢ []
codes_some e = cc (codes_are, e)

main-status_example :
    (((main memory online host (λ os. os) args []).status ≡ 2) ↔ (
      ((c : Config) × (load_config memory host ≡ ok c))
      × (command_of args ≢ codes "serve")
      × (command_of args ≢ codes "fetch")))
    × ((e : Text)
        → load_config memory host ≡ err e
        → main memory online host (λ os. os) args []
          ≡ record { status = 1; out = []; log = e ∷ []; world = [] })
main-status_example = main-status memory online host (λ os. os) args []

main-fetch_example :
    let result = (fetch_configured memory online host (λ os. os) cfg []).0.0 in
    let exit = main memory online host (λ os. os) args [] in
    ((exit.status ≡ 0) ↔ (
      (unfetched (configured_fetcher online cfg) (normalize_currencies (fetch_currencies cfg)) ≡ [])
      × (result.saved ≢ [] → (upsert_rates memory result.saved []).0 ≡ none)))
    × (exit.out ≡ printed (host.marshal result))
    × (result.saved ≢ [] → exit.world ≡ (upsert_rates memory result.saved []).1)
    × (result.saved ≡ [] → exit.world ≡ [])
main-fetch_example =
    main-fetch memory online host (λ os. os) args [] cfg named loaded refl (λ os. Perm.refl os)
      codes_some

abbrev serving : List Text
serving = codes "rates-service" ∷ []

serving_named : command_of serving ≡ codes "serve"
unfolding command_of
serving_named = refl

main-serve_example :
    let run = served_run memory online host (λ os. os) cfg [] in
    let exit = main memory online host (λ os. os) serving [] in
    ((exit.status ≡ 0) ↔ (run.0.errors ≡ [])) × (exit.log ≡ to_list (first_error run.0.errors))
main-serve_example =
    main-serve memory online host (λ os. os) serving [] cfg serving_named loaded refl
