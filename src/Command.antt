-- ===== src/Command.antt =====
-- cmd/rates-service/main.go: the command line, from the settings of the environment to the status
-- with which the process ends. The environment, the pool, JSON and the HTTP server are arguments.
pub mod Status
pub mod Fetch
pub mod Serve
use april_homework.Common.{
  ℕ, List, [], ◌∷◌, ◌++◌, Text, codes, Option, none, some, Bool, true, false, Result, ok, err,
  if◌then◌else◌, ◌>>=◌, wrap,
}
use april_homework.Strings.{text_eq, quote}
use april_homework.Ingestion.{IngestResult, FetchOutcome}
use april_homework.Fetcher.{Platform, fetch_currency, new_bank_lv_fetcher}
use april_homework.Repository.{Database}
use april_homework.Config.{ServerConfig, Input, Config, load, fetch_currencies}
use april_homework.Service.{Returned, wait}
use april_homework.System.{ingest}
use april_homework.System.Handler.{new_server}
use april_homework.Entities.{ExchangeRate}
use april_homework.Server.Api.{Reply}
use april_homework.Server.{Request}
use april_homework.Server.Limiter.{Redis}
use april_homework.Server.Routes.{Web}

-- What the command calls and the other parts do not have: env.ParseAs, the escaping of net/url,
-- pgxpool.New with its error, json.MarshalIndent; the router, Redis, the ping of the pool and the
-- order of a range over a map, for the server; and a run of the service around net/http with a
-- handler, until it returns.
pub record Host (db : Database) : Type 1 where
  pub parse_env : Result Input
  pub query_escape : Text → Text
  pub user_password : Text → Text → Text
  pub new_pool : Text → Option Text
  pub marshal : IngestResult → Result Text
  pub web : Web
  pub redis : Redis
  pub ping : db.World → Option Text
  pub order : List ExchangeRate → List ExchangeRate
  pub run_server :
      ServerConfig
      → (Request → db.World → redis.State → Reply × db.World × redis.State)
      → db.World
      → Returned × db.World

-- How the process ends: its status, the result and the message that it printed, and the database.
-- What the logger prints is left out.
pub record Exit (World : Type 0) : Type 0 where
  pub status : ℕ
  pub out : List Text
  pub log : List Text
  pub world : World

-- fmt.Println(string(data)), if there is data.
abbrev pub printed : Result Text → List Text
printed (ok text) = text ∷ []
printed (err e) = []

-- `cmd := "serve"`, or the first argument.
unfoldable pub command_of : List Text → Text
command_of [] = codes "serve"
command_of (program ∷ []) = codes "serve"
command_of (program ∷ cmd ∷ rest) = cmd

-- What a command returned to main; log.Fatal prints its error and exits with status 1.
unfoldable pub ended : {W : Type 0} → List Text → Option Text × W → Exit W
ended out (none, w) = record { status = 0; out = out; log = []; world = w }
ended out (some e, w) = record { status = 1; out = out; log = e ∷ []; world = w }

abbrev pub usage : Text
usage = codes "usage: rates-service [serve|fetch]"

unfoldable pub unknown_command : {W : Type 0} → Text → W → Exit W
unknown_command cmd w = record {
  status = 2;
  out = [];
  log = (codes "unknown command " ++ quote cmd) ∷ usage ∷ [];
  world = w;
}

-- The end of runServe: what service.Run returned.
unfoldable pub served : {W : Type 0} → Returned × W → Exit W
unfolding ended wait
served (run, w) = ended [] (wait run.end, w)

-- What follows pgxpool.New, which may have failed.
abbrev pub with_pool : {W : Type 0} → Option Text → Exit W → W → Exit W
with_pool none rest w = rest
with_pool (some e) rest w = ended [] (some (codes "connect database: " ++ e), w)

-- What follows loadConfig, which ends the process where it fails.
abbrev pub with_config : {W : Type 0} → Result Config → (Config → Exit W) → W → Exit W
with_config (ok cfg) rest w = rest cfg
with_config (err e) rest w = ended [] (some e, w)

-- loadConfig
unfoldable pub load_config : (db : Database) → Host db → Result Config
unfolding load
load_config db host = do input ← host.parse_env; load host.query_escape host.user_password input

module _ (db : Database) (platform : Platform) (host : Host db)
    (drain : List FetchOutcome → List FetchOutcome) where
  -- runServe: the pool, and the server of the repository and the ingestion service.
  unfoldable pub run_serve : Config → db.World → Exit db.World
  unfolding served new_server fetch_currency new_bank_lv_fetcher
  run_serve cfg w =
      let handler =
        new_server db host.order host.ping host.web host.redis
          (fetch_currency platform (new_bank_lv_fetcher cfg.fetcher.bank_lv_url)) drain cfg in
      with_pool (host.new_pool cfg.database_uri) (served (host.run_server cfg.server handler w)) w

  -- The call of FetchAndStore in runFetch, by the service that NewService makes.
  unfoldable pub fetch_configured : Config → db.World → (IngestResult × Option Text) × db.World
  unfolding ingest fetch_currency new_bank_lv_fetcher fetch_currencies
  fetch_configured cfg w =
      ingest db (fetch_currency platform (new_bank_lv_fetcher cfg.fetcher.bank_lv_url)) drain
        (fetch_currencies cfg) w

  -- runFetch
  unfoldable pub run_fetch : Config → db.World → Exit db.World
  unfolding ended fetch_configured
  run_fetch cfg w =
      let out = fetch_configured cfg w in
      with_pool (host.new_pool cfg.database_uri)
        (ended (printed (host.marshal out.0.0)) (out.0.1, out.1)) w

  -- The `switch cmd`.
  unfoldable pub run_command : Text → Config → db.World → Exit db.World
  unfolding run_serve run_fetch unknown_command
  run_command cmd cfg w =
      if text_eq cmd (codes "serve")
      then run_serve cfg w
      else if text_eq cmd (codes "fetch")
      then run_fetch cfg w
      else unknown_command cmd w

  -- main: the settings are read before the command is looked at.
  unfoldable pub main : List Text → db.World → Exit db.World
  unfolding load_config run_command command_of ended
  main args w = with_config (load_config db host) (λ cfg. run_command (command_of args) cfg w) w
