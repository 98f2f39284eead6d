-- ===== src/System/Handler.antt =====
-- The handler that runServe of cmd/rates-service/main.go makes by server.New: the server over the
-- repository and the ingestion service. `order` is the order in which the range over the map of
-- LatestRates visits its values; the ping of the pool and Redis are arguments.
use april_homework.Common.{List, Text, Option, some, true, Result}
use april_homework.Entities.{ExchangeRate}
use april_homework.Ingestion.{FetchOutcome}
use april_homework.Repository.{Database, latest_rates, history}
use april_homework.Config.{Config}
use april_homework.System.{ingest}
use april_homework.Server.Api.{Reply}
use april_homework.Server.{RatesRepository, Request}
use april_homework.Server.Limiter.{Redis}
use april_homework.Server.Routes.{Web, serve_http}

module _ (db : Database) (order : List ExchangeRate → List ExchangeRate)
    (ping : db.World → Option Text) where
  -- The repository behind the server's interface.
  unfoldable pub repository_of : RatesRepository db.World
  repository_of = record { ping = ping; latest_rates = latest_rates db order; history = history db }

  -- server.New with what runServe gives it.
  unfoldable pub new_server :
      (web : Web) (redis : Redis) (fetch : Text → Result ExchangeRate)
      (drain : List FetchOutcome → List FetchOutcome) (cfg : Config)
      → Request
      → db.World
      → redis.State
      → Reply × db.World × redis.State
  unfolding serve_http repository_of ingest
  new_server web redis fetch drain cfg =
      serve_http web repository_of (some (ingest db fetch drain)) cfg.fetcher.currencies redis true
        cfg.rate_limit.enabled cfg.rate_limit.limit
