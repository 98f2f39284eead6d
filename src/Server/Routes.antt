-- ===== src/Server/Routes.antt =====
-- internal/server/server.go: the handler that `routes` builds, with the routes of HandlerWithOptions
-- in internal/server/api/openapi.gen.go. The router and the middleware of chi, and the decoding of a
-- request, are arguments.
use april_homework.Common.{
  List, [], ◌∷◌, ◌++◌, Text, codes, Option, none, some, Bool, true, false, ◌&&◌, Result,
  if◌then◌else◌,
}
use april_homework.Common.Int.{ℤ}
use april_homework.Time.{Time}
use april_homework.Server.Api.{Reply, location, Decoded}
use april_homework.Server.{
  RatesRepository, RatesFetcher, Request, serve_fetch, serve_rates, serve_history, health,
  not_found, redirect_to_docs,
}
use april_homework.Docs.{serve_file}
use april_homework.Server.Limiter.{Redis, rate_limit, too_many}

-- The handlers that are registered.
pub data Endpoint : Type 0 where
  health_check docs_redirect list_rates fetch_rates rate_history docs_files docs_home : Endpoint

-- A route: a method, where one is required, a pattern and a handler.
pub record Route : Type 0 where
  pub method : Option Text
  pub pattern : Text
  pub endpoint : Endpoint

-- HandlerWithOptions, with the base URL.
unfoldable pub api_routes : Text → List Route
api_routes base =
    record { method = some (codes "GET"); pattern = base ++ codes "/rates"; endpoint = list_rates }
    ∷ record {
      method = some (codes "POST");
      pattern = base ++ codes "/rates/fetch";
      endpoint = fetch_rates;
    }
    ∷ record {
      method = some (codes "GET");
      pattern = base ++ codes "/rates/{currency}/history";
      endpoint = rate_history;
    }
    ∷ []

-- NewOpenAPI of docs/docs.go
unfoldable pub docs_routes : List Route
docs_routes =
    record { method = none; pattern = codes "/api/docs/*"; endpoint = docs_files }
    ∷ record { method = some (codes "GET"); pattern = codes "/api/docs"; endpoint = docs_home }
    ∷ []

unfoldable pub route_table : List Route
unfolding api_routes docs_routes
route_table =
    record { method = some (codes "GET"); pattern = codes "/health"; endpoint = health_check }
      ∷ record { method = some (codes "GET"); pattern = codes "/"; endpoint = docs_redirect }
      ∷ api_routes (codes "/api/v1")
    ++ docs_routes

-- What the router of chi finds: a route, a pattern that does not have the method, or nothing.
pub data Found : Type 0 where
  found : Endpoint → Found
  method_not_allowed : Found
  unmatched : Found

-- The parameters of the history as the binders of the runtime give them.
pub record Bound : Type 0 where
  pub currency : Result Text
  pub from_date : Result (Option Time)
  pub to_date : Result (Option Time)
  pub limit : Result (Option ℤ)

-- What the routes call: the router of chi, its answer to a method that a pattern
-- does not have, and its RealIP, the body decoder, the binders, http.StripPrefix
-- and http.FileServer, which is given the content type that is set, and net.SplitHostPort.
pub record Web : Type 0 where
  pub route : List Route → Request → Found
  pub not_allowed : Request → Reply
  pub real_ip : Request → Request
  pub decode : Request → Decoded
  pub bind : Request → Bound
  pub strip_prefix : Text → (Request → Reply) → Request → Reply
  pub file_server : Option Text → Request → Reply
  pub split_host_port : Text → Result Text

unfoldable pub moved_to_docs : Reply
moved_to_docs = record { status = 301; body = location (codes "/api/docs/") }

module _ {S : Type 0} (web : Web) (repo : RatesRepository S) (fetcher : Option (RatesFetcher S))
    (defaults : List Text) where
  -- The handler of an endpoint: the reply, and the store after it.
  unfoldable pub endpoint_reply : Endpoint → Request → S → Reply × S
  unfolding serve_fetch serve_rates serve_history health redirect_to_docs moved_to_docs serve_file
  endpoint_reply health_check r s = (health repo s, s)
  endpoint_reply docs_redirect r s = (redirect_to_docs, s)
  endpoint_reply list_rates r s = (serve_rates repo s, s)
  endpoint_reply fetch_rates r s = serve_fetch fetcher defaults (web.decode r) s
  endpoint_reply rate_history r s =
      let b = web.bind r in (serve_history repo b.currency b.from_date b.to_date b.limit s, s)
  endpoint_reply docs_files r s =
      (web.strip_prefix (codes "/api/docs") (serve_file (λ q. q.path) web.file_server) r, s)
  endpoint_reply docs_home r s = (moved_to_docs, s)

  unfoldable pub found_reply : Found → Request → S → Reply × S
  unfolding endpoint_reply not_found
  found_reply (found e) r s = endpoint_reply e r s
  found_reply method_not_allowed r s = (web.not_allowed r, s)
  found_reply unmatched r s = (not_found r, s)

  unfoldable pub routed : Request → S → Reply × S
  unfolding found_reply route_table
  routed r s = found_reply (web.route route_table r) r s

  module _ (redis : Redis) (connected enabled : Bool) (limit : ℤ) where
    -- What follows the decision of the limiter.
    abbrev pub decided : Bool × redis.State → Request → S → Reply × S × redis.State
    decided (true, c) r s = let out = routed r s in (out.0, out.1, c)
    decided (false, c) r s = (too_many redis web.split_host_port limit, s, c)

    -- The handler with its middleware: the limiter stands before the routes if it is enabled and
    -- there is a Redis client.
    unfoldable pub serve_http : Request → S → redis.State → Reply × S × redis.State
    unfolding routed rate_limit
    serve_http request s c =
        let r = web.real_ip request in
        if enabled && connected
        then decided (rate_limit redis web.split_host_port limit r c) r s
        else decided (true, c) r s
