-- ===== src/Server.antt =====
-- internal/server/server.go, rates.go and middleware.go: the handlers over the interfaces
-- `Repository` and `RatesFetcher` of the source, and the rate limiter over Redis. The router and
-- the middleware of chi, JSON and the transport are not modelled; logging has no effect here.
pub mod Api
pub mod Fetching
pub mod Shown
pub mod Answers
pub mod Accepted
pub mod Routes
pub mod Routing
pub mod Reading
pub mod Limiter
pub mod Limiting
pub mod Window
pub mod Registered
use april_homework.Common.{
  ℕ, List, [], ◌∷◌, ◌++◌, map, Text, codes, Option, none, some, Bool, true, false, Result, ok, err,
  ◌||◌, ◌&&◌, if◌then◌else◌, ◌==◌, ◌>>=◌, wrap,
}
use april_homework.Common.Int.{ℤ, pos, ltb_ℤ}
use april_homework.Strings.{text_eq, to_upper, trim_space, byte_len, contains, split}
use april_homework.Time.{Time}
use april_homework.Entities.{ExchangeRate, FetchFailure, base_currency, default_currencies}
use april_homework.Ingestion.{IngestResult}
use april_homework.Server.Api.{
  RateJson, FetchFailureJson, FetchRatesRequest, FetchRatesResponse, RatesResponse, HistoryParams,
  Body, error_body, health_body, location, Reply, PostRatesFetchResponse, fetch_200, fetch_207,
  fetch_500, HistoryResponse, history_200, history_422, Decoded, strict_get_rates,
  strict_post_rates_fetch, strict_get_history, bind_history,
}

-- The interface Repository.
pub record RatesRepository (S : Type 0) : Type 0 where
  pub ping : S → Option Text
  pub latest_rates : S → Result (List ExchangeRate)
  pub history : Text → Option Time → Option Time → ℤ → S → Result (List ExchangeRate)

-- The interface RatesFetcher: FetchAndStore.
abbrev pub RatesFetcher : Type 0 → Type 0
RatesFetcher S = List Text → S → (IngestResult × Option Text) × S

abbrev pub id_field : Text → Option Text
id_field [] = none
id_field (c ∷ s) = some (c ∷ s)

unfoldable pub to_response : ExchangeRate → RateJson
to_response rate = record {
  currency = rate.quote_currency;
  effective_date = rate.effective_date;
  id = id_field rate.id;
  rate = rate.rate;
  source = rate.source;
}

unfoldable pub to_responses : List ExchangeRate → List RateJson
unfolding to_response
to_responses = map to_response

unfoldable pub to_fetch_failures : List FetchFailure → List FetchFailureJson
to_fetch_failures = map (λ f. record { currency = f.currency; error = f.error })

-- The response of PostRatesFetch to what FetchAndStore returned.
abbrev pub fetch_response : IngestResult → FetchRatesResponse
fetch_response result = record {
  failed = to_fetch_failures result.failed;
  saved = to_responses result.saved;
}

abbrev pub is_nil {ℓ} : {A : Type ℓ} → List A → Bool
is_nil [] = true
is_nil (_ ∷ _) = false

-- The tests on the error, the saved rates and the failures.
unfoldable pub answer_fetch : IngestResult → Option Text → PostRatesFetchResponse
unfolding to_responses to_fetch_failures
answer_fetch result (some e) =
    if is_nil result.saved then fetch_500 e else fetch_207 (fetch_response result)
answer_fetch result none =
    if is_nil result.failed
    then fetch_200 (fetch_response result)
    else fetch_207 (fetch_response result)

-- `if len(list) == 0 { list = other }`
abbrev pub or_else : List Text → List Text → List Text
or_else [] other = other
or_else (c ∷ cs) other = c ∷ cs

-- The currencies of a request, or those that are configured, or those that are built in.
unfoldable pub choose_currencies : List Text → Option FetchRatesRequest → List Text
choose_currencies defaults none = or_else defaults default_currencies
choose_currencies defaults (some body) =
    or_else (elim body.currencies [ none ↦ defaults | some cs ↦ or_else cs defaults ])
      default_currencies

module _ {S : Type 0} where
  -- PostRatesFetch
  unfoldable pub post_rates_fetch :
      Option (RatesFetcher S)
      → List Text
      → Option FetchRatesRequest
      → S
      → PostRatesFetchResponse × S
  unfolding answer_fetch choose_currencies
  post_rates_fetch none defaults request s = (fetch_500 (codes "fetcher is not configured"), s)
  post_rates_fetch (some fetch) defaults request s =
      let out = fetch (choose_currencies defaults request) s in
      (answer_fetch out.0.0 out.0.1, out.1)

  -- POST /api/v1/rates/fetch
  unfoldable pub serve_fetch : Option (RatesFetcher S) → List Text → Decoded → S → Reply × S
  unfolding strict_post_rates_fetch post_rates_fetch
  serve_fetch fetcher defaults = strict_post_rates_fetch (post_rates_fetch fetcher defaults)

  module _ (repo : RatesRepository S) where
    -- GetRates
    unfoldable pub get_rates : S → Result RatesResponse
    unfolding to_responses
    get_rates s = do
      rates ← wrap (λ e. codes "load latest rates: " ++ e) (repo.latest_rates s)
      ok (record { base_currency = base_currency; rates = to_responses rates })

    unfoldable pub serve_rates : S → Reply
    unfolding strict_get_rates get_rates
    serve_rates s = strict_get_rates (get_rates s)

    abbrev pub limit_or_zero : Option ℤ → ℤ
    limit_or_zero none = pos 0
    limit_or_zero (some n) = n

    -- What follows the test of the code in GetRatesCurrencyHistory.
    unfoldable pub load_history : Text → HistoryParams → S → Result HistoryResponse
    unfolding to_responses
    load_history currency params s = do
      rates ←
          wrap (λ e. codes "load rate history: " ++ e)
            (repo.history currency params.from_date params.to_date (limit_or_zero params.limit) s)
      ok (history_200 (record { base_currency = base_currency; rates = to_responses rates }))

    -- GetRatesCurrencyHistory
    unfoldable pub get_rates_currency_history : Text → HistoryParams → S → Result HistoryResponse
    unfolding load_history
    get_rates_currency_history raw params s =
        let currency = to_upper (trim_space raw) in
        if byte_len currency == 3
        then load_history currency params s
        else ok (history_422 (codes "currency must be ISO 4217 code"))

    -- GET /api/v1/rates/{currency}/history, from the parameters as they are bound
    unfoldable pub serve_history :
        Result Text → Result (Option Time) → Result (Option Time) → Result (Option ℤ) → S → Reply
    unfolding bind_history strict_get_history get_rates_currency_history
    serve_history raw from to limit s =
        bind_history raw from to limit
          (λ c params. strict_get_history (get_rates_currency_history c params s))

    abbrev pub health_reply : Option Text → Reply
    health_reply (some e) = record {
      status = 503;
      body = error_body (codes "database unavailable");
    }
    health_reply none = record { status = 200; body = health_body (codes "ok") }

    -- GET /health
    unfoldable pub health : S → Reply
    health s = health_reply (repo.ping s)

-- The parts of a request that the handlers and the limiter read; an absent header is empty.
pub record Request : Type 0 where
  pub method : Text
  pub path : Text
  pub accept : Text
  pub forwarded_for : Text
  pub remote_addr : Text

unfoldable pub wants_html : Request → Bool
wants_html r =
    text_eq r.accept [] || contains r.accept (codes "text/html") || contains r.accept (codes "*/*")

unfoldable pub redirect_to_docs : Reply
redirect_to_docs = record { status = 302; body = location (codes "/api/docs/") }

unfoldable pub not_found : Request → Reply
unfolding wants_html redirect_to_docs
not_found r =
    if text_eq r.method (codes "GET") && wants_html r
    then redirect_to_docs
    else record { status = 404; body = error_body (codes "not found") }

abbrev pub first_part : List Text → Text
first_part [] = []
first_part (p ∷ ps) = p

abbrev pub host_or : Text → Result Text → Text
host_or addr (ok host) = host
host_or addr (err e) = addr

-- clientIP; the argument is the host that net.SplitHostPort gives.
unfoldable pub client_ip : (Text → Result Text) → Request → Text
client_ip split_host_port r =
    if text_eq r.forwarded_for []
    then host_or r.remote_addr (split_host_port r.remote_addr)
    else trim_space (first_part (split r.forwarded_for b','))
