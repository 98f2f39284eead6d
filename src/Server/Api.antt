-- ===== src/Server/Api.antt =====
-- internal/server/api/openapi.gen.go: the JSON types, the response objects with the status that
-- their Visit methods write, the wrapper that binds the parameters of a request, and the strict
-- handlers. The decoder of the body and the binder of parameters are arguments.
pub mod Params
pub mod Strict
pub mod Wrapper
pub mod Wrapped
use april_homework.Common.{ℕ, List, Text, codes, Option, none, some, Result, ok, err, ◌++◌}
use april_homework.Common.Int.{ℤ}
use april_homework.Time.{Time}

pub record FetchFailureJson : Type 0 where
  pub currency : Text
  pub error : Text

-- `effective_date` prints the day of its time.
pub record RateJson : Type 0 where
  pub currency : Text
  pub effective_date : Time
  pub id : Option Text
  pub rate : Text
  pub source : Text

pub record FetchRatesRequest : Type 0 where
  pub currencies : Option (List Text)

pub record FetchRatesResponse : Type 0 where
  pub failed : List FetchFailureJson
  pub saved : List RateJson

pub record RatesResponse : Type 0 where
  pub base_currency : Text
  pub rates : List RateJson

pub record HistoryParams : Type 0 where
  pub from_date : Option Time
  pub to_date : Option Time
  pub limit : Option ℤ

-- What a handler writes: a status, and a JSON value, a plain text or the target of a redirect.
pub data Body : Type 0 where
  rates_body : RatesResponse → Body
  fetch_body : FetchRatesResponse → Body
  error_body : Text → Body
  health_body : Text → Body
  plain_body : Text → Body
  location : Text → Body

pub record Reply : Type 0 where
  pub status : ℕ
  pub body : Body

-- The response objects of POST /rates/fetch, with what their Visit methods write.
pub data PostRatesFetchResponse : Type 0 where
  fetch_200 : FetchRatesResponse → PostRatesFetchResponse
  fetch_207 : FetchRatesResponse → PostRatesFetchResponse
  fetch_500 : Text → PostRatesFetchResponse

unfoldable pub visit_fetch : PostRatesFetchResponse → Reply
visit_fetch (fetch_200 r) = record { status = 200; body = fetch_body r }
visit_fetch (fetch_207 r) = record { status = 207; body = fetch_body r }
visit_fetch (fetch_500 e) = record { status = 500; body = error_body e }

-- The response objects of GET /rates/{currency}/history.
pub data HistoryResponse : Type 0 where
  history_200 : RatesResponse → HistoryResponse
  history_422 : Text → HistoryResponse

unfoldable pub visit_history : HistoryResponse → Reply
visit_history (history_200 r) = record { status = 200; body = rates_body r }
visit_history (history_422 e) = record { status = 422; body = error_body e }

unfoldable pub visit_rates : RatesResponse → Reply
visit_rates r = record { status = 200; body = rates_body r }

-- What the decoder of a body finds: nothing (io.EOF), a text that it refuses, or a request.
pub data Decoded : Type 0 where
  no_body : Decoded
  malformed : Text → Decoded
  decoded : FetchRatesRequest → Decoded

-- The two error handlers that `routes` gives to the strict handlers.
abbrev pub request_error : Text → Reply
request_error e = record { status = 422; body = error_body e }

abbrev pub response_error : Text → Reply
response_error e = record { status = 500; body = error_body (codes "internal error") }

-- The end of each strict handler.
abbrev pub respond {ℓ} : {A : Type ℓ} → (A → Reply) → Result A → Reply
respond visit (ok a) = visit a
respond visit (err e) = response_error e

-- strictHandler.GetRates
unfoldable pub strict_get_rates : Result RatesResponse → Reply
unfolding visit_rates
strict_get_rates = respond visit_rates

-- strictHandler.PostRatesFetch, which hands the state on.
unfoldable pub strict_post_rates_fetch :
    {S : Type 0}
    → (Option FetchRatesRequest → S → PostRatesFetchResponse × S)
    → Decoded
    → S
    → Reply × S
unfolding visit_fetch
strict_post_rates_fetch handler (malformed e) s =
    (request_error (codes "can't decode JSON body: " ++ e), s)
strict_post_rates_fetch handler no_body s = let (r, s') = handler none s in (visit_fetch r, s')
strict_post_rates_fetch handler (decoded b) s =
    let (r, s') = handler (some b) s in (visit_fetch r, s')

-- strictHandler.GetRatesCurrencyHistory
unfoldable pub strict_get_history : Result HistoryResponse → Reply
unfolding visit_history
strict_get_history = respond visit_history

-- InvalidParamFormatError, through the default ErrorHandlerFunc of HandlerWithOptions.
unfoldable pub invalid_param : Text → Text → Reply
invalid_param name e = record {
  status = 400;
  body = plain_body (codes "Invalid format for parameter " ++ name ++ codes ": " ++ e);
}

-- ServerInterfaceWrapper.GetRatesCurrencyHistory: the parameters are bound in turn, and the first
-- that has no value ends the request. None is required, so that RequiredParamError does not arise.
unfoldable pub bind_history :
    Result Text
    → Result (Option Time)
    → Result (Option Time)
    → Result (Option ℤ)
    → (Text → HistoryParams → Reply)
    → Reply
unfolding invalid_param
bind_history (err e) from to limit handler = invalid_param (codes "currency") e
bind_history (ok c) (err e) to limit handler = invalid_param (codes "from") e
bind_history (ok c) (ok f) (err e) limit handler = invalid_param (codes "to") e
bind_history (ok c) (ok f) (ok t) (err e) handler = invalid_param (codes "limit") e
bind_history (ok c) (ok f) (ok t) (ok l) handler =
    handler c (record { from_date = f; to_date = t; limit = l })
