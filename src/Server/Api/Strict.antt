-- ===== src/Server/Api/Strict.antt =====
-- internal/server/api/openapi.gen.go: the strict handlers with any middleware and any options, as an
-- implementation of the server interface. Requests and responses of the middleware are `any` in the
-- source: here the types of the operations, nil, or another type, of which the name is kept.
use april_homework.Common.{Text, codes, List, [], ◌∷◌, ◌++◌, Option, none, some, Result, ok, err}
use april_homework.Server.Api.{
  FetchRatesRequest, RatesResponse, PostRatesFetchResponse, HistoryResponse, HistoryParams, Reply,
  plain_body, Decoded, no_body, malformed, decoded, visit_rates, visit_fetch, visit_history,
}
use april_homework.Server.Api.Wrapper.{Handler, ServerInterface}

pub data RequestObject : Type 0 where
  rates_request : RequestObject
  fetch_request : Option FetchRatesRequest → RequestObject
  history_request : Text → HistoryParams → RequestObject
  foreign_request : Text → RequestObject

pub data ResponseObject : Type 0 where
  rates_object : RatesResponse → ResponseObject
  fetch_object : PostRatesFetchResponse → ResponseObject
  history_object : HistoryResponse → ResponseObject
  nil_object : ResponseObject
  foreign_object : Text → ResponseObject

-- A call ends with a response and no error, with an error, or in the panic of a type assertion.
pub data StrictOutcome : Type 0 where
  responded : ResponseObject → StrictOutcome
  errored : Text → StrictOutcome
  panicked : StrictOutcome

pub record StrictServerInterface (S : Type 0) : Type 0 where
  pub get_rates : S → Result RatesResponse × S
  pub post_rates_fetch : Option FetchRatesRequest → S → Result PostRatesFetchResponse × S
  pub get_rates_currency_history : Text → HistoryParams → S → Result HistoryResponse × S

-- StrictHandlerFunc
abbrev pub StrictHandler : Type 0 → Type 0 → Type 0
StrictHandler R S = R → RequestObject → S → StrictOutcome × S

-- StrictMiddlewareFunc; the text is the name of the operation.
abbrev pub StrictMiddleware : Type 0 → Type 0 → Type 0
StrictMiddleware R S = StrictHandler R S → Text → StrictHandler R S

pub record StrictOptions : Type 0 where
  pub request_error : Text → Reply
  pub response_error : Text → Reply

-- The options of NewStrictHandler.
unfoldable pub default_strict_options : StrictOptions
default_strict_options = record {
  request_error = λ e. record { status = 400; body = plain_body e };
  response_error = λ e. record { status = 500; body = plain_body e };
}

abbrev pub strict_outcome : {A : Type 0} → (A → ResponseObject) → Result A → StrictOutcome
strict_outcome respond (ok a) = responded (respond a)
strict_outcome respond (err e) = errored e

-- The type assertions to the interfaces of the responses, with what their Visit methods write.
unfoldable pub visit_as_rates : ResponseObject → Option Reply
unfolding visit_rates
visit_as_rates (rates_object r) = some (visit_rates r)
visit_as_rates (fetch_object r) = none
visit_as_rates (history_object r) = none
visit_as_rates nil_object = none
visit_as_rates (foreign_object name) = none

unfoldable pub visit_as_fetch : ResponseObject → Option Reply
unfolding visit_fetch
visit_as_fetch (rates_object r) = none
visit_as_fetch (fetch_object r) = some (visit_fetch r)
visit_as_fetch (history_object r) = none
visit_as_fetch nil_object = none
visit_as_fetch (foreign_object name) = none

unfoldable pub visit_as_history : ResponseObject → Option Reply
unfolding visit_history
visit_as_history (rates_object r) = none
visit_as_history (fetch_object r) = none
visit_as_history (history_object r) = some (visit_history r)
visit_as_history nil_object = none
visit_as_history (foreign_object name) = none

-- Nothing is written: net/http answers 200 with an empty body.
abbrev pub nothing_written : Reply
nothing_written = record { status = 200; body = plain_body [] }

module _ (type_name : ResponseObject → Text) (recovered : Reply) (options : StrictOptions) where
  -- `else if response != nil`
  unfoldable pub unexpected : ResponseObject → Reply
  unexpected nil_object = nothing_written
  unexpected (rates_object r) =
      options.response_error (codes "unexpected response type: " ++ type_name (rates_object r))
  unexpected (fetch_object r) =
      options.response_error (codes "unexpected response type: " ++ type_name (fetch_object r))
  unexpected (history_object r) =
      options.response_error (codes "unexpected response type: " ++ type_name (history_object r))
  unexpected (foreign_object name) =
      options.response_error (codes "unexpected response type: " ++ name)

  abbrev pub visited_or : Option Reply → Reply → Reply
  visited_or (some reply) other = reply
  visited_or none other = other

  -- The tests that end each strict handler.
  unfoldable pub strict_end : (ResponseObject → Option Reply) → StrictOutcome → Reply
  unfolding unexpected
  strict_end visit (errored e) = options.response_error e
  strict_end visit (responded r) = visited_or (visit r) (unexpected r)
  strict_end visit panicked = recovered

module _ {R S : Type 0} where
  -- The loop over the middlewares.
  unfoldable pub with_strict :
      List (StrictMiddleware R S) → Text → StrictHandler R S → StrictHandler R S
  with_strict [] operation handler = handler
  with_strict (m ∷ ms) operation handler = with_strict ms operation (m handler operation)

  module _ (ssi : StrictServerInterface S) where
    -- The innermost handlers, with the type assertion of the request.
    unfoldable pub call_get_rates : StrictHandler R S
    call_get_rates r rates_request s =
        let out = ssi.get_rates s in (strict_outcome rates_object out.0, out.1)
    call_get_rates r (fetch_request b) s = (panicked, s)
    call_get_rates r (history_request c p) s = (panicked, s)
    call_get_rates r (foreign_request name) s = (panicked, s)

    unfoldable pub call_post_rates_fetch : StrictHandler R S
    call_post_rates_fetch r rates_request s = (panicked, s)
    call_post_rates_fetch r (fetch_request b) s =
        let out = ssi.post_rates_fetch b s in (strict_outcome fetch_object out.0, out.1)
    call_post_rates_fetch r (history_request c p) s = (panicked, s)
    call_post_rates_fetch r (foreign_request name) s = (panicked, s)

    unfoldable pub call_get_history : StrictHandler R S
    call_get_history r rates_request s = (panicked, s)
    call_get_history r (fetch_request b) s = (panicked, s)
    call_get_history r (history_request c p) s =
        let out = ssi.get_rates_currency_history c p s in
        (strict_outcome history_object out.0, out.1)
    call_get_history r (foreign_request name) s = (panicked, s)

    module _ (type_name : ResponseObject → Text) (recovered : Reply) (decode : R → Decoded)
        (middlewares : List (StrictMiddleware R S)) (options : StrictOptions) where
      unfoldable pub strict_ended : (ResponseObject → Option Reply) → StrictOutcome × S → Reply × S
      unfolding strict_end
      strict_ended visit out = (strict_end type_name recovered options visit out.0, out.1)

      -- strictHandler.GetRates
      unfoldable pub strict_rates : Handler R S
      unfolding strict_ended with_strict call_get_rates visit_as_rates
      strict_rates r s =
          strict_ended visit_as_rates
            (with_strict middlewares (codes "GetRates") call_get_rates r rates_request s)

      -- strictHandler.PostRatesFetch, once its body is decoded.
      unfoldable pub strict_fetch : Decoded → Handler R S
      unfolding strict_ended with_strict call_post_rates_fetch visit_as_fetch
      strict_fetch (malformed e) r s =
          (options.request_error (codes "can't decode JSON body: " ++ e), s)
      strict_fetch no_body r s = strict_ended visit_as_fetch (
          with_strict middlewares (codes "PostRatesFetch") call_post_rates_fetch r
            (fetch_request none) s)
      strict_fetch (decoded body) r s = strict_ended visit_as_fetch (
          with_strict middlewares (codes "PostRatesFetch") call_post_rates_fetch r
            (fetch_request (some body)) s)

      -- strictHandler.GetRatesCurrencyHistory
      unfoldable pub strict_history : Text → HistoryParams → Handler R S
      unfolding strict_ended with_strict call_get_history visit_as_history
      strict_history currency params r s = strict_ended visit_as_history (
          with_strict middlewares (codes "GetRatesCurrencyHistory") call_get_history r
            (history_request currency params) s)

      -- NewStrictHandlerWithOptions
      unfoldable pub new_strict_handler_with_options : ServerInterface R S
      unfolding strict_rates strict_fetch strict_history
      new_strict_handler_with_options = record {
        get_rates = strict_rates;
        post_rates_fetch = λ r. strict_fetch (decode r) r;
        get_rates_currency_history = strict_history;
      }

    -- NewStrictHandler
    unfoldable pub new_strict_handler :
        (ResponseObject → Text)
        → Reply
        → (R → Decoded)
        → List (StrictMiddleware R S)
        → ServerInterface R S
    unfolding new_strict_handler_with_options default_strict_options
    new_strict_handler type_name recovered decode middlewares =
        new_strict_handler_with_options type_name recovered decode middlewares
          default_strict_options
