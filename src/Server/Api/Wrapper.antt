-- ===== src/Server/Api/Wrapper.antt =====
-- internal/server/api/openapi.gen.go: the interface of the operations, the wrapper with its
-- middleware, and the handlers that are registered with a router. `R` is a request and `S` what the
-- operations change.
use april_homework.Common.{Text, codes, List, [], ◌∷◌, ◌++◌, Option, none, some, Result, ok, err}
use april_homework.Common.Int.{ℤ}
use april_homework.Time.{Time}
use april_homework.Server.Api.{HistoryParams, Reply, plain_body}
use april_homework.Server.Api.Params.{
  ParamError, error_message, Binding, bound, required_missing, unbound, query_error, path_error,
}

-- What the binders find in a request.
pub record HistoryBinding : Type 0 where
  pub currency : Result Text
  pub from_date : Binding (Option Time)
  pub to_date : Binding (Option Time)
  pub limit : Binding (Option ℤ)

abbrev pub Handler : Type 0 → Type 0 → Type 0
Handler R S = R → S → Reply × S

pub record ServerInterface (R S : Type 0) : Type 0 where
  pub get_rates : Handler R S
  pub post_rates_fetch : Handler R S
  pub get_rates_currency_history : Text → HistoryParams → Handler R S

-- A handler that is registered with the router.
pub record Registered (R S : Type 0) : Type 0 where
  pub method : Text
  pub pattern : Text
  pub handler : Handler R S

pub record ServerInterfaceWrapper (R S : Type 0) : Type 0 where
  pub handler : ServerInterface R S
  pub middlewares : List (Handler R S → Handler R S)
  pub error_handler : R → ParamError → Reply

-- A router that is left out is nil, as an error handler is.
pub record ChiServerOptions (R S : Type 0) : Type 0 where
  pub base_url : Text
  pub base_router : Option (List (Registered R S))
  pub middlewares : List (Handler R S → Handler R S)
  pub error_handler : Option (R → ParamError → Reply)

abbrev pub not_implemented : Reply
not_implemented = record { status = 501; body = plain_body [] }

-- The value of a parameter that has no error.
abbrev pub value_of : {A : Type 0} → Binding (Option A) → Option A
value_of (bound a) = a
value_of required_missing = none
value_of (unbound e) = none

abbrev pub text_of : Result Text → Text
text_of (ok t) = t
text_of (err e) = []

abbrev pub params_of : HistoryBinding → HistoryParams
params_of b = record {
  from_date = value_of b.from_date;
  to_date = value_of b.to_date;
  limit = value_of b.limit;
}

-- The error handler that HandlerWithOptions puts in place of nil.
unfoldable pub default_error_handler : {R : Type 0} → R → ParamError → Reply
unfolding error_message
default_error_handler r e = record { status = 400; body = plain_body (error_message e) }

abbrev pub handler_or_default :
    {R : Type 0} → Option (R → ParamError → Reply) → R → ParamError → Reply
unfolding default_error_handler
handler_or_default none = default_error_handler
handler_or_default (some h) = h

module _ {R S : Type 0} where
  -- Unimplemented
  unfoldable pub unimplemented : ServerInterface R S
  unimplemented = record {
    get_rates = λ r s. (not_implemented, s);
    post_rates_fetch = λ r s. (not_implemented, s);
    get_rates_currency_history = λ currency params r s. (not_implemented, s);
  }

  -- The loop over HandlerMiddlewares.
  unfoldable pub with_middlewares : List (Handler R S → Handler R S) → Handler R S → Handler R S
  with_middlewares [] handler = handler
  with_middlewares (m ∷ ms) handler = with_middlewares ms (m handler)

  module _ (siw : ServerInterfaceWrapper R S) where
    unfoldable pub wrapped_get_rates : Handler R S
    unfolding with_middlewares
    wrapped_get_rates = with_middlewares siw.middlewares siw.handler.get_rates

    unfoldable pub wrapped_post_rates_fetch : Handler R S
    unfolding with_middlewares
    wrapped_post_rates_fetch = with_middlewares siw.middlewares siw.handler.post_rates_fetch

    -- `if err != nil { siw.ErrorHandlerFunc(w, r, …); return }`
    unfoldable pub or_refuse : Option ParamError → Handler R S → Handler R S
    or_refuse none rest = rest
    or_refuse (some e) rest = λ r s. (siw.error_handler r e, s)

    unfoldable pub wrapped_get_history : (R → HistoryBinding) → Handler R S
    unfolding or_refuse with_middlewares path_error query_error
    wrapped_get_history bind r s =
        let b = bind r in
        or_refuse (path_error (codes "currency") b.currency)
          (or_refuse (query_error (codes "from") b.from_date) (
            or_refuse (query_error (codes "to") b.to_date) (
              or_refuse (query_error (codes "limit") b.limit) (
                with_middlewares siw.middlewares
                  (siw.handler.get_rates_currency_history (text_of b.currency) (params_of b))))))
          r s

  abbrev pub router_or_new : Option (List (Registered R S)) → List (Registered R S)
  router_or_new none = []
  router_or_new (some routes) = routes

  abbrev pub no_options : ChiServerOptions R S
  no_options = record { base_url = []; base_router = none; middlewares = []; error_handler = none }

  module _ (bind : R → HistoryBinding) (si : ServerInterface R S) where
    unfoldable pub wrapper_of : ChiServerOptions R S → ServerInterfaceWrapper R S
    unfolding handler_or_default
    wrapper_of options = record {
      handler = si;
      middlewares = options.middlewares;
      error_handler = handler_or_default options.error_handler;
    }

    unfoldable pub handler_with_options : ChiServerOptions R S → List (Registered R S)
    unfolding wrapper_of wrapped_get_rates wrapped_post_rates_fetch wrapped_get_history
    handler_with_options options =
        let wrapper = wrapper_of options in
        router_or_new options.base_router
        ++ record {
          method = codes "GET";
          pattern = options.base_url ++ codes "/rates";
          handler = wrapped_get_rates wrapper;
        }
          ∷ record {
            method = codes "POST";
            pattern = options.base_url ++ codes "/rates/fetch";
            handler = wrapped_post_rates_fetch wrapper;
          }
          ∷ record {
            method = codes "GET";
            pattern = options.base_url ++ codes "/rates/{currency}/history";
            handler = wrapped_get_history wrapper bind;
          }
          ∷ []

    -- Handler
    unfoldable pub handler_of : List (Registered R S)
    unfolding handler_with_options
    handler_of = handler_with_options no_options

    unfoldable pub handler_from_mux : List (Registered R S) → List (Registered R S)
    unfolding handler_with_options
    handler_from_mux router = handler_with_options (record no_options { base_router = some router })

    unfoldable pub handler_from_mux_with_base_url :
        List (Registered R S) → Text → List (Registered R S)
    unfolding handler_with_options
    handler_from_mux_with_base_url router base_url =
        handler_with_options (record no_options { base_url = base_url; base_router = some router })
