-- ===== src/Server/Registered.antt =====
-- The API that `routes` of internal/server/server.go registers, by the generated handlers of
-- internal/server/api/openapi.gen.go with the options that it gives them.
use april_homework.Common.{
  ◌≡◌, refl, ap, ◌∙◌, Text, codes, List, [], ◌∷◌, ◌++◌, map, map-append, Option, some, Result, ok,
  err,
}
use april_homework.Common.Int.{ℤ}
use april_homework.Time.{Time}
use april_homework.Server.Api.{
  RatesResponse, HistoryResponse, Reply, Decoded, no_body, malformed, decoded, request_error,
  response_error, strict_get_rates, strict_post_rates_fetch, strict_get_history, bind_history,
  invalid_param,
}
use april_homework.Server.Api.Params.{
  error_message, Binding, bound, unbound, query_error, path_error,
}
use april_homework.Server.Api.Wrapper.{
  HistoryBinding, Registered, ServerInterfaceWrapper, with_middlewares, or_refuse,
  wrapped_get_rates, wrapped_post_rates_fetch, wrapped_get_history, default_error_handler,
  wrapper_of, handler_with_options, handler_from_mux_with_base_url,
}
use april_homework.Server.Api.Strict.{
  ResponseObject, StrictServerInterface, StrictOptions, strict_outcome, rates_object,
  history_object, visit_as_rates, visit_as_fetch, visit_as_history, strict_end, with_strict,
  strict_ended, call_get_rates, call_post_rates_fetch, call_get_history, strict_rates, strict_fetch,
  strict_history, new_strict_handler_with_options,
}
use april_homework.Server.{
  RatesRepository, RatesFetcher, Request, get_rates, post_rates_fetch, get_rates_currency_history,
  serve_rates, serve_fetch, serve_history,
}
use april_homework.Server.Routes.{Route, Bound, Web, api_routes, endpoint_reply}

abbrev pub binding_of : {A : Type 0} → Result A → Binding A
binding_of (ok a) = bound a
binding_of (err e) = unbound e

-- No parameter is required, so that the binder's errors are those of a value that is malformed.
abbrev pub history_binding : Bound → HistoryBinding
history_binding b = record {
  currency = b.currency;
  from_date = binding_of b.from_date;
  to_date = binding_of b.to_date;
  limit = binding_of b.limit;
}

-- The error handlers of `routes`.
abbrev pub routes_options : StrictOptions
routes_options = record { request_error = request_error; response_error = response_error }

module _ {S : Type 0} (web : Web) (repo : RatesRepository S) (fetcher : Option (RatesFetcher S))
    (defaults : List Text) where
  -- The server as a StrictServerInterface; a fetch answers without an error.
  unfoldable pub strict_server : StrictServerInterface S
  unfolding get_rates post_rates_fetch get_rates_currency_history
  strict_server = record {
    get_rates = λ s. (get_rates repo s, s);
    post_rates_fetch =
        λ body s. let out = post_rates_fetch fetcher defaults body s in (ok out.0, out.1);
    get_rates_currency_history =
        λ currency params s. (get_rates_currency_history repo currency params s, s);
  }

  module _ (type_name : ResponseObject → Text) (recovered : Reply) where
    -- What `routes` registers under the base URL after the routes of the router.
    unfoldable pub registered_api : List (Registered Request S) → List (Registered Request S)
    unfolding handler_from_mux_with_base_url new_strict_handler_with_options
    registered_api router =
        handler_from_mux_with_base_url (λ r. history_binding (web.bind r))
          (new_strict_handler_with_options strict_server type_name recovered web.decode []
            routes_options)
          router (codes "/api/v1")

    -- What a registered handler does with a request.
    abbrev pub answer : Request → S → Registered Request S → Option Text × Text × (Reply × S)
    answer r s h = (some h.method, h.pattern, h.handler r s)

    abbrev pub route_answer : Request → S → Route → Option Text × Text × (Reply × S)
    route_answer r s p =
        (p.method, p.pattern, endpoint_reply web repo fetcher defaults p.endpoint r s)

    rates_end :
        (m : Result RatesResponse)
        → strict_end type_name recovered routes_options visit_as_rates
            (strict_outcome rates_object m)
          ≡ strict_get_rates m
    unfolding strict_end visit_as_rates strict_get_rates
    rates_end (ok a) = refl
    rates_end (err e) = refl

    rates_same :
        (s : S)
        → ◌≡◌ {A = Reply × S}
            (
              strict_end type_name recovered routes_options visit_as_rates
                  (strict_outcome rates_object (get_rates repo s)),
              s,
            )
            (serve_rates repo s, s)
    unfolding serve_rates
    rates_same s = ap (λ x. (x, s)) (rates_end (get_rates repo s))

    history_end :
        (m : Result HistoryResponse)
        → strict_end type_name recovered routes_options visit_as_history
            (strict_outcome history_object m)
          ≡ strict_get_history m
    unfolding strict_end visit_as_history strict_get_history
    history_end (ok a) = refl
    history_end (err e) = refl

    fetch_same :
        (d : Decoded) (r : Request) (s : S)
        → strict_fetch strict_server type_name recovered web.decode [] routes_options d r s
          ≡ serve_fetch fetcher defaults d s
    unfolding strict_fetch with_strict call_post_rates_fetch strict_end visit_as_fetch serve_fetch
        strict_post_rates_fetch strict_server strict_ended
    fetch_same no_body r s = refl
    fetch_same (malformed e) r s = refl
    fetch_same (decoded b) r s = refl

    wrapper : ServerInterfaceWrapper Request S
    unfolding default_error_handler new_strict_handler_with_options
    wrapper = record {
      handler =
          new_strict_handler_with_options strict_server type_name recovered web.decode []
            routes_options;
      middlewares = [];
      error_handler = default_error_handler;
    }

    history_same :
        (b : Bound) (r : Request) (s : S)
        → wrapped_get_history wrapper (λ _. history_binding b) r s
          ≡ (serve_history repo b.currency b.from_date b.to_date b.limit s, s)
    unfolding wrapped_get_history wrapper or_refuse path_error query_error default_error_handler
        error_message with_middlewares new_strict_handler_with_options strict_history with_strict
        strict_ended call_get_history serve_history bind_history invalid_param strict_server
    history_same b r s = by_binding b.currency b.from_date b.to_date b.limit
      where
        by_binding :
            (c : Result Text) (f t : Result (Option Time)) (l : Result (Option ℤ))
            → wrapped_get_history wrapper
                (λ _.
                  history_binding (record { currency = c; from_date = f; to_date = t; limit = l }))
                r
                s
              ≡ (serve_history repo c f t l s, s)
        by_binding (err e) f t l = refl
        by_binding (ok c) (err e) t l = refl
        by_binding (ok c) (ok f) (err e) l = refl
        by_binding (ok c) (ok f) (ok t) (err e) = refl
        by_binding (ok c) (ok f) (ok t) (ok l) =
            ap (λ x. (x, s))
              (history_end (
                get_rates_currency_history repo c (record { from_date = f; to_date = t; limit = l })
                  s))

    -- The handlers that `routes` registers for the API, by the generated wrapper and the generated
    -- strict handlers with no middleware, are those of the table of routes: on every request they
    -- have the same methods, patterns, replies and effects, after the routes that there were.
    pub registered_api-routes :
        (router : List (Registered Request S)) (r : Request) (s : S)
        → map (answer r s) (registered_api router)
          ≡ map (answer r s) router ++ map (route_answer r s) (api_routes (codes "/api/v1"))
    unfolding registered_api handler_from_mux_with_base_url handler_with_options wrapper_of
        wrapped_get_rates wrapped_post_rates_fetch with_middlewares new_strict_handler_with_options
        strict_rates with_strict strict_ended call_get_rates api_routes endpoint_reply serve_rates
        strict_server wrapper
    registered_api-routes router r s =
        map-append (answer r s) router _
        ∙ ap (λ l. map (answer r s) router ++ l)
            (λ i.
              (some (codes "GET"), codes "/api/v1/rates", rates_same s i)
              ∷ (some (codes "POST"), codes "/api/v1/rates/fetch", fetch_same (web.decode r) r s i)
              ∷ (
                some (codes "GET"),
                codes "/api/v1/rates/{currency}/history",
                history_same (web.bind r) r s i,
              )
              ∷ [])
