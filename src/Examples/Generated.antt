-- ===== src/Examples/Generated.antt =====
-- The generated code at concrete inputs: a request whose limit is not a number, and randInt of the
-- least int64.
use april_homework.Common.{ℕ, ◌≡◌, ◌≢◌, ◌<◌, ◌^◌, ◌⊎◌, List, [], ◌∷◌, Text, codes, none, ok, arith}
use april_homework.Common.Int.{pos, negsuc}
use april_homework.Entities.{ExchangeRate, zero_rate}
use april_homework.Server.Api.{HistoryParams, error_body}
use april_homework.Server.Api.Params.{ParamError, bound, unbound}
use april_homework.Server.Api.Wrapper.{
  HistoryBinding, Handler, ServerInterfaceWrapper, with_middlewares, unimplemented,
  default_error_handler, wrapped_get_history,
}
use april_homework.Server.Api.Wrapped.{IsBound, IsFirstError, wrapped_get_history-IsBound}
use april_homework.Server.{Request}
use april_homework.Bob.Joins.{rand_int}
use april_homework.Bob.RandInt.{rand_int-bounds}
use april_homework.Examples.Requests.{visit}

abbrev Rates : Type 0
Rates = List ExchangeRate

abbrev no_number : HistoryBinding
no_number = record {
  currency = ok (codes "usd");
  from_date = bound none;
  to_date = bound none;
  limit = unbound (codes "invalid syntax");
}

abbrev no_route : Handler Request Rates → Handler Request Rates
no_route next r s = (record { status = 404; body = error_body [] }, s)

abbrev siw : ServerInterfaceWrapper Request Rates
siw = record {
  handler = unimplemented;
  middlewares = no_route ∷ [];
  error_handler = default_error_handler;
}

wrapped_get_history-IsBound_example :
    ((c : Text) × (p : HistoryParams) × IsBound no_number c p
      × (wrapped_get_history siw (λ r. no_number) visit (zero_rate ∷ [])
          ≡ with_middlewares
              (no_route ∷ [])
              (siw.handler.get_rates_currency_history c p)
              visit
              (zero_rate ∷ [])))
    ⊎ ((e : ParamError) × IsFirstError no_number e
        × (wrapped_get_history siw (λ r. no_number) visit (zero_rate ∷ [])
            ≡ (siw.error_handler visit e, zero_rate ∷ [])))
wrapped_get_history-IsBound_example =
    wrapped_get_history-IsBound siw (λ r. no_number) visit (zero_rate ∷ [])

rand_int-bounds_example :
    (2 ^ 63 ≢ 2 ^ 63 → (n : ℕ) × (rand_int (2 ^ 63) ≡ pos n) × (n < 10000))
    × (◌≡◌ {A = ℕ} (2 ^ 63) (2 ^ 63) → rand_int (2 ^ 63) ≡ negsuc 5807)
rand_int-bounds_example = rand_int-bounds (2 ^ 63) (omega arith)
