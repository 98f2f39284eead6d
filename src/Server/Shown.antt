-- ===== src/Server/Shown.antt =====
-- What the JSON of a rate, of a list of rates and of a list of failures shows, field by field, beside
-- toResponse and toFetchFailures of internal/server/rates.go.
use april_homework.Common.{◌≡◌, ◌≢◌, refl, List, [], ◌∷◌, Text, codes, none, some, Result, ok, err}
use april_homework.Entities.{ExchangeRate, FetchFailure}
use april_homework.Server.Api.{RateJson, FetchFailureJson, Reply, rates_body, error_body}
use april_homework.Server.{id_field, to_response, to_responses, to_fetch_failures}

-- An identifier is shown unless it is empty.
pub record IsShown (r : ExchangeRate) (j : RateJson) : Type 0 where
  pub currency : j.currency ≡ r.quote_currency
  pub effective_date : j.effective_date ≡ r.effective_date
  pub rate : j.rate ≡ r.rate
  pub source : j.source ≡ r.source
  pub no_id : r.id ≡ [] → j.id ≡ none
  pub id : r.id ≢ [] → j.id ≡ some r.id

-- Every rate is shown, in the same order, and nothing else.
abbrev pub AreShown : List ExchangeRate → List RateJson → Type 0
AreShown [] [] = Unit
AreShown [] (j ∷ js) = ⊥
AreShown (r ∷ rs) [] = ⊥
AreShown (r ∷ rs) (j ∷ js) = IsShown r j × AreShown rs js

abbrev pub AreShownFailures : List FetchFailure → List FetchFailureJson → Type 0
AreShownFailures [] [] = Unit
AreShownFailures [] (j ∷ js) = ⊥
AreShownFailures (f ∷ fs) [] = ⊥
AreShownFailures (f ∷ fs) (j ∷ js) =
    (j.currency ≡ f.currency) × (j.error ≡ f.error) × AreShownFailures fs js

to_response-IsShown : (r : ExchangeRate) → IsShown r (to_response r)
unfolding to_response
to_response-IsShown r = record {
  currency = refl;
  effective_date = refl;
  rate = refl;
  source = refl;
  no_id = empty_id r.id;
  id = some_id r.id;
}
  where
    empty_id : (s : Text) → s ≡ [] → id_field s ≡ none
    empty_id [] h = refl
    empty_id (c ∷ s) h = cc

    some_id : (s : Text) → s ≢ [] → id_field s ≡ some s
    some_id [] h = absurd (h refl)
    some_id (c ∷ s) h = refl

pub to_responses-AreShown : (rs : List ExchangeRate) → AreShown rs (to_responses rs)
unfolding to_responses
to_responses-AreShown [] = tt
to_responses-AreShown (r ∷ rs) = (to_response-IsShown r, to_responses-AreShown rs)

pub to_fetch_failures-AreShown :
    (fs : List FetchFailure) → AreShownFailures fs (to_fetch_failures fs)
unfolding to_fetch_failures
to_fetch_failures-AreShown [] = tt
to_fetch_failures-AreShown (f ∷ fs) = (refl, refl, to_fetch_failures-AreShown fs)

-- The reply shows these rates: status 200, the base currency EUR, and each rate in its place.
abbrev pub IsListing : List ExchangeRate → Reply → Type 0
IsListing rates reply =
    (json : List RateJson) × AreShown rates json
    × (reply ≡ record {
      status = 200;
      body = rates_body (record { base_currency = codes "EUR"; rates = json });
    })

-- The answer to a read of the repository: its rates, or a fixed message in place of its error.
abbrev pub IsAnswerTo : Result (List ExchangeRate) → Reply → Type 0
IsAnswerTo (ok rates) reply = IsListing rates reply
IsAnswerTo (err e) reply =
    reply ≡ record { status = 500; body = error_body (codes "internal error") }
