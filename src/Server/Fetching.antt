-- ===== src/Server/Fetching.antt =====
-- POST /api/v1/rates/fetch over the ingestion service: what the reply says of what was fetched and
-- stored.
use mathlib.Core.List.{Perm}
use mathlib.Core.List.Perm
use april_homework.Common.{
  ◌≡◌, ◌≢◌, refl, ap, ◌∙◌, subst, ◌↔◌, inl, inr, List, [], ◌∷◌, Text, Option, none, some, Result,
  Option-cases, true, Bool-cases, arith,
}
use april_homework.Entities.{ExchangeRate, FetchFailure}
use april_homework.Repository.{Database, upsert_rates}
use april_homework.Repository.Upsert.{upsert_rates-refused}
use april_homework.Server.Shown.{
  AreShown, AreShownFailures, to_responses-AreShown, to_fetch_failures-AreShown,
}
use april_homework.Ingestion.{IngestResult, FetchOutcome, fetch_and_store, normalize_currencies}
use april_homework.Ingestion.Settle.{fetched, unfetched, fetched-or_unfetched}
use april_homework.Ingestion.Outcome.{IsReport, fetch_and_store-IsReport}
use april_homework.Server.Api.{
  FetchRatesRequest, FetchRatesResponse, fetch_body, fetch_207, visit_fetch,
}
use april_homework.Server.{
  answer_fetch, choose_currencies, fetch_response, is_nil, post_rates_fetch,
}

is_nil_iff : {A : Type 0} (l : List A) → (is_nil l ≡ true) ↔ (l ≡ [])
is_nil_iff [] = (λ _. refl, λ _. refl)
is_nil_iff (x ∷ xs) = (λ e. cc, λ e. cc)

answer_fetch-200 :
    (r : IngestResult) (e : Option Text)
    → ((visit_fetch (answer_fetch r e)).status ≡ 200) ↔ ((e ≡ none) × (r.failed ≡ []))
unfolding answer_fetch visit_fetch
answer_fetch-200 r none = elim (Bool-cases (is_nil r.failed)) [
  | inl h ↦ rw h (λ _. (refl, (is_nil_iff r.failed).0 h), λ _. refl)
  | inr h ↦ rw h (λ e. absurd (omega arith), λ p. absurd (cc (h, (is_nil_iff r.failed).1 p.1)))
]
answer_fetch-200 r (some x) = elim (Bool-cases (is_nil r.saved)) [
  | inl h ↦ rw h (λ e. absurd (omega arith), λ p. absurd (cc (p.0)))
  | inr h ↦ rw h (λ e. absurd (omega arith), λ p. absurd (cc (p.0)))
]

answer_fetch-500 :
    (r : IngestResult) (e : Option Text)
    → ((visit_fetch (answer_fetch r e)).status ≡ 500) ↔ ((e ≢ none) × (r.saved ≡ []))
unfolding answer_fetch visit_fetch
answer_fetch-500 r none = elim (Bool-cases (is_nil r.failed)) [
  | inl h ↦ rw h (λ e. absurd (omega arith), λ p. absurd (p.0 refl))
  | inr h ↦ rw h (λ e. absurd (omega arith), λ p. absurd (p.0 refl))
]
answer_fetch-500 r (some x) = elim (Bool-cases (is_nil r.saved)) [
  | inl h ↦ rw h (λ _. ((λ e. cc), (is_nil_iff r.saved).0 h), λ _. refl)
  | inr h ↦ rw h (λ e. absurd (omega arith), λ p. absurd (cc (h, (is_nil_iff r.saved).1 p.1)))
]

error-none-or-some : {e : Option Text} → (e ≡ none → ⊥) → (x : Text) × (e ≡ some x)
error-none-or-some {e} h = elim (Option-cases e) [ inl e0 ↦ absurd (h e0) | inr found ↦ found ]

module _ {S : Type 0} {upsert_rates : List ExchangeRate → S → Option Text × S}
    {fetch : Text → Result ExchangeRate} {cs : List Text} {s s' : S} {result : IngestResult}
    {error : Option Text} (report : IsReport upsert_rates fetch cs s result error s') where
  status_200 :
      ((visit_fetch (answer_fetch result error)).status ≡ 200)
      ↔ ((unfetched fetch cs ≡ []) × (result.saved ≢ [] → (upsert_rates result.saved s).0 ≡ none))
  status_200 = (
    λ h. report.no_error.0 ((answer_fetch-200 result error).0 h).0,
    λ h.
        (answer_fetch-200 result error).1 (
          report.no_error.1 h,
          Perm.eq-nil (subst (λ fs. Perm result.failed fs) h.0 report.failed),
        ),
  )

  status_500 :
      cs ≢ [] → ((visit_fetch (answer_fetch result error)).status ≡ 500) ↔ (fetched fetch cs ≡ [])
  status_500 some_code = (
    λ h. Perm.eq-nil (
        subst (λ rs. Perm (fetched fetch cs) rs) ((answer_fetch-500 result error).0 h).1
          (Perm.symm report.saved)),
    λ h. (answer_fetch-500 result error).1 (
      (λ e. some_code (fetched-or_unfetched fetch cs h (report.no_error.0 e).0)),
      Perm.eq-nil (subst (λ rs. Perm result.saved rs) h report.saved),
    ),
  )

-- The reply to POST /rates/fetch over the ingestion service, for every order in which the outcomes
-- arrive, where some chosen code is not blank: the status is 200 exactly when every chosen code was
-- fetched and the repository, called with the saved rates, returned no error; it is 500 exactly
-- when no code was fetched.
pub post_rates_fetch-status :
    {S : Type 0} (upsert_rates : List ExchangeRate → S → Option Text × S)
    (fetch : Text → Result ExchangeRate) (drain : List FetchOutcome → List FetchOutcome)
    (defaults : List Text) (request : Option FetchRatesRequest) (s : S)
    → ((os : List FetchOutcome) → Perm (drain os) os)
    → normalize_currencies (choose_currencies defaults request) ≢ []
    → let service = fetch_and_store upsert_rates fetch drain in
      let cs = normalize_currencies (choose_currencies defaults request) in
      let saved = (service (choose_currencies defaults request) s).0.0.saved in
      let reply = visit_fetch (post_rates_fetch (some service) defaults request s).0 in
      ((reply.status ≡ 200)
        ↔ ((unfetched fetch cs ≡ []) × (saved ≢ [] → (upsert_rates saved s).0 ≡ none)))
      × ((reply.status ≡ 500) ↔ (fetched fetch cs ≡ []))
unfolding post_rates_fetch
post_rates_fetch-status upsert_rates fetch drain defaults request s order some_code =
    let report =
      fetch_and_store-IsReport upsert_rates fetch drain (choose_currencies defaults request) s order
        some_code in
    (status_200 report, status_500 report some_code)

answer_fetch-207 :
    (r : IngestResult) (x : Text)
    → r.saved ≢ []
    → answer_fetch r (some x) ≡ fetch_207 (fetch_response r)
unfolding answer_fetch
answer_fetch-207 r x h = elim (Bool-cases (is_nil r.saved)) [
  | inl e ↦ absurd (h ((is_nil_iff r.saved).0 e))
  | inr e ↦ rw e
]

fetched-nil : (fetch : Text → Result ExchangeRate) → fetched fetch [] ≡ []
unfolding fetched
fetched-nil fetch = refl

-- Where some code was fetched and UpsertRates returns an error for the saved rates, the reply to POST
-- /rates/fetch is 207 and shows as saved exactly the rates that were fetched, field by field, and as
-- failed the currencies that were not, though the database is what it was.
pub post_rates_fetch-unsaved :
    (db : Database) (fetch : Text → Result ExchangeRate)
    (drain : List FetchOutcome → List FetchOutcome) (defaults : List Text)
    (request : Option FetchRatesRequest) (w : db.World) (refusal : Text)
    → ((os : List FetchOutcome) → Perm (drain os) os)
    → fetched fetch (normalize_currencies (choose_currencies defaults request)) ≢ []
    → (upsert_rates db
        (fetch_and_store
          (upsert_rates db)
          fetch
          drain
          (choose_currencies defaults request)
          w).0.0.saved
        w).0
      ≡ some refusal
    → let service = fetch_and_store (upsert_rates db) fetch drain in
      let cs = normalize_currencies (choose_currencies defaults request) in
      let out = post_rates_fetch (some service) defaults request w in
      (out.1 ≡ w)
      × ((saved : List ExchangeRate) × (failed : List FetchFailure) × (json : FetchRatesResponse)
          × (visit_fetch out.0 ≡ record { status = 207; body = fetch_body json })
          × AreShown saved json.saved
          × AreShownFailures failed json.failed
          × Perm saved (fetched fetch cs)
          × Perm failed (unfetched fetch cs))
unfolding post_rates_fetch
post_rates_fetch-unsaved db fetch drain defaults request w refusal order some_rate refused =
    let codes_asked = choose_currencies defaults request in
    let cs = normalize_currencies codes_asked in
    let report =
      fetch_and_store-IsReport (upsert_rates db) fetch drain codes_asked w order
        (λ e. some_rate (ap (fetched fetch) e ∙ fetched-nil fetch)) in
    let out = fetch_and_store (upsert_rates db) fetch drain codes_asked w in
    let kept = λ (e : out.0.0.saved ≡ []).
      some_rate
        (Perm.eq-nil (subst (λ rs. Perm (fetched fetch cs) rs) e (Perm.symm report.saved))) in
    let (x, e) =
      error-none-or-some (λ (e0 : out.0.1 ≡ none). cc (refused, (report.no_error.0 e0).1 kept)) in
    (
      report.stored kept ∙ upsert_rates-refused db out.0.0.saved w refusal refused,
      (
        out.0.0.saved,
        out.0.0.failed,
        fetch_response out.0.0,
        ap visit_fetch (ap (answer_fetch out.0.0) e ∙ answer_fetch-207 out.0.0 x kept)
            ∙ (unfold visit_fetch in refl),
        to_responses-AreShown out.0.0.saved,
        to_fetch_failures-AreShown out.0.0.failed,
        report.saved,
        report.failed,
      ),
    )
