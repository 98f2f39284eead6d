-- ===== src/Examples/Requests.antt =====
-- Requests to the server: fetches over a list as the store, histories, and the limiter over a Redis
-- that keeps one counter for each key.
use mathlib.Core.List.{Perm}
use mathlib.Core.List.Perm
use april_homework.Common.{
  ◌≡◌, ◌≢◌, ◌↔◌, ◌++◌, ℕ, suc, refl, sym, List, [], ◌∷◌, Text, codes, Option, none, some, Result,
  ok, err, if◌then◌else◌, leb, Bool-cases, inl, inr, ok_inj,
}
use april_homework.Common.Int.{pos}
use april_homework.Strings.{canonical, byte_len, text_eq, to_upper, trim_space}
use april_homework.Strings.Laws.{text_eq_iff, text_eq_refl}
use april_homework.Entities.{ExchangeRate, FetchFailure, zero_rate}
use april_homework.Repository.{Row, Database, upsert_rates}
use april_homework.Examples.Memory.{memory}
use april_homework.Server.Shown.{AreShown, AreShownFailures}
use april_homework.Ingestion.{normalize_currencies, fetch_and_store}
use april_homework.Ingestion.Settle.{fetched, unfetched}
use april_homework.Server.Api.{FetchRatesRequest, FetchRatesResponse, visit_fetch, fetch_body}
use april_homework.Server.{
  RatesFetcher, RatesRepository, Request, choose_currencies, post_rates_fetch, serve_history,
}
use april_homework.Server.Fetching.{post_rates_fetch-status, post_rates_fetch-unsaved}
use april_homework.Server.Reading.{serve_history-status}
use april_homework.Server.Limiter.{Redis}
use april_homework.Server.Limiting.{IsCounting, made, passed, passed-min}

abbrev pub fetch_all_but_x : Text → Result ExchangeRate
fetch_all_but_x c = if text_eq c (codes "X") then err (codes "no feed") else ok zero_rate

abbrev pub keep : List ExchangeRate → List ExchangeRate → Option Text × List ExchangeRate
keep rs s = (none, rs ++ s)

abbrev body : Option FetchRatesRequest
body = some (record { currencies = some (codes "usd" ∷ codes "x" ∷ []) })

chosen-some : normalize_currencies (choose_currencies [] body) ≢ []
unfolding normalize_currencies to_upper trim_space text_eq choose_currencies
chosen-some e = cc

post_rates_fetch-status_example :
    (((visit_fetch
          (post_rates_fetch
            (some (fetch_and_store keep fetch_all_but_x (λ os. os)))
            []
            body
            []).0).status
        ≡ 200)
      ↔ ((unfetched fetch_all_but_x (normalize_currencies (choose_currencies [] body)) ≡ [])
          × ((fetch_and_store keep fetch_all_but_x
                  (λ os. os)
                  (choose_currencies [] body)
                  []).0.0.saved
                ≢ []
              → (keep
                  (fetch_and_store keep fetch_all_but_x
                    (λ os. os)
                    (choose_currencies [] body)
                    []).0.0.saved
                  []).0
                ≡ none)))
    × (((visit_fetch
            (post_rates_fetch
              (some (fetch_and_store keep fetch_all_but_x (λ os. os)))
              []
              body
              []).0).status
          ≡ 500)
        ↔ (fetched fetch_all_but_x (normalize_currencies (choose_currencies [] body)) ≡ []))
post_rates_fetch-status_example =
    post_rates_fetch-status keep fetch_all_but_x (λ os. os) [] body [] (λ os. Perm.refl os)
      chosen-some

fetched-some : fetched fetch_all_but_x (normalize_currencies (choose_currencies [] body)) ≢ []
unfolding normalize_currencies to_upper trim_space text_eq choose_currencies fetched
fetched-some e = cc

-- A repository whose only state is the history that it returns.
abbrev pub archive : RatesRepository (List ExchangeRate)
archive = record { ping = λ s. none; latest_rates = λ s. ok s; history = λ c from to limit s. ok s }

serve_history-status_example :
    (((serve_history archive (ok (codes "us")) (ok none) (ok none) (ok (some (pos 5))) []).status
        ≡ 422)
      ↔ (byte_len (canonical (codes "us")) ≢ 3))
    × ((e : Text)
        → (serve_history archive (ok (codes "us")) (err e) (ok none) (ok (some (pos 5))) []).status
          ≡ 400)
    × ((e : Text)
        → (serve_history archive (ok (codes "us")) (ok none) (err e) (ok (some (pos 5))) []).status
          ≡ 400)
serve_history-status_example = serve_history-status archive (codes "us") none none (some (pos 5)) []

-- A Redis whose state is the counter of each key.
abbrev bump : Text → (Text → ℕ) → Text → ℕ
bump k s j = if text_eq j k then suc (s j) else s j

abbrev pub counters : Redis
counters = record { State = Text → ℕ; incr = λ k s. (ok (suc (s k)), bump k s); expire = λ k s. s }

bump-other : (k j : Text) (s : Text → ℕ) → j ≢ k → bump k s j ≡ s j
bump-other k j s ne = elim (Bool-cases (text_eq j k)) [
  | inl e ↦ absurd (ne ((text_eq_iff j k).0 e))
  | inr e ↦ rw e refl
]

abbrev counters_laws : IsCounting counters
counters_laws = record {
  count = λ k s. s k;
  incr_ok = λ k s n h. (sym (ok_inj h), (rw (text_eq_refl k) refl), λ j ne. bump-other k j s ne);
  expire_law = λ k j s. refl;
}

abbrev pub visit : Request
visit = record {
  method = codes "GET";
  path = codes "/health";
  accept = [];
  forwarded_for = codes "10.0.0.1, 10.0.0.2";
  remote_addr = codes "10.0.0.9:80";
}

abbrev pub no_port : Text → Result Text
no_port addr = err (codes "missing port")

abbrev visits : List Request
visits = visit ∷ visit ∷ visit ∷ []

passed-min_example :
    passed counters no_port (pos 2) (codes "rate_limit:/health:10.0.0.1") visits (λ k. 0) ≡ (
      if leb (made counters no_port (pos 2) (codes "rate_limit:/health:10.0.0.1") visits) 2
      then made counters no_port (pos 2) (codes "rate_limit:/health:10.0.0.1") visits
      else 2)
passed-min_example =
    passed-min counters no_port (pos 2) counters_laws (λ k s. (suc (s k), refl))
      (codes "rate_limit:/health:10.0.0.1") visits (λ k. 0)

-- A database that begins no transaction.
abbrev down : Database
down = record memory { begin_tx = λ w. err (codes "down") }

abbrev ingest_down : RatesFetcher (List (Row Text))
ingest_down = fetch_and_store (upsert_rates down) fetch_all_but_x (λ os. os)

refused :
    (upsert_rates down (ingest_down (choose_currencies [] body) []).0.0.saved []).0
    ≡ some (codes "begin tx: down")
unfolding upsert_rates
refused = refl

post_rates_fetch-unsaved_example :
    ((post_rates_fetch (some ingest_down) [] body []).1 ≡ [])
    × ((saved : List ExchangeRate) × (failed : List FetchFailure) × (json : FetchRatesResponse)
        × (visit_fetch (post_rates_fetch (some ingest_down) [] body []).0
            ≡ record { status = 207; body = fetch_body json })
        × AreShown saved json.saved
        × AreShownFailures failed json.failed
        × Perm saved (fetched fetch_all_but_x (normalize_currencies (choose_currencies [] body)))
        × Perm failed
            (unfetched fetch_all_but_x (normalize_currencies (choose_currencies [] body))))
post_rates_fetch-unsaved_example =
    post_rates_fetch-unsaved down fetch_all_but_x (λ os. os) [] body [] (codes "begin tx: down")
      (λ os. Perm.refl os) fetched-some refused
