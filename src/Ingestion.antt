-- ===== src/Ingestion.antt =====
-- internal/ingestion/service.go: fetch every selected currency with a bounded pool of goroutines,
-- store what was fetched, report what was not. The fetcher and the repository are the interfaces
-- of the source, as parameters; the order in which the outcomes arrive is a parameter too.
pub mod Normalize
pub mod Pool
pub mod Settle
pub mod Outcome
pub mod Run
pub mod SameCodes
use april_homework.Common.{
  ℕ, suc, List, [], ◌∷◌, ◌++◌, map, Text, codes, Option, none, some, Bool, true, false, Result, ok,
  err, length, if◌then◌else◌, ◌||◌,
}
use april_homework.Common.Int.{ℤ, pos, negsuc, ltb_ℤ}
use april_homework.Strings.{to_upper, trim_space, text_eq, print_nat}
use april_homework.Entities.{ExchangeRate, FetchFailure, zero_rate, zero_failure}

pub record IngestResult : Type 0 where
  pub saved : List ExchangeRate
  pub failed : List FetchFailure

pub record FetchOutcome : Type 0 where
  pub rate : ExchangeRate
  pub failure : FetchFailure

-- NewService raises the concurrency to 1.
unfoldable pub new_service : ℤ → ℤ
new_service concurrency = if ltb_ℤ concurrency (pos 1) then pos 1 else concurrency

abbrev pub mem_texts : Text → List Text → Bool
mem_texts c [] = false
mem_texts c (d ∷ ds) = text_eq d c || mem_texts c ds

-- The loop of `normalizeCurrencies`, with the set `seen`.
unfoldable pub normalize_from : List Text → List Text → List Text
normalize_from seen [] = []
normalize_from seen (raw ∷ rest) =
    let currency = to_upper (trim_space raw) in
    elim (text_eq currency []) [
      | true ↦ normalize_from seen rest
      | false ↦ elim (mem_texts currency seen) [
        | true ↦ normalize_from seen rest
        | false ↦ currency ∷ normalize_from (currency ∷ seen) rest
      ]
    ]

unfoldable pub normalize_currencies : List Text → List Text
unfolding normalize_from
normalize_currencies currencies = normalize_from [] currencies

-- The body of one goroutine: what it sends on the channel, and the error that it returns.
unfoldable pub outcome_of : Text → Result ExchangeRate → FetchOutcome × Option Text
outcome_of currency (ok rate) = (record { rate = rate; failure = zero_failure }, none)
outcome_of currency (err e) =
    (record { rate = zero_rate; failure = record { currency = currency; error = e } }, none)

unfoldable pub run_task : (Text → Result ExchangeRate) → Text → FetchOutcome × Option Text
unfolding outcome_of
run_task fetch currency = outcome_of currency (fetch currency)

-- group.Wait(): the first error that a goroutine returned.
unfoldable pub group_wait : List (Option Text) → Option Text
group_wait [] = none
group_wait (some e ∷ _) = some e
group_wait (none ∷ rest) = group_wait rest

-- One round of the loop over the channel; the test says that the failure names no currency.
unfoldable pub classify : Bool → FetchOutcome → IngestResult → IngestResult
classify false outcome result = record result { failed = result.failed ++ outcome.failure ∷ [] }
classify true outcome result = record result { saved = result.saved ++ outcome.rate ∷ [] }

-- The loop over the closed channel.
unfoldable pub collect : List FetchOutcome → IngestResult → IngestResult
unfolding classify
collect [] result = result
collect (outcome ∷ outcomes) result =
    collect outcomes (classify (text_eq outcome.failure.currency []) outcome result)

abbrev pub empty_result : IngestResult
empty_result = record { saved = []; failed = [] }

abbrev pub failed_message : ℕ → ℕ → Text
failed_message k n =
    codes "failed to fetch " ++ print_nat k ++ codes "/" ++ print_nat n ++ codes " currencies"

-- The last test of FetchAndStore: an error if some fetch failed.
unfoldable pub report_failures : ℕ → List FetchFailure → Option Text
report_failures n [] = none
report_failures n (f ∷ fs) = some (failed_message (length (f ∷ fs)) n)

module _ {S : Type 0} (upsert_rates : List ExchangeRate → S → Option Text × S) where
  -- `if len(result.Saved) > 0 { … }`
  unfoldable pub store_saved : List ExchangeRate → S → Option Text × S
  store_saved [] s = (none, s)
  store_saved (r ∷ rs) s = upsert_rates (r ∷ rs) s

  unfoldable pub conclude : ℕ → IngestResult → Option Text × S → (IngestResult × Option Text) × S
  unfolding report_failures
  conclude n result (some e, s) = ((result, some (codes "upsert rates: " ++ e)), s)
  conclude n result (none, s) = ((result, report_failures n result.failed), s)

  -- What follows `group.Wait()`, on what the channel holds.
  unfoldable pub settle : ℕ → Option Text → List FetchOutcome → S → (IngestResult × Option Text) × S
  unfolding collect store_saved conclude
  settle n (some e) outcomes s = ((empty_result, some e), s)
  settle n none outcomes s =
      let result = collect outcomes empty_result in conclude n result (store_saved result.saved s)

  module _ (fetch : Text → Result ExchangeRate)
      (drain : List FetchOutcome → List FetchOutcome) where
    unfoldable pub fetch_all : List Text → S → (IngestResult × Option Text) × S
    unfolding settle group_wait run_task
    fetch_all [] s = ((empty_result, some (codes "no currencies selected")), s)
    fetch_all (c ∷ cs) s =
        let tasks = map (run_task fetch) (c ∷ cs) in
        settle (length (c ∷ cs)) (group_wait (map (λ t. t.1) tasks)) (drain (map (λ t. t.0) tasks))
          s

    -- FetchAndStore
    unfoldable pub fetch_and_store : List Text → S → (IngestResult × Option Text) × S
    unfolding fetch_all normalize_currencies
    fetch_and_store currencies = fetch_all (normalize_currencies currencies)
