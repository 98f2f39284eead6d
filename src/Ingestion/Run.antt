-- ===== src/Ingestion/Run.antt =====
-- FetchAndStore with the order of arrival that its goroutines produce.
use mathlib.Core.List.{Perm}
use april_homework.Common.{
  ℕ, ◌≡◌, ◌≢◌, ◌≤◌, refl, ap, subst, sym, List, [], ◌∷◌, map, Text, Option, Result, length, arith,
}
use april_homework.Common.Int.{ℤ, pos, negsuc, pos_part}
use april_homework.Entities.{ExchangeRate}
use april_homework.Ingestion.{
  FetchOutcome, new_service, run_task, normalize_currencies, fetch_and_store,
}
use april_homework.Ingestion.Settle.{tasks}
use april_homework.Ingestion.Outcome.{IsReport, reported_arrivals}
use april_homework.Ingestion.Pool.{Pool, start, Steps, IsFinished, here}
use april_homework.Ingestion.Pool.Completion.{pool_completes}

-- The limit that NewService gives to the group.
abbrev pub workers : ℤ → ℕ
workers concurrency = pos_part (new_service concurrency)

one-le-workers : (concurrency : ℤ) → 1 ≤ workers concurrency
unfolding new_service
one-le-workers (pos n) = ground arith
one-le-workers (negsuc n) = ground arith

-- What a goroutine sends for a code.
abbrev pub sent : (Text → Result ExchangeRate) → Text → FetchOutcome
sent fetch c = (run_task fetch c).0

sent-tasks :
    (fetch : Text → Result ExchangeRate) (cs : List Text)
    → map (λ t. t.0) (tasks fetch cs) ≡ map (sent fetch) cs
sent-tasks fetch [] = refl
sent-tasks fetch (c ∷ cs) = ap (λ os. sent fetch c ∷ os) (sent-tasks fetch cs)

-- For every configured concurrency, and where some code is not blank: the goroutines can run to their
-- end, and whatever run they take, FetchAndStore on the outcomes in the order in which that run left
-- them in the channel reports and stores each canonical code once.
pub run-IsReport :
    {S : Type 0} (upsert_rates : List ExchangeRate → S → Option Text × S)
    (fetch : Text → Result ExchangeRate) (concurrency : ℤ) (currencies : List Text) (s : S)
    → normalize_currencies currencies ≢ []
    → let cs = normalize_currencies currencies in
      ((n : ℕ) × (p : Pool) × Steps (workers concurrency) (length cs) (sent fetch) (start cs) n p
        × IsFinished p)
      × ((n : ℕ) (p : Pool)
          → Steps (workers concurrency) (length cs) (sent fetch) (start cs) n p
          → IsFinished p
          → let out = fetch_and_store upsert_rates fetch (λ _. p.channel) currencies s in
            IsReport upsert_rates fetch cs s out.0.0 out.0.1 out.1)
run-IsReport upsert_rates fetch concurrency currencies s some_code =
    let cs = normalize_currencies currencies in
    let limit = workers concurrency in
    let positive = one-le-workers concurrency in
    (
      (pool_completes limit (sent fetch) cs 0 (start cs) positive here).0,
      λ n p run end.
          reported_arrivals upsert_rates fetch (λ _. p.channel) currencies s
            (subst (λ os. Perm p.channel os) (sym (sent-tasks fetch cs))
              ((pool_completes limit (sent fetch) cs n p positive run).1 end).1)
            some_code,
    )
