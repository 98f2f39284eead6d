-- ===== src/Examples/Pools.antt =====
-- A pool of one worker and two currencies, two steps into its run.
use mathlib.Core.List.{Perm}
use april_homework.Common.{
  ◌≡◌, ◌≢◌, ◌≤◌, ◌<◌, ◌*◌, ℕ, refl, List, [], ◌∷◌, map, Text, codes, length, arith,
}
use april_homework.Entities.{zero_rate}
use april_homework.Ingestion.{FetchOutcome}
use april_homework.Ingestion.Pool.{Pool, start, IsFinished, launch, deliver, Steps, here, next}
use april_homework.Ingestion.Pool.Completion.{pool_bounds, pool_completes}

abbrev task : Text → FetchOutcome
task c = record { rate = zero_rate; failure = record { currency = c; error = codes "no feed" } }

abbrev currencies : List Text
currencies = codes "USD" ∷ codes "GBP" ∷ []

abbrev launched : Pool
launched = record { queued = codes "GBP" ∷ []; running = codes "USD" ∷ []; channel = [] }

abbrev delivered : Pool
delivered = record { queued = codes "GBP" ∷ []; running = []; channel = task (codes "USD") ∷ [] }

run : Steps 1 (length currencies) task (start currencies) 2 delivered
run =
    next (next here (launch (codes "USD") (codes "GBP" ∷ []) refl (omega arith) refl) refl)
      (deliver (codes "USD") [] [] refl (omega arith) refl) refl

pool_bounds_example :
    (length delivered.running ≤ 1)
    × (delivered.running ≢ [] → length delivered.channel < length currencies)
    × (2 ≤ 2 * length currencies)
pool_bounds_example = pool_bounds 1 task currencies 2 delivered run

pool_completes_example :
    ((m : ℕ) × (t : Pool) × Steps 1 (length currencies) task delivered m t × IsFinished t)
    × (IsFinished delivered
        → (2 ≡ 2 * length currencies) × Perm delivered.channel (map task currencies))
pool_completes_example = pool_completes 1 task currencies 2 delivered (omega arith) run
