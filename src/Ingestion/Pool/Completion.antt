-- ===== src/Ingestion/Pool/Completion.antt =====
-- The pool: room on the channel for a send, and the end of its runs.
use mathlib.Core.List.{Perm}
use april_homework.Common.{
  ℕ, zero, suc, ◌+◌, ◌*◌, ◌≤◌, ◌<◌, ◌≡◌, ◌≢◌, refl, ap, subst, ◌⊎◌, inl, inr, List, [], ◌∷◌, ◌++◌,
  map, Text, length, arith,
}
use april_homework.Ingestion.{FetchOutcome}
use april_homework.Ingestion.Pool.{
  Pool, start, IsFinished, Step, launch, deliver, Steps, here, next,
}
use april_homework.Ingestion.Pool.Invariant.{
  IsSound, start-IsSound, Step-IsSound, Steps-IsSound, work, Step-work, Steps-work,
}

module _ (limit : ℕ) (task : Text → FetchOutcome) (currencies : List Text) where
  -- In a sound state a running worker has room on the channel, and a queued currency can start
  -- once nothing runs.
  progress :
      1 ≤ limit
      → (s : Pool) → IsSound limit task currencies s
      → IsFinished s ⊎ ((t : Pool) × Step limit (length currencies) task s t)
  progress positive s inv = go s.queued s.running refl refl
    where
      go :
          (q r : List Text)
          → s.queued ≡ q
          → s.running ≡ r
          → IsFinished s ⊎ ((t : Pool) × Step limit (length currencies) task s t)
      go [] [] eq er = inl (eq, er)
      go q (c ∷ r) eq er =
          inr (_, deliver c [] r er (omega (arith, inv.counted, ap length er)) refl)
      go (c ∷ q) [] eq er = inr (_, launch c q eq (omega (arith, positive, ap length er)) refl)

  -- A run that has reached `t` goes on to a finished state.
  complete :
      1 ≤ limit
      → (k : ℕ) (s t : Pool) (n : ℕ) → Steps limit (length currencies) task s n t
      → IsSound limit task currencies t
      → work t ≡ k
      → (m : ℕ) × (u : Pool) × Steps limit (length currencies) task s m u
        × IsFinished u
        × IsSound limit task currencies u
  complete positive zero s t n run inv left = elim (progress positive t inv) [
    | inl done ↦ (n, t, run, done, inv)
    | inr (u, step) ↦ absurd (omega (arith, Step-work limit task currencies step, left))
  ]
  complete positive (suc k) s t n run inv left = elim (progress positive t inv) [
    | inl done ↦ (n, t, run, done, inv)
    | inr (u, step) ↦
        complete positive k s u (n + 1) (next run step refl)
          (Step-IsSound limit task currencies step inv)
          (omega (arith, Step-work limit task currencies step, left))
  ]

  work-start : work (start currencies) ≡ 2 * length currencies
  unfolding work
  work-start = omega arith

  work-finished : (s : Pool) → IsFinished s → work s ≡ 0
  unfolding work
  work-finished s (q, r) = omega (arith, ap length q, ap length r)

  finished-channel :
      (s : Pool)
      → IsFinished s
      → IsSound limit task currencies s
      → Perm s.channel (map task currencies)
  finished-channel s (q, r) inv =
      subst (λ xs. Perm (map task xs ++ s.channel) (map task currencies)) r
        (subst (λ xs. Perm (map task xs ++ (map task s.running ++ s.channel)) (map task currencies))
          q inv.outcomes)

-- In every state that the pool reaches from the start, at most `limit` workers run; as long as one
-- runs the channel has room for its outcome, so that no send blocks; and the run has taken at most
-- two steps for each currency.
pub pool_bounds :
    (limit : ℕ) (task : Text → FetchOutcome) (currencies : List Text) (n : ℕ) (s : Pool)
    → Steps limit (length currencies) task (start currencies) n s
    → (length s.running ≤ limit)
      × (s.running ≢ [] → length s.channel < length currencies)
      × (n ≤ 2 * length currencies)
pool_bounds limit task currencies n s run =
    let inv = Steps-IsSound limit task currencies run (start-IsSound limit task currencies) in
    (
      inv.bounded,
      λ busy. room s.running refl busy inv.counted,
      omega (arith, Steps-work limit task currencies run, work-start limit task currencies),
    )
  where
    room :
        (r : List Text)
        → s.running ≡ r
        → s.running ≢ []
        → length s.queued + length s.running + length s.channel ≡ length currencies
        → length s.channel < length currencies
    room [] e busy counted = absurd (busy e)
    room (c ∷ r) e busy counted = omega (arith, counted, ap length e)

-- With a positive limit every run of the pool can be continued to an end where nothing is queued
-- and nothing runs; every run that ends there took exactly two steps for each currency, and the
-- channel then holds the outcome of each currency once, in some order.
pub pool_completes :
    (limit : ℕ) (task : Text → FetchOutcome) (currencies : List Text) (n : ℕ) (s : Pool)
    → 1 ≤ limit
    → Steps limit (length currencies) task (start currencies) n s
    → ((m : ℕ) × (t : Pool) × Steps limit (length currencies) task s m t × IsFinished t)
      × (IsFinished s → (n ≡ 2 * length currencies) × Perm s.channel (map task currencies))
pool_completes limit task currencies n s positive run =
    let inv = Steps-IsSound limit task currencies run (start-IsSound limit task currencies) in
    let (m, t, on, done, _) =
      complete limit task currencies positive (work s) s s 0 here inv refl in
    (
      (m, t, on, done),
      λ end. (
        omega (
          arith,
          Steps-work limit task currencies run,
          work-start limit task currencies,
          work-finished limit task currencies s end,
        ),
        finished-channel limit task currencies s end inv,
      ),
    )
