-- ===== src/Server/Window/Recovering.antt =====
-- The rate limiter after a rejection, as time passes.
use april_homework.Common.{
  ℕ, zero, suc, ◌≤◌, ◌≡◌, ◌≢◌, inl, inr, refl, ap, ◌∙◌, subst, List, [], ◌∷◌, ◌++◌, Text, Option,
  some, true, Result, ok, ◌==◌, ltb, lt→ltb, Bool-cases, arith,
}
use april_homework.Common.Int.{ℤ, pos_part}
use april_homework.Strings.{text_eq}
use april_homework.Strings.Laws.{text_eq_iff}
use april_homework.Server.{Request}
use april_homework.Server.Limiter.{Redis, limit_key, rate_limit}
use april_homework.Server.Limiting.{rate_limit-step}
use april_homework.Server.Window.{
  IsExpiring, Event, arrives, time_passes, ticks, ℕ-cases, handle, handle_all, handle_all-append,
  handle_all-nil, rate_limit-state, rate_limit-ttl, rate_limit-other,
}

module _ (redis : Redis) (tick : redis.State → redis.State) (split_host_port : Text → Result Text)
    (limit : ℤ) where
  abbrev key_of : Request → Text
  key_of = limit_key redis split_host_port limit

  module _ (window : ℕ) (law : IsExpiring redis tick window)
      (answers : (k : Text) (s : redis.State) → (n : ℕ) × ((redis.incr k s).0 ≡ ok n)) where
    abbrev count : Text → redis.State → ℕ
    count = law.counting.count

    -- A key with so much time left is gone at some point of these events, if they last as long.
    gone :
        (k : Text) (es : List Event) (m : ℕ) (s : redis.State)
        → law.ttl k s ≡ some (suc m)
        → suc m ≤ ticks es
        → (xs : List Event) × (ys : List Event) × (es ≡ xs ++ ys)
          × (count k (handle_all redis tick split_host_port limit xs s) ≡ 0)
    unfolding handle_all handle
    gone k [] m s left enough = absurd (omega (arith, enough))
    gone k (arrives r ∷ es) m s left enough = elim (ℕ-cases (count k s)) [
      | inl none_left ↦ ([], arrives r ∷ es, refl, none_left)
      | inr counted ↦
          let (xs, ys, split, zero_count) =
            gone k es m (rate_limit redis split_host_port limit r s).1
              (rate_limit-ttl redis tick split_host_port limit window law answers r k s counted
                ∙ left)
              enough in
          (arrives r ∷ xs, ys, ap (λ l. arrives r ∷ l) split, zero_count)
    ]
    gone k (time_passes ∷ es) zero s left enough =
        (time_passes ∷ [], es, refl, law.tick_over k s left)
    gone k (time_passes ∷ es) (suc m) s left enough =
        let (xs, ys, split, zero_count) =
          gone k es m (tick s) (law.tick_later k s m left).1 (omega (arith, enough)) in
        (time_passes ∷ xs, ys, ap (λ l. time_passes ∷ l) split, zero_count)

    -- Every key that is counted has a limit of its time, which is no longer than the window.
    abbrev pub HasDeadlines : redis.State → Type 0
    HasDeadlines s =
        (k : Text) → count k s ≢ 0 → (m : ℕ) × (law.ttl k s ≡ some (suc m)) × (suc m ≤ window)

    module _ (expires : (k : Text) (s : redis.State) → law.ttl k (redis.expire k s) ≡ some window)
        (positive : 1 ≤ window) where
      window_some :
          (n : ℕ) → 1 ≤ n → (m : ℕ) × (◌≡◌ {A = Option ℕ} (some n) (some (suc m))) × (suc m ≤ n)
      window_some zero h = absurd (omega (arith, h))
      window_some (suc m) h = (m, refl, omega arith)

      rate_limit-HasDeadlines :
          (r : Request) (s : redis.State)
          → HasDeadlines s
          → HasDeadlines (rate_limit redis split_host_port limit r s).1
      rate_limit-HasDeadlines r s h k counted = elim (ℕ-cases (count k s)) [
        | inl fresh ↦ elim (Bool-cases (text_eq (key_of r) k)) [
          | inl e ↦
              let same = (text_eq_iff (key_of r) k).0 e in
              let first : (suc (count (key_of r) s) == 1) ≡ true =
                ground (arith, ap (λ j. count j s) same, fresh) in
              let (m, is_window, bound) = window_some window positive in
              (
                m,
                subst (λ j. law.ttl j (rate_limit redis split_host_port limit r s).1 ≡ some window)
                      same
                      (rw
                        (
                          rate_limit-state redis tick split_host_port limit window law answers r s,
                          first,
                        )
                        (expires (key_of r) (redis.incr (key_of r) s).1))
                    ∙ is_window,
                bound,
              )
          | inr e ↦ absurd (
              counted (
                rate_limit-other redis tick split_host_port limit window law answers r k s e
                ∙ fresh))
        ]
        | inr before ↦
            let (m, left, bound) = h k before in
            (
              m,
              rate_limit-ttl redis tick split_host_port limit window law answers r k s before
                  ∙ left,
              bound,
            )
      ]

      tick-HasDeadlines : (s : redis.State) → HasDeadlines s → HasDeadlines (tick s)
      tick-HasDeadlines s h k counted = elim (ℕ-cases (count k s)) [
        | inl absent ↦ absurd (counted (law.tick_absent k s absent))
        | inr before ↦ by_time (h k before)
      ]
        where
          by_time :
              (m : ℕ) × (law.ttl k s ≡ some (suc m)) × (suc m ≤ window)
              → (m : ℕ) × (law.ttl k (tick s) ≡ some (suc m)) × (suc m ≤ window)
          by_time (zero, left, bound) = absurd (counted (law.tick_over k s left))
          by_time (suc m, left, bound) = (m, (law.tick_later k s m left).1, omega (arith, bound))

      handle_all-HasDeadlines :
          (es : List Event) (s : redis.State)
          → HasDeadlines s
          → HasDeadlines (handle_all redis tick split_host_port limit es s)
      unfolding handle_all handle
      handle_all-HasDeadlines [] s h = h
      handle_all-HasDeadlines (arrives r ∷ es) s h =
          handle_all-HasDeadlines es (rate_limit redis split_host_port limit r s).1
            (rate_limit-HasDeadlines r s h)
      handle_all-HasDeadlines (time_passes ∷ es) s h =
          handle_all-HasDeadlines es (tick s) (tick-HasDeadlines s h)

      absent-passes :
          (r : Request) (s : redis.State)
          → 1 ≤ pos_part limit
          → count (key_of r) s ≡ 0
          → (rate_limit redis split_host_port limit r s).0 ≡ true
      absent-passes r s some_limit absent =
          (rate_limit-step redis split_host_port limit law.counting answers r s).0
          ∙ ap (λ c. ltb c (pos_part limit)) absent
          ∙ lt→ltb 0 (pos_part limit) some_limit

      -- While Redis answers and each EXPIRE succeeds, and whatever has happened since Redis had no
      -- counter: among events that last as long as the window, there is a point at which a request
      -- of a given key passes, if the limit is positive, however many requests have come before.
      pub rate_limit-recovers :
          (r : Request) (past es : List Event) (s : redis.State)
          → ((k : Text) → count k s ≡ 0)
          → 1 ≤ pos_part limit
          → window ≤ ticks es
          → (xs : List Event) × (ys : List Event) × (es ≡ xs ++ ys)
            × ((rate_limit redis split_host_port limit r
                  (handle_all redis tick split_host_port limit (past ++ xs) s)).0
                ≡ true)
      rate_limit-recovers r past es s empty some_limit enough =
          let now = handle_all redis tick split_host_port limit past s in
          elim (ℕ-cases (count (key_of r) now)) [
            | inl absent ↦ (
              [],
              es,
              refl,
              absent-passes r (handle_all redis tick split_host_port limit (past ++ []) s)
                  some_limit
                  (ap (count (key_of r)) (
                      handle_all-append redis tick split_host_port limit past [] s
                      ∙ handle_all-nil redis tick split_host_port limit now)
                    ∙ absent),
            )
            | inr counted ↦
                let (m, left, bound) =
                  handle_all-HasDeadlines past s (λ k c. absurd (c (empty k))) (key_of r) counted in
                let (xs, ys, split, absent) =
                  gone (key_of r) es m now left (omega (arith, bound, enough)) in
                (
                  xs,
                  ys,
                  split,
                  absent-passes r (handle_all redis tick split_host_port limit (past ++ xs) s)
                      some_limit
                      (ap (count (key_of r))
                          (handle_all-append redis tick split_host_port limit past xs s)
                        ∙ absent),
                )
          ]
