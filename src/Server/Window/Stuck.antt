-- ===== src/Server/Window/Stuck.antt =====
-- A counter whose EXPIRE failed.
use april_homework.Common.{
  ℕ, suc, ◌+◌, ◌≤◌, ◌≡◌, inl, inr, ◌∙◌, List, [], ◌∷◌, Text, none, true, false, Result, ok, ◌==◌,
  Bool-cases, arith,
}
use april_homework.Common.Int.{ℤ, pos_part}
use april_homework.Strings.{text_eq}
use april_homework.Strings.Laws.{text_eq_refl}
use april_homework.Server.{Request}
use april_homework.Server.Limiter.{Redis, limit_key, rate_limit}
use april_homework.Server.Limiting.{rate_limit-step}
use april_homework.Server.Window.{
  IsExpiring, Event, arrives, time_passes, full, arrivals, handle, handle_all, rate_limit-state,
  rate_limit-ttl, rate_limit-own, rate_limit-other,
}

module _ (redis : Redis) (tick : redis.State → redis.State) (split_host_port : Text → Result Text)
    (limit : ℤ) where
  abbrev key_of : Request → Text
  key_of = limit_key redis split_host_port limit

  module _ (window : ℕ) (law : IsExpiring redis tick window)
      (answers : (k : Text) (s : redis.State) → (n : ℕ) × ((redis.incr k s).0 ≡ ok n)) where
    abbrev count : Text → redis.State → ℕ
    count = law.counting.count

    -- The counter of a key without a limit of its time grows by each of its requests.
    handle_all-lasting :
        (k : Text) (es : List Event) (s : redis.State) (n : ℕ)
        → law.ttl k s ≡ none
        → suc n ≤ count k s
        → suc n + arrivals redis tick split_host_port limit k es
          ≤ count k (handle_all redis tick split_host_port limit es s)
    unfolding handle_all handle arrivals
    handle_all-lasting k [] s n left counted = omega (arith, counted)
    handle_all-lasting k (arrives r ∷ es) s n left counted =
        let s' = (rate_limit redis split_host_port limit r s).1 in
        let left' =
          rate_limit-ttl redis tick split_host_port limit window law answers r k s
            (λ z. absurd (omega (arith, counted, z)))
          ∙ left in
        elim (Bool-cases (text_eq (key_of r) k)) [
          | inl e ↦
              let up = rate_limit-own redis tick split_host_port limit window law answers r k s e in
              rw e (
                omega
                  (arith, handle_all-lasting k es s' (suc n) left' (omega (arith, up, counted))))
          | inr e ↦
              let same =
                rate_limit-other redis tick split_host_port limit window law answers r k s e in
              rw e
                (omega (arith, handle_all-lasting k es s' n left' (omega (arith, same, counted))))
        ]
    handle_all-lasting k (time_passes ∷ es) s n left counted =
        let (same, left') = law.tick_lasting k s left in
        handle_all-lasting k es (tick s) n left' (omega (arith, same, counted))

    -- If Redis answers, and the EXPIRE that follows the first request of a key fails, then from the
    -- request on that makes as many as the limit, every request of this key is rejected, whatever
    -- else happens and however much time passes.
    pub rate_limit-stuck :
        (r : Request) (es : List Event) (s : redis.State)
        → count (key_of r) s ≡ 0
        → law.ttl (key_of r) (redis.expire (key_of r) (redis.incr (key_of r) s).1) ≡ none
        → pos_part limit ≤ suc (arrivals redis tick split_host_port limit (key_of r) es)
        → (rate_limit redis split_host_port limit r
            (handle_all redis tick split_host_port limit (arrives r ∷ es) s)).0
          ≡ false
    unfolding handle_all handle
    rate_limit-stuck r es s fresh failed enough =
        let k = key_of r in
        let s' = (rate_limit redis split_host_port limit r s).1 in
        let first : (suc (count k s) == 1) ≡ true = ground (arith, fresh) in
        let left : law.ttl k s' ≡ none =
          rw (rate_limit-state redis tick split_host_port limit window law answers r s, first)
            failed in
        let up =
          rate_limit-own redis tick split_host_port limit window law answers r k s
            (text_eq_refl k) in
        let more = handle_all-lasting k es s' 0 left (omega (arith, up)) in
        (rate_limit-step redis split_host_port limit law.counting answers r
          (handle_all redis tick split_host_port limit es s')).0
        ∙ full (count k (handle_all redis tick split_host_port limit es s')) (pos_part limit)
            (omega (arith, more, enough))
