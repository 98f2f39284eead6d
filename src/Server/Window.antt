-- ===== src/Server/Window.antt =====
-- The rate limiter of internal/server/middleware.go as time passes: the counter of a key lasts until
-- its EXPIRE.
pub mod Recovering
pub mod Stuck
use april_homework.Common.{
  ℕ, zero, suc, ◌+◌, ◌≤◌, ◌≡◌, ◌≢◌, ◌⊎◌, inl, inr, refl, sym, ap, ◌∙◌, subst, List, [], ◌∷◌, ◌++◌,
  Text, Option, none, some, Bool, true, false, Result, ok, ok_inj, err, ◌==◌, ltb, lt→ltb,
  if◌then◌else◌, Bool-cases, arith,
}
use april_homework.Common.Int.{ℤ, pos_part}
use april_homework.Strings.{text_eq}
use april_homework.Strings.Laws.{text_eq_iff, text_eq_refl}
use april_homework.Server.{Request}
use april_homework.Server.Limiter.{Redis, limit_key, admit_count, rate_limit}
use april_homework.Server.Limiting.{IsCounting, rate_limit-step}

-- What Redis documents of keys that expire, in units of time; `ttl` is the time that a key has left,
-- if it has a limit. INCR leaves it as it is. EXPIRE sets it to `window`, or fails. When it is over,
-- the key is gone.
pub record IsExpiring (redis : Redis) (tick : redis.State → redis.State) (window : ℕ) : Type 0 where
  pub counting : IsCounting redis
  pub ttl : Text → redis.State → Option ℕ
  pub incr_ttl : (k j : Text) (s : redis.State) → ttl j (redis.incr k s).1 ≡ ttl j s
  pub expire_own :
      (k : Text) (s : redis.State)
      → (ttl k (redis.expire k s) ≡ some window) ⊎ (ttl k (redis.expire k s) ≡ ttl k s)
  pub expire_other : (k j : Text) (s : redis.State) → j ≢ k → ttl j (redis.expire k s) ≡ ttl j s
  pub tick_absent :
      (k : Text) (s : redis.State) → counting.count k s ≡ 0 → counting.count k (tick s) ≡ 0
  pub tick_lasting :
      (k : Text) (s : redis.State)
      → ttl k s ≡ none
      → (counting.count k (tick s) ≡ counting.count k s) × (ttl k (tick s) ≡ none)
  pub tick_later :
      (k : Text) (s : redis.State) (m : ℕ)
      → ttl k s ≡ some (suc (suc m))
      → (counting.count k (tick s) ≡ counting.count k s) × (ttl k (tick s) ≡ some (suc m))
  pub tick_over : (k : Text) (s : redis.State) → ttl k s ≡ some 1 → counting.count k (tick s) ≡ 0

pub ℕ-cases : (n : ℕ) → (n ≡ 0) ⊎ (n ≢ 0)
ℕ-cases zero = inl refl
ℕ-cases (suc n) = inr (λ e. absurd (omega (arith, e)))

pub full : (c l : ℕ) → l ≤ c → ltb c l ≡ false
full c l h = ground arith

-- A request arrives, or a unit of time passes.
pub data Event : Type 0 where
  arrives : Request → Event
  time_passes : Event

abbrev pub ticks : List Event → ℕ
ticks [] = 0
ticks (arrives r ∷ es) = ticks es
ticks (time_passes ∷ es) = suc (ticks es)

module _ (redis : Redis) (tick : redis.State → redis.State) (split_host_port : Text → Result Text)
    (limit : ℤ) where
  abbrev key_of : Request → Text
  key_of = limit_key redis split_host_port limit

  -- The requests of a key among these events.
  unfoldable pub arrivals : Text → List Event → ℕ
  arrivals k [] = 0
  arrivals k (arrives r ∷ es) = (if text_eq (key_of r) k then 1 else 0) + arrivals k es
  arrivals k (time_passes ∷ es) = arrivals k es

  unfoldable pub handle : Event → redis.State → redis.State
  handle (arrives r) s = (rate_limit redis split_host_port limit r s).1
  handle time_passes s = tick s

  unfoldable pub handle_all : List Event → redis.State → redis.State
  unfolding handle
  handle_all [] s = s
  handle_all (e ∷ es) s = handle_all es (handle e s)

  pub handle_all-append :
      (es fs : List Event) (s : redis.State)
      → handle_all (es ++ fs) s ≡ handle_all fs (handle_all es s)
  unfolding handle_all
  handle_all-append [] fs s = refl
  handle_all-append (e ∷ es) fs s = handle_all-append es fs (handle e s)

  pub handle_all-nil : (s : redis.State) → handle_all [] s ≡ s
  unfolding handle_all
  handle_all-nil s = refl

  admit_count-state :
      (k : Text) (p : Result ℕ × redis.State) (n : ℕ)
      → p.0 ≡ ok n
      → (admit_count redis split_host_port limit k p).1
        ≡ (if n == 1 then redis.expire k p.1 else p.1)
  unfolding admit_count
  admit_count-state k (ok c, s) n h = rw (ok_inj h) refl
  admit_count-state k (err e, s) n h = cc

  module _ (window : ℕ) (law : IsExpiring redis tick window)
      (answers : (k : Text) (s : redis.State) → (n : ℕ) × ((redis.incr k s).0 ≡ ok n)) where
    abbrev pub count : Text → redis.State → ℕ
    count = law.counting.count

    pub rate_limit-state :
        (r : Request) (s : redis.State)
        → (rate_limit redis split_host_port limit r s).1 ≡ (
            if suc (count (key_of r) s) == 1
            then redis.expire (key_of r) (redis.incr (key_of r) s).1
            else (redis.incr (key_of r) s).1)
    unfolding rate_limit
    rate_limit-state r s =
        let (n, e) = answers (key_of r) s in
        let (sum, own, other) = law.counting.incr_ok (key_of r) s n e in
        subst
          (λ c. (rate_limit redis split_host_port limit r s).1 ≡ (
            if c == 1
            then redis.expire (key_of r) (redis.incr (key_of r) s).1
            else (redis.incr (key_of r) s).1))
          sum (admit_count-state (key_of r) (redis.incr (key_of r) s) n e)

    -- A request leaves the time of the other keys as it is, and that of its own key if it counted.
    pub rate_limit-ttl :
        (r : Request) (k : Text) (s : redis.State)
        → count k s ≢ 0
        → law.ttl k (rate_limit redis split_host_port limit r s).1 ≡ law.ttl k s
    rate_limit-ttl r k s counted = elim (Bool-cases (text_eq (key_of r) k)) [
      | inl e ↦
          let same = (text_eq_iff (key_of r) k).0 e in
          let above : (suc (count (key_of r) s) == 1) ≡ false = ground (arith, same, counted) in
          rw (rate_limit-state r s, above) (law.incr_ttl (key_of r) k s)
      | inr e ↦
          let differs : k ≢ key_of r = λ h. cc (e, (text_eq_iff (key_of r) k).1 (sym h)) in
          rw (rate_limit-state r s) (other differs (Bool-cases (suc (count (key_of r) s) == 1)))
    ]
      where
        other :
            k ≢ key_of r
            → ((suc (count (key_of r) s) == 1) ≡ true) ⊎ ((suc (count (key_of r) s) == 1) ≡ false)
            → law.ttl k (
                if suc (count (key_of r) s) == 1
                then redis.expire (key_of r) (redis.incr (key_of r) s).1
                else (redis.incr (key_of r) s).1)
              ≡ law.ttl k s
        other d (inl e) = rw e (
            law.expire_other (key_of r) k (redis.incr (key_of r) s).1 d
            ∙ law.incr_ttl (key_of r) k s)
        other d (inr e) = rw e (law.incr_ttl (key_of r) k s)

    pub rate_limit-own :
        (r : Request) (k : Text) (s : redis.State)
        → text_eq (key_of r) k ≡ true
        → count k (rate_limit redis split_host_port limit r s).1 ≡ suc (count k s)
    rate_limit-own r k s e =
        subst (λ j. count j (rate_limit redis split_host_port limit r s).1 ≡ suc (count j s))
          ((text_eq_iff (key_of r) k).0 e)
          (rate_limit-step redis split_host_port limit law.counting answers r s).1

    pub rate_limit-other :
        (r : Request) (k : Text) (s : redis.State)
        → text_eq (key_of r) k ≡ false
        → count k (rate_limit redis split_host_port limit r s).1 ≡ count k s
    rate_limit-other r k s e =
        let (_, _, others) = rate_limit-step redis split_host_port limit law.counting answers r s in
        others k (λ h. cc (e, (text_eq_iff (key_of r) k).1 (sym h)))
