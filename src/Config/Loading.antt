-- ===== src/Config/Loading.antt =====
-- Which settings are accepted, what they become, and the currencies that both commands fall back to.
use april_homework.Common.{
  ℕ, ◌≡◌, ◌≤◌, ◌*◌, ◌↔◌, refl, List, [], ◌∷◌, Text, none, Bool, true, false, if◌then◌else◌, ok, err,
  arith, ◌||◌,
}
use april_homework.Common.Int.{ℤ, pos, negsuc, ltb_ℤ, ◌≤ℤ◌}
use april_homework.Server.{choose_currencies, or_else}
use april_homework.Entities.{default_currencies}
use april_homework.Config.{
  Input, Config, load, config_of, fetch_currencies, or_default, seconds, signed,
}

load_ok :
    {A : Type 0} (m n : Text) (a : A) (b c : Bool)
    → ((if b then err m else if c then err n else ok a) ≡ ok a) ↔ ((b ≡ false) × (c ≡ false))
load_ok m n a true c = (λ e. cc, λ p. cc (p.0))
load_ok m n a false true = (λ e. cc, λ p. cc (p.1))
load_ok m n a false false = (λ e. (refl, refl), λ p. refl)

in_range :
    (p c : ℤ)
    → (((ltb_ℤ p (pos 1) || ltb_ℤ (pos 65535) p) ≡ false) × (ltb_ℤ c (pos 1) ≡ false))
      ↔ ((pos 1 ≤ℤ p) × (p ≤ℤ pos 65535) × (pos 1 ≤ℤ c))
in_range (pos p) (pos c) = ground arith
in_range (pos p) (negsuc c) = ground arith
in_range (negsuc p) (pos c) = ground arith
in_range (negsuc p) (negsuc c) = ground arith

-- The settings are accepted, and become the configuration `config_of`, exactly when the port is
-- from 1 to 65535 and the concurrency is at least 1.
pub load_iff :
    (query_escape : Text → Text) (user_password : Text → Text → Text) (i : Input)
    → (load query_escape user_password i ≡ ok (config_of query_escape user_password i))
      ↔ ((pos 1 ≤ℤ i.port) × (i.port ≤ℤ pos 65535) × (pos 1 ≤ℤ i.fetch_concurrency))
unfolding load
load_iff query_escape user_password i =
    let (to, from) = load_ok _ _ (config_of query_escape user_password i) _ _ in
    let (to', from') = in_range i.port i.fetch_concurrency in (λ e. to' (to e), λ r. from (from' r))

-- A number of seconds from 0 to 9223372036 becomes that many times 10 ^ 9 nanoseconds, without
-- wrapping in 64 bits.
pub seconds-exact : (n : ℕ) → n ≤ 9223372036 → seconds (pos n) ≡ pos (n * 1000000000)
unfolding seconds signed
seconds-exact n h = ground arith

or_default-or_else : (cs : List Text) → or_else cs default_currencies ≡ or_default cs
or_default-or_else [] = refl
or_default-or_else (c ∷ cs) = refl

-- Where a request names no currencies the server fetches those that the command `fetch` does.
pub choose_currencies-fetch_currencies :
    (cfg : Config) → choose_currencies cfg.fetcher.currencies none ≡ fetch_currencies cfg
unfolding choose_currencies fetch_currencies
choose_currencies-fetch_currencies cfg = or_default-or_else cfg.fetcher.currencies
