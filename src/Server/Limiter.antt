-- ===== src/Server/Limiter.antt =====
-- internal/server/middleware.go: rateLimitMiddleware over Redis, with its key and its decision.
use april_homework.Common.{
  ℕ, ◌++◌, Text, codes, Bool, true, false, Result, ok, err, if◌then◌else◌, ◌==◌,
}
use april_homework.Common.Int.{ℤ, pos, ltb_ℤ}
use april_homework.Server.Api.{error_body, Reply}
use april_homework.Server.{Request, client_ip}

-- What the limiter calls of Redis: INCR and EXPIRE, whose error it drops.
pub record Redis : Type 1 where
  pub State : Type 0
  pub incr : Text → State → Result ℕ × State
  pub expire : Text → State → State

module _ (redis : Redis) (split_host_port : Text → Result Text) (limit : ℤ) where
  open redis use {State, incr, expire}

  unfoldable pub limit_key : Request → Text
  unfolding client_ip
  limit_key r = codes "rate_limit:" ++ r.path ++ codes ":" ++ client_ip split_host_port r

  -- What follows INCR: whether the request is passed on, and the state of Redis.
  unfoldable pub admit_count : Text → Result ℕ × State → Bool × State
  admit_count key (err e, s) = (true, s)
  admit_count key (ok count, s) =
      (if ltb_ℤ limit (pos count) then false else true, if count == 1 then expire key s else s)

  -- rateLimitMiddleware
  unfoldable pub rate_limit : Request → State → Bool × State
  unfolding admit_count limit_key
  rate_limit r s = let key = limit_key r in admit_count key (incr key s)

  abbrev pub too_many : Reply
  too_many = record { status = 429; body = error_body (codes "rate limit exceeded") }

  -- The middleware around a handler that answers `next`.
  unfoldable pub limited : Reply → Request → State → Reply × State
  unfolding rate_limit
  limited next r s = let out = rate_limit r s in (if out.0 then next else too_many, out.1)
