-- ===== src/Server/Reading.antt =====
-- GET /api/v1/rates/{currency}/history: which requests reach the repository, and with what.
use april_homework.Common.{
  ◌≡◌, ◌≢◌, refl, ◌↔◌, inl, inr, Text, Option, Result, ok, err, ◌==◌, Bool-cases, ==_iff, arith,
  Result-cases,
}
use april_homework.Common.Int.{ℤ}
use april_homework.Strings.{canonical, byte_len}
use april_homework.Strings.Laws.{canonical_idem}
use april_homework.Time.{Time}
use april_homework.Server.Api.{
  HistoryParams, bind_history, invalid_param, visit_history, strict_get_history,
}
use april_homework.Server.{
  RatesRepository, get_rates_currency_history, load_history, serve_history, limit_or_zero,
}

load_history-status :
    {S : Type 0} (repo : RatesRepository S) (c : Text) (params : HistoryParams) (s : S)
    → (strict_get_history (load_history repo c params s)).status ≢ 422
unfolding load_history strict_get_history visit_history
load_history-status repo c params s =
    elim (Result-cases
      (repo.history c params.from_date params.to_date (limit_or_zero repo params.limit) s)) [
        | inl (rates, e) ↦ rw e (λ h. omega arith)
        | inr (m, e) ↦ rw e (λ h. omega arith)
      ]

-- The reply to a request whose parameters are bound is 422 exactly when the code, trimmed and in
-- upper case, is not three bytes long; and a date that is not one is answered with 400, for every
-- code.
pub serve_history-status :
    {S : Type 0} (repo : RatesRepository S) (raw : Text) (from to : Option Time) (limit : Option ℤ)
    (s : S)
    → (((serve_history repo (ok raw) (ok from) (ok to) (ok limit) s).status ≡ 422)
        ↔ (byte_len (canonical raw) ≢ 3))
      × ((e : Text) → (serve_history repo (ok raw) (err e) (ok to) (ok limit) s).status ≡ 400)
      × ((e : Text) → (serve_history repo (ok raw) (ok from) (err e) (ok limit) s).status ≡ 400)
unfolding serve_history bind_history invalid_param get_rates_currency_history
serve_history-status repo raw from to limit s = (
  elim (Bool-cases (byte_len (canonical raw) == 3)) [
    | inl e ↦ rw e (
      λ h. absurd (
          load_history-status repo (canonical raw)
            (record { from_date = from; to_date = to; limit = limit }) s h),
      λ h. absurd (h ((==_iff (byte_len (canonical raw)) 3).0 e)),
    )
    | inr e ↦ rw e (
      λ h k. cc (e, (==_iff (byte_len (canonical raw)) 3).1 k),
      λ h. unfold strict_get_history visit_history in refl,
    )
  ],
  (λ e. refl),
  (λ e. refl),
)

-- The case of a code and the white space around it do not change the reply.
pub serve_history-canonical :
    {S : Type 0} (repo : RatesRepository S) (raw : Text) (from to : Result (Option Time))
    (limit : Result (Option ℤ)) (s : S)
    → serve_history repo (ok (canonical raw)) from to limit s
      ≡ serve_history repo (ok raw) from to limit s
unfolding serve_history get_rates_currency_history bind_history
serve_history-canonical repo raw (err e) to limit s = refl
serve_history-canonical repo raw (ok f) (err e) limit s = refl
serve_history-canonical repo raw (ok f) (ok t) (err e) s = refl
serve_history-canonical repo raw (ok f) (ok t) (ok l) s = rw (canonical_idem raw)
