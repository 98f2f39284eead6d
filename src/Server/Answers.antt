-- ===== src/Server/Answers.antt =====
-- The answers of the endpoints that read: what they show of the repository, and what they hide.
use april_homework.Common.{
  ◌≡◌, refl, sym, subst, inl, inr, List, Text, codes, Option, none, some, Result, ok, err,
  Result-cases, Option-cases, ==_iff,
}
use april_homework.Strings.{canonical, byte_len}
use april_homework.Entities.{ExchangeRate, base_currency}
use april_homework.Server.Shown.{IsAnswerTo, to_responses-AreShown}
use april_homework.Server.Api.{
  HistoryParams, Reply, error_body, health_body, rates_body, strict_get_history, strict_get_rates,
  visit_rates, visit_history,
}
use april_homework.Server.{
  RatesRepository, to_responses, get_rates, serve_rates, limit_or_zero, load_history,
  get_rates_currency_history, health,
}

abbrev pub internal_error : Reply
internal_error = record { status = 500; body = error_body (codes "internal error") }

abbrev pub rates_reply : List ExchangeRate → Reply
rates_reply rates = record {
  status = 200;
  body = rates_body (record { base_currency = base_currency; rates = to_responses rates });
}

-- What a read of the repository is answered with.
abbrev pub answer_of : Result (List ExchangeRate) → Reply
answer_of (ok rates) = rates_reply rates
answer_of (err e) = internal_error

abbrev pub health_answer : Option Text → Reply
health_answer none = record { status = 200; body = health_body (codes "ok") }
health_answer (some e) = record { status = 503; body = error_body (codes "database unavailable") }

pub serve_rates-answer_of :
    {S : Type 0} (repo : RatesRepository S) (s : S)
    → serve_rates repo s ≡ answer_of (repo.latest_rates s)
unfolding serve_rates get_rates strict_get_rates visit_rates
serve_rates-answer_of repo s = elim (Result-cases (repo.latest_rates s)) [
  | inl (rates, e) ↦ rw e refl
  | inr (x, e) ↦ rw e refl
]

load_history-answer_of :
    {S : Type 0} (repo : RatesRepository S) (c : Text) (params : HistoryParams) (s : S)
    → strict_get_history (load_history repo c params s)
      ≡ answer_of
          (repo.history c params.from_date params.to_date (limit_or_zero repo params.limit) s)
unfolding load_history strict_get_history visit_history
load_history-answer_of repo c params s =
    elim (Result-cases
      (repo.history c params.from_date params.to_date (limit_or_zero repo params.limit) s)) [
        | inl (rates, e) ↦ rw e refl
        | inr (x, e) ↦ rw e refl
      ]

pub history-answer_of :
    {S : Type 0} (repo : RatesRepository S) (raw : Text) (params : HistoryParams) (s : S)
    → byte_len (canonical raw) ≡ 3
    → strict_get_history (get_rates_currency_history repo raw params s)
      ≡ answer_of (
          repo.history
            (canonical raw)
            params.from_date
            params.to_date
            (limit_or_zero repo params.limit)
            s)
unfolding get_rates_currency_history
history-answer_of repo raw params s three =
    rw ((==_iff (byte_len (canonical raw)) 3).1 three)
      (load_history-answer_of repo (canonical raw) params s)

health-health_answer :
    {S : Type 0} (repo : RatesRepository S) (s : S) → health repo s ≡ health_answer (repo.ping s)
unfolding health
health-health_answer repo s = elim (Option-cases (repo.ping s)) [
  | inl e ↦ rw e refl
  | inr (x, e) ↦ rw e refl
]

pub answer_of-IsAnswerTo : (m : Result (List ExchangeRate)) → IsAnswerTo m (answer_of m)
answer_of-IsAnswerTo (ok rates) = (to_responses rates, to_responses-AreShown rates, refl)
answer_of-IsAnswerTo (err e) = refl

-- For every repository: the latest rates and the history of a code of three bytes (read under its
-- canonical form, a limit that is left out as 0) are answered with status 200, the base currency EUR
-- and every rate that the repository returned, field by field and in order, or with status 500 and a
-- fixed message that shows nothing of its error; and the health check with 200 or 503 and a fixed
-- message.
pub answers_hide_errors :
    {S : Type 0} (repo : RatesRepository S) (raw : Text) (params : HistoryParams) (s : S)
    → byte_len (canonical raw) ≡ 3
    → IsAnswerTo (repo.latest_rates s) (serve_rates repo s)
      × IsAnswerTo
          (repo.history
            (canonical raw)
            params.from_date
            params.to_date
            (limit_or_zero repo params.limit)
            s)
          (strict_get_history (get_rates_currency_history repo raw params s))
      × (health repo s ≡ health_answer (repo.ping s))
answers_hide_errors repo raw params s three = (
  subst (IsAnswerTo _) (sym (serve_rates-answer_of repo s))
      (answer_of-IsAnswerTo (repo.latest_rates s)),
  subst (IsAnswerTo _) (sym (history-answer_of repo raw params s three)) (answer_of-IsAnswerTo _),
  health-health_answer repo s,
)
