-- ===== src/Examples/Routes.antt =====
-- Requests to the whole handler, over a router that takes the first route of the table that has the
-- path and the method of the request.
use april_homework.Common.{
  ◌≡◌, ◌≢◌, refl, inl, inr, List, [], ◌∷◌, Text, codes, Option, none, some, Bool, true, false, ◌&&◌,
  ok, In, if◌then◌else◌, Bool-cases, arith,
}
use april_homework.Common.Int.{pos}
use april_homework.Strings.{canonical, byte_len, to_upper, trim_space, text_eq}
use april_homework.Strings.Laws.{text_eq_iff}
use april_homework.Entities.{zero_rate}
use april_homework.Ingestion.{fetch_and_store}
use april_homework.Server.Api.{HistoryParams, plain_body, no_body, strict_get_history}
use april_homework.Server.{Request, serve_rates, get_rates_currency_history, health}
use april_homework.Server.Limiter.{rate_limit}
use april_homework.Server.Routes.{Endpoint, Route, Found, found, unmatched, Web, serve_http}
use april_homework.Server.Routing.{IsRouter, serve_http_unchanged}
use april_homework.Server.Shown.{IsAnswerTo}
use april_homework.Server.Answers.{health_answer, answers_hide_errors}
use april_homework.Examples.Requests.{archive, counters, visit, no_port, keep, fetch_all_but_x}

abbrev has_method : Option Text → Text → Bool
has_method none m = true
has_method (some k) m = text_eq k m

abbrev takes : Route → Request → Bool
takes p r = text_eq p.pattern r.path && has_method p.method r.method

abbrev first_route : List Route → Request → Found
first_route [] r = unmatched
first_route (p ∷ table) r =
    let rest = first_route table r in if takes p r then found p.endpoint else rest

abbrev pub web : Web
web = record {
  route = first_route;
  not_allowed = λ r. record { status = 405; body = plain_body [] };
  real_ip = λ r. r;
  decode = λ r. no_body;
  bind = λ r. record {
    currency = ok (codes "usd");
    from_date = ok none;
    to_date = ok none;
    limit = ok none;
  };
  strip_prefix = λ prefix h. h;
  file_server = λ kind r. record { status = 200; body = plain_body [] };
  split_host_port = no_port;
}

has_method_sound : (o : Option Text) (m k : Text) → has_method o m ≡ true → o ≡ some k → k ≡ m
has_method_sound none m k h e = cc (e)
has_method_sound (some j) m k h e = cc ((text_eq_iff j m).0 h, e)

found_inj : (d e : Endpoint) → found d ≡ found e → d ≡ e
found_inj d e h = cc

first_route_law :
    (table : List Route) (r : Request) (e : Endpoint)
    → first_route table r ≡ found e
    → (p : Route) × In p table × (p.endpoint ≡ e) × ((m : Text) → p.method ≡ some m → m ≡ r.method)
first_route_law [] r e h = cc
first_route_law (p ∷ table) r e h = elim (Bool-cases (takes p r)) [
  | inl t ↦ (
    p,
    inl refl,
    found_inj p.endpoint e (rw t at h),
    λ m k. has_method_sound p.method r.method m (ground arith) k,
  )
  | inr t ↦ let (q, i, same, law) = first_route_law table r e (rw t at h) in (q, inr i, same, law)
]

abbrev web_laws : IsRouter web
web_laws = record { by_route = first_route_law; real_ip_method = λ r. refl }

serve_http_unchanged_example :
    let out =
      serve_http web archive
        (some (fetch_and_store keep fetch_all_but_x (λ os. os)))
        (codes "USD" ∷ [])
        counters
        true
        true
        (pos 0)
        visit
        []
        (λ k. 0) in
    (codes "GET" ≢ codes "POST" → out.1 ≡ [])
    × ((true && true) ≡ true
        → (rate_limit counters no_port (pos 0) visit (λ k. 0)).0 ≡ false
        → (out.1 ≡ []) × (out.0.status ≡ 429))
serve_http_unchanged_example =
    serve_http_unchanged web archive (some (fetch_and_store keep fetch_all_but_x (λ os. os)))
      (codes "USD" ∷ []) counters true true (pos 0) visit [] (λ k. 0) web_laws

three_bytes : byte_len (canonical (codes " usd")) ≡ 3
unfolding byte_len to_upper trim_space
three_bytes = refl

abbrev all_dates : HistoryParams
all_dates = record { from_date = none; to_date = none; limit = none }

answers_hide_errors_example :
    IsAnswerTo (ok (zero_rate ∷ [])) (serve_rates archive (zero_rate ∷ []))
    × IsAnswerTo (ok (zero_rate ∷ [])) (
        strict_get_history
          (get_rates_currency_history archive (codes " usd") all_dates (zero_rate ∷ [])))
    × (health archive (zero_rate ∷ []) ≡ health_answer none)
answers_hide_errors_example =
    answers_hide_errors archive (codes " usd") all_dates (zero_rate ∷ []) three_bytes
