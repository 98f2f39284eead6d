-- ===== src/Server/Accepted.antt =====
-- A request that a route takes and that is answered with 200: what its handler answered.
use april_homework.Common.{
  ok, ◌≡◌, refl, ap, ◌∙◌, inl, inr, List, Text, Option, none, some, Bool, true, false, ◌&&◌, arith,
  Bool-cases,
}
use april_homework.Common.Int.{ℤ}
use april_homework.Server.Api.{
  bind_history, FetchRatesRequest, Reply, Decoded, no_body, decoded, visit_fetch,
}
use april_homework.Strings.{byte_len, canonical}
use april_homework.Server.{
  serve_history, limit_or_zero, RatesRepository, RatesFetcher, Request, choose_currencies,
  post_rates_fetch, serve_fetch, serve_rates,
}
use april_homework.Server.Limiter.{Redis}
use april_homework.Server.Answers.{answer_of, serve_rates-answer_of, history-answer_of}
use april_homework.Server.Routes.{
  Endpoint, found, Web, fetch_rates, rate_history, list_rates, route_table, endpoint_reply,
  found_reply, routed, decided, serve_http,
}

-- The body of a request that can be decoded.
abbrev pub body_of : Option FetchRatesRequest → Decoded
body_of none = no_body
body_of (some b) = decoded b

module _ {S : Type 0} (web : Web) (repo : RatesRepository S) (fetcher : Option (RatesFetcher S))
    (defaults : List Text) where
  routed-found :
      (e : Endpoint) (r : Request) (s : S)
      → web.route route_table r ≡ found e
      → routed web repo fetcher defaults r s ≡ endpoint_reply web repo fetcher defaults e r s
  unfolding routed found_reply
  routed-found e r s h = rw h refl

  pub routed-fetch :
      (r : Request) (request : Option FetchRatesRequest) (s : S)
      → web.route route_table r ≡ found fetch_rates
      → web.decode r ≡ body_of request
      → let out = post_rates_fetch fetcher defaults request s in
        routed web repo fetcher defaults r s ≡ (visit_fetch out.0, out.1)
  unfolding endpoint_reply serve_fetch april_homework.Server.Api.strict_post_rates_fetch
  routed-fetch r none s h d =
      routed-found fetch_rates r s h ∙ ap (λ b. serve_fetch fetcher defaults b s) d
  routed-fetch r (some b) s h d =
      routed-found fetch_rates r s h ∙ ap (λ b. serve_fetch fetcher defaults b s) d

  pub routed-list :
      (r : Request) (s : S)
      → web.route route_table r ≡ found list_rates
      → routed web repo fetcher defaults r s ≡ (answer_of (repo.latest_rates s), s)
  unfolding endpoint_reply
  routed-list r s h =
      routed-found list_rates r s h ∙ ap (λ x. (x, s)) (serve_rates-answer_of repo s)

  pub routed-history :
      (r : Request) (raw : Text) (limit : Option ℤ) (s : S)
      → web.route route_table r ≡ found rate_history
      → web.bind r
        ≡ record { currency = ok raw; from_date = ok none; to_date = ok none; limit = ok limit }
      → byte_len (canonical raw) ≡ 3
      → routed web repo fetcher defaults r s
        ≡ (answer_of (repo.history (canonical raw) none none (limit_or_zero repo limit) s), s)
  unfolding endpoint_reply serve_history bind_history
  routed-history r raw limit s h b three =
      routed-found rate_history r s h
      ∙ ap (λ x. (serve_history repo x.currency x.from_date x.to_date x.limit s, s)) b
      ∙ ap (λ x. (x, s))
          (history-answer_of repo raw (record { from_date = none; to_date = none; limit = limit }) s
            three)

  module _ (redis : Redis) (connected enabled : Bool) (limit : ℤ) where
    decided-200 :
        (d : Bool × redis.State) (r : Request) (s : S)
        → let out = decided web repo fetcher defaults redis connected enabled limit d r s in
          out.0.status ≡ 200
          → (out.0 ≡ (routed web repo fetcher defaults r s).0)
            × (out.1 ≡ (routed web repo fetcher defaults r s).1)
    decided-200 (true, c) r s h = (refl, refl)
    decided-200 (false, c) r s h = absurd (omega arith)

    -- A request that is answered with 200 was not limited.
    pub serve_http-200 :
        (request : Request) (s : S) (c : redis.State)
        → let out =
            serve_http web repo fetcher defaults redis connected enabled limit request s c in
          out.0.status ≡ 200
          → (out.0 ≡ (routed web repo fetcher defaults (web.real_ip request) s).0)
            × (out.1 ≡ (routed web repo fetcher defaults (web.real_ip request) s).1)
    unfolding serve_http
    serve_http-200 request s c = elim (Bool-cases (enabled && connected)) [
      | inl on ↦ rw on (decided-200 _ (web.real_ip request) s)
      | inr off ↦ rw off (λ h. (refl, refl))
    ]
