-- ===== src/Server/Routing.antt =====
-- The whole handler: which requests can change the store, and what it says of errors.
use april_homework.Common.{
  ◌≡◌, ◌≢◌, refl, sym, ap, ◌∙◌, inl, inr, List, Text, codes, Option, some, Bool, true, false, ◌&&◌,
  In, All, In-All, Bool-cases,
}
use april_homework.Common.Int.{ℤ}
use april_homework.Server.{RatesRepository, RatesFetcher, Request}
use april_homework.Server.Limiter.{Redis, rate_limit}
use april_homework.Server.Routes.{
  Endpoint, health_check, docs_redirect, list_rates, fetch_rates, rate_history, docs_files,
  docs_home, Route, Found, found, method_not_allowed, unmatched, Web, route_table, endpoint_reply,
  found_reply, routed, decided, serve_http,
}

-- The router finds an endpoint only by a route of the table that has no method or that of the
-- request; and RealIP leaves the method as it is.
pub record IsRouter (web : Web) : Type 0 where
  pub by_route :
      (table : List Route) (r : Request) (e : Endpoint)
      → web.route table r ≡ found e
      → (p : Route) × In p table
        × (p.endpoint ≡ e)
        × ((m : Text) → p.method ≡ some m → m ≡ r.method)
  pub real_ip_method : (r : Request) → (web.real_ip r).method ≡ r.method

abbrev PostOnly : Route → Type 0
PostOnly p = p.endpoint ≡ fetch_rates → p.method ≡ some (codes "POST")

-- A route of the table that fetches has the method POST.
route_table-PostOnly : All PostOnly route_table
unfolding route_table
route_table-PostOnly =
    ((λ e. cc), ((λ e. cc), ((λ e. cc), ((λ e. refl), ((λ e. cc), ((λ e. cc), ((λ e. cc), tt)))))))

endpoint_unchanged :
    {S : Type 0} (web : Web) (repo : RatesRepository S) (fetcher : Option (RatesFetcher S))
    (defaults : List Text) (e : Endpoint) (r : Request) (s : S)
    → e ≢ fetch_rates
    → (endpoint_reply web repo fetcher defaults e r s).1 ≡ s
unfolding endpoint_reply
endpoint_unchanged web repo fetcher defaults health_check r s h = refl
endpoint_unchanged web repo fetcher defaults docs_redirect r s h = refl
endpoint_unchanged web repo fetcher defaults list_rates r s h = refl
endpoint_unchanged web repo fetcher defaults fetch_rates r s h = absurd (h refl)
endpoint_unchanged web repo fetcher defaults rate_history r s h = refl
endpoint_unchanged web repo fetcher defaults docs_files r s h = refl
endpoint_unchanged web repo fetcher defaults docs_home r s h = refl

found_unchanged :
    {S : Type 0} (web : Web) (repo : RatesRepository S) (fetcher : Option (RatesFetcher S))
    (defaults : List Text) (f : Found) (r : Request) (s : S)
    → f ≢ found fetch_rates
    → (found_reply web repo fetcher defaults f r s).1 ≡ s
unfolding found_reply
found_unchanged web repo fetcher defaults (found e) r s h =
    endpoint_unchanged web repo fetcher defaults e r s (λ k. h (ap found k))
found_unchanged web repo fetcher defaults method_not_allowed r s h = refl
found_unchanged web repo fetcher defaults unmatched r s h = refl

routed_unchanged :
    {S : Type 0} (web : Web) (repo : RatesRepository S) (fetcher : Option (RatesFetcher S))
    (defaults : List Text) (r : Request) (s : S)
    → IsRouter web
    → r.method ≢ codes "POST"
    → (routed web repo fetcher defaults r s).1 ≡ s
unfolding routed
routed_unchanged web repo fetcher defaults r s router other =
    found_unchanged web repo fetcher defaults (web.route route_table r) r s (λ h.
      let (p, i, e, m) = router.by_route route_table r fetch_rates h in
      other (sym (m (codes "POST") (In-All PostOnly p route_table route_table-PostOnly i e))))

module _ {S : Type 0} (web : Web) (repo : RatesRepository S) (fetcher : Option (RatesFetcher S))
    (defaults : List Text) (redis : Redis) (connected enabled : Bool) (limit : ℤ) where
  decided_unchanged :
      (d : Bool × redis.State) (r : Request) (s : S)
      → (routed web repo fetcher defaults r s).1 ≡ s
      → (decided web repo fetcher defaults redis connected enabled limit d r s).1 ≡ s
  decided_unchanged (true, c) r s h = h
  decided_unchanged (false, c) r s h = refl

  decided_rejected :
      (d : Bool × redis.State) (r : Request) (s : S)
      → d.0 ≡ false
      → ((decided web repo fetcher defaults redis connected enabled limit d r s).1 ≡ s)
        × ((decided web repo fetcher defaults redis connected enabled limit d r s).0.status ≡ 429)
  decided_rejected (true, c) r s h = cc
  decided_rejected (false, c) r s h = (refl, refl)

-- Over a router that keeps to its table: a request whose method is not POST leaves the store as it
-- was, whichever route it takes and whether it is limited or not; and a request that an enabled
-- limiter rejects is answered with 429 and leaves the store as it was, whatever its method.
pub serve_http_unchanged :
    {S : Type 0} (web : Web) (repo : RatesRepository S) (fetcher : Option (RatesFetcher S))
    (defaults : List Text) (redis : Redis) (connected enabled : Bool) (limit : ℤ)
    (request : Request) (s : S) (c : redis.State)
    → IsRouter web
    → let out = serve_http web repo fetcher defaults redis connected enabled limit request s c in
      (request.method ≢ codes "POST" → out.1 ≡ s)
      × ((enabled && connected) ≡ true
          → (rate_limit redis web.split_host_port limit (web.real_ip request) c).0 ≡ false
          → (out.1 ≡ s) × (out.0.status ≡ 429))
unfolding serve_http
serve_http_unchanged web repo fetcher defaults redis connected enabled limit request s c router =
    let r = web.real_ip request in
    let unchanged = λ (other : request.method ≢ codes "POST").
      routed_unchanged web repo fetcher defaults r s router
        (λ h. other (sym (router.real_ip_method request) ∙ h)) in
    elim (Bool-cases (enabled && connected)) [
      | inl on ↦ rw on (
        λ other.
            decided_unchanged web repo fetcher defaults redis connected enabled limit _ r s
              (unchanged other),
        λ _. decided_rejected web repo fetcher defaults redis connected enabled limit _ r s,
      )
      | inr off ↦ rw off (unchanged, λ h. cc (h))
    ]
