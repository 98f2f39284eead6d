-- ===== src/System/Stored.antt =====
-- What a POST that is answered with 200 leaves in the database.
use mathlib.Core.List.{Perm, Permᴰ}
use mathlib.Core.List.Perm
use april_homework.Common.{
  ◌≡◌, ◌≢◌, sym, ap, ◌∙◌, subst, List, [], ◌∷◌, Text, Option, none, some, true, Result, In,
}
use april_homework.Entities.{ExchangeRate}
use april_homework.Ingestion.{FetchOutcome, normalize_currencies, fetch_and_store}
use april_homework.Ingestion.Settle.{fetched}
use april_homework.Ingestion.Outcome.{fetch_and_store-IsReport}
use april_homework.Repository.{Row, Database, upsert_rates}
use april_homework.Repository.Sorting.{Permᴰ-In, Permᴰ-In_back}
use april_homework.Repository.ReadBack.{IsNewest}
use april_homework.Config.{Config}
use april_homework.System.{ingest}
use april_homework.System.Handler.{repository_of, new_server}
use april_homework.Server.Api.{FetchRatesRequest, visit_fetch}
use april_homework.Server.{Request, choose_currencies, post_rates_fetch}
use april_homework.Server.Limiter.{Redis}
use april_homework.Server.Fetching.{post_rates_fetch-status}
use april_homework.Server.Routes.{found, Web, fetch_rates, route_table}
use april_homework.Server.Accepted.{body_of, routed-fetch, serve_http-200}

pub Perm-IsNewest :
    {Amount : Type 0} (r : ExchangeRate) (saved rates : List ExchangeRate)
    (rows : List (Row Amount))
    → Permᴰ saved rates
    → IsNewest r rates rows
    → IsNewest r saved rows
Perm-IsNewest r saved rates rows p n = record {
  member = Permᴰ-In_back p r n.member;
  in_batch = λ q i. n.in_batch q (Permᴰ-In p q i);
  in_table = n.in_table;
}

In-not_nil : {A : Type 0} (x : A) (xs : List A) → In x xs → xs ≢ []
In-not_nil x [] i e = absurd i
In-not_nil x (y ∷ xs) i e = cc

fetched-some :
    (fetch : Text → Result ExchangeRate) (cs : List Text) (r : ExchangeRate)
    → In r (fetched fetch cs)
    → cs ≢ []
unfolding fetched
fetched-some fetch [] r i e = absurd i
fetched-some fetch (c ∷ cs) r i e = cc

Perm-not_nil : {A : Type 0} (saved rates : List A) → Perm saved rates → rates ≢ [] → saved ≢ []
Perm-not_nil saved rates p some_rate e =
    some_rate (Perm.eq-nil (subst (λ l. Perm rates l) e (Perm.symm p)))

-- The rates that a request makes the service fetch.
abbrev pub asked_rates :
    (Text → Result ExchangeRate) → Config → Option FetchRatesRequest → List ExchangeRate
asked_rates fetch cfg request =
    fetched fetch (normalize_currencies (choose_currencies cfg.fetcher.currencies request))

-- A POST that is answered with 200 leaves the database that UpsertRates leaves, without an error,
-- for the rates that were fetched in some order.
pub record IsStored (db : Database) (rates : List ExchangeRate) (w w' : db.World) : Type 0 where
  pub saved : List ExchangeRate
  pub order : Perm saved rates
  pub accepted : (upsert_rates db saved w).0 ≡ none
  pub world : w' ≡ (upsert_rates db saved w).1

module _ (db : Database) (order : List ExchangeRate → List ExchangeRate)
    (ping : db.World → Option Text) (web : Web) (redis : Redis) (fetch : Text → Result ExchangeRate)
    (drain : List FetchOutcome → List FetchOutcome) (cfg : Config) where
  post-IsStored :
      (request : Option FetchRatesRequest) (w : db.World) (r : ExchangeRate)
      → ((os : List FetchOutcome) → Perm (drain os) os)
      → In r (asked_rates fetch cfg request)
      → (visit_fetch
          (post_rates_fetch
            (some (ingest db fetch drain))
            cfg.fetcher.currencies
            request
            w).0).status
        ≡ 200
      → IsStored db
          (asked_rates fetch cfg request)
          w
          (post_rates_fetch (some (ingest db fetch drain)) cfg.fetcher.currencies request w).1
  unfolding ingest post_rates_fetch
  post-IsStored request w r any_order i h =
      let asked = choose_currencies cfg.fetcher.currencies request in
      let some_code = fetched-some fetch (normalize_currencies asked) r i in
      let report =
        fetch_and_store-IsReport (upsert_rates db) fetch drain asked w any_order some_code in
      let some_rate =
        Perm-not_nil _ (asked_rates fetch cfg request) report.saved (In-not_nil r _ i) in
      let done =
        (post_rates_fetch-status (upsert_rates db) fetch drain cfg.fetcher.currencies request w
            any_order some_code).0.0
          h in
      record {
        saved = (fetch_and_store (upsert_rates db) fetch drain asked w).0.0.saved;
        order = report.saved;
        accepted = done.1 some_rate;
        world = report.stored some_rate;
      }

  pub server-IsStored :
      (post : Request) (request : Option FetchRatesRequest) (w : db.World) (c : redis.State)
      (r : ExchangeRate)
      → ((os : List FetchOutcome) → Perm (drain os) os)
      → web.route route_table (web.real_ip post) ≡ found fetch_rates
      → web.decode (web.real_ip post) ≡ body_of request
      → In r (asked_rates fetch cfg request)
      → (new_server db order ping web redis fetch drain cfg post w c).0.status ≡ 200
      → IsStored db
          (asked_rates fetch cfg request)
          w
          (new_server db order ping web redis fetch drain cfg post w c).1
  unfolding new_server
  server-IsStored post request w c r any_order route body i h =
      let fetcher = some (ingest db fetch drain) in
      let (reply, world) =
        serve_http-200 web (repository_of db order ping) fetcher cfg.fetcher.currencies redis true
          cfg.rate_limit.enabled cfg.rate_limit.limit post w c h in
      let e =
        routed-fetch web (repository_of db order ping) fetcher cfg.fetcher.currencies
          (web.real_ip post) request w route body in
      let stored =
        post-IsStored request w r any_order i
          (ap (λ x. x.status) (sym (reply ∙ ap (λ x. x.0) e)) ∙ h) in
      record {
        saved = stored.saved;
        order = stored.order;
        accepted = stored.accepted;
        world = world ∙ ap (λ x. x.1) e ∙ stored.world;
      }
