-- ===== src/System/Listing.antt =====
-- The whole service: the list of rates after a POST that has fetched and stored.
use mathlib.Core.List.{Perm, Permᴰ}
use mathlib.Core.Logic.{∥∥₁_map}
use april_homework.Common.{
  ◌≡◌, refl, sym, subst, ap, ◌∙◌, List, Text, Option, some, true, Result, ok, err, In, arith,
}
use april_homework.Entities.{ExchangeRate}
use april_homework.Ingestion.{FetchOutcome}
use april_homework.Repository.{Database, latest_rates}
use april_homework.Repository.Table.{IsUnique}
use april_homework.Repository.Postgres.{IsPostgres}
use april_homework.Repository.Sorting.{Permᴰ-In}
use april_homework.Repository.Overlay.{IsHeld}
use april_homework.Repository.ReadBack.{IsNewest, IsReadAs, upsert_rates-latest_rates}
use april_homework.Config.{Config}
use april_homework.System.{ingest}
use april_homework.System.Handler.{repository_of, new_server}
use april_homework.Server.Api.{FetchRatesRequest}
use april_homework.Server.{Request}
use april_homework.Server.Limiter.{Redis}
use april_homework.Server.Answers.{answer_of, rates_reply, answer_of-IsAnswerTo}
use april_homework.Server.Shown.{IsListing}
use april_homework.Server.Routes.{found, Web, fetch_rates, list_rates, route_table}
use april_homework.Server.Accepted.{body_of, routed-list, serve_http-200}
use april_homework.System.Stored.{Perm-IsNewest, asked_rates, server-IsStored}

-- What is read from the repository is shown where the answer is 200.
pub answer_of-200 :
    (m : Result (List ExchangeRate))
    → (answer_of m).status ≡ 200
    → (out : List ExchangeRate) × (m ≡ ok out) × (answer_of m ≡ rates_reply out)
answer_of-200 (ok out) h = (out, refl, refl)
answer_of-200 (err e) h = absurd (omega arith)

module _ (db : Database) (order : List ExchangeRate → List ExchangeRate)
    (ping : db.World → Option Text) (web : Web) (redis : Redis) (fetch : Text → Result ExchangeRate)
    (drain : List FetchOutcome → List FetchOutcome) (cfg : Config) where
  server-listed :
      (get : Request) (w : db.World) (c : redis.State)
      → web.route route_table (web.real_ip get) ≡ found list_rates
      → (new_server db order ping web redis fetch drain cfg get w c).0.status ≡ 200
      → (out : List ExchangeRate) × (latest_rates db order w ≡ ok out)
        × ((new_server db order ping web redis fetch drain cfg get w c).0 ≡ rates_reply out)
  unfolding new_server repository_of
  server-listed get w c route h =
      let fetcher = some (ingest db fetch drain) in
      let (reply, world) =
        serve_http-200 web (repository_of db order ping) fetcher cfg.fetcher.currencies redis true
          cfg.rate_limit.enabled cfg.rate_limit.limit get w c h in
      let e =
        reply
        ∙ ap (λ x. x.0)
            (routed-list web (repository_of db order ping) fetcher cfg.fetcher.currencies
              (web.real_ip get) w route) in
      let (out, read, shown) =
        answer_of-200 (latest_rates db order w) (ap (λ x. x.status) (sym e) ∙ h) in
      (out, read, e ∙ shown)

-- On PostgreSQL, for every order of arrival and of the range over the map, and whatever the limiter
-- counts: when a POST that the router gives to the fetch is answered with 200, and a GET that it
-- gives to the latest rates then is too, the GET shows a list of rates, each of them field by field
-- and in order, with a rate that has the fields of `r`. Here `r` is a rate that the POST had
-- fetched, and no other one fetched for its currency is as new, nor any row of the table with another
-- key; its decimal text is how the repository prints the amount of it; the columns hold the rates
-- that were fetched as they are; and no two rows of the table had the same key.
pub new_server_lists :
    (db : Database) (pg : IsPostgres db) (order : List ExchangeRate → List ExchangeRate)
    (visits_all : (l : List ExchangeRate) → Permᴰ l (order l)) (ping : db.World → Option Text)
    (web : Web) (redis : Redis) (fetch : Text → Result ExchangeRate)
    (drain : List FetchOutcome → List FetchOutcome)
    (any_order : (os : List FetchOutcome) → Perm (drain os) os) (cfg : Config) (post get : Request)
    (request : Option FetchRatesRequest) (w : db.World) (c c' : redis.State) (r : ExchangeRate)
    → web.route route_table (web.real_ip post) ≡ found fetch_rates
    → web.decode (web.real_ip post) ≡ body_of request
    → web.route route_table (web.real_ip get) ≡ found list_rates
    → IsUnique (pg.committed w)
    → IsHeld db pg w (asked_rates fetch cfg request)
    → IsNewest r (asked_rates fetch cfg request) (pg.committed w)
    → ((a : db.Amount) → db.parse_amount r.rate ≡ ok a → db.string_fixed a ≡ r.rate)
    → (new_server db order ping web redis fetch drain cfg post w c).0.status ≡ 200
    → (new_server db order ping web redis fetch drain cfg get
        (new_server db order ping web redis fetch drain cfg post w c).1
        c').0.status
      ≡ 200
    → (out : List ExchangeRate) × IsListing out
        (new_server db order ping web redis fetch drain cfg get
          (new_server db order ping web redis fetch drain cfg post w c).1
          c').0
      × ∥ ((x : ExchangeRate) × In x out × IsReadAs r x) ∥₁
new_server_lists db pg order visits_all ping web redis fetch drain any_order cfg post get request w
      c c' r posted body listed unique held newest printed h k =
    let stored =
      server-IsStored db order ping web redis fetch drain cfg post request w c r any_order posted
        body newest.member h in
    let (out, read, shown) =
      server-listed db order ping web redis fetch drain cfg get
        (new_server db order ping web redis fetch drain cfg post w c).1 c' listed k in
    (
      out,
      subst (IsListing out) (sym shown) (answer_of-IsAnswerTo (ok out)),
      ∥∥₁_map stored.order (λ p.
          upsert_rates-latest_rates db pg order visits_all w stored.saved out r unique
            (λ q n s i. held q n s (Permᴰ-In p q i))
            (Perm-IsNewest r stored.saved (asked_rates fetch cfg request) (pg.committed w) p newest)
            printed stored.accepted (ap (latest_rates db order) (sym stored.world) ∙ read)),
    )
