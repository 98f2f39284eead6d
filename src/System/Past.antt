-- ===== src/System/Past.antt =====
-- The whole service: the history after a POST that has fetched and stored.
use mathlib.Core.List.{Perm}
use mathlib.Core.Logic.{∥∥₁_map}
use april_homework.Common.{
  ◌≡◌, sym, subst, ap, ◌∙◌, List, ◌∷◌, Text, Option, none, some, true, Result, ok,
}
use april_homework.Common.Int.{ℤ}
use april_homework.Strings.{byte_len, canonical}
use april_homework.Entities.{ExchangeRate}
use april_homework.Ingestion.{FetchOutcome}
use april_homework.Repository.{Database, history, upsert_rates}
use april_homework.Repository.Table.{IsUnique}
use april_homework.Repository.Postgres.{IsPostgres}
use april_homework.Repository.Sorting.{Permᴰ-In}
use april_homework.Repository.Overlay.{IsHeld}
use april_homework.Repository.ReadBack.{IsNewest, IsReadAs}
use april_homework.Repository.ReadHistory.{upsert_rates-history}
use april_homework.Config.{Config}
use april_homework.System.{ingest}
use april_homework.System.Handler.{repository_of, new_server}
use april_homework.System.Stored.{Perm-IsNewest, asked_rates, server-IsStored}
use april_homework.System.Listing.{answer_of-200}
use april_homework.Server.Api.{FetchRatesRequest}
use april_homework.Server.{Request, limit_or_zero}
use april_homework.Server.Limiter.{Redis}
use april_homework.Server.Answers.{rates_reply, answer_of-IsAnswerTo}
use april_homework.Server.Shown.{IsListing}
use april_homework.Server.Accepted.{body_of, routed-history, serve_http-200}
use april_homework.Server.Routes.{Bound, found, Web, fetch_rates, rate_history, route_table}

-- The parameters of a history without dates.
abbrev pub undated : Text → Option ℤ → Bound
undated raw limit = record {
  currency = ok raw;
  from_date = ok none;
  to_date = ok none;
  limit = ok limit;
}

module _ (db : Database) (order : List ExchangeRate → List ExchangeRate)
    (ping : db.World → Option Text) (web : Web) (redis : Redis) (fetch : Text → Result ExchangeRate)
    (drain : List FetchOutcome → List FetchOutcome) (cfg : Config) where
  server-past :
      (get : Request) (raw : Text) (limit : Option ℤ) (w : db.World) (c : redis.State)
      → web.route route_table (web.real_ip get) ≡ found rate_history
      → web.bind (web.real_ip get) ≡ undated raw limit
      → byte_len (canonical raw) ≡ 3
      → (new_server db order ping web redis fetch drain cfg get w c).0.status ≡ 200
      → (out : List ExchangeRate) × (history db
            (canonical raw)
            none
            none
            (limit_or_zero (repository_of db order ping) limit)
            w
          ≡ ok out)
        × ((new_server db order ping web redis fetch drain cfg get w c).0 ≡ rates_reply out)
  unfolding new_server repository_of
  server-past get raw limit w c route bound three h =
      let repo = repository_of db order ping in
      let fetcher = some (ingest db fetch drain) in
      let (reply, world) =
        serve_http-200 web repo fetcher cfg.fetcher.currencies redis true cfg.rate_limit.enabled
          cfg.rate_limit.limit get w c h in
      let e =
        reply
        ∙ ap (λ x. x.0)
            (routed-history web repo fetcher cfg.fetcher.currencies (web.real_ip get) raw limit w
              route bound three) in
      let (out, read, shown) =
        answer_of-200 (history db (canonical raw) none none (limit_or_zero repo limit) w)
          (ap (λ x. x.status) (sym e) ∙ h) in
      (out, read, e ∙ shown)

-- On PostgreSQL, for every order of arrival, and whatever the limiter counts: when a POST that the
-- router gives to the fetch is answered with 200, and a GET that it gives to the history of a code
-- of three bytes, without dates and with any limit, then is too, the GET shows a list of rates, each
-- of them field by field and in order, of which the first has the fields of `r`. Here `r` is a rate
-- that the POST had fetched for this code, and no other one fetched for it is as new, nor any row of
-- the table with another key; its decimal text is how the repository prints the amount of it; the
-- columns hold the rates that were fetched as they are; and no two rows of the table had the same
-- key.
pub new_server_past :
    (db : Database) (pg : IsPostgres db) (order : List ExchangeRate → List ExchangeRate)
    (ping : db.World → Option Text) (web : Web) (redis : Redis) (fetch : Text → Result ExchangeRate)
    (drain : List FetchOutcome → List FetchOutcome)
    (any_order : (os : List FetchOutcome) → Perm (drain os) os) (cfg : Config) (post get : Request)
    (request : Option FetchRatesRequest) (raw : Text) (limit : Option ℤ) (w : db.World)
    (c c' : redis.State) (r : ExchangeRate)
    → web.route route_table (web.real_ip post) ≡ found fetch_rates
    → web.decode (web.real_ip post) ≡ body_of request
    → web.route route_table (web.real_ip get) ≡ found rate_history
    → web.bind (web.real_ip get) ≡ undated raw limit
    → byte_len (canonical raw) ≡ 3
    → r.quote_currency ≡ canonical raw
    → IsUnique (pg.committed w)
    → IsHeld db pg w (asked_rates fetch cfg request)
    → IsNewest r (asked_rates fetch cfg request) (pg.committed w)
    → ((a : db.Amount) → db.parse_amount r.rate ≡ ok a → db.string_fixed a ≡ r.rate)
    → (new_server db order ping web redis fetch drain cfg post w c).0.status ≡ 200
    → (new_server db order ping web redis fetch drain cfg get
        (new_server db order ping web redis fetch drain cfg post w c).1
        c').0.status
      ≡ 200
    → (out : List ExchangeRate) × IsListing out
        (new_server db order ping web redis fetch drain cfg get
          (new_server db order ping web redis fetch drain cfg post w c).1
          c').0
      × ∥ ((x : ExchangeRate) × (rest : List ExchangeRate) × (out ≡ x ∷ rest) × IsReadAs r x) ∥₁
new_server_past db pg order ping web redis fetch drain any_order cfg post get request raw limit w c
      c' r posted body got bound three code unique held newest printed h k =
    let stored =
      server-IsStored db order ping web redis fetch drain cfg post request w c r any_order posted
        body newest.member h in
    let (out, read, shown) =
      server-past db order ping web redis fetch drain cfg get raw limit
        (new_server db order ping web redis fetch drain cfg post w c).1 c' got bound three k in
    let bounded = limit_or_zero (repository_of db order ping) limit in
    (
      out,
      subst (IsListing out) (sym shown) (answer_of-IsAnswerTo (ok out)),
      ∥∥₁_map stored.order (λ p.
          upsert_rates-history db pg bounded w stored.saved out r unique
            (λ q n s i. held q n s (Permᴰ-In p q i))
            (Perm-IsNewest r stored.saved (asked_rates fetch cfg request) (pg.committed w) p newest)
            printed stored.accepted
            (ap (λ q. history db q none none bounded (upsert_rates db stored.saved w).1) code
              ∙ ap (history db (canonical raw) none none bounded) (sym stored.world)
              ∙ read)),
    )
