-- ===== src/Examples/Served.antt =====
-- A POST that fetches two currencies, and the GET that lists them.
use mathlib.Core.List.Perm
use mathlib.Core.List.Permᴰ
use april_homework.Common.{
  ◌≡◌, refl, sym, subst, List, [], ◌∷◌, Text, codes, none, Result, ok, In, if◌then◌else◌,
}
use april_homework.Strings.{byte_len, canonical, text_eq, split, to_upper, trim_space}
use april_homework.Ingestion.{normalize_currencies}
use april_homework.Ingestion.Settle.{fetched}
use april_homework.Time.{start_of_day, after}
use april_homework.Entities.{ExchangeRate}
use april_homework.Repository.{latest_rates, history}
use april_homework.Repository.Table.{upsert_row}
use april_homework.Server.Routes.{route_table, found, fetch_rates, list_rates, rate_history}
use april_homework.Repository.ReadBack.{IsNewest, IsReadAs}
use april_homework.Config.{Config, config_of}
use april_homework.System.Handler.{new_server}
use april_homework.System.Past.{new_server_past}
use april_homework.System.Stored.{asked_rates}
use april_homework.System.Listing.{new_server_lists}
use april_homework.Server.{Request, choose_currencies}
use april_homework.Server.Shown.{IsListing}
use april_homework.Examples.Memory.{memory, memory_laws}
use april_homework.Examples.Requests.{counters, visit}
use april_homework.Examples.Routes.{web}
use april_homework.Examples.Rows.{dollar, pound, two_rates, amounts, dollar-IsNewest}
use april_homework.Examples.Settings.{input, same, joined}

abbrev cfg : Config
cfg = config_of same joined input

abbrev fetch : Text → Result ExchangeRate
fetch c = if text_eq c (codes "USD") then ok dollar else ok pound

abbrev post : Request
post = record visit { method = codes "POST"; path = codes "/api/v1/rates/fetch" }

abbrev get : Request
get = record visit { path = codes "/api/v1/rates" }

asked : asked_rates fetch cfg none ≡ two_rates
unfolding text_eq fetched normalize_currencies choose_currencies config_of split to_upper trim_space
asked = refl

posted : web.route route_table post ≡ found fetch_rates
unfolding route_table text_eq
posted = refl

got : web.route route_table get ≡ found list_rates
unfolding route_table text_eq
got = refl

post_status :
    (new_server memory
      (λ l. l)
      (λ w. none)
      web
      counters
      fetch
      (λ os. os)
      cfg
      post
      []
      (λ k. 0)).0.status
    ≡ 200
unfolding new_server text_eq config_of split to_upper trim_space
post_status = refl

get_status :
    (new_server memory
      (λ l. l)
      (λ w. none)
      web
      counters
      fetch
      (λ os. os)
      cfg
      get
      (new_server memory (λ l. l) (λ w. none) web counters fetch (λ os. os) cfg post [] (λ k. 0)).1
      (λ k. 1)).0.status
    ≡ 200
unfolding new_server text_eq config_of latest_rates split to_upper trim_space upsert_row after
    start_of_day
get_status = refl

asked-IsNewest : IsNewest {Amount = Text} dollar (asked_rates fetch cfg none) []
asked-IsNewest =
    subst (λ rates. IsNewest {Amount = Text} dollar rates []) (sym asked) dollar-IsNewest

new_server_lists_example :
    (out : List ExchangeRate) × IsListing out
      (new_server memory
        (λ l. l)
        (λ w. none)
        web
        counters
        fetch
        (λ os. os)
        cfg
        get
        (new_server memory
          (λ l. l)
          (λ w. none)
          web
          counters
          fetch
          (λ os. os)
          cfg
          post
          []
          (λ k. 0)).1
        (λ k. 1)).0
    × ∥ ((x : ExchangeRate) × In x out × IsReadAs dollar x) ∥₁
new_server_lists_example =
    new_server_lists memory memory_laws (λ l. l) (λ l. Permᴰ.refl l) (λ w. none) web counters fetch
      (λ os. os) (λ os. Perm.refl os) cfg post get none [] (λ k. 0) (λ k. 1) dollar posted refl got
      tt (λ r n s i h. refl) asked-IsNewest amounts post_status get_status

abbrev get_past : Request
get_past = record visit { path = codes "/api/v1/rates/{currency}/history" }

got_past : web.route route_table get_past ≡ found rate_history
unfolding route_table text_eq
got_past = refl

three_bytes : byte_len (canonical (codes "usd")) ≡ 3
unfolding byte_len to_upper trim_space
three_bytes = refl

dollar_code : dollar.quote_currency ≡ canonical (codes "usd")
unfolding to_upper trim_space
dollar_code = refl

past_status :
    (new_server memory
      (λ l. l)
      (λ w. none)
      web
      counters
      fetch
      (λ os. os)
      cfg
      get_past
      (new_server memory (λ l. l) (λ w. none) web counters fetch (λ os. os) cfg post [] (λ k. 0)).1
      (λ k. 1)).0.status
    ≡ 200
unfolding new_server text_eq config_of history split to_upper trim_space upsert_row after
    start_of_day byte_len
past_status = refl

new_server_past_example :
    (out : List ExchangeRate) × IsListing out
      (new_server memory
        (λ l. l)
        (λ w. none)
        web
        counters
        fetch
        (λ os. os)
        cfg
        get_past
        (new_server memory
          (λ l. l)
          (λ w. none)
          web
          counters
          fetch
          (λ os. os)
          cfg
          post
          []
          (λ k. 0)).1
        (λ k. 1)).0
    × ∥ ((x : ExchangeRate) × (rest : List ExchangeRate) × (out ≡ x ∷ rest) × IsReadAs dollar x) ∥₁
new_server_past_example =
    new_server_past memory memory_laws (λ l. l) (λ w. none) web counters fetch (λ os. os)
      (λ os. Perm.refl os) cfg post get_past none (codes "usd") none [] (λ k. 0) (λ k. 1) dollar
      posted refl got_past refl three_bytes dollar_code tt (λ r n s i h. refl) asked-IsNewest
      amounts post_status past_status
