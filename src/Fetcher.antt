-- ===== src/Fetcher.antt =====
-- internal/fetcher/banklv.go: fetch the feed of bank.lv and extract the rate of one currency.
-- The HTTP client, the XML decoder, `big.Rat.SetString` and `time.Parse` are parameters, in one
-- record; the text that follows them is translated.
pub mod Rate
pub mod Rational
pub mod Rounding
pub mod Normalizing
pub mod Extract
pub mod Underflow
pub mod Scan
pub mod Feed
pub mod Fetching
use april_homework.Common.{
  ℕ, ◌*◌, ◌^◌, List, [], ◌∷◌, ◌++◌, Text, codes, take, Option, none, some, Bool, true, false,
  Result, ok, err, wrap, ◌==◌, not, if◌then◌else◌, ◌>>=◌,
}
use april_homework.Strings.{to_upper, trim_space, contains, print_nat, text_eq}
use april_homework.Time.{Time, zero_time, is_zero, after, utc, day, start_of_day}
use april_homework.Entities.{ExchangeRate, zero_rate, base_currency}
use april_homework.Fetcher.Rational.{Rat}
use april_homework.Fetcher.Rate.{extract_rate}

abbrev pub bank_lv_source : Text
bank_lv_source = codes "bank.lv/ecb_rss"

pub record RssItem : Type 0 where
  pub title : Text
  pub description : Text
  pub pub_date : Text
  pub date : Text

pub record RssChannel : Type 0 where
  pub items : List RssItem

pub record RssFeed : Type 0 where
  pub channel : RssChannel

pub data Layout : Type 0 where
  rfc1123z rfc1123 rfc3339 date_only_layout : Layout

-- A body, byte by byte; what is read of it is a prefix of its bytes.
abbrev pub Bytes : Type 0
Bytes = List ℕ

pub record Response : Type 0 where
  pub status_code : ℕ
  pub body : Bytes

-- What the fetcher calls and does not implement: xml.Decoder, (*big.Rat).SetString, time.Parse,
-- http.NewRequestWithContext, HTTPDoer.Do and the clock of the fetcher.
pub record Platform : Type 0 where
  pub decode_xml : Bytes → Result RssFeed
  pub set_string : Text → Option Rat
  pub parse_time : Layout → Text → Option Time
  pub new_request : Text → Result Text
  pub do_request : Text → Result Response
  pub now : Time

-- dateOnly: midnight UTC of the day that `t` shows in its location.
unfoldable pub date_only : Time → Time
unfolding start_of_day day
date_only t = start_of_day (day t)

-- The test that leaves an item out.
unfoldable pub mentions : Text → RssItem → Bool
mentions currency item = contains (to_upper (item.title ++ codes " " ++ item.description)) currency

unfoldable pub item_text : RssItem → Text
item_text item = item.title ++ codes " " ++ item.description

-- `if latest == nil || rate.EffectiveDate.After(latest.EffectiveDate) { latest = &rate }`
unfoldable pub newer : Option ExchangeRate → ExchangeRate → ExchangeRate
newer none rate = rate
newer (some latest) rate = if after rate.effective_date latest.effective_date then rate else latest

unfoldable pub found_or_missing : Text → Option ExchangeRate → Result ExchangeRate
found_or_missing currency (some rate) = ok rate
found_or_missing currency none = err (codes "currency " ++ currency ++ codes " not found")

abbrev pub body_limit : ℕ
body_limit = 2 * 1024 * 1024

module _ (platform : Platform) where
  -- The loop over the layouts; the first that fits gives the time.
  unfoldable pub parse_layouts : List Layout → Text → Time
  parse_layouts [] value = zero_time
  parse_layouts (layout ∷ layouts) value = elim (platform.parse_time layout value) [
    | some t ↦ utc t
    | none ↦ parse_layouts layouts value
  ]

  unfoldable pub parse_rss_date : Text → Time
  unfolding parse_layouts
  parse_rss_date raw =
      let value = trim_space raw in
      if text_eq value []
      then zero_time
      else parse_layouts (rfc1123z ∷ rfc1123 ∷ rfc3339 ∷ date_only_layout ∷ []) value

  unfoldable pub published_at : RssItem → Time
  published_at item =
      let published = parse_rss_date item.pub_date in
      if is_zero published then parse_rss_date item.date else published

  unfoldable pub rate_of_item : Text → Time → RssItem → Text → ExchangeRate
  unfolding date_only published_at
  rate_of_item currency fallback_date item rate_value =
      let published = published_at item in
      let effective = if is_zero published then fallback_date else published in
      record {
        id = [];
        base_currency = base_currency;
        quote_currency = currency;
        rate = rate_value;
        effective_date = date_only effective;
        source = bank_lv_source;
        source_published_at = published;
      }

  -- The loop over the items, with `latest`.
  unfoldable pub latest_from :
      Text → Time → Option ExchangeRate → List RssItem → Result (Option ExchangeRate)
  unfolding newer mentions item_text rate_of_item
  latest_from currency fallback_date latest [] = ok latest
  latest_from currency fallback_date latest (item ∷ items) = elim (mentions currency item) [
    | false ↦ latest_from currency fallback_date latest items
    | true ↦ elim (extract_rate platform.set_string (item_text item) currency) [
      | err e ↦ err (codes "parse " ++ currency ++ codes " rate: " ++ e)
      | ok value ↦
          latest_from currency fallback_date
            (some (newer latest (rate_of_item currency fallback_date item value))) items
    ]
  ]

  unfoldable pub parse_bank_lv_rss : Bytes → Text → Time → Result ExchangeRate
  unfolding latest_from found_or_missing
  parse_bank_lv_rss reader raw fallback_date = do
    feed ← wrap (λ e. codes "decode bank.lv rss: " ++ e) (platform.decode_xml reader)
    let currency = to_upper (trim_space raw)
    latest ← latest_from currency fallback_date none feed.channel.items
    found_or_missing currency latest

  unfoldable pub read_response : Text → Response → Result ExchangeRate
  unfolding parse_bank_lv_rss
  read_response currency response =
      if response.status_code == 200
      then parse_bank_lv_rss (take body_limit response.body) currency platform.now
      else err (codes "fetch " ++ currency ++ codes ": status " ++ print_nat response.status_code)

  -- (*BankLVFetcher).FetchCurrency, at the URL of the fetcher
  unfoldable pub fetch_currency : Text → Text → Result ExchangeRate
  unfolding read_response
  fetch_currency url raw = do
    let currency = to_upper (trim_space raw)
    request ← wrap (λ e. codes "create request: " ++ e) (platform.new_request url)
    response ←
        wrap (λ e. codes "fetch " ++ currency ++ codes ": " ++ e) (platform.do_request request)
    read_response currency response

-- NewBankLVFetcher: the default for an empty URL.
unfoldable pub new_bank_lv_fetcher : Text → Text
new_bank_lv_fetcher url = if text_eq url [] then codes "https://www.bank.lv/vk/ecb_rss.xml" else url
