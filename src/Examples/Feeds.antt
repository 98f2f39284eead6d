-- ===== src/Examples/Feeds.antt =====
-- A feed of two items, of which the second is the later one, over concrete parsers.
use april_homework.Common.{
  subst, some_inj, Bool-cases, inr, ◌≡◌, ◌<◌, ◌≤◌, ◌+◌, ◌-◌, ◌*◌, ◌++◌, ℕ, refl, inl, [], ◌∷◌, Text,
  codes, Option, none, some, true, false, ok, err, All, length, arith, if◌then◌else◌,
}
use april_homework.Strings.{
  canonical, text_eq, print_nat, fields, replace_char, to_upper, trim_space, contains, equal_fold,
}
use april_homework.Time.{Time, zero_time, start_of_day, after, is_zero}
use april_homework.Entities.{ExchangeRate}
use april_homework.Fetcher.{
  Response, RssItem, fetch_currency, RssFeed, Layout, Platform, mentions, parse_bank_lv_rss,
  parse_rss_date, item_text,
}
use april_homework.Fetcher.Rational.{Rat, zeros, float_string, not_positive}
use april_homework.Fetcher.Rate.{clean_token, match_number, normalize_rate, extract_rate}
use april_homework.Fetcher.Normalizing.{normalize_rate_rounds}
use april_homework.Fetcher.Extract.{Beside, IsPrinted, extract_rate-IsPrinted}
use april_homework.Fetcher.Underflow.{normalize_rate-tiny}
use april_homework.Fetcher.Scan.{IsLatest, extract}
use april_homework.Fetcher.Feed.{parse_bank_lv_rss-IsLatest, parse_bank_lv_rss_total}
use april_homework.Fetcher.Fetching.{fetch_currency-IsLatest}

-- 5/4 for "1.25", and a number below the last digit for "1e-9".
abbrev numbers : Text → Option Rat
numbers t =
    if text_eq t (codes "1.25")
    then some (record { negative = false; num = 5; den = 4 })
    else if text_eq t (codes "1e-9")
    then some (record { negative = false; num = 1; den = 1000000000 })
    else none

abbrev days : Layout → Text → Option Time
days layout t =
    if text_eq t (codes "d1")
    then some (start_of_day 1)
    else if text_eq t (codes "d2")
    then some (start_of_day 2)
    else none

abbrev item_of : Text → Text → RssItem
item_of description date = record {
  title = codes "";
  description = description;
  pub_date = date;
  date = codes "";
}

abbrev item : RssItem
item = item_of (codes "USD 1,25 GBP") (codes "d1")

abbrev feed : RssFeed
feed = record { channel = record { items = item ∷ item_of (codes "USD 1.25") (codes "d2") ∷ [] } }

abbrev parsers : Platform
parsers = record {
  decode_xml = λ _. ok feed;
  set_string = numbers;
  parse_time = days;
  new_request = ok;
  do_request = λ _. err (codes "offline");
  now = zero_time;
}

numbers_positive : (t : Text) (r : Rat) → numbers t ≡ some r → 0 < r.den
numbers_positive t r h = elim (Bool-cases (text_eq t (codes "1.25"))) [
  | inl e ↦ subst (λ x. 0 < x.den) (some_inj (rw e at h)) (omega arith)
  | inr e ↦ elim (Bool-cases (text_eq t (codes "1e-9"))) [
    | inl f ↦ subst (λ x. 0 < x.den) (some_inj (rw (e, f) at h)) (omega arith)
    | inr f ↦ cc (rw (e, f) at h)
  ]
]

normalized : normalize_rate numbers (codes "(1.25);") (codes "USD") ≡ ok (codes "1.25000000")
unfolding normalize_rate not_positive float_string print_nat text_eq
normalized = refl

normalize_rate_rounds_example :
    (rat : Rat) × (whole : ℕ) × (frac : ℕ) × (digits : Text) × (numbers
        (clean_token (codes "(1.25);"))
      ≡ some rat)
    × (rat.negative ≡ false)
    × (0 < rat.num)
    × (codes "1.25000000" ≡ print_nat whole ++ (b'.' ∷ digits))
    × (digits ≡ zeros (8 - length (print_nat frac)) (print_nat frac))
    × (length digits ≡ 8)
    × (frac < 100000000)
    × (2 * (rat.num * 100000000) < 2 * (rat.den * (whole * 100000000 + frac)) + rat.den)
    × (2 * (rat.den * (whole * 100000000 + frac)) ≤ 2 * (rat.num * 100000000) + rat.den)
normalize_rate_rounds_example =
    normalize_rate_rounds numbers numbers_positive (codes "(1.25);") (codes "USD")
      (codes "1.25000000") normalized

extracted : extract_rate numbers (codes "(USD) 1,25;") (codes "USD") ≡ ok (codes "1.25000000")
unfolding extract_rate fields replace_char equal_fold not_positive float_string print_nat
extracted = refl

extract_rate-IsPrinted_example :
    (token : Text) × Beside
      (codes "USD")
      token
      (fields (replace_char b',' b'.' (codes "(USD) 1,25;")))
    × IsPrinted numbers token (codes "1.25000000")
extract_rate-IsPrinted_example =
    extract_rate-IsPrinted numbers (codes "(USD) 1,25;") (codes "USD") (codes "1.25000000")
      extracted

tiny-digit : match_number (clean_token (codes "1e-9")) ≡ true
unfolding match_number clean_token
tiny-digit = refl

tiny-parsed :
    numbers (clean_token (codes "1e-9"))
    ≡ some (record { negative = false; num = 1; den = 1000000000 })
unfolding clean_token text_eq
tiny-parsed = refl

normalize_rate-tiny_example :
    normalize_rate numbers (codes "1e-9") (codes "USD") ≡ ok (codes "0.00000000")
normalize_rate-tiny_example =
    normalize_rate-tiny numbers (codes "1e-9") (codes "USD")
      (record { negative = false; num = 1; den = 1000000000 }) tiny-digit tiny-parsed refl
      (omega arith) (omega arith)

abbrev found : ExchangeRate
found = record {
  id = [];
  base_currency = codes "EUR";
  quote_currency = codes "USD";
  rate = codes "1.25000000";
  effective_date = start_of_day 2;
  source = codes "bank.lv/ecb_rss";
  source_published_at = start_of_day 2;
}

feed-found : parse_bank_lv_rss parsers (codes "<rss>") (codes " usd") zero_time ≡ ok found
unfolding parse_bank_lv_rss contains to_upper trim_space extract_rate fields replace_char equal_fold
    not_positive after is_zero parse_rss_date float_string print_nat
feed-found = refl

parse_bank_lv_rss-IsLatest_example :
    (f : RssFeed) × (ok feed ≡ ok f)
    × IsLatest parsers (canonical (codes " usd")) zero_time f.channel.items found
parse_bank_lv_rss-IsLatest_example =
    parse_bank_lv_rss-IsLatest parsers (codes "<rss>") (codes " usd") zero_time found feed-found

item-mentions : mentions (canonical (codes " usd")) item ≡ true
unfolding mentions contains to_upper trim_space
item-mentions = refl

all-good :
    All
      (λ i.
        mentions (canonical (codes " usd")) i ≡ true
        → (v : Text) × (extract parsers (canonical (codes " usd")) zero_time i ≡ ok v))
      feed.channel.items
unfolding extract_rate fields replace_char item_text equal_fold trim_space not_positive float_string
    print_nat
all-good = ((λ _. (codes "1.25000000", refl)), ((λ _. (codes "1.25000000", refl)), tt))

parse_bank_lv_rss_total_example :
    (r : ExchangeRate) × (parse_bank_lv_rss parsers (codes "<rss>") (codes " usd") zero_time ≡ ok r)
parse_bank_lv_rss_total_example =
    parse_bank_lv_rss_total parsers (codes "<rss>") (codes " usd") zero_time feed item refl
      (inl refl) item-mentions all-good

abbrev page : Response
page = record { status_code = 200; body = codes "<rss>" }

abbrev pub online : Platform
online = record parsers { do_request = λ _. ok page }

online-found : fetch_currency online (codes "https://feed") (codes " usd") ≡ ok found
unfolding fetch_currency contains to_upper trim_space extract_rate fields replace_char equal_fold
    not_positive after is_zero parse_rss_date float_string print_nat
online-found = refl

fetch_currency-IsLatest_example :
    (request : Text) × (response : Response) × (f : RssFeed) × (ok (codes "https://feed")
      ≡ ok request)
    × (ok page ≡ ok response)
    × (response.status_code ≡ 200)
    × (ok feed ≡ ok f)
    × IsLatest online (canonical (codes " usd")) zero_time f.channel.items found
fetch_currency-IsLatest_example =
    fetch_currency-IsLatest online (codes "https://feed") (codes " usd") found online-found
