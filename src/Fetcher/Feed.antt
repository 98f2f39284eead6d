-- ===== src/Fetcher/Feed.antt =====
-- What ParseBankLVRSS returns.
use april_homework.Common.{
  ◌≡◌, refl, sym, ap, ◌∙◌, inl, inr, ◌++◌, Text, codes, Option, none, some, true, false, Result, ok,
  err, All, In, Result-cases, ok_inj, ◌>>=◌,
}
use april_homework.Strings.{canonical}
use april_homework.Time.{Time}
use april_homework.Entities.{ExchangeRate}
use april_homework.Fetcher.{
  Bytes, RssItem, RssFeed, Platform, mentions, latest_from, found_or_missing, parse_bank_lv_rss,
}
use april_homework.Fetcher.Scan.{
  IsLatest, extract, Best-IsLatest, latest_from-Best, latest_from-total, latest_from-missing,
  Best-none,
}

module _ (platform : Platform) (reader : Bytes) (raw : Text) (fallback_date : Time) where
  parse-step :
      (feed : RssFeed)
      → platform.decode_xml reader ≡ ok feed
      → parse_bank_lv_rss platform reader raw fallback_date ≡ (
          latest_from platform (canonical raw) fallback_date none feed.channel.items
          >>= found_or_missing (canonical raw))
  unfolding parse_bank_lv_rss
  parse-step feed decoded = rw decoded

  parse-undecoded :
      (e : Text)
      → platform.decode_xml reader ≡ err e
      → parse_bank_lv_rss platform reader raw fallback_date
        ≡ err (codes "decode bank.lv rss: " ++ e)
  unfolding parse_bank_lv_rss
  parse-undecoded e bad = rw bad

  found_or_missing-ok :
      (c : Text) (m : Result (Option ExchangeRate)) (r : ExchangeRate)
      → (m >>= found_or_missing c) ≡ ok r
      → m ≡ ok (some r)
  unfolding found_or_missing
  found_or_missing-ok c (ok (some x)) r h = ap (λ y. ok (some y)) (ok_inj h)
  found_or_missing-ok c (ok none) r h = cc
  found_or_missing-ok c (err e) r h = cc

-- When ParseBankLVRSS returns a rate, the feed was decoded, the rate is the one that an item which
-- mentions the currency gives (with the item's date, or the fallback date if it has none), every
-- item that mentions the currency gives a rate, and none of these has a later effective date.
pub parse_bank_lv_rss-IsLatest :
    (platform : Platform) (reader : Bytes) (raw : Text) (fallback_date : Time) (r : ExchangeRate)
    → parse_bank_lv_rss platform reader raw fallback_date ≡ ok r
    → (feed : RssFeed) × (platform.decode_xml reader ≡ ok feed)
      × IsLatest platform (canonical raw) fallback_date feed.channel.items r
parse_bank_lv_rss-IsLatest platform reader raw fallback_date r h =
    elim (Result-cases (platform.decode_xml reader)) [
      | inl (feed, decoded) ↦ (
        feed,
        decoded,
        Best-IsLatest platform (canonical raw) fallback_date feed.channel.items r (
            latest_from-Best platform (canonical raw) fallback_date feed.channel.items none (some r)
              (found_or_missing-ok platform reader raw fallback_date (canonical raw) _ r
                (sym (parse-step platform reader raw fallback_date feed decoded) ∙ h))),
      )
      | inr (e, bad) ↦ cc (parse-undecoded platform reader raw fallback_date e bad)
    ]

-- On a decoded feed where some item mentions the currency, and every item that does gives a rate,
-- ParseBankLVRSS returns a rate.
pub parse_bank_lv_rss_total :
    (platform : Platform) (reader : Bytes) (raw : Text) (fallback_date : Time) (feed : RssFeed)
    (item : RssItem)
    → platform.decode_xml reader ≡ ok feed
    → In item feed.channel.items
    → mentions (canonical raw) item ≡ true
    → All
        (λ i.
          mentions (canonical raw) i ≡ true
          → (v : Text) × (extract platform (canonical raw) fallback_date i ≡ ok v))
        feed.channel.items
    → (r : ExchangeRate) × (parse_bank_lv_rss platform reader raw fallback_date ≡ ok r)
parse_bank_lv_rss_total platform reader raw fallback_date feed item decoded listed named good =
    let c = canonical raw in
    let items = feed.channel.items in
    let (res, run) = latest_from-total platform c fallback_date items none good in
    let (r, e) =
      Best-none platform c fallback_date items item listed named res
        (latest_from-Best platform c fallback_date items none res run) in
    (
      r,
      parse-step platform reader raw fallback_date feed decoded
          ∙ ap (λ m. m >>= found_or_missing c) (run ∙ ap ok e)
          ∙ (unfold found_or_missing in refl),
    )

-- On a decoded feed where no item mentions the currency, the error says that it was not found.
pub parse_bank_lv_rss-missing :
    (platform : Platform) (reader : Bytes) (raw : Text) (fallback_date : Time) (feed : RssFeed)
    → platform.decode_xml reader ≡ ok feed
    → All (λ i. mentions (canonical raw) i ≡ false) feed.channel.items
    → parse_bank_lv_rss platform reader raw fallback_date
      ≡ err (codes "currency " ++ canonical raw ++ codes " not found")
unfolding found_or_missing
parse_bank_lv_rss-missing platform reader raw fallback_date feed decoded none_mentions =
    parse-step platform reader raw fallback_date feed decoded
    ∙ ap (λ m. m >>= found_or_missing (canonical raw))
        (latest_from-missing platform (canonical raw) fallback_date feed.channel.items none
          none_mentions)
