-- ===== src/Fetcher/Fetching.antt =====
-- FetchCurrency: what stands behind a rate that it returns.
use april_homework.Common.{
  ◌≡◌, subst, inl, inr, Text, ok, >>=-eq-ok, wrap-eq-ok, take, Bool-cases, ==_iff, ◌==◌,
}
use april_homework.Strings.{canonical}
use april_homework.Strings.Laws.{canonical_idem}
use april_homework.Entities.{ExchangeRate}
use april_homework.Fetcher.{
  RssFeed, Response, Platform, parse_bank_lv_rss, read_response, fetch_currency,
}
use april_homework.Fetcher.Scan.{IsLatest}
use april_homework.Fetcher.Feed.{parse_bank_lv_rss-IsLatest}

read_response-ok :
    (platform : Platform) (currency : Text) (response : Response) (r : ExchangeRate)
    → read_response platform currency response ≡ ok r
    → (response.status_code ≡ 200)
      × (parse_bank_lv_rss platform (take 2097152 response.body) currency platform.now ≡ ok r)
unfolding read_response
read_response-ok platform currency response r h = elim (Bool-cases (response.status_code == 200)) [
  | inl e ↦ ((==_iff response.status_code 200).0 e, rw e at h)
  | inr e ↦ cc (rw e at h)
]

-- When FetchCurrency returns a rate, the request was made and answered with status 200, the first
-- 2097152 bytes of the body were decoded as a feed, and the rate is the one of an item of the feed
-- that mentions the canonical code, none of those items being later.
pub fetch_currency-IsLatest :
    (platform : Platform) (url raw : Text) (r : ExchangeRate)
    → fetch_currency platform url raw ≡ ok r
    → (request : Text) × (response : Response) × (feed : RssFeed) × (platform.new_request url
        ≡ ok request)
      × (platform.do_request request ≡ ok response)
      × (response.status_code ≡ 200)
      × (platform.decode_xml (take 2097152 response.body) ≡ ok feed)
      × IsLatest platform (canonical raw) platform.now feed.channel.items r
unfolding fetch_currency
fetch_currency-IsLatest platform url raw r h =
    let (request, made, h') = >>=-eq-ok _ _ h in
    let (response, answered, h'') = >>=-eq-ok _ _ h' in
    let (status, parsed) = read_response-ok platform (canonical raw) response r h'' in
    let (feed, decoded, latest) =
      parse_bank_lv_rss-IsLatest platform (take 2097152 response.body) (canonical raw) platform.now
        r parsed in
    (
      request,
      response,
      feed,
      wrap-eq-ok _ _ made,
      wrap-eq-ok _ _ answered,
      status,
      decoded,
      subst (λ c. IsLatest platform c platform.now feed.channel.items r) (canonical_idem raw)
          latest,
    )
