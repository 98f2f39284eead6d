-- ===== src/Examples/Storing.antt =====
-- A batch of two rates, one of them twice, stored in memory and read back; and fetches that store.
use mathlib.Core.List.Perm
use mathlib.Core.List.Permᴰ
use mathlib.Core.List.{Perm}
use april_homework.Common.{
  subst, ℕ, length, ◌≡◌, ◌≢◌, refl, sym, ap, ◌∙◌, inl, inr, List, [], ◌∷◌, Text, codes, Option,
  none, some, Result, ok, err, In, All, if◌then◌else◌, ◌++◌,
}
use april_homework.Common.Int.{pos}
use april_homework.Strings.{canonical, text_eq, text_lt, to_upper, trim_space}
use april_homework.Time.{Time, zero_time, after, start_of_day}
use april_homework.Entities.{ExchangeRate}
use april_homework.Ingestion.{normalize_currencies, fetch_and_store}
use april_homework.Ingestion.Normalize.{normalize_currencies-exact, Distinct, IsCanonical}
use april_homework.Ingestion.SameCodes.{HasCode, fetch_and_store-same_codes}
use april_homework.Ingestion.Settle.{fetched, unfetched}
use april_homework.Ingestion.Outcome.{IsReport, fetch_and_store-IsReport}
use april_homework.Ingestion.Pool.{Pool, start, Steps, IsFinished}
use april_homework.Ingestion.Run.{workers, sent, run-IsReport}
use april_homework.Repository.{Row, upsert_rates, latest_rates, history}
use april_homework.Repository.Upsert.{IsUpdated, IsFailure, upsert_rates_atomic}
use april_homework.Repository.Latest.{IsLatestOf, latest_rates-IsLatestOf}
use april_homework.Repository.History.{IsHistory, history-IsHistory}
use april_homework.System.{ingest, ingest_atomic}
use april_homework.Examples.Memory.{memory, memory_laws}

abbrev pub rate_of : Text → Text → Time → ExchangeRate
rate_of currency value date = record {
  id = [];
  base_currency = codes "EUR";
  quote_currency = currency;
  rate = value;
  effective_date = date;
  source = codes "feed";
  source_published_at = zero_time;
}

abbrev pub batch : List ExchangeRate
batch =
    rate_of (codes "USD") (codes "1.1") (start_of_day 2)
    ∷ rate_of (codes "USD") (codes "1.2") (start_of_day 2)
    ∷ rate_of (codes "GBP") (codes "0.8") (start_of_day 1)
    ∷ []

upsert_rates_atomic_example :
    ((e : Text)
      → (upsert_rates memory batch []).0 ≡ some e
      → IsFailure memory [] batch e × ((upsert_rates memory batch []).1 ≡ []))
    × ((upsert_rates memory batch []).0 ≡ none
        → IsUpdated memory memory_laws [] 0 batch [] (upsert_rates memory batch []).1)
upsert_rates_atomic_example = upsert_rates_atomic memory memory_laws batch []

-- The rows that the database holds for the queries.
abbrev row_of : Text → Text → Time → Row Text
row_of currency value date = record {
  id = codes "7";
  base_currency = codes "EUR";
  quote_currency = currency;
  rate = value;
  effective_date = date;
  source = codes "feed";
  source_published_at = none;
  created_at = zero_time;
}

abbrev rows : List (Row Text)
rows =
    row_of (codes "USD") (codes "1.2") (start_of_day 3)
    ∷ row_of (codes "GBP") (codes "0.8") (start_of_day 2)
    ∷ row_of (codes "USD") (codes "1.1") (start_of_day 1)
    ∷ []

abbrev entity_of : Text → Text → Time → ExchangeRate
entity_of currency value date = record (rate_of currency value date) { id = codes "7" }

abbrev latest : List ExchangeRate
latest =
    entity_of (codes "GBP") (codes "0.8") (start_of_day 2)
    ∷ entity_of (codes "USD") (codes "1.2") (start_of_day 3)
    ∷ []

latest_of_rows : latest_rates memory (λ l. l) rows ≡ ok latest
unfolding latest_rates after start_of_day text_eq text_lt
latest_of_rows = refl

latest_rates-IsLatestOf_example : IsLatestOf memory rows latest
latest_rates-IsLatestOf_example =
    latest_rates-IsLatestOf memory memory_laws (λ l. l) (λ l. Permᴰ.refl l) rows latest
      latest_of_rows

abbrev dollars : List ExchangeRate
dollars = entity_of (codes "USD") (codes "1.2") (start_of_day 3) ∷ []

history_of_rows :
    history memory (codes "USD") (some (start_of_day 2)) (some (start_of_day 3)) (pos 5) rows
    ≡ ok dollars
unfolding history after start_of_day text_eq
history_of_rows = refl

history-IsHistory_example :
    IsHistory memory memory_laws
      (codes "USD")
      (some (start_of_day 2))
      (some (start_of_day 3))
      (pos 5)
      rows
      dollars
history-IsHistory_example =
    history-IsHistory memory memory_laws (codes "USD") (some (start_of_day 2))
      (some (start_of_day 3)) (pos 5) rows dollars history_of_rows

-- A fetcher that knows one currency, and a list as the store.
abbrev fetch : Text → Result ExchangeRate
fetch c =
    if text_eq c (codes "USD")
    then ok (rate_of (codes "USD") (codes "1.1") (start_of_day 2))
    else err (codes "no feed")

abbrev store : List ExchangeRate → List ExchangeRate → Option Text × List ExchangeRate
store rs s = (none, rs ++ s)

abbrev asked : List Text
asked = codes " usd " ∷ codes "" ∷ codes "USD" ∷ codes "xxx" ∷ []

asked-some : normalize_currencies asked ≢ []
unfolding normalize_currencies to_upper trim_space text_eq
asked-some e = cc

fetch_and_store-IsReport_example :
    IsReport store fetch
      (normalize_currencies asked)
      []
      (fetch_and_store store fetch (λ os. os) asked []).0.0
      (fetch_and_store store fetch (λ os. os) asked []).0.1
      (fetch_and_store store fetch (λ os. os) asked []).1
fetch_and_store-IsReport_example =
    fetch_and_store-IsReport store fetch (λ os. os) asked [] (λ os. Perm.refl os) asked-some

normalize_currencies-exact_example :
    Distinct (normalize_currencies asked)
    × All IsCanonical (normalize_currencies asked)
    × ((raw : Text)
        → In raw asked
        → canonical raw ≢ []
        → In (canonical raw) (normalize_currencies asked))
    × ((c : Text)
        → In c (normalize_currencies asked)
        → (raw : Text) × In raw asked × (canonical raw ≡ c))
normalize_currencies-exact_example = normalize_currencies-exact asked

ingest_atomic_example :
    ((ingest memory fetch (λ os. os) asked []).0.1 ≡ none
      → (unfetched fetch (normalize_currencies asked) ≡ [])
        × Perm
            (ingest memory fetch (λ os. os) asked []).0.0.saved
            (fetched fetch (normalize_currencies asked))
        × ((ingest memory fetch (λ os. os) asked []).0.0.saved ≢ []
            → IsUpdated memory memory_laws [] 0
                (ingest memory fetch (λ os. os) asked []).0.0.saved
                []
                (ingest memory fetch (λ os. os) asked []).1))
    × ((ingest memory fetch (λ os. os) asked []).0.0.saved ≢ []
        → (upsert_rates memory (ingest memory fetch (λ os. os) asked []).0.0.saved []).0 ≢ none
        → ((ingest memory fetch (λ os. os) asked []).1 ≡ [])
          × ((ingest memory fetch (λ os. os) asked []).0.1 ≢ none))
ingest_atomic_example =
    ingest_atomic memory memory_laws fetch (λ os. os) asked [] (λ os. Perm.refl os) asked-some

run-IsReport_example :
    ((n : ℕ) × (p : Pool) × Steps
        (workers (pos 4))
        (length (normalize_currencies asked))
        (sent fetch)
        (start (normalize_currencies asked))
        n
        p
      × IsFinished p)
    × ((n : ℕ) (p : Pool)
        → Steps
            (workers (pos 4))
            (length (normalize_currencies asked))
            (sent fetch)
            (start (normalize_currencies asked))
            n
            p
        → IsFinished p
        → IsReport store fetch
            (normalize_currencies asked)
            []
            (fetch_and_store store fetch (λ _. p.channel) asked []).0.0
            (fetch_and_store store fetch (λ _. p.channel) asked []).0.1
            (fetch_and_store store fetch (λ _. p.channel) asked []).1)
run-IsReport_example = run-IsReport store fetch (pos 4) asked [] asked-some

-- The same codes in other words.
abbrev reordered : List Text
reordered = codes "XXX" ∷ codes "Usd" ∷ []

in_reordered : (c : Text) → HasCode c asked → HasCode c reordered
unfolding to_upper trim_space
in_reordered c (full, raw, inl e, is_c) = (full, codes "Usd", inr (inl refl), ap canonical e ∙ is_c)
in_reordered c (full, raw, inr (inl e), is_c) = absurd (full (sym is_c ∙ ap canonical (sym e)))
in_reordered c (full, raw, inr (inr (inl e)), is_c) =
    (full, codes "Usd", inr (inl refl), ap canonical e ∙ is_c)
in_reordered c (full, raw, inr (inr (inr (inl e))), is_c) =
    (full, codes "XXX", inl refl, ap canonical e ∙ is_c)
in_reordered c (full, raw, inr (inr (inr (inr i))), is_c) = absurd i

in_asked : (c : Text) → HasCode c reordered → HasCode c asked
unfolding to_upper trim_space
in_asked c (full, raw, inl e, is_c) =
    (full, codes "xxx", inr (inr (inr (inl refl))), ap canonical e ∙ is_c)
in_asked c (full, raw, inr (inl e), is_c) =
    (full, codes "USD", inr (inr (inl refl)), ap canonical e ∙ is_c)
in_asked c (full, raw, inr (inr i), is_c) = absurd i

-- The same answers from a feed that has one more currency.
abbrev later_fetch : Text → Result ExchangeRate
later_fetch c =
    if text_eq c (codes "XAU")
    then ok (rate_of (codes "XAU") (codes "0.0004") (start_of_day 2))
    else fetch c

fetch-alike : (c : Text) → In c (normalize_currencies reordered) → fetch c ≡ later_fetch c
unfolding normalize_currencies to_upper trim_space text_eq
fetch-alike c (inl e) = subst (λ d. fetch d ≡ later_fetch d) e refl
fetch-alike c (inr (inl e)) = subst (λ d. fetch d ≡ later_fetch d) e refl
fetch-alike c (inr (inr i)) = absurd i

fetch_and_store-same_codes_example :
    Perm
      (fetch_and_store store fetch (λ os. os) asked []).0.0.saved
      (fetch_and_store store later_fetch (λ os. os) reordered batch).0.0.saved
    × Perm
        (fetch_and_store store fetch (λ os. os) asked []).0.0.failed
        (fetch_and_store store later_fetch (λ os. os) reordered batch).0.0.failed
fetch_and_store-same_codes_example =
    fetch_and_store-same_codes store store fetch later_fetch (λ os. os) (λ os. os) asked reordered
      [] batch (λ os. Perm.refl os) (λ os. Perm.refl os) asked-some
      (λ c. (in_reordered c, in_asked c)) fetch-alike
