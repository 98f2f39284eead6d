-- ===== src/Repository/ReadBack.antt =====
-- LatestRates after UpsertRates.
use mathlib.Core.List.{Permᴰ}
use april_homework.Common.{
  ◌≡◌, some_inj, refl, sym, ap, ◌∙◌, subst, inl, inr, List, Option, none, some, false, ok, In,
}
use april_homework.Time.{Time, is_zero, after, after_irrefl}
use april_homework.Entities.{ExchangeRate}
use april_homework.Repository.{
  Row, Database, some_unless, time_or_zero, to_entity, upsert_rates, latest_rates,
}
use april_homework.Repository.Table.{row_key, value_at, IsUnique}
use april_homework.Repository.Postgres.{IsPostgres}
use april_homework.Repository.Upsert.{IsUpdated, upsert_rates_atomic}
use april_homework.Repository.Latest.{IsLatestOf, latest_rates-IsLatestOf}
use april_homework.Repository.Setters.{rate_key}
use april_homework.Repository.Overlay.{
  after-instant, value_at-In, In-value_at, IsHeld, overlay-source, overlay-value, Batch-amount,
}

-- No other rate of the batch for the currency of `r` is as new, nor any row with another key.
pub record IsNewest {Amount : Type 0} (r : ExchangeRate) (rates : List ExchangeRate)
    (rows : List (Row Amount)) : Type 0 where
  pub member : In r rates
  pub in_batch :
      (q : ExchangeRate)
      → In q rates
      → q.quote_currency ≡ r.quote_currency
      → after r.effective_date q.effective_date ≡ false
      → q ≡ r
  pub in_table :
      (q : Row Amount)
      → In q rows
      → q.quote_currency ≡ r.quote_currency
      → after r.effective_date q.effective_date ≡ false
      → row_key q ≡ rate_key r

-- What is read back of `r` is `x`.
pub record IsReadAs (r x : ExchangeRate) : Type 0 where
  pub base_currency : x.base_currency ≡ r.base_currency
  pub quote_currency : x.quote_currency ≡ r.quote_currency
  pub rate : x.rate ≡ r.rate
  pub sec : x.effective_date.sec ≡ r.effective_date.sec
  pub nsec : x.effective_date.nsec ≡ r.effective_date.nsec
  pub source : x.source ≡ r.source
  pub published :
      is_zero r.source_published_at ≡ false → x.source_published_at ≡ r.source_published_at

module _ (db : Database) (pg : IsPostgres db) (w : db.World) (rates : List ExchangeRate)
    (old new : List (Row db.Amount)) (update : IsUpdated db pg w 0 rates old new)
    (held : IsHeld db pg w rates) (r : ExchangeRate) (newest : IsNewest r rates old) where
  pub new-value :
      (a : db.Amount)
      → db.parse_amount r.rate ≡ ok a
      → value_at (rate_key r) new
        ≡ some (a, some_unless (is_zero r.source_published_at) r.source_published_at)
  new-value a parsed =
      update.values (rate_key r)
      ∙ overlay-value db pg w r 0 rates update.setters (value_at (rate_key r) old) a parsed held
          (λ q i e. newest.in_batch q i (ap (λ k. k.quote_currency) e) (
            after-instant r.effective_date r.effective_date q.effective_date r.effective_date refl
              refl (ap (λ k. k.sec) e) (ap (λ k. k.nsec) e)
            ∙ after_irrefl r.effective_date))
          (inl newest.member) update.batch

  -- A row of the new table that is not older than `r` has its key.
  pub new-key :
      (q : Row db.Amount) (v : db.Amount × Option Time)
      → value_at (row_key q) new ≡ some v
      → q.quote_currency ≡ r.quote_currency
      → after r.effective_date q.effective_date ≡ false
      → row_key q ≡ rate_key r
  new-key q v here quote late =
      elim (overlay-source db pg w (row_key q) 0 rates update.setters (value_at (row_key q) old)
        held update.batch) [
          | inl (p, i, e) ↦
              sym e
              ∙ ap rate_key (
                  newest.in_batch p i (ap (λ k. k.quote_currency) e ∙ quote) (
                    after-instant r.effective_date r.effective_date p.effective_date
                      q.effective_date refl refl (ap (λ k. k.sec) e) (ap (λ k. k.nsec) e)
                    ∙ late))
          | inr same ↦
              let (p, i, e) =
                value_at-In (row_key q) old v (sym (update.values (row_key q) ∙ same) ∙ here) in
              sym e
              ∙ newest.in_table p i (ap (λ k. k.quote_currency) e ∙ quote) (
                  after-instant r.effective_date r.effective_date p.effective_date q.effective_date
                    refl refl (ap (λ k. k.sec) e) (ap (λ k. k.nsec) e)
                  ∙ late)
        ]

  pub row-IsReadAs :
      (q : Row db.Amount) (a : db.Amount)
      → db.parse_amount r.rate ≡ ok a
      → db.string_fixed a ≡ r.rate
      → IsUnique new
      → In q new
      → row_key q ≡ rate_key r
      → IsReadAs r (to_entity db q)
  unfolding to_entity
  row-IsReadAs q a parsed printed unique i key =
      let value =
        sym (In-value_at q new unique i) ∙ ap (λ k. value_at k new) key ∙ new-value a parsed in
      let pair = some_inj value in
      record {
        base_currency = ap (λ k. k.base_currency) key;
        quote_currency = ap (λ k. k.quote_currency) key;
        rate = ap (λ v. db.string_fixed v.0) pair ∙ printed;
        sec = ap (λ k. k.sec) key;
        nsec = ap (λ k. k.nsec) key;
        source = ap (λ k. k.source) key;
        published = λ z.
            ap (λ v. time_or_zero v.1) pair
            ∙ ap (λ b. time_or_zero (some_unless b r.source_published_at)) z;
      }

  latest-IsReadAs :
      (out : List ExchangeRate) (a : db.Amount)
      → db.parse_amount r.rate ≡ ok a
      → db.string_fixed a ≡ r.rate
      → IsUnique new
      → IsLatestOf db new out
      → (x : ExchangeRate) × In x out × IsReadAs r x
  unfolding to_entity
  latest-IsReadAs out a parsed printed unique latest =
      let (p, i, key) = value_at-In (rate_key r) new _ (new-value a parsed) in
      let (x, j, quote) = latest.complete p i in
      let (q, k, entity, top) = latest.newest x j in
      let same : q.quote_currency ≡ p.quote_currency = ap (λ y. y.quote_currency) entity ∙ quote in
      let late =
        after-instant r.effective_date p.effective_date q.effective_date q.effective_date
          (ap (λ y. y.sec) (sym key)) (ap (λ y. y.nsec) (sym key)) refl refl
        ∙ top p i (sym same) in
      let found =
        new-key q (q.rate, q.source_published_at) (In-value_at q new unique k)
          (same ∙ ap (λ y. y.quote_currency) key) late in
      (x, j, subst (IsReadAs r) entity (row-IsReadAs q a parsed printed unique k found))

-- On PostgreSQL, and whatever the order in which the range over the map visits its values: when
-- UpsertRates returned nil for a batch whose values the columns hold, and LatestRates then returns
-- rates, there is among them the rate of the batch that was the newest of its currency in the batch
-- and in the table, with its currencies, its source, its instant, its decimal text if that is how
-- the repository prints the amount, and its time of publication unless that is zero.
pub upsert_rates-latest_rates :
    (db : Database) (pg : IsPostgres db) (order : List ExchangeRate → List ExchangeRate)
    → ((l : List ExchangeRate) → Permᴰ l (order l))
    → (w : db.World) (rates out : List ExchangeRate) (r : ExchangeRate) → IsUnique (pg.committed w)
    → IsHeld db pg w rates
    → IsNewest r rates (pg.committed w)
    → ((a : db.Amount) → db.parse_amount r.rate ≡ ok a → db.string_fixed a ≡ r.rate)
    → (upsert_rates db rates w).0 ≡ none
    → latest_rates db order (upsert_rates db rates w).1 ≡ ok out
    → (x : ExchangeRate) × In x out × IsReadAs r x
upsert_rates-latest_rates db pg order visits_all w rates out r unique held newest printed stored
      read =
    let update = (upsert_rates_atomic db pg rates w).1 stored in
    let (a, parsed) = Batch-amount db pg w r 0 rates update.setters update.batch newest.member in
    latest-IsReadAs db pg w rates (pg.committed w) (pg.committed (upsert_rates db rates w).1) update
      held r newest out a parsed (printed a parsed) (update.unique unique)
      (latest_rates-IsLatestOf db pg order visits_all _ out read)
