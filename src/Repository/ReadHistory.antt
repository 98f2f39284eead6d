-- ===== src/Repository/ReadHistory.antt =====
-- History after UpsertRates.
use april_homework.Common.{
  ◌≡◌, ◌≢◌, ◌⊎◌, refl, sym, ap, ◌∙◌, subst, inl, inr, List, [], ◌∷◌, map, Text, none, false, ok, In,
  All, In-All, length, arith,
}
use april_homework.Common.Int.{ℤ}
use april_homework.Time.{after, after_irrefl}
use april_homework.Entities.{ExchangeRate}
use april_homework.Repository.{Row, Database, to_entity, upsert_rates, history}
use april_homework.Repository.Table.{IsUnique}
use april_homework.Repository.Postgres.{IsPostgres}
use april_homework.Repository.Ordering.{IsDescending}
use april_homework.Repository.Upsert.{upsert_rates_atomic}
use april_homework.Repository.Setters.{rate_key}
use april_homework.Repository.Overlay.{
  after-instant, value_at-In, In-value_at, IsHeld, Batch-amount,
}
use april_homework.Repository.History.{clamp_limit_bounds, IsHistory, history-IsHistory}
use april_homework.Repository.ReadBack.{IsNewest, IsReadAs, new-value, new-key, row-IsReadAs}

-- The first rows of a descending list are the newest.
head_newest :
    {A : Type 0} (p q : Row A) (rows : List (Row A))
    → IsDescending (q ∷ rows)
    → In p (q ∷ rows) ⊎ All (λ x. after p.effective_date x.effective_date ≡ false) (q ∷ rows)
    → after p.effective_date q.effective_date ≡ false
head_newest p q rows d (inl (inl e)) =
    ap (λ x. after x.effective_date q.effective_date) (sym e) ∙ after_irrefl q.effective_date
head_newest p q rows (top, d) (inl (inr i)) = In-All _ p rows top i
head_newest p q rows d (inr (h, hs)) = h

module _ (db : Database) (pg : IsPostgres db) (currency : Text) where
  -- A history is not empty where the currency has a row.
  history_some :
      (limit : ℤ) (w : db.World) (out : List ExchangeRate) (p : Row db.Amount)
      → In p (pg.committed w)
      → p.quote_currency ≡ currency
      → (h : IsHistory db pg currency none none limit w out) → h.rows ≢ []
  history_some limit w out p i quote h e =
      let empty : length out ≡ 0 = ap length (h.shown ∙ ap (map (to_entity db)) e) in
      absurd (
        subst (In p) e
          (h.complete (omega (arith, empty, (clamp_limit_bounds limit).0)) p i (quote, tt, tt)))

not_nil_cons : {A : Type 0} (xs : List A) → xs ≢ [] → (x : A) × (rest : List A) × (xs ≡ x ∷ rest)
not_nil_cons [] h = absurd (h refl)
not_nil_cons (x ∷ rest) h = (x, rest, refl)

-- On PostgreSQL: when UpsertRates returned nil for a batch whose values the columns hold, and
-- History without dates, whatever its limit, then returns rates for the currency of `r`, the first of
-- them is `r`, if it was the newest of its currency in the batch and in the table: with its
-- currencies, its source, its instant, its decimal text if that is how the repository prints the
-- amount, and its time of publication unless that is zero.
pub upsert_rates-history :
    (db : Database) (pg : IsPostgres db) (limit : ℤ) (w : db.World) (rates out : List ExchangeRate)
    (r : ExchangeRate)
    → IsUnique (pg.committed w)
    → IsHeld db pg w rates
    → IsNewest r rates (pg.committed w)
    → ((a : db.Amount) → db.parse_amount r.rate ≡ ok a → db.string_fixed a ≡ r.rate)
    → (upsert_rates db rates w).0 ≡ none
    → history db r.quote_currency none none limit (upsert_rates db rates w).1 ≡ ok out
    → (x : ExchangeRate) × (rest : List ExchangeRate) × (out ≡ x ∷ rest) × IsReadAs r x
upsert_rates-history db pg limit w rates out r unique held newest printed stored read =
    let w' = (upsert_rates db rates w).1 in
    let update = (upsert_rates_atomic db pg rates w).1 stored in
    let (a, parsed) = Batch-amount db pg w r 0 rates update.setters update.batch newest.member in
    let h = history-IsHistory db pg r.quote_currency none none limit w' out read in
    let (p, i, key) =
      value_at-In (rate_key r) (pg.committed w') _ (
        new-value db pg w rates (pg.committed w) (pg.committed w') update held r newest a parsed) in
    let quote = ap (λ k. k.quote_currency) key in
    let (q, rest, e) =
      not_nil_cons h.rows (history_some db pg r.quote_currency limit w' out p i quote h) in
    let (k, chosen) = h.matching q (subst (In q) (sym e) (inl refl)) in
    let late =
      after-instant r.effective_date p.effective_date q.effective_date q.effective_date
        (ap (λ y. y.sec) (sym key)) (ap (λ y. y.nsec) (sym key)) refl refl
      ∙ head_newest p q rest (subst IsDescending e h.descending) (
          subst
            (λ rows. In p rows ⊎ All (λ x. after p.effective_date x.effective_date ≡ false) rows) e
            (h.newest p i (quote, tt, tt))) in
    let found =
      new-key db pg w rates (pg.committed w) (pg.committed w') update held r newest q
        (q.rate, q.source_published_at) (In-value_at q (pg.committed w') (update.unique unique) k)
        chosen.0 late in
    (
      to_entity db q,
      map (to_entity db) rest,
      h.shown ∙ ap (map (to_entity db)) e,
      row-IsReadAs db pg w rates (pg.committed w) (pg.committed w') update held r newest q a parsed
          (printed a parsed) (update.unique unique) k found,
    )
