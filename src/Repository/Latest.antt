-- ===== src/Repository/Latest.antt =====
-- What LatestRates returns.
use mathlib.Core.List.{Permᴰ}
use april_homework.Common.{
  ◌≡◌, refl, sym, ap, ◌∙◌, subst, inl, inr, List, [], ◌∷◌, map, false, ok, ok_inj, >>=-eq-ok,
  wrap-eq-ok, In, In-All, All_of_In,
}
use april_homework.Time.{after}
use april_homework.Entities.{ExchangeRate}
use april_homework.Repository.{
  Row, Database, quote_currency_asc, effective_date_desc, keep_first, sort_rates, to_entity,
  to_entities, latest_rates,
}
use april_homework.Repository.Sorting.{
  IsSorted, sort_rates-In, In-sort_rates, sort_rates-IsSorted, Permᴰ-In, Permᴰ-In_back,
  Permᴰ-DistinctQuotes,
}
use april_homework.Repository.Postgres.{IsPostgres}
use april_homework.Repository.Ordering.{IsDescendingByQuote, IsOrderedBy-IsDescendingByQuote}
use april_homework.Repository.KeepFirst.{
  IsDescendingRates, IsFirst, keep_first_sound, keep_first-covers, keep_first-DistinctQuotes,
}

map-In :
    {A B : Type 0} (f : A → B) (xs : List A) (y : B)
    → In y (map f xs)
    → (x : A) × In x xs × (f x ≡ y)
map-In f [] y i = absurd i
map-In f (x ∷ xs) y (inl e) = (x, inl refl, e)
map-In f (x ∷ xs) y (inr i) = let (z, k, e) = map-In f xs y i in (z, inr k, e)

In-map : {A B : Type 0} (f : A → B) (xs : List A) (x : A) → In x xs → In (f x) (map f xs)
In-map f [] x i = i
In-map f (z ∷ xs) x (inl e) = inl (ap f e)
In-map f (z ∷ xs) x (inr i) = inr (In-map f xs x i)

quote_of-to_entity :
    (db : Database) (r : Row db.Amount) → (to_entity db r).quote_currency ≡ r.quote_currency
unfolding to_entity
quote_of-to_entity db r = refl

date_of-to_entity :
    (db : Database) (r : Row db.Amount) → (to_entity db r).effective_date ≡ r.effective_date
unfolding to_entity
date_of-to_entity db r = refl

to_entities-IsDescendingRates :
    (db : Database) (rows : List (Row db.Amount))
    → IsDescendingByQuote rows
    → IsDescendingRates (map (to_entity db) rows)
unfolding to_entity
to_entities-IsDescendingRates db [] d = tt
to_entities-IsDescendingRates db (r ∷ rs) (dr, d) = (
  All_of_In _ _ (λ x i.
      let (q, k, e) = map-In (to_entity db) rs x i in
      subst
        (λ y. y.quote_currency ≡ r.quote_currency → after y.effective_date r.effective_date ≡ false)
        e (In-All _ q rs dr k)),
  to_entities-IsDescendingRates db rs d,
)

-- What LatestRates promises of the rows that are committed.
pub record IsLatestOf (db : Database) (rows : List (Row db.Amount)) (out : List ExchangeRate)
    : Type 0 where
  pub sorted : IsSorted out
  pub newest :
      (x : ExchangeRate)
      → In x out
      → (r : Row db.Amount) × In r rows
        × (to_entity db r ≡ x)
        × ((q : Row db.Amount)
            → In q rows
            → q.quote_currency ≡ r.quote_currency
            → after q.effective_date r.effective_date ≡ false)
  pub complete :
      (q : Row db.Amount)
      → In q rows
      → (x : ExchangeRate) × In x out × (x.quote_currency ≡ q.quote_currency)

module _ (db : Database) (order : List ExchangeRate → List ExchangeRate)
    (visits_all : (l : List ExchangeRate) → Permᴰ l (order l)) where
  read_back :
      (w : db.World) (out : List ExchangeRate)
      → latest_rates db order w ≡ ok out
      → (rows : List (Row db.Amount)) × (db.select_all
            (quote_currency_asc ∷ effective_date_desc ∷ [])
            w
          ≡ ok rows)
        × (sort_rates (order (keep_first [] (map (to_entity db) rows))) ≡ out)
  unfolding latest_rates to_entities
  read_back w out h =
      let (rows, wrapped, e) = >>=-eq-ok _ _ h in (rows, wrap-eq-ok _ _ wrapped, ok_inj e)

  report :
      (rows : List (Row db.Amount))
      → IsDescendingByQuote rows
      → IsLatestOf db rows (sort_rates (order (keep_first [] (map (to_entity db) rows))))
  report rows d = record {
    sorted =
        sort_rates-IsSorted _
          (Permᴰ-DistinctQuotes (visits_all _) (keep_first-DistinctQuotes [] _ tt));
    newest = newest;
    complete = complete;
  }
    where
      of_first :
          (x : ExchangeRate)
          → IsFirst [] (map (to_entity db) rows) x
          → (r : Row db.Amount) × In r rows
            × (to_entity db r ≡ x)
            × ((q : Row db.Amount)
                → In q rows
                → q.quote_currency ≡ r.quote_currency
                → after q.effective_date r.effective_date ≡ false)
      of_first x (i, fresh, top) =
          let (r, k, e) = map-In (to_entity db) rows x i in
          (
            r,
            k,
            e,
            λ q j same.
                ap (after q.effective_date)
                  (sym (date_of-to_entity db r) ∙ ap (λ y. y.effective_date) e)
                ∙ ap (λ t. after t x.effective_date) (sym (date_of-to_entity db q))
                ∙ top (to_entity db q) (In-map (to_entity db) rows q j) (
                    quote_of-to_entity db q
                    ∙ same
                    ∙ sym (quote_of-to_entity db r)
                    ∙ ap (λ y. y.quote_currency) e),
          )

      newest :
          (x : ExchangeRate)
          → In x (sort_rates (order (keep_first [] (map (to_entity db) rows))))
          → (r : Row db.Amount) × In r rows
            × (to_entity db r ≡ x)
            × ((q : Row db.Amount)
                → In q rows
                → q.quote_currency ≡ r.quote_currency
                → after q.effective_date r.effective_date ≡ false)
      newest x i =
          elim (keep_first_sound [] (map (to_entity db) rows) x
            (to_entities-IsDescendingRates db rows d)
            (Permᴰ-In_back (visits_all _) x (sort_rates-In x _ i))) [
              | inl none_kept ↦ absurd none_kept
              | inr first ↦ of_first x first
            ]

      complete :
          (q : Row db.Amount)
          → In q rows
          → (x : ExchangeRate) × In x (sort_rates (order (keep_first [] (map (to_entity db) rows))))
            × (x.quote_currency ≡ q.quote_currency)
      complete q i =
          let (x, k, same) =
            keep_first-covers [] (map (to_entity db) rows) (to_entity db q)
              (In-map (to_entity db) rows q i) in
          (x, In-sort_rates x _ (Permᴰ-In (visits_all _) x k), same ∙ quote_of-to_entity db q)

same_rows-IsLatestOf :
    (db : Database) (rows committed : List (Row db.Amount)) (out : List ExchangeRate)
    → ((r : Row db.Amount) → In r rows → In r committed)
    → ((r : Row db.Amount) → In r committed → In r rows)
    → IsLatestOf db rows out
    → IsLatestOf db committed out
same_rows-IsLatestOf db rows committed out to back l = record {
  sorted = l.sorted;
  newest = λ x i. let (r, k, e, top) = l.newest x i in (r, to r k, e, λ q j. top q (back q j));
  complete = λ q i. l.complete q (back q i);
}

-- On PostgreSQL, and whatever the order in which the range over the map visits its values, the rates
-- that LatestRates returns are strictly ascending by quote currency, so one for each; each is the
-- entity of a committed row than which no committed row of its currency is newer; and each currency
-- that has a committed row has a rate.
pub latest_rates-IsLatestOf :
    (db : Database) (pg : IsPostgres db) (order : List ExchangeRate → List ExchangeRate)
    → ((l : List ExchangeRate) → Permᴰ l (order l))
    → (w : db.World) (out : List ExchangeRate) → latest_rates db order w ≡ ok out
    → IsLatestOf db (pg.committed w) out
latest_rates-IsLatestOf db pg order visits_all w out h =
    let (rows, selected, e) = read_back db order visits_all w out h in
    let (sound, complete, ordered) = pg.all_law _ w rows selected in
    let d = IsOrderedBy-IsDescendingByQuote rows ordered in
    same_rows-IsLatestOf db rows (pg.committed w) out sound complete
      (subst (IsLatestOf db rows) e (report db order visits_all rows d))
