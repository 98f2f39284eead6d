-- ===== src/Examples/Rows.antt =====
-- Two rates that are stored in memory and read back.
use april_homework.Common.{
  ◌≡◌, ◌↔◌, refl, sym, inl, inr, List, [], ◌∷◌, map, Text, codes, none, some, true, false, ap, ◌∙◌,
  ok, ok_inj, In,
}
use april_homework.Repository.Table.{upsert_row}
use april_homework.Strings.{print_nat, text_eq, text_lt}
use april_homework.Strings.Laws.{text_eq_iff}
use april_homework.Time.{start_of_day, after, is_zero}
use april_homework.Entities.{ExchangeRate}
use april_homework.Repository.{history, upsert_rates, latest_rates}
use april_homework.Common.Int.{pos}
use april_homework.Repository.ReadBack.{IsNewest}
use april_homework.Bob.Info.{Index, index_slice, exchange_rates}
use april_homework.Bob.Errors.{UniqueConstraintError, PgError, is_error, err_unique_constraint}
use april_homework.Bob.Matching.{table_errors, is_error-matches}
use april_homework.Examples.Memory.{memory}
use april_homework.Examples.Storing.{rate_of}

abbrev pub dollar : ExchangeRate
dollar = rate_of (codes "USD") (codes "1.2") (start_of_day 2)

abbrev pub pound : ExchangeRate
pound = rate_of (codes "GBP") (codes "0.8") (start_of_day 1)

abbrev pub two_rates : List ExchangeRate
two_rates = dollar ∷ pound ∷ []

abbrev read_rates : List ExchangeRate
read_rates = record pound { id = codes "1" } ∷ record dollar { id = codes "0" } ∷ []

pub amounts : (a : Text) → memory.parse_amount dollar.rate ≡ ok a → a ≡ dollar.rate
amounts a h = sym (ok_inj h)

stored : (upsert_rates memory two_rates []).0 ≡ none
unfolding upsert_rates start_of_day
stored = refl

read : latest_rates memory (λ l. l) (upsert_rates memory two_rates []).1 ≡ ok read_rates
unfolding upsert_rates latest_rates start_of_day after text_eq text_lt upsert_row print_nat is_zero
read = refl

pub dollar-IsNewest : IsNewest {Amount = Text} dollar two_rates []
unfolding after start_of_day text_eq
dollar-IsNewest = record {
  member = inl refl;
  in_batch = λ q i e late. only q i e;
  in_table = λ q i e late. absurd i;
}
  where
    only : (q : ExchangeRate) → In q two_rates → q.quote_currency ≡ codes "USD" → q ≡ dollar
    only q (inl e) h = sym e
    only q (inr (inl e)) h =
        let clash : false ≡ true =
          (text_eq_iff (codes "GBP") (codes "USD")).1 (ap (λ x. x.quote_currency) e ∙ h) in
        cc (clash)
    only q (inr (inr i)) h = absurd i

dollars_read :
    history memory (codes "USD") none none (pos 0) (upsert_rates memory two_rates []).1
    ≡ ok (record dollar { id = codes "0" } ∷ [])
unfolding history upsert_rates start_of_day after text_eq upsert_row print_nat is_zero
dollars_read = refl

abbrev duplicate : PgError
duplicate = record { code = codes "23505"; constraint_name = codes "exchange_rates_pkey" }

is_error-matches_example :
    ((is_error err_unique_constraint (some duplicate) ≡ true) ↔ (duplicate.code ≡ codes "23505"))
    × ((e : UniqueConstraintError)
        → In e table_errors
        → (is_error e (some duplicate) ≡ true)
          ↔ ((duplicate.code ≡ codes "23505") × (duplicate.constraint_name ≡ e.s)))
    × ((i : Index)
        → In i (index_slice exchange_rates.indexes)
        → i.unique ≡ true
        → duplicate.code ≡ codes "23505"
        → duplicate.constraint_name ≡ i.name
        → (e : UniqueConstraintError) × In e table_errors
          × (is_error e (some duplicate) ≡ true)
          × (e.columns ≡ map (λ c. c.name) i.columns)
          × ((f : UniqueConstraintError)
              → In f table_errors
              → is_error f (some duplicate) ≡ true
              → f ≡ e))
is_error-matches_example = is_error-matches duplicate
