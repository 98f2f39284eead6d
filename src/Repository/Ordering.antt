-- ===== src/Repository/Ordering.antt =====
-- The orders of the queries of LatestRates and History, as their clauses give them.
use april_homework.Common.{◌≡◌, List, [], ◌∷◌, false, All}
use april_homework.Time.{after}
use april_homework.Repository.{Row, quote_currency_asc, effective_date_desc}
use april_homework.Repository.Postgres.{IsOrderedBy}

abbrev pub IsDescending : {A : Type 0} → List (Row A) → Type 0
IsDescending [] = Unit
IsDescending (r ∷ rs) =
    All (λ q. after q.effective_date r.effective_date ≡ false) rs × IsDescending rs

-- The rows of one currency have descending dates.
abbrev pub IsDescendingByQuote : {A : Type 0} → List (Row A) → Type 0
IsDescendingByQuote [] = Unit
IsDescendingByQuote (r ∷ rs) =
    All (λ q. q.quote_currency ≡ r.quote_currency → after q.effective_date r.effective_date ≡ false)
      rs
    × IsDescendingByQuote rs

pub All-weaken :
    {A : Type 0} (P Q : A → Type 0) (xs : List A) → ((x : A) → P x → Q x) → All P xs → All Q xs
All-weaken P Q [] f h = tt
All-weaken P Q (x ∷ xs) f (hx, hs) = (f x hx, All-weaken P Q xs f hs)

module _ {A : Type 0} where
  pub IsOrderedBy-IsDescending :
      (rows : List (Row A)) → IsOrderedBy (effective_date_desc ∷ []) rows → IsDescending rows
  IsOrderedBy-IsDescending [] h = tt
  IsOrderedBy-IsDescending (r ∷ rs) (hr, h) =
      (All-weaken _ _ rs (λ q e. e.0) hr, IsOrderedBy-IsDescending rs h)

  pub IsOrderedBy-IsDescendingByQuote :
      (rows : List (Row A))
      → IsOrderedBy (quote_currency_asc ∷ effective_date_desc ∷ []) rows
      → IsDescendingByQuote rows
  IsOrderedBy-IsDescendingByQuote [] h = tt
  IsOrderedBy-IsDescendingByQuote (r ∷ rs) (hr, h) =
      (All-weaken _ _ rs (λ q e same. (e same).0) hr, IsOrderedBy-IsDescendingByQuote rs h)
