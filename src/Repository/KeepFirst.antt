-- ===== src/Repository/KeepFirst.antt =====
-- The loop of LatestRates over the rows of its query.
use april_homework.Common.{
  ◌≡◌, ◌≢◌, refl, sym, ap, ◌∙◌, subst, inl, inr, ◌⊎◌, List, [], ◌∷◌, ◌++◌, Text, true, false, ◌||◌,
  Bool-cases, arith, In, All, In-All, In-append_left, In-append_right, In-append_cases, All-append,
}
use april_homework.Strings.{text_eq}
use april_homework.Strings.Laws.{text_eq_iff}
use april_homework.Time.{after, after_irrefl}
use april_homework.Entities.{ExchangeRate}
use april_homework.Repository.{has_quote, keep_first}
use april_homework.Repository.Sorting.{DistinctQuotes}

-- The rates of one currency have descending dates.
abbrev pub IsDescendingRates : List ExchangeRate → Type 0
IsDescendingRates [] = Unit
IsDescendingRates (r ∷ rs) =
    All (λ q. q.quote_currency ≡ r.quote_currency → after q.effective_date r.effective_date ≡ false)
      rs
    × IsDescendingRates rs

has_quote-append :
    (c : Text) (l : List ExchangeRate) (x : ExchangeRate)
    → has_quote c (l ++ x ∷ []) ≡ (has_quote c l || text_eq x.quote_currency c)
has_quote-append c [] x = ground arith
has_quote-append c (r ∷ l) x = ground (arith, has_quote-append c l x)

has_quote-false :
    (c : Text) (l : List ExchangeRate) → has_quote c l ≡ false → All (λ q. q.quote_currency ≢ c) l
has_quote-false c [] h = tt
has_quote-false c (r ∷ l) h = elim (Bool-cases (text_eq r.quote_currency c)) [
  | inl same ↦ cc
  | inr other ↦
      ((λ e. cc (other, (text_eq_iff r.quote_currency c).1 e)), has_quote-false c l (rw other at h))
]

has_quote-In :
    (c : Text) (l : List ExchangeRate)
    → has_quote c l ≡ true
    → (r : ExchangeRate) × In r l × (r.quote_currency ≡ c)
has_quote-In c [] h = cc
has_quote-In c (r ∷ l) h = elim (Bool-cases (text_eq r.quote_currency c)) [
  | inl same ↦ (r, inl refl, (text_eq_iff r.quote_currency c).0 same)
  | inr other ↦ let (q, i, e) = has_quote-In c l (rw other at h) in (q, inr i, e)
]

-- The first of the list with its currency, and new to the map.
abbrev pub IsFirst : List ExchangeRate → List ExchangeRate → ExchangeRate → Type 0
IsFirst latest rates r =
    In r rates
    × (has_quote r.quote_currency latest ≡ false)
    × ((q : ExchangeRate)
        → In q rates
        → q.quote_currency ≡ r.quote_currency
        → after q.effective_date r.effective_date ≡ false)

keep_first-old :
    (latest : List ExchangeRate) (x : ExchangeRate) (xs : List ExchangeRate)
    → has_quote x.quote_currency latest ≡ true
    → keep_first latest (x ∷ xs) ≡ keep_first latest xs
unfolding keep_first
keep_first-old latest x xs old = rw old

keep_first-new :
    (latest : List ExchangeRate) (x : ExchangeRate) (xs : List ExchangeRate)
    → has_quote x.quote_currency latest ≡ false
    → keep_first latest (x ∷ xs) ≡ keep_first (latest ++ x ∷ []) xs
unfolding keep_first
keep_first-new latest x xs new = rw new

IsFirst-skip :
    (latest : List ExchangeRate) (x : ExchangeRate) (xs : List ExchangeRate) (r : ExchangeRate)
    → x.quote_currency ≢ r.quote_currency
    → has_quote r.quote_currency latest ≡ false
    → In r xs
    → ((q : ExchangeRate)
        → In q xs
        → q.quote_currency ≡ r.quote_currency
        → after q.effective_date r.effective_date ≡ false)
    → IsFirst latest (x ∷ xs) r
IsFirst-skip latest x xs r ne fresh k top = (inr k, fresh, newest)
  where
    newest :
        (q : ExchangeRate)
        → In q (x ∷ xs)
        → q.quote_currency ≡ r.quote_currency
        → after q.effective_date r.effective_date ≡ false
    newest q (inl e) same = absurd (ne (ap (λ y. y.quote_currency) e ∙ same))
    newest q (inr h) same = top q h same

IsFirst-here :
    (latest : List ExchangeRate) (x : ExchangeRate) (xs : List ExchangeRate)
    → has_quote x.quote_currency latest ≡ false
    → All
        (λ q. q.quote_currency ≡ x.quote_currency → after q.effective_date x.effective_date ≡ false)
        xs
    → IsFirst latest (x ∷ xs) x
IsFirst-here latest x xs fresh dx = (inl refl, fresh, newest)
  where
    newest :
        (q : ExchangeRate)
        → In q (x ∷ xs)
        → q.quote_currency ≡ x.quote_currency
        → after q.effective_date x.effective_date ≡ false
    newest q (inl e) same =
        subst (λ y. after y.effective_date x.effective_date ≡ false) e
          (after_irrefl x.effective_date)
    newest q (inr h) same = In-All _ q xs dx h same

has_quote-append_false :
    (c : Text) (l : List ExchangeRate) (x : ExchangeRate)
    → has_quote c (l ++ x ∷ []) ≡ false
    → (has_quote c l ≡ false) × (x.quote_currency ≢ c)
has_quote-append_false c l x h =
    ground (arith, has_quote-append c l x, text_eq_iff x.quote_currency c)

-- Each rate of the map was there, or is a newest of its currency.
pub keep_first_sound :
    (latest rates : List ExchangeRate) (r : ExchangeRate)
    → IsDescendingRates rates
    → In r (keep_first latest rates)
    → In r latest ⊎ IsFirst latest rates r
keep_first_sound latest [] r d i = inl (unfold keep_first in i)
keep_first_sound latest (x ∷ xs) r (dx, d) i =
    elim (Bool-cases (has_quote x.quote_currency latest)) [
      | inl old ↦
          later old
            (keep_first_sound latest xs r d (subst (In r) (keep_first-old latest x xs old) i))
      | inr new ↦ taken new (
          keep_first_sound (latest ++ x ∷ []) xs r d
            (subst (In r) (keep_first-new latest x xs new) i))
    ]
  where
    later :
        has_quote x.quote_currency latest ≡ true
        → In r latest ⊎ IsFirst latest xs r
        → In r latest ⊎ IsFirst latest (x ∷ xs) r
    later old (inl h) = inl h
    later old (inr (k, fresh, top)) = inr (
        IsFirst-skip latest x xs r (λ e. cc (old, fresh, ap (λ c. has_quote c latest) e)) fresh k
          top)

    taken :
        has_quote x.quote_currency latest ≡ false
        → In r (latest ++ x ∷ []) ⊎ IsFirst (latest ++ x ∷ []) xs r
        → In r latest ⊎ IsFirst latest (x ∷ xs) r
    taken new (inl h) = elim (In-append_cases r latest (x ∷ []) h) [
      | inl k ↦ inl k
      | inr (inl e) ↦ inr (subst (IsFirst latest (x ∷ xs)) e (IsFirst-here latest x xs new dx))
      | inr (inr k) ↦ absurd k
    ]
    taken new (inr (k, fresh, top)) =
        let (old, ne) = has_quote-append_false r.quote_currency latest x fresh in
        inr (IsFirst-skip latest x xs r ne old k top)

-- The map keeps what it holds.
keep_first-In :
    (latest rates : List ExchangeRate) (r : ExchangeRate)
    → In r latest
    → In r (keep_first latest rates)
keep_first-In latest [] r i = unfold keep_first in i
keep_first-In latest (x ∷ xs) r i = elim (Bool-cases (has_quote x.quote_currency latest)) [
  | inl old ↦ rw (keep_first-old latest x xs old) (keep_first-In latest xs r i)
  | inr new ↦
      rw (keep_first-new latest x xs new)
        (keep_first-In (latest ++ x ∷ []) xs r (In-append_left r latest (x ∷ []) i))
]

-- It has a rate for the currency of every rate that was read.
pub keep_first-covers :
    (latest rates : List ExchangeRate) (q : ExchangeRate)
    → In q rates
    → (r : ExchangeRate) × In r (keep_first latest rates) × (r.quote_currency ≡ q.quote_currency)
keep_first-covers latest [] q i = absurd i
keep_first-covers latest (x ∷ xs) q (inr i) =
    elim (Bool-cases (has_quote x.quote_currency latest)) [
      | inl old ↦ rw (keep_first-old latest x xs old) (keep_first-covers latest xs q i)
      | inr new ↦ rw (keep_first-new latest x xs new) (keep_first-covers (latest ++ x ∷ []) xs q i)
    ]
keep_first-covers latest (x ∷ xs) q (inl e) =
    elim (Bool-cases (has_quote x.quote_currency latest)) [
      | inl old ↦
          let (r, i, same) = has_quote-In x.quote_currency latest old in
          rw (keep_first-old latest x xs old)
            (r, keep_first-In latest xs r i, same ∙ ap (λ y. y.quote_currency) e)
      | inr new ↦ rw (keep_first-new latest x xs new) (
        x,
        keep_first-In (latest ++ x ∷ []) xs x (In-append_right x latest (x ∷ []) (inl refl)),
        ap (λ y. y.quote_currency) e,
      )
    ]

DistinctQuotes-append :
    (l : List ExchangeRate) (x : ExchangeRate)
    → DistinctQuotes l
    → All (λ q. q.quote_currency ≢ x.quote_currency) l
    → DistinctQuotes (l ++ x ∷ [])
DistinctQuotes-append [] x d ne = (tt, tt)
DistinctQuotes-append (r ∷ l) x (dr, d) (ne, nes) =
    (All-append _ l (x ∷ []) dr ((λ e. ne (sym e)), tt), DistinctQuotes-append l x d nes)

pub keep_first-DistinctQuotes :
    (latest rates : List ExchangeRate)
    → DistinctQuotes latest
    → DistinctQuotes (keep_first latest rates)
keep_first-DistinctQuotes latest [] d = unfold keep_first in d
keep_first-DistinctQuotes latest (x ∷ xs) d =
    elim (Bool-cases (has_quote x.quote_currency latest)) [
      | inl old ↦ rw (keep_first-old latest x xs old) (keep_first-DistinctQuotes latest xs d)
      | inr new ↦ rw (keep_first-new latest x xs new) (
          keep_first-DistinctQuotes (latest ++ x ∷ []) xs
            (DistinctQuotes-append latest x d (has_quote-false x.quote_currency latest new)))
    ]
