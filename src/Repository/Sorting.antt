-- ===== src/Repository/Sorting.antt =====
-- The sort of rates by quote currency.
use mathlib.Core.List.{Permᴰ}
use april_homework.Common.{
  ◌≡◌, ◌≢◌, sym, ◌∙◌, subst, inl, inr, ◌⊎◌, List, [], ◌∷◌, true, false, Bool-cases, In, All, In-All,
  All_of_In,
}
use april_homework.Strings.{text_lt}
use april_homework.Strings.Laws.{text_lt_trans, text_lt_total}
use april_homework.Entities.{ExchangeRate}
use april_homework.Repository.{insert_rate, sort_rates}

-- Strictly ascending quote currencies, so that no currency comes twice.
abbrev pub IsSorted : List ExchangeRate → Type 0
IsSorted [] = Unit
IsSorted (r ∷ rs) = All (λ q. text_lt r.quote_currency q.quote_currency ≡ true) rs × IsSorted rs

abbrev pub DistinctQuotes : List ExchangeRate → Type 0
DistinctQuotes [] = Unit
DistinctQuotes (r ∷ rs) = All (λ q. q.quote_currency ≢ r.quote_currency) rs × DistinctQuotes rs

All-insert_rate :
    (P : ExchangeRate → Type 0) (r : ExchangeRate) (qs : List ExchangeRate)
    → P r
    → All P qs
    → All P (insert_rate r qs)
unfolding insert_rate
All-insert_rate P r [] h hs = (h, tt)
All-insert_rate P r (q ∷ qs) h (hq, hs) =
    elim (Bool-cases (text_lt q.quote_currency r.quote_currency)) [
      | inl less ↦ rw less (hq, All-insert_rate P r qs h hs)
      | inr more ↦ rw more (h, (hq, hs))
    ]

insert_rate-behind :
    (r q : ExchangeRate) (qs : List ExchangeRate)
    → text_lt q.quote_currency r.quote_currency ≡ true
    → insert_rate r (q ∷ qs) ≡ q ∷ insert_rate r qs
unfolding insert_rate
insert_rate-behind r q qs less = rw less

insert_rate-before :
    (r q : ExchangeRate) (qs : List ExchangeRate)
    → text_lt q.quote_currency r.quote_currency ≡ false
    → insert_rate r (q ∷ qs) ≡ r ∷ q ∷ qs
unfolding insert_rate
insert_rate-before r q qs more = rw more

swap_or : {A B C : Type 0} → A ⊎ (B ⊎ C) → B ⊎ (A ⊎ C)
swap_or (inl a) = inr (inl a)
swap_or (inr (inl b)) = inl b
swap_or (inr (inr c)) = inr (inr c)

map_right : {A B C : Type 0} → (B → C) → A ⊎ B → A ⊎ C
map_right f (inl a) = inl a
map_right f (inr b) = inr (f b)

-- The elements of the list with `r` put in are `r` and those of the list.
insert_rate-In :
    (r x : ExchangeRate) (qs : List ExchangeRate) → In x (insert_rate r qs) → (r ≡ x) ⊎ In x qs
insert_rate-In r x [] h = unfold insert_rate in h
insert_rate-In r x (q ∷ qs) h = elim (Bool-cases (text_lt q.quote_currency r.quote_currency)) [
  | inl less ↦
      swap_or (map_right (insert_rate-In r x qs) (subst (In x) (insert_rate-behind r q qs less) h))
  | inr more ↦ subst (In x) (insert_rate-before r q qs more) h
]

In-insert_rate :
    (r x : ExchangeRate) (qs : List ExchangeRate) → (r ≡ x) ⊎ In x qs → In x (insert_rate r qs)
In-insert_rate r x [] h = unfold insert_rate in h
In-insert_rate r x (q ∷ qs) h = elim (Bool-cases (text_lt q.quote_currency r.quote_currency)) [
  | inl less ↦
      subst (In x) (sym (insert_rate-behind r q qs less))
        (map_right (In-insert_rate r x qs) (swap_or h))
  | inr more ↦ subst (In x) (sym (insert_rate-before r q qs more)) h
]

insert_rate-IsSorted :
    (r : ExchangeRate) (qs : List ExchangeRate)
    → IsSorted qs
    → All (λ q. q.quote_currency ≢ r.quote_currency) qs
    → IsSorted (insert_rate r qs)
insert_rate-IsSorted r [] s d = unfold insert_rate in (tt, tt)
insert_rate-IsSorted r (q ∷ qs) (hq, s) (ne, d) =
    elim (Bool-cases (text_lt q.quote_currency r.quote_currency)) [
      | inl less ↦
          rw (insert_rate-behind r q qs less)
            (All-insert_rate _ r qs less hq, insert_rate-IsSorted r qs s d)
      | inr more ↦
          let first = r_first more (text_lt_total r.quote_currency q.quote_currency) in
          rw (insert_rate-before r q qs more) (
            (
              first,
              All_of_In _ qs (λ x i.
                  text_lt_trans r.quote_currency q.quote_currency x.quote_currency first
                    (In-All _ x qs hq i)),
            ),
            (hq, s),
          )
    ]
  where
    r_first :
        text_lt q.quote_currency r.quote_currency ≡ false
        → (text_lt r.quote_currency q.quote_currency ≡ true)
          ⊎ ((text_lt q.quote_currency r.quote_currency ≡ true)
              ⊎ (r.quote_currency ≡ q.quote_currency))
        → text_lt r.quote_currency q.quote_currency ≡ true
    r_first more (inl h) = h
    r_first more (inr (inl h)) = cc
    r_first more (inr (inr e)) = absurd (ne (sym e))

pub sort_rates-In : (x : ExchangeRate) (rs : List ExchangeRate) → In x (sort_rates rs) → In x rs
sort_rates-In x [] h = unfold sort_rates in h
sort_rates-In x (r ∷ rs) h =
    map_right (sort_rates-In x rs) (insert_rate-In r x (sort_rates rs) (sort-cons r rs h))
  where
    sort-cons :
        (r : ExchangeRate) (rs : List ExchangeRate)
        → In x (sort_rates (r ∷ rs))
        → In x (insert_rate r (sort_rates rs))
    sort-cons r rs h = unfold sort_rates in h

pub In-sort_rates : (x : ExchangeRate) (rs : List ExchangeRate) → In x rs → In x (sort_rates rs)
unfolding sort_rates
In-sort_rates x [] h = h
In-sort_rates x (r ∷ rs) h = In-insert_rate r x (sort_rates rs) (map_right (In-sort_rates x rs) h)

-- Sorting rates of distinct currencies gives them in strictly ascending order.
pub sort_rates-IsSorted : (rs : List ExchangeRate) → DistinctQuotes rs → IsSorted (sort_rates rs)
unfolding sort_rates
sort_rates-IsSorted [] d = tt
sort_rates-IsSorted (r ∷ rs) (ne, d) =
    insert_rate-IsSorted r (sort_rates rs) (sort_rates-IsSorted rs d)
      (All_of_In _ (sort_rates rs) (λ x i. In-All _ x rs ne (sort_rates-In x rs i)))

-- What a permutation keeps.
pub Permᴰ-In : {xs ys : List ExchangeRate} → Permᴰ xs ys → (x : ExchangeRate) → In x xs → In x ys
Permᴰ-In Permᴰ.nil x i = i
Permᴰ-In (Permᴰ.cons e p) x (inl h) = inl (sym e ∙ h)
Permᴰ-In (Permᴰ.cons e p) x (inr h) = inr (Permᴰ-In p x h)
Permᴰ-In (Permᴰ.swap e f) x (inl h) = inr (inl (sym e ∙ h))
Permᴰ-In (Permᴰ.swap e f) x (inr (inl h)) = inl (sym f ∙ h)
Permᴰ-In (Permᴰ.swap e f) x (inr (inr h)) = inr (inr h)
Permᴰ-In (Permᴰ.trans p q) x i = Permᴰ-In q x (Permᴰ-In p x i)

pub Permᴰ-In_back :
    {xs ys : List ExchangeRate} → Permᴰ xs ys → (x : ExchangeRate) → In x ys → In x xs
Permᴰ-In_back Permᴰ.nil x i = i
Permᴰ-In_back (Permᴰ.cons e p) x (inl h) = inl (e ∙ h)
Permᴰ-In_back (Permᴰ.cons e p) x (inr h) = inr (Permᴰ-In_back p x h)
Permᴰ-In_back (Permᴰ.swap e f) x (inl h) = inr (inl (f ∙ h))
Permᴰ-In_back (Permᴰ.swap e f) x (inr (inl h)) = inl (e ∙ h)
Permᴰ-In_back (Permᴰ.swap e f) x (inr (inr h)) = inr (inr h)
Permᴰ-In_back (Permᴰ.trans p q) x i = Permᴰ-In_back p x (Permᴰ-In_back q x i)

pub Permᴰ-DistinctQuotes :
    {xs ys : List ExchangeRate} → Permᴰ xs ys → DistinctQuotes xs → DistinctQuotes ys
Permᴰ-DistinctQuotes Permᴰ.nil d = d
Permᴰ-DistinctQuotes (Permᴰ.cons {l₂ = l₂} e p) (ne, d) = (
  All_of_In _ l₂ (λ x i. rw (← e) (In-All _ x _ ne (Permᴰ-In_back p x i))),
  Permᴰ-DistinctQuotes p d,
)
Permᴰ-DistinctQuotes (Permᴰ.swap {b = b} {b' = b'} {l = l} e f) ((ab, al), (bl, d)) =
    subst (λ x. DistinctQuotes (x ∷ b' ∷ l)) f
      (subst (λ y. DistinctQuotes (b ∷ y ∷ l)) e (((λ h. ab (sym h)), bl), (al, d)))
Permᴰ-DistinctQuotes (Permᴰ.trans p q) d = Permᴰ-DistinctQuotes q (Permᴰ-DistinctQuotes p d)
