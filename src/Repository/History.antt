-- ===== src/Repository/History.antt =====
-- What History returns.
use april_homework.Common.{
  ℕ, zero, suc, ◌≤◌, ◌<◌, ◌≡◌, ◌↔◌, none, some, refl, sym, ap, ◌∙◌, subst, inl, inr, ◌⊎◌, List, [],
  ◌∷◌, map, Text, Option, true, false, ok, ok_inj, >>=-eq-ok, wrap-eq-ok, arith, In, All, In-All,
  take, length, length-map, length-take_le,
}
use april_homework.Common.Int.{ℤ, pos, negsuc}
use april_homework.Strings.Laws.{text_eq_iff}
use april_homework.Time.{Time, after}
use april_homework.Entities.{ExchangeRate}
use april_homework.Repository.{Row, Database, clamp_limit, history_query, to_entity, history}
use april_homework.Repository.Postgres.{IsPostgres, passes_all}
use april_homework.Repository.Ordering.{IsDescending, IsOrderedBy-IsDescending}

-- The limit is between 1 and 500, and a limit in that range is kept.
pub clamp_limit_bounds : (limit : ℤ) → (1 ≤ clamp_limit limit) × (clamp_limit limit ≤ 500)
unfolding clamp_limit
clamp_limit_bounds (negsuc n) = omega arith
clamp_limit_bounds (pos zero) = omega arith
clamp_limit_bounds (pos (suc n)) = ground arith

clamp_limit-kept : (n : ℕ) → 1 ≤ n → n ≤ 500 → clamp_limit (pos n) ≡ n
unfolding clamp_limit
clamp_limit-kept zero h k = absurd (omega arith)
clamp_limit-kept (suc n) h k = ground arith

module _ {A : Type 0} where
  take-In : (n : ℕ) (xs : List (Row A)) (r : Row A) → In r (take n xs) → In r xs
  take-In zero xs r h = absurd h
  take-In (suc n) [] r h = absurd h
  take-In (suc n) (x ∷ xs) r (inl e) = inl e
  take-In (suc n) (x ∷ xs) r (inr h) = inr (take-In n xs r h)

  All-take : (P : Row A → Type 0) (n : ℕ) (xs : List (Row A)) → All P xs → All P (take n xs)
  All-take P zero xs h = tt
  All-take P (suc n) [] h = tt
  All-take P (suc n) (x ∷ xs) (hx, hs) = (hx, All-take P n xs hs)

  IsDescending-take : (n : ℕ) (xs : List (Row A)) → IsDescending xs → IsDescending (take n xs)
  IsDescending-take zero xs h = tt
  IsDescending-take (suc n) [] h = tt
  IsDescending-take (suc n) (x ∷ xs) (hx, hs) = (All-take _ n xs hx, IsDescending-take n xs hs)

  -- What a prefix of a descending list leaves out is not after any row of the prefix.
  left_out :
      (n : ℕ) (xs : List (Row A)) (r : Row A)
      → IsDescending xs
      → In r xs
      → In r (take n xs) ⊎ All (λ q. after r.effective_date q.effective_date ≡ false) (take n xs)
  left_out zero xs r h i = inr tt
  left_out (suc n) [] r h i = absurd i
  left_out (suc n) (x ∷ xs) r h (inl e) = inl (inl e)
  left_out (suc n) (x ∷ xs) r (hx, hs) (inr i) = elim (left_out n xs r hs i) [
    | inl k ↦ inl (inr k)
    | inr older ↦ inr (In-All _ r xs hx i, older)
  ]

  -- A prefix that is shorter than its bound is the whole list.
  take_short : (n : ℕ) (xs : List (Row A)) → length (take n xs) < n → take n xs ≡ xs
  take_short zero xs h = elim h [ ]
  take_short (suc n) [] h = refl
  take_short (suc n) (x ∷ xs) h = ap (λ ys. x ∷ ys) (take_short n xs (omega arith))

-- A row that History may show: of this currency, and on no day before the first bound or after the
-- second, where they are given.
abbrev pub IsFrom : Option Time → Time → Type 0
IsFrom none t = Unit
IsFrom (some bound) t = after bound t ≡ false

abbrev pub IsUntil : Option Time → Time → Type 0
IsUntil none t = Unit
IsUntil (some bound) t = after t bound ≡ false

module _ {A : Type 0} (currency : Text) (from_date to_date : Option Time) where
  abbrev pub IsMatch : Row A → Type 0
  IsMatch r =
      (r.quote_currency ≡ currency)
      × IsFrom from_date r.effective_date
      × IsUntil to_date r.effective_date

history_query-IsMatch :
    {A : Type 0} (currency : Text) (from_date to_date : Option Time) (limit : ℤ) (r : Row A)
    → (passes_all (history_query currency from_date to_date limit).filters r ≡ true)
      ↔ IsMatch currency from_date to_date r
unfolding history_query
history_query-IsMatch currency none none limit r =
    ground (arith, text_eq_iff r.quote_currency currency)
history_query-IsMatch currency (some a) none limit r =
    ground (arith, text_eq_iff r.quote_currency currency)
history_query-IsMatch currency none (some b) limit r =
    ground (arith, text_eq_iff r.quote_currency currency)
history_query-IsMatch currency (some a) (some b) limit r =
    ground (arith, text_eq_iff r.quote_currency currency)

module _ (db : Database) (pg : IsPostgres db) (currency : Text) (from_date to_date : Option Time)
    (limit : ℤ) where
  pub record IsHistory (w : db.World) (out : List ExchangeRate) : Type 0 where
    pub rows : List (Row db.Amount)
    pub shown : out ≡ map (to_entity db) rows
    pub bounded : length out ≤ clamp_limit limit
    pub at_most : length out ≤ 500
    pub asked : (n : ℕ) → limit ≡ pos n → 1 ≤ n → n ≤ 500 → length out ≤ n
    pub matching :
        (r : Row db.Amount)
        → In r rows
        → In r (pg.committed w) × IsMatch currency from_date to_date r
    pub descending : IsDescending rows
    pub newest :
        (r : Row db.Amount)
        → In r (pg.committed w)
        → IsMatch currency from_date to_date r
        → In r rows ⊎ All (λ p. after r.effective_date p.effective_date ≡ false) rows
    pub complete :
        length out < clamp_limit limit
        → (r : Row db.Amount) → In r (pg.committed w)
        → IsMatch currency from_date to_date r
        → In r rows

-- What History returns are rows of the table of that currency, none before the first date or after
-- the second where they are given, in descending order of their dates, at most the limit if that is
-- from 1 to 500, and never more than 500; a matching row that is left out is not later than any that
-- is returned, and if fewer rows than the limit are returned, none is left out.
pub history-IsHistory :
    (db : Database) (pg : IsPostgres db) (currency : Text) (from_date to_date : Option Time)
    (limit : ℤ) (w : db.World) (out : List ExchangeRate)
    → history db currency from_date to_date limit w ≡ ok out
    → IsHistory db pg currency from_date to_date limit w out
unfolding history history_query
history-IsHistory db pg currency from_date to_date limit w out h =
    let n = clamp_limit limit in
    let same = λ (r : Row db.Amount). history_query-IsMatch currency from_date to_date limit r in
    let (rows, got, shown) = >>=-eq-ok _ _ h in
    let (all, prefix, sound, full, ordered) =
      pg.history_law (history_query currency from_date to_date limit) w rows (wrap-eq-ok _ _ got) in
    let sorted = IsOrderedBy-IsDescending all ordered in
    let rows' = take n all in
    let shown' : out ≡ map (to_entity db) rows' =
      sym (ok_inj shown) ∙ ap (map (to_entity db)) prefix in
    let count : length out ≡ length rows' = ap length shown' ∙ length-map (to_entity db) rows' in
    let bounded : length out ≤ n = omega (arith, count, length-take_le n all) in
    record {
      rows = rows';
      shown = shown';
      bounded = bounded;
      at_most = omega (arith, bounded, (clamp_limit_bounds limit).1);
      asked = λ k e low high.
          subst (λ m. length out ≤ m) (ap clamp_limit e ∙ clamp_limit-kept k low high) bounded;
      matching = λ r i. let (k, e) = sound r (take-In n all r i) in (k, (same r).0 e);
      descending = IsDescending-take n all sorted;
      newest = λ r i e. left_out n all r sorted (full r i ((same r).1 e));
      complete = λ short r i e.
          subst (In r) (sym (take_short n all (omega (arith, count, short))))
            (full r i ((same r).1 e));
    }
