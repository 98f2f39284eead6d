-- ===== src/Bob/Random.antt =====
-- internal/db/bob/factory/bobfactory_random.bob.go and bobfactory_context.bob.go: the random values of
-- the factory, and the flag of a context that ends the cascade of parents. What faker, decimal,
-- strconv, time and uuid give are arguments; a text here is its bytes.
use april_homework.Common.{
  ℕ, zero, suc, ◌≤◌, ◌≡◌, ◌⊎◌, refl, inl, inr, List, [], ◌∷◌, ◌++◌, Text, codes, Option, none, some,
  Bool, true, false, Result, length, take, length-take_le, if◌then◌else◌, ltb, ◌&&◌, Bool-cases,
  arith,
}
use april_homework.Common.Int.{ℤ, pos, negsuc}
use april_homework.Strings.{text_eq}
use april_homework.Bob.Factory.{Template}
use april_homework.Bob.Creating.{Ending, or_panic}

abbrev pub join_words : List Text → Text
join_words [] = []
join_words (w ∷ []) = w
join_words (w ∷ v ∷ ws) = w ++ codes " " ++ join_words (v ∷ ws)

-- `if limitInt > 0 && limitInt < len(val) { val = val[:limitInt] }`
unfoldable pub cut_to : ℤ → Text → Text
cut_to (negsuc n) val = val
cut_to (pos n) val = if ltb 0 n && ltb n (length val) then take n val else val

-- strconv.Atoi gives 0, or the nearest number, beside an error, which is dropped.
unfoldable pub limited_to : (Text → ℤ) → List Text → Text → Text
unfolding cut_to
limited_to atoi [] val = val
limited_to atoi (limit ∷ limits) val = cut_to (atoi limit) val

-- random_string, of the words that faker gives.
unfoldable pub random_string : (Text → ℤ) → List Text → List Text → Text
unfolding limited_to
random_string atoi words limits = limited_to atoi limits (join_words words)

-- `if f == nil { f = &defaultFaker }`
unfoldable pub faker_or_default : {F : Type 0} → F → Option F → F
faker_or_default default_faker none = default_faker
faker_or_default default_faker (some f) = f

-- What random_decimal_Decimal calls: the floats that faker gives, and the operations of decimal.
pub record Decimals (Amount : Type 0) : Type 1 where
  pub Float : Type 0
  pub is_edge : Float → Bool
  pub from_float : Float → Amount
  pub power_of_ten : ℤ → Amount
  pub multiply : Amount → Amount → Amount
  pub shift : ℤ → Amount → Amount
  pub round_down : ℤ → Amount → Amount

abbrev pub nth_or : ℕ → List Text → (Text → ℤ) → ℤ → ℤ
nth_or i [] parse other = other
nth_or zero (l ∷ ls) parse other = parse l
nth_or (suc i) (l ∷ ls) parse other = nth_or i ls parse other

abbrev pub minus_one_times : ℤ → ℤ
minus_one_times (pos zero) = pos zero
minus_one_times (pos (suc n)) = negsuc n
minus_one_times (negsuc n) = pos (suc n)

module _ {Amount : Type 0} (calls : Decimals Amount) where
  open calls use {Float, is_edge, from_float, power_of_ten, multiply, shift, round_down}

  -- The loop: the first float that is not -1, 0 or 1, of those that faker gives in turn.
  unfoldable pub base_value : List Float → Option Float
  base_value [] = none
  base_value (x ∷ xs) = let rest = base_value xs in if is_edge x then rest else some x

  abbrev pub decimal_of : ℤ → ℤ → Float → Amount
  decimal_of precision scale x =
      round_down scale
        (shift (minus_one_times scale) (multiply (from_float x) (power_of_ten precision)))

  abbrev pub map_some : {A B : Type 0} → (A → B) → Option A → Option B
  map_some f none = none
  map_some f (some a) = some (f a)

  -- random_decimal_Decimal; strconv.ParseInt gives 0 or a bound beside an error, which is dropped.
  unfoldable pub random_decimal : (Text → ℤ) → List Float → List Text → Option Amount
  unfolding base_value
  random_decimal parse_int floats limits =
      map_some (decimal_of (nth_or 0 limits parse_int (pos 7)) (nth_or 1 limits parse_int (pos 3)))
        (base_value floats)

-- random_time_Time: from a year before the first reading of the clock to a year after the second.
abbrev pub year_nanoseconds : ℕ
year_nanoseconds = 31536000000000000

unfoldable pub random_time :
    {Moment : Type 0}
    → (Moment → ℤ → Moment)
    → (Moment → Moment → Moment)
    → Moment
    → Moment
    → Moment
random_time add time_between now later =
    time_between (add now (minus_one_times (pos year_nanoseconds)))
      (add later (pos year_nanoseconds))

-- random_uuid_UUID: uuid.Must panics with the error of NewV4.
unfoldable pub random_uuid : Result Text → Ending Text
random_uuid new_v4 = or_panic new_v4

-- contextual[bool]: a context keeps, for each key of this package, the value that was last put in.
abbrev pub Context : Type 0
Context = List (Text × Bool)

unfoldable pub with_value : Text → Context → Bool → Context
with_value key ctx v = (key, v) ∷ ctx

unfoldable pub context_value : Text → Context → Option Bool
context_value key [] = none
context_value key ((k, v) ∷ ctx) =
    let rest = context_value key ctx in if text_eq k key then some v else rest

abbrev pub cascading_key : Text
cascading_key = codes "exchangeRateWithParentsCascading"

abbrev pub is_done : Option Bool → Bool
is_done none = false
is_done (some b) = b

-- WithParentsCascading: the context that it makes is a local variable.
unfoldable pub with_parents_cascading :
    {Amount : Type 0} → Context → Template Amount → Context × Template Amount
unfolding context_value with_value
with_parents_cascading ctx o =
    if is_done (context_value cascading_key ctx)
    then (ctx, o)
    else (with_value cascading_key ctx true, o)

-- A positive limit bounds the bytes of a random string, which is a prefix of the words; with no
-- limit, or one that is not positive, it is the words.
pub random_string-length :
    (atoi : Text → ℤ) (words limits : List Text) (limit : Text) (n : ℕ)
    → atoi limit ≡ pos (suc n)
    → (length (random_string atoi words (limit ∷ limits)) ≤ suc n)
      × ((random_string atoi words (limit ∷ limits) ≡ take (suc n) (join_words words))
          ⊎ (random_string atoi words (limit ∷ limits) ≡ join_words words))
unfolding random_string limited_to cut_to
random_string-length atoi words limits limit n e =
    elim (Bool-cases (ltb 0 (suc n) && ltb (suc n) (length (join_words words)))) [
      | inl h ↦ rw (e, h) (length-take_le (suc n) (join_words words), inl refl)
      | inr h ↦ rw (e, h) (ground (arith, h), inr refl)
    ]
