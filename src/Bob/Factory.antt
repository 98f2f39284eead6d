-- ===== src/Bob/Factory.antt =====
-- internal/db/bob/factory/exchange_rates.bob.go and bobfactory_main.bob.go: templates of a row, a
-- function for each column that is set; what is built from them; and the random values that fill
-- the columns which an insert needs. The generators of random values are parameters.
use april_homework.Common.{ℕ, zero, suc, List, [], ◌∷◌, ◌++◌, Text, Option, none, some}
use april_homework.Time.{Time, zero_time}
use april_homework.Repository.{Row}
use april_homework.Bob.{RowSetter}

-- ExchangeRateTemplate
pub record Template (Amount : Type 0) : Type 0 where
  pub id : Option (Unit {0} → Text)
  pub base_currency : Option (Unit {0} → Text)
  pub quote_currency : Option (Unit {0} → Text)
  pub rate : Option (Unit {0} → Amount)
  pub effective_date : Option (Unit {0} → Time)
  pub source : Option (Unit {0} → Text)
  pub source_published_at : Option (Unit {0} → Option Time)
  pub created_at : Option (Unit {0} → Time)

abbrev pub call : {A : Type 0} → Option (Unit {0} → A) → Option A
call none = none
call (some f) = some (f tt)

abbrev pub call_or : {A : Type 0} → Option (Unit {0} → A) → A → A
call_or none a = a
call_or (some f) a = f tt

-- ExchangeRateModSlice.Apply: the mods in turn.
unfoldable pub apply_mods :
    {Amount : Type 0} → List (Template Amount → Template Amount) → Template Amount → Template Amount
apply_mods [] o = o
apply_mods (f ∷ fs) o = apply_mods fs (f o)

module _ {Amount : Type 0} where
  -- BuildSetter
  unfoldable pub build_setter : Template Amount → RowSetter Amount
  build_setter o = record {
    id = call o.id;
    base_currency = call o.base_currency;
    quote_currency = call o.quote_currency;
    rate = call o.rate;
    effective_date = call o.effective_date;
    source = call o.source;
    source_published_at = call o.source_published_at;
    created_at = call o.created_at;
  }

  -- The zero value of a row, given that of decimal.Decimal.
  abbrev pub zero_row : Amount → Row Amount
  zero_row zero_amount = record {
    id = [];
    base_currency = [];
    quote_currency = [];
    rate = zero_amount;
    effective_date = zero_time;
    source = [];
    source_published_at = none;
    created_at = zero_time;
  }

  -- Build
  unfoldable pub build : Amount → Template Amount → Row Amount
  build zero_amount o = record {
    id = call_or o.id [];
    base_currency = call_or o.base_currency [];
    quote_currency = call_or o.quote_currency [];
    rate = call_or o.rate zero_amount;
    effective_date = call_or o.effective_date zero_time;
    source = call_or o.source [];
    source_published_at = call_or o.source_published_at none;
    created_at = call_or o.created_at zero_time;
  }

  -- BuildMany
  unfoldable pub build_many : Amount → Template Amount → ℕ → List (Row Amount)
  unfolding build
  build_many zero_amount o zero = []
  build_many zero_amount o (suc n) = build zero_amount o ∷ build_many zero_amount o n

  -- BuildManySetter
  unfoldable pub build_many_setter : Template Amount → ℕ → List (RowSetter Amount)
  unfolding build_setter
  build_many_setter o zero = []
  build_many_setter o (suc n) = build_setter o ∷ build_many_setter o n

  -- FromExistingExchangeRate
  unfoldable pub from_existing : Row Amount → Template Amount
  from_existing m = record {
    id = some (λ _. m.id);
    base_currency = some (λ _. m.base_currency);
    quote_currency = some (λ _. m.quote_currency);
    rate = some (λ _. m.rate);
    effective_date = some (λ _. m.effective_date);
    source = some (λ _. m.source);
    source_published_at = some (λ _. m.source_published_at);
    created_at = some (λ _. m.created_at);
  }

-- The generators that the Random mods set.
pub record Generators (Amount : Type 0) : Type 0 where
  pub id : Unit {0} → Text
  pub base_currency : Unit {0} → Text
  pub quote_currency : Unit {0} → Text
  pub rate : Unit {0} → Amount
  pub effective_date : Unit {0} → Time
  pub source : Unit {0} → Text
  pub source_published_at : Unit {0} → Option Time
  pub created_at : Unit {0} → Time

-- NewExchangeRateWithContext: the base mods of the factory, then those of the call.
abbrev pub empty_template : {Amount : Type 0} → Template Amount
empty_template = record {
  id = none;
  base_currency = none;
  quote_currency = none;
  rate = none;
  effective_date = none;
  source = none;
  source_published_at = none;
  created_at = none;
}

unfoldable pub new_exchange_rate :
    {Amount : Type 0}
    → List (Template Amount → Template Amount)
    → List (Template Amount → Template Amount)
    → Template Amount
unfolding apply_mods
new_exchange_rate base mods = apply_mods mods (apply_mods base empty_template)

-- AddBaseExchangeRateMod and ClearBaseExchangeRateMods: the base mods of a factory after the call.
unfoldable pub add_base_mods :
    {Amount : Type 0}
    → List (Template Amount → Template Amount)
    → List (Template Amount → Template Amount)
    → List (Template Amount → Template Amount)
add_base_mods base mods = base ++ mods

unfoldable pub clear_base_mods :
    {Amount : Type 0}
    → List (Template Amount → Template Amount)
    → List (Template Amount → Template Amount)
clear_base_mods base = []

abbrev pub or_random : {A : Type 0} → Option A → A → Option A
or_random none a = some a
or_random (some b) a = some b

-- The random values of one insert: id, quote_currency, rate, effective_date, source.
pub record Randoms (Amount : Type 0) : Type 0 where
  pub id : Text
  pub quote_currency : Text
  pub rate : Amount
  pub effective_date : Time
  pub source : Text

-- ensureCreatableExchangeRate
unfoldable pub ensure_creatable :
    {Amount : Type 0} → Randoms Amount → RowSetter Amount → RowSetter Amount
ensure_creatable random m = record m {
  id = or_random m.id random.id;
  quote_currency = or_random m.quote_currency random.quote_currency;
  rate = or_random m.rate random.rate;
  effective_date = or_random m.effective_date random.effective_date;
  source = or_random m.source random.source;
}
