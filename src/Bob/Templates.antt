-- ===== src/Bob/Templates.antt =====
-- Templates: what is built beside what the setter writes, the template of a row, and the columns that
-- an insert needs.
use april_homework.Common.{◌≡◌, ◌≢◌, refl, sym, ap, ◌∙◌, List, [], ◌∷◌, ◌++◌, Option, none, some}
use april_homework.Repository.{Row}
use april_homework.Bob.{RowSetter, set_or, overwrite, set_columns, column_names}
use april_homework.Bob.Mods.{randomize_all_columns}
use april_homework.Bob.Factory.{
  Template, call, call_or, build_setter, zero_row, build, from_existing, Randoms, or_random,
  ensure_creatable, Generators, apply_mods, add_base_mods, clear_base_mods, new_exchange_rate,
  empty_template,
}

set_or-call : {A : Type 0} (o : Option (Unit {0} → A)) (a : A) → set_or (call o) a ≡ call_or o a
set_or-call none a = refl
set_or-call (some f) a = refl

set_or-or_random :
    {A : Type 0} (o : Option A) (r a : A)
    → set_or o (set_or (or_random o r) a) ≡ set_or (or_random o r) a
set_or-or_random none r a = refl
set_or-or_random (some b) r a = refl

set_or-set_or : {A : Type 0} (o : Option A) (a : A) → set_or o (set_or o a) ≡ set_or o a
set_or-set_or none a = refl
set_or-set_or (some b) a = refl

or_random-some : {A : Type 0} (o : Option A) (r : A) → or_random o r ≢ none
or_random-some none r e = cc
or_random-some (some a) r e = cc

-- Overwriting the zero row with the setter of a template gives the row that the template builds;
-- and the template of a row builds that row.
pub build-overwrite :
    {Amount : Type 0} (zero_amount : Amount) (o : Template Amount) (row : Row Amount)
    → (overwrite (build_setter o) (zero_row zero_amount) ≡ build zero_amount o)
      × (build zero_amount (from_existing row) ≡ row)
unfolding overwrite build_setter build from_existing
build-overwrite zero_amount o row = (simp (set_or-call) refl, refl)

-- ensureCreatableExchangeRate sets the five columns that have no default, and what was set before
-- stays: the row that the filled setter writes is not changed by the first setter.
pub ensure_creatable_complete :
    {Amount : Type 0} (random : Randoms Amount) (m : RowSetter Amount) (t : Row Amount)
    → let filled = ensure_creatable random m in
      ((filled.id ≢ none)
        × (filled.quote_currency ≢ none)
        × (filled.rate ≢ none)
        × (filled.effective_date ≢ none)
        × (filled.source ≢ none))
      × (overwrite m (overwrite filled t) ≡ overwrite filled t)
unfolding ensure_creatable overwrite
ensure_creatable_complete random m t = (
  (
    or_random-some m.id random.id,
    or_random-some m.quote_currency random.quote_currency,
    or_random-some m.rate random.rate,
    or_random-some m.effective_date random.effective_date,
    or_random-some m.source random.source,
  ),
  simp (set_or-set_or, set_or-or_random) refl,
)

apply_mods-append :
    {Amount : Type 0} (fs gs : List (Template Amount → Template Amount)) (o : Template Amount)
    → apply_mods (fs ++ gs) o ≡ apply_mods gs (apply_mods fs o)
unfolding apply_mods
apply_mods-append [] gs o = refl
apply_mods-append (f ∷ fs) gs o = apply_mods-append fs gs (f o)

-- The mods of a factory and those of a call act as one list, the factory's first, so that mods which
-- are added to the factory act as those that each call would begin with, and none act once they are
-- cleared; and where the last mod is RandomizeAllColumns, the setter of the template sets every
-- column.
pub new_exchange_rate-sets :
    {Amount : Type 0} (base added mods : List (Template Amount → Template Amount))
    (r : Generators Amount)
    → (new_exchange_rate base mods ≡ apply_mods (base ++ mods) empty_template)
      × (new_exchange_rate (add_base_mods base added) mods ≡ new_exchange_rate base (added ++ mods))
      × (new_exchange_rate (clear_base_mods base) mods ≡ apply_mods mods empty_template)
      × (set_columns (build_setter (new_exchange_rate base (mods ++ randomize_all_columns r ∷ [])))
          ≡ column_names)
unfolding new_exchange_rate add_base_mods clear_base_mods
new_exchange_rate-sets base added mods r = (
  sym (apply_mods-append base mods empty_template),
  ap (apply_mods mods) (apply_mods-append base added empty_template)
      ∙ sym (apply_mods-append added mods (apply_mods base empty_template)),
  (unfold apply_mods in refl),
  ap (λ o. set_columns (build_setter o))
        (apply_mods-append mods (randomize_all_columns r ∷ []) (apply_mods base empty_template))
      ∙ (unfold apply_mods randomize_all_columns build_setter set_columns column_names in refl),
)
