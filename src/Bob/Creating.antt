-- ===== src/Bob/Creating.antt =====
-- internal/db/bob/factory/exchange_rates.bob.go: Create and CreateMany, which insert what a template
-- builds, with the variants that panic or end a test. The insert of bob is an argument; it returns
-- the row, or an error, and the database after it.
use april_homework.Common.{ℕ, zero, suc, List, [], ◌∷◌, Text, Result, ok, err}
use april_homework.Repository.{Row}
use april_homework.Bob.{RowSetter}
use april_homework.Bob.Factory.{Template, Randoms, build_setter, ensure_creatable}

-- How a call of a factory ends: it returns, it panics, or it ends the test with tb.Fatal.
pub data Ending (A : Type 0) : Type 0 where
  returned : A → Ending A
  panicked : Text → Ending A
  fatal : Text → Ending A

abbrev pub or_panic : {A : Type 0} → Result A → Ending A
or_panic (ok a) = returned a
or_panic (err e) = panicked e

abbrev pub or_fail : {A : Type 0} → Result A → Ending A
or_fail (ok a) = returned a
or_fail (err e) = fatal e

abbrev pub cons_row : {A W : Type 0} → A → Result (List A) × W → Result (List A) × W
cons_row row (ok rows, w) = (ok (row ∷ rows), w)
cons_row row (err e, w) = (err e, w)

-- What follows one round of the loop of CreateMany.
abbrev pub created_one :
    {A W : Type 0} → Result A × W → (W → Result (List A) × W) → Result (List A) × W
created_one (err e, w) rest = (err e, w)
created_one (ok row, w) rest = cons_row row (rest w)

module _ {Amount World : Type 0}
    (insert : RowSetter Amount → World → Result (Row Amount) × World) where
  -- Create; insertOptRels has nothing to insert.
  unfoldable pub create : Template Amount → Randoms Amount → World → Result (Row Amount) × World
  unfolding ensure_creatable build_setter
  create o random w = insert (ensure_creatable random (build_setter o)) w

  -- CreateMany; the random values are those of each round, from the i-th on.
  unfoldable pub create_many :
      Template Amount → (ℕ → Randoms Amount) → ℕ → ℕ → World → Result (List (Row Amount)) × World
  unfolding create
  create_many o randoms i zero w = (ok [], w)
  create_many o randoms i (suc n) w =
      created_one (create o (randoms i) w) (create_many o randoms (suc i) n)

  -- MustCreate and MustCreateMany panic with the error, CreateOrFail and CreateManyOrFail end the
  -- test with it.
  unfoldable pub must_create : Template Amount → Randoms Amount → World → Ending (Row Amount)
  unfolding create
  must_create o random w = or_panic (create o random w).0

  unfoldable pub create_or_fail : Template Amount → Randoms Amount → World → Ending (Row Amount)
  unfolding create
  create_or_fail o random w = or_fail (create o random w).0

  unfoldable pub must_create_many :
      Template Amount → (ℕ → Randoms Amount) → ℕ → World → Ending (List (Row Amount))
  unfolding create_many
  must_create_many o randoms n w = or_panic (create_many o randoms 0 n w).0

  unfoldable pub create_many_or_fail :
      Template Amount → (ℕ → Randoms Amount) → ℕ → World → Ending (List (Row Amount))
  unfolding create_many
  create_many_or_fail o randoms n w = or_fail (create_many o randoms 0 n w).0
