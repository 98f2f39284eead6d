-- ===== src/Common/Errors.antt =====
-- Text as a list of code points, and Go's `(value, error)` results: an error is its message.
use Prim.Native.Nat.{ℕ}
use Prim.Native.Char.{code}
use Prim.Native.String.{String}
use mathlib.Core.Path.{◌≡◌, refl}
use mathlib.Core.List.{List, [], ◌∷◌}
use mathlib.Core.Logic.{◌⊎◌, inl, inr}
use mathlib.Core.Option.{some}

abbrev pub Text : Type 0
Text = List ℕ

-- The code points of a literal.
abbrev pub codes : String → Text
codes String.[] = []
codes (String.◌∷◌ c s) = code c ∷ codes s

pub data Result {ℓ} (A : Type ℓ) : Type ℓ where
  ok : A → Result A
  err : Text → Result A

infixl 5 ◌>>=◌
abbrev pub ◌>>=◌ {κ ℓ} : {X : Type κ} {Y : Type ℓ} → Result X → (X → Result Y) → Result Y
err message >>= rest = err message
ok value >>= rest = rest value

pub Result-cases {ℓ} :
    {A : Type ℓ} (r : Result A) → ((a : A) × (r ≡ ok a)) ⊎ ((e : Text) × (r ≡ err e))
Result-cases (ok a) = inl (a, refl)
Result-cases (err e) = inr (e, refl)

-- `fmt.Errorf("…: %w", err)` puts a prefix before the message of the error.
abbrev pub wrap {ℓ} : {A : Type ℓ} → (Text → Text) → Result A → Result A
wrap f (ok a) = ok a
wrap f (err e) = err (f e)

-- Inversion of a successful bind, with the message of its first step wrapped or not.
pub >>=-eq-ok {κ ℓ} :
    {X : Type κ} {Y : Type ℓ} {y : Y} (first : Result X) (rest : X → Result Y)
    → first >>= rest ≡ ok y
    → (x : X) × (first ≡ ok x) × (rest x ≡ ok y)
>>=-eq-ok (err message) rest e = cc
>>=-eq-ok (ok value) rest e = (value, refl, e)

pub wrap-eq-ok {ℓ} :
    {A : Type ℓ} (f : Text → Text) (r : Result A) {a : A} → wrap f r ≡ ok a → r ≡ ok a
wrap-eq-ok f (ok a) h = h
wrap-eq-ok f (err e) h = cc

-- Inversion of a failed step whose message was wrapped.
pub wrap-eq-err {ℓ} :
    {A : Type ℓ} (f : Text → Text) (r : Result A) {e : Text}
    → wrap f r ≡ err e
    → (x : Text) × (r ≡ err x) × (e ≡ f x)
wrap-eq-err f (ok a) h = cc
wrap-eq-err f (err x) h = (x, refl, cc)

pub some_inj {ℓ} : {A : Type ℓ} {a b : A} → some a ≡ some b → a ≡ b
some_inj e = cc

pub ok_inj {ℓ} : {A : Type ℓ} {a b : A} → ok a ≡ ok b → a ≡ b
ok_inj e = cc
