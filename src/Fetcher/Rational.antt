-- ===== src/Fetcher/Rational.antt =====
-- `big.Rat` as its sign, numerator and denominator, and its decimal print `FloatString`.
use april_homework.Common.{
  ℕ, zero, suc, ◌+◌, ◌-◌, ◌*◌, ◌/◌, ◌%◌, ◌^◌, ◌∷◌, ◌++◌, Text, Bool, leb, length, ◌==◌, ◌||◌,
  if◌then◌else◌,
}
use april_homework.Strings.{print_nat}

-- The value is num / den, or its negative; den is not zero.
pub record Rat : Type 0 where
  pub negative : Bool
  pub num : ℕ
  pub den : ℕ

-- rat.Sign() <= 0
unfoldable pub not_positive : Rat → Bool
not_positive r = r.negative || r.num == 0

abbrev pub zeros : ℕ → Text → Text
zeros zero s = s
zeros (suc n) s = b'0' ∷ zeros n s

-- The fraction, rounded half up at `prec` digits, in units of 10 ^ -prec.
unfoldable pub fraction : ℕ → ℕ → ℕ → ℕ
fraction prec num den =
    let scaled = num % den * 10 ^ prec in
    if leb den (2 * (scaled % den)) then scaled / den + 1 else scaled / den

-- FloatString at `prec` > 0, for a number that is not negative: the integer part, a point, and
-- `prec` digits; a fraction that rounds up to one carries into the integer part.
unfoldable pub float_string : ℕ → Rat → Text
unfolding fraction
float_string prec r =
    let q = r.num / r.den in
    let f = fraction prec r.num r.den in
    let carry = leb (10 ^ prec) f in
    let whole = if carry then q + 1 else q in
    let rest = print_nat (if carry then f - 10 ^ prec else f) in
    print_nat whole ++ (b'.' ∷ zeros (prec - length rest) rest)
