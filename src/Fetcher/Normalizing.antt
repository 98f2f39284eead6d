-- ===== src/Fetcher/Normalizing.antt =====
-- The decimal that normalizeRate returns.
use april_homework.Common.{
  ℕ, ◌+◌, ◌*◌, ◌≤◌, ◌<◌, ◌≡◌, ◌-◌, refl, ◌∙◌, ◌∷◌, ◌++◌, Text, Option, some, false, ok, arith,
  length,
}
use april_homework.Strings.{print_nat}
use april_homework.Fetcher.Rational.{Rat, zeros}
use april_homework.Fetcher.Rate.{clean_token, normalize_rate}
use april_homework.Fetcher.Extract.{normalize_rate-IsPrinted}
use april_homework.Fetcher.Rounding.{float_string_rounds}

-- What normalizeRate returns stands for a positive number that SetString reads from the cleaned
-- token, where denominators are positive: an integer part, a point and a fraction of exactly eight
-- digits, zeros in front where they are needed; and the value of the two is the number, off by at
-- most half a unit of the eighth digit.
pub normalize_rate_rounds :
    (set_string : Text → Option Rat)
    (positive_den : (t : Text) (r : Rat) → set_string t ≡ some r → 0 < r.den)
    (token currency out : Text)
    → normalize_rate set_string token currency ≡ ok out
    → (rat : Rat) × (whole : ℕ) × (frac : ℕ) × (digits : Text) × (set_string (clean_token token)
        ≡ some rat)
      × (rat.negative ≡ false)
      × (0 < rat.num)
      × (out ≡ print_nat whole ++ (b'.' ∷ digits))
      × (digits ≡ zeros (8 - length (print_nat frac)) (print_nat frac))
      × (length digits ≡ 8)
      × (frac < 100000000)
      × (2 * (rat.num * 100000000) < 2 * (rat.den * (whole * 100000000 + frac)) + rat.den)
      × (2 * (rat.den * (whole * 100000000 + frac)) ≤ 2 * (rat.num * 100000000) + rat.den)
normalize_rate_rounds set_string positive_den token currency out h =
    let printed = normalize_rate-IsPrinted set_string token currency out h in
    let (whole, frac, text, eight, small, low, high) =
      float_string_rounds 8 printed.rat (omega arith)
        (positive_den (clean_token token) printed.rat printed.parsed) in
    (
      printed.rat,
      whole,
      frac,
      _,
      printed.parsed,
      printed.sign,
      printed.positive,
      printed.printed ∙ text,
      refl,
      eight,
      small,
      low,
      high,
    )
