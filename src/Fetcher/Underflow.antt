-- ===== src/Fetcher/Underflow.antt =====
-- normalizeRate on numbers that are too small for eight digits.
use native.Mathlib.Nat.{mod-eq_of_lt}
use april_homework.Common.{
  ℕ, ◌+◌, ◌*◌, ◌/◌, ◌%◌, ◌^◌, ◌<◌, ◌≡◌, ap, ◌∙◌, Text, codes, Option, some, true, false, ok, arith,
  leb, if◌then◌else◌,
}
use april_homework.Strings.{print_nat}
use april_homework.Fetcher.Rational.{Rat, not_positive, fraction, float_string}
use april_homework.Fetcher.Rate.{clean_token, match_number, normalize_rat, normalize_rate}
use april_homework.Fetcher.Extract.{normalize_rate-step, normalize_rat-positive}

small_div : (a d : ℕ) → a < d → a / d ≡ 0
small_div a d h = grind arith

small_round : (a d : ℕ) → 2 * a < d → (if leb d (2 * (a % d)) then a / d + 1 else a / d) ≡ 0
small_round a d h =
    ground (arith, small_div a d (omega arith), mod-eq_of_lt {n = a} {m = d} (omega arith))

fraction-tiny : (num den : ℕ) → 2 * (num * 10 ^ 8) < den → fraction 8 num den ≡ 0
unfolding fraction
fraction-tiny num den h =
    rw (mod-eq_of_lt {n = num} {m = den} (omega arith)) (small_round (num * 10 ^ 8) den h)

tiny-print : (r : Rat) → 2 * (r.num * 10 ^ 8) < r.den → float_string 8 r ≡ codes "0.00000000"
unfolding float_string print_nat
tiny-print r h = rw (small_div r.num r.den (omega arith), fraction-tiny r.num r.den h)

-- The guard on the sign stands before the rounding: a positive number below half a unit of the
-- eighth digit passes it, and the rate is zero.
pub normalize_rate-tiny :
    (set_string : Text → Option Rat) (token currency : Text) (rat : Rat)
    → match_number (clean_token token) ≡ true
    → set_string (clean_token token) ≡ some rat
    → rat.negative ≡ false
    → 0 < rat.num
    → 2 * (rat.num * 10 ^ 8) < rat.den
    → normalize_rate set_string token currency ≡ ok (codes "0.00000000")
unfolding normalize_rat not_positive
normalize_rate-tiny set_string token currency rat digit parsed sign positive tiny =
    normalize_rate-step set_string token currency digit
    ∙ ap (normalize_rat (clean_token token) currency) parsed
    ∙ normalize_rat-positive (clean_token token) currency rat sign positive
    ∙ ap ok (tiny-print rat tiny)
