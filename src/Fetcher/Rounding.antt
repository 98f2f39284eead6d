-- ===== src/Fetcher/Rounding.antt =====
-- How FloatString rounds, and the form of what it prints.
use native.Mathlib.Nat.{mod-lt, div-add-mod, pow-suc, one-le-pow, mul-le-mul_left}
use native.Mathlib.Decide.{dec_le}
use april_homework.Common.{
  ℕ, zero, suc, ◌+◌, ◌-◌, ◌*◌, ◌/◌, ◌%◌, ◌^◌, ◌≤◌, ◌<◌, ◌≡◌, refl, ap, inl, inr, [], ◌∷◌, ◌++◌,
  Text, arith, Bool-cases, length, leb, ◌==◌, if◌then◌else◌,
}
use april_homework.Strings.{print_nat, digits_from}
use april_homework.Fetcher.Rational.{Rat, zeros, fraction, float_string}

-- The integer part and the fraction that FloatString prints, in units of 10 ^ -prec.
whole_part : ℕ → Rat → ℕ
whole_part prec r =
    if leb (10 ^ prec) (fraction prec r.num r.den) then r.num / r.den + 1 else r.num / r.den

fraction_part : ℕ → Rat → ℕ
fraction_part prec r =
    if leb (10 ^ prec) (fraction prec r.num r.den)
    then fraction prec r.num r.den - 10 ^ prec
    else fraction prec r.num r.den

-- Rounded division: the quotient is within one half of the exact value.
round_bounds :
    (a d : ℕ)
    → 0 < d
    → (2 * a < 2 * (d * (if leb d (2 * (a % d)) then a / d + 1 else a / d)) + d)
      × (2 * (d * (if leb d (2 * (a % d)) then a / d + 1 else a / d)) ≤ 2 * a + d)
round_bounds a d h = elim (Bool-cases (leb d (2 * (a % d)))) [
  | inl up ↦ rw up (ground (arith, div-add-mod a d, mod-lt a h))
  | inr down ↦ rw down (ground (arith, div-add-mod a d, mod-lt a h))
]

length-digits_from :
    (k fuel n : ℕ) (out : Text) → n < 10 ^ k → length (digits_from fuel n out) ≤ k + length out
unfolding digits_from
length-digits_from k zero n out h = omega arith
length-digits_from zero (suc fuel) n out h = elim (Bool-cases (n == 0)) [
  | inl stop ↦ rw (stop, digits_from) (omega arith)
  | inr more ↦ absurd (ground arith)
]
length-digits_from (suc k) (suc fuel) n out h = elim (Bool-cases (n == 0)) [
  | inl stop ↦ rw (stop, digits_from) (omega arith)
  | inr more ↦
      rw (more, digits_from)
        (omega (
          arith,
          length-digits_from k fuel (n / 10) ((b'0' + n % 10) ∷ out) (omega (arith, pow-suc 10 k)),
        ))
]

length-print_nat : (k n : ℕ) → 0 < k → n < 10 ^ k → length (print_nat n) ≤ k
unfolding print_nat
length-print_nat k n pos h = elim (Bool-cases (n == 0)) [
  | inl none_left ↦ rw none_left (omega arith)
  | inr some_left ↦ rw some_left (omega (arith, length-digits_from k n n [] h))
]

length-zeros : (n : ℕ) (s : Text) → length (zeros n s) ≡ n + length s
length-zeros zero s = omega arith
length-zeros (suc n) s = omega (arith, length-zeros n s)

-- num / den = q with remainder m: the fraction of m, rounded.
fraction_bounds :
    (prec num den : ℕ)
    → 0 < den
    → (2 * (num % den * 10 ^ prec) < 2 * (den * fraction prec num den) + den)
      × (2 * (den * fraction prec num den) ≤ 2 * (num % den * 10 ^ prec) + den)
unfolding fraction
fraction_bounds prec num den h = round_bounds (num % den * 10 ^ prec) den h

parts-sum :
    (prec : ℕ) (r : Rat)
    → whole_part prec r * 10 ^ prec + fraction_part prec r
      ≡ r.num / r.den * 10 ^ prec + fraction prec r.num r.den
unfolding whole_part fraction_part
parts-sum prec r = elim (Bool-cases (leb (10 ^ prec) (fraction prec r.num r.den))) [
  | inl carry ↦ rw carry (ground arith)
  | inr stay ↦ rw stay
]

scaled_le : (m d p : ℕ) → m < d → m * p + p ≤ d * p
scaled_le m d p h = grind arith

fraction-le : (prec num den : ℕ) → 0 < den → fraction prec num den ≤ 10 ^ prec
fraction-le prec num den h =
    below (fraction prec num den) (10 ^ prec) (num % den) den h (mod-lt num h)
      (fraction_bounds prec num den h).1
  where
    below : (f p m d : ℕ) → 0 < d → m < d → 2 * (d * f) ≤ 2 * (m * p) + d → f ≤ p
    below f p m d pos small h = elim (dec_le f p) [
      | yes good ↦ good
      | no bad ↦ absurd (over f p m d pos small h (omega arith))
    ]
      where
        over : (f p m d : ℕ) → 0 < d → m < d → 2 * (d * f) ≤ 2 * (m * p) + d → p + 1 ≤ f → ⊥
        over f p m d pos small h big = omega (arith, scaled_le m d p small, mul-le-mul_left d big)

fraction_part-lt : (prec : ℕ) (r : Rat) → 0 < r.den → fraction_part prec r < 10 ^ prec
unfolding fraction_part
fraction_part-lt prec r h =
    ground (arith, fraction-le prec r.num r.den h, one-le-pow prec 10 (omega arith))

-- What FloatString prints at a positive precision: an integer part, a point and exactly `prec`
-- digits, which together are the value in units of 10 ^ -prec, off by at most one half.
pub float_string_rounds :
    (prec : ℕ) (r : Rat)
    → 0 < prec
    → 0 < r.den
    → (whole : ℕ) × (frac : ℕ) × (float_string prec r
        ≡ print_nat whole ++ (b'.' ∷ zeros (prec - length (print_nat frac)) (print_nat frac)))
      × (length (zeros (prec - length (print_nat frac)) (print_nat frac)) ≡ prec)
      × (frac < 10 ^ prec)
      × (2 * (r.num * 10 ^ prec) < 2 * (r.den * (whole * 10 ^ prec + frac)) + r.den)
      × (2 * (r.den * (whole * 10 ^ prec + frac)) ≤ 2 * (r.num * 10 ^ prec) + r.den)
unfolding float_string
float_string_rounds prec r pos den_pos =
    let small = fraction_part-lt prec r den_pos in
    let (low, high) = fraction_bounds prec r.num r.den den_pos in
    let (low', high') =
      total_bounds r.num r.den (r.num / r.den) (r.num % r.den) (10 ^ prec)
        (fraction prec r.num r.den) (div-add-mod r.num r.den) low high in
    (
      whole_part prec r,
      fraction_part prec r,
      (unfold whole_part fraction_part in refl),
      omega (
        arith,
        length-zeros (prec - length (print_nat (fraction_part prec r)))
            (print_nat (fraction_part prec r)),
        length-print_nat prec (fraction_part prec r) pos small,
      ),
      small,
      rw (parts-sum prec r) low',
      rw (parts-sum prec r) high',
    )
  where
    total_bounds :
        (n d q m p f : ℕ)
        → d * q + m ≡ n
        → 2 * (m * p) < 2 * (d * f) + d
        → 2 * (d * f) ≤ 2 * (m * p) + d
        → (2 * (n * p) < 2 * (d * (q * p + f)) + d) × (2 * (d * (q * p + f)) ≤ 2 * (n * p) + d)
    total_bounds n d q m p f e low high =
        (omega (arith, ap (λ (t : ℕ). t * p) e), omega (arith, ap (λ (t : ℕ). t * p) e))
