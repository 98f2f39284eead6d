-- ===== src/Bob/RandInt.antt =====
-- The numbers of randInt.
use april_homework.Common.{
  ℕ, ◌-◌, ◌^◌, ◌%◌, ◌<◌, ◌≡◌, ◌≢◌, refl, ap, ◌∙◌, inl, inr, false, ltb, lt→ltb, Bool-cases, ltb→lt,
  arith,
}
use april_homework.Common.Int.{pos, negsuc}
use april_homework.Bob.Joins.{
  two_63, two_64, int64_of, word_of, negate, remainder, rand_of, rand_int,
}

int64_of-low : (sum : ℕ) → sum < two_63 → int64_of sum ≡ pos sum
unfolding int64_of
int64_of-low sum h = rw (lt→ltb sum two_63 h) refl

int64_of-high : (sum : ℕ) → ltb sum two_63 ≡ false → int64_of sum ≡ negsuc (two_64 - 1 - sum)
unfolding int64_of
int64_of-high sum h = rw h refl

rand_int-low : (sum : ℕ) → sum < two_63 → rand_int sum ≡ pos (sum % 10000)
unfolding rand_int rand_of remainder
rand_int-low sum h = ap rand_of (int64_of-low sum h)

negate-high :
    (sum : ℕ)
    → two_63 < sum
    → sum < two_64
    → negate (negsuc (two_64 - 1 - sum)) ≡ pos (two_64 - sum)
unfolding negate int64_of word_of
negate-high sum above below =
    let word : (two_64 - (two_64 - 1 - (two_64 - 1 - sum))) % two_64 ≡ two_64 - sum = omega arith in
    rw (word, lt→ltb (two_64 - sum) two_63 (omega arith)) refl

rand_int-high :
    (sum : ℕ) → two_63 < sum → sum < two_64 → rand_int sum ≡ pos ((two_64 - sum) % 10000)
unfolding rand_int rand_of remainder
rand_int-high sum above below =
    ap rand_of (int64_of-high sum (ground arith))
    ∙ ap (λ x. remainder x 10000) (negate-high sum above below)

rand_int-least : rand_int two_63 ≡ negsuc 5807
unfolding rand_int rand_of int64_of negate word_of remainder
rand_int-least = refl

-- Of every sum of 64 bits randInt makes a number from 0 to 9999, but for one: of the sum 2^63, of
-- which the negation wraps around to itself, it makes -5808.
pub rand_int-bounds :
    (sum : ℕ)
    → sum < 2 ^ 64
    → (sum ≢ 2 ^ 63 → (n : ℕ) × (rand_int sum ≡ pos n) × (n < 10000))
      × (sum ≡ 2 ^ 63 → rand_int sum ≡ negsuc 5807)
rand_int-bounds sum h = (
  λ other. elim (Bool-cases (ltb sum two_63)) [
    | inl e ↦ (sum % 10000, rand_int-low sum (ltb→lt sum two_63 e), omega arith)
    | inr e ↦
        ((two_64 - sum) % 10000, rand_int-high sum (above e other) (omega (arith, h)), omega arith)
  ],
  λ e. rw e rand_int-least,
)
  where
    above : ltb sum two_63 ≡ false → sum ≢ 2 ^ 63 → two_63 < sum
    above e other = ground (arith, e, other)
