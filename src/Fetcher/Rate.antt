-- ===== src/Fetcher/Rate.antt =====
-- extractRate, normalizeRate and cleanToken of banklv.go.
use april_homework.Common.{
  ℕ, List, [], ◌∷◌, ◌++◌, Text, codes, Option, none, some, Bool, true, false, Result, ok, err, leb,
  ◌&&◌, ◌||◌, if◌then◌else◌,
}
use april_homework.Strings.{trim, equal_fold, fields, quote, replace_char}
use april_homework.Fetcher.Rational.{Rat, not_positive, float_string}

abbrev pub trim_cutset : Text
trim_cutset = codes " \t\r\n:;,.()[]{}"

unfoldable pub clean_token : Text → Text
unfolding trim
clean_token value = trim value trim_cutset

abbrev pub is_digit : ℕ → Bool
is_digit c = leb b'0' c && leb c b'9'

-- numberPattern.MatchString: the pattern is not anchored and its fraction is optional, so that it
-- matches exactly where there is a digit.
unfoldable pub match_number : Text → Bool
match_number [] = false
match_number (c ∷ s) = is_digit c || match_number s

unfoldable pub normalize_rat : Text → Text → Option Rat → Result Text
normalize_rat value currency none =
    err (codes "invalid rate " ++ quote value ++ codes " for " ++ currency)
normalize_rat value currency (some rat) =
    if not_positive rat
    then err (codes "invalid rate " ++ quote value ++ codes " for " ++ currency)
    else ok (float_string 8 rat)

abbrev pub missing : Text → Result Text
missing currency = err (codes "no numeric rate for " ++ currency)

module _ (set_string : Text → Option Rat) where
  unfoldable pub normalize_rate : Text → Text → Result Text
  unfolding normalize_rat clean_token match_number
  normalize_rate raw currency =
      let value = clean_token raw in
      if match_number value
      then normalize_rat value currency (set_string value)
      else err (codes "no numeric rate for " ++ currency)

  -- The loop over the fields: `before` is the field before the current one, if there is one.
  unfoldable pub extract_from : Option Text → List Text → Text → Result Text
  unfolding normalize_rate
  extract_from before [] currency = missing currency
  extract_from before (field ∷ []) currency = elim (equal_fold (clean_token field) currency) [
    | true ↦ elim before [ none ↦ missing currency | some value ↦ normalize_rate value currency ]
    | false ↦ missing currency
  ]
  extract_from before (field ∷ value ∷ rest) currency =
      elim (equal_fold (clean_token field) currency) [
        | true ↦ normalize_rate value currency
        | false ↦ extract_from (some field) (value ∷ rest) currency
      ]

  unfoldable pub extract_rate : Text → Text → Result Text
  unfolding extract_from
  extract_rate text currency = extract_from none (fields (replace_char b',' b'.' text)) currency
