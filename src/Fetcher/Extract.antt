-- ===== src/Fetcher/Extract.antt =====
-- Where in the text the rate that extractRate returns comes from, and what its guard lets pass.
use april_homework.Common.{
  ◌<◌, ◌≡◌, refl, sym, ◌∙◌, inl, inr, List, [], ◌∷◌, ◌++◌, Text, codes, Option, none, some, true,
  false, ok, err, arith, Bool-cases,
}
use april_homework.Strings.{quote, equal_fold, fields, replace_char}
use april_homework.Fetcher.Rational.{Rat, not_positive, float_string}
use april_homework.Fetcher.Rate.{
  clean_token, match_number, missing, normalize_rat, normalize_rate, extract_from, extract_rate,
}

normalize_rat-ok :
    (token currency value : Text) (rat : Rat)
    → normalize_rat token currency (some rat) ≡ ok value
    → (rat.negative ≡ false) × (0 < rat.num) × (value ≡ float_string 8 rat)
unfolding normalize_rat not_positive
normalize_rat-ok token currency value rat h = ground arith

pub normalize_rat-positive :
    (token currency : Text) (rat : Rat)
    → rat.negative ≡ false
    → 0 < rat.num
    → normalize_rat token currency (some rat) ≡ ok (float_string 8 rat)
unfolding normalize_rat not_positive
normalize_rat-positive token currency rat sign positive = ground arith

normalize_rat-none :
    (token currency : Text)
    → normalize_rat token currency none
      ≡ err (codes "invalid rate " ++ quote token ++ codes " for " ++ currency)
unfolding normalize_rat
normalize_rat-none token currency = refl

-- The token stands next to a field that is the currency: behind it, or before it at the end.
pub data Beside (currency token : Text) : List Text → Type 0 where
  follows :
      (field : Text) (rest : List Text)
      → equal_fold (clean_token field) currency ≡ true
      → Beside currency token (field ∷ token ∷ rest)
  precedes :
      (field : Text)
      → equal_fold (clean_token field) currency ≡ true
      → Beside currency token (token ∷ field ∷ [])
  further :
      (field : Text) {rest : List Text}
      → Beside currency token rest
      → Beside currency token (field ∷ rest)

abbrev behind : Option Text → List Text → List Text
behind none fs = fs
behind (some before) fs = before ∷ fs

behind-further :
    (currency token : Text) (before : Option Text) (fs : List Text)
    → Beside currency token fs
    → Beside currency token (behind before fs)
behind-further currency token none fs h = h
behind-further currency token (some before) fs h = further before h

module _ (set_string : Text → Option Rat) where
  -- `value` is the printed form of the positive number that the token spells.
  pub record IsPrinted (token value : Text) : Type 0 where
    pub rat : Rat
    pub parsed : set_string (clean_token token) ≡ some rat
    pub digit : match_number (clean_token token) ≡ true
    pub sign : rat.negative ≡ false
    pub positive : 0 < rat.num
    pub printed : value ≡ float_string 8 rat

  pub normalize_rate-step :
      (token currency : Text)
      → match_number (clean_token token) ≡ true
      → normalize_rate set_string token currency
        ≡ normalize_rat (clean_token token) currency (set_string (clean_token token))
  unfolding normalize_rate
  normalize_rate-step token currency digit = rw digit

  normalize_rate-missing :
      (token currency : Text)
      → match_number (clean_token token) ≡ false
      → normalize_rate set_string token currency ≡ err (codes "no numeric rate for " ++ currency)
  unfolding normalize_rate
  normalize_rate-missing token currency digit = rw digit

  rat-IsPrinted :
      (token currency value : Text) (o : Option Rat)
      → set_string (clean_token token) ≡ o
      → match_number (clean_token token) ≡ true
      → normalize_rat (clean_token token) currency o ≡ ok value
      → IsPrinted token value
  rat-IsPrinted token currency value none parsed digit h =
      cc (normalize_rat-none (clean_token token) currency)
  rat-IsPrinted token currency value (some rat) parsed digit h =
      let (sign, positive, printed) = normalize_rat-ok (clean_token token) currency value rat h in
      record {
        rat = rat;
        parsed = parsed;
        digit = digit;
        sign = sign;
        positive = positive;
        printed = printed;
      }

  pub normalize_rate-IsPrinted :
      (token currency value : Text)
      → normalize_rate set_string token currency ≡ ok value
      → IsPrinted token value
  normalize_rate-IsPrinted token currency value h =
      elim (Bool-cases (match_number (clean_token token))) [
        | inr missing ↦ cc (normalize_rate-missing token currency missing)
        | inl digit ↦
            rat-IsPrinted token currency value (set_string (clean_token token)) refl digit
              (sym (normalize_rate-step token currency digit) ∙ h)
      ]

  module _ (currency field : Text) where
    extract_from-nil :
        (before : Option Text) → extract_from set_string before [] currency ≡ missing currency
    unfolding extract_from
    extract_from-nil before = refl

    extract_from-last :
        (before : Text)
        → equal_fold (clean_token field) currency ≡ true
        → extract_from set_string (some before) (field ∷ []) currency
          ≡ normalize_rate set_string before currency
    unfolding extract_from
    extract_from-last before same = rw (same, extract_from)

    extract_from-alone :
        equal_fold (clean_token field) currency ≡ true
        → extract_from set_string none (field ∷ []) currency ≡ missing currency
    unfolding extract_from
    extract_from-alone same = rw (same, extract_from)

    extract_from-other :
        (before : Option Text)
        → equal_fold (clean_token field) currency ≡ false
        → extract_from set_string before (field ∷ []) currency ≡ missing currency
    unfolding extract_from
    extract_from-other before other = rw (other, extract_from)

    extract_from-found :
        (before : Option Text) (value : Text) (rest : List Text)
        → equal_fold (clean_token field) currency ≡ true
        → extract_from set_string before (field ∷ value ∷ rest) currency
          ≡ normalize_rate set_string value currency
    unfolding extract_from
    extract_from-found before value rest same = rw (same, extract_from)

    extract_from-next :
        (before : Option Text) (value : Text) (rest : List Text)
        → equal_fold (clean_token field) currency ≡ false
        → extract_from set_string before (field ∷ value ∷ rest) currency
          ≡ extract_from set_string (some field) (value ∷ rest) currency
    unfolding extract_from
    extract_from-next before value rest other = rw (other, extract_from)

  module _ (currency value : Text) where
    last_sound :
        (before : Option Text) (field : Text)
        → equal_fold (clean_token field) currency ≡ true
        → extract_from set_string before (field ∷ []) currency ≡ ok value
        → (token : Text) × Beside currency token (behind before (field ∷ []))
          × IsPrinted token value
    last_sound none field same h = cc (extract_from-alone currency field same)
    last_sound (some before) field same h = (
      before,
      precedes field same,
      normalize_rate-IsPrinted before currency value
          (sym (extract_from-last currency field before same) ∙ h),
    )

    extract_from_sound :
        (fs : List Text) (before : Option Text)
        → extract_from set_string before fs currency ≡ ok value
        → (token : Text) × Beside currency token (behind before fs) × IsPrinted token value
    extract_from_sound [] before h = cc (extract_from-nil currency [] before)
    extract_from_sound (field ∷ []) before h =
        elim (Bool-cases (equal_fold (clean_token field) currency)) [
          | inl same ↦ last_sound before field same h
          | inr other ↦ cc (extract_from-other currency field before other)
        ]
    extract_from_sound (field ∷ next ∷ rest) before h =
        elim (Bool-cases (equal_fold (clean_token field) currency)) [
          | inl same ↦ (
            next,
            behind-further currency next before _ (follows field rest same),
            normalize_rate-IsPrinted next currency value
                (sym (extract_from-found currency field before next rest same) ∙ h),
          )
          | inr other ↦
              let (token, where_it_is, printed) =
                extract_from_sound (next ∷ rest) (some field)
                  (sym (extract_from-next currency field before next rest other) ∙ h) in
              (token, behind-further currency token before _ where_it_is, printed)
        ]

-- A rate that extractRate returns is the print, with eight digits, of a positive number that
-- SetString reads from a token of the text with a digit in it; the token stands right behind a
-- field that is the currency, or right before one that ends the text.
pub extract_rate-IsPrinted :
    (set_string : Text → Option Rat) (text currency value : Text)
    → extract_rate set_string text currency ≡ ok value
    → (token : Text) × Beside currency token (fields (replace_char b',' b'.' text))
      × IsPrinted set_string token value
unfolding extract_rate
extract_rate-IsPrinted set_string text currency value h =
    extract_from_sound set_string currency value (fields (replace_char b',' b'.' text)) none h
