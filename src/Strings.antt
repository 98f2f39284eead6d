-- ===== src/Strings.antt =====
-- What the program uses of Go's `strings`, `unicode` and `strconv`: text is a list of code points.
-- Case mapping covers the ASCII letters and leaves every other letter as it is; the codes, headers
-- and feeds that the program handles are ASCII.
pub mod Laws
use april_homework.Common.{
  ℕ, zero, suc, ◌+◌, ◌-◌, ◌/◌, ◌%◌, ◌||◌, ◌&&◌, Bool, true, false, List, [], ◌∷◌, ◌++◌, map, Text,
  codes, ltb, leb, ◌==◌, if◌then◌else◌, Option, none, some,
}
use april_homework.Common.Int.{ℤ, pos, negsuc}

-- unicode.IsSpace
unfoldable pub is_space : ℕ → Bool
is_space c =
    (leb 9 c && leb c 13)
    || c == 0x20
    || c == 0x85
    || c == 0xa0
    || c == 0x1680
    || (leb 0x2000 c && leb c 0x200a)
    || c == 0x2028
    || c == 0x2029
    || c == 0x202f
    || c == 0x205f
    || c == 0x3000

unfoldable pub upper : ℕ → ℕ
upper c = if leb b'a' c && leb c b'z' then c - 32 else c

unfoldable pub lower : ℕ → ℕ
lower c = if leb b'A' c && leb c b'Z' then c + 32 else c

-- strings.ToUpper and strings.ToLower
unfoldable pub to_upper : Text → Text
unfolding upper
to_upper = map upper

unfoldable pub to_lower : Text → Text
unfolding lower
to_lower = map lower

module _ (p : ℕ → Bool) where
  unfoldable pub trim_left : Text → Text
  trim_left [] = []
  trim_left (c ∷ s) = if p c then trim_left s else c ∷ s

  -- Keeps the character `c` before the trimmed rest, unless both go.
  unfoldable pub keep_last : ℕ → Text → Text
  keep_last c [] = if p c then [] else c ∷ []
  keep_last c (d ∷ s) = c ∷ d ∷ s

  unfoldable pub trim_right : Text → Text
  unfolding keep_last
  trim_right [] = []
  trim_right (c ∷ s) = keep_last c (trim_right s)

  unfoldable pub trim_func : Text → Text
  unfolding trim_left trim_right
  trim_func s = trim_right (trim_left s)

-- strings.TrimSpace
unfoldable pub trim_space : Text → Text
unfolding trim_func is_space
trim_space = trim_func is_space

abbrev pub mem_text : ℕ → Text → Bool
mem_text c [] = false
mem_text c (d ∷ s) = d == c || mem_text c s

-- strings.Trim
unfoldable pub trim : Text → Text → Text
unfolding trim_func
trim s cutset = trim_func (λ c. mem_text c cutset) s

unfoldable pub text_eq : Text → Text → Bool
text_eq [] [] = true
text_eq [] (_ ∷ _) = false
text_eq (_ ∷ _) [] = false
text_eq (c ∷ s) (d ∷ t) = c == d && text_eq s t

-- strings.EqualFold
unfoldable pub equal_fold : Text → Text → Bool
unfolding text_eq to_upper
equal_fold s t = text_eq (to_upper s) (to_upper t)

unfoldable pub has_prefix : Text → Text → Bool
has_prefix s [] = true
has_prefix [] (_ ∷ _) = false
has_prefix (c ∷ s) (d ∷ t) = c == d && has_prefix s t

-- strings.Contains
unfoldable pub contains : Text → Text → Bool
unfolding has_prefix
contains [] t = has_prefix [] t
contains (c ∷ s) t = has_prefix (c ∷ s) t || contains s t

-- How the program reads a currency code.
abbrev pub canonical : Text → Text
canonical raw = to_upper (trim_space raw)

abbrev pub add_field : Text → List Text → List Text
add_field [] fs = fs
add_field (c ∷ cur) fs = (c ∷ cur) ∷ fs

abbrev pub push_field : Text → List Text → List Text
push_field cur fs = add_field cur fs

-- strings.Fields, with the field being read
unfoldable pub fields_from : Text → Text → List Text
unfolding is_space
fields_from cur [] = push_field cur []
fields_from cur (c ∷ s) = elim (is_space c) [
  | true ↦ push_field cur (fields_from [] s)
  | false ↦ fields_from (cur ++ c ∷ []) s
]

unfoldable pub fields : Text → List Text
unfolding fields_from
fields s = fields_from [] s

-- strings.ReplaceAll, of one character by another
unfoldable pub replace_char : ℕ → ℕ → Text → Text
replace_char old new = map (λ c. if c == old then new else c)

-- strings.Split by one character, with the part being read
unfoldable pub split_from : ℕ → Text → Text → List Text
split_from sep cur [] = cur ∷ []
split_from sep cur (c ∷ s) = elim (c == sep) [
  | true ↦ cur ∷ split_from sep [] s
  | false ↦ split_from sep (cur ++ c ∷ []) s
]

unfoldable pub split : Text → ℕ → List Text
unfolding split_from
split s sep = split_from sep [] s

-- The length of a string in bytes, as `len` gives it.
unfoldable pub byte_len : Text → ℕ
byte_len [] = 0
byte_len (c ∷ s) =
    (if ltb c 0x80 then 1 else if ltb c 0x800 then 2 else if ltb c 0x10000 then 3 else 4)
    + byte_len s

-- The decimal digits of a number before `out`; the fuel bounds their count.
unfoldable pub digits_from : ℕ → ℕ → Text → Text
digits_from zero n out = out
digits_from (suc fuel) n out = elim (n == 0) [
  | true ↦ out
  | false ↦ digits_from fuel (n / 10) ((b'0' + n % 10) ∷ out)
]

-- A number in decimal; it has at most as many digits as its value.
unfoldable pub print_nat : ℕ → Text
unfolding digits_from
print_nat n = if n == 0 then b'0' ∷ [] else digits_from n n []

unfoldable pub print_int : ℤ → Text
unfolding print_nat
print_int (pos n) = print_nat n
print_int (negsuc n) = b'-' ∷ print_nat (suc n)

-- The form that %q gives to a text of printable ASCII.
unfoldable pub quote_from : Text → Text
quote_from [] = b'"' ∷ []
quote_from (c ∷ s) = (if c == b'"' || c == b'\\' then b'\\' ∷ c ∷ [] else c ∷ []) ++ quote_from s

unfoldable pub quote : Text → Text
unfolding quote_from
quote s = b'"' ∷ quote_from s

-- The order of Go's strings (UTF-8 keeps the order of code points).
unfoldable pub text_lt : Text → Text → Bool
text_lt [] [] = false
text_lt [] (_ ∷ _) = true
text_lt (_ ∷ _) [] = false
text_lt (c ∷ s) (d ∷ t) = ltb c d || (c == d && text_lt s t)
