-- ===== src/Strings/Laws.antt =====
-- Laws of the text functions: equality and order tests, and trimming as a normal form.
use april_homework.Common.{
  ap, ◌∙◌, ℕ, ◌≡◌, ◌↔◌, ◌⊎◌, inl, inr, refl, Bool, true, false, [], ◌∷◌, map, Text, arith, leb,
  Bool-cases,
}
use april_homework.Strings.{
  canonical, is_space, upper, to_upper, trim_left, keep_last, trim_right, trim_func, trim_space,
  text_eq, text_lt,
}

pub text_eq_sound : (s t : Text) → text_eq s t ≡ true → s ≡ t
unfolding text_eq
text_eq_sound [] [] h = refl
text_eq_sound (c ∷ s) (d ∷ t) h = ground (arith, text_eq_sound s t)
text_eq_sound [] (d ∷ t) h = cc
text_eq_sound (c ∷ s) [] h = cc

pub text_eq_refl : (s : Text) → text_eq s s ≡ true
unfolding text_eq
text_eq_refl [] = refl
text_eq_refl (c ∷ s) = ground (arith, text_eq_refl s)

pub text_eq_iff : (s t : Text) → (text_eq s t ≡ true) ↔ (s ≡ t)
text_eq_iff s t = (text_eq_sound s t, λ e. rw e (text_eq_refl t))

pub text_lt_irrefl : (s : Text) → text_lt s s ≡ false
unfolding text_lt
text_lt_irrefl [] = refl
text_lt_irrefl (c ∷ s) = ground (arith, text_lt_irrefl s)

pub text_lt_trans : (s t u : Text) → text_lt s t ≡ true → text_lt t u ≡ true → text_lt s u ≡ true
unfolding text_lt
text_lt_trans [] [] u h k = cc
text_lt_trans [] (_ ∷ _) [] h k = cc
text_lt_trans [] (_ ∷ _) (_ ∷ _) h k = refl
text_lt_trans (_ ∷ _) [] u h k = cc
text_lt_trans (_ ∷ _) (_ ∷ _) [] h k = cc
text_lt_trans (c ∷ s) (d ∷ t) (e ∷ u) h k = ground (arith, text_lt_trans s t u)

-- Two different texts are in order one way or the other.
pub text_lt_total : (s t : Text) → (text_lt s t ≡ true) ⊎ (text_lt t s ≡ true) ⊎ (s ≡ t)
unfolding text_lt
text_lt_total [] [] = inr (inr refl)
text_lt_total [] (_ ∷ _) = inl refl
text_lt_total (_ ∷ _) [] = inr (inl refl)
text_lt_total (c ∷ s) (d ∷ t) = ground (arith, text_lt_total s t)

module _ (p : ℕ → Bool) where
  trim_left_idem : (s : Text) → trim_left p (trim_left p s) ≡ trim_left p s
  unfolding trim_left
  trim_left_idem [] = refl
  trim_left_idem (c ∷ s) = ground (arith, trim_left_idem s)

  keep_last_idem :
      (c : ℕ) (s : Text) → trim_right p s ≡ s → trim_right p (keep_last p c s) ≡ keep_last p c s
  unfolding trim_right
  keep_last_idem c [] h = ground arith
  keep_last_idem c (d ∷ s) h = rw h

  trim_right_idem : (s : Text) → trim_right p (trim_right p s) ≡ trim_right p s
  unfolding trim_right
  trim_right_idem [] = refl
  trim_right_idem (c ∷ s) = keep_last_idem c (trim_right p s) (trim_right_idem s)

  -- What starts with a kept character starts with it after trimming on the right.
  trim_left-keep_last :
      (c : ℕ) (s : Text) → p c ≡ false → trim_left p (keep_last p c s) ≡ keep_last p c s
  unfolding trim_left keep_last
  trim_left-keep_last c [] h = ground arith
  trim_left-keep_last c (d ∷ s) h = rw h

  trim_left-trim_right :
      (s : Text) → trim_left p (trim_right p (trim_left p s)) ≡ trim_right p (trim_left p s)
  unfolding trim_left trim_right
  trim_left-trim_right [] = refl
  trim_left-trim_right (c ∷ s) = elim (Bool-cases (p c)) [
    | inl cut ↦ rw cut (trim_left-trim_right s)
    | inr kept ↦ rw kept (trim_left-keep_last c (trim_right p s) kept)
  ]

  pub trim_func_idem : (s : Text) → trim_func p (trim_func p s) ≡ trim_func p s
  unfolding trim_func
  trim_func_idem s = rw trim_left-trim_right (trim_right_idem (trim_left p s))

  module _ (f : ℕ → ℕ) (same : (c : ℕ) → p (f c) ≡ p c) where
    map-trim_left : (s : Text) → trim_left p (map f s) ≡ map f (trim_left p s)
    unfolding trim_left
    map-trim_left [] = refl
    map-trim_left (c ∷ s) = ground (arith, same c, map-trim_left s)

    map-keep_last : (c : ℕ) (s : Text) → keep_last p (f c) (map f s) ≡ map f (keep_last p c s)
    unfolding keep_last
    map-keep_last c [] = ground (arith, same c)
    map-keep_last c (d ∷ s) = refl

    map-trim_right : (s : Text) → trim_right p (map f s) ≡ map f (trim_right p s)
    unfolding trim_right
    map-trim_right [] = refl
    map-trim_right (c ∷ s) = rw (map-trim_right s) (map-keep_last c (trim_right p s))

    pub map-trim_func : (s : Text) → trim_func p (map f s) ≡ map f (trim_func p s)
    unfolding trim_func
    map-trim_func s = rw map-trim_left (map-trim_right (trim_left p s))

is_space-upper : (c : ℕ) → is_space (upper c) ≡ is_space c
unfolding is_space upper
is_space-upper c = elim (Bool-cases (leb b'a' c)) [
  | inl low ↦ elim (Bool-cases (leb c b'z')) [
    | inl high ↦ ground arith
    | inr above ↦ rw (low, above)
  ]
  | inr below ↦ rw below
]

upper_idem : (c : ℕ) → upper (upper c) ≡ upper c
unfolding upper
upper_idem c = ground arith

pub to_upper_idem : (s : Text) → to_upper (to_upper s) ≡ to_upper s
unfolding to_upper
to_upper_idem [] = refl
to_upper_idem (c ∷ s) = cc (upper_idem c, to_upper_idem s)

pub trim_space_idem : (s : Text) → trim_space (trim_space s) ≡ trim_space s
unfolding trim_space
trim_space_idem = trim_func_idem is_space

pub trim_space-to_upper : (s : Text) → trim_space (to_upper s) ≡ to_upper (trim_space s)
unfolding trim_space to_upper
trim_space-to_upper = map-trim_func is_space upper is_space-upper

pub canonical_idem : (raw : Text) → canonical (canonical raw) ≡ canonical raw
canonical_idem raw =
    ap to_upper (trim_space-to_upper (trim_space raw) ∙ ap to_upper (trim_space_idem raw))
    ∙ to_upper_idem (trim_space raw)
