-- ===== src/Ingestion/Normalize.antt =====
-- What `normalizeCurrencies` returns.
use april_homework.Common.{
  ◌≡◌, ◌≢◌, ◌⊎◌, inl, inr, refl, In-All, sym, ap, subst, ◌∙◌, true, false, List, [], ◌∷◌, Text,
  arith, In, All, Bool-cases,
}
use april_homework.Strings.{canonical, to_upper, trim_space, text_eq}
use april_homework.Strings.Laws.{
  text_eq_refl, text_eq_sound, to_upper_idem, trim_space_idem, trim_space-to_upper,
}
use april_homework.Ingestion.{mem_texts, normalize_from, normalize_currencies}

abbrev pub Distinct : List Text → Type 0
Distinct [] = Unit
Distinct (c ∷ cs) = (In c cs → ⊥) × Distinct cs

abbrev pub IsCanonical : Text → Type 0
IsCanonical c = (c ≢ []) × (canonical c ≡ c)

pub canonical_idem : (raw : Text) → canonical (canonical raw) ≡ canonical raw
canonical_idem raw =
    ap to_upper (trim_space-to_upper (trim_space raw))
    ∙ to_upper_idem (trim_space (trim_space raw))
    ∙ ap to_upper (trim_space_idem raw)

mem_texts_sound : (c : Text) (ds : List Text) → mem_texts c ds ≡ true → In c ds
mem_texts_sound c [] h = cc
mem_texts_sound c (d ∷ ds) h = elim (Bool-cases (text_eq d c)) [
  | inl same ↦ inl (text_eq_sound d c same)
  | inr other ↦ inr (mem_texts_sound c ds (rw other at h))
]

mem_texts_complete : (c : Text) (ds : List Text) → In c ds → mem_texts c ds ≡ true
mem_texts_complete c [] h = absurd h
mem_texts_complete c (d ∷ ds) (inl e) = rw e (rw text_eq_refl)
mem_texts_complete c (d ∷ ds) (inr h) = ground (arith, mem_texts_complete c ds h)

text_eq-nil_false : (c : Text) → text_eq c [] ≡ false → c ≢ []
text_eq-nil_false c h e = cc (text_eq_refl [], ap (λ d. text_eq d []) e)

-- The three ways a round of the loop goes.
data Round (seen : List Text) (raw : Text) (rest : List Text) : Type 0 where
  blank :
      canonical raw ≡ []
      → normalize_from seen (raw ∷ rest) ≡ normalize_from seen rest
      → Round seen raw rest
  repeated :
      In (canonical raw) seen
      → normalize_from seen (raw ∷ rest) ≡ normalize_from seen rest
      → Round seen raw rest
  fresh :
      canonical raw ≢ []
      → (In (canonical raw) seen → ⊥)
      → normalize_from seen (raw ∷ rest)
        ≡ canonical raw ∷ normalize_from (canonical raw ∷ seen) rest
      → Round seen raw rest

round : (seen : List Text) (raw : Text) (rest : List Text) → Round seen raw rest
unfolding normalize_from
round seen raw rest = elim (Bool-cases (text_eq (canonical raw) [])) [
  | inl empty ↦ blank (text_eq_sound _ _ empty) (rw (empty, normalize_from))
  | inr full ↦ elim (Bool-cases (mem_texts (canonical raw) seen)) [
    | inl old ↦ repeated (mem_texts_sound _ seen old) (rw (full, old, normalize_from))
    | inr new ↦
        fresh (text_eq-nil_false _ full) (λ i. cc (new, mem_texts_complete _ seen i))
          (rw (full, new, normalize_from))
  ]
]

-- The result repeats nothing, nor what was seen before, and holds canonical codes only.
normalize_from-Distinct :
    (seen cs : List Text)
    → Distinct (normalize_from seen cs)
      × All IsCanonical (normalize_from seen cs)
      × ((c : Text) → In c (normalize_from seen cs) → In c seen → ⊥)
normalize_from-Distinct seen [] = unfold normalize_from in (tt, tt, λ c i k. i)
normalize_from-Distinct seen (raw ∷ rest) = elim (round seen raw rest) [
  | blank _ e ↦ rw e (normalize_from-Distinct seen rest)
  | repeated _ e ↦ rw e (normalize_from-Distinct seen rest)
  | fresh full new e ↦
      let (distinct, plain, apart) = normalize_from-Distinct (canonical raw ∷ seen) rest in
      rw e (
        ((λ i. apart (canonical raw) i (inl refl)), distinct),
        ((full, canonical_idem raw), plain),
        λ c i k. not_seen c i k apart new,
      )
]
  where
    not_seen :
        (c : Text)
        → (canonical raw ≡ c) ⊎ In c (normalize_from (canonical raw ∷ seen) rest)
        → In c seen
        → ((d : Text)
            → In d (normalize_from (canonical raw ∷ seen) rest)
            → In d (canonical raw ∷ seen)
            → ⊥)
        → (In (canonical raw) seen → ⊥)
        → ⊥
    not_seen c (inl e) k apart new = new (rw e k)
    not_seen c (inr i) k apart new = apart c i (inr k)

-- Every canonical code of the input that is not blank is in the result, unless it was seen.
normalize_from_complete :
    (seen cs : List Text) (raw : Text)
    → In raw cs
    → canonical raw ≢ []
    → In (canonical raw) seen ⊎ In (canonical raw) (normalize_from seen cs)
normalize_from_complete seen [] raw i full = absurd i
normalize_from_complete seen (r ∷ rest) raw i full = elim (round seen r rest) [
  | blank empty e ↦ rw e (
      later i (λ k. normalize_from_complete seen rest raw k full)
        (λ same. absurd (full (ap canonical (sym same) ∙ empty))))
  | repeated old e ↦
      rw e (
        later i (λ k. normalize_from_complete seen rest raw k full) (λ same. inl (rw (← same) old)))
  | fresh _ _ e ↦ rw e (kept i (λ k. normalize_from_complete (canonical r ∷ seen) rest raw k full))
]
  where
    later :
        (r ≡ raw) ⊎ In raw rest
        → (In raw rest → In (canonical raw) seen ⊎ In (canonical raw) (normalize_from seen rest))
        → (r ≡ raw → In (canonical raw) seen ⊎ In (canonical raw) (normalize_from seen rest))
        → In (canonical raw) seen ⊎ In (canonical raw) (normalize_from seen rest)
    later (inl same) _ here = here same
    later (inr k) there _ = there k

    kept :
        (r ≡ raw) ⊎ In raw rest
        → (In raw rest
            → In (canonical raw) (canonical r ∷ seen)
              ⊎ In (canonical raw) (normalize_from (canonical r ∷ seen) rest))
        → In (canonical raw) seen
          ⊎ In (canonical raw) (canonical r ∷ normalize_from (canonical r ∷ seen) rest)
    kept (inl same) _ = inr (inl (ap canonical same))
    kept (inr k) there = elim (there k) [
      | inl (inl e) ↦ inr (inl e)
      | inl (inr old) ↦ inl old
      | inr new ↦ inr (inr new)
    ]

-- Nothing else is: each code of the result comes from an element of the input.
normalize_from_sound :
    (seen cs : List Text) (c : Text)
    → In c (normalize_from seen cs)
    → (raw : Text) × In raw cs × (canonical raw ≡ c)
normalize_from_sound seen [] c i = absurd (unfold normalize_from in i)
normalize_from_sound seen (r ∷ rest) c i = elim (round seen r rest) [
  | blank _ e ↦ next (normalize_from_sound seen rest c (subst (In c) e i))
  | repeated _ e ↦ next (normalize_from_sound seen rest c (subst (In c) e i))
  | fresh _ _ e ↦ elim (head_or (subst (In c) e i)) [
    | inl here ↦ (r, inl refl, here)
    | inr k ↦ next (normalize_from_sound (canonical r ∷ seen) rest c k)
  ]
]
  where
    next :
        (raw : Text) × In raw rest × (canonical raw ≡ c)
        → (raw : Text) × In raw (r ∷ rest) × (canonical raw ≡ c)
    next (raw, k, e) = (raw, inr k, e)

    head_or :
        In c (canonical r ∷ normalize_from (canonical r ∷ seen) rest)
        → (canonical r ≡ c) ⊎ In c (normalize_from (canonical r ∷ seen) rest)
    head_or h = h

-- The currencies that are fetched: no code twice, each code in upper case without blanks around
-- it and not empty, and a code is among them exactly when it is the canonical form of an entry of
-- the input and not empty.
pub normalize_currencies-exact :
    (currencies : List Text)
    → Distinct (normalize_currencies currencies)
      × All IsCanonical (normalize_currencies currencies)
      × ((raw : Text)
          → In raw currencies
          → canonical raw ≢ []
          → In (canonical raw) (normalize_currencies currencies))
      × ((c : Text)
          → In c (normalize_currencies currencies)
          → (raw : Text) × In raw currencies × (canonical raw ≡ c))
unfolding normalize_currencies
normalize_currencies-exact currencies =
    let (distinct, plain, _) = normalize_from-Distinct [] currencies in
    (
      distinct,
      plain,
      λ raw i full. elim (normalize_from_complete [] currencies raw i full) [
        | inl k ↦ absurd k
        | inr k ↦ k
      ],
      normalize_from_sound [] currencies,
    )

pub normalize-blank :
    (currencies : List Text)
    → All (λ raw. canonical raw ≡ []) currencies
    → normalize_currencies currencies ≡ []
unfolding normalize_currencies
normalize-blank currencies h = none_left (normalize_from [] currencies) refl
  where
    none_left :
        (cs : List Text) → normalize_from [] currencies ≡ cs → normalize_from [] currencies ≡ []
    none_left [] e = e
    none_left (c ∷ cs) e =
        let (raw, i, same) = normalize_from_sound [] currencies c (rw e (inl refl)) in
        let plain = (normalize_from-Distinct [] currencies).1 in
        absurd (first_full e plain (sym same ∙ In-All (λ r. canonical r ≡ []) raw currencies h i))
      where
        first_full :
            normalize_from [] currencies ≡ c ∷ cs
            → All IsCanonical (normalize_from [] currencies)
            → c ≡ []
            → ⊥
        first_full e plain empty = (subst (All IsCanonical) e plain).0.0 empty
