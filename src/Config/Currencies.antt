-- ===== src/Config/Currencies.antt =====
-- The list of currencies in a setting: what its splitting keeps.
use april_homework.Common.{
  ◌≡◌, ◌≢◌, ◌↔◌, ◌⊎◌, subst, refl, sym, ap, ◌∙◌, inl, inr, List, [], ◌∷◌, Text, Bool-cases, In,
}
use april_homework.Strings.{canonical, text_eq, split}
use april_homework.Strings.Laws.{text_eq_iff}
use april_homework.Config.{keep_codes, split_currencies}

keep_codes-blank :
    (p : Text) (ps : List Text) → canonical p ≡ [] → keep_codes (p ∷ ps) ≡ keep_codes ps
unfolding keep_codes
keep_codes-blank p ps e = rw ((text_eq_iff (canonical p) []).1 e) refl

keep_codes-cons :
    (p : Text) (ps : List Text)
    → canonical p ≢ []
    → keep_codes (p ∷ ps) ≡ canonical p ∷ keep_codes ps
unfolding keep_codes
keep_codes-cons p ps ne = elim (Bool-cases (text_eq (canonical p) [])) [
  | inl e ↦ absurd (ne ((text_eq_iff (canonical p) []).0 e))
  | inr e ↦ rw e refl
]

-- A code is blank or it is not.
blank_or_not : (p : Text) → (canonical p ≡ []) ⊎ (canonical p ≢ [])
blank_or_not p = elim (Bool-cases (text_eq (canonical p) [])) [
  | inl e ↦ inl ((text_eq_iff (canonical p) []).0 e)
  | inr e ↦ inr (λ h. cc (e, (text_eq_iff (canonical p) []).1 h))
]

abbrev Source : List Text → Text → Type 0
Source parts c = (c ≢ []) × (p : Text) × In p parts × (canonical p ≡ c)

Source-later : (p : Text) (ps : List Text) (c : Text) → Source ps c → Source (p ∷ ps) c
Source-later p ps c (full, q, i, e) = (full, q, inr i, e)

keep_codes_sound : (parts : List Text) (c : Text) → In c (keep_codes parts) → Source parts c
keep_codes_sound [] c i = absurd (unfold keep_codes in i)
keep_codes_sound (p ∷ ps) c i = elim (blank_or_not p) [
  | inl e ↦ Source-later p ps c (keep_codes_sound ps c (subst (In c) (keep_codes-blank p ps e) i))
  | inr ne ↦ here_or_later (keep_codes_sound ps c) ne (subst (In c) (keep_codes-cons p ps ne) i)
]
  where
    here_or_later :
        (In c (keep_codes ps) → Source ps c)
        → canonical p ≢ []
        → In c (canonical p ∷ keep_codes ps)
        → Source (p ∷ ps) c
    here_or_later rec ne (inl e) = ((λ h. ne (e ∙ h)), p, inl refl, e)
    here_or_later rec ne (inr k) = Source-later p ps c (rec k)

keep_codes_complete : (parts : List Text) (c : Text) → Source parts c → In c (keep_codes parts)
keep_codes_complete [] c (full, p, i, e) = absurd i
keep_codes_complete (q ∷ qs) c (full, p, inl same, e) =
    subst (In c) (sym (keep_codes-cons q qs (λ h. full (sym e ∙ sym (ap canonical same) ∙ h))))
      (inl (ap canonical same ∙ e))
keep_codes_complete (q ∷ qs) c (full, p, inr i, e) =
    let later = keep_codes_complete qs c (full, p, i, e) in
    elim (blank_or_not q) [
      | inl blank ↦ subst (In c) (sym (keep_codes-blank q qs blank)) later
      | inr ne ↦ subst (In c) (sym (keep_codes-cons q qs ne)) (inr later)
    ]

-- The currencies of a setting are the codes that its parts between commas have when they are
-- trimmed and in upper case, those that are empty left out.
pub split_currencies-exact :
    (value c : Text)
    → In c (split_currencies value)
      ↔ ((c ≢ []) × (p : Text) × In p (split value b',') × (canonical p ≡ c))
unfolding split_currencies
split_currencies-exact value c =
    (keep_codes_sound (split value b',') c, keep_codes_complete (split value b',') c)
