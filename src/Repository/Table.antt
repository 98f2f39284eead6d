-- ===== src/Repository/Table.antt =====
-- The table exchange_rates and the statement of UpsertRates: INSERT … ON CONFLICT ON CONSTRAINT
-- (source, base_currency, quote_currency, effective_date) DO UPDATE SET rate = EXCLUDED.rate,
-- source_published_at = EXCLUDED.source_published_at.
use april_homework.Common.{
  ℕ, ◌≡◌, ◌≢◌, ◌↔◌, refl, sym, ap, ◌∙◌, inl, inr, List, [], ◌∷◌, Text, Option, none, some, Bool,
  true, false, ◌&&◌, arith, Bool-cases, if◌then◌else◌, ◌==◌, All,
}
use april_homework.Strings.{text_eq}
use april_homework.Strings.Laws.{text_eq_iff, text_eq_refl}
use april_homework.Time.{Time}
use april_homework.Repository.{Row, Setter}

pub record Key : Type 0 where
  pub source : Text
  pub base_currency : Text
  pub quote_currency : Text
  pub sec : ℕ
  pub nsec : ℕ

unfoldable pub key_eq : Key → Key → Bool
key_eq a b =
    text_eq a.source b.source
    && text_eq a.base_currency b.base_currency
    && text_eq a.quote_currency b.quote_currency
    && a.sec == b.sec
    && a.nsec == b.nsec

key_eq_sound : (a b : Key) → key_eq a b ≡ true → a ≡ b
unfolding key_eq
key_eq_sound a b h = ground (
  arith,
  text_eq_iff a.source b.source,
  text_eq_iff a.base_currency b.base_currency,
  text_eq_iff a.quote_currency b.quote_currency,
)

key_eq_refl : (a : Key) → key_eq a a ≡ true
unfolding key_eq
key_eq_refl a =
    ground
      (arith, text_eq_refl a.source, text_eq_refl a.base_currency, text_eq_refl a.quote_currency)

pub key_eq_iff : (a b : Key) → (key_eq a b ≡ true) ↔ (a ≡ b)
key_eq_iff a b = (key_eq_sound a b, λ e. rw e (key_eq_refl b))

module _ {Amount : Type 0} where
  -- The columns of the constraint; a date is its instant.
  abbrev pub row_key : Row Amount → Key
  row_key r = record {
    source = r.source;
    base_currency = r.base_currency;
    quote_currency = r.quote_currency;
    sec = r.effective_date.sec;
    nsec = r.effective_date.nsec;
  }

  abbrev pub setter_key : Setter Amount → Key
  setter_key s = record {
    source = s.source;
    base_currency = s.base_currency;
    quote_currency = s.quote_currency;
    sec = s.effective_date.sec;
    nsec = s.effective_date.nsec;
  }

  abbrev pub new_row : Setter Amount → Time → Row Amount
  new_row s created = record {
    id = s.id;
    base_currency = s.base_currency;
    quote_currency = s.quote_currency;
    rate = s.rate;
    effective_date = s.effective_date;
    source = s.source;
    source_published_at = s.source_published_at;
    created_at = created;
  }

  -- DO UPDATE SET: only these two columns change.
  abbrev pub overwrite_row : Setter Amount → Row Amount → Row Amount
  overwrite_row s r = record r { rate = s.rate; source_published_at = s.source_published_at }

  unfoldable pub upsert_row : Setter Amount → Time → List (Row Amount) → List (Row Amount)
  unfolding key_eq
  upsert_row s created [] = new_row s created ∷ []
  upsert_row s created (r ∷ rs) =
      if key_eq (row_key r) (setter_key s)
      then overwrite_row s r ∷ rs
      else r ∷ upsert_row s created rs

  -- What the table says about a key: the rate and its time of publication.
  unfoldable pub value_at : Key → List (Row Amount) → Option (Amount × Option Time)
  value_at k [] = none
  value_at k (r ∷ rs) =
      if key_eq (row_key r) k then some (r.rate, r.source_published_at) else value_at k rs

  -- The constraint: no two rows have the same key.
  abbrev pub IsUnique : List (Row Amount) → Type 0
  IsUnique [] = Unit
  IsUnique (r ∷ rs) = All (λ q. row_key q ≢ row_key r) rs × IsUnique rs

  upsert_row-hit :
      (s : Setter Amount) (created : Time) (r : Row Amount) (rs : List (Row Amount))
      → key_eq (row_key r) (setter_key s) ≡ true
      → upsert_row s created (r ∷ rs) ≡ overwrite_row s r ∷ rs
  unfolding upsert_row
  upsert_row-hit s created r rs same = rw same

  upsert_row-miss :
      (s : Setter Amount) (created : Time) (r : Row Amount) (rs : List (Row Amount))
      → key_eq (row_key r) (setter_key s) ≡ false
      → upsert_row s created (r ∷ rs) ≡ r ∷ upsert_row s created rs
  unfolding upsert_row
  upsert_row-miss s created r rs other = rw other

  pub value_at-upsert_row :
      (k : Key) (s : Setter Amount) (created : Time) (rows : List (Row Amount))
      → value_at k (upsert_row s created rows) ≡ (
          if key_eq (setter_key s) k then some (s.rate, s.source_published_at) else value_at k rows)
  unfolding value_at
  value_at-upsert_row k s created [] = unfold upsert_row in refl
  value_at-upsert_row k s created (r ∷ rs) = elim (Bool-cases (key_eq (row_key r) (setter_key s))) [
    | inl same ↦
        rw (upsert_row-hit s created r rs same)
          (ground (arith, ap (λ x. key_eq x k) (key_eq_sound _ _ same)))
    | inr other ↦
        rw (upsert_row-miss s created r rs other)
          (ground (arith, value_at-upsert_row k s created rs, apart other))
  ]
    where
      apart :
          key_eq (row_key r) (setter_key s) ≡ false
          → key_eq (row_key r) k ≡ true
          → key_eq (setter_key s) k ≡ false
      apart other here = elim (Bool-cases (key_eq (setter_key s) k)) [
        | inl there ↦ cc (
          other,
          (key_eq_iff (row_key r) (setter_key s)).1
              (key_eq_sound _ _ here ∙ sym (key_eq_sound _ _ there)),
        )
        | inr no_there ↦ no_there
      ]

  upsert_row-All :
      (key : Key) (s : Setter Amount) (created : Time) (rows : List (Row Amount))
      → setter_key s ≢ key
      → All (λ q. row_key q ≢ key) rows
      → All (λ q. row_key q ≢ key) (upsert_row s created rows)
  upsert_row-All key s created [] h hs = unfold upsert_row in (h, tt)
  upsert_row-All key s created (r ∷ rs) h (hr, hs) =
      elim (Bool-cases (key_eq (row_key r) (setter_key s))) [
        | inl same ↦ rw (upsert_row-hit s created r rs same) (hr, hs)
        | inr other ↦
            rw (upsert_row-miss s created r rs other) (hr, upsert_row-All key s created rs h hs)
      ]

  -- The statement keeps the constraint.
  pub upsert_row-IsUnique :
      (s : Setter Amount) (created : Time) (rows : List (Row Amount))
      → IsUnique rows
      → IsUnique (upsert_row s created rows)
  upsert_row-IsUnique s created [] h = unfold upsert_row in (tt, tt)
  upsert_row-IsUnique s created (r ∷ rs) (apart, h) =
      elim (Bool-cases (key_eq (row_key r) (setter_key s))) [
        | inl same ↦ rw (upsert_row-hit s created r rs same) (apart, h)
        | inr other ↦ rw (upsert_row-miss s created r rs other) (
          upsert_row-All (row_key r) s created rs
              (λ e. cc (other, key_eq_refl (row_key r), ap (key_eq (row_key r)) e)) apart,
          upsert_row-IsUnique s created rs h,
        )
      ]
