-- ===== src/Repository/Setters.antt =====
-- What the setter of a rate holds, and how a rate fails, written out column by column and case by
-- case beside toExchangeRateSetter and the loop of UpsertRates.
use april_homework.Common.{
  ℕ, ◌≡◌, refl, sym, ap, ◌∙◌, ◌⊎◌, inl, inr, ◌++◌, Text, codes, none, some, true, false, Result, ok,
  err, wrap, ok_inj, wrap-eq-err, Result-cases, Bool-cases, >>=-eq-ok, wrap-eq-ok, ◌>>=◌,
}
use april_homework.Strings.{quote}
use april_homework.Time.{is_zero}
use april_homework.Entities.{ExchangeRate}
use april_homework.Repository.{Setter, Database, some_unless, to_exchange_rate_setter, upsert_one}
use april_homework.Repository.Table.{Key, setter_key}

-- The key of the row of a rate.
abbrev pub rate_key : ExchangeRate → Key
rate_key r = record {
  source = r.source;
  base_currency = r.base_currency;
  quote_currency = r.quote_currency;
  sec = r.effective_date.sec;
  nsec = r.effective_date.nsec;
}

module _ (db : Database) (w : db.World) (n : ℕ) (r : ExchangeRate) where
  -- The setter `s` of the rate `r`, which asks for the n-th identifier.
  pub record IsSetterOf (s : Setter db.Amount) : Type 0 where
    pub id : db.new_id w n ≡ ok s.id
    pub key : setter_key s ≡ rate_key r
    pub date : s.effective_date ≡ r.effective_date
    pub amount : db.parse_amount r.rate ≡ ok s.rate
    pub unpublished : is_zero r.source_published_at ≡ true → s.source_published_at ≡ none
    pub published :
        is_zero r.source_published_at ≡ false → s.source_published_at ≡ some r.source_published_at

  -- The rate `r` fails with the message `e`: no identifier, no amount, or no INSERT.
  abbrev pub IsRateFailure : Text → Type 0
  IsRateFailure e =
      ((x : Text) × (db.new_id w n ≡ err x) × (e ≡ codes "generate rate id: " ++ x))
      ⊎ ((x : Text) × (db.parse_amount r.rate ≡ err x)
          × (e
              ≡ codes "parse "
                ++ r.quote_currency
                ++ codes " rate "
                ++ quote r.rate
                ++ codes ": "
                ++ x))
      ⊎ ((x : Text) × (s : Setter db.Amount) × (tx : db.Tx) × IsSetterOf s
          × (db.insert_on_conflict s tx ≡ err x)
          × (e ≡ codes "upsert " ++ r.quote_currency ++ codes ": " ++ x))

  pub to_exchange_rate_setter-IsSetterOf :
      (s : Setter db.Amount) → to_exchange_rate_setter db w n r ≡ ok s → IsSetterOf s
  unfolding to_exchange_rate_setter
  to_exchange_rate_setter-IsSetterOf s h =
      let (id, got, h₁) = >>=-eq-ok _ _ h in
      let (amount, parsed, made) = >>=-eq-ok _ _ h₁ in
      let same = ok_inj made in
      record {
        id = wrap-eq-ok _ _ got ∙ ap (λ x. ok x.id) same;
        key = ap (λ x. setter_key x) (sym same);
        date = ap (λ x. x.effective_date) (sym same);
        amount = wrap-eq-ok _ _ parsed ∙ ap (λ x. ok x.rate) same;
        unpublished = λ z.
            ap (λ x. x.source_published_at) (sym same)
            ∙ ap (λ b. some_unless b r.source_published_at) z;
        published = λ z.
            ap (λ x. x.source_published_at) (sym same)
            ∙ ap (λ b. some_unless b r.source_published_at) z;
      }

  pub IsSetterOf-published :
      {s : Setter db.Amount}
      → IsSetterOf s
      → s.source_published_at ≡ some_unless (is_zero r.source_published_at) r.source_published_at
  IsSetterOf-published setter = elim (Bool-cases (is_zero r.source_published_at)) [
    | inl z ↦ rw z (setter.unpublished z)
    | inr z ↦ rw z (setter.published z)
  ]

  pub upsert_one-eq-ok :
      (tx tx' : db.Tx)
      → upsert_one db w n r tx ≡ ok tx'
      → (s : Setter db.Amount) × IsSetterOf s × (db.insert_on_conflict s tx ≡ ok tx')
  unfolding upsert_one
  upsert_one-eq-ok tx tx' h =
      let (s, made, sent) = >>=-eq-ok (to_exchange_rate_setter db w n r) _ h in
      (s, to_exchange_rate_setter-IsSetterOf s made, wrap-eq-ok _ _ sent)

  pub upsert_one-IsRateFailure :
      (tx : db.Tx) (e : Text) → upsert_one db w n r tx ≡ err e → IsRateFailure e
  unfolding upsert_one to_exchange_rate_setter
  upsert_one-IsRateFailure tx e h = by_setter (to_exchange_rate_setter db w n r) refl h
    where
      unmade : to_exchange_rate_setter db w n r ≡ err e → IsRateFailure e
      unmade h = elim (Result-cases (db.new_id w n)) [
        | inr (x, f) ↦ inl (x, f, cc (rw f at h))
        | inl (id, f) ↦ elim (Result-cases (db.parse_amount r.rate)) [
          | inr (x, g) ↦ inr (inl (x, g, cc (rw (f, g) at h)))
          | inl (a, g) ↦ cc (rw (f, g) at h)
        ]
      ]

      by_setter :
          (m : Result (Setter db.Amount))
          → to_exchange_rate_setter db w n r ≡ m
          → (do
            setter ← m
            wrap
                (λ x. codes "upsert " ++ r.quote_currency ++ codes ": " ++ x)
                (db.insert_on_conflict setter tx))
            ≡ err e
          → IsRateFailure e
      by_setter (err x) made h = let same : x ≡ e = cc in unmade (made ∙ ap err same)
      by_setter (ok s) made h =
          let (x, f, g) = wrap-eq-err _ (db.insert_on_conflict s tx) h in
          inr (inr (x, s, tx, to_exchange_rate_setter-IsSetterOf s made, f, g))
