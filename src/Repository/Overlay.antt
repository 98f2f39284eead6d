-- ===== src/Repository/Overlay.antt =====
-- The values that the setters of a batch give to the keys of the table, by the rates of the batch.
use april_homework.Common.{
  ℕ, suc, ◌≡◌, ◌⊎◌, refl, sym, ap, ◌∙◌, inl, inr, List, [], ◌∷◌, map, Option, some, ok, ok_inj, In,
  In-All, Bool-cases,
}
use april_homework.Time.{Time, is_zero, after}
use april_homework.Entities.{ExchangeRate}
use april_homework.Repository.{Row, Setter, Database, some_unless}
use april_homework.Repository.Table.{
  Key, key_eq, key_eq_iff, row_key, setter_key, value_at, IsUnique,
}
use april_homework.Repository.Postgres.{IsPostgres}
use april_homework.Repository.Writes.{overlay}
use april_homework.Repository.Setters.{rate_key, IsSetterOf, IsSetterOf-published}
use april_homework.Repository.Upsert.{Batch}

pub after-instant :
    (t t' u u' : Time)
    → t.sec ≡ t'.sec
    → t.nsec ≡ t'.nsec
    → u.sec ≡ u'.sec
    → u.nsec ≡ u'.nsec
    → after t u ≡ after t' u'
unfolding after
after-instant t t' u u' a b c d = rw (a, b, c, d) refl

module _ {Amount : Type 0} where
  pub value_at-In :
      (k : Key) (rows : List (Row Amount)) (v : Amount × Option Time)
      → value_at k rows ≡ some v
      → (q : Row Amount) × In q rows × (row_key q ≡ k)
  unfolding value_at
  value_at-In k [] v h = cc
  value_at-In k (r ∷ rs) v h = elim (Bool-cases (key_eq (row_key r) k)) [
    | inl e ↦ (r, inl refl, (key_eq_iff (row_key r) k).0 e)
    | inr e ↦ let (q, i, same) = value_at-In k rs v (rw e at h) in (q, inr i, same)
  ]

  pub In-value_at :
      (q : Row Amount) (rows : List (Row Amount))
      → IsUnique rows
      → In q rows
      → value_at (row_key q) rows ≡ some (q.rate, q.source_published_at)
  unfolding value_at
  In-value_at q [] u i = absurd i
  In-value_at q (r ∷ rs) u (inl e) =
      rw ((key_eq_iff (row_key r) (row_key q)).1 (ap (λ x. row_key x) e))
        (ap (λ x. some (x.rate, x.source_published_at)) e)
  In-value_at q (r ∷ rs) (apart, u) (inr i) = elim (Bool-cases (key_eq (row_key r) (row_key q))) [
    | inl e ↦ absurd (In-All _ q rs apart i (sym ((key_eq_iff (row_key r) (row_key q)).0 e)))
    | inr e ↦ rw e (In-value_at q rs u i)
  ]

module _ (db : Database) (pg : IsPostgres db) (w : db.World) where
  -- The values of these rates are such as the types of the columns hold.
  abbrev pub IsHeld : List ExchangeRate → Type 0
  IsHeld rates =
      (r : ExchangeRate) (n : ℕ) (s : Setter db.Amount)
      → In r rates
      → IsSetterOf db w n r s
      → pg.stored s ≡ s

  -- A key whose value changed is that of a rate of the batch.
  pub overlay-source :
      (k : Key) (n : ℕ) (rates : List ExchangeRate) (ss : List (Setter db.Amount))
      (v : Option (db.Amount × Option Time))
      → IsHeld rates
      → Batch db pg w n rates ss
      → ((r : ExchangeRate) × In r rates × (rate_key r ≡ k)) ⊎ (overlay k (map pg.stored ss) v ≡ v)
  overlay-source k n [] [] v held b = inr refl
  overlay-source k n [] (s ∷ ss) v held b = absurd b
  overlay-source k n (r ∷ rs) [] v held b = absurd b
  overlay-source k n (r ∷ rs) (s ∷ ss) v held (made, b) =
      let same = held r n s (inl refl) made in
      let rest = overlay-source k (suc n) rs ss v (λ q m t i. held q m t (inr i)) b in
      elim (Bool-cases (key_eq (setter_key (pg.stored s)) k)) [
        | inl e ↦ inl (
          r,
          inl refl,
          sym made.key
              ∙ ap (λ x. setter_key x) (sym same)
              ∙ (key_eq_iff (setter_key (pg.stored s)) k).0 e,
        )
        | inr e ↦ rw (overlay, e) (elim rest [ inl (q, i, f) ↦ inl (q, inr i, f) | inr f ↦ inr f ])
      ]

  -- The key of `r` has the value of `r` if no other rate of the batch has this key.
  pub overlay-value :
      (r : ExchangeRate) (n : ℕ) (rates : List ExchangeRate) (ss : List (Setter db.Amount))
      (v : Option (db.Amount × Option Time)) (a : db.Amount)
      → db.parse_amount r.rate ≡ ok a
      → IsHeld rates
      → ((q : ExchangeRate) → In q rates → rate_key q ≡ rate_key r → q ≡ r)
      → In r rates
        ⊎ (v ≡ some (a, some_unless (is_zero r.source_published_at) r.source_published_at))
      → Batch db pg w n rates ss
      → overlay (rate_key r) (map pg.stored ss) v
        ≡ some (a, some_unless (is_zero r.source_published_at) r.source_published_at)
  overlay-value r n [] [] v a parsed held only (inl i) b = absurd i
  overlay-value r n [] [] v a parsed held only (inr e) b = e
  overlay-value r n [] (s ∷ ss) v a parsed held only h b = absurd b
  overlay-value r n (q ∷ qs) [] v a parsed held only h b = absurd b
  overlay-value r n (q ∷ qs) (s ∷ ss) v a parsed held only h (made, b) =
      let same = held q n s (inl refl) made in
      let key : setter_key (pg.stored s) ≡ rate_key q = ap (λ x. setter_key x) same ∙ made.key in
      let rest = λ (u : Option (db.Amount × Option Time)) (g : In r qs ⊎ (u ≡ _)).
        overlay-value r (suc n) qs ss u a parsed (λ p m t i. held p m t (inr i))
          (λ p i. only p (inr i)) g b in
      elim (Bool-cases (key_eq (setter_key (pg.stored s)) (rate_key r))) [
        | inl e ↦
            let q_is_r = only q (inl refl) (sym key ∙ (key_eq_iff _ (rate_key r)).0 e) in
            rw (overlay, e)
              (rest _ (
                inr (
                  ap (λ x. some (x.rate, x.source_published_at)) same
                  ∙ ap (λ p. some (s.rate, p)) (IsSetterOf-published db w n q made)
                  ∙ ap
                      (λ x.
                        some (
                          s.rate,
                          some_unless (is_zero x.source_published_at) x.source_published_at,
                        ))
                      q_is_r
                  ∙ ap
                      (λ x.
                        some (x, some_unless (is_zero r.source_published_at) r.source_published_at))
                      (ok_inj
                        (sym made.amount ∙ ap (λ x. db.parse_amount x.rate) q_is_r ∙ parsed)))))
        | inr e ↦
            rw (overlay, e)
              (elim h [
                | inl (inl f) ↦ cc (e, (key_eq_iff _ (rate_key r)).1 (key ∙ ap rate_key f))
                | inl (inr i) ↦ rest v (inl i)
                | inr f ↦ rest v (inr f)
              ])
      ]

  -- Every rate of a batch that was stored has an amount.
  pub Batch-amount :
      (r : ExchangeRate) (n : ℕ) (rates : List ExchangeRate) (ss : List (Setter db.Amount))
      → Batch db pg w n rates ss
      → In r rates
      → (a : db.Amount) × (db.parse_amount r.rate ≡ ok a)
  Batch-amount r n [] [] b i = absurd i
  Batch-amount r n [] (s ∷ ss) b i = absurd b
  Batch-amount r n (q ∷ qs) [] b i = absurd b
  Batch-amount r n (q ∷ qs) (s ∷ ss) (made, b) (inl e) =
      (s.rate, ap (λ x. db.parse_amount x.rate) (sym e) ∙ made.amount)
  Batch-amount r n (q ∷ qs) (s ∷ ss) (made, b) (inr i) = Batch-amount r (suc n) qs ss b i
