-- ===== src/Fetcher/Scan.antt =====
-- The loop of ParseBankLVRSS over the items.
use april_homework.Common.{
  ◌≡◌, refl, sym, ◌∙◌, subst, inl, inr, ◌⊎◌, List, [], ◌∷◌, ◌++◌, Text, codes, Option, none, some,
  true, false, Result, ok, err, All, In, arith, Bool-cases, Result-cases, ok_inj, In-All,
}
use april_homework.Time.{Time, after, after_irrefl}
use april_homework.Entities.{ExchangeRate}
use april_homework.Fetcher.{
  RssItem, Platform, mentions, item_text, rate_of_item, newer, latest_from,
}
use april_homework.Fetcher.Rate.{extract_rate}

not_after_trans : (t u v : Time) → after t u ≡ false → after u v ≡ false → after t v ≡ false
unfolding after
not_after_trans t u v h k = ground arith

after_asymm : (t u : Time) → after t u ≡ true → after u t ≡ false
unfolding after
after_asymm t u h = ground arith

same_time : (r l : ExchangeRate) → r ≡ l → after l.effective_date r.effective_date ≡ false
same_time r l e = subst (λ x. after x.effective_date r.effective_date ≡ false) e (after_irrefl _)

some_inj : {A : Type 0} {a b : A} → some a ≡ some b → a ≡ b
some_inj e = cc

module _ (platform : Platform) (currency : Text) (fallback_date : Time) where
  abbrev pub extract : RssItem → Result Text
  extract item = extract_rate platform.set_string (item_text item) currency

  abbrev pub rate_for : RssItem → Text → ExchangeRate
  rate_for = rate_of_item platform currency fallback_date

  -- The item gives a rate that is not after `r`.
  abbrev pub IsNotAfter : ExchangeRate → RssItem → Type 0
  IsNotAfter r item =
      (value : Text) × (extract item ≡ ok value)
      × (after (rate_for item value).effective_date r.effective_date ≡ false)

  -- `r` is the rate of some item that mentions the currency.
  abbrev pub IsRateOf : ExchangeRate → RssItem → Type 0
  IsRateOf r item =
      (mentions currency item ≡ true)
      × ((value : Text) × (extract item ≡ ok value) × (r ≡ rate_for item value))

  -- What the loop returns from `latest` over `items`.
  abbrev pub Best : Option ExchangeRate → List RssItem → Option ExchangeRate → Type 0
  Best latest items none = (latest ≡ none) × All (λ item. mentions currency item ≡ false) items
  Best latest items (some r) =
      ((latest ≡ some r) ⊎ ((item : RssItem) × In item items × IsRateOf r item))
      × ((l : ExchangeRate) → latest ≡ some l → after l.effective_date r.effective_date ≡ false)
      × All (λ item. mentions currency item ≡ true → IsNotAfter r item) items

  Best-nil : (latest : Option ExchangeRate) → Best latest [] latest
  Best-nil none = (refl, tt)
  Best-nil (some r) = (inl refl, (λ l e. same_time r l (some_inj e)), tt)

  Best-skip :
      (latest : Option ExchangeRate) (item : RssItem) (items : List RssItem)
      (res : Option ExchangeRate)
      → mentions currency item ≡ false
      → Best latest items res
      → Best latest (item ∷ items) res
  Best-skip latest item items none out (e, rest) = (e, (out, rest))
  Best-skip latest item items (some r) out (from, bound, rest) =
      (later from, bound, ((λ h. cc), rest))
    where
      later :
          (latest ≡ some r) ⊎ ((i : RssItem) × In i items × IsRateOf r i)
          → (latest ≡ some r) ⊎ ((i : RssItem) × In i (item ∷ items) × IsRateOf r i)
      later (inl e) = inl e
      later (inr (i, k, h)) = inr (i, inr k, h)

  -- The newer of two is one of them, and neither is after it.
  newer-lem :
      (latest : Option ExchangeRate) (rate : ExchangeRate)
      → ((newer latest rate ≡ rate) ⊎ (latest ≡ some (newer latest rate)))
        × (after rate.effective_date (newer latest rate).effective_date ≡ false)
        × ((l : ExchangeRate)
            → latest ≡ some l
            → after l.effective_date (newer latest rate).effective_date ≡ false)
  unfolding newer
  newer-lem none rate = (inl refl, after_irrefl rate.effective_date, λ l e. cc)
  newer-lem (some l) rate = elim (Bool-cases (after rate.effective_date l.effective_date)) [
    | inl yes_after ↦ rw yes_after (
      inl refl,
      after_irrefl _,
      λ m e.
          subst (λ x. after x.effective_date rate.effective_date ≡ false) (some_inj e)
            (after_asymm _ _ yes_after),
    )
    | inr not_after ↦ rw not_after (inr refl, not_after, λ m e. same_time l m (some_inj e))
  ]

  Best-take :
      (latest : Option ExchangeRate) (item : RssItem) (items : List RssItem) (value : Text)
      (res : Option ExchangeRate)
      → mentions currency item ≡ true
      → extract item ≡ ok value
      → Best (some (newer latest (rate_for item value))) items res
      → Best latest (item ∷ items) res
  Best-take latest item items value none named got (e, _) = cc
  Best-take latest item items value (some r) named got (from, bound, rest) =
      let (which, not_rate, not_latest) = newer-lem latest (rate_for item value) in
      let top = bound (newer latest (rate_for item value)) refl in
      (
        origin from which,
        λ l e. not_after_trans _ _ _ (not_latest l e) top,
        ((λ _. (value, got, not_after_trans _ _ _ not_rate top)), rest),
      )
    where
      origin :
          (some (newer latest (rate_for item value)) ≡ some r)
            ⊎ ((i : RssItem) × In i items × IsRateOf r i)
          → ((newer latest (rate_for item value) ≡ rate_for item value)
              ⊎ (latest ≡ some (newer latest (rate_for item value))))
          → (latest ≡ some r) ⊎ ((i : RssItem) × In i (item ∷ items) × IsRateOf r i)
      origin (inr (i, k, h)) which = inr (i, inr k, h)
      origin (inl e) (inl rate) =
          inr (item, inl refl, (named, (value, got, sym (some_inj e) ∙ rate)))
      origin (inl e) (inr old) = inl (old ∙ e)

  latest_from-nil :
      (latest : Option ExchangeRate)
      → latest_from platform currency fallback_date latest [] ≡ ok latest
  unfolding latest_from
  latest_from-nil latest = refl

  latest_from-skip :
      (latest : Option ExchangeRate) (item : RssItem) (items : List RssItem)
      → mentions currency item ≡ false
      → latest_from platform currency fallback_date latest (item ∷ items)
        ≡ latest_from platform currency fallback_date latest items
  unfolding latest_from
  latest_from-skip latest item items out = rw (out, latest_from)

  latest_from-take :
      (latest : Option ExchangeRate) (item : RssItem) (items : List RssItem) (value : Text)
      → mentions currency item ≡ true
      → extract item ≡ ok value
      → latest_from platform currency fallback_date latest (item ∷ items)
        ≡ latest_from platform currency fallback_date
            (some (newer latest (rate_for item value)))
            items
  unfolding latest_from
  latest_from-take latest item items value named got = rw (named, got, latest_from)

  latest_from-fail :
      (latest : Option ExchangeRate) (item : RssItem) (items : List RssItem) (e : Text)
      → mentions currency item ≡ true
      → extract item ≡ err e
      → latest_from platform currency fallback_date latest (item ∷ items)
        ≡ err (codes "parse " ++ currency ++ codes " rate: " ++ e)
  unfolding latest_from
  latest_from-fail latest item items e named bad = rw (named, bad, latest_from)

  pub latest_from-Best :
      (items : List RssItem) (latest res : Option ExchangeRate)
      → latest_from platform currency fallback_date latest items ≡ ok res
      → Best latest items res
  latest_from-Best [] latest res h =
      subst (Best latest []) (ok_inj (sym (latest_from-nil latest) ∙ h)) (Best-nil latest)
  latest_from-Best (item ∷ items) latest res h = elim (Bool-cases (mentions currency item)) [
    | inr out ↦
        Best-skip latest item items res out
          (latest_from-Best items latest res (sym (latest_from-skip latest item items out) ∙ h))
    | inl named ↦ elim (Result-cases (extract item)) [
      | inl (value, got) ↦ Best-take latest item items value res named got (
          latest_from-Best items (some (newer latest (rate_for item value))) res
            (sym (latest_from-take latest item items value named got) ∙ h))
      | inr (e, bad) ↦ cc (latest_from-fail latest item items e named bad)
    ]
  ]

  -- Every item that mentions the currency gives a rate, `r` is the rate of one of them, and no other
  -- rate has a later date.
  pub record IsLatest (items : List RssItem) (r : ExchangeRate) : Type 0 where
    pub item : RssItem
    pub listed : In item items
    pub from_item : IsRateOf r item
    pub latest : All (λ i. mentions currency i ≡ true → IsNotAfter r i) items

  pub Best-IsLatest :
      (items : List RssItem) (r : ExchangeRate) → Best none items (some r) → IsLatest items r
  Best-IsLatest items r (inl e, _, _) = cc
  Best-IsLatest items r (inr (item, listed, of), _, rest) = record {
    item = item;
    listed = listed;
    from_item = of;
    latest = rest;
  }

  pub latest_from-total :
      (items : List RssItem) (latest : Option ExchangeRate)
      → All (λ i. mentions currency i ≡ true → (v : Text) × (extract i ≡ ok v)) items
      → (res : Option ExchangeRate) × (latest_from platform currency fallback_date latest items
          ≡ ok res)
  latest_from-total [] latest h = (latest, latest_from-nil latest)
  latest_from-total (item ∷ items) latest (h, hs) = elim (Bool-cases (mentions currency item)) [
    | inr out ↦
        let (res, e) = latest_from-total items latest hs in
        (res, latest_from-skip latest item items out ∙ e)
    | inl named ↦
        let (v, got) = h named in
        let (res, e) = latest_from-total items (some (newer latest (rate_for item v))) hs in
        (res, latest_from-take latest item items v named got ∙ e)
  ]

  pub latest_from-missing :
      (items : List RssItem) (latest : Option ExchangeRate)
      → All (λ i. mentions currency i ≡ false) items
      → latest_from platform currency fallback_date latest items ≡ ok latest
  latest_from-missing [] latest h = latest_from-nil latest
  latest_from-missing (item ∷ items) latest (out, h) =
      latest_from-skip latest item items out ∙ latest_from-missing items latest h

  pub Best-none :
      (items : List RssItem) (item : RssItem)
      → In item items
      → mentions currency item ≡ true
      → (res : Option ExchangeRate) → Best none items res
      → (r : ExchangeRate) × (res ≡ some r)
  Best-none items item i named none (_, out) =
      cc (named, In-All (λ j. mentions currency j ≡ false) item items out i)
  Best-none items item i named (some r) _ = (r, refl)
