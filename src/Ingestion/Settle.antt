-- ===== src/Ingestion/Settle.antt =====
-- What FetchAndStore reports and stores, whatever the order in which the outcomes arrive.
use mathlib.Core.List.{Perm, filter_map, filter_map-cons-none, filter_map-cons-some}
use mathlib.Core.List.Perm
use april_homework.Common.{
  ◌≡◌, ◌≢◌, refl, sym, ap, ◌∙◌, inl, inr, List, [], ◌∷◌, ◌++◌, map, append_assoc, append-nil, Text,
  Option, none, some, Bool, true, false, Result, ok, err, All, Option-cases, ap₂,
}
use april_homework.Strings.{text_eq}
use april_homework.Entities.{ExchangeRate, FetchFailure}
use april_homework.Ingestion.{
  IngestResult, FetchOutcome, empty_result, outcome_of, run_task, group_wait, classify, collect,
}
use april_homework.Ingestion.Normalize.{IsCanonical}

abbrev pub as_rate : Result ExchangeRate → Option ExchangeRate
as_rate (ok rate) = some rate
as_rate (err e) = none

abbrev pub as_failure : Text → Result ExchangeRate → Option FetchFailure
as_failure c (ok rate) = none
as_failure c (err e) = some (record { currency = c; error = e })

module _ (fetch : Text → Result ExchangeRate) where
  -- The rates that the fetcher returns for these currencies.
  unfoldable pub fetched : List Text → List ExchangeRate
  unfolding filter_map
  fetched = filter_map (λ c. as_rate (fetch c))

  -- The failures that it returns.
  unfoldable pub unfetched : List Text → List FetchFailure
  unfolding filter_map
  unfetched = filter_map (λ c. as_failure c (fetch c))

abbrev rate_if : Bool → FetchOutcome → Option ExchangeRate
rate_if true o = some o.rate
rate_if false o = none

abbrev failure_if : Bool → FetchOutcome → Option FetchFailure
failure_if true o = none
failure_if false o = some o.failure

abbrev saved_of : FetchOutcome → Option ExchangeRate
saved_of o = rate_if (text_eq o.failure.currency []) o

abbrev failed_of : FetchOutcome → Option FetchFailure
failed_of o = failure_if (text_eq o.failure.currency []) o

abbrev pub cons_some {ℓ} : {A : Type ℓ} → Option A → List A → List A
cons_some none xs = xs
cons_some (some x) xs = x ∷ xs

pub filter_map-cons {ℓ κ} :
    {A : Type ℓ} {B : Type κ} (f : A → Option B) (x : A) (xs : List A)
    → filter_map f (x ∷ xs) ≡ cons_some (f x) (filter_map f xs)
filter_map-cons f x xs = elim (Option-cases (f x)) [
  | inl e ↦ rw e (filter_map-cons-none f x xs e)
  | inr (b, e) ↦ rw e (filter_map-cons-some f x xs e)
]

saved-classify :
    (b : Bool) (o : FetchOutcome) (r : IngestResult) (xs : List ExchangeRate)
    → (classify b o r).saved ++ xs ≡ r.saved ++ cons_some (rate_if b o) xs
unfolding classify
saved-classify true o r xs = append_assoc r.saved (o.rate ∷ []) xs
saved-classify false o r xs = refl

failed-classify :
    (b : Bool) (o : FetchOutcome) (r : IngestResult) (xs : List FetchFailure)
    → (classify b o r).failed ++ xs ≡ r.failed ++ cons_some (failure_if b o) xs
unfolding classify
failed-classify true o r xs = refl
failed-classify false o r xs = append_assoc r.failed (o.failure ∷ []) xs

collect-cons :
    (o : FetchOutcome) (os : List FetchOutcome) (r : IngestResult)
    → collect (o ∷ os) r ≡ collect os (classify (text_eq o.failure.currency []) o r)
unfolding collect
collect-cons o os r = refl

collect-saved :
    (os : List FetchOutcome) (r : IngestResult)
    → (collect os r).saved ≡ r.saved ++ filter_map saved_of os
collect-saved [] r = unfold collect filter_map in sym (append-nil r.saved)
collect-saved (o ∷ os) r =
    ap (λ r'. r'.saved) (collect-cons o os r)
    ∙ collect-saved os (classify (text_eq o.failure.currency []) o r)
    ∙ saved-classify (text_eq o.failure.currency []) o r (filter_map saved_of os)
    ∙ ap (λ xs. r.saved ++ xs) (sym (filter_map-cons saved_of o os))

collect-failed :
    (os : List FetchOutcome) (r : IngestResult)
    → (collect os r).failed ≡ r.failed ++ filter_map failed_of os
collect-failed [] r = unfold collect filter_map in sym (append-nil r.failed)
collect-failed (o ∷ os) r =
    ap (λ r'. r'.failed) (collect-cons o os r)
    ∙ collect-failed os (classify (text_eq o.failure.currency []) o r)
    ∙ failed-classify (text_eq o.failure.currency []) o r (filter_map failed_of os)
    ∙ ap (λ xs. r.failed ++ xs) (sym (filter_map-cons failed_of o os))

text_eq-false : (c : Text) → c ≢ [] → text_eq c [] ≡ false
unfolding text_eq
text_eq-false [] h = absurd (h refl)
text_eq-false (x ∷ c) h = refl

outcome-saved_of :
    (c : Text) (r : Result ExchangeRate) → c ≢ [] → saved_of (outcome_of c r).0 ≡ as_rate r
unfolding outcome_of text_eq
outcome-saved_of c (ok r) full = refl
outcome-saved_of c (err e) full =
    ap (λ b. rate_if b (outcome_of c (err e)).0) (text_eq-false c full)

outcome-failed_of :
    (c : Text) (r : Result ExchangeRate) → c ≢ [] → failed_of (outcome_of c r).0 ≡ as_failure c r
unfolding outcome_of text_eq
outcome-failed_of c (ok r) full = refl
outcome-failed_of c (err e) full =
    ap (λ b. failure_if b (outcome_of c (err e)).0) (text_eq-false c full)

group_wait-cons :
    (c : Text) (r : Result ExchangeRate) (es : List (Option Text))
    → group_wait ((outcome_of c r).1 ∷ es) ≡ group_wait es
unfolding group_wait outcome_of
group_wait-cons c (ok r) es = refl
group_wait-cons c (err e) es = refl

module _ (fetch : Text → Result ExchangeRate) where
  abbrev pub tasks : List Text → List (FetchOutcome × Option Text)
  tasks = map (run_task fetch)

  tasks-saved :
      (cs : List Text)
      → All IsCanonical cs
      → filter_map saved_of (map (λ t. t.0) (tasks cs)) ≡ fetched fetch cs
  unfolding fetched run_task
  tasks-saved [] h = unfold filter_map in refl
  tasks-saved (c ∷ cs) (hc, hs) =
      filter_map-cons saved_of (run_task fetch c).0 (map (λ t. t.0) (tasks cs))
      ∙ ap₂ cons_some (outcome-saved_of c (fetch c) hc.0) (tasks-saved cs hs)
      ∙ sym (filter_map-cons (λ d. as_rate (fetch d)) c cs)

  tasks-failed :
      (cs : List Text)
      → All IsCanonical cs
      → filter_map failed_of (map (λ t. t.0) (tasks cs)) ≡ unfetched fetch cs
  unfolding unfetched run_task
  tasks-failed [] h = unfold filter_map in refl
  tasks-failed (c ∷ cs) (hc, hs) =
      filter_map-cons failed_of (run_task fetch c).0 (map (λ t. t.0) (tasks cs))
      ∙ ap₂ cons_some (outcome-failed_of c (fetch c) hc.0) (tasks-failed cs hs)
      ∙ sym (filter_map-cons (λ d. as_failure d (fetch d)) c cs)

  -- No goroutine returns an error, so the group never has one.
  pub group_wait-tasks : (cs : List Text) → group_wait (map (λ t. t.1) (tasks cs)) ≡ none
  unfolding run_task
  group_wait-tasks [] = unfold group_wait in refl
  group_wait-tasks (c ∷ cs) = group_wait-cons c (fetch c) _ ∙ group_wait-tasks cs

  -- The result that the loop over the channel builds.
  abbrev pub drained : (List FetchOutcome → List FetchOutcome) → List Text → IngestResult
  drained drain cs = collect (drain (map (λ t. t.0) (tasks cs))) empty_result

  -- Whatever the order in which the outcomes of these codes arrive.
  module _ (drain : List FetchOutcome → List FetchOutcome) (cs : List Text)
      (arrivals : Perm (drain (map (λ t. t.0) (tasks cs))) (map (λ t. t.0) (tasks cs)))
      (canonical : All IsCanonical cs) where
    pub drained-saved : Perm (drained drain cs).saved (fetched fetch cs)
    drained-saved =
        rw (collect-saved, ← tasks-saved cs canonical) (Perm.filter_map saved_of arrivals)

    pub drained-failed : Perm (drained drain cs).failed (unfetched fetch cs)
    drained-failed =
        rw (collect-failed, ← tasks-failed cs canonical) (Perm.filter_map failed_of arrivals)

-- A code is fetched or it is not.
pub fetched-or_unfetched :
    (fetch : Text → Result ExchangeRate) (cs : List Text)
    → fetched fetch cs ≡ []
    → unfetched fetch cs ≡ []
    → cs ≡ []
unfolding fetched unfetched
fetched-or_unfetched fetch [] h k = refl
fetched-or_unfetched fetch (c ∷ cs) h k = absurd (
    none_left (fetch c) _ _ (sym (filter_map-cons (λ d. as_rate (fetch d)) c cs) ∙ h)
      (sym (filter_map-cons (λ d. as_failure d (fetch d)) c cs) ∙ k))
  where
    none_left :
        (r : Result ExchangeRate) (rs : List ExchangeRate) (fs : List FetchFailure)
        → cons_some (as_rate r) rs ≡ []
        → cons_some (as_failure c r) fs ≡ []
        → ⊥
    none_left (ok rate) rs fs a b = cc
    none_left (err e) rs fs a b = cc
