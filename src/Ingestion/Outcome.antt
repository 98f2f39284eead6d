-- ===== src/Ingestion/Outcome.antt =====
-- What a caller of FetchAndStore can rely on: which rates are stored, what is reported, and when
-- the returned error is nil.
use mathlib.Core.List.{Perm}
use mathlib.Core.List.Perm
use april_homework.Common.{
  ℕ, ◌≡◌, ◌≢◌, refl, sym, ap, ◌∙◌, subst, ◌↔◌, List, [], ◌∷◌, map, Text, codes, Option, none, some,
  Result, All, length,
}
use april_homework.Strings.{canonical}
use april_homework.Entities.{ExchangeRate, FetchFailure}
use april_homework.Ingestion.{
  IngestResult, FetchOutcome, empty_result, settle, fetch_and_store, fetch_all, store_saved,
  conclude, report_failures, normalize_currencies,
}
use april_homework.Ingestion.Normalize.{normalize_currencies-exact, normalize-blank}
use april_homework.Ingestion.Settle.{
  fetched, unfetched, tasks, group_wait-tasks, drained, drained-saved, drained-failed,
}

module _ {S : Type 0} (upsert_rates : List ExchangeRate → S → Option Text × S) where
  -- What FetchAndStore returned for these canonical codes, and what it did to the store.
  pub record IsReport (fetch : Text → Result ExchangeRate) (cs : List Text) (s : S)
      (result : IngestResult) (error : Option Text) (s' : S) : Type 0 where
    pub saved : Perm result.saved (fetched fetch cs)
    pub failed : Perm result.failed (unfetched fetch cs)
    pub stored : result.saved ≢ [] → s' ≡ (upsert_rates result.saved s).1
    pub untouched : result.saved ≡ [] → s' ≡ s
    pub no_error :
        (error ≡ none)
        ↔ ((unfetched fetch cs ≡ []) × (result.saved ≢ [] → (upsert_rates result.saved s).0 ≡ none))

  store-stored :
      (rs : List ExchangeRate) (s : S) → rs ≢ [] → store_saved upsert_rates rs s ≡ upsert_rates rs s
  unfolding store_saved
  store-stored [] s h = absurd (h refl)
  store-stored (r ∷ rs) s h = refl

  store-untouched :
      (rs : List ExchangeRate) (s : S) → rs ≡ [] → store_saved upsert_rates rs s ≡ (none, s)
  unfolding store_saved
  store-untouched [] s h = refl
  store-untouched (r ∷ rs) s h = cc

  conclude-state :
      (n : ℕ) (result : IngestResult) (p : Option Text × S)
      → ((conclude upsert_rates n result p).0.0 ≡ result)
        × ((conclude upsert_rates n result p).1 ≡ p.1)
  unfolding conclude
  conclude-state n result (none, s) = (refl, refl)
  conclude-state n result (some e, s) = (refl, refl)

  report_failures-none :
      (n : ℕ) (fs : List FetchFailure) → (report_failures n fs ≡ none) ↔ (fs ≡ [])
  unfolding report_failures
  report_failures-none n [] = (λ _. refl, λ _. refl)
  report_failures-none n (f ∷ fs) = (λ e. cc, λ e. cc)

  conclude-none :
      (n : ℕ) (result : IngestResult) (p : Option Text × S)
      → ((conclude upsert_rates n result p).0.1 ≡ none) ↔ ((result.failed ≡ []) × (p.0 ≡ none))
  unfolding conclude
  conclude-none n result (none, s) = (
    λ e. ((report_failures-none n result.failed).0 e, refl),
    λ h. (report_failures-none n result.failed).1 h.0,
  )
  conclude-none n result (some e, s) = (λ h. cc, λ h. cc)

  store_saved-none :
      (rs : List ExchangeRate) (s : S)
      → (rs ≢ [] → (upsert_rates rs s).0 ≡ none)
      → (store_saved upsert_rates rs s).0 ≡ none
  unfolding store_saved
  store_saved-none [] s h = refl
  store_saved-none (r ∷ rs) s h = h (λ e. cc)

  concluded-IsReport :
      (fetch : Text → Result ExchangeRate) (n : ℕ) (cs : List Text) (s : S) (r : IngestResult)
      → Perm r.saved (fetched fetch cs)
      → Perm r.failed (unfetched fetch cs)
      → IsReport fetch cs s r
          (conclude upsert_rates n r (store_saved upsert_rates r.saved s)).0.1
          (conclude upsert_rates n r (store_saved upsert_rates r.saved s)).1
  concluded-IsReport fetch n cs s r saved failed =
      let p = store_saved upsert_rates r.saved s in
      let state = (conclude-state n r p).1 in
      record {
        saved = saved;
        failed = failed;
        stored = λ h. state ∙ ap (λ q. q.1) (store-stored r.saved s h);
        untouched = λ h. state ∙ ap (λ q. q.1) (store-untouched r.saved s h);
        no_error = (
          λ e. (
            Perm.eq-nil (
                subst (λ fs. Perm (unfetched fetch cs) fs) ((conclude-none n r p).0 e).0
                  (Perm.symm failed)),
            λ h. sym (ap (λ q. q.0) (store-stored r.saved s h)) ∙ ((conclude-none n r p).0 e).1,
          ),
          λ h. (conclude-none n r p).1 (
            Perm.eq-nil (subst (λ fs. Perm r.failed fs) h.0 failed),
            store_saved-none r.saved s h.1,
          ),
        );
      }

  module _ (fetch : Text → Result ExchangeRate)
      (drain : List FetchOutcome → List FetchOutcome) where
    fetch_all-cons :
        (cs : List Text) (s : S)
        → cs ≢ []
        → fetch_all upsert_rates fetch drain cs s
          ≡ conclude upsert_rates
              (length cs)
              (drained fetch drain cs)
              (store_saved upsert_rates (drained fetch drain cs).saved s)
    unfolding fetch_all settle
    fetch_all-cons [] s h = absurd (h refl)
    fetch_all-cons (c ∷ cs) s h =
        ap
          (λ e.
            settle upsert_rates (length (c ∷ cs)) e (drain (map (λ t. t.0) (tasks fetch (c ∷ cs))))
              s)
          (group_wait-tasks fetch (c ∷ cs))

-- The same where the order of the outcomes of these codes alone is known.
pub reported_arrivals :
    {S : Type 0} (upsert_rates : List ExchangeRate → S → Option Text × S)
    (fetch : Text → Result ExchangeRate) (drain : List FetchOutcome → List FetchOutcome)
    (currencies : List Text) (s : S)
    → Perm
        (drain (map (λ t. t.0) (tasks fetch (normalize_currencies currencies))))
        (map (λ t. t.0) (tasks fetch (normalize_currencies currencies)))
    → normalize_currencies currencies ≢ []
    → let out = fetch_and_store upsert_rates fetch drain currencies s in
      IsReport upsert_rates fetch (normalize_currencies currencies) s out.0.0 out.0.1 out.1
unfolding fetch_and_store
reported_arrivals upsert_rates fetch drain currencies s order some_code =
    let cs = normalize_currencies currencies in
    let plain = (normalize_currencies-exact currencies).1 in
    let r = drained fetch drain cs in
    let p = store_saved upsert_rates r.saved s in
    subst (λ o. IsReport upsert_rates fetch cs s o.0.0 o.0.1 o.1)
      (sym (fetch_all-cons upsert_rates fetch drain cs s some_code))
      (subst
        (λ q.
          IsReport upsert_rates fetch cs s q (conclude upsert_rates (length cs) r p).0.1
            (conclude upsert_rates (length cs) r p).1)
        (sym (conclude-state upsert_rates (length cs) r p).0)
        (concluded-IsReport upsert_rates fetch (length cs) cs s r
          (drained-saved fetch drain cs order plain) (drained-failed fetch drain cs order plain)))

-- FetchAndStore, for every order in which the outcomes arrive, where some code is not blank: the
-- saved rates are those that the fetcher returned for the canonical codes, each code once, and the
-- failures are its errors with their codes; if some rate was fetched the repository is called once
-- with the saved rates, and otherwise it is not called; the returned error is nil exactly when
-- every code was fetched and the repository returned no error.
pub fetch_and_store-IsReport :
    {S : Type 0} (upsert_rates : List ExchangeRate → S → Option Text × S)
    (fetch : Text → Result ExchangeRate) (drain : List FetchOutcome → List FetchOutcome)
    (currencies : List Text) (s : S)
    → ((os : List FetchOutcome) → Perm (drain os) os)
    → normalize_currencies currencies ≢ []
    → let out = fetch_and_store upsert_rates fetch drain currencies s in
      IsReport upsert_rates fetch (normalize_currencies currencies) s out.0.0 out.0.1 out.1
fetch_and_store-IsReport upsert_rates fetch drain currencies s order some_code =
    reported_arrivals upsert_rates fetch drain currencies s (order _) some_code

-- If every code of the input is blank, nothing is fetched or stored and the error says so.
pub fetch_and_store-blank :
    {S : Type 0} (upsert_rates : List ExchangeRate → S → Option Text × S)
    (fetch : Text → Result ExchangeRate) (drain : List FetchOutcome → List FetchOutcome)
    (currencies : List Text) (s : S)
    → All (λ raw. canonical raw ≡ []) currencies
    → fetch_and_store upsert_rates fetch drain currencies s
      ≡ ((empty_result, some (codes "no currencies selected")), s)
fetch_and_store-blank upsert_rates fetch drain currencies s blank =
    unfold fetch_and_store fetch_all in
    ap (λ cs. fetch_all upsert_rates fetch drain cs s) (normalize-blank currencies blank)
