-- ===== src/Command/Fetch.antt =====
-- `rates-service fetch`, from the settings to the database.
use mathlib.Core.List.{Perm}
use april_homework.Common.{
  ◌≡◌, ◌≢◌, ◌↔◌, refl, sym, ap, ◌∙◌, List, [], Text, codes, Option, none, some, Result, ok,
}
use april_homework.Strings.{text_eq}
use april_homework.Entities.{ExchangeRate}
use april_homework.Ingestion.{FetchOutcome, normalize_currencies}
use april_homework.Ingestion.Settle.{unfetched}
use april_homework.Ingestion.Outcome.{fetch_and_store-IsReport}
use april_homework.Fetcher.{Platform, fetch_currency, new_bank_lv_fetcher}
use april_homework.Repository.{Database, upsert_rates}
use april_homework.Config.{Config, fetch_currencies}
use april_homework.System.{ingest}
use april_homework.Command.{
  Host, printed, command_of, ended, fetch_configured, run_fetch, run_command, load_config, main,
}
use april_homework.Command.Status.{ended-status}

-- The fetcher that runFetch makes.
abbrev pub configured_fetcher : Platform → Config → Text → Result ExchangeRate
configured_fetcher platform cfg =
    fetch_currency platform (new_bank_lv_fetcher cfg.fetcher.bank_lv_url)

module _ (db : Database) (platform : Platform) (host : Host db)
    (drain : List FetchOutcome → List FetchOutcome) where
  main-run_fetch :
      (args : List Text) (w : db.World) (cfg : Config)
      → command_of args ≡ codes "fetch"
      → load_config db host ≡ ok cfg
      → main db platform host drain args w ≡ run_fetch db platform host drain cfg w
  unfolding main run_command text_eq
  main-run_fetch args w cfg named loaded = rw (loaded, named) refl

  run_fetch-pool :
      (w : db.World) (cfg : Config)
      → host.new_pool cfg.database_uri ≡ none
      → run_fetch db platform host drain cfg w
        ≡ ended (printed (host.marshal (fetch_configured db platform host drain cfg w).0.0)) (
          (fetch_configured db platform host drain cfg w).0.1,
          (fetch_configured db platform host drain cfg w).1,
        )
  unfolding run_fetch
  run_fetch-pool w cfg ready = rw ready refl

ended-world : {W : Type 0} (out : List Text) (p : Option Text × W) → (ended out p).world ≡ p.1
unfolding ended
ended-world out (none, w) = refl
ended-world out (some e, w) = refl

ended-out : {W : Type 0} (out : List Text) (p : Option Text × W) → (ended out p).out ≡ out
unfolding ended
ended-out out (none, w) = refl
ended-out out (some e, w) = refl

-- `rates-service fetch` with accepted settings and a pool, for every order of arrival, and where some
-- configured code is not blank: the status is 0 exactly when every canonical code was fetched and
-- the repository returned no error for the saved rates; the result is printed whatever the status;
-- and the database is the one that the repository left, or the old one if nothing was fetched.
pub main-fetch :
    (db : Database) (platform : Platform) (host : Host db)
    (drain : List FetchOutcome → List FetchOutcome) (args : List Text) (w : db.World) (cfg : Config)
    → command_of args ≡ codes "fetch"
    → load_config db host ≡ ok cfg
    → host.new_pool cfg.database_uri ≡ none
    → ((os : List FetchOutcome) → Perm (drain os) os)
    → normalize_currencies (fetch_currencies cfg) ≢ []
    → let result = (fetch_configured db platform host drain cfg w).0.0 in
      let exit = main db platform host drain args w in
      ((exit.status ≡ 0) ↔ (
        (unfetched (configured_fetcher platform cfg) (normalize_currencies (fetch_currencies cfg))
          ≡ [])
        × (result.saved ≢ [] → (upsert_rates db result.saved w).0 ≡ none)))
      × (exit.out ≡ printed (host.marshal result))
      × (result.saved ≢ [] → exit.world ≡ (upsert_rates db result.saved w).1)
      × (result.saved ≡ [] → exit.world ≡ w)
unfolding fetch_configured ingest
main-fetch db platform host drain args w cfg named loaded ready order some_code =
    let out = fetch_configured db platform host drain cfg w in
    let report =
      fetch_and_store-IsReport (upsert_rates db) (configured_fetcher platform cfg) drain
        (fetch_currencies cfg) w order some_code in
    let lines = printed (host.marshal out.0.0) in
    let e =
      main-run_fetch db platform host drain args w cfg named loaded
      ∙ run_fetch-pool db platform host drain w cfg ready in
    let world = ap (λ x. x.world) e ∙ ended-world lines (out.0.1, out.1) in
    let status = ended-status lines (out.0.1, out.1) in
    (
      (
        λ h. report.no_error.0 (status.0 (sym (ap (λ x. x.status) e) ∙ h)),
        λ h. ap (λ x. x.status) e ∙ status.1 (report.no_error.1 h),
      ),
      ap (λ x. x.out) e ∙ ended-out lines (out.0.1, out.1),
      λ h. world ∙ report.stored h,
      λ h. world ∙ report.untouched h,
    )
