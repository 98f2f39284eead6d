-- ===== src/System.antt =====
-- The ingestion service over the repository: internal/ingestion/service.go with UpsertRates of
-- internal/db/repository.go as its store.
pub mod Handler
pub mod Stored
pub mod Listing
pub mod Past
use mathlib.Core.List.{Perm}
use april_homework.Common.{
  ◌≡◌, ◌≢◌, sym, ◌∙◌, subst, inl, inr, List, [], Text, Option, none, Option-cases, Result,
}
use april_homework.Entities.{ExchangeRate}
use april_homework.Ingestion.{IngestResult, FetchOutcome, normalize_currencies, fetch_and_store}
use april_homework.Ingestion.Settle.{fetched, unfetched}
use april_homework.Ingestion.Outcome.{fetch_and_store-IsReport}
use april_homework.Repository.{Database, upsert_rates}
use april_homework.Repository.Postgres.{IsPostgres}
use april_homework.Repository.Upsert.{IsUpdated, upsert_rates_atomic}

-- FetchAndStore of the service that main builds.
unfoldable pub ingest :
    (db : Database)
    → (Text → Result ExchangeRate)
    → (List FetchOutcome → List FetchOutcome)
    → List Text
    → db.World
    → (IngestResult × Option Text) × db.World
unfolding fetch_and_store upsert_rates
ingest db = fetch_and_store (upsert_rates db)

-- On PostgreSQL, for every order of arrival, and where some code is not blank: if no error is
-- returned, the saved rates are those of all canonical codes, and, if there are any, each key of the
-- table has the value of the last of them with that key or its old one; and whenever the repository
-- returned an error for the saved rates, the database is as it was.
pub ingest_atomic :
    (db : Database) (pg : IsPostgres db) (fetch : Text → Result ExchangeRate)
    (drain : List FetchOutcome → List FetchOutcome) (currencies : List Text) (w : db.World)
    → ((os : List FetchOutcome) → Perm (drain os) os)
    → normalize_currencies currencies ≢ []
    → let out = ingest db fetch drain currencies w in
      let cs = normalize_currencies currencies in
      (out.0.1 ≡ none
        → (unfetched fetch cs ≡ [])
          × Perm out.0.0.saved (fetched fetch cs)
          × (out.0.0.saved ≢ []
              → IsUpdated db pg w 0 out.0.0.saved (pg.committed w) (pg.committed out.1)))
      × (out.0.0.saved ≢ []
          → (upsert_rates db out.0.0.saved w).0 ≢ none
          → (out.1 ≡ w) × (out.0.1 ≢ none))
unfolding ingest
ingest_atomic db pg fetch drain currencies w order some_code =
    let report =
      fetch_and_store-IsReport (upsert_rates db) fetch drain currencies w order some_code in
    let out = fetch_and_store (upsert_rates db) fetch drain currencies w in
    let (refused, updated) = upsert_rates_atomic db pg out.0.0.saved w in
    (
      λ done. (
        (report.no_error.0 done).0,
        report.saved,
        λ some_rate.
            subst (λ w'. IsUpdated db pg w 0 out.0.0.saved (pg.committed w) (pg.committed w'))
              (sym (report.stored some_rate)) (updated ((report.no_error.0 done).1 some_rate)),
      ),
      λ some_rate failed. (
        report.stored some_rate ∙ (elim (Option-cases (upsert_rates db out.0.0.saved w).0) [
          | inl e ↦ absurd (failed e)
          | inr (x, e) ↦ (refused x e).1
        ]),
        λ done. failed ((report.no_error.0 done).1 some_rate),
      ),
    )
