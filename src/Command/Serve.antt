-- ===== src/Command/Serve.antt =====
-- `rates-service serve`, from the settings to the status with which the process ends.
use april_homework.Common.{
  ◌≡◌, ◌↔◌, refl, sym, ap, ◌∙◌, List, [], ◌∷◌, Text, codes, Option, none, some, ok,
}
use april_homework.Strings.{text_eq}
use april_homework.Ingestion.{FetchOutcome}
use april_homework.Fetcher.{Platform, fetch_currency, new_bank_lv_fetcher}
use april_homework.Repository.{Database}
use april_homework.Config.{Config}
use april_homework.Service.{Returned, to_list, wait}
use april_homework.Service.Lifecycle.{first_error, wait-first_error}
use april_homework.System.Handler.{new_server}
use april_homework.Command.{
  Host, command_of, ended, served, run_serve, run_command, load_config, main,
}
use april_homework.Command.Status.{ended-status}

-- The run of the service with the handler that runServe makes.
abbrev pub served_run :
    (db : Database)
    → Platform
    → Host db
    → (List FetchOutcome → List FetchOutcome)
    → Config
    → db.World
    → Returned × db.World
served_run db platform host drain cfg w =
    host.run_server cfg.server
      (new_server db host.order host.ping host.web host.redis
        (fetch_currency platform (new_bank_lv_fetcher cfg.fetcher.bank_lv_url)) drain cfg)
      w

module _ (db : Database) (platform : Platform) (host : Host db)
    (drain : List FetchOutcome → List FetchOutcome) where
  main-run_serve :
      (args : List Text) (w : db.World) (cfg : Config)
      → command_of args ≡ codes "serve"
      → load_config db host ≡ ok cfg
      → main db platform host drain args w ≡ run_serve db platform host drain cfg w
  unfolding main run_command text_eq
  main-run_serve args w cfg named loaded = rw (loaded, named) refl

  run_serve-served :
      (w : db.World) (cfg : Config)
      → host.new_pool cfg.database_uri ≡ none
      → run_serve db platform host drain cfg w ≡ served (served_run db platform host drain cfg w)
  unfolding run_serve
  run_serve-served w cfg ready = rw ready refl

ended-log : {W : Type 0} (out : List Text) (p : Option Text × W) → (ended out p).log ≡ to_list p.0
unfolding ended
ended-log out (none, w) = refl
ended-log out (some e, w) = refl

first_error-none : (es : List Text) → (first_error es ≡ none) ↔ (es ≡ [])
first_error-none [] = (λ _. refl, λ _. refl)
first_error-none (e ∷ es) = (λ h. cc, λ h. cc)

run_error : (run : Returned) → wait run.end ≡ first_error run.errors
run_error run = (wait-first_error run.steps run.errors run.end run.run run.returned).0

served-status : {W : Type 0} (p : Returned × W) → ((served p).status ≡ 0) ↔ (p.0.errors ≡ [])
unfolding served
served-status (run, w) =
    let status = ended-status [] (wait run.end, w) in
    (
      λ h. (first_error-none run.errors).0 (sym (run_error run) ∙ status.0 h),
      λ h. status.1 (run_error run ∙ (first_error-none run.errors).1 h),
    )

served-log : {W : Type 0} (p : Returned × W) → (served p).log ≡ to_list (first_error p.0.errors)
unfolding served
served-log (run, w) = ended-log [] (wait run.end, w) ∙ ap to_list (run_error run)

-- `rates-service serve` with accepted settings and a pool: however the run of the service around the
-- handler of the settings went, the status is 0 exactly when neither goroutine returned an error,
-- and otherwise the message that is printed is the first error that was returned.
pub main-serve :
    (db : Database) (platform : Platform) (host : Host db)
    (drain : List FetchOutcome → List FetchOutcome) (args : List Text) (w : db.World) (cfg : Config)
    → command_of args ≡ codes "serve"
    → load_config db host ≡ ok cfg
    → host.new_pool cfg.database_uri ≡ none
    → let run = served_run db platform host drain cfg w in
      let exit = main db platform host drain args w in
      ((exit.status ≡ 0) ↔ (run.0.errors ≡ [])) × (exit.log ≡ to_list (first_error run.0.errors))
main-serve db platform host drain args w cfg named loaded ready =
    let run = served_run db platform host drain cfg w in
    let e =
      main-run_serve db platform host drain args w cfg named loaded
      ∙ run_serve-served db platform host drain w cfg ready in
    let (zero_status, no_errors) = served-status run in
    (
      (λ h. zero_status (sym (ap (λ x. x.status) e) ∙ h), λ h. ap (λ x. x.status) e ∙ no_errors h),
      ap (λ x. x.log) e ∙ served-log run,
    )
