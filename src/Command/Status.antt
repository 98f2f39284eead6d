-- ===== src/Command/Status.antt =====
-- The status with which the process ends.
use april_homework.Common.{
  ℕ, ◌≡◌, ◌≢◌, ◌↔◌, ◌⊎◌, refl, inl, inr, List, [], ◌∷◌, Text, codes, Option, none, some, ok, err,
  arith, Bool-cases, Result-cases,
}
use april_homework.Strings.{text_eq}
use april_homework.Strings.Laws.{text_eq_iff}
use april_homework.Ingestion.{FetchOutcome}
use april_homework.Fetcher.{Platform}
use april_homework.Repository.{Database}
use april_homework.Config.{Config}
use april_homework.Command.{
  Host, Exit, with_pool, command_of, ended, unknown_command, run_serve, run_fetch, run_command,
  load_config, main,
}

pub ended-status :
    {W : Type 0} (out : List Text) (p : Option Text × W) → ((ended out p).status ≡ 0) ↔ (p.0 ≡ none)
unfolding ended
ended-status out (none, w) = (λ _. refl, λ _. refl)
ended-status out (some e, w) = ((λ h. absurd (omega arith)), (λ h. cc))

ended-status_cases :
    {W : Type 0} (out : List Text) (p : Option Text × W)
    → ((ended out p).status ≡ 0) ⊎ ((ended out p).status ≡ 1)
unfolding ended
ended-status_cases out (none, w) = inl refl
ended-status_cases out (some e, w) = inr refl

with_pool-cases :
    {W : Type 0} (o : Option Text) (x : Exit W) (w : W)
    → (x.status ≡ 0) ⊎ (x.status ≡ 1)
    → ((with_pool o x w).status ≡ 0) ⊎ ((with_pool o x w).status ≡ 1)
unfolding ended
with_pool-cases none x w h = h
with_pool-cases (some e) x w h = inr refl

not_2 : (n : ℕ) → (n ≡ 0) ⊎ (n ≡ 1) → n ≢ 2
not_2 n (inl h) e = omega arith
not_2 n (inr h) e = omega arith

module _ (db : Database) (platform : Platform) (host : Host db)
    (drain : List FetchOutcome → List FetchOutcome) where
  run_serve-ne-2 :
      (cfg : Config) (w : db.World) → (run_serve db platform host drain cfg w).status ≢ 2
  unfolding run_serve
  run_serve-ne-2 cfg w =
      not_2 (run_serve db platform host drain cfg w).status
        (with_pool-cases (host.new_pool cfg.database_uri) _ w (ended-status_cases _ _))

  run_fetch-ne-2 :
      (cfg : Config) (w : db.World) → (run_fetch db platform host drain cfg w).status ≢ 2
  unfolding run_fetch
  run_fetch-ne-2 cfg w =
      not_2 (run_fetch db platform host drain cfg w).status
        (with_pool-cases (host.new_pool cfg.database_uri) _ w (ended-status_cases _ _))

  run_command-2 :
      (cmd : Text) (cfg : Config) (w : db.World)
      → ((run_command db platform host drain cmd cfg w).status ≡ 2)
        ↔ ((cmd ≢ codes "serve") × (cmd ≢ codes "fetch"))
  unfolding run_command unknown_command
  run_command-2 cmd cfg w = elim (Bool-cases (text_eq cmd (codes "serve"))) [
    | inl e ↦ rw e (
      λ h. absurd (run_serve-ne-2 cfg w h),
      λ h. absurd (h.0 ((text_eq_iff cmd (codes "serve")).0 e)),
    )
    | inr e ↦ rw e (elim (Bool-cases (text_eq cmd (codes "fetch"))) [
      | inl f ↦ rw f (
        λ h. absurd (run_fetch-ne-2 cfg w h),
        λ h. absurd (h.1 ((text_eq_iff cmd (codes "fetch")).0 f)),
      )
      | inr f ↦ rw f (
        λ _. (
          (λ h. cc (e, (text_eq_iff cmd (codes "serve")).1 h)),
          (λ h. cc (f, (text_eq_iff cmd (codes "fetch")).1 h)),
        ),
        λ _. refl,
      )
    ])
  ]

-- The process ends with status 2 exactly when the settings are accepted and the command is neither
-- `serve` nor `fetch`; and where the settings are refused it ends with status 1, whatever the
-- command, with nothing printed and the database as it was.
pub main-status :
    (db : Database) (platform : Platform) (host : Host db)
    (drain : List FetchOutcome → List FetchOutcome) (args : List Text) (w : db.World)
    → (((main db platform host drain args w).status ≡ 2) ↔ (
        ((cfg : Config) × (load_config db host ≡ ok cfg))
        × (command_of args ≢ codes "serve")
        × (command_of args ≢ codes "fetch")))
      × ((e : Text)
          → load_config db host ≡ err e
          → main db platform host drain args w
            ≡ record { status = 1; out = []; log = e ∷ []; world = w })
unfolding main ended
main-status db platform host drain args w = elim (Result-cases (load_config db host)) [
  | inl (cfg, e) ↦ rw e (
    (
      λ h.
          let (a, b) = (run_command-2 db platform host drain (command_of args) cfg w).0 h in
          ((cfg, refl), a, b),
      λ h. (run_command-2 db platform host drain (command_of args) cfg w).1 (h.1, h.2),
    ),
    λ x h. cc,
  )
  | inr (x, e) ↦ rw e ((λ h. absurd (omega arith), λ h. cc (h.0.1)), λ y h. cc (h))
]
