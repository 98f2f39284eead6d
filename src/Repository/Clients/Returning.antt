-- ===== src/Repository/Clients/Returning.antt =====
-- Calls of UpsertRates that run at once: their batches, and the steps until they have returned.
use april_homework.Common.{
  ℕ, zero, suc, ◌+◌, ◌≤◌, ◌<◌, ◌≡◌, ◌⊎◌, inl, inr, refl, sym, ap, ◌∙◌, subst, List, [], ◌∷◌, ◌++◌,
  map, append_assoc, Text, Option, some, ok, err, wrap, codes, All, length, arith,
}
use april_homework.Entities.{ExchangeRate}
use april_homework.Repository.{Database, upsert_one}
use april_homework.Repository.Clients.{
  ClientPhase, waiting, sending, returned, Client, Clients, after_begin, after_insert, after_commit,
  advance, IsActive, open_client, opened, ClientStep, answered, refused, ClientSteps, no_step,
  and_step,
}

module _ (db : Database) where
  abbrev batches_of : List (Client db) → List (List ExchangeRate)
  batches_of cs = map (λ c. c.batch) cs

  batches_of-replaced :
      (before later : List (Client db)) (c : Client db) (p : ClientPhase db)
      → batches_of (before ++ record { batch = c.batch; phase = p } ∷ later)
        ≡ batches_of (before ++ c ∷ later)
  batches_of-replaced [] later c p = refl
  batches_of-replaced (b ∷ before) later c p =
      ap (λ l. b.batch ∷ l) (batches_of-replaced before later c p)

  ClientStep-batches :
      {s t : Clients db} → ClientStep db s t → batches_of t.clients ≡ batches_of s.clients
  ClientStep-batches (answered before later c e a to) =
      ap (λ x. batches_of x.clients) to
      ∙ batches_of-replaced before later c _
      ∙ ap batches_of (sym e)
  ClientStep-batches (refused before later c m e a to) =
      ap (λ x. batches_of x.clients) to
      ∙ batches_of-replaced before later c _
      ∙ ap batches_of (sym e)

  pub ClientSteps-batches :
      {s : Clients db} {n : ℕ} {t : Clients db}
      → ClientSteps db s n t
      → batches_of t.clients ≡ batches_of s.clients
  ClientSteps-batches no_step = refl
  ClientSteps-batches (and_step run step _) = ClientStep-batches step ∙ ClientSteps-batches run

  pub opened-batches :
      (batches : List (List ExchangeRate)) → batches_of (map (open_client db) batches) ≡ batches
  unfolding open_client
  opened-batches [] = refl
  opened-batches (b ∷ bs) = ap (λ l. b ∷ l) (opened-batches bs)

  -- The calls that a client makes at most before it returns.
  unfoldable pub calls_left : List ExchangeRate → ClientPhase db → ℕ
  calls_left batch waiting = suc (suc (length batch))
  calls_left batch (sending n rates tx) = suc (length rates)
  calls_left batch (returned outcome) = 0

  unfoldable pub all_calls : List (Client db) → ℕ
  unfolding calls_left
  all_calls [] = 0
  all_calls (c ∷ cs) = calls_left c.batch c.phase + all_calls cs

  -- BeginTx, one INSERT for each rate, and Commit, of each client.
  abbrev pub most_calls : List (List ExchangeRate) → ℕ
  most_calls [] = 0
  most_calls (b ∷ bs) = suc (suc (length b)) + most_calls bs

  abbrev pub HasReturned : Client db → Type 0
  HasReturned c = (outcome : Option Text) × (c.phase ≡ returned outcome)

  advance_fewer :
      (b : List ExchangeRate) (p : ClientPhase db) (w : db.World)
      → IsActive db p
      → calls_left b (advance db b p w).0 < calls_left b p
  unfolding advance after_begin after_insert after_commit calls_left
  advance_fewer b waiting w a =
      elim (db.begin_tx w)
        as (λ m.
          calls_left b (after_begin db b (wrap (λ e. codes "begin tx: " ++ e) m))
          < suc (suc (length b))) [ ok tx ↦ omega arith | err e ↦ omega arith ]
  advance_fewer b (sending n (r ∷ rs) tx) w a =
      elim (upsert_one db w n r tx)
        as (λ m. calls_left b (after_insert db n rs m) < suc (suc (length rs))) [
          | ok tx ↦ omega arith
          | err e ↦ omega arith
        ]
  advance_fewer b (sending n [] tx) w a =
      elim (db.commit tx w)
        as (λ m. calls_left b (after_commit db w (wrap (λ e. codes "commit tx: " ++ e) m)).0 < 1) [
          | ok tx ↦ omega arith
          | err e ↦ omega arith
        ]
  advance_fewer b (returned outcome) w a = absurd a

  IsActive-calls : (b : List ExchangeRate) (p : ClientPhase db) → IsActive db p → 0 < calls_left b p
  unfolding calls_left
  IsActive-calls b waiting a = omega arith
  IsActive-calls b (sending n rs tx) a = omega arith
  IsActive-calls b (returned outcome) a = absurd a

  all_calls-replaced :
      (before later : List (Client db)) (c d : Client db)
      → calls_left d.batch d.phase < calls_left c.batch c.phase
      → all_calls (before ++ d ∷ later) < all_calls (before ++ c ∷ later)
  unfolding all_calls
  all_calls-replaced [] later c d h = omega arith
  all_calls-replaced (b ∷ before) later c d h = omega (arith, all_calls-replaced before later c d h)

  ClientStep-fewer :
      {s t : Clients db} → ClientStep db s t → all_calls t.clients < all_calls s.clients
  ClientStep-fewer {s} (answered before later c e a to) =
      rw (to, e) (all_calls-replaced before later c _ (advance_fewer c.batch c.phase s.world a))
  ClientStep-fewer {s} (refused before later c m e a to) =
      rw (to, e)
        (all_calls-replaced before later c (record { batch = c.batch; phase = returned (some m) })
          (unfold calls_left in IsActive-calls c.batch c.phase a))

  ClientSteps-calls :
      {s : Clients db} {n : ℕ} {t : Clients db}
      → ClientSteps db s n t
      → n + all_calls t.clients ≤ all_calls s.clients
  ClientSteps-calls no_step = omega arith
  ClientSteps-calls (and_step run step e) =
      omega (arith, e, ClientSteps-calls run, ClientStep-fewer step)

  opened-calls :
      (batches : List (List ExchangeRate))
      → all_calls (map (open_client db) batches) ≡ most_calls batches
  unfolding open_client all_calls calls_left
  opened-calls [] = refl
  opened-calls (b ∷ bs) = omega (arith, opened-calls bs)

  -- Either all have returned, or the first that has not can go on.
  progress :
      (w : db.World) (done cs : List (Client db))
      → All HasReturned cs
        ⊎ ((t : Clients db) × ClientStep db (record { world = w; clients = done ++ cs }) t)
  progress w done [] = inl tt
  progress w done (c ∷ cs) = by_phase c.phase refl (progress w (done ++ c ∷ []) cs)
    where
      by_phase :
          (p : ClientPhase db)
          → c.phase ≡ p
          → All HasReturned cs
            ⊎ ((t : Clients db) × ClientStep db
                  (record { world = w; clients = (done ++ c ∷ []) ++ cs })
                  t)
          → All HasReturned (c ∷ cs)
            ⊎ ((t : Clients db) × ClientStep db (record { world = w; clients = done ++ c ∷ cs }) t)
      by_phase waiting e rest =
          inr (_, answered done cs c refl (subst (IsActive db) (sym e) tt) refl)
      by_phase (sending n rs tx) e rest =
          inr (_, answered done cs c refl (subst (IsActive db) (sym e) tt) refl)
      by_phase (returned outcome) e (inl all) = inl ((outcome, e), all)
      by_phase (returned outcome) e (inr (t, step)) = inr (
        t,
        subst (λ l. ClientStep db (record { world = w; clients = l }) t)
            (append_assoc done (c ∷ []) cs) step,
      )

  complete :
      (k : ℕ) (s t : Clients db) (n : ℕ)
      → ClientSteps db s n t
      → all_calls t.clients ≤ k
      → (m : ℕ) × (u : Clients db) × ClientSteps db s m u × All HasReturned u.clients
  complete zero s t n run left = elim (progress t.world [] t.clients) [
    | inl all ↦ (n, t, run, all)
    | inr (u, step) ↦ absurd (omega (arith, ClientStep-fewer step, left))
  ]
  complete (suc k) s t n run left = elim (progress t.world [] t.clients) [
    | inl all ↦ (n, t, run, all)
    | inr (u, step) ↦
        complete k s u (n + 1) (and_step run step refl) (omega (arith, ClientStep-fewer step, left))
  ]

  -- Calls of UpsertRates that run at once take at most one step for each BeginTx, INSERT and Commit,
  -- and wherever they stand they can go on until each of them has returned.
  pub clients_return :
      (w : db.World) (batches : List (List ExchangeRate)) (n : ℕ) (t : Clients db)
      → ClientSteps db (opened db w batches) n t
      → (n ≤ most_calls batches)
        × ((m : ℕ) × (u : Clients db) × ClientSteps db t m u × All HasReturned u.clients)
  clients_return w batches n t run = (
    omega (arith, ClientSteps-calls run, opened-calls batches),
    complete (all_calls t.clients) t t 0 no_step (omega arith),
  )
