-- ===== src/Repository/Clients/Serial.antt =====
-- Calls of UpsertRates that interleave, against their batches applied one after another.
use mathlib.Core.List.{Perm, perm_middle}
use mathlib.Core.List.Perm
use april_homework.Common.{
  ℕ, ◌≡◌, refl, sym, ap, ◌∙◌, subst, List, [], ◌∷◌, ◌++◌, map, none, some, All,
}
use april_homework.Entities.{ExchangeRate}
use april_homework.Repository.{Row, Database}
use april_homework.Repository.Table.{IsUnique}
use april_homework.Repository.Clients.{
  ClientPhase, waiting, sending, returned, Client, Clients, IsActive, open_client, opened,
  ClientStep, answered, refused, ClientSteps, no_step, and_step,
}
use april_homework.Repository.Clients.Returning.{ClientSteps-batches, opened-batches}
use april_homework.Repository.Clients.Answers.{IsStoredOver, IsSound, Effect, advance-lem}
use april_homework.Repository.Postgres.{IsPostgres}
use april_homework.Repository.Clients.Batches.{
  stored_batches, stored_batches-append, with_stored-active, stored_batches-replaced,
  stored_batches-open,
}

module _ (db : Database) (pg : IsPostgres db) where
  open pg use {committed}

  -- These batches one after another, the last of them first in the list.
  abbrev pub IsSerial :
      List (Row db.Amount) → List (List ExchangeRate) → List (Row db.Amount) → Type 0
  IsSerial old [] new = new ≡ old
  IsSerial old (b ∷ bs) new =
      (middle : List (Row db.Amount)) × IsSerial old bs middle × IsStoredOver db pg b middle new

  abbrev IsSoundClient : Client db → Type 0
  IsSoundClient c = IsSound db pg c.batch c.phase

  -- The batches that were stored are, in some order, `order`, the last commit first.
  pub record IsExplained (old : List (Row db.Amount)) (s : Clients db) : Type 0 where
    pub order : List (List ExchangeRate)
    pub all : Perm order (stored_batches s.clients)
    pub serial : IsSerial old order (committed s.world)
    pub sound : All IsSoundClient s.clients

  open-All : (batches : List (List ExchangeRate)) → All IsSoundClient (map (open_client db) batches)
  unfolding open_client
  open-All [] = tt
  open-All (b ∷ bs) = (tt, open-All bs)

  opened-IsExplained :
      (w : db.World) (batches : List (List ExchangeRate))
      → IsExplained (committed w) (opened db w batches)
  opened-IsExplained w batches = record {
    order = [];
    all = rw (stored_batches-open db batches) (Perm.refl _);
    serial = refl;
    sound = open-All batches;
  }

  All-replace :
      (before later : List (Client db)) (c d : Client db)
      → All IsSoundClient (before ++ c ∷ later)
      → (IsSoundClient c → IsSoundClient d)
      → All IsSoundClient (before ++ d ∷ later)
  All-replace [] later c d (h, hs) f = (f h, hs)
  All-replace (b ∷ before) later c d (h, hs) f = (h, All-replace before later c d hs f)

  All-middle :
      (before later : List (Client db)) (c : Client db)
      → All IsSoundClient (before ++ c ∷ later)
      → IsSoundClient c
  All-middle [] later c (h, hs) = h
  All-middle (b ∷ before) later c (h, hs) = All-middle before later c hs

  -- One client of a state that is explained goes into the phase `p`, with the world `w'`.
  replaced-IsExplained :
      (old : List (Row db.Amount)) (s : Clients db) (before later : List (Client db))
      (c : Client db) (p : ClientPhase db) (w' : db.World)
      → s.clients ≡ before ++ c ∷ later
      → IsActive db c.phase
      → IsExplained old s
      → IsSound db pg c.batch p
      → Effect db pg c.batch p s.world w'
      → IsExplained old
          (record { world = w'; clients = before ++ record { batch = c.batch; phase = p } ∷ later })
  replaced-IsExplained old s before later c p w' e a x sound effect = by_phase p sound effect
    where
      had : Perm x.order (stored_batches before ++ stored_batches later)
      had =
          subst (Perm x.order)
            (ap stored_batches e
              ∙ stored_batches-append before (c ∷ later)
              ∙ ap (λ l. stored_batches before ++ l)
                  (with_stored-active c.batch c.phase (stored_batches later) a))
            x.all

      clients_sound :
          (q : ClientPhase db)
          → IsSound db pg c.batch q
          → All IsSoundClient (before ++ record { batch = c.batch; phase = q } ∷ later)
      clients_sound q h =
          All-replace before later c (record { batch = c.batch; phase = q })
            (subst (All IsSoundClient) e x.sound) (λ _. h)

      by_phase :
          (q : ClientPhase db)
          → IsSound db pg c.batch q
          → Effect db pg c.batch q s.world w'
          → IsExplained old (record {
            world = w';
            clients = before ++ record { batch = c.batch; phase = q } ∷ later;
          })
      by_phase (returned none) h f = record {
        order = c.batch ∷ x.order;
        all = rw (stored_batches-replaced before later c (returned none)) (
            Perm.trans (Perm.cons c.batch had)
              (Perm.symm (perm_middle (stored_batches before) (stored_batches later))));
        serial = (committed s.world, x.serial, f);
        sound = clients_sound (returned none) h;
      }
      by_phase (returned (some m)) h f = record {
        order = x.order;
        all = rw (stored_batches-replaced before later c (returned (some m))) had;
        serial = rw f x.serial;
        sound = clients_sound (returned (some m)) h;
      }
      by_phase waiting h f = record {
        order = x.order;
        all = rw (stored_batches-replaced before later c waiting) had;
        serial = rw f x.serial;
        sound = clients_sound waiting h;
      }
      by_phase (sending n rates tx) h f = record {
        order = x.order;
        all = rw (stored_batches-replaced before later c (sending n rates tx)) had;
        serial = rw f x.serial;
        sound = clients_sound (sending n rates tx) h;
      }

  ClientStep-IsExplained :
      (old : List (Row db.Amount)) {s t : Clients db}
      → ClientStep db s t
      → IsExplained old s
      → IsExplained old t
  ClientStep-IsExplained old {s} (answered before later c e a to) x =
      let sound = All-middle before later c (subst (All IsSoundClient) e x.sound) in
      let (sound', effect) = advance-lem db pg c s.world a sound in
      rw to (replaced-IsExplained old s before later c _ _ e a x sound' effect)
  ClientStep-IsExplained old {s} (refused before later c m e a to) x =
      rw to (replaced-IsExplained old s before later c (returned (some m)) s.world e a x tt refl)

  pub ClientSteps-IsExplained :
      (old : List (Row db.Amount)) {s : Clients db} {n : ℕ} {t : Clients db}
      → ClientSteps db s n t
      → IsExplained old s
      → IsExplained old t
  ClientSteps-IsExplained old no_step x = x
  ClientSteps-IsExplained old (and_step run step _) x =
      ClientStep-IsExplained old step (ClientSteps-IsExplained old run x)

  IsSerial-IsUnique :
      (old : List (Row db.Amount)) (order : List (List ExchangeRate)) (new : List (Row db.Amount))
      → IsSerial old order new
      → IsUnique old
      → IsUnique new
  IsSerial-IsUnique old [] new e u = subst IsUnique (sym e) u
  IsSerial-IsUnique old (b ∷ bs) new (middle, before, stored) u =
      stored.unique (IsSerial-IsUnique old bs middle before u)

  -- Some calls of UpsertRates run at once, each step of one answered by the database or failing from
  -- outside. Whatever the interleaving, and wherever the calls stand, the clients are still those of
  -- the batches, and there is an order of the batches for which UpsertRates has returned nil, such
  -- that the committed table is what these batches give one after another to the table that there
  -- was, and nothing else: a call that returned an error or that is still open leaves no trace. No
  -- two rows have the same key if none had before.
  pub upsert_rates-IsSerial :
      (w : db.World) (batches : List (List ExchangeRate)) (n : ℕ) (t : Clients db)
      → ClientSteps db (opened db w batches) n t
      → (map (λ c. c.batch) t.clients ≡ batches)
        × ((order : List (List ExchangeRate)) × Perm order (stored_batches t.clients)
            × IsSerial (committed w) order (committed t.world))
        × (IsUnique (committed w) → IsUnique (committed t.world))
  upsert_rates-IsSerial w batches n t run =
      let x = ClientSteps-IsExplained (committed w) run (opened-IsExplained w batches) in
      (
        ClientSteps-batches db run ∙ opened-batches db batches,
        (x.order, x.all, x.serial),
        IsSerial-IsUnique (committed w) x.order (committed t.world) x.serial,
      )
