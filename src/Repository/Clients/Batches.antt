-- ===== src/Repository/Clients/Batches.antt =====
-- The batches that calls of UpsertRates at once have stored, by the phase in which each call stands.
use april_homework.Common.{◌≡◌, refl, ap, ◌∙◌, List, [], ◌∷◌, ◌++◌, map, none, some}
use april_homework.Entities.{ExchangeRate}
use april_homework.Repository.{Database}
use april_homework.Repository.Clients.{
  ClientPhase, waiting, sending, returned, Client, IsActive, open_client,
}

module _ {db : Database} where
  -- The batches of the clients to which UpsertRates returned nil.
  abbrev pub with_stored :
      List ExchangeRate → ClientPhase db → List (List ExchangeRate) → List (List ExchangeRate)
  with_stored batch (returned none) rest = batch ∷ rest
  with_stored batch (returned (some e)) rest = rest
  with_stored batch waiting rest = rest
  with_stored batch (sending n rates tx) rest = rest

  abbrev pub stored_batches : List (Client db) → List (List ExchangeRate)
  stored_batches [] = []
  stored_batches (c ∷ cs) = with_stored c.batch c.phase (stored_batches cs)

  pub with_stored-append :
      (b : List ExchangeRate) (p : ClientPhase db) (xs ys : List (List ExchangeRate))
      → with_stored b p (xs ++ ys) ≡ with_stored b p xs ++ ys
  with_stored-append b (returned none) xs ys = refl
  with_stored-append b (returned (some e)) xs ys = refl
  with_stored-append b waiting xs ys = refl
  with_stored-append b (sending n rates tx) xs ys = refl

  pub stored_batches-append :
      (cs ds : List (Client db))
      → stored_batches (cs ++ ds) ≡ stored_batches cs ++ stored_batches ds
  stored_batches-append [] ds = refl
  stored_batches-append (c ∷ cs) ds =
      ap (with_stored c.batch c.phase) (stored_batches-append cs ds)
      ∙ with_stored-append c.batch c.phase (stored_batches cs) (stored_batches ds)

  pub with_stored-active :
      (b : List ExchangeRate) (p : ClientPhase db) (rest : List (List ExchangeRate))
      → IsActive db p
      → with_stored b p rest ≡ rest
  with_stored-active b waiting rest a = refl
  with_stored-active b (sending n rates tx) rest a = refl
  with_stored-active b (returned outcome) rest a = absurd a

  -- The batches that are stored once one client is in the phase `p`.
  pub stored_batches-replaced :
      (before later : List (Client db)) (c : Client db) (p : ClientPhase db)
      → stored_batches (before ++ record { batch = c.batch; phase = p } ∷ later)
        ≡ stored_batches before ++ with_stored c.batch p (stored_batches later)
  stored_batches-replaced before later c p = stored_batches-append before (_ ∷ later)

pub stored_batches-open :
    (db : Database) (batches : List (List ExchangeRate))
    → stored_batches (map (open_client db) batches) ≡ []
unfolding open_client
stored_batches-open db [] = refl
stored_batches-open db (b ∷ bs) = stored_batches-open db bs
