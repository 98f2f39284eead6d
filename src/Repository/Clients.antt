-- ===== src/Repository/Clients.antt =====
-- UpsertRates of internal/db/repository.go called by several clients at once, each with its own
-- transaction: every call of the database is one step, and the calls interleave in any order. The
-- isolation level of the transactions is Serializable.
pub mod Answers
pub mod Returning
pub mod Batches
pub mod Serial
pub mod Alone
use april_homework.Common.{
  ℕ, suc, ◌+◌, ◌≡◌, List, [], ◌∷◌, ◌++◌, map, Text, codes, Option, none, some, Result, ok, err,
  wrap,
}
use april_homework.Entities.{ExchangeRate}
use april_homework.Repository.{Setter, Row, Database, upsert_one}
use april_homework.Repository.Table.{Key, value_at, IsUnique}

module _ (db : Database) where
  -- Where a call of UpsertRates stands: before BeginTx, in the loop with the rates that are left, or
  -- at its end with the error that it returned.
  pub data ClientPhase : Type 0 where
    waiting : ClientPhase
    sending : ℕ → List ExchangeRate → db.Tx → ClientPhase
    returned : Option Text → ClientPhase

  pub record Client : Type 0 where
    pub batch : List ExchangeRate
    pub phase : ClientPhase

  pub record Clients : Type 0 where
    pub world : db.World
    pub clients : List Client

  unfoldable pub after_begin : List ExchangeRate → Result db.Tx → ClientPhase
  after_begin rates (ok tx) = sending 0 rates tx
  after_begin rates (err e) = returned (some e)

  unfoldable pub after_insert : ℕ → List ExchangeRate → Result db.Tx → ClientPhase
  after_insert n rates (ok tx) = sending (suc n) rates tx
  after_insert n rates (err e) = returned (some e)

  unfoldable pub after_commit : db.World → Result db.World → ClientPhase × db.World
  after_commit w (ok w') = (returned none, w')
  after_commit w (err e) = (returned (some e), w)

  -- The next call that a client makes, as the database answers it. After an error the deferred
  -- Rollback drops the transaction, and the world is as it was.
  unfoldable pub advance : List ExchangeRate → ClientPhase → db.World → ClientPhase × db.World
  unfolding after_begin after_insert after_commit
  advance batch waiting w =
      (after_begin batch (wrap (λ e. codes "begin tx: " ++ e) (db.begin_tx w)), w)
  advance batch (sending n (rate ∷ rates) tx) w =
      (after_insert n rates (upsert_one db w n rate tx), w)
  advance batch (sending n [] tx) w =
      after_commit w (wrap (λ e. codes "commit tx: " ++ e) (db.commit tx w))
  advance batch (returned outcome) w = (returned outcome, w)

  abbrev pub IsActive : ClientPhase → Type 0
  IsActive waiting = Unit
  IsActive (sending n rates tx) = Unit
  IsActive (returned outcome) = ⊥

  unfoldable pub open_client : List ExchangeRate → Client
  open_client batch = record { batch = batch; phase = waiting }

  abbrev pub opened : db.World → List (List ExchangeRate) → Clients
  opened w batches = record { world = w; clients = map open_client batches }

  -- One client gets the answer to its call; or its call fails for a reason that lies outside its
  -- transaction, such as a deadlock with another client or a context that is cancelled.
  pub data ClientStep (s t : Clients) : Type 0 where
    answered :
        (before later : List Client) (c : Client)
        → s.clients ≡ before ++ c ∷ later
        → IsActive c.phase
        → t ≡ record {
          world = (advance c.batch c.phase s.world).1;
          clients =
              before
              ++ record { batch = c.batch; phase = (advance c.batch c.phase s.world).0 } ∷ later;
        }
        → ClientStep s t
    refused :
        (before later : List Client) (c : Client) (e : Text)
        → s.clients ≡ before ++ c ∷ later
        → IsActive c.phase
        → t ≡ record {
          world = s.world;
          clients = before ++ record { batch = c.batch; phase = returned (some e) } ∷ later;
        }
        → ClientStep s t

  -- `ClientSteps n s t`: from `s` to `t` in `n` steps.
  pub data ClientSteps (s : Clients) : ℕ → Clients → Type 0 where
    no_step : ClientSteps s 0 s
    and_step :
        {n m : ℕ} {t u : Clients}
        → ClientSteps s n t
        → ClientStep t u
        → m ≡ n + 1
        → ClientSteps s m u
