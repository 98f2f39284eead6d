-- ===== src/Repository/Clients/Alone.antt =====
-- A client that is alone, against UpsertRates.
use april_homework.Common.{
  ℕ, zero, suc, ◌≡◌, refl, List, [], ◌∷◌, ◌++◌, Text, codes, Option, some, Result, ok, err, wrap,
  ◌>>=◌, length,
}
use april_homework.Entities.{ExchangeRate}
use april_homework.Repository.{
  Database, upsert_one, upsert_each, run_upsert, rolled_back, upsert_rates,
}
use april_homework.Repository.Clients.{
  ClientPhase, waiting, sending, returned, after_begin, after_insert, after_commit, advance,
}

module _ (db : Database) where
  -- So many answers to the calls of one client, with no other client between them.
  unfoldable pub run_alone :
      ℕ → List ExchangeRate → ClientPhase db × db.World → ClientPhase db × db.World
  unfolding advance
  run_alone zero batch s = s
  run_alone (suc n) batch s = run_alone n batch (advance db batch s.0 s.1)

  run_alone-returned :
      (k : ℕ) (batch : List ExchangeRate) (outcome : Option _) (w : db.World)
      → run_alone k batch (returned outcome, w) ≡ (returned outcome, w)
  unfolding run_alone
  run_alone-returned zero batch o w = refl
  run_alone-returned (suc k) batch o w = run_alone-returned k batch o w

  -- What UpsertRates returns and leaves, as the end of a client.
  abbrev client_end : Option Text × db.World → ClientPhase db × db.World
  client_end out = (returned out.0, out.1)

  abbrev finish_commit : db.World → db.Tx → Result db.World
  finish_commit w tx = wrap (λ e. codes "commit tx: " ++ e) (db.commit tx w)

  run_alone-commit :
      (batch : List ExchangeRate) (n : ℕ) (tx : db.Tx) (w : db.World)
      → advance db batch (sending n [] tx) w ≡ client_end (rolled_back db w (finish_commit w tx))
  unfolding advance after_commit rolled_back
  run_alone-commit batch n tx w =
      elim (db.commit tx w)
        as (λ m.
          after_commit db w (wrap (λ e. codes "commit tx: " ++ e) m)
          ≡ client_end (rolled_back db w (wrap (λ e. codes "commit tx: " ++ e) m))) [
            | ok w' ↦ refl
            | err e ↦ refl
          ]

  run_alone-sending :
      (batch : List ExchangeRate) (rates : List ExchangeRate) (n : ℕ) (tx : db.Tx) (w : db.World)
      → run_alone (suc (length rates)) batch (sending n rates tx, w)
        ≡ client_end (rolled_back db w (upsert_each db w n rates tx >>= finish_commit w))
  unfolding run_alone upsert_each
  run_alone-sending batch [] n tx w = run_alone-commit batch n tx w
  run_alone-sending batch (r ∷ rs) n tx w =
      by_answer (upsert_one db w n r tx) (λ tx'. run_alone-sending batch rs (suc n) tx' w)
    where
      by_answer :
          (m : Result db.Tx)
          → ((tx' : db.Tx)
              → run_alone (suc (length rs)) batch (sending (suc n) rs tx', w)
                ≡ client_end
                    (rolled_back db w (upsert_each db w (suc n) rs tx' >>= finish_commit w)))
          → run_alone (suc (length rs)) batch (after_insert db n rs m, w)
            ≡ client_end
                (rolled_back db w ((m >>= upsert_each db w (suc n) rs) >>= finish_commit w))
      by_answer (ok tx') ih = unfold after_insert in ih tx'
      by_answer (err e) ih =
          unfold after_insert rolled_back in run_alone-returned (suc (length rs)) batch (some e) w

  -- With no other client, a call of UpsertRates that goes on as long as it has calls to make ends
  -- with the error and the database that `upsert_rates` gives.
  pub run_alone-upsert_rates :
      (batch : List ExchangeRate) (w : db.World)
      → run_alone (suc (suc (length batch))) batch (waiting, w)
        ≡ (returned (upsert_rates db batch w).0, (upsert_rates db batch w).1)
  unfolding run_alone upsert_rates run_upsert
  run_alone-upsert_rates batch w = by_answer (db.begin_tx w)
    where
      by_answer :
          (m : Result db.Tx)
          → run_alone
              (suc (length batch))
              batch
              (after_begin db batch (wrap (λ e. codes "begin tx: " ++ e) m), w)
            ≡ client_end (
                rolled_back db w (
                  wrap (λ e. codes "begin tx: " ++ e) m
                  >>= (λ tx. upsert_each db w 0 batch tx >>= finish_commit w)))
      by_answer (ok tx) = unfold after_begin in run_alone-sending batch batch 0 tx w
      by_answer (err e) =
          unfold after_begin rolled_back in run_alone-returned (suc (length batch)) batch _ w
