-- ===== src/Repository/Clients/Answers.antt =====
-- What the answer to one call of a client does to the rows that are committed.
use april_homework.Common.{
  ℕ, ◌≡◌, refl, sym, ◌∙◌, subst, List, [], ◌∷◌, ◌++◌, append_assoc, append-nil, map-append, ap,
  codes, none, some, Result, ok, err, wrap,
}
use april_homework.Entities.{ExchangeRate}
use april_homework.Repository.{Setter, Row, Database, upsert_one}
use april_homework.Repository.Table.{Key, value_at, IsUnique}
use april_homework.Repository.Setters.{IsSetterOf, upsert_one-eq-ok}
use april_homework.Repository.Clients.{
  ClientPhase, waiting, sending, returned, Client, after_begin, after_insert, after_commit, advance,
  IsActive,
}
use april_homework.Repository.Postgres.{IsPostgres}
use april_homework.Repository.Writes.{
  overlay, setters_of, value_at-apply_writes, apply_writes-IsUnique,
}

module _ (db : Database) (pg : IsPostgres db) where
  open pg use {committed, writes, stored}

  -- The setters of these rates as they are stored, each made when it was sent.
  abbrev pub IsSent : List ExchangeRate → List (Setter db.Amount) → Type 0
  IsSent [] [] = Unit
  IsSent [] (s ∷ ss) = ⊥
  IsSent (r ∷ rs) [] = ⊥
  IsSent (r ∷ rs) (s ∷ ss) =
      ((w : db.World) × (n : ℕ) × (t : Setter db.Amount) × IsSetterOf db w n r t × (s ≡ stored t))
      × IsSent rs ss

  -- From the rows `old` to the rows `new` by one batch: each key has the value that the last setter
  -- of that key gives it, or its old one, and the unique constraint is kept.
  pub record IsStoredOver (batch : List ExchangeRate) (old new : List (Row db.Amount))
      : Type 0 where
    pub setters : List (Setter db.Amount)
    pub sent : IsSent batch setters
    pub values : (k : Key) → value_at k new ≡ overlay k setters (value_at k old)
    pub unique : IsUnique old → IsUnique new

  IsSent-snoc :
      (rs : List ExchangeRate) (ss : List (Setter db.Amount)) (r : ExchangeRate) (w : db.World)
      (n : ℕ) (t : Setter db.Amount)
      → IsSetterOf db w n r t
      → IsSent rs ss
      → IsSent (rs ++ r ∷ []) (ss ++ stored t ∷ [])
  IsSent-snoc [] [] r w n t made h = ((w, n, t, made, refl), tt)
  IsSent-snoc [] (s ∷ ss) r w n t made h = absurd h
  IsSent-snoc (q ∷ rs) [] r w n t made h = absurd h
  IsSent-snoc (q ∷ rs) (s ∷ ss) r w n t made (now, h) = (now, IsSent-snoc rs ss r w n t made h)

  -- An open transaction has collected the setters of the rates before those that are left.
  abbrev pub IsSound : List ExchangeRate → ClientPhase db → Type 0
  IsSound batch waiting = Unit
  IsSound batch (sending n rates tx) =
      (done : List ExchangeRate) × (batch ≡ done ++ rates) × IsSent done (setters_of (writes tx))
  IsSound batch (returned outcome) = Unit

  -- What one answer does to the world, by the phase that follows.
  abbrev pub Effect : List ExchangeRate → ClientPhase db → db.World → db.World → Type 0
  Effect batch (returned none) w w' = IsStoredOver batch (committed w) (committed w')
  Effect batch (returned (some e)) w w' = w' ≡ w
  Effect batch waiting w w' = w' ≡ w
  Effect batch (sending n rates tx) w w' = w' ≡ w

  advance-begun :
      (batch : List ExchangeRate) (w : db.World)
      → let out = advance db batch waiting w in IsSound batch out.0 × Effect batch out.0 w out.1
  unfolding advance after_begin
  advance-begun batch w = by_answer (db.begin_tx w) refl
    where
      by_answer :
          (m : Result db.Tx)
          → db.begin_tx w ≡ m
          → IsSound batch (after_begin db batch (wrap (λ e. codes "begin tx: " ++ e) m))
            × Effect batch (after_begin db batch (wrap (λ e. codes "begin tx: " ++ e) m)) w w
      by_answer (ok tx) h =
          (([], refl, subst (λ l. IsSent [] (setters_of l)) (sym (pg.begin_law w tx h)) tt), refl)
      by_answer (err e) h = (tt, refl)

  advance-sent :
      (batch : List ExchangeRate) (n : ℕ) (rate : ExchangeRate) (rates : List ExchangeRate)
      (tx : db.Tx) (w : db.World)
      → IsSound batch (sending n (rate ∷ rates) tx)
      → let out = advance db batch (sending n (rate ∷ rates) tx) w in
        IsSound batch out.0 × Effect batch out.0 w out.1
  unfolding advance after_insert
  advance-sent batch n rate rates tx w (done, split, sent) =
      by_answer (upsert_one db w n rate tx) refl
    where
      by_answer :
          (m : Result db.Tx)
          → upsert_one db w n rate tx ≡ m
          → IsSound batch (after_insert db n rates m) × Effect batch (after_insert db n rates m) w w
      by_answer (ok tx') h =
          let (t, made, put) = upsert_one-eq-ok db w n rate tx tx' h in
          let (created, one) = pg.insert_law t tx tx' put in
          let setters : setters_of (writes tx') ≡ setters_of (writes tx) ++ stored t ∷ [] =
            ap setters_of one ∙ map-append (λ x. x.0) (writes tx) ((stored t, created) ∷ []) in
          (
            (
              done ++ rate ∷ [],
              split ∙ sym (append_assoc done (rate ∷ []) rates),
              subst (IsSent (done ++ rate ∷ [])) (sym setters)
                  (IsSent-snoc done (setters_of (writes tx)) rate w n t made sent),
            ),
            refl,
          )
      by_answer (err e) h = (tt, refl)

  advance-committed :
      (batch : List ExchangeRate) (n : ℕ) (tx : db.Tx) (w : db.World)
      → IsSound batch (sending n [] tx)
      → let out = advance db batch (sending n [] tx) w in
        IsSound batch out.0 × Effect batch out.0 w out.1
  unfolding advance after_commit
  advance-committed batch n tx w (done, split, sent) = by_answer (db.commit tx w) refl
    where
      by_answer :
          (m : Result db.World)
          → db.commit tx w ≡ m
          → let out = after_commit db w (wrap (λ e. codes "commit tx: " ++ e) m) in
            IsSound batch out.0 × Effect batch out.0 w out.1
      by_answer (ok w') h =
          let table = pg.commit_law tx w w' h in
          (
            tt,
            record {
              setters = setters_of (writes tx);
              sent =
                  subst (λ b. IsSent b (setters_of (writes tx))) (sym (split ∙ append-nil done))
                    sent;
              values =
                  λ k. ap (value_at k) table ∙ value_at-apply_writes k (writes tx) (committed w);
              unique = λ u.
                  subst IsUnique (sym table) (apply_writes-IsUnique (writes tx) (committed w) u);
            },
          )
      by_answer (err e) h = (tt, refl)

  pub advance-lem :
      (c : Client db) (w : db.World)
      → IsActive db c.phase
      → IsSound c.batch c.phase
      → let out = advance db c.batch c.phase w in
        IsSound c.batch out.0 × Effect c.batch out.0 w out.1
  advance-lem c w active sound = by_phase c.phase active sound
    where
      by_phase :
          (p : ClientPhase db)
          → IsActive db p
          → IsSound c.batch p
          → let out = advance db c.batch p w in IsSound c.batch out.0 × Effect c.batch out.0 w out.1
      by_phase waiting a h = advance-begun c.batch w
      by_phase (sending n (rate ∷ rates) tx) a h = advance-sent c.batch n rate rates tx w h
      by_phase (sending n [] tx) a h = advance-committed c.batch n tx w h
      by_phase (returned outcome) a h = absurd a
