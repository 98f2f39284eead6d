-- ===== src/Repository/Upsert.antt =====
-- UpsertRates against the map from keys to values.
use april_homework.Common.{
  ℕ, suc, ◌+◌, ◌≡◌, ◌⊎◌, inl, inr, length, arith, codes, ◌>>=◌, Result-cases, wrap-eq-err, some_inj,
  refl, sym, ap, ◌∙◌, subst, List, [], ◌∷◌, ◌++◌, map, append-nil, append_assoc, Text, none, some,
  Result, ok, err, >>=-eq-ok, wrap-eq-ok,
}
use april_homework.Time.{Time}
use april_homework.Entities.{ExchangeRate}
use april_homework.Repository.{
  Row, Setter, Database, upsert_one, upsert_each, run_upsert, rolled_back, upsert_rates,
}
use april_homework.Repository.Table.{Key, value_at, IsUnique}
use april_homework.Repository.Writes.{
  overlay, setters_of, apply_writes, value_at-apply_writes, apply_writes-IsUnique,
}
use april_homework.Repository.Setters.{
  IsSetterOf, IsRateFailure, upsert_one-eq-ok, upsert_one-IsRateFailure,
}
use april_homework.Repository.Postgres.{IsPostgres}

module _ (db : Database) (pg : IsPostgres db) where
  open pg use {committed, writes, stored}

  -- The setters of a batch, one for each rate.
  abbrev pub Batch : db.World → ℕ → List ExchangeRate → List (Setter db.Amount) → Type 0
  Batch w n [] [] = Unit
  Batch w n [] (s ∷ ss) = ⊥
  Batch w n (r ∷ rs) [] = ⊥
  Batch w n (r ∷ rs) (s ∷ ss) = IsSetterOf db w n r s × Batch w (suc n) rs ss

  -- From the rows `old` to the rows `new` by the setters of a batch: each key has the value that the
  -- last setter of that key gives it, or its old one, and the constraint is kept.
  pub record IsUpdated (w : db.World) (n : ℕ) (rates : List ExchangeRate)
      (old new : List (Row db.Amount)) : Type 0 where
    pub setters : List (Setter db.Amount)
    pub batch : Batch w n rates setters
    pub values : (k : Key) → value_at k new ≡ overlay k (map stored setters) (value_at k old)
    pub unique : IsUnique old → IsUnique new

  upsert_each-cons :
      (w : db.World) (n : ℕ) (rate : ExchangeRate) (rates : List ExchangeRate) (tx tx' : db.Tx)
      → upsert_each db w n (rate ∷ rates) tx ≡ ok tx'
      → (s : Setter db.Amount) × (tx₁ : db.Tx) × IsSetterOf db w n rate s
        × (db.insert_on_conflict s tx ≡ ok tx₁)
        × (upsert_each db w (suc n) rates tx₁ ≡ ok tx')
  unfolding upsert_each
  upsert_each-cons w n rate rates tx tx' h =
      let (tx₁, one, rest) = >>=-eq-ok (upsert_one db w n rate tx) _ h in
      let (s, made, sent) = upsert_one-eq-ok db w n rate tx tx₁ one in (s, tx₁, made, sent, rest)

  upsert_each-nil :
      (w : db.World) (n : ℕ) (tx tx' : db.Tx) → upsert_each db w n [] tx ≡ ok tx' → tx ≡ tx'
  unfolding upsert_each
  upsert_each-nil w n tx tx' h = cc

  -- What a transaction has collected after the rates of a batch, of which the setters are `ss`.
  upsert_each-writes :
      (w : db.World) (n : ℕ) (rates : List ExchangeRate) (tx tx' : db.Tx)
      → upsert_each db w n rates tx ≡ ok tx'
      → (ss : List (Setter db.Amount)) × (ws : List (Setter db.Amount × Time)) × Batch w n rates ss
        × (writes tx' ≡ writes tx ++ ws)
        × (setters_of ws ≡ map stored ss)
  upsert_each-writes w n [] tx tx' h = (
    [],
    [],
    tt,
    ap writes (sym (upsert_each-nil w n tx tx' h)) ∙ sym (append-nil (writes tx)),
    refl,
  )
  upsert_each-writes w n (rate ∷ rates) tx tx' h =
      let (s, tx₁, made, sent, rest) = upsert_each-cons w n rate rates tx tx' h in
      let (created, one) = pg.insert_law s tx tx₁ sent in
      let (ss, ws, batch, all, setters) = upsert_each-writes w (suc n) rates tx₁ tx' rest in
      (
        s ∷ ss,
        (stored s, created) ∷ ws,
        (made, batch),
        all ∙ ap (λ l. l ++ ws) one ∙ append_assoc (writes tx) ((stored s, created) ∷ []) ws,
        ap (λ l. stored s ∷ l) setters,
      )

  run_upsert-IsUpdated :
      (rates : List ExchangeRate) (w w' : db.World)
      → run_upsert db w rates ≡ ok w'
      → IsUpdated w 0 rates (committed w) (committed w')
  unfolding run_upsert
  run_upsert-IsUpdated rates w w' h =
      let (tx, begun, h₁) = >>=-eq-ok _ _ h in
      let (tx', ran, done) = >>=-eq-ok (upsert_each db w 0 rates tx) _ h₁ in
      let (ss, ws, batch, all, setters) = upsert_each-writes w 0 rates tx tx' ran in
      let none_before = pg.begin_law w tx (wrap-eq-ok _ _ begun) in
      let table : committed w' ≡ apply_writes ws (committed w) =
        pg.commit_law tx' w w' (wrap-eq-ok _ _ done)
        ∙ ap (λ l. apply_writes l (committed w)) (all ∙ ap (λ l. l ++ ws) none_before) in
      record {
        setters = ss;
        batch = batch;
        values = λ k.
            ap (value_at k) table
            ∙ value_at-apply_writes k ws (committed w)
            ∙ ap (λ l. overlay k l (value_at k (committed w))) setters;
        unique = λ u. subst IsUnique (sym table) (apply_writes-IsUnique ws (committed w) u);
      }

module _ (db : Database) (w : db.World) where
  -- One rate of the batch fails with the message `e`, as the rate that it is by its place.
  abbrev pub IsBatchFailure : ℕ → List ExchangeRate → Text → Type 0
  IsBatchFailure n rates e =
      (before later : List ExchangeRate) × (rate : ExchangeRate) × (rates ≡ before ++ rate ∷ later)
      × IsRateFailure db w (n + length before) rate e

  -- What the message of a failed call says: BeginTx, one rate of the batch, or Commit failed.
  abbrev pub IsFailure : List ExchangeRate → Text → Type 0
  IsFailure rates e =
      ((x : Text) × (db.begin_tx w ≡ err x) × (e ≡ codes "begin tx: " ++ x))
      ⊎ IsBatchFailure 0 rates e
      ⊎ ((x : Text) × (tx : db.Tx) × (db.commit tx w ≡ err x) × (e ≡ codes "commit tx: " ++ x))

  upsert_each-IsBatchFailure :
      (n : ℕ) (rates : List ExchangeRate) (tx : db.Tx) (e : Text)
      → upsert_each db w n rates tx ≡ err e
      → IsBatchFailure n rates e
  unfolding upsert_each
  upsert_each-IsBatchFailure n [] tx e h = cc
  upsert_each-IsBatchFailure n (rate ∷ rates) tx e h =
      by_first (upsert_each-IsBatchFailure (suc n) rates) (upsert_one db w n rate tx) refl h
    where
      by_first :
          ((tx' : db.Tx) (d : Text)
            → upsert_each db w (suc n) rates tx' ≡ err d
            → IsBatchFailure (suc n) rates d)
          → (m : Result db.Tx) → upsert_one db w n rate tx ≡ m
          → m >>= upsert_each db w (suc n) rates ≡ err e
          → IsBatchFailure n (rate ∷ rates) e
      by_first later_fails (err x) f h = (
        [],
        rates,
        rate,
        refl,
        subst (λ k. IsRateFailure db w k rate e) (omega arith)
            (upsert_one-IsRateFailure db w n rate tx e (let same : x ≡ e = cc in f ∙ ap err same)),
      )
      by_first later_fails (ok tx') f h =
          let (before, later, bad, split, failure) = later_fails tx' e h in
          (
            rate ∷ before,
            later,
            bad,
            ap (λ l. rate ∷ l) split,
            subst (λ k. IsRateFailure db w k bad e) (omega arith) failure,
          )

  run_upsert-IsFailure :
      (rates : List ExchangeRate) (e : Text) → run_upsert db w rates ≡ err e → IsFailure rates e
  unfolding run_upsert
  run_upsert-IsFailure rates e h = elim (Result-cases (db.begin_tx w)) [
    | inr (x, f) ↦ inl (x, f, cc (rw f at h))
    | inl (tx, f) ↦ elim (Result-cases (upsert_each db w 0 rates tx)) [
      | inr (x, g) ↦
          let same : x ≡ e = cc (rw (f, g) at h) in
          inr (inl (upsert_each-IsBatchFailure 0 rates tx e (g ∙ ap err same)))
      | inl (tx', g) ↦
          let (x, k, text) = wrap-eq-err _ (db.commit tx' w) (rw (f, g) at h) in
          inr (inr (x, tx', k, text))
    ]
  ]

-- UpsertRates is all or nothing. If it returns an error, the message says which call failed: BeginTx,
-- Commit, or for one rate of the batch the identifier, the amount or the INSERT of its columns; and
-- the database is as it was before. If it returns nil, every rate had an identifier and an amount,
-- each key of the table (source, base and quote currency and date) has the amount and the time of
-- publication, as the columns store them, of the last rate of the batch with that key, or else its
-- old value, and if no two rows had the same key before, none do after.
pub upsert_rates_atomic :
    (db : Database) (pg : IsPostgres db) (rates : List ExchangeRate) (w : db.World)
    → ((e : Text)
        → (upsert_rates db rates w).0 ≡ some e
        → IsFailure db w rates e × ((upsert_rates db rates w).1 ≡ w))
      × ((upsert_rates db rates w).0 ≡ none
          → IsUpdated db pg w 0 rates (pg.committed w) (pg.committed (upsert_rates db rates w).1))
unfolding upsert_rates
upsert_rates_atomic db pg rates w = by_result (run_upsert db w rates) refl
  where
    by_result :
        (m : Result db.World)
        → run_upsert db w rates ≡ m
        → ((e : Text)
            → (rolled_back db w m).0 ≡ some e
            → IsFailure db w rates e × ((rolled_back db w m).1 ≡ w))
          × ((rolled_back db w m).0 ≡ none
              → IsUpdated db pg w 0 rates (pg.committed w) (pg.committed (rolled_back db w m).1))
    by_result (ok w') e = ((λ x h. cc), λ _. run_upsert-IsUpdated db pg rates w w' e)
    by_result (err x) e = (
      λ y h.
          (subst (IsFailure db w rates) (some_inj h) (run_upsert-IsFailure db w rates x e), refl),
      λ h. cc,
    )

pub upsert_rates-refused :
    (db : Database) (rates : List ExchangeRate) (w : db.World) (e : Text)
    → (upsert_rates db rates w).0 ≡ some e
    → (upsert_rates db rates w).1 ≡ w
unfolding upsert_rates
upsert_rates-refused db rates w e h = elim (Result-cases (run_upsert db w rates)) [
  | inl (w', f) ↦ cc (rw f at h)
  | inr (x, f) ↦ rw f refl
]
