-- ===== src/Repository/Postgres.antt =====
-- What the repository relies on in PostgreSQL, as laws of the `Database` that it calls, for any number
-- of clients whose transactions are Serializable: a transaction collects what it writes, a commit
-- that succeeds puts it over the rows that are committed by then, whoever committed them, and a
-- query returns the rows that its clauses describe.
use april_homework.Common.{
  ◌≡◌, List, [], ◌∷◌, ◌++◌, Bool, true, false, ◌&&◌, not, ok, In, All, take,
}
use april_homework.Strings.{text_eq}
use april_homework.Time.{Time, after}
use april_homework.Repository.{
  Row, Setter, RowFilter, quote_currency_eq, effective_date_gte, effective_date_lte, OrderBy,
  quote_currency_asc, quote_currency_desc, effective_date_asc, effective_date_desc, HistoryQuery,
  Database,
}
use april_homework.Repository.Writes.{apply_writes}

-- What a row must have for each condition, and for all of them.
abbrev pub passes : {A : Type 0} → RowFilter → Row A → Bool
passes (quote_currency_eq c) r = text_eq r.quote_currency c
passes (effective_date_gte bound) r = not (after bound r.effective_date)
passes (effective_date_lte bound) r = not (after r.effective_date bound)

abbrev pub passes_all : {A : Type 0} → List RowFilter → Row A → Bool
passes_all [] r = true
passes_all (f ∷ fs) r = passes f r && passes_all fs r

-- ORDER BY: the row `r` may stand before `q`. The next key is asked where a key is the same in both;
-- of the collation of a text nothing is said but that.
abbrev pub Precedes : {A : Type 0} → List OrderBy → Row A → Row A → Type 0
Precedes [] r q = Unit
Precedes (quote_currency_asc ∷ os) r q = q.quote_currency ≡ r.quote_currency → Precedes os r q
Precedes (quote_currency_desc ∷ os) r q = q.quote_currency ≡ r.quote_currency → Precedes os r q
Precedes (effective_date_asc ∷ os) r q =
    (after r.effective_date q.effective_date ≡ false)
    × (after q.effective_date r.effective_date ≡ false → Precedes os r q)
Precedes (effective_date_desc ∷ os) r q =
    (after q.effective_date r.effective_date ≡ false)
    × (after r.effective_date q.effective_date ≡ false → Precedes os r q)

abbrev pub IsOrderedBy : {A : Type 0} → List OrderBy → List (Row A) → Type 0
IsOrderedBy os [] = Unit
IsOrderedBy os (r ∷ rs) = All (Precedes os r) rs × IsOrderedBy os rs

pub record IsPostgres (db : Database) : Type 0 where
  pub committed : db.World → List (Row db.Amount)
  pub writes : db.Tx → List (Setter db.Amount × Time)
  -- the values as the column types keep them: NUMERIC(20, 8), CHAR(3), DATE
  pub stored : Setter db.Amount → Setter db.Amount
  pub begin_law : (w : db.World) (tx : db.Tx) → db.begin_tx w ≡ ok tx → writes tx ≡ []
  pub insert_law :
      (s : Setter db.Amount) (tx tx' : db.Tx)
      → db.insert_on_conflict s tx ≡ ok tx'
      → (created : Time) × (writes tx' ≡ writes tx ++ (stored s, created) ∷ [])
  pub commit_law :
      (tx : db.Tx) (w w' : db.World)
      → db.commit tx w ≡ ok w'
      → committed w' ≡ apply_writes (writes tx) (committed w)
  pub all_law :
      (order : List OrderBy) (w : db.World) (rows : List (Row db.Amount))
      → db.select_all order w ≡ ok rows
      → ((r : Row db.Amount) → In r rows → In r (committed w))
        × ((r : Row db.Amount) → In r (committed w) → In r rows)
        × IsOrderedBy order rows
  pub history_law :
      (q : HistoryQuery) (w : db.World) (rows : List (Row db.Amount))
      → db.select_history q w ≡ ok rows
      → (matching : List (Row db.Amount)) × (rows ≡ take q.limit matching)
        × ((r : Row db.Amount)
            → In r matching
            → In r (committed w) × (passes_all q.filters r ≡ true))
        × ((r : Row db.Amount) → In r (committed w) → passes_all q.filters r ≡ true → In r matching)
        × IsOrderedBy q.order matching
