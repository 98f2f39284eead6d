-- ===== src/Examples/Memory.antt =====
-- A database in memory that has the laws of PostgreSQL. A query is refused where the rows are not
-- already in descending order of their dates.
use april_homework.Common.{
  ◌≡◌, sym, ap, ◌∙◌, subst, inl, inr, List, [], ◌∷◌, ◌++◌, Text, codes, Bool, true, false, not,
  ◌&&◌, Result, ok, err, ok_inj, take, if◌then◌else◌, Bool-cases, In, All, All_of_In, arith,
}
use april_homework.Strings.{print_nat}
use april_homework.Time.{Time, zero_time, after}
use april_homework.Repository.{
  Row, Setter, RowFilter, OrderBy, quote_currency_asc, quote_currency_desc, effective_date_asc,
  effective_date_desc, Database,
}
use april_homework.Repository.Writes.{apply_writes}
use april_homework.Repository.Ordering.{IsDescending, All-weaken}
use april_homework.Repository.Postgres.{IsPostgres, passes_all, IsOrderedBy}

abbrev Rows : Type 0
Rows = List (Row Text)

abbrev none_after : Row Text → Rows → Bool
none_after r [] = true
none_after r (q ∷ qs) = not (after q.effective_date r.effective_date) && none_after r qs

abbrev descends : Rows → Bool
descends [] = true
descends (r ∷ rs) = none_after r rs && descends rs

abbrev matching : List RowFilter → Rows → Rows
matching q [] = []
matching q (r ∷ rs) = let rest = matching q rs in if passes_all q r then r ∷ rest else rest

abbrev amount_of : Text → Result Text
amount_of [] = err (codes "empty amount")
amount_of (c ∷ s) = ok (c ∷ s)

abbrev if_descending : Rows → Rows → Result Rows
if_descending rows out = if descends rows then ok out else err (codes "not in order")

-- No order is made: the last key is the date, descending, or there is none.
abbrev if_last : List OrderBy → Rows → Rows → Result Rows
if_last [] rows out = if_descending rows out
if_last (o ∷ os) rows out = err (codes "not in order")

abbrev if_ordered : List OrderBy → Rows → Rows → Result Rows
if_ordered [] rows out = ok out
if_ordered (quote_currency_asc ∷ os) rows out = if_ordered os rows out
if_ordered (quote_currency_desc ∷ os) rows out = if_ordered os rows out
if_ordered (effective_date_asc ∷ os) rows out = err (codes "not in order")
if_ordered (effective_date_desc ∷ os) rows out = if_last os rows out

abbrev pub memory : Database
memory = record {
  Amount = Text;
  World = Rows;
  Tx = List (Setter Text × Time);
  new_id = λ w n. ok (print_nat n);
  parse_amount = amount_of;
  string_fixed = λ a. a;
  begin_tx = λ w. ok [];
  insert_on_conflict = λ s tx. ok (tx ++ (s, zero_time) ∷ []);
  commit = λ tx w. ok (apply_writes tx w);
  select_all = λ order w. if_ordered order w w;
  select_history =
      λ q w. if_ordered q.order (matching q.filters w) (take q.limit (matching q.filters w));
}

pub if_descending-ok :
    (rows out out' : Rows)
    → if_descending rows out ≡ ok out'
    → (descends rows ≡ true) × (out ≡ out')
if_descending-ok rows out out' h = elim (Bool-cases (descends rows)) [
  | inl e ↦ (e, ok_inj (rw e at h))
  | inr e ↦ cc (rw e at h)
]

none_after-All :
    (r : Row Text) (qs : Rows)
    → none_after r qs ≡ true
    → All (λ q. after q.effective_date r.effective_date ≡ false) qs
none_after-All r [] h = tt
none_after-All r (q ∷ qs) h = (ground arith, none_after-All r qs (ground arith))

pub descends-IsDescending : (rows : Rows) → descends rows ≡ true → IsDescending rows
descends-IsDescending [] h = tt
descends-IsDescending (r ∷ rs) h =
    (none_after-All r rs (ground arith), descends-IsDescending rs (ground arith))

IsDescending-IsOrderedBy :
    (rows : Rows) → IsDescending rows → IsOrderedBy (effective_date_desc ∷ []) rows
IsDescending-IsOrderedBy [] h = tt
IsDescending-IsOrderedBy (r ∷ rs) (hr, h) =
    (All-weaken _ _ rs (λ q e. (e, λ _. tt)) hr, IsDescending-IsOrderedBy rs h)

-- An order holds if it holds whatever the quote currencies are.
IsOrderedBy-quote :
    (os : List OrderBy) (rows : Rows)
    → IsOrderedBy os rows
    → IsOrderedBy (quote_currency_asc ∷ os) rows × IsOrderedBy (quote_currency_desc ∷ os) rows
IsOrderedBy-quote os [] h = (tt, tt)
IsOrderedBy-quote os (r ∷ rs) (hr, h) =
    let (up, down) = IsOrderedBy-quote os rs h in
    ((All-weaken _ _ rs (λ q e _. e) hr, up), (All-weaken _ _ rs (λ q e _. e) hr, down))

unordered : (rows : Rows) → IsOrderedBy [] rows
unordered [] = tt
unordered (r ∷ rs) = (All_of_In _ rs (λ q _. tt), unordered rs)

if_last-ok :
    (os : List OrderBy) (rows out out' : Rows)
    → if_last os rows out ≡ ok out'
    → IsOrderedBy (effective_date_desc ∷ os) rows × (out ≡ out')
if_last-ok [] rows out out' h =
    let (d, e) = if_descending-ok rows out out' h in
    (IsDescending-IsOrderedBy rows (descends-IsDescending rows d), e)
if_last-ok (o ∷ os) rows out out' h = cc

pub if_ordered-ok :
    (order : List OrderBy) (rows out out' : Rows)
    → if_ordered order rows out ≡ ok out'
    → IsOrderedBy order rows × (out ≡ out')
if_ordered-ok [] rows out out' h = (unordered rows, ok_inj h)
if_ordered-ok (quote_currency_asc ∷ os) rows out out' h =
    let (ordered, e) = if_ordered-ok os rows out out' h in
    ((IsOrderedBy-quote os rows ordered).0, e)
if_ordered-ok (quote_currency_desc ∷ os) rows out out' h =
    let (ordered, e) = if_ordered-ok os rows out out' h in
    ((IsOrderedBy-quote os rows ordered).1, e)
if_ordered-ok (effective_date_asc ∷ os) rows out out' h = cc
if_ordered-ok (effective_date_desc ∷ os) rows out out' h = if_last-ok os rows out out' h

pub matching-In :
    (q : List RowFilter) (rows : Rows) (r : Row Text)
    → In r (matching q rows)
    → In r rows × (passes_all q r ≡ true)
matching-In q [] r i = absurd i
matching-In q (x ∷ xs) r i = elim (Bool-cases (passes_all q x)) [
  | inl e ↦ of_cons (matching-In q xs r) e (rw e at i)
  | inr e ↦ let (k, s) = matching-In q xs r (rw e at i) in (inr k, s)
]
  where
    of_cons :
        (In r (matching q xs) → In r xs × (passes_all q r ≡ true))
        → passes_all q x ≡ true
        → In r (x ∷ matching q xs)
        → In r (x ∷ xs) × (passes_all q r ≡ true)
    of_cons rec e (inl same) = (inl same, subst (λ y. passes_all q y ≡ true) same e)
    of_cons rec e (inr k) = let (j, s) = rec k in (inr j, s)

pub In-matching :
    (q : List RowFilter) (rows : Rows) (r : Row Text)
    → In r rows
    → passes_all q r ≡ true
    → In r (matching q rows)
In-matching q [] r i s = absurd i
In-matching q (x ∷ xs) r (inl e) s = rw (ap (passes_all q) e ∙ s) (inl e)
In-matching q (x ∷ xs) r (inr i) s = elim (Bool-cases (passes_all q x)) [
  | inl e ↦ rw e (inr (In-matching q xs r i s))
  | inr e ↦ rw e (In-matching q xs r i s)
]

abbrev pub memory_laws : IsPostgres memory
memory_laws = record {
  committed = λ w. w;
  writes = λ tx. tx;
  stored = λ s. s;
  begin_law = λ w tx h. sym (ok_inj h);
  insert_law = λ s tx tx' h. (zero_time, sym (ok_inj h));
  commit_law = λ tx w w' h. sym (ok_inj h);
  all_law = λ order w rows h.
      let (ordered, e) = if_ordered-ok order w w rows h in
      (λ r i. subst (In r) (sym e) i, λ r i. subst (In r) e i, subst (IsOrderedBy order) e ordered);
  history_law = λ q w rows h.
      let matched = matching q.filters w in
      let (ordered, e) = if_ordered-ok q.order matched (take q.limit matched) rows h in
      (matched, sym e, matching-In q.filters w, In-matching q.filters w, ordered);
}
