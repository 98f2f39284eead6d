-- ===== src/Bob/Matching.antt =====
-- Which error of a unique constraint an error of PostgreSQL is.
use april_homework.Common.{
  ◌≡◌, ◌≢◌, ◌↔◌, refl, sym, ap, ◌∙◌, inl, inr, List, [], ◌∷◌, map, codes, some, true, false, In,
  arith,
}
use april_homework.Strings.{text_eq}
use april_homework.Strings.Laws.{text_eq_iff}
use april_homework.Bob.Info.{Index, index_slice, exchange_rate_indexes, exchange_rates}
use april_homework.Bob.Errors.{
  UniqueConstraintError, PgError, is_error, err_unique_constraint, exchange_rate_errors,
}

-- The two errors of the table.
abbrev pub table_errors : List UniqueConstraintError
table_errors =
    exchange_rate_errors.err_pkey ∷ exchange_rate_errors.err_source_base_quote_date_key ∷ []

is_error_generic :
    (t : PgError) → (is_error err_unique_constraint (some t) ≡ true) ↔ (t.code ≡ codes "23505")
unfolding is_error err_unique_constraint text_eq
is_error_generic t = ground (arith, text_eq_iff t.code (codes "23505"))

is_error_named :
    (e : UniqueConstraintError) (t : PgError)
    → e.s ≢ []
    → (is_error e (some t) ≡ true) ↔ ((t.code ≡ codes "23505") × (t.constraint_name ≡ e.s))
unfolding is_error
is_error_named e t named = ground (
  arith,
  text_eq_iff t.code (codes "23505"),
  text_eq_iff e.s [],
  text_eq_iff t.constraint_name e.s,
)

table_errors_named : (e : UniqueConstraintError) → In e table_errors → e.s ≢ []
unfolding exchange_rate_errors
table_errors_named e (inl same) h = cc (same, h)
table_errors_named e (inr (inl same)) h = cc (same, h)
table_errors_named e (inr (inr i)) h = absurd i

names_differ :
    exchange_rate_errors.err_pkey.s ≢ exchange_rate_errors.err_source_base_quote_date_key.s
unfolding exchange_rate_errors text_eq
names_differ h =
    let clash : false ≡ true =
      (text_eq_iff (codes "exchange_rates_pkey")
          (codes "exchange_rates_source_base_currency_quote_currency_effectiv_key")).1
        h in
    cc (clash)

-- No two errors of the table are of the same constraint.
same_name :
    (e f : UniqueConstraintError) → In e table_errors → In f table_errors → e.s ≡ f.s → e ≡ f
unfolding exchange_rate_errors
same_name e f (inl a) (inl b) h = sym a ∙ b
same_name e f (inl a) (inr (inl b)) h =
    absurd (names_differ (ap (λ x. x.s) a ∙ h ∙ ap (λ x. x.s) (sym b)))
same_name e f (inr (inl a)) (inl b) h =
    absurd (names_differ (ap (λ x. x.s) b ∙ sym h ∙ ap (λ x. x.s) (sym a)))
same_name e f (inr (inl a)) (inr (inl b)) h = sym a ∙ b
same_name e f (inr (inr i)) k h = absurd i
same_name e f i (inr (inr k)) h = absurd k

-- The unique indexes of the description are those of the two errors.
index_error :
    (i : Index)
    → In i (index_slice exchange_rates.indexes)
    → i.unique ≡ true
    → (e : UniqueConstraintError) × In e table_errors
      × (e.s ≡ i.name)
      × (e.columns ≡ map (λ c. c.name) i.columns)
unfolding index_slice exchange_rates exchange_rate_indexes exchange_rate_errors
index_error i (inl e) u = (
  exchange_rate_errors.err_pkey,
  inl refl,
  ap (λ x. x.name) e,
  ap (λ x. map (λ c. c.name) x.columns) e,
)
index_error i (inr (inl e)) u = absurd (cc (e, u))
index_error i (inr (inr (inl e))) u = (
  exchange_rate_errors.err_source_base_quote_date_key,
  inr (inl refl),
  ap (λ x. x.name) e,
  ap (λ x. map (λ c. c.name) x.columns) e,
)
index_error i (inr (inr (inr k))) u = absurd k

-- An error of PostgreSQL is ErrUniqueConstraint exactly when its code is 23505, and an error of the
-- table exactly when it also names that error's constraint; and where it names a unique index of
-- the description, it is one error of the table, with the columns of the index, and no other.
pub is_error-matches :
    (t : PgError)
    → ((is_error err_unique_constraint (some t) ≡ true) ↔ (t.code ≡ codes "23505"))
      × ((e : UniqueConstraintError)
          → In e table_errors
          → (is_error e (some t) ≡ true) ↔ ((t.code ≡ codes "23505") × (t.constraint_name ≡ e.s)))
      × ((i : Index)
          → In i (index_slice exchange_rates.indexes)
          → i.unique ≡ true
          → t.code ≡ codes "23505"
          → t.constraint_name ≡ i.name
          → (e : UniqueConstraintError) × In e table_errors
            × (is_error e (some t) ≡ true)
            × (e.columns ≡ map (λ c. c.name) i.columns)
            × ((f : UniqueConstraintError)
                → In f table_errors
                → is_error f (some t) ≡ true
                → f ≡ e))
is_error-matches t = (
  is_error_generic t,
  λ e k. is_error_named e t (table_errors_named e k),
  λ i k unique code name.
      let (e, member, named, columns) = index_error i k unique in
      (
        e,
        member,
        (is_error_named e t (table_errors_named e member)).1 (code, name ∙ sym named),
        columns,
        λ f j h.
            same_name f e j member
              (sym ((is_error_named f t (table_errors_named f j)).0 h).1 ∙ name ∙ sym named),
      ),
)
