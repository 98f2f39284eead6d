-- ===== src/Server/Api/Wrapped.antt =====
-- The wrapper of GET /rates/{currency}/history: what it hands to the server, and what it refuses.
use april_homework.Common.{◌≡◌, ◌⊎◌, refl, inl, inr, Text, codes, Option, some, Result, ok, err}
use april_homework.Time.{Time}
use april_homework.Server.Api.{HistoryParams}
use april_homework.Server.Api.Params.{
  ParamError, required_param, invalid_format, Binding, bound, required_missing, unbound,
  query_error, path_error,
}
use april_homework.Server.Api.Wrapper.{
  HistoryBinding, ServerInterfaceWrapper, with_middlewares, or_refuse, wrapped_get_history,
}

-- The parameters of a request are these.
pub record IsBound (b : HistoryBinding) (c : Text) (p : HistoryParams) : Type 0 where
  pub currency : b.currency ≡ ok c
  pub from_date : b.from_date ≡ bound p.from_date
  pub to_date : b.to_date ≡ bound p.to_date
  pub limit : b.limit ≡ bound p.limit

-- An error of the binder is that of a parameter that is required, or of one that has not its format.
pub data IsErrorOf (name : Text) {A : Type 0} (b : Binding A) (e : ParamError) : Type 0 where
  missing : b ≡ required_missing → e ≡ required_param name → IsErrorOf name b e
  malformed : (m : Text) → b ≡ unbound m → e ≡ invalid_format name m → IsErrorOf name b e

-- `e` is the error of the first parameter that has one, in the order of the code.
pub data IsFirstError (b : HistoryBinding) (e : ParamError) : Type 0 where
  at_currency :
      (m : Text) → b.currency ≡ err m → e ≡ invalid_format (codes "currency") m → IsFirstError b e
  at_from :
      (c : Text) → b.currency ≡ ok c → IsErrorOf (codes "from") b.from_date e → IsFirstError b e
  at_to :
      (c : Text) (f : Option Time)
      → b.currency ≡ ok c
      → b.from_date ≡ bound f
      → IsErrorOf (codes "to") b.to_date e
      → IsFirstError b e
  at_limit :
      (c : Text) (f t : Option Time)
      → b.currency ≡ ok c
      → b.from_date ≡ bound f
      → b.to_date ≡ bound t
      → IsErrorOf (codes "limit") b.limit e
      → IsFirstError b e

Binding-cases :
    {A : Type 0} (name : Text) (b : Binding A)
    → ((a : A) × (b ≡ bound a))
      ⊎ ((e : ParamError) × (query_error name b ≡ some e) × IsErrorOf name b e)
unfolding query_error
Binding-cases name (bound a) = inl (a, refl)
Binding-cases name required_missing = inr (_, refl, missing refl refl)
Binding-cases name (unbound m) = inr (_, refl, malformed m refl refl)

-- For every server, middleware and error handler: a request for a history reaches the middleware and
-- the server with exactly the values that are bound, or else the error handler answers it with the
-- error of the first parameter that has one, and nothing changes.
pub wrapped_get_history-IsBound :
    {R S : Type 0} (siw : ServerInterfaceWrapper R S) (bind : R → HistoryBinding) (r : R) (s : S)
    → ((c : Text) × (p : HistoryParams) × IsBound (bind r) c p
        × (wrapped_get_history siw bind r s
            ≡ with_middlewares siw.middlewares (siw.handler.get_rates_currency_history c p) r s))
      ⊎ ((e : ParamError) × IsFirstError (bind r) e
          × (wrapped_get_history siw bind r s ≡ (siw.error_handler r e, s)))
unfolding wrapped_get_history or_refuse path_error
wrapped_get_history-IsBound siw bind r s = by_currency (bind r).currency refl
  where
    by_currency :
        (c : Result Text)
        → (bind r).currency ≡ c
        → ((c : Text) × (p : HistoryParams) × IsBound (bind r) c p
            × (wrapped_get_history siw bind r s
                ≡ with_middlewares siw.middlewares
                    (siw.handler.get_rates_currency_history c p)
                    r
                    s))
          ⊎ ((e : ParamError) × IsFirstError (bind r) e
              × (wrapped_get_history siw bind r s ≡ (siw.error_handler r e, s)))
    by_currency (err m) ec = inr (_, at_currency m ec refl, rw ec refl)
    by_currency (ok c) ec = elim (Binding-cases (codes "from") (bind r).from_date) [
      | inr (e, q, of_from) ↦ inr (e, at_from c ec of_from, rw (ec, q) refl)
      | inl (f, ef) ↦ elim (Binding-cases (codes "to") (bind r).to_date) [
        | inr (e, q, of_to) ↦ inr (e, at_to c f ec ef of_to, rw (ec, ef, q) refl)
        | inl (t, et) ↦ elim (Binding-cases (codes "limit") (bind r).limit) [
          | inr (e, q, of_limit) ↦
              inr (e, at_limit c f t ec ef et of_limit, rw (ec, ef, et, q) refl)
          | inl (l, el) ↦ inl (
            c,
            record { from_date = f; to_date = t; limit = l },
            record { currency = ec; from_date = ef; to_date = et; limit = el },
            rw (ec, ef, et, el) refl,
          )
        ]
      ]
    ]
