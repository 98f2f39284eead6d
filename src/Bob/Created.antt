-- ===== src/Bob/Created.antt =====
-- What CreateMany leaves in the table, whether it returns rows or an error.
use april_homework.Common.{
  ℕ, zero, suc, ◌<◌, ◌≡◌, refl, sym, ap, ◌∙◌, List, [], ◌∷◌, ◌++◌, append_assoc, append-nil, length,
  Text, Result, ok, err, All, arith,
}
use april_homework.Repository.{Row}
use april_homework.Bob.{RowSetter, overwrite}
use april_homework.Bob.Factory.{Template, Randoms, build_setter, ensure_creatable}
use april_homework.Bob.Templates.{ensure_creatable_complete}
use april_homework.Bob.Creating.{cons_row, created_one, create, create_many}

-- The table `rows` of a database: an insert appends a row that has the values of the setter, or
-- returns an error and appends nothing.
pub record IsInserting {Amount World : Type 0}
    (insert : RowSetter Amount → World → Result (Row Amount) × World)
    (rows : World → List (Row Amount)) : Type 0 where
  pub inserted :
      (m : RowSetter Amount) (w w' : World) (r : Row Amount)
      → insert m w ≡ (ok r, w')
      → (rows w' ≡ rows w ++ r ∷ []) × (overwrite m r ≡ r)
  pub refused :
      (m : RowSetter Amount) (w w' : World) (e : Text) → insert m w ≡ (err e, w') → rows w' ≡ rows w

-- The values that the template gives are those of the row.
abbrev pub Fits : {Amount : Type 0} → Template Amount → Row Amount → Type 0
Fits o r = overwrite (build_setter o) r ≡ r

-- From the rows `old` to the rows `new` by the creation of `n` rows: all of them, or, on an error,
-- those before it.
abbrev pub IsCreated :
    {Amount : Type 0}
    → Template Amount
    → ℕ
    → List (Row Amount)
    → Result (List (Row Amount))
    → List (Row Amount)
    → Type 0
IsCreated o n old (ok rs) new = (length rs ≡ n) × (new ≡ old ++ rs) × All (Fits o) rs
IsCreated o n old (err e) new =
    (rs : List _) × (length rs < n) × (new ≡ old ++ rs) × All (Fits o) rs

module _ {Amount World : Type 0} (insert : RowSetter Amount → World → Result (Row Amount) × World)
    (rows : World → List (Row Amount)) (law : IsInserting insert rows) where
  create-Fits :
      (o : Template Amount) (random : Randoms Amount) (w w' : World) (r : Row Amount)
      → create insert o random w ≡ (ok r, w')
      → (rows w' ≡ rows w ++ r ∷ []) × Fits o r
  unfolding create
  create-Fits o random w w' r h =
      let m = build_setter o in
      let (added, same) = law.inserted (ensure_creatable random m) w w' r h in
      (added, ap (overwrite m) (sym same) ∙ (ensure_creatable_complete random m r).1 ∙ same)

  create-refused :
      (o : Template Amount) (random : Randoms Amount) (w w' : World) (e : Text)
      → create insert o random w ≡ (err e, w')
      → rows w' ≡ rows w
  unfolding create
  create-refused o random w w' e h = law.refused (ensure_creatable random (build_setter o)) w w' e h

  cons-IsCreated :
      (o : Template Amount) (n : ℕ) (old middle : List (Row Amount)) (r : Row Amount)
      (p : Result (List (Row Amount)) × World)
      → middle ≡ old ++ r ∷ []
      → Fits o r
      → IsCreated o n middle p.0 (rows p.1)
      → IsCreated o (suc n) old (cons_row r p).0 (rows (cons_row r p).1)
  cons-IsCreated o n old middle r (ok rs, w) e f (len, all, fit) =
      (omega (arith, len), all ∙ ap (λ l. l ++ rs) e ∙ append_assoc old (r ∷ []) rs, (f, fit))
  cons-IsCreated o n old middle r (err x, w) e f (rs, len, all, fit) = (
    r ∷ rs,
    omega (arith, len),
    all ∙ ap (λ l. l ++ rs) e ∙ append_assoc old (r ∷ []) rs,
    (f, fit),
  )

  round-IsCreated :
      (o : Template Amount) (n : ℕ) (random : Randoms Amount) (w : World)
      (first : Result (Row Amount) × World) (rest : World → Result (List (Row Amount)) × World)
      → create insert o random w ≡ first
      → ((w' : World) → IsCreated o n (rows w') (rest w').0 (rows (rest w').1))
      → IsCreated o (suc n) (rows w) (created_one first rest).0 (rows (created_one first rest).1)
  round-IsCreated o n random w (err e, w') rest h later =
      ([], omega arith, create-refused o random w w' e h ∙ sym (append-nil (rows w)), tt)
  round-IsCreated o n random w (ok r, w') rest h later =
      let (added, fit) = create-Fits o random w w' r h in
      cons-IsCreated o n (rows w) (rows w') r (rest w') added fit (later w')

  every_round-IsCreated :
      (o : Template Amount) (randoms : ℕ → Randoms Amount) (i n : ℕ) (w : World)
      → IsCreated o n
          (rows w)
          (create_many insert o randoms i n w).0
          (rows (create_many insert o randoms i n w).1)
  unfolding create_many
  every_round-IsCreated o randoms i zero w = (refl, sym (append-nil (rows w)), tt)
  every_round-IsCreated o randoms i (suc n) w =
      round-IsCreated o n (randoms i) w (create insert o (randoms i) w)
        (create_many insert o randoms (suc i) n) refl (every_round-IsCreated o randoms (suc i) n)

-- Over a table to which an insert appends: CreateMany of `n` rows returns `n` rows, which it has
-- appended in this order, or an error, and then the fewer rows that it had appended before stay in
-- the table; and each row has the values that the template gives, whatever is drawn for the others.
pub create_many-IsCreated :
    {Amount World : Type 0} (insert : RowSetter Amount → World → Result (Row Amount) × World)
    (rows : World → List (Row Amount)) (o : Template Amount) (randoms : ℕ → Randoms Amount) (n : ℕ)
    (w : World)
    → IsInserting insert rows
    → IsCreated o n
        (rows w)
        (create_many insert o randoms 0 n w).0
        (rows (create_many insert o randoms 0 n w).1)
create_many-IsCreated insert rows o randoms n w law =
    every_round-IsCreated insert rows law o randoms 0 n w
