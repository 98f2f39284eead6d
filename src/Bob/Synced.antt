-- ===== src/Bob/Synced.antt =====
-- What UpdateAll and ReloadAll leave in the slice of rows.
use april_homework.Common.{
  ◌≡◌, ◌≢◌, ◌⊎◌, refl, sym, ap, ap₂, ◌∙◌, subst, inl, inr, List, [], ◌∷◌, map, Text, Option, none,
  some, true, false, Result, ok, err, In, Bool-cases,
}
use april_homework.Strings.{text_eq}
use april_homework.Strings.Laws.{text_eq_iff}
use april_homework.Repository.{Row}
use april_homework.Bob.{RowSetter, matching_row, copy_matching_rows}
use april_homework.Bob.Slices.{Statements, primary_key_vals, pk_in, loaded, update_all, reload_all}

module _ {Amount : Type 0} where
  abbrev pub keys : List (Row Amount) → List Text
  keys o = map (λ r. r.id) o

  -- What a statement over these keys returned, of the rows that the table has after it.
  pub record IsReturned (ids : List Text) (out table : List (Row Amount)) : Type 0 where
    pub sound : (r : Row Amount) → In r out → In r table
    pub complete : (r : Row Amount) → In r table → In r.id ids → In r out

  -- The slice has the keys that it had, in their order; and each of its rows is one of the table,
  -- or was in the slice before and the table has none with its key.
  pub record IsSynced (old new table : List (Row Amount)) : Type 0 where
    pub same_keys : keys new ≡ keys old
    pub rows :
        (r : Row Amount)
        → In r new
        → In r table ⊎ (In r old × ((t : Row Amount) → In t table → t.id ≢ r.id))

  matching_row-hit :
      (old new : Row Amount) (from : List (Row Amount))
      → text_eq new.id old.id ≡ true
      → matching_row old (new ∷ from) ≡ new
  unfolding matching_row
  matching_row-hit old new from h = rw h refl

  matching_row-miss :
      (old new : Row Amount) (from : List (Row Amount))
      → text_eq new.id old.id ≡ false
      → matching_row old (new ∷ from) ≡ matching_row old from
  unfolding matching_row
  matching_row-miss old new from h = rw h refl

  -- The row `x` that stands for `old` when the rows `from` came back.
  abbrev IsMatched : Row Amount → List (Row Amount) → Row Amount → Type 0
  IsMatched old from x =
      (In x from × (x.id ≡ old.id)) ⊎ ((x ≡ old) × ((t : Row Amount) → In t from → t.id ≢ old.id))

  IsMatched-cons :
      (old new : Row Amount) (from : List (Row Amount)) (x : Row Amount)
      → text_eq new.id old.id ≡ false
      → IsMatched old from x
      → IsMatched old (new ∷ from) x
  IsMatched-cons old new from x h (inl found) = inl (inr found.0, found.1)
  IsMatched-cons old new from x h (inr missed) = inr (missed.0, other)
    where
      other : (t : Row Amount) → In t (new ∷ from) → t.id ≢ old.id
      other t (inl e) same = cc (h, (text_eq_iff new.id old.id).1 (ap (λ r. r.id) e ∙ same))
      other t (inr i) same = missed.1 t i same

  matching_row-IsMatched :
      (old : Row Amount) (from : List (Row Amount)) → IsMatched old from (matching_row old from)
  matching_row-IsMatched old [] = inr ((unfold matching_row in refl), λ t i. absurd i)
  matching_row-IsMatched old (new ∷ from) = elim (Bool-cases (text_eq new.id old.id)) [
    | inl h ↦
        subst (IsMatched old (new ∷ from)) (sym (matching_row-hit old new from h))
          (inl (inl refl, (text_eq_iff new.id old.id).0 h))
    | inr h ↦
        subst (IsMatched old (new ∷ from)) (sym (matching_row-miss old new from h))
          (IsMatched-cons old new from (matching_row old from) h (matching_row-IsMatched old from))
  ]

  matching_row-id :
      (old : Row Amount) (from : List (Row Amount)) → (matching_row old from).id ≡ old.id
  matching_row-id old from = elim (matching_row-IsMatched old from) [
    | inl found ↦ found.1
    | inr missed ↦ ap (λ r. r.id) missed.0
  ]

  copy_matching_rows-keys : (o from : List (Row Amount)) → keys (copy_matching_rows o from) ≡ keys o
  unfolding copy_matching_rows
  copy_matching_rows-keys [] from = refl
  copy_matching_rows-keys (r ∷ o) from =
      ap₂ (λ k ks. k ∷ ks) (matching_row-id r from) (copy_matching_rows-keys o from)

  copy_matching_rows-rows :
      (ids : List Text) (o out table : List (Row Amount))
      → IsReturned ids out table
      → ((k : Text) → In k (keys o) → In k ids)
      → (r : Row Amount) → In r (copy_matching_rows o out)
      → In r table ⊎ (In r o × ((t : Row Amount) → In t table → t.id ≢ r.id))
  unfolding copy_matching_rows
  copy_matching_rows-rows ids [] out table ret within r i = absurd i
  copy_matching_rows-rows ids (old ∷ o) out table ret within r (inl e) =
      elim (matching_row-IsMatched old out) [
        | inl found ↦ inl (subst (λ x. In x table) e (ret.sound _ found.0))
        | inr missed ↦ inr (
          inl (sym missed.0 ∙ e),
          λ t j same.
              let key = same ∙ ap (λ x. x.id) (sym e ∙ missed.0) in
              missed.1 t (ret.complete t j (within t.id (inl (sym key)))) key,
        )
      ]
  copy_matching_rows-rows ids (old ∷ o) out table ret within r (inr i) =
      elim (copy_matching_rows-rows ids o out table ret (λ k j. within k (inr j)) r i) [
        | inl found ↦ inl found
        | inr missed ↦ inr (inr missed.0, missed.1)
      ]

  copy_matching_rows-IsSynced :
      (o out table : List (Row Amount))
      → IsReturned (keys o) out table
      → IsSynced o (copy_matching_rows o out) table
  copy_matching_rows-IsSynced o out table ret = record {
    same_keys = copy_matching_rows-keys o out;
    rows = copy_matching_rows-rows (keys o) o out table ret (λ k i. i);
  }

-- A table whose statements report what they did: the rows that came back are, of the rows of the
-- table after the call, those with the keys of the call. An UPDATE may not change the keys.
pub record IsReporting {Amount : Type 0} (q : Statements Amount)
    (table : q.World → List (Row Amount)) : Type 0 where
  pub select_law :
      (ids : List Text) (w : q.World) (out : List (Row Amount))
      → q.select_in (some ids) w ≡ ok out
      → IsReturned ids out (table w)
  pub update_law :
      (vals : RowSetter Amount) (ids : List Text) (w w' : q.World) (out : List (Row Amount))
      → vals.id ≡ none
      → q.update_in vals (some ids) w ≡ (ok out, w')
      → IsReturned ids out (table w')

nil-IsSynced : {Amount : Type 0} (table : List (Row Amount)) → IsSynced [] [] table
nil-IsSynced table = record { same_keys = refl; rows = λ r i. absurd i }

-- What an operation on the slice promises: without an error the slice is in step with the table
-- after it, and with an error the slice is as it was.
abbrev pub KeepsSlice :
    {Amount W : Type 0}
    → (W → List (Row Amount))
    → List (Row Amount)
    → (Option Text × List (Row Amount)) × W
    → Type 0
KeepsSlice table o p =
    (p.0.0 ≡ none → IsSynced o p.0.1 (table p.1)) × ((e : Text) → p.0.0 ≡ some e → p.0.1 ≡ o)

loaded-KeepsSlice :
    {Amount W : Type 0} (table : W → List (Row Amount)) (o : List (Row Amount))
    (p : Result (List (Row Amount)) × W)
    → ((out : List (Row Amount)) → p.0 ≡ ok out → IsReturned (keys o) out (table p.1))
    → KeepsSlice table o (loaded o p)
loaded-KeepsSlice table o (ok out, w) ret =
    (λ _. copy_matching_rows-IsSynced o out (table w) (ret out refl), λ e h. cc)
loaded-KeepsSlice table o (err x, w) ret = (λ h. cc, λ e h. refl)

module _ {Amount : Type 0} (q : Statements Amount) (table : q.World → List (Row Amount))
    (law : IsReporting q table) where
  update_all-KeepsSlice :
      (o : List (Row Amount)) (vals : RowSetter Amount) (w : q.World)
      → vals.id ≡ none
      → KeepsSlice table o (update_all q o vals w)
  unfolding update_all pk_in primary_key_vals
  update_all-KeepsSlice [] vals w h = (λ _. nil-IsSynced (table w), λ e k. refl)
  update_all-KeepsSlice (r ∷ o) vals w h =
      let p = q.update_in vals (some (keys (r ∷ o))) w in
      loaded-KeepsSlice table (r ∷ o) p
        (λ out e. law.update_law vals (keys (r ∷ o)) w p.1 out h (ap (λ x. (x, p.1)) e))

  reload_all-KeepsSlice :
      (o : List (Row Amount)) (w : q.World) → KeepsSlice table o (reload_all q o w)
  unfolding reload_all pk_in primary_key_vals
  reload_all-KeepsSlice [] w = (λ _. nil-IsSynced (table w), λ e k. refl)
  reload_all-KeepsSlice (r ∷ o) w =
      loaded-KeepsSlice table (r ∷ o) (q.select_in (some (keys (r ∷ o))) w, w)
        (λ out e. law.select_law (keys (r ∷ o)) w out e)

-- UpdateAll by a setter that leaves the key out, and ReloadAll, over statements that return what
-- they changed or read: without an error each row of the slice is the row that the table now has
-- with its key, or is as it was where the table has none, and the keys keep their order; with an
-- error the slice is as it was.
pub slices-KeepsSlice :
    {Amount : Type 0} (q : Statements Amount) (table : q.World → List (Row Amount))
    (o : List (Row Amount)) (vals : RowSetter Amount) (w : q.World)
    → IsReporting q table
    → vals.id ≡ none
    → KeepsSlice table o (update_all q o vals w) × KeepsSlice table o (reload_all q o w)
slices-KeepsSlice q table o vals w law h =
    (update_all-KeepsSlice q table law o vals w h, reload_all-KeepsSlice q table law o w)
