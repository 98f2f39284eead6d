-- ===== src/Examples/Slices.antt =====
-- Statements over a list of rows: slices that are updated and reloaded, and rows of a template.
use april_homework.Common.{
  ◌≡◌, refl, sym, ap, ◌∙◌, subst, inl, inr, List, [], ◌∷◌, ◌++◌, map, Text, codes, Option, none,
  some, Bool, true, false, ◌||◌, Result, ok, ok_inj, In, Bool-cases, arith, if◌then◌else◌,
}
use april_homework.Strings.{text_eq}
use april_homework.Strings.Laws.{text_eq_iff}
use april_homework.Repository.{Row}
use april_homework.Bob.{RowSetter, overwrite}
use april_homework.Bob.Factory.{zero_row}
use april_homework.Bob.Setting.{set_columns-agrees}
use april_homework.Bob.Created.{IsInserting}
use april_homework.Bob.Slices.{Statements, update_all, reload_all}
use april_homework.Bob.Synced.{IsReturned, IsReporting, KeepsSlice, slices-KeepsSlice}
use april_homework.Time.{zero_time}

abbrev setter : RowSetter Text
setter = record {
  id = none;
  base_currency = none;
  quote_currency = some (codes "USD");
  rate = some (codes "1.1");
  effective_date = none;
  source = none;
  source_published_at = some none;
  created_at = none;
}

abbrev row : Row Text
row = record {
  id = codes "7";
  base_currency = codes "EUR";
  quote_currency = codes "GBP";
  rate = codes "0.8";
  effective_date = zero_time;
  source = codes "feed";
  source_published_at = some zero_time;
  created_at = zero_time;
}

abbrev has : Text → List Text → Bool
has k [] = false
has k (x ∷ xs) = text_eq x k || has k xs

abbrev chosen : List Text → List (Row Text) → List (Row Text)
chosen ids [] = []
chosen ids (r ∷ rs) = let rest = chosen ids rs in if has r.id ids then r ∷ rest else rest

abbrev left : List Text → List (Row Text) → List (Row Text)
left ids [] = []
left ids (r ∷ rs) = let rest = left ids rs in if has r.id ids then rest else r ∷ rest

abbrev changed : RowSetter Text → List Text → Row Text → Row Text
changed vals ids t = if has t.id ids then overwrite vals t else t

abbrev keys_of : Option (List Text) → List Text
keys_of none = []
keys_of (some ids) = ids

abbrev statements : Statements Text
statements = record {
  World = List (Row Text);
  select_in = λ ids w. ok (chosen (keys_of ids) w);
  update_in = λ vals ids w.
      let w' = map (changed vals (keys_of ids)) w in (ok (chosen (keys_of ids) w'), w');
  delete_in = λ ids w. (none, left (keys_of ids) w);
  select_one = λ id w. ok row;
  select_columns = λ cols id w. ok row;
  update_one = λ vals id w. (ok (overwrite vals row), w);
  delete_one = λ id w. (none, left (id ∷ []) w);
}

In-has : (k : Text) (ids : List Text) → In k ids → has k ids ≡ true
In-has k [] i = absurd i
In-has k (x ∷ xs) (inl e) = ground (arith, (text_eq_iff x k).1 e)
In-has k (x ∷ xs) (inr i) = ground (arith, In-has k xs i)

chosen-In :
    (ids : List Text) (rows : List (Row Text)) (r : Row Text) → In r (chosen ids rows) → In r rows
chosen-In ids [] r i = absurd i
chosen-In ids (x ∷ rows) r i = elim (Bool-cases (has x.id ids)) [
  | inl h ↦ elim (rw h at i) [ inl e ↦ inl e | inr j ↦ inr (chosen-In ids rows r j) ]
  | inr h ↦ inr (chosen-In ids rows r (rw h at i))
]

In-chosen :
    (ids : List Text) (rows : List (Row Text)) (r : Row Text)
    → In r rows
    → In r.id ids
    → In r (chosen ids rows)
In-chosen ids [] r i k = absurd i
In-chosen ids (x ∷ rows) r (inl e) k = rw (ap (λ y. has y.id ids) e ∙ In-has r.id ids k) (inl e)
In-chosen ids (x ∷ rows) r (inr i) k = elim (Bool-cases (has x.id ids)) [
  | inl h ↦ rw h (inr (In-chosen ids rows r i k))
  | inr h ↦ rw h (In-chosen ids rows r i k)
]

chosen-IsReturned :
    (ids : List Text) (rows out : List (Row Text)) → chosen ids rows ≡ out → IsReturned ids out rows
chosen-IsReturned ids rows out e = record {
  sound = λ r i. chosen-In ids rows r (subst (In r) (sym e) i);
  complete = λ r i k. subst (In r) e (In-chosen ids rows r i k);
}

abbrev statements_laws : IsReporting statements (λ w. w)
statements_laws = record {
  select_law = λ ids w out h. chosen-IsReturned ids w out (ok_inj h);
  update_law = λ vals ids w w' out h e.
      chosen-IsReturned ids w' out
        (ap (chosen ids) (sym (ap (λ p. p.1) e)) ∙ ok_inj (ap (λ p. p.0) e));
}

slices-KeepsSlice_example :
    KeepsSlice {W = List (Row Text)}
      (λ w. w)
      (row ∷ [])
      (update_all statements (row ∷ []) setter (row ∷ []))
    × KeepsSlice {W = List (Row Text)}
        (λ w. w)
        (row ∷ [])
        (reload_all statements (row ∷ []) (row ∷ []))
slices-KeepsSlice_example =
    slices-KeepsSlice statements (λ w. w) (row ∷ []) setter (row ∷ []) statements_laws refl

abbrev insert : RowSetter Text → List (Row Text) → Result (Row Text) × List (Row Text)
insert m w = let r = overwrite m (zero_row (codes "0")) in (ok r, w ++ r ∷ [])

insert_laws : IsInserting insert (λ w. w)
insert_laws = record {
  inserted = λ m w w' r h.
      let e = ok_inj (ap (λ p. p.0) h) in
      (
        sym (ap (λ p. p.1) h) ∙ ap (λ x. w ++ x ∷ []) e,
        ap (overwrite m) (sym e) ∙ (set_columns-agrees m [] (zero_row (codes "0"))).2 ∙ e,
      );
  refused = λ m w w' x h. cc (ap (λ p. p.0) h);
}
