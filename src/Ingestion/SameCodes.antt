-- ===== src/Ingestion/SameCodes.antt =====
-- FetchAndStore on two lists of codes that name the same currencies.
use mathlib.Core.List.{Perm, perm_middle, filter_map}
use mathlib.Core.List.Perm
use april_homework.Common.{
  ◌≡◌, ◌≢◌, ◌↔◌, refl, sym, ap, ap₂, ◌∙◌, subst, inl, inr, List, [], ◌∷◌, ◌++◌, Text, Option,
  Result, In, In-append_left, In-append_right, In-append_cases, In-All,
}
use april_homework.Strings.{canonical}
use april_homework.Entities.{ExchangeRate}
use april_homework.Ingestion.{FetchOutcome, normalize_currencies, fetch_and_store}
use april_homework.Ingestion.Normalize.{Distinct, IsCanonical, normalize_currencies-exact}
use april_homework.Ingestion.Settle.{
  as_rate, as_failure, cons_some, filter_map-cons, fetched, unfetched,
}
use april_homework.Ingestion.Outcome.{fetch_and_store-IsReport}

In-split :
    (x : Text) (ys : List Text)
    → In x ys
    → (before : List Text) × (later : List Text) × (ys ≡ before ++ x ∷ later)
In-split x [] i = absurd i
In-split x (y ∷ ys) (inl e) = ([], ys, ap (λ z. z ∷ ys) e)
In-split x (y ∷ ys) (inr i) =
    let (before, later, e) = In-split x ys i in (y ∷ before, later, ap (λ l. y ∷ l) e)

-- Without one of its elements, a list of distinct codes is still distinct, and lacks it.
Distinct-middle :
    (x : Text) (before later : List Text)
    → Distinct (before ++ x ∷ later)
    → Distinct (before ++ later) × ¬ In x (before ++ later)
Distinct-middle x [] later (absent, d) = (d, absent)
Distinct-middle x (y ∷ before) later (absent, d) =
    let (rest, lacks) = Distinct-middle x before later d in
    ((λ i. absent (without y i), rest), not_first lacks)
  where
    without : (c : Text) → In c (before ++ later) → In c (before ++ x ∷ later)
    without c i = elim (In-append_cases c before later i) [
      | inl j ↦ In-append_left c before (x ∷ later) j
      | inr j ↦ In-append_right c before (x ∷ later) (inr j)
    ]

    not_first : ¬ In x (before ++ later) → ¬ In x (y ∷ (before ++ later))
    not_first lacks (inl e) = absent (In-append_right y before (x ∷ later) (inl (sym e)))
    not_first lacks (inr i) = lacks i

In-middle :
    (c x : Text) (before later : List Text)
    → In c (before ++ x ∷ later)
    → c ≢ x
    → In c (before ++ later)
In-middle c x before later i other = elim (In-append_cases c before (x ∷ later) i) [
  | inl j ↦ In-append_left c before later j
  | inr (inl e) ↦ absurd (other (sym e))
  | inr (inr j) ↦ In-append_right c before later j
]

middle-In :
    (c x : Text) (before later : List Text) → In c (before ++ later) → In c (before ++ x ∷ later)
middle-In c x before later i = elim (In-append_cases c before later i) [
  | inl j ↦ In-append_left c before (x ∷ later) j
  | inr j ↦ In-append_right c before (x ∷ later) (inr j)
]

-- Two lists of distinct codes with the same codes are permutations of each other.
Distinct-Perm :
    (xs ys : List Text)
    → Distinct xs
    → Distinct ys
    → ((c : Text) → In c xs → In c ys)
    → ((c : Text) → In c ys → In c xs)
    → Perm xs ys
Distinct-Perm [] [] dx dy to from = Perm.refl []
Distinct-Perm [] (y ∷ ys) dx dy to from = absurd (from y (inl refl))
Distinct-Perm (x ∷ xs) ys (absent, dx) dy to from =
    let (before, later, e) = In-split x ys (to x (inl refl)) in
    let (rest, lacks) = Distinct-middle x before later (subst Distinct e dy) in
    let smaller =
      Distinct-Perm xs (before ++ later) dx rest
        (λ c i.
          In-middle c x before later (subst (In c) e (to c (inr i)))
            (λ same. absent (subst (λ z. In z xs) same i)))
        (λ c i.
          tail c (from c (subst (In c) (sym e) (middle-In c x before later i)))
            (λ same. lacks (subst (λ z. In z (before ++ later)) same i))) in
    subst (Perm (x ∷ xs)) (sym e)
      (Perm.trans (Perm.cons x smaller) (Perm.symm (perm_middle before later)))
  where
    tail : (c : Text) → In c (x ∷ xs) → c ≢ x → In c xs
    tail c (inl e) other = absurd (other (sym e))
    tail c (inr i) other = i

-- The codes that these entries stand for: the canonical forms that are not empty.
abbrev pub HasCode : Text → List Text → Type 0
HasCode c raws = (c ≢ []) × (raw : Text) × In raw raws × (canonical raw ≡ c)

HasCode-In : (c : Text) (raws : List Text) → HasCode c raws → In c (normalize_currencies raws)
HasCode-In c raws (full, raw, i, e) =
    let (_, _, complete, _) = normalize_currencies-exact raws in
    subst (λ z. In z (normalize_currencies raws)) e (complete raw i (λ z. full (sym e ∙ z)))

In-HasCode : (c : Text) (raws : List Text) → In c (normalize_currencies raws) → HasCode c raws
In-HasCode c raws i =
    let (_, plain, _, sound) = normalize_currencies-exact raws in
    let (full, _) = In-All IsCanonical c (normalize_currencies raws) plain i in
    let (raw, j, e) = sound c i in (full, raw, j, e)

pub normalize_currencies-Perm :
    (raws others : List Text)
    → ((c : Text) → HasCode c raws ↔ HasCode c others)
    → Perm (normalize_currencies raws) (normalize_currencies others)
normalize_currencies-Perm raws others same =
    let (dx, _, _, _) = normalize_currencies-exact raws in
    let (dy, _, _, _) = normalize_currencies-exact others in
    Distinct-Perm (normalize_currencies raws) (normalize_currencies others) dx dy
      (λ c i. HasCode-In c others ((same c).0 (In-HasCode c raws i)))
      (λ c i. HasCode-In c raws ((same c).1 (In-HasCode c others i)))

fetched-Perm :
    (fetch : Text → Result ExchangeRate) {cs ds : List Text}
    → Perm cs ds
    → Perm (fetched fetch cs) (fetched fetch ds) × Perm (unfetched fetch cs) (unfetched fetch ds)
unfolding fetched unfetched
fetched-Perm fetch p = (Perm.filter_map _ p, Perm.filter_map _ p)

filter_map-alike :
    {A B : Type 0} (f g : A → Option B) (xs : List A)
    → ((x : A) → In x xs → f x ≡ g x)
    → filter_map f xs ≡ filter_map g xs
unfolding filter_map
filter_map-alike f g [] alike = refl
filter_map-alike f g (x ∷ xs) alike =
    filter_map-cons f x xs
    ∙ ap₂ cons_some (alike x (inl refl)) (filter_map-alike f g xs (λ y i. alike y (inr i)))
    ∙ sym (filter_map-cons g x xs)

-- On codes that `fetch` and `fetch'` answer alike, the same is fetched and the same is not.
fetched-alike :
    (fetch fetch' : Text → Result ExchangeRate) (cs : List Text)
    → ((c : Text) → In c cs → fetch c ≡ fetch' c)
    → (fetched fetch cs ≡ fetched fetch' cs) × (unfetched fetch cs ≡ unfetched fetch' cs)
unfolding fetched unfetched
fetched-alike fetch fetch' cs alike = (
  filter_map-alike _ _ cs (λ c i. ap as_rate (alike c i)),
  filter_map-alike _ _ cs (λ c i. ap (as_failure c) (alike c i)),
)

-- Two calls of FetchAndStore with the same set of codes, some of them, in whatever order, case and
-- number they are given and in whatever order the outcomes arrive, report the same saved rates and
-- the same failures, each up to order, whatever the stores and the repositories are, if the fetcher
-- answers each of the codes in the second call as it did in the first.
pub fetch_and_store-same_codes :
    {S : Type 0} (upsert_rates upsert_rates' : List ExchangeRate → S → Option Text × S)
    (fetch fetch' : Text → Result ExchangeRate)
    (drain drain' : List FetchOutcome → List FetchOutcome) (raws others : List Text) (s s' : S)
    → ((os : List FetchOutcome) → Perm (drain os) os)
    → ((os : List FetchOutcome) → Perm (drain' os) os)
    → normalize_currencies raws ≢ []
    → ((c : Text) → HasCode c raws ↔ HasCode c others)
    → ((c : Text) → In c (normalize_currencies others) → fetch c ≡ fetch' c)
    → let out = fetch_and_store upsert_rates fetch drain raws s in
      let out' = fetch_and_store upsert_rates' fetch' drain' others s' in
      Perm out.0.0.saved out'.0.0.saved × Perm out.0.0.failed out'.0.0.failed
fetch_and_store-same_codes upsert_rates upsert_rates' fetch fetch' drain drain' raws others s s'
      order order' some_code same alike =
    let codes_same = normalize_currencies-Perm raws others same in
    let some_other : normalize_currencies others ≢ [] =
      λ e. some_code (Perm.eq-nil (subst (Perm (normalize_currencies raws)) e codes_same)) in
    let report = fetch_and_store-IsReport upsert_rates fetch drain raws s order some_code in
    let report' =
      fetch_and_store-IsReport upsert_rates' fetch' drain' others s' order' some_other in
    let (saved, failed) = fetched-alike fetch fetch' (normalize_currencies others) alike in
    let (fetched_same, unfetched_same) = fetched-Perm fetch codes_same in
    (
      Perm.trans report.saved (
          Perm.trans (subst (Perm (fetched fetch (normalize_currencies raws))) saved fetched_same)
            (Perm.symm report'.saved)),
      Perm.trans report.failed (
          Perm.trans
            (subst (Perm (unfetched fetch (normalize_currencies raws))) failed unfetched_same)
            (Perm.symm report'.failed)),
    )
