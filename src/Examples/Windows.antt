-- ===== src/Examples/Windows.antt =====
-- A Redis whose keys have a counter and a time, and whose EXPIRE succeeds or fails, with three
-- requests of one client.
use april_homework.Common.{
  ℕ, zero, suc, ◌≡◌, ◌≢◌, ◌⊎◌, inl, inr, refl, sym, ap, List, [], ◌∷◌, ◌++◌, Text, Option, none,
  some, Bool, true, false, ok, ok_inj, if◌then◌else◌, Bool-cases, arith,
}
use april_homework.Common.Int.{pos}
use april_homework.Strings.{text_eq}
use april_homework.Strings.Laws.{text_eq_iff, text_eq_refl}
use april_homework.Server.Limiter.{Redis, rate_limit}
use april_homework.Server.Limiting.{IsCounting}
use april_homework.Server.Window.{IsExpiring, Event, arrives, time_passes, handle_all}
use april_homework.Server.Window.Recovering.{rate_limit-recovers}
use april_homework.Server.Window.Stuck.{rate_limit-stuck}
use april_homework.Examples.Requests.{visit, no_port}

record Entry : Type 0 where
  hits : ℕ
  left : Option ℕ

abbrev Keys : Type 0
Keys = Text → Entry

abbrev hit : Entry → Entry
hit e = record e { hits = suc e.hits }

abbrev at_key : Text → (Entry → Entry) → Keys → Keys
at_key k f s j = if text_eq j k then f (s j) else s j

abbrev set_window : Bool → Entry → Entry
set_window true e = record e { left = some 2 }
set_window false e = e

abbrev pass_entry : ℕ → Option ℕ → Entry
pass_entry n none = record { hits = n; left = none }
pass_entry n (some zero) = record { hits = 0; left = none }
pass_entry n (some (suc zero)) = record { hits = 0; left = none }
pass_entry n (some (suc (suc m))) = record { hits = n; left = some (suc m) }

abbrev pass : Keys → Keys
pass s k = pass_entry (s k).hits (s k).left

abbrev timed : Bool → Redis
timed works = record {
  State = Keys;
  incr = λ k s. (ok (suc (s k).hits), at_key k hit s);
  expire = λ k s. at_key k (set_window works) s;
}

at_key-own : (k : Text) (f : Entry → Entry) (s : Keys) → at_key k f s k ≡ f (s k)
at_key-own k f s = rw (text_eq_refl k) refl

at_key-other : (k j : Text) (f : Entry → Entry) (s : Keys) → j ≢ k → at_key k f s j ≡ s j
at_key-other k j f s ne = elim (Bool-cases (text_eq j k)) [
  | inl e ↦ absurd (ne ((text_eq_iff j k).0 e))
  | inr e ↦ rw e refl
]

at_key-same :
    {A : Type 0} (k j : Text) (f : Entry → Entry) (s : Keys) (g : Entry → A)
    → ((e : Entry) → g (f e) ≡ g e)
    → g (at_key k f s j) ≡ g (s j)
at_key-same k j f s g same = elim (Bool-cases (text_eq j k)) [
  | inl e ↦ rw e (same (s j))
  | inr e ↦ rw e refl
]

set_window-hits : (works : Bool) (e : Entry) → (set_window works e).hits ≡ e.hits
set_window-hits true e = refl
set_window-hits false e = refl

set_window-left :
    (works : Bool) (e : Entry)
    → ((set_window works e).left ≡ some 2) ⊎ ((set_window works e).left ≡ e.left)
set_window-left true e = inl refl
set_window-left false e = inr refl

pass_entry-absent : (n : ℕ) (o : Option ℕ) → n ≡ 0 → (pass_entry n o).hits ≡ 0
pass_entry-absent n none h = h
pass_entry-absent n (some zero) h = refl
pass_entry-absent n (some (suc zero)) h = refl
pass_entry-absent n (some (suc (suc m))) h = h

abbrev timed_counts : (works : Bool) → IsCounting (timed works)
timed_counts works = record {
  count = λ k s. (s k).hits;
  incr_ok = λ k s n h. (
    sym (ok_inj h),
    ap (λ e. e.hits) (at_key-own k hit s),
    λ j ne. ap (λ e. e.hits) (at_key-other k j hit s ne),
  );
  expire_law = λ k j s. at_key-same k j (set_window works) s (λ e. e.hits) (set_window-hits works);
}

abbrev timed_laws : (works : Bool) → IsExpiring (timed works) pass 2
timed_laws works = record {
  counting = timed_counts works;
  ttl = λ k s. (s k).left;
  incr_ttl = λ k j s. at_key-same k j hit s (λ e. e.left) (λ e. refl);
  expire_own = λ k s. rw (text_eq_refl k) (set_window-left works (s k));
  expire_other = λ k j s ne. ap (λ e. e.left) (at_key-other k j (set_window works) s ne);
  tick_absent = λ k s h. pass_entry-absent (s k).hits (s k).left h;
  tick_lasting = λ k s h.
      (ap (λ o. (pass_entry (s k).hits o).hits) h, ap (λ o. (pass_entry (s k).hits o).left) h);
  tick_later = λ k s m h.
      (ap (λ o. (pass_entry (s k).hits o).hits) h, ap (λ o. (pass_entry (s k).hits o).left) h);
  tick_over = λ k s h. ap (λ o. (pass_entry (s k).hits o).hits) h;
}

abbrev no_keys : Keys
no_keys k = record { hits = 0; left = none }

abbrev past : List Event
past = arrives visit ∷ arrives visit ∷ arrives visit ∷ []

abbrev minute : List Event
minute = time_passes ∷ arrives visit ∷ time_passes ∷ []

expires : (k : Text) (s : Keys) → (at_key k (set_window true) s k).left ≡ some 2
expires k s = ap (λ e. e.left) (at_key-own k (set_window true) s)

rate_limit-recovers_example :
    (xs : List Event) × (ys : List Event) × (minute ≡ xs ++ ys)
    × ((rate_limit
          (timed true)
          no_port
          (pos 1)
          visit
          (handle_all (timed true) pass no_port (pos 1) (past ++ xs) no_keys)).0
        ≡ true)
rate_limit-recovers_example =
    rate_limit-recovers (timed true) pass no_port (pos 1) 2 (timed_laws true)
      (λ k s. (suc (s k).hits, refl)) expires (omega arith) visit past minute no_keys (λ k. refl)
      (omega arith) (omega arith)

rate_limit-stuck_example :
    (rate_limit
      (timed false)
      no_port
      (pos 1)
      visit
      (handle_all (timed false) pass no_port (pos 1) (arrives visit ∷ minute) no_keys)).0
    ≡ false
rate_limit-stuck_example =
    rate_limit-stuck (timed false) pass no_port (pos 1) 2 (timed_laws false)
      (λ k s. (suc (s k).hits, refl)) visit minute no_keys refl (failed _ no_keys) (omega arith)
  where
    failed :
        (k : Text) (s : Keys) → (at_key k (set_window false) (at_key k hit s) k).left ≡ (s k).left
    failed k s = rw (text_eq_refl k) refl
