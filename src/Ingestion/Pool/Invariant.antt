-- ===== src/Ingestion/Pool/Invariant.antt =====
-- The invariant of the pool, and a measure of its steps.
use mathlib.Core.List.{Perm, perm_middle, perm_append_singleton}
use mathlib.Core.List.Perm
use april_homework.Common.{
  ℕ, suc, ◌+◌, ◌*◌, ◌≤◌, ◌≡◌, ap, subst, List, [], ◌∷◌, ◌++◌, map, append_assoc, append-nil,
  map-append, Text, length, length-append, arith,
}
use april_homework.Ingestion.{FetchOutcome}
use april_homework.Ingestion.Pool.{Pool, start, Step, launch, deliver, Steps, here, next}

-- The steps that are still to come: two for each queued currency, one for each running one.
unfoldable pub work : Pool → ℕ
work s = 2 * length s.queued + length s.running

module _ (limit : ℕ) (task : Text → FetchOutcome) (currencies : List Text) where
  -- The outcomes of what is queued, of what runs and of what was sent are those of all currencies.
  pub record IsSound (s : Pool) : Type 0 where
    pub bounded : length s.running ≤ limit
    pub counted : length s.queued + length s.running + length s.channel ≡ length currencies
    pub outcomes :
        Perm (map task s.queued ++ (map task s.running ++ s.channel)) (map task currencies)

  pub start-IsSound : IsSound (start currencies)
  start-IsSound = record {
    bounded = omega arith;
    counted = omega arith;
    outcomes = rw append-nil (Perm.refl _);
  }

  deliver-perm :
      (c : Text) (before later : List Text) (sent : List FetchOutcome)
      → Perm
          (map task (before ++ c ∷ later) ++ sent)
          (map task (before ++ later) ++ (sent ++ task c ∷ []))
  deliver-perm c before later sent =
      rw (map-append, map-append, ← append_assoc)
        (Perm.trans (Perm.append_right sent (perm_middle (map task before) (map task later)))
          (Perm.symm (perm_append_singleton (task c) (map task before ++ map task later ++ sent))))

  length-middle : (c : Text) (xs ys : List Text) → length (xs ++ c ∷ ys) ≡ suc (length (xs ++ ys))
  length-middle c xs ys = omega (arith, length-append xs (c ∷ ys), length-append xs ys)

  pub Step-IsSound : {s t : Pool} → Step limit (length currencies) task s t → IsSound s → IsSound t
  Step-IsSound {s} (launch c rest queue room refl_t) inv = rw refl_t (record {
    bounded = room;
    counted = omega (arith, inv.counted, ap length queue);
    outcomes = Perm.trans (perm_middle (map task rest) (map task s.running ++ s.channel)) (
        subst (λ q. Perm (map task q ++ (map task s.running ++ s.channel)) (map task currencies))
          queue inv.outcomes);
  })
  Step-IsSound {s} (deliver c before later run room refl_t) inv = rw refl_t (record {
    bounded = omega (arith, inv.bounded, ap length run, length-middle c before later);
    counted = omega (
      arith,
      inv.counted,
      ap length run,
      length-middle c before later,
      length-append s.channel (task c ∷ []),
    );
    outcomes =
        Perm.trans
          (Perm.append_left (map task s.queued) (Perm.symm (deliver-perm c before later s.channel)))
          (subst (λ r. Perm (map task s.queued ++ (map task r ++ s.channel)) (map task currencies))
            run inv.outcomes);
  })

  pub Steps-IsSound :
      {s : Pool} {n : ℕ} {t : Pool}
      → Steps limit (length currencies) task s n t
      → IsSound s
      → IsSound t
  Steps-IsSound here inv = inv
  Steps-IsSound (next run step _) inv = Step-IsSound step (Steps-IsSound run inv)

  pub Step-work : {s t : Pool} → Step limit (length currencies) task s t → work s ≡ work t + 1
  unfolding work
  Step-work {s} (launch c rest queue room e) = rw e (omega (arith, ap length queue))
  Step-work {s} (deliver c before later run room e) =
      rw e (omega (arith, ap length run, length-middle c before later))

  pub Steps-work :
      {s : Pool} {n : ℕ} {t : Pool}
      → Steps limit (length currencies) task s n t
      → work s ≡ work t + n
  Steps-work here = omega arith
  Steps-work (next run step e) = omega (arith, Steps-work run, Step-work step, e)
