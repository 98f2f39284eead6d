-- ===== src/Service/Lifecycle.antt =====
-- What Run returns, and when.
use april_homework.Common.{
  ℕ, ◌+◌, ◌≤◌, ◌≡◌, ◌≢◌, refl, sym, ◌∙◌, List, [], ◌∷◌, ◌++◌, Text, Option, none, some, Bool, true,
  false, arith, Bool-cases, inl, inr,
}
use april_homework.Service.{
  server_closed, listen_failed, Phase, waiting, shutting, stopped, Run, run_start, listen_result,
  first_of, group_return, RunStep, interrupt, listen_returns, shutdown_begins, shutdown_returns,
  to_list, RunSteps, here, next, IsReturned, wait,
}

abbrev pub first_error : List Text → Option Text
first_error [] = none
first_error (e ∷ es) = some e

first_error-append :
    (es : List Text) (r : Option Text) → first_error (es ++ to_list r) ≡ first_of (first_error es) r
first_error-append [] none = refl
first_error-append [] (some e) = refl
first_error-append (x ∷ es) none = refl
first_error-append (x ∷ es) (some e) = refl

-- The steps that a run can still take.
abbrev phase_work : Phase → ℕ
phase_work waiting = 2
phase_work shutting = 1
phase_work stopped = 0

abbrev bit : Bool → ℕ
bit true = 1
bit false = 0

abbrev not_bit : Bool → ℕ
not_bit true = 0
not_bit false = 1

abbrev work : Run → ℕ
work s = not_bit s.cancelled + bit s.listening + phase_work s.phase

record IsSound (n : ℕ) (es : List Text) (s : Run) : Type 0 where
  bounded : n + work s ≤ 4
  kept : s.error ≡ first_error es
  quiet : s.cancelled ≡ false → s.error ≡ none
  serving : s.cancelled ≡ false → (s.listening ≡ true) × (s.phase ≡ waiting)

run_start-IsSound : IsSound 0 [] run_start
unfolding run_start
run_start-IsSound = ground arith

RunStep-IsSound :
    (n : ℕ) (es : List Text) (s t : Run) (r : Option Text)
    → IsSound n es s
    → RunStep s r t
    → IsSound (n + 1) (es ++ to_list r) t
unfolding group_return listen_result
RunStep-IsSound n es s t r inv (interrupt h k e) = ground (arith, first_error-append es r)
RunStep-IsSound n es s t r inv (listen_returns server_closed l p k e) =
    let past : s.phase ≢ waiting = p refl in ground (arith, first_error-append es r)
RunStep-IsSound n es s t r inv (listen_returns (listen_failed x) l p k e) =
    ground (arith, first_error-append es r)
RunStep-IsSound n es s t r inv (shutdown_begins p c k e) = ground (arith, first_error-append es r)
RunStep-IsSound n es s t r inv (shutdown_returns p e) = ground (arith, first_error-append es r)

RunSteps-IsSound : {n : ℕ} {es : List Text} {s : Run} → RunSteps run_start n es s → IsSound n es s
RunSteps-IsSound here = run_start-IsSound
RunSteps-IsSound (next {n = n} {es = es} {t = t} {u = u} {r = r} run step m f) =
    rw (m, f) (RunStep-IsSound n es t u r (RunSteps-IsSound run) step)

-- Shutdown may return nil, and ListenAndServe return because of Shutdown.
shutdown_ends : (s : Run) → s.phase ≡ shutting → RunStep s none (record s { phase = stopped })
unfolding group_return
shutdown_ends s e = shutdown_returns e refl

listen_ends :
    (s : Run)
    → s.listening ≡ true
    → s.phase ≢ waiting
    → RunStep s none (record s { listening = false })
unfolding group_return listen_result
listen_ends s l p = listen_returns server_closed l (λ _. p) refl refl

-- The run of the steps that are left for the second goroutine of a cancelled run.
record IsStopped (s : Run) : Type 0 where
  steps : ℕ
  errors : List Text
  end : Run
  run : RunSteps s steps errors end
  phase_stopped : end.phase ≡ stopped
  same : end.listening ≡ s.listening

stopping : (s : Run) (p : Phase) → s.phase ≡ p → s.cancelled ≡ true → IsStopped s
stopping s waiting e c = record {
  steps = 2;
  errors = [];
  end = record s { phase = stopped };
  run = next (next here (shutdown_begins e c refl refl) refl refl) (shutdown_ends _ refl) refl refl;
  phase_stopped = refl;
  same = refl;
}
stopping s shutting e c = record {
  steps = 1;
  errors = [];
  end = record s { phase = stopped };
  run = next here (shutdown_ends s e) refl refl;
  phase_stopped = refl;
  same = refl;
}
stopping s stopped e c = record {
  steps = 0;
  errors = [];
  end = s;
  run = here;
  phase_stopped = e;
  same = refl;
}

closing :
    (s : Run) (st : IsStopped s) (b : Bool)
    → s.listening ≡ b
    → (n : ℕ) × (es : List Text) × (t : Run) × RunSteps s n es t × IsReturned t
closing s st false e = (st.steps, st.errors, st.end, st.run, (st.same ∙ e, st.phase_stopped))
closing s st true e = (
  st.steps + 1,
  st.errors ++ [],
  record (st.end) { listening = false },
  next st.run (listen_ends st.end (st.same ∙ e) (λ h. cc (h, st.phase_stopped))) refl refl,
  (refl, st.phase_stopped),
)

no_errors : (es : List Text) → first_error es ≡ none → es ≡ []
no_errors [] h = refl
no_errors (e ∷ es) h = cc

returned_ends :
    (s t : Run) (r : Option Text) → IsReturned s → s.cancelled ≡ true → RunStep s r t → ⊥
returned_ends s t r (l, p) c (interrupt h k e) = cc (h, c)
returned_ends s t r (l, p) c (listen_returns x h k e f) = cc (h, l)
returned_ends s t r (l, p) c (shutdown_begins h k e f) = cc (h, p)
returned_ends s t r (l, p) c (shutdown_returns h e) = cc (h, p)

-- Every run of the service takes at most four steps; until the context is cancelled the server
-- listens and Shutdown is not called; and from every state that a run reaches in which the context
-- is cancelled, as it is after an error, the run can be continued until Run returns.
pub run_returns :
    (n : ℕ) (es : List Text) (s : Run)
    → RunSteps run_start n es s
    → (n ≤ 4)
      × (s.cancelled ≡ false → (s.listening ≡ true) × (s.phase ≡ waiting) × (es ≡ []))
      × (s.cancelled ≡ true
          → (m : ℕ) × (fs : List Text) × (t : Run) × RunSteps s m fs t × IsReturned t)
run_returns n es s run =
    let inv = RunSteps-IsSound run in
    (
      omega (arith, inv.bounded),
      λ c. ((inv.serving c).0, (inv.serving c).1, no_errors es (sym inv.kept ∙ inv.quiet c)),
      λ c. let st = stopping s s.phase refl c in closing s st s.listening refl,
    )

returned_cancelled :
    (s : Run)
    → IsReturned s
    → (s.cancelled ≡ false → (s.listening ≡ true) × (s.phase ≡ waiting))
    → s.cancelled ≡ true
returned_cancelled s (l, p) serving = elim (Bool-cases s.cancelled) [
  | inl c ↦ c
  | inr c ↦ cc ((serving c).0, l)
]

-- When Run returns its context is cancelled, no goroutine has a step left, and the error is the
-- first that a goroutine returned, or nil if none did.
pub wait-first_error :
    (n : ℕ) (es : List Text) (s : Run)
    → RunSteps run_start n es s
    → IsReturned s
    → (wait s ≡ first_error es)
      × (s.cancelled ≡ true)
      × ((r : Option Text) (t : Run) → RunStep s r t → ⊥)
unfolding wait
wait-first_error n es s run done =
    let inv = RunSteps-IsSound run in
    let c = returned_cancelled s done inv.serving in
    (inv.kept, c, λ r t. returned_ends s t r done c)
