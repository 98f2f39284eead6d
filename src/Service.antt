-- ===== src/Service.antt =====
-- service/service.go: Run, the two goroutines of an error group around the HTTP server, as a step
-- relation. The environment chooses when the context is cancelled, when ListenAndServe returns and
-- with what, and when Shutdown returns. Of net/http the model takes that ListenAndServe returns
-- http.ErrServerClosed only after Shutdown was called.
pub mod Lifecycle
use april_homework.Common.{
  ℕ, ◌+◌, ◌≡◌, ◌≢◌, List, [], ◌∷◌, ◌++◌, Text, Option, none, some, Bool, true, false,
}

-- What ListenAndServe returns; it never returns nil.
pub data ListenError : Type 0 where
  server_closed : ListenError
  listen_failed : Text → ListenError

-- Where the second goroutine is: at `<-ctx.Done()`, in Shutdown, or past it.
pub data Phase : Type 0 where
  waiting shutting stopped : Phase

pub record Run : Type 0 where
  pub listening : Bool
  pub phase : Phase
  pub cancelled : Bool
  pub error : Option Text

unfoldable pub run_start : Run
run_start = record { listening = true; phase = waiting; cancelled = false; error = none }

-- The error of the first goroutine: `err != nil && !errors.Is(err, http.ErrServerClosed)`.
unfoldable pub listen_result : ListenError → Option Text
listen_result server_closed = none
listen_result (listen_failed e) = some e

-- The group keeps the first error that is returned to it, and cancels the context for it.
abbrev pub first_of : Option Text → Option Text → Option Text
first_of none r = r
first_of (some e) r = some e

unfoldable pub group_return : Option Text → Run → Run
group_return none s = s
group_return (some e) s = record s { error = first_of s.error (some e); cancelled = true }

-- `RunStep s r t`: from `s` to `t`, a goroutine returning `r` to the group.
pub data RunStep (s : Run) (r : Option Text) (t : Run) : Type 0 where
  interrupt : s.cancelled ≡ false → r ≡ none → t ≡ record s { cancelled = true } → RunStep s r t
  listen_returns :
      (e : ListenError)
      → s.listening ≡ true
      → (e ≡ server_closed → s.phase ≢ waiting)
      → r ≡ listen_result e
      → t ≡ group_return (listen_result e) (record s { listening = false })
      → RunStep s r t
  shutdown_begins :
      s.phase ≡ waiting
      → s.cancelled ≡ true
      → r ≡ none
      → t ≡ record s { phase = shutting }
      → RunStep s r t
  shutdown_returns :
      s.phase ≡ shutting → t ≡ group_return r (record s { phase = stopped }) → RunStep s r t

abbrev pub to_list : Option Text → List Text
to_list none = []
to_list (some e) = e ∷ []

-- `RunSteps s n es t`: from `s` to `t` in `n` steps, in which the errors `es` were returned.
pub data RunSteps (s : Run) : ℕ → List Text → Run → Type 0 where
  here : RunSteps s 0 [] s
  next :
      {n m : ℕ} {es fs : List Text} {t u : Run} {r : Option Text}
      → RunSteps s n es t
      → RunStep t r u
      → m ≡ n + 1
      → fs ≡ es ++ to_list r
      → RunSteps s m fs u

-- group.Wait() returns when both goroutines have, with the error that the group keeps.
abbrev pub IsReturned : Run → Type 0
IsReturned s = (s.listening ≡ false) × (s.phase ≡ stopped)

unfoldable pub wait : Run → Option Text
wait s = s.error

-- A run of the service until Run returned.
pub record Returned : Type 0 where
  pub steps : ℕ
  pub errors : List Text
  pub end : Run
  pub run : RunSteps run_start steps errors end
  pub returned : IsReturned end
