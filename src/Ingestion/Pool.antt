-- ===== src/Ingestion/Pool.antt =====
-- The goroutines of FetchAndStore as a step relation: `group.Go` starts the next currency while
-- fewer than `limit` workers run (errgroup's SetLimit), and any running worker may be the next to
-- send its outcome on the buffered channel, which has room for `capacity` values.
pub mod Invariant
pub mod Completion
use april_homework.Common.{ℕ, ◌+◌, ◌*◌, ◌<◌, ◌≡◌, List, [], ◌∷◌, ◌++◌, Text, length}
use april_homework.Ingestion.{FetchOutcome}

pub record Pool : Type 0 where
  pub queued : List Text
  pub running : List Text
  pub channel : List FetchOutcome

abbrev pub start : List Text → Pool
start currencies = record { queued = currencies; running = []; channel = [] }

abbrev pub IsFinished : Pool → Type 0
IsFinished s = (s.queued ≡ []) × (s.running ≡ [])

module _ (limit capacity : ℕ) (task : Text → FetchOutcome) where
  pub data Step (s t : Pool) : Type 0 where
    launch :
        (c : Text) (rest : List Text)
        → s.queued ≡ c ∷ rest
        → length s.running < limit
        → t ≡ record { queued = rest; running = c ∷ s.running; channel = s.channel }
        → Step s t
    deliver :
        (c : Text) (before later : List Text)
        → s.running ≡ before ++ c ∷ later
        → length s.channel < capacity
        → t ≡ record {
          queued = s.queued;
          running = before ++ later;
          channel = s.channel ++ task c ∷ [];
        }
        → Step s t

  -- `Steps n s t`: from `s` to `t` in `n` steps.
  pub data Steps (s : Pool) : ℕ → Pool → Type 0 where
    here : Steps s 0 s
    next : {n m : ℕ} {t u : Pool} → Steps s n t → Step t u → m ≡ n + 1 → Steps s m u
