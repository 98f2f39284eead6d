-- ===== src/Bob/Loaders.antt =====
-- internal/db/bob/bob/bob_loaders.bob.go and bob_counts.bob.go: what runs after a query on the values
-- that it retrieved. `Any` is a value of any type, with a type assertion as an argument; an error is
-- a value of `E`.
use april_homework.Common.{Text, List, Option, none, some, Bool, if◌then◌else◌}

-- What a loader calls: the assertion to the type that can load, fmt.Errorf with the type of the
-- value, and errors.Is with sql.ErrNoRows.
pub record LoaderCalls (Any T E : Type 0) : Type 0 where
  pub as_loader : Any → Option T
  pub cannot_load : Any → Text → E
  pub is_no_rows : E → Bool

module _ {Any T E S : Type 0} (calls : LoaderCalls Any T E) where
  abbrev pub unless_no_rows : Option E × S → Option E × S
  unless_no_rows (none, s) = (none, s)
  unless_no_rows (some e, s) = ((if calls.is_no_rows e then none else some e), s)

  abbrev pub load_as : Option T → Any → Text → (T → S → Option E × S) → S → Option E × S
  load_as none retrieved name f s = (some (calls.cannot_load retrieved name), s)
  load_as (some t) retrieved name f s = unless_no_rows (f t s)

  -- thenLoadBuilder
  unfoldable pub then_load_builder :
      {Mod : Type 0} → Text → (T → List Mod → S → Option E × S) → List Mod → Any → S → Option E × S
  then_load_builder name f mods retrieved =
      load_as (calls.as_loader retrieved) retrieved name (λ t. f t mods)

  abbrev pub count_as : Option T → (T → S → Option E × S) → S → Option E × S
  count_as none f s = (none, s)
  count_as (some t) f s = f t s

  -- countThenLoadBuilder
  unfoldable pub count_then_load_builder :
      {Mod : Type 0} → (T → List Mod → S → Option E × S) → List Mod → Any → S → Option E × S
  count_then_load_builder f mods retrieved = count_as (calls.as_loader retrieved) (λ t. f t mods)
