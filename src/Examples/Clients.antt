-- ===== src/Examples/Clients.antt =====
-- Two clients that store a rate of the same key at once.
use april_homework.Common.{ℕ, ◌≡◌, ◌≤◌, refl, List, [], ◌∷◌, map, Text, codes, none, some, All}
use mathlib.Core.List.{Perm}
use april_homework.Strings.{print_nat}
use april_homework.Time.{zero_time, is_zero, start_of_day}
use april_homework.Entities.{ExchangeRate}
use april_homework.Repository.{Row, Setter, upsert_one, to_exchange_rate_setter}
use april_homework.Repository.Table.{upsert_row, IsUnique}
use april_homework.Repository.Clients.{
  ClientPhase, waiting, sending, returned, Client, Clients, after_begin, after_insert, after_commit,
  advance, open_client, opened, ClientStep, answered, refused, ClientSteps, no_step, and_step,
}
use april_homework.Repository.Clients.Batches.{stored_batches}
use april_homework.Repository.Clients.Serial.{IsSerial, upsert_rates-IsSerial}
use april_homework.Repository.Clients.Returning.{most_calls, HasReturned, clients_return}
use april_homework.Examples.Memory.{memory, memory_laws}
use april_homework.Examples.Storing.{rate_of}

abbrev one : List ExchangeRate
one = rate_of (codes "USD") (codes "1.1") (start_of_day 2) ∷ []

abbrev two : List ExchangeRate
two = rate_of (codes "USD") (codes "1.2") (start_of_day 2) ∷ []

abbrev setter_one : Setter Text
setter_one = record {
  id = codes "0";
  base_currency = codes "EUR";
  quote_currency = codes "USD";
  rate = codes "1.1";
  effective_date = start_of_day 2;
  source = codes "feed";
  source_published_at = none;
}

abbrev state : List (Row Text) → ClientPhase memory → ClientPhase memory → Clients memory
state w p q = record {
  world = w;
  clients = record { batch = one; phase = p } ∷ record { batch = two; phase = q } ∷ [];
}

abbrev client : List ExchangeRate → ClientPhase memory → Client memory
client b p = record { batch = b; phase = p }

abbrev rows_one : List (Row Text)
rows_one = upsert_row setter_one zero_time []

begun : ClientStep memory (opened memory [] (one ∷ two ∷ [])) (state [] (sending 0 one []) waiting)
unfolding open_client advance after_begin
begun = answered [] (client two waiting ∷ []) (client one waiting) refl tt refl

inserted :
    ClientStep memory
      (state [] (sending 0 one []) waiting)
      (state [] (sending 1 [] ((setter_one, zero_time) ∷ [])) waiting)
unfolding advance after_insert upsert_one to_exchange_rate_setter is_zero print_nat start_of_day
inserted = answered [] (client two waiting ∷ []) (client one (sending 0 one [])) refl tt refl

second_begun :
    ClientStep memory
      (state [] (sending 1 [] ((setter_one, zero_time) ∷ [])) waiting)
      (state [] (sending 1 [] ((setter_one, zero_time) ∷ [])) (sending 0 two []))
unfolding advance after_begin
second_begun =
    answered (client one (sending 1 [] ((setter_one, zero_time) ∷ [])) ∷ []) [] (client two waiting)
      refl tt refl

committed_first :
    ClientStep memory
      (state [] (sending 1 [] ((setter_one, zero_time) ∷ [])) (sending 0 two []))
      (state rows_one (returned none) (sending 0 two []))
unfolding advance after_commit
committed_first =
    answered [] (client two (sending 0 two []) ∷ [])
      (client one (sending 1 [] ((setter_one, zero_time) ∷ []))) refl tt refl

conflict : Text
conflict = codes "could not serialize access"

abbrev last_state : Clients memory
last_state = state rows_one (returned none) (returned (some conflict))

lost : ClientStep memory (state rows_one (returned none) (sending 0 two [])) last_state
lost =
    refused (client one (returned none) ∷ []) [] (client two (sending 0 two [])) conflict refl tt
      refl

run : ClientSteps memory (opened memory [] (one ∷ two ∷ [])) 5 last_state
run =
    and_step
      (and_step (and_step (and_step (and_step no_step begun refl) inserted refl) second_begun refl)
        committed_first refl)
      lost refl

upsert_rates-IsSerial_example :
    (map (λ (c : Client memory). c.batch) last_state.clients ≡ one ∷ two ∷ [])
    × ((order : List (List ExchangeRate)) × Perm order (stored_batches last_state.clients)
        × IsSerial memory memory_laws [] order rows_one)
    × (IsUnique {Amount = Text} [] → IsUnique rows_one)
upsert_rates-IsSerial_example =
    upsert_rates-IsSerial memory memory_laws [] (one ∷ two ∷ []) 5 last_state run

clients_return_example :
    (5 ≤ most_calls memory (one ∷ two ∷ []))
    × ((m : ℕ) × (u : Clients memory) × ClientSteps memory last_state m u
        × All (HasReturned memory) u.clients)
clients_return_example = clients_return memory [] (one ∷ two ∷ []) 5 last_state run
