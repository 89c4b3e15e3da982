-- ===== src/Events/DeadLetter/Examples.antt =====
-- A queue of which one batch is delivered.

use aikey_proxy.Prelude.{List, [], eqb, false, refl, some, ℕ, ◌∷◌, ◌≡◌}
use aikey_proxy.Events.Wal.{Event}
use aikey_proxy.Events.Reporter.{url_for_route_source}
use aikey_proxy.Events.DeadLetter.{
  DeadLetterEntry, Delivery, Line, blank, entry, holds, malformed, replay_dead_letter, usage,
}
use aikey_proxy.Events.DeadLetter.Replay.{Safe, replay_dead_letter-Safe}
use aikey_proxy.Events.Reporter.Examples.{start}

abbrev event : Event
event = record {
  event_id = "e";
  org_id = "";
  route_source = "team";
  source_id = "src";
  source_seq = some 7;
}

abbrev batch : DeadLetterEntry
batch = record { kind = usage; route_source = ""; events = event ∷ []; payloads = [] }

abbrev queue : List Line
queue = malformed "torn" ∷ entry batch ∷ blank ∷ entry batch ∷ []

-- The second line scanned is taken, the third is not.
abbrev deliveries : ℕ → Delivery
deliveries n = record { canceled = false; marshal_fails = false; delivers = λ e. eqb n 1 }

two_left :
    (replay_dead_letter start deliveries (record { write = false; rename = false }) (holds queue)).2
    ≡ holds (malformed "torn" ∷ entry batch ∷ [])
unfolding replay_dead_letter url_for_route_source
two_left = refl

replay_dead_letter-Safe_example :
    Safe start deliveries queue
      (replay_dead_letter start deliveries (record { write = false; rename = false }) (holds queue))
replay_dead_letter-Safe_example =
    replay_dead_letter-Safe start deliveries (record { write = false; rename = false }) queue
