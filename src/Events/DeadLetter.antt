-- ===== src/Events/DeadLetter.antt =====
-- The queue of failed batches: internal/events/dead_letter.go.
--
-- The file is the list of its lines. What the JSON decoder makes of a line is its constructor.
-- `Delivery` is what happens to the line that is scanned as the n-th: whether the context has
-- ended, whether the encoding fails and whether the destination takes an entry. The writer is
-- configured; the text of the last error and the diagnostics of an entry are left out.
pub mod Replay
mod Examples
use aikey_proxy.Prelude.Lists.{length}
use aikey_proxy.Events.Wal.{Event}
use aikey_proxy.Events.Reporter.{Reporter, url_for_route_source}
use aikey_proxy.Prelude.{
  Bool, List, Option, String, [], if◌then◌else◌, none, not, some, ◌++◌, ◌+◌, ◌==◌, ◌||◌, ◌∷◌, ℕ,
}

pub data Kind : Type 0 where
  usage compliance : Kind

pub record DeadLetterEntry : Type 0 where
  pub kind : Kind
  pub route_source : String
  pub events : List Event
  pub payloads : List String

pub data Line : Type 0 where
  blank : Line
  malformed : String → Line
  entry : DeadLetterEntry → Line

pub record Delivery : Type 0 where
  pub canceled : Bool
  pub marshal_fails : Bool
  pub delivers : DeadLetterEntry → Bool

pub record ReplayResult : Type 0 where
  pub entries_scanned : ℕ
  pub entries_replayed_ok : ℕ
  pub entries_still_failing : ℕ
  pub events_replayed_ok : ℕ
  pub events_still_failing : ℕ

-- The result so far and the lines that stay.
pub record Replaying : Type 0 where
  pub result : ReplayResult
  pub keep_lines : List Line

by_kind : Kind → ℕ → ℕ → ℕ
by_kind usage events payloads = events
by_kind compliance events payloads = payloads

deliverable_count : DeadLetterEntry → ℕ
unfolding by_kind
deliverable_count e = by_kind e.kind (length e.events) (length e.payloads)

first_route : List Event → String
first_route [] = ""
first_route (ev ∷ events) = ev.route_source

keeps : Line → Replaying → Replaying
keeps line p = record p { keep_lines = p.keep_lines ++ (line ∷ []) }

-- The entry still fails, with so many events.
still_failing : DeadLetterEntry → ℕ → Replaying → Replaying
unfolding keeps
still_failing e n p = keeps (entry e) (record p {
  result = record p.result {
    entries_still_failing = p.result.entries_still_failing + 1;
    events_still_failing = p.result.events_still_failing + n;
  };
})

replayed : ℕ → Replaying → Replaying
replayed n p = record p {
  result = record p.result {
    entries_replayed_ok = p.result.entries_replayed_ok + 1;
    events_replayed_ok = p.result.events_replayed_ok + n;
  };
}

replay_compliance_entry : DeadLetterEntry → Delivery → Replaying → Replaying
unfolding still_failing replayed
replay_compliance_entry e d p =
    if d.delivers e then replayed (length e.payloads) p else still_failing e (length e.payloads) p

-- The destination is that of the current configuration.
replay_usage_entry : Reporter → DeadLetterEntry → Delivery → Replaying → Replaying
unfolding still_failing replayed first_route
replay_usage_entry r e d p =
    if url_for_route_source r (first_route e.events) == "" || d.marshal_fails || not (d.delivers e)
    then still_failing e (length e.events) p
    else replayed (length e.events) p

replay_kind : Kind → Reporter → DeadLetterEntry → Delivery → Replaying → Replaying
unfolding replay_usage_entry replay_compliance_entry
replay_kind usage r e d p = replay_usage_entry r e d p
replay_kind compliance r e d p = replay_compliance_entry e d p

scanned : Replaying → Replaying
scanned p = record p { result = record p.result { entries_scanned = p.result.entries_scanned + 1 } }

replay_line : Reporter → (ℕ → Delivery) → Line → Replaying → Replaying
unfolding scanned keeps still_failing replay_kind deliverable_count
replay_line r world blank p = p
replay_line r world (malformed text) p = keeps (malformed text) (scanned p)
replay_line r world (entry e) p =
    let d = world p.result.entries_scanned in
    if d.canceled
    then still_failing e (deliverable_count e) (scanned p)
    else replay_kind e.kind r e d (scanned p)

replay_lines : Reporter → (ℕ → Delivery) → List Line → Replaying → Replaying
unfolding replay_line
replay_lines r world [] p = p
replay_lines r world (line ∷ lines) p = replay_lines r world lines (replay_line r world line p)

-- The file is not there, cannot be read, or holds lines.
pub data QueueFile : Type 0 where
  absent unreadable : QueueFile
  holds : List Line → QueueFile

pub data ReplayError : Type 0 where
  read_failed write_failed rename_failed : ReplayError

pub record WriteFaults : Type 0 where
  pub write : Bool
  pub rename : Bool

abbrev pub no_replay : ReplayResult
no_replay = record {
  entries_scanned = 0;
  entries_replayed_ok = 0;
  entries_still_failing = 0;
  events_replayed_ok = 0;
  events_still_failing = 0;
}

abbrev pub Replayed : Type 0
Replayed = ReplayResult × Option ReplayError × QueueFile

-- The file is rewritten by a temporary one and a rename.
rewritten : WriteFaults → List Line → Replaying → Replayed
rewritten faults lines p =
    if faults.write
    then (p.result, some write_failed, holds lines)
    else if faults.rename
    then (p.result, some rename_failed, holds lines)
    else (p.result, none, holds p.keep_lines)

unfoldable pub replay_dead_letter : Reporter → (ℕ → Delivery) → WriteFaults → QueueFile → Replayed
unfolding rewritten replay_lines
replay_dead_letter r world faults absent = (no_replay, none, absent)
replay_dead_letter r world faults unreadable = (no_replay, some read_failed, unreadable)
replay_dead_letter r world faults (holds lines) =
    rewritten faults lines
      (replay_lines r world lines (record { result = no_replay; keep_lines = [] }))

appended : List Event → List Line → List Line
appended batch lines =
    lines
    ++ (entry (record { kind = usage; route_source = ""; events = batch; payloads = [] }) ∷ [])

-- How an append goes: the entry is written; the file cannot be opened (or the entry not encoded); or
-- the write fails, which leaves the lines that stand there then: the start of the entry, if any.
pub data Append : Type 0 where
  written not_opened : Append
  cut_short : List Line → Append

append_to : Append → List Event → List Line → QueueFile → QueueFile
unfolding appended
append_to written batch lines file = holds (appended batch lines)
append_to not_opened batch lines file = file
append_to (cut_short torn) batch lines file = holds (lines ++ torn)

-- `writeDeadLetter`: a failure is only logged. What is in a file that cannot be read is not known.
pub write_dead_letter : Append → List Event → QueueFile → QueueFile
unfolding append_to
write_dead_letter outcome batch absent = append_to outcome batch [] absent
write_dead_letter outcome batch unreadable = unreadable
write_dead_letter outcome batch (holds lines) = append_to outcome batch lines (holds lines)

pub record DeadLetterCounts : Type 0 where
  pub total : ℕ
  pub compliance_entries : ℕ
  pub compliance_events : ℕ

count_kind : Kind → ℕ → DeadLetterCounts → DeadLetterCounts
count_kind usage payloads c = c
count_kind compliance payloads c = record c {
  compliance_entries = c.compliance_entries + 1;
  compliance_events = c.compliance_events + payloads;
}

count_line : Line → DeadLetterCounts → DeadLetterCounts
unfolding count_kind
count_line blank c = c
count_line (malformed text) c = record c { total = c.total + 1 }
count_line (entry e) c = count_kind e.kind (length e.payloads) (record c { total = c.total + 1 })

count_lines : List Line → DeadLetterCounts → DeadLetterCounts
unfolding count_line
count_lines [] c = c
count_lines (line ∷ lines) c = count_lines lines (count_line line c)

abbrev no_counts : DeadLetterCounts
no_counts = record { total = 0; compliance_entries = 0; compliance_events = 0 }

pub counts : QueueFile → DeadLetterCounts
unfolding count_lines
counts absent = no_counts
counts unreadable = no_counts
counts (holds lines) = count_lines lines no_counts
