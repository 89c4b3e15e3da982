-- ===== src/Events/Wal.antt =====
-- The write-ahead log of usage events: wal.go of internal/events, as the reporter reads it.
--
-- A file is named by its hour: the zero-padded name `usage-YYYYMMDD-HH.jsonl` sorts as the hour
-- does. A line that does not parse (a torn write) is `none`.
use aikey_proxy.Prelude.{
  ℕ, zero, suc, String, Bool, true, false, Option, none, some, List, [], ◌∷◌, ◌++◌, ◌==◌, ◌&&◌, ltb,
  leb, if◌then◌else◌,
}

-- The fields of `ReportableEvent` that the delivery reads.
pub record Event : Type 0 where
  pub event_id : String
  pub org_id : String
  pub route_source : String
  pub source_id : String
  pub source_seq : Option ℕ

pub record WalEntry : Type 0 where
  pub source_id : String
  pub source_seq : ℕ
  pub schema_version : ℕ
  pub event : Event

abbrev pub wal_schema_v2 : ℕ
wal_schema_v2 = 2

-- The envelope that `Append` writes.
with_seq : Event → Option ℕ → WalEntry
with_seq ev (some seq) = record {
  source_id = ev.source_id;
  source_seq = seq;
  schema_version = wal_schema_v2;
  event = ev;
}
with_seq ev none = record {
  source_id = ev.source_id;
  source_seq = 0;
  schema_version = 1;
  event = ev;
}

pub wal_entry : Event → WalEntry
unfolding with_seq
wal_entry ev = with_seq ev ev.source_seq

-- The entry takes part in the sequence numbering.
abbrev pub is_v2 : WalEntry → Bool
is_v2 e = leb wal_schema_v2 e.schema_version && ltb 0 e.source_seq

seq_or : Option ℕ → ℕ → Option ℕ
seq_or (some seq) own = some seq
seq_or none own = some own

-- The event of an entry, with the integrity fields filled in from the envelope.
unfoldable pub wire_event : WalEntry → Event
unfolding seq_or
wire_event e = record e.event {
  source_id = if e.event.source_id == "" then e.source_id else e.event.source_id;
  source_seq = seq_or e.event.source_seq e.source_seq;
}

pub record WalFile : Type 0 where
  pub hour : ℕ
  pub lines : List (Option WalEntry)

-- How the reads of the files end: `none` when the whole file is read, or the line at which it fails.
abbrev pub Reads : Type 0
Reads = ℕ → Option ℕ

-- The entries of the lines that parse.
pub parsed : List (Option WalEntry) → List WalEntry
parsed [] = []
parsed (none ∷ lines) = parsed lines
parsed (some e ∷ lines) = e ∷ parsed lines

upto : ℕ → List (Option WalEntry) → List (Option WalEntry)
upto zero lines = []
upto (suc n) [] = []
upto (suc n) (line ∷ lines) = line ∷ upto n lines

unfoldable pub read_lines : Option ℕ → List (Option WalEntry) → List WalEntry × Bool
unfolding parsed upto
read_lines none lines = (parsed lines, true)
read_lines (some n) lines = (parsed (upto n lines), false)

-- The entries read, and whether the read succeeded.
unfoldable pub read_wal_file : Reads → WalFile → List WalEntry × Bool
unfolding read_lines
read_wal_file reads f = read_lines (reads f.hour) f.lines

-- A file that cannot be read adds what was read of it, and nothing else tells the caller.
unfoldable pub read_all_wal : Reads → List WalFile → List WalEntry
unfolding read_wal_file
read_all_wal reads [] = []
read_all_wal reads (f ∷ files) = (read_wal_file reads f).0 ++ read_all_wal reads files
