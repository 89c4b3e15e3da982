-- ===== src/Events/Lanes.antt =====
-- `LaneAllocator` of internal/events/seqalloc_lane.go: one sequence allocator for each delivery
-- lane, and `LaneOfOrg` of lane.go.
--
-- `dir` is the directory of the write-ahead log, `join` is filepath.Join.
pub mod Seeded
mod Examples
use Prim.Native.Char.{Char, code}
use Prim.Native.String.{◌++◌}
use aikey_proxy.Prelude.{
  ℕ, String, Bool, true, false, Option, none, some, List, Map, empty_map, Result, ok, err, ◌==◌,
  ◌&&◌, ◌||◌, not, leb, eqb, ltb, if◌then◌else◌,
}
use aikey_proxy.Prelude.Maps.{insert, erase}
use aikey_proxy.Prelude.Words.{slt64}
use aikey_proxy.Events.StateFile.{
  Faults, Fs, StateText, SeqError, load_seq_state, write_seq_state_atomic,
}
use aikey_proxy.Events.SeqAlloc.{
  SeqAllocator, Draw, Closing, effective_block, new_seq_allocator, next_seq, allocated, close,
}

-- The events of the liveness probe have no lane, and those without an org share one.
unfoldable pub lane_of_org : String → String
lane_of_org org_id =
    if org_id == "__canary__" then "" else if org_id == "" then "personal" else org_id

within : ℕ → ℕ → ℕ → Bool
within a b c = leb a c && leb c b

is_lane_char : ℕ → Bool
unfolding within
is_lane_char c =
    within b'a' b'z' c || within b'A' b'Z' c || within b'0' b'9' c || eqb c b'-' || eqb c b'_'

sanitize_runes : String → String
unfolding is_lane_char
sanitize_runes String.[] = ""
sanitize_runes (String.◌∷◌ c s) =
    (if is_lane_char (code c) then String.◌∷◌ c "" else "_") ++ sanitize_runes s

pub sanitize_lane : String → String
unfolding sanitize_runes
sanitize_lane lane = if lane == "" then "unknown" else sanitize_runes lane

pub lane_state_file : String → String
unfolding sanitize_lane
lane_state_file lane = "seq." ++ sanitize_lane lane ++ ".state"

abbrev pub legacy_seq_state_file : String
legacy_seq_state_file = "seq.state"

-- What fails while a lane is opened: the test for its file (for another reason than a missing
-- file), the read of the old stream's file, the seeding write and the allocator's own read.
pub record LaneFaults : Type 0 where
  pub stat : Bool
  pub legacy : Faults
  pub seed : Faults
  pub own : Faults

pub data LaneError : Type 0 where
  legacy_unreadable seed_failed open_failed : SeqError → LaneError
  next_failed : SeqError → LaneError

pub record LaneAllocator : Type 0 where
  pub block_size : ℕ
  pub lanes : Map SeqAllocator
  pub pending_floor : Map ℕ

pub new_lane_allocator : ℕ → LaneAllocator
new_lane_allocator block = record {
  block_size = effective_block block;
  lanes = empty_map;
  pending_floor = empty_map;
}

module _ (join : String → String → String) (dir : String) where
  abbrev pub lane_path : String → String
  lane_path lane = join dir (lane_state_file lane)

  abbrev pub legacy_path : String
  legacy_path = join dir legacy_seq_state_file

  abbrev pub Opened : Type 0
  Opened = Result LaneError SeqAllocator × LaneAllocator × Fs

  opened : LaneAllocator → String → Fs → Result SeqError SeqAllocator → Opened
  opened l lane fs (ok a) = (ok a, record l { lanes = insert lane a l.lanes }, fs)
  opened l lane fs (err e) = (err (open_failed e), l, fs)

  open_lane : LaneFaults → LaneAllocator → String → Fs → Opened
  unfolding opened
  open_lane faults l lane fs =
      opened l lane fs (new_seq_allocator faults.own (lane_path lane) l.block_size fs)

  -- The seeding write is done, and its floor is owed to the collector.
  seeded : LaneFaults → LaneAllocator → String → ℕ → Result SeqError Unit × Fs → Opened
  unfolding open_lane
  seeded faults l lane legacy_hi (ok _, fs) =
      open_lane faults (record l { pending_floor = insert lane legacy_hi l.pending_floor }) lane fs
  seeded faults l lane legacy_hi (err e, fs) = (err (seed_failed e), l, fs)

  seed_lane : LaneFaults → LaneAllocator → String → Fs → Result SeqError ℕ → Opened
  unfolding seeded open_lane
  seed_lane faults l lane fs (ok legacy_hi) =
      if slt64 0 legacy_hi
      then seeded faults l lane legacy_hi
          (write_seq_state_atomic faults.seed (lane_path lane) legacy_hi fs)
      else open_lane faults l lane fs
  seed_lane faults l lane fs (err e) = (err (legacy_unreadable e), l, fs)

  -- os.IsNotExist(os.Stat(path))
  missing : Bool → Option StateText → Bool
  missing stat none = not stat
  missing stat (some text) = false

  not_there : LaneFaults → String → Fs → Bool
  unfolding missing
  not_there faults path fs = missing faults.stat (fs.files path)

  start_lane : LaneFaults → LaneAllocator → String → Fs → Opened
  unfolding not_there seed_lane open_lane
  start_lane faults l lane fs =
      if not_there faults (lane_path lane) fs
      then seed_lane faults l lane fs (load_seq_state faults.legacy legacy_path fs)
      else open_lane faults l lane fs

  found_or_start : Option SeqAllocator → LaneFaults → LaneAllocator → String → Fs → Opened
  unfolding start_lane
  found_or_start (some a) faults l lane fs = (ok a, l, fs)
  found_or_start none faults l lane fs = start_lane faults l lane fs

  pub for_lane : LaneFaults → LaneAllocator → String → Fs → Opened
  unfolding found_or_start
  for_lane faults l lane fs = found_or_start (l.lanes lane) faults l lane fs

  -- The allocator is shared by reference: what it becomes is put back under its lane.
  abbrev LaneDraw : Type 0
  LaneDraw = Result LaneError ℕ × LaneAllocator × Fs

  drawn_lane : LaneAllocator → String → Draw → LaneDraw
  drawn_lane l lane (ok seq, a, fs) = (ok seq, record l { lanes = insert lane a l.lanes }, fs)
  drawn_lane l lane (err e, a, fs) =
      (err (next_failed e), record l { lanes = insert lane a l.lanes }, fs)

  next_of : Faults → String → Opened → LaneDraw
  unfolding drawn_lane
  next_of faults lane (ok a, l, fs) = drawn_lane l lane (next_seq faults a fs)
  next_of faults lane (err e, l, fs) = (err e, l, fs)

  pub next_lane : LaneFaults → Faults → LaneAllocator → String → Fs → LaneDraw
  unfolding next_of for_lane
  next_lane opening drawing l lane fs = next_of drawing lane (for_lane opening l lane fs)

  allocated_of : Opened → ℕ × LaneAllocator × Fs
  allocated_of (ok a, l, fs) = (allocated a, l, fs)
  allocated_of (err e, l, fs) = (0, l, fs)

  pub allocated_lane : LaneFaults → LaneAllocator → String → Fs → ℕ × LaneAllocator × Fs
  unfolding allocated_of for_lane
  allocated_lane faults l lane fs = allocated_of (for_lane faults l lane fs)

  abbrev LaneClosing : Type 0
  LaneClosing = Option SeqError × LaneAllocator × Fs

  first_error : Option SeqError → Result SeqError Unit → Option SeqError
  first_error none (ok u) = none
  first_error none (err e) = some e
  first_error (some e) r = some e

  closed_lane : Option SeqError → LaneAllocator → String → Closing → LaneClosing
  unfolding first_error
  closed_lane first l lane (r, a, fs) =
      (first_error first r, record l { lanes = insert lane a l.lanes }, fs)

  close_one : Faults → Option SeqAllocator → String → LaneClosing → LaneClosing
  unfolding closed_lane
  close_one faults none lane c = c
  close_one faults (some a) lane (first, l, fs) = closed_lane first l lane (close faults a fs)

  -- The lanes in the order in which the map is walked, each with the faults of its close.
  close_from : List (String × Faults) → LaneClosing → LaneClosing
  unfolding close_one
  close_from List.[] c = c
  close_from (List.◌∷◌ (lane, faults) rest) c =
      close_from rest (close_one faults (c.1.lanes lane) lane c)

  pub close_lanes : List (String × Faults) → LaneAllocator → Fs → LaneClosing
  unfolding close_from
  close_lanes order l fs = close_from order (none, l, fs)

-- The zero value of a missing key.
or_zero : Option ℕ → ℕ
or_zero none = 0
or_zero (some floor) = floor

-- 0 if nothing is owed
pub pending_floor : LaneAllocator → String → ℕ
unfolding or_zero
pending_floor l lane = or_zero (l.pending_floor lane)

pub clear_pending_floor : LaneAllocator → String → LaneAllocator
clear_pending_floor l lane = record l { pending_floor = erase lane l.pending_floor }
