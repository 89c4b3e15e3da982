-- ===== src/Events/Lanes/Examples.antt =====
-- A lane that is opened on a machine with the state file of the old single stream.
use Prim.Native.String.{◌++◌}
use aikey_proxy.Prelude.{
  String, ◌≡◌, refl, ok, List, [], ◌∷◌, none, false, empty_map, ◌+◌, ◌*◌, ◌<◌, arith,
}
use aikey_proxy.Prelude.Maps.{insert}
use aikey_proxy.Prelude.Words.{pos}
use aikey_proxy.Events.StateFile.{
  Fs, no_faults, decimal, stored, parse_state, read_state, load_seq_state, commit_temp, close_temp,
  sync_temp, write_temp, write_seq_state_atomic,
}
use aikey_proxy.Events.SeqAlloc.{SeqAllocator, effective_block, started, new_seq_allocator}
use aikey_proxy.Events.SeqAlloc.Run.{Action, draw, restart, run}
use aikey_proxy.Events.SeqAlloc.Inv.{Above}
use aikey_proxy.Events.SeqAlloc.NeverReused.{cold, IsDecreasing}
use aikey_proxy.Events.Lanes.{
  LaneFaults, LaneAllocator, Opened, new_lane_allocator, for_lane, pending_floor, lane_path,
  lane_state_file,
}
use aikey_proxy.Events.Lanes.Seeded.{lane_never_reuses}

abbrev join : String → String → String
join dir file = dir ++ "/" ++ file

abbrev old_machine : Fs
old_machine = record { files = insert "wal/seq.state" (decimal (pos 10)) empty_map; temp = none }

abbrev no_lane_faults : LaneFaults
no_lane_faults = record { stat = false; legacy = no_faults; seed = no_faults; own = no_faults }

abbrev four : LaneAllocator
four = new_lane_allocator 4

abbrev first_lane : SeqAllocator
first_lane = record {
  state_path = "wal/seq.acme.state";
  block_size = 4;
  next = 11;
  reserved_hi = 10;
}

abbrev opening : Opened join "wal"
opening = for_lane join "wal" no_lane_faults four "acme" old_machine

abbrev later : List Action
later = draw no_faults ∷ restart no_faults ∷ draw no_faults ∷ []

opened_first : opening.0 ≡ ok first_lane
unfolding for_lane new_lane_allocator effective_block started new_seq_allocator load_seq_state
    read_state parse_state write_seq_state_atomic write_temp sync_temp close_temp commit_temp
    lane_state_file
opened_first = refl

not_yet : four.lanes "acme" ≡ none
unfolding new_lane_allocator
not_yet = refl

no_file : old_machine.files (lane_path join "wal" "acme") ≡ none
unfolding lane_state_file
no_file = refl

old_mark : stored "wal/seq.state" old_machine ≡ ok 10
unfolding load_seq_state read_state parse_state
old_mark = refl

room : 10 + effective_block four.block_size * 4 < 9223372036854775808
unfolding effective_block new_lane_allocator
room = omega arith

lane_never_reuses_example :
    (first_lane.next ≡ 10 + 1)
    × (pending_floor opening.1 "acme" ≡ 10)
    × IsDecreasing (run "wal/seq.acme.state" four.block_size (cold opening.2) later).issued
    × Above 10 (run "wal/seq.acme.state" four.block_size (cold opening.2) later).issued
unfolding lane_state_file
lane_never_reuses_example =
    lane_never_reuses join "wal" "acme" 10 no_lane_faults four old_machine (omega arith)
      (omega arith) not_yet no_file refl old_mark first_lane later opened_first room
