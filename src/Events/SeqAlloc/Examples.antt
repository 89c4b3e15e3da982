-- ===== src/Events/SeqAlloc/Examples.antt =====
-- Concrete runs of a sequence allocator.
use aikey_proxy.Prelude.{
  true, ℕ, ◌+◌, ◌*◌, ◌≤◌, ◌<◌, ◌≡◌, refl, arith, none, some, List, [], ◌∷◌, ok, empty_map,
}
use aikey_proxy.Prelude.Maps.{insert}
use aikey_proxy.Prelude.Words.{pos}
use aikey_proxy.Events.StateFile.{
  Fs, Faults, no_faults, decimal, stored, parse_state, read_state, load_seq_state, commit_temp,
  close_temp, sync_temp, write_temp, write_seq_state_atomic,
}
use aikey_proxy.Events.SeqAlloc.{
  SeqAllocator, effective_block, started, new_seq_allocator, hand_out, reserved, next_seq, close,
}
use aikey_proxy.Events.SeqAlloc.Run.{Action, draw, restart, run, step, drawn}
use aikey_proxy.Events.SeqAlloc.Inv.{Above}
use aikey_proxy.Events.SeqAlloc.NeverReused.{cold, IsDecreasing, issued-run-IsDecreasing}
use aikey_proxy.Events.SeqAlloc.Burn.{StartsAt, crash_burn, close_burn}

-- A file with the mark 10.
abbrev disk : Fs
disk = record { files = insert "seq.state" (decimal (pos 10)) empty_map; temp = none }

-- The disk is full for one reservation.
abbrev full_disk : Faults
full_disk = record no_faults { write = true }

abbrev history : List Action
history =
    restart no_faults ∷ draw no_faults ∷ draw full_disk ∷ restart no_faults ∷ draw no_faults ∷ []

abbrev left : SeqAllocator
left = record { state_path = "seq.state"; block_size = 4; next = 16; reserved_hi = 18 }

block_pos : 0 < effective_block 4
unfolding effective_block
block_pos = omega arith

disk_mark : stored "seq.state" disk ≡ ok 10
unfolding load_seq_state read_state parse_state
disk_mark = refl

history_fits : (n : ℕ) → n ≤ 7 → 10 + effective_block 4 * n < 9223372036854775808
unfolding effective_block
history_fits n h = omega (arith, h)

history_runs : (run "seq.state" 4 (cold disk) history).alloc ≡ some left
unfolding run step drawn new_seq_allocator started effective_block next_seq reserved hand_out
    load_seq_state read_state parse_state write_seq_state_atomic write_temp sync_temp close_temp
    commit_temp
history_runs = refl

-- The numbers of the run, the latest first.
history_issues : (run "seq.state" 4 (cold disk) history).issued ≡ 15 ∷ 12 ∷ 11 ∷ []
unfolding run step drawn new_seq_allocator started effective_block next_seq reserved hand_out
    load_seq_state read_state parse_state write_seq_state_atomic write_temp sync_temp close_temp
    commit_temp
history_issues = refl

issued-run-IsDecreasing_example :
    IsDecreasing (run "seq.state" 4 (cold disk) history).issued
    × Above 10 (run "seq.state" 4 (cold disk) history).issued
issued-run-IsDecreasing_example =
    issued-run-IsDecreasing "seq.state" 4 10 disk history block_pos disk_mark
      (history_fits 6 (omega arith))

crash_burn_example :
    StartsAt "seq.state" 4
      (run "seq.state" 4 (cold disk) history).fs
      (λ n. (16 ≤ n) × (n ≤ 16 + effective_block 4))
crash_burn_example =
    crash_burn "seq.state" 4 10 disk history block_pos disk_mark (history_fits 7 (omega arith)) left
      history_runs

close_burn_example :
    StartsAt "seq.state" 4
      (close no_faults left (run "seq.state" 4 (cold disk) history).fs).2
      (λ n. n ≡ 16)
close_burn_example =
    close_burn "seq.state" 4 10 disk history block_pos disk_mark (history_fits 7 (omega arith)) left
      history_runs
