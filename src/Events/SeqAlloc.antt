-- ===== src/Events/SeqAlloc.antt =====
-- `SeqAllocator` of internal/events/seqalloc.go: sequence numbers that are never handed out twice.
-- Every operation takes the faults of the operating system during it.
pub mod Run
pub mod Inv
pub mod NeverReused
pub mod Burn
mod Examples
use aikey_proxy.Prelude.{ℕ, ◌^◌, String, Result, ok, err, eqb, ltb, ◌||◌, not, if◌then◌else◌}
use aikey_proxy.Prelude.Words.{add64, sub64, slt64, sign_bound}
use aikey_proxy.Events.StateFile.{Faults, Fs, SeqError, load_seq_state, write_seq_state_atomic}

pub record SeqAllocator : Type 0 where
  pub state_path : String
  pub block_size : ℕ
  pub next : ℕ
  pub reserved_hi : ℕ

abbrev pub default_seq_block_size : ℕ
default_seq_block_size = 256

-- `blockSize <= 0` selects the default.
unfoldable pub effective_block : ℕ → ℕ
effective_block block = if not (slt64 0 block) then default_seq_block_size else block

unfoldable pub started : String → ℕ → Result SeqError ℕ → Result SeqError SeqAllocator
unfolding effective_block
started path block (err e) = err e
started path block (ok hi) = ok (record {
  state_path = path;
  block_size = effective_block block;
  next = add64 hi 1;
  reserved_hi = hi;
})

unfoldable pub new_seq_allocator : Faults → String → ℕ → Fs → Result SeqError SeqAllocator
unfolding started
new_seq_allocator faults path block fs = started path block (load_seq_state faults path fs)

-- The number that is handed out, the allocator and the files after it.
abbrev pub Draw : Type 0
Draw = Result SeqError ℕ × SeqAllocator × Fs

hand_out : SeqAllocator → Fs → Draw
hand_out a fs = (ok a.next, record a { next = add64 a.next 1 }, fs)

reserved : SeqAllocator → ℕ → Result SeqError Unit × Fs → Draw
unfolding hand_out
reserved a new_hi (ok _, fs) = hand_out (record a { reserved_hi = new_hi }) fs
reserved a new_hi (err e, fs) = (err e, a, fs)

pub next_seq : Faults → SeqAllocator → Fs → Draw
unfolding reserved
next_seq faults a fs =
    let new_hi = add64 a.reserved_hi a.block_size in
    if slt64 a.reserved_hi a.next
    then reserved a new_hi (write_seq_state_atomic faults a.state_path new_hi fs)
    else hand_out a fs

pub allocated : SeqAllocator → ℕ
allocated a = sub64 a.next 1

abbrev pub Closing : Type 0
Closing = Result SeqError Unit × SeqAllocator × Fs

shrunk : SeqAllocator → ℕ → Result SeqError Unit × Fs → Closing
shrunk a used (ok _, fs) = (ok tt, record a { reserved_hi = used }, fs)
shrunk a used (err e, fs) = (err e, a, fs)

pub close : Faults → SeqAllocator → Fs → Closing
unfolding shrunk
close faults a fs =
    let last = sub64 a.next 1 in
    let used = if slt64 last 0 then 0 else last in
    if eqb used a.reserved_hi
    then (ok tt, a, fs)
    else shrunk a used (write_seq_state_atomic faults a.state_path used fs)
