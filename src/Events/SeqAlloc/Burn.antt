-- ===== src/Events/SeqAlloc/Burn.antt =====
-- What a close and a crash cost: the numbers that are never handed out.
use aikey_proxy.Prelude.{ℕ, ◌+◌, ◌*◌, ◌≤◌, ◌<◌, ◌≡◌, subst, arith, String, some, List, ok}
use aikey_proxy.Prelude.Lists.{length}
use aikey_proxy.Prelude.Words.{sign_bound, add64}
use aikey_proxy.Events.StateFile.{Fs, no_faults, stored}
use aikey_proxy.Events.SeqAlloc.{SeqAllocator, effective_block, started, new_seq_allocator, close}
use aikey_proxy.Events.SeqAlloc.Run.{Action, run}
use aikey_proxy.Events.SeqAlloc.Inv.{IsLive, Live}
use aikey_proxy.Events.SeqAlloc.Inv.Close.{close-disk}
use aikey_proxy.Events.SeqAlloc.Inv.Kept.{with_alloc}
use aikey_proxy.Events.SeqAlloc.NeverReused.{cold, cold-Inv}

-- Where an allocator starts, if its file can be read.
abbrev pub StartsAt : String → ℕ → Fs → (ℕ → Type 0) → Type 0
StartsAt path b fs P =
    (a : SeqAllocator) × (new_seq_allocator no_faults path b fs ≡ ok a) × P a.next

start_at :
    (path : String) (b hi : ℕ) (fs : Fs)
    → hi + 1 < sign_bound
    → stored path fs ≡ ok hi
    → StartsAt path b fs (λ n. n ≡ hi + 1)
unfolding new_seq_allocator started
start_at path b hi fs fits disk = (
  record { state_path = path; block_size = effective_block b; next = add64 hi 1; reserved_hi = hi },
  rw disk,
  omega arith,
)

module _ (path : String) (b hi : ℕ) (fs : Fs) (cs : List Action) (pos : 0 < effective_block b)
    (disk : stored path fs ≡ ok hi) (fits : hi + effective_block b * (length cs + 2) < sign_bound)
    (a : SeqAllocator) (runs : (run path b (cold fs) cs).alloc ≡ some a) where
  -- After any history that leaves an allocator, a process that dies and starts again without a fault skips at most one block of numbers: it resumes at or above the number that it would have handed out next, and at most one block higher. The marks stay below 2 ^ 63.
  pub crash_burn :
      StartsAt path b
        (run path b (cold fs) cs).fs
        (λ n. (a.next ≤ n) × (n ≤ a.next + effective_block b))
  crash_burn =
      let (hi', grown, inv) = cold-Inv path b hi fs cs pos disk (grind arith) in
      let live : IsLive path (effective_block b) hi hi' (run path b (cold fs) cs).issued a =
        subst (Live path (effective_block b) hi hi' _) runs inv.live in
      let (a', starts, e) = start_at path b hi' _ (grind arith) inv.disk in
      (a', starts, (omega (arith, e, live.within), omega (arith, e, live.bounded)))

  -- After any history that leaves an allocator, a close without a fault skips no number: the next start without a fault resumes exactly at the number that would have been handed out next. The marks stay below 2 ^ 63.
  pub close_burn :
      StartsAt path b (close no_faults a (run path b (cold fs) cs).fs).2 (λ n. n ≡ a.next)
  close_burn =
      let (hi', grown, inv) = cold-Inv path b hi fs cs pos disk (grind arith) in
      let live : IsLive path (effective_block b) hi hi' (run path b (cold fs) cs).issued a =
        subst (Live path (effective_block b) hi hi' _) runs inv.live in
      let (used, e, left) =
        close-disk path (effective_block b) hi pos hi' (run path b (cold fs) cs).issued a
          (run path b (cold fs) cs).fs
          (with_alloc path (effective_block b) hi pos _ (some a) hi' inv runs) in
      let (a', starts, e') = start_at path b used _ (grind arith) left in
      (a', starts, omega (arith, e, e'))
