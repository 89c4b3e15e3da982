-- ===== src/Events/Lanes/Seeded.antt =====
-- A new lane starts above the numbers of the old single stream, and owes their span.
use aikey_proxy.Prelude.{
  ℕ, ◌+◌, ◌*◌, ◌<◌, ◌≡◌, refl, ap, ◌⊎◌, inl, inr, sym, ◌∙◌, arith, String, true, false, none, List,
  ok, err, Result,
}
use aikey_proxy.Prelude.Lists.{length}
use aikey_proxy.Prelude.Maps.{insert, insert_self}
use aikey_proxy.Prelude.Results.{ok-injective, err-ne-ok}
use aikey_proxy.Prelude.Words.{sign_bound, slt64}
use aikey_proxy.Events.StateFile.{
  Fs, SeqError, StateWrite, WritesAtomically, stored, stored-write, write_cases, load_cases,
  load_seq_state, read_failed,
}
use aikey_proxy.Events.SeqAlloc.{SeqAllocator, effective_block, started, new_seq_allocator}
use aikey_proxy.Events.SeqAlloc.Run.{Action, run}
use aikey_proxy.Events.SeqAlloc.Inv.{Above}
use aikey_proxy.Events.SeqAlloc.NeverReused.{cold, IsDecreasing, issued-run-IsDecreasing}
use aikey_proxy.Events.Lanes.{
  LaneAllocator, LaneFaults, Opened, lane_path, legacy_path, for_lane, start_lane, seed_lane,
  seeded, open_lane, opened, not_there, missing, found_or_start, or_zero, pending_floor,
}

effective_block_pos : (b : ℕ) → 0 < effective_block b
unfolding effective_block
effective_block_pos b = ground arith

module _ (join : String → String → String) (dir : String) (lane : String) (hi : ℕ) where
  -- A lane that opened starts right above the mark, which is on the disk and owed.
  abbrev Starts : Opened join dir → Type 0
  Starts (err e, l, fs) = Unit
  Starts (ok a, l, fs) =
      (a.next ≡ hi + 1)
      × (pending_floor l lane ≡ hi)
      × (stored (lane_path join dir lane) fs ≡ ok hi)

  started-Starts :
      (l : LaneAllocator) (fs : Fs) (r : Result SeqError ℕ)
      → hi + 1 < sign_bound
      → (r ≡ err read_failed) ⊎ (r ≡ ok hi)
      → pending_floor l lane ≡ hi
      → stored (lane_path join dir lane) fs ≡ ok hi
      → Starts (opened join dir l lane fs (started (lane_path join dir lane) l.block_size r))
  unfolding opened started pending_floor
  started-Starts l fs r fits (inl e) owed disk = rw e tt
  started-Starts l fs r fits (inr e) owed disk = rw e (omega arith, owed, disk)

  open-Starts :
      (faults : LaneFaults) (l : LaneAllocator) (fs : Fs)
      → hi + 1 < sign_bound
      → pending_floor l lane ≡ hi
      → stored (lane_path join dir lane) fs ≡ ok hi
      → Starts (open_lane join dir faults l lane fs)
  unfolding open_lane new_seq_allocator
  open-Starts faults l fs fits owed disk =
      started-Starts l fs (load_seq_state faults.own (lane_path join dir lane) fs) fits
        (elim (load_cases faults.own (lane_path join dir lane) fs) [
          | inl e ↦ inl e
          | inr e ↦ inr (e ∙ disk)
        ])
        owed disk

  owes :
      (l : LaneAllocator)
      → pending_floor (record l { pending_floor = insert lane hi l.pending_floor }) lane ≡ hi
  unfolding pending_floor
  owes l = ap or_zero (insert_self lane hi l.pending_floor)

  seeded-Starts :
      (faults : LaneFaults) (l : LaneAllocator) (fs : Fs) (w : StateWrite)
      → hi + 1 < sign_bound
      → WritesAtomically (lane_path join dir lane) hi fs w
      → Starts (seeded join dir faults l lane hi w)
  unfolding seeded
  seeded-Starts faults l fs (ok u, fs') fits (inl (e, written)) =
      open-Starts faults _ fs' fits (owes l)
        (stored-write (lane_path join dir lane) hi fs fs' (omega (arith, fits)) written)
  seeded-Starts faults l fs (ok u, fs') fits (inr (e, bad, same)) = absurd (err-ne-ok (sym bad))
  seeded-Starts faults l fs (err e, fs') fits w = tt

  opens :
      (r : Opened join dir) (a : SeqAllocator)
      → r.0 ≡ ok a
      → Starts r
      → (a.next ≡ hi + 1)
        × (pending_floor r.1 lane ≡ hi)
        × (stored (lane_path join dir lane) r.2 ≡ ok hi)
  opens (ok b, l, fs) a e s = rw (← ok-injective e) s
  opens (err b, l, fs) a e s = absurd (err-ne-ok e)

  module _ (faults : LaneFaults) (l : LaneAllocator) (fs : Fs) (pos : 0 < hi)
      (fits : hi + 1 < sign_bound) (unopened : l.lanes lane ≡ none)
      (absent : fs.files (lane_path join dir lane) ≡ none) (stat : faults.stat ≡ false)
      (legacy : stored (legacy_path join dir) fs ≡ ok hi) where
    positive : slt64 0 hi ≡ true
    positive = ground arith

    missing_file : missing join dir faults.stat (fs.files (lane_path join dir lane)) ≡ true
    unfolding missing
    missing_file = rw (absent, stat) refl

    seed-Starts : Starts (
        seed_lane join dir faults l lane fs
          (load_seq_state faults.legacy (legacy_path join dir) fs))
    unfolding seed_lane
    seed-Starts = elim (load_cases faults.legacy (legacy_path join dir) fs) [
      | inl e ↦ rw e tt
      | inr e ↦
          rw (e, legacy, positive)
            (seeded-Starts faults l fs _ fits
              (write_cases faults.seed (lane_path join dir lane) hi fs))
    ]

    for_lane-Starts : Starts (for_lane join dir faults l lane fs)
    unfolding for_lane found_or_start start_lane not_there
    for_lane-Starts = rw (unopened, missing_file) seed-Starts

    -- A lane without a state file, opened for the first time on a machine where the old single stream handed out numbers up to a mark, either fails to open or starts right above the mark and owes the span up to it; and whatever happens to the lane's allocator from then on, every number it hands out is above the mark, and greater than all those it handed out before, as long as the marks stay below 2 ^ 63.
    pub lane_never_reuses :
        (a : SeqAllocator) (cs : List Action)
        → (for_lane join dir faults l lane fs).0 ≡ ok a
        → hi + effective_block l.block_size * (length cs + 1) < sign_bound
        → let r = for_lane join dir faults l lane fs in
          let p = run (lane_path join dir lane) l.block_size (cold r.2) cs in
          (a.next ≡ hi + 1)
          × (pending_floor r.1 lane ≡ hi)
          × IsDecreasing p.issued
          × Above hi p.issued
    lane_never_reuses a cs e room =
        let s = opens (for_lane join dir faults l lane fs) a e for_lane-Starts in
        let later =
          issued-run-IsDecreasing (lane_path join dir lane) l.block_size hi
            (for_lane join dir faults l lane fs).2 cs (effective_block_pos l.block_size) s.2 room in
        (s.0, s.1, later.0, later.1)
