-- ===== src/Events/SeqAlloc/NeverReused.antt =====
-- No number is handed out twice, whatever fails and however often the process dies.
use aikey_proxy.Prelude.{ℕ, ◌+◌, ◌*◌, ◌<◌, ◌≤◌, ◌≡◌, refl, arith, String, none, List, [], ◌∷◌, ok}
use aikey_proxy.Prelude.Lists.{length}
use aikey_proxy.Prelude.Words.{sign_bound}
use aikey_proxy.Events.StateFile.{Fs, stored}
use aikey_proxy.Events.SeqAlloc.{effective_block}
use aikey_proxy.Events.SeqAlloc.Run.{Action, Process, run}
use aikey_proxy.Events.SeqAlloc.Inv.{Below, Above, Inv}
use aikey_proxy.Events.SeqAlloc.Inv.Kept.{run-Inv}

-- A source before its first start in this run: earlier processes left the mark `hi` on the disk.
abbrev pub cold : Fs → Process
cold fs = record { alloc = none; fs = fs; issued = [] }

abbrev pub IsDecreasing : List ℕ → Type 0
IsDecreasing [] = Unit {0}
IsDecreasing (s ∷ ss) = Below s ss

Below-IsDecreasing : (n : ℕ) (ss : List ℕ) → Below n ss → IsDecreasing ss
Below-IsDecreasing n [] h = tt
Below-IsDecreasing n (s ∷ ss) h = h.1

module _ (path : String) (b hi : ℕ) (fs : Fs) (cs : List Action) (pos : 0 < effective_block b)
    (disk : stored path fs ≡ ok hi)
    (fits : hi + effective_block b * (length cs + 1) < sign_bound) where
  pub cold-Inv :
      (hi' : ℕ) × (hi' ≤ hi + effective_block b * length cs)
      × Inv path (effective_block b) hi hi' (run path b (cold fs) cs)
  cold-Inv = run-Inv path (effective_block b) hi pos b hi (cold fs) cs refl fits (record {
    fits = grind arith;
    disk = disk;
    burned = tt;
    floored = omega arith;
    above = tt;
    live = tt;
  })

  -- From any readable state file, whichever calls of the operating system fail and wherever the process is closed, killed and started again, every number handed out is above the mark that was on the disk and greater than all those handed out before it, as long as the marks stay below 2 ^ 63.
  pub issued-run-IsDecreasing :
      IsDecreasing (run path b (cold fs) cs).issued × Above hi (run path b (cold fs) cs).issued
  issued-run-IsDecreasing =
      let (hi', grown, inv) = cold-Inv in
      (Below-IsDecreasing (hi' + 1) (run path b (cold fs) cs).issued inv.burned, inv.above)
