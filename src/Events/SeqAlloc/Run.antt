-- ===== src/Events/SeqAlloc/Run.antt =====
-- A source's allocator through calls, failing calls, closes, crashes and restarts, with the numbers
-- that it hands out.
use aikey_proxy.Prelude.{ℕ, Option, none, some, List, [], ◌∷◌, String, Result, ok, err}
use aikey_proxy.Events.StateFile.{Faults, Fs, SeqError}
use aikey_proxy.Events.SeqAlloc.{SeqAllocator, new_seq_allocator, next_seq, close, Draw, Closing}

-- What happens to a source: a number is asked for, the allocator is closed, or the process dies
-- (its memory is lost) and starts again.
pub data Action : Type 0 where
  draw shut restart : Faults → Action

-- `none`: the allocator could not start. `issued` is what was handed out, the latest first.
pub record Process : Type 0 where
  pub alloc : Option SeqAllocator
  pub fs : Fs
  pub issued : List ℕ

abbrev pub record_draw : List ℕ → Draw → Process
record_draw issued (ok seq, a, fs) = record { alloc = some a; fs = fs; issued = seq ∷ issued }
record_draw issued (err e, a, fs) = record { alloc = some a; fs = fs; issued = issued }

abbrev pub record_close : List ℕ → Closing → Process
record_close issued (r, a, fs) = record { alloc = some a; fs = fs; issued = issued }

abbrev pub record_start : Fs → List ℕ → Result SeqError SeqAllocator → Process
record_start fs issued (ok a) = record { alloc = some a; fs = fs; issued = issued }
record_start fs issued (err e) = record { alloc = none; fs = fs; issued = issued }

unfoldable pub drawn : Faults → Option SeqAllocator → Process → Process
drawn faults none p = p
drawn faults (some a) p = record_draw p.issued (next_seq faults a p.fs)

unfoldable pub closed : Faults → Option SeqAllocator → Process → Process
closed faults none p = p
closed faults (some a) p = record_close p.issued (close faults a p.fs)

unfoldable pub step : String → ℕ → Process → Action → Process
unfolding drawn closed
step path block p (draw faults) = drawn faults p.alloc p
step path block p (shut faults) = closed faults p.alloc p
step path block p (restart faults) =
    record_start p.fs p.issued (new_seq_allocator faults path block p.fs)

unfoldable pub run : String → ℕ → Process → List Action → Process
run path block p [] = p
run path block p (c ∷ cs) = run path block (step path block p c) cs
