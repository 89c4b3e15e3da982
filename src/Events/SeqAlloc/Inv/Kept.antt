-- ===== src/Events/SeqAlloc/Inv/Kept.antt =====
-- Every action keeps the invariant, and so does every history.
use aikey_proxy.Prelude.{
  ℕ, ◌+◌, ◌*◌, ◌≤◌, ◌<◌, ◌≡◌, refl, subst, ◌⊎◌, inl, inr, arith, String, Option, none, some, List,
  [], ◌∷◌, Result, ok, err,
}
use aikey_proxy.Prelude.Lists.{length}
use aikey_proxy.Prelude.Results.{ok-injective}
use aikey_proxy.Prelude.Words.{sign_bound, add64}
use aikey_proxy.Events.StateFile.{Faults, SeqError, read_failed, load_seq_state, load_cases}
use aikey_proxy.Events.SeqAlloc.{SeqAllocator, new_seq_allocator, effective_block, started}
use aikey_proxy.Events.SeqAlloc.Run.{
  run, Action, draw, shut, restart, Process, record_start, drawn, closed, step,
}
use aikey_proxy.Events.SeqAlloc.Inv.{Live, Inv, Grows}
use aikey_proxy.Events.SeqAlloc.Inv.Draw.{next-Grows}
use aikey_proxy.Events.SeqAlloc.Inv.Close.{close-Grows}

module _ (path : String) (block floor : ℕ) (block_pos : 0 < block) where
  pub with_alloc :
      (p : Process) (o : Option SeqAllocator) (hi : ℕ)
      → Inv path block floor hi p
      → p.alloc ≡ o
      → Inv path block floor hi (record { alloc = o; fs = p.fs; issued = p.issued })
  with_alloc p o hi inv e = record {
    fits = inv.fits;
    disk = inv.disk;
    burned = inv.burned;
    floored = inv.floored;
    above = inv.above;
    live = subst (Live path block floor hi p.issued) e inv.live;
  }

  started-Inv :
      (b hi : ℕ) (p : Process) (r : Result SeqError ℕ)
      → effective_block b ≡ block
      → hi + block < sign_bound
      → Inv path block floor hi p
      → (r ≡ err read_failed) ⊎ (r ≡ ok hi)
      → Inv path block floor hi (record_start p.fs p.issued (started path b r))
  unfolding started
  started-Inv b hi p (err x) e fits inv c = record {
    fits = inv.fits;
    disk = inv.disk;
    burned = inv.burned;
    floored = inv.floored;
    above = inv.above;
    live = tt;
  }
  started-Inv b hi p (ok n) e fits inv (inl q) = cc
  started-Inv b hi p (ok n) e fits inv (inr q) =
      let same : n ≡ hi = ok-injective q in
      let up : add64 n 1 ≡ hi + 1 = omega arith in
      record {
        fits = inv.fits;
        disk = inv.disk;
        burned = inv.burned;
        floored = inv.floored;
        above = inv.above;
        live = record {
          path_eq = refl;
          block_eq = e;
          hi_eq = same;
          positive = omega (arith, up);
          within = omega (arith, up);
          bounded = omega (arith, up);
          below = rw up inv.burned;
        };
      }

  start-Inv :
      (faults : Faults) (b hi : ℕ) (p : Process)
      → effective_block b ≡ block
      → hi + block < sign_bound
      → Inv path block floor hi p
      → Inv path block floor hi (record_start p.fs p.issued (new_seq_allocator faults path b p.fs))
  unfolding new_seq_allocator
  start-Inv faults b hi p e fits inv =
      started-Inv b hi p (load_seq_state faults path p.fs) e fits inv
        (ground (arith, load_cases faults path p.fs, inv.disk))

  drawn-Grows :
      (faults : Faults) (hi : ℕ) (o : Option SeqAllocator) (p : Process)
      → hi + block < sign_bound
      → Inv path block floor hi p
      → p.alloc ≡ o
      → Grows path block floor hi (drawn faults o p)
  unfolding drawn
  drawn-Grows faults hi none p fits inv e = (hi, omega arith, inv)
  drawn-Grows faults hi (some a) p fits inv e =
      next-Grows path block floor block_pos faults hi p.issued a p.fs fits
        (with_alloc p (some a) hi inv e)

  closed-Grows :
      (faults : Faults) (hi : ℕ) (o : Option SeqAllocator) (p : Process)
      → Inv path block floor hi p
      → p.alloc ≡ o
      → Grows path block floor hi (closed faults o p)
  unfolding closed
  closed-Grows faults hi none p inv e = (hi, omega arith, inv)
  closed-Grows faults hi (some a) p inv e =
      close-Grows path block floor block_pos faults hi p.issued a p.fs
        (with_alloc p (some a) hi inv e)

  -- Every action keeps the invariant, and raises the mark by at most one block.
  pub step-Grows :
      (b hi : ℕ) (p : Process) (c : Action)
      → effective_block b ≡ block
      → hi + block < sign_bound
      → Inv path block floor hi p
      → Grows path block floor hi (step path b p c)
  unfolding step
  step-Grows b hi p (draw faults) e fits inv = drawn-Grows faults hi p.alloc p fits inv refl
  step-Grows b hi p (shut faults) e fits inv = closed-Grows faults hi p.alloc p inv refl
  step-Grows b hi p (restart faults) e fits inv =
      (hi, omega arith, start-Inv faults b hi p e fits inv)

  -- So any sequence of actions does.
  pub run-Inv :
      (b hi : ℕ) (p : Process) (cs : List Action)
      → effective_block b ≡ block
      → hi + block * (length cs + 1) < sign_bound
      → Inv path block floor hi p
      → (hi' : ℕ) × (hi' ≤ hi + block * length cs) × Inv path block floor hi' (run path b p cs)
  unfolding run
  run-Inv b hi p [] e fits inv = (hi, omega arith, inv)
  run-Inv b hi p (c ∷ cs) e fits inv =
      let (hi1, grown1, inv1) = step-Grows b hi p c e (grind arith) inv in
      let (hi2, grown2, inv2) = run-Inv b hi1 (step path b p c) cs e (grind arith) inv1 in
      (hi2, grind arith, inv2)
