-- ===== src/Events/SeqAlloc/Inv/Draw.antt =====
-- Asking for a number keeps the invariant.
use aikey_proxy.Prelude.{
  ℕ, ◌+◌, ◌≤◌, ◌<◌, ◌≡◌, refl, ◌∙◌, inl, inr, arith, String, some, List, ok, err, Bool-cases,
}
use aikey_proxy.Prelude.Words.{sign_bound, slt64}
use aikey_proxy.Events.StateFile.{
  Faults, Fs, write_cases, stored, stored-write, stored-same, StateWrite, WritesAtomically,
}
use aikey_proxy.Events.SeqAlloc.{SeqAllocator, next_seq, reserved, hand_out}
use aikey_proxy.Events.SeqAlloc.Run.{record_draw}
use aikey_proxy.Events.SeqAlloc.Inv.{Above, IsLive, Inv, Grows, slt64→lt, slt64→le}

module _ (path : String) (block floor : ℕ) (block_pos : 0 < block) where
  hand_out-Grows :
      (hi : ℕ) (issued : List ℕ) (a : SeqAllocator) (fs : Fs)
      → hi < sign_bound
      → stored path fs ≡ ok hi
      → floor ≤ hi
      → Above floor issued
      → IsLive path block floor hi issued a
      → a.next ≤ hi
      → Inv path block floor hi (record_draw issued (hand_out a fs))
  unfolding hand_out
  hand_out-Grows hi issued a fs fits disk low above live room = record {
    fits = fits;
    disk = disk;
    burned = (omega arith, live.below);
    floored = low;
    above = (live.positive, above);
    live = record {
      path_eq = live.path_eq;
      block_eq = live.block_eq;
      hi_eq = live.hi_eq;
      positive = omega arith;
      within = omega arith;
      bounded = omega arith;
      below = (omega arith, live.below);
    };
  }

  reserved-Grows :
      (hi new_hi : ℕ) (issued : List ℕ) (a : SeqAllocator) (fs : Fs) (w : StateWrite)
      → new_hi ≡ hi + block
      → new_hi < sign_bound
      → Inv path block floor hi (record { alloc = some a; fs = fs; issued = issued })
      → hi < a.next
      → WritesAtomically a.state_path new_hi fs w
      → Grows path block floor hi (record_draw issued (reserved a new_hi w))
  unfolding reserved
  reserved-Grows hi new_hi issued a fs (ok _, fs') e fits inv spent (inl (_, f)) =
      let live : IsLive path block floor hi issued a = inv.live in
      (
        new_hi,
        omega arith,
        hand_out-Grows new_hi issued (record a { reserved_hi = new_hi }) fs' fits
            (rw (← live.path_eq) (stored-write a.state_path new_hi fs fs' fits f))
            (omega (arith, inv.floored)) inv.above
            (record {
              path_eq = live.path_eq;
              block_eq = live.block_eq;
              hi_eq = refl;
              positive = live.positive;
              within = omega (arith, live.within);
              bounded = omega arith;
              below = live.below;
            })
            (omega (arith, live.within)),
      )
  reserved-Grows hi new_hi issued a fs (ok _, fs') e fits inv spent (inr (x, q, f)) = cc
  reserved-Grows hi new_hi issued a fs (err y, fs') e fits inv spent (inl (q, f)) = cc
  reserved-Grows hi new_hi issued a fs (err y, fs') e fits inv spent (inr (x, q, f)) = (
    hi,
    omega arith,
    record {
      fits = inv.fits;
      disk = stored-same path fs fs' f ∙ inv.disk;
      burned = inv.burned;
      floored = inv.floored;
      above = inv.above;
      live = inv.live;
    },
  )

  pub next-Grows :
      (faults : Faults) (hi : ℕ) (issued : List ℕ) (a : SeqAllocator) (fs : Fs)
      → hi + block < sign_bound
      → Inv path block floor hi (record { alloc = some a; fs = fs; issued = issued })
      → Grows path block floor hi (record_draw issued (next_seq faults a fs))
  unfolding next_seq
  next-Grows faults hi issued a fs fits inv =
      let live : IsLive path block floor hi issued a = inv.live in
      elim (Bool-cases (slt64 a.reserved_hi a.next)) [
        | inl spent ↦ rw spent (
            reserved-Grows hi _ issued a fs _ (omega (arith, live.hi_eq, live.block_eq))
              (omega (arith, live.hi_eq, live.block_eq)) inv
              (slt64→lt hi a.next (omega arith) (omega (arith, live.within))
                (rw live.hi_eq at spent))
              (write_cases faults a.state_path _ fs))
        | inr room ↦ rw room (
          hi,
          omega arith,
          hand_out-Grows hi issued a fs inv.fits inv.disk inv.floored inv.above live (
              slt64→le hi a.next (omega arith) (omega (arith, live.within))
                (rw live.hi_eq at room)),
        )
      ]
  -- A shrink writes the last number that was handed out.
