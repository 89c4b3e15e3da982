-- ===== src/Events/SeqAlloc/Inv/Close.antt =====
-- Closing keeps the invariant, and leaves the last number used as the mark.
use aikey_proxy.Prelude.{
  ℕ, ◌+◌, ◌<◌, ◌≡◌, refl, ◌∙◌, inl, inr, arith, String, some, List, ok, err, Bool-cases, eqb→eq, ap,
  eqb, if◌then◌else◌,
}
use aikey_proxy.Prelude.Words.{sign_bound, sub64, slt64}
use aikey_proxy.Events.StateFile.{
  no_faults, write_ok, Faults, Fs, write_cases, stored, stored-write, stored-same, StateWrite,
  WritesAtomically,
}
use aikey_proxy.Events.SeqAlloc.{SeqAllocator, close, shrunk}
use aikey_proxy.Events.SeqAlloc.Run.{record_close}
use aikey_proxy.Events.SeqAlloc.Inv.{Below-mono, IsLive, Inv, Grows, used_next}

module _ (path : String) (block floor : ℕ) (block_pos : 0 < block) where
  shrunk-Grows :
      (hi used : ℕ) (issued : List ℕ) (a : SeqAllocator) (fs : Fs) (w : StateWrite)
      → used + 1 ≡ a.next
      → Inv path block floor hi (record { alloc = some a; fs = fs; issued = issued })
      → WritesAtomically a.state_path used fs w
      → Grows path block floor hi (record_close issued (shrunk a used w))
  unfolding shrunk
  shrunk-Grows hi used issued a fs (ok _, fs') e inv (inl (_, f)) =
      let live : IsLive path block floor hi issued a = inv.live in
      (
        used,
        omega (arith, live.within),
        record {
          fits = omega (arith, live.within, inv.fits);
          disk =
              rw (← live.path_eq)
                (stored-write a.state_path used fs fs' (omega (arith, live.within, inv.fits)) f);
          burned = Below-mono issued (omega arith) live.below;
          floored = omega (arith, live.positive);
          above = inv.above;
          live = record {
            path_eq = live.path_eq;
            block_eq = live.block_eq;
            hi_eq = refl;
            positive = live.positive;
            within = omega arith;
            bounded = omega arith;
            below = live.below;
          };
        },
      )
  shrunk-Grows hi used issued a fs (ok _, fs') e inv (inr (x, q, f)) = cc
  shrunk-Grows hi used issued a fs (err y, fs') e inv (inl (q, f)) = cc
  shrunk-Grows hi used issued a fs (err y, fs') e inv (inr (x, q, f)) = (
    hi,
    omega arith,
    record {
      fits = inv.fits;
      disk = stored-same path fs fs' f ∙ inv.disk;
      burned = inv.burned;
      floored = inv.floored;
      above = inv.above;
      live = inv.live;
    },
  )

  pub close-Grows :
      (faults : Faults) (hi : ℕ) (issued : List ℕ) (a : SeqAllocator) (fs : Fs)
      → Inv path block floor hi (record { alloc = some a; fs = fs; issued = issued })
      → Grows path block floor hi (record_close issued (close faults a fs))
  unfolding close
  close-Grows faults hi issued a fs inv =
      let live : IsLive path block floor hi issued a = inv.live in
      let used : ℕ = if slt64 (sub64 a.next 1) 0 then 0 else sub64 a.next 1 in
      let e : used + 1 ≡ a.next =
        used_next a.next (omega (arith, live.positive)) (omega (arith, live.within, inv.fits)) in
      elim (Bool-cases (eqb used a.reserved_hi)) [
        | inl same ↦ rw same (hi, omega arith, inv)
        | inr more ↦
            rw more
              (shrunk-Grows hi used issued a fs _ e inv (write_cases faults a.state_path used fs))
      ]

  shrunk-disk :
      (used : ℕ) (a : SeqAllocator) (fs : Fs) (w : StateWrite)
      → a.state_path ≡ path
      → used < sign_bound
      → w.0 ≡ ok tt
      → WritesAtomically a.state_path used fs w
      → stored path (shrunk a used w).2 ≡ ok used
  unfolding shrunk
  shrunk-disk used a fs (ok _, fs') e fits done (inl (_, f)) =
      rw (← e) (stored-write a.state_path used fs fs' fits f)
  shrunk-disk used a fs (ok _, fs') e fits done (inr (x, q, f)) = cc
  shrunk-disk used a fs (err y, fs') e fits done w = cc

  -- A close that the system lets through leaves the last number that was handed out on the disk.
  pub close-disk :
      (hi : ℕ) (issued : List ℕ) (a : SeqAllocator) (fs : Fs)
      → Inv path block floor hi (record { alloc = some a; fs = fs; issued = issued })
      → (used : ℕ) × (used + 1 ≡ a.next) × (stored path (close no_faults a fs).2 ≡ ok used)
  unfolding close
  close-disk hi issued a fs inv =
      let live : IsLive path block floor hi issued a = inv.live in
      let used : ℕ = if slt64 (sub64 a.next 1) 0 then 0 else sub64 a.next 1 in
      let e : used + 1 ≡ a.next =
        used_next a.next (omega (arith, live.positive)) (omega (arith, live.within, inv.fits)) in
      elim (Bool-cases (eqb used a.reserved_hi)) [
        | inl same ↦ (
          used,
          e,
          rw same (inv.disk ∙ ap ok (omega (arith, live.hi_eq, eqb→eq used a.reserved_hi same))),
        )
        | inr more ↦ (
          used,
          e,
          rw more (
              shrunk-disk used a fs _ live.path_eq (omega (arith, live.within, inv.fits))
                (write_ok a.state_path used fs) (write_cases no_faults a.state_path used fs)),
        )
      ]
