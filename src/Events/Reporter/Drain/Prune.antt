-- ===== src/Events/Reporter/Drain/Prune.antt =====
-- Which files of the log a pass removes.

-- A collector reported a mark at or above the entry's number; or the entry has no number, and its
-- event was handed over.
use aikey_proxy.Prelude.{
  Bool, Bool-cases, List, Option, String, [], and_true, arith, eq_iff, false, inl, inr, not,
  or_true, refl, subst, sym, true, ℕ, ◌&&◌, ◌||◌, ◌∷◌, ◌≡◌, ◌≢◌, ◌≤◌, ◌⊎◌,
}
use aikey_proxy.Prelude.Lists.{All, Any}
use aikey_proxy.Events.Wal.{Reads, WalEntry, WalFile, is_v2, read_wal_file}
use aikey_proxy.Events.Reporter.{Reporter, World}
use aikey_proxy.Events.Reporter.Drain.{
  is_confirmed, is_current, is_prunable, prunable, prune_confirmed_wal,
}
use aikey_proxy.Events.Reporter.Drain.Advance.{Reported}

abbrev pub Safe : World → Reporter → WalEntry → Type 0
Safe w r e =
    ((is_v2 e ≡ true) × (c : ℕ) × (e.source_seq ≤ c) × Reported w e.source_id c)
    ⊎ ((is_v2 e ≡ false) × (e.event.event_id ≢ "") × (r.seen_v1 e.event.event_id ≡ true))

abbrev pub Backed : World → Reporter → Type 0
Backed w r = (s : String) → (r.confirmed_seq s ≡ 0) ⊎ Reported w s (r.confirmed_seq s)

-- The file is not open, was read to its end, and nothing in it still needs the log.
abbrev pub Removable : World → Reporter → Option ℕ → Reads → WalFile → Type 0
Removable w r current reads f =
    (is_current current f ≡ false)
    × ((read_wal_file reads f).1 ≡ true)
    × All (Safe w r) (read_wal_file reads f).0
    × Any (λ e. is_v2 e ≡ true) (read_wal_file reads f).0

is_confirmed-Safe :
    (w : World) (r : Reporter) (e : WalEntry) → Backed w r → is_confirmed r e ≡ true → Safe w r e
unfolding is_confirmed
is_confirmed-Safe w r e backed h = elim (Bool-cases (is_v2 e)) [
  | inl v2 ↦ elim (backed e.source_id) [
    | inl none_yet ↦ absurd (ground (arith, v2, h, none_yet))
    | inr told ↦ inl (v2, r.confirmed_seq e.source_id, ground (arith, v2, h), told)
  ]
  | inr v1 ↦ inr (
    v1,
    λ empty. absurd (ground (arith, v1, h, eq_iff e.event.event_id "")),
    ground (arith, v1, h),
  )
]

prunable-Removable :
    (w : World) (r : Reporter) (saw_v2 : Bool) (entries : List WalEntry)
    → Backed w r
    → prunable r saw_v2 entries ≡ true
    → All (Safe w r) entries × ((saw_v2 ≡ true) ⊎ Any (λ e. is_v2 e ≡ true) entries)
unfolding prunable
prunable-Removable w r saw_v2 [] backed h = (_, inl h)
prunable-Removable w r saw_v2 (e ∷ entries) backed h =
    let hs = and_true (is_confirmed r e) (prunable r (saw_v2 || is_v2 e) entries) h in
    let (safe, v2) = prunable-Removable w r (saw_v2 || is_v2 e) entries backed hs.1 in
    (
      (is_confirmed-Safe w r e backed hs.0, safe),
      elim v2 [
        | inr later ↦ inr (inr later)
        | inl now ↦ elim (or_true saw_v2 (is_v2 e) now) [
          | inl before ↦ inl before
          | inr here ↦ inr (inl here)
        ]
      ],
    )

is_prunable-Removable :
    (w : World) (r : Reporter) (current : Option ℕ) (f : WalFile) (x : List WalEntry × Bool)
    → Backed w r
    → is_prunable r current f x ≡ true
    → (x.1 ≡ true) × All (Safe w r) x.0 × Any (λ e. is_v2 e ≡ true) x.0
unfolding is_prunable
is_prunable-Removable w r current f (entries, false) backed h = cc
is_prunable-Removable w r current f (entries, true) backed h =
    let (safe, v2) = prunable-Removable w r false entries backed h in
    (refl, safe, elim v2 [ inl no_v2 ↦ cc | inr some_v2 ↦ some_v2 ])

-- A file is left in the log, or may go.
pub prune-Removable :
    (w : World) (r : Reporter) (current : Option ℕ) (reads : Reads) (keep : WalFile → Bool)
    (files : List WalFile) (f : WalFile)
    → Backed w r
    → Any (λ g. f ≡ g) files
    → Any (λ g. f ≡ g) (prune_confirmed_wal r current reads keep files)
      ⊎ Removable w r current reads f
unfolding prune_confirmed_wal
prune-Removable w r current reads keep [] f backed m = absurd m
prune-Removable w r current reads keep (g ∷ files) f backed m =
    let is_open = not (is_current current g) in
    let old = is_prunable r current g (read_wal_file reads g) in
    elim (Bool-cases (is_open && old && not (keep g))) [
      | inl q ↦ rw q (elim m [
        | inr later ↦ prune-Removable w r current reads keep files f backed later
        | inl here ↦
            let a = and_true (is_open && old) (not (keep g)) q in
            let b = and_true is_open old a.0 in
            let c = is_prunable-Removable w r current g (read_wal_file reads g) backed b.1 in
            inr (
              subst (λ (x : WalFile). Removable w r current reads x) (sym here)
                (ground (arith, b.0), c.0, c.1, c.2))
      ])
      | inr q ↦ rw q (elim m [
        | inl here ↦ inl (inl here)
        | inr later ↦ elim (prune-Removable w r current reads keep files f backed later) [
          | inl kept ↦ inl (inr kept)
          | inr gone ↦ inr gone
        ]
      ])
    ]
