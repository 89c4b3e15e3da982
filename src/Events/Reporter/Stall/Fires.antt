-- ===== src/Events/Reporter/Stall/Fires.antt =====
-- When the automatic reconciliation starts.

-- Some source has more sent than confirmed, and none has more confirmed than at the last look.
use aikey_proxy.Prelude.{
  Bool, Bool-cases, List, String, [], ap, arith, eq_iff, false, inl, inr, refl, true, ℕ, ◌+◌, ◌<◌,
  ◌∙◌, ◌∷◌, ◌≡◌, ◌≤◌, ◌⊎◌,
}
use aikey_proxy.Prelude.Lists.{All, All-map, Any}
use aikey_proxy.Events.Reporter.{Reporter, Watch, World, ticked}
use aikey_proxy.Events.Reporter.Stall.{
  current, started, Look, auto_reconcile_min_interval, look_at, look_over, maybe_auto_reconcile,
  stalled_pass, triggers, with_watch,
}

abbrev pub Stuck : World → Reporter → Type 0
Stuck w r =
    Any (λ s. r.confirmed_seq s < r.sent_seq s) (w.sources r.tick)
    × All (λ s. r.confirmed_seq s ≤ r.watch.last_confirmed_view s) (w.sources r.tick)

behind :
    (r : Reporter) (s : String) (l : Look)
    → r.confirmed_seq s < r.sent_seq s
    → (look_at r s l).stalled ≡ true
unfolding look_at
behind r s l h = ground (arith, h)

already : (r : Reporter) (s : String) (l : Look) → l.stalled ≡ true → (look_at r s l).stalled ≡ true
unfolding look_at
already r s l h = ground (arith, h)

seen_view :
    (r : Reporter) (s : String) (l : Look) (j : String)
    → r.confirmed_seq j ≤ l.view j
    → r.confirmed_seq j ≤ (look_at r s l).view j
unfolding look_at
seen_view r s l j h = ground (arith, eq_iff s j)

with_watch-watch : (r : Reporter) (x : Watch × Bool) → (with_watch r x).0.watch ≡ x.0
unfolding with_watch
with_watch-watch r (v, b) = refl

with_watch-trigger : (r : Reporter) (x : Watch × Bool) → (with_watch r x).1 ≡ x.1
unfolding with_watch
with_watch-trigger r (v, b) = refl

look_over-stalled :
    (r : Reporter) (sources : List String) (l : Look)
    → (l.stalled ≡ true) ⊎ Any (λ s. r.confirmed_seq s < r.sent_seq s) sources
    → (look_over r sources l).stalled ≡ true
unfolding look_over
look_over-stalled r [] l (inl h) = h
look_over-stalled r [] l (inr h) = absurd h
look_over-stalled r (s ∷ sources) l (inl h) =
    look_over-stalled r sources (look_at r s l) (inl (already r s l h))
look_over-stalled r (s ∷ sources) l (inr (inl h)) =
    look_over-stalled r sources (look_at r s l) (inl (behind r s l h))
look_over-stalled r (s ∷ sources) l (inr (inr h)) =
    look_over-stalled r sources (look_at r s l) (inr h)

look_over-progressed :
    (r : Reporter) (sources : List String) (l : Look)
    → l.progressed ≡ false
    → All (λ s. r.confirmed_seq s ≤ l.view s) sources
    → (look_over r sources l).progressed ≡ false
unfolding look_over look_at
look_over-progressed r [] l h all = h
look_over-progressed r (s ∷ sources) l h all =
    look_over-progressed r sources (look_at r s l) (ground (arith, h, all.0))
      (All-map (λ j le. seen_view r s l j le) sources all.1)

-- The watch after a pass of a reporter that is stuck, and whether to reconcile.
watched-Stuck :
    (w : World) (r : Reporter)
    → Stuck w r
    → (v : Watch) × (v.stall_passes ≡ r.watch.stall_passes)
      × (v.last_auto_reconcile_at ≡ r.watch.last_auto_reconcile_at)
      × (r.watch.auto_reconcile_running ≡ false → v.auto_reconcile_running ≡ false)
      × ((maybe_auto_reconcile w r).0.watch ≡ (stalled_pass (w.now r.tick) v).0)
      × ((maybe_auto_reconcile w r).1 ≡ (stalled_pass (w.now r.tick) v).1)
unfolding maybe_auto_reconcile current
watched-Stuck w r stuck =
    let start : Look = record {
      stalled = false;
      progressed = false;
      view = r.watch.last_confirmed_view;
    } in
    let l = look_over r (w.sources r.tick) start in
    let stalled = look_over-stalled r (w.sources r.tick) start (inr stuck.0) in
    let still = look_over-progressed r (w.sources r.tick) start refl stuck.1 in
    let seen : Watch = record (current (w.reconcile_ended r.tick) r.watch) {
      last_confirmed_view = l.view;
    } in
    (
      seen,
      refl,
      refl,
      λ idle. rw idle refl,
      rw (stalled, still) (with_watch-watch (ticked r) (stalled_pass (w.now r.tick) seen)),
      rw (stalled, still) (with_watch-trigger (ticked r) (stalled_pass (w.now r.tick) seen)),
    )

too_soon :
    (now : ℕ) (v : Watch)
    → triggers now (record v { stall_passes = v.stall_passes + 1 }) ≡ false
    → 3 ≤ v.stall_passes + 1
    → now < v.last_auto_reconcile_at + 30
unfolding triggers
too_soon now v e three = ground arith

-- The count of a watch goes up or the reconciliation starts.
stalled_pass_lem :
    (now : ℕ) (v : Watch)
    → v.auto_reconcile_running ≡ false
    → ((stalled_pass now v).1 ≡ true)
      ⊎ (((stalled_pass now v).0.stall_passes ≡ v.stall_passes + 1)
          × ((stalled_pass now v).0.last_auto_reconcile_at ≡ v.last_auto_reconcile_at)
          × ((stalled_pass now v).0.auto_reconcile_running ≡ false)
          × ((3 ≤ v.stall_passes + 1) → now < v.last_auto_reconcile_at + 30))
unfolding stalled_pass started
stalled_pass_lem now v idle =
    elim (Bool-cases (triggers now (record v { stall_passes = v.stall_passes + 1 }))) [
      | inl e ↦ rw e (inl (rw idle refl))
      | inr e ↦ rw e (inr (refl, refl, idle, λ three. too_soon now v e three))
    ]

-- Three passes in a row that find some source with more sent than confirmed, and none with more confirmed than at the pass before, start a reconciliation at the latest at the third, if none was running before the first of them and by the third 30 seconds have passed since the last one was started.
pub third_pass_fires :
    (w : World) (a b c : Reporter)
    → a.watch.auto_reconcile_running ≡ false
    → Stuck w a
    → Stuck w b
    → Stuck w c
    → b.watch ≡ (maybe_auto_reconcile w a).0.watch
    → c.watch ≡ (maybe_auto_reconcile w b).0.watch
    → a.watch.last_auto_reconcile_at + auto_reconcile_min_interval ≤ w.now c.tick
    → ((maybe_auto_reconcile w a).1 ≡ true)
      ⊎ ((maybe_auto_reconcile w b).1 ≡ true)
      ⊎ ((maybe_auto_reconcile w c).1 ≡ true)
third_pass_fires w a b c idle sa sb sc ab bc late =
    let (va, a1, a2, a0, a3, a4) = watched-Stuck w a sa in
    let (vb, b1, b2, b0, b3, b4) = watched-Stuck w b sb in
    let (vc, c1, c2, c0, c3, c4) = watched-Stuck w c sc in
    elim (stalled_pass_lem (w.now a.tick) va (a0 idle)) [
      | inl fired ↦ inl (a4 ∙ fired)
      | inr (na, la, ia, _) ↦
          elim (stalled_pass_lem (w.now b.tick) vb
            (b0 (ap (λ (v : Watch). v.auto_reconcile_running) (ab ∙ a3) ∙ ia))) [
              | inl fired ↦ inr (inl (b4 ∙ fired))
              | inr (nb, lb, ib, _) ↦
                  elim (stalled_pass_lem (w.now c.tick) vc
                    (c0 (ap (λ (v : Watch). v.auto_reconcile_running) (bc ∙ b3) ∙ ib))) [
                      | inl fired ↦ inr (inr (c4 ∙ fired))
                      | inr (nc, lc, ic, early) ↦
                          let eb = ap (λ (v : Watch). v.stall_passes) (ab ∙ a3) in
                          let ec = ap (λ (v : Watch). v.stall_passes) (bc ∙ b3) in
                          let tb = ap (λ (v : Watch). v.last_auto_reconcile_at) (ab ∙ a3) in
                          let tc = ap (λ (v : Watch). v.last_auto_reconcile_at) (bc ∙ b3) in
                          let soon = early (omega arith) in absurd (omega arith)
                    ]
            ]
    ]
