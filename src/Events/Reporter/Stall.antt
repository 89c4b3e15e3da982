-- ===== src/Events/Reporter/Stall.antt =====
-- `maybeAutoReconcile` of internal/events/reconcile.go: when a window that is sent and not
-- confirmed makes the reporter reconcile. Times in seconds; the start of the goroutine is the result.
pub mod Fires
use aikey_proxy.Prelude.{
  ℕ, ◌+◌, ◌-◌, String, Bool, true, false, not, List, [], ◌∷◌, ◌&&◌, ◌||◌, ltb, leb, if◌then◌else◌,
}
use aikey_proxy.Events.Reporter.{Reporter, World, Watch, Marks, assign, ticked}

abbrev pub sent_stall_reconcile_passes : ℕ
sent_stall_reconcile_passes = 3

abbrev pub auto_reconcile_min_interval : ℕ
auto_reconcile_min_interval = 30

pub record Look : Type 0 where
  pub stalled : Bool
  pub progressed : Bool
  pub view : Marks

look_at : Reporter → String → Look → Look
look_at r source l = record {
  stalled = l.stalled || ltb (r.confirmed_seq source) (r.sent_seq source);
  progressed = l.progressed || ltb (l.view source) (r.confirmed_seq source);
  view = assign source (r.confirmed_seq source) l.view;
}

unfoldable pub look_over : Reporter → List String → Look → Look
unfolding look_at
look_over r [] l = l
look_over r (source ∷ sources) l = look_over r sources (look_at r source l)

unfoldable pub triggers : ℕ → Watch → Bool
triggers now v =
    (leb sent_stall_reconcile_passes v.stall_passes
      && leb auto_reconcile_min_interval (now - v.last_auto_reconcile_at))
    || (ltb 0 v.periodic_reconcile_interval
        && leb v.periodic_reconcile_interval (now - v.last_periodic_sweep_at))

-- `autoReconcileRunning.CompareAndSwap(false, true)`: only one reconciliation runs at a time.
started : Watch → Watch × Bool
started v = (record v { auto_reconcile_running = true }, not v.auto_reconcile_running)

-- The watch after a stalled pass without progress, and whether a reconciliation starts.
stalled_pass : ℕ → Watch → Watch × Bool
unfolding triggers started
stalled_pass now v =
    let counted = record v { stall_passes = v.stall_passes + 1 } in
    if triggers now counted
    then started
        (record v { stall_passes = 0; last_auto_reconcile_at = now; last_periodic_sweep_at = now })
    else (counted, false)

unfoldable pub watched : ℕ → Look → Watch → Watch × Bool
unfolding stalled_pass
watched now l v =
    let seen = record v { last_confirmed_view = l.view } in
    if not l.stalled || l.progressed
    then (record seen { stall_passes = 0 }, false)
    else stalled_pass now seen

-- A reconciliation in the background clears its mark when it ends.
unfoldable pub current : Bool → Watch → Watch
current ended v = record v { auto_reconcile_running = v.auto_reconcile_running && not ended }

unfoldable pub with_watch : Reporter → Watch × Bool → Reporter × Bool
with_watch r (v, trigger) = (record r { watch = v }, trigger)

unfoldable pub maybe_auto_reconcile : World → Reporter → Reporter × Bool
unfolding watched with_watch look_over current
maybe_auto_reconcile w r = with_watch (ticked r) (
    watched (w.now r.tick)
      (look_over r (w.sources r.tick)
        (record { stalled = false; progressed = false; view = r.watch.last_confirmed_view }))
      (current (w.reconcile_ended r.tick) r.watch))
