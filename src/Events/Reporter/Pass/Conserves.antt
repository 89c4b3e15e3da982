-- ===== src/Events/Reporter/Pass/Conserves.antt =====
-- What holds of the cursors and of the log's files over the passes of a process.

use aikey_proxy.Prelude.{
  Bool, Bool-cases, List, Option, String, [], ap, arith, false, inl, inr, none, not, refl, true, ℕ,
  ◌&&◌, ◌∙◌, ◌∷◌, ◌≡◌, ◌⊎◌,
}
use aikey_proxy.Prelude.Lists.{All-map, Any}
use aikey_proxy.Events.Wal.{Reads, WalEntry, WalFile, is_v2, read_all_wal, read_wal_file}
use aikey_proxy.Events.Reporter.{Reporter, Watch, World, ticked}
use aikey_proxy.Events.Reporter.Cursors.{Cursors, cursors}
use aikey_proxy.Events.Reporter.Drain.{
  Draining, arm, drain_wal, gated, prune_confirmed_wal, selected,
}
use aikey_proxy.Events.Reporter.Drain.Advance.{
  Advances, same-Advances, stays-Advances, trans-Advances,
}
use aikey_proxy.Events.Reporter.Drain.Grows.{drain_wal-Advances}
use aikey_proxy.Events.Reporter.Drain.Prune.{Backed, Removable, prune-Removable}
use aikey_proxy.Events.Reporter.Stall.{
  current, look_over, maybe_auto_reconcile, watched, with_watch,
}
use aikey_proxy.Events.Reporter.Pass.{Pass, after, checked, drain_once, passes}

with_watch-cursors :
    (r : Reporter) (x : Watch × Bool) → cursors (with_watch (ticked r) x).0 ≡ cursors r
unfolding with_watch
with_watch-cursors r (v, trigger) = refl

maybe_auto_reconcile-cursors :
    (w : World) (r : Reporter) → cursors (maybe_auto_reconcile w r).0 ≡ cursors r
unfolding maybe_auto_reconcile
maybe_auto_reconcile-cursors w r = with_watch-cursors r (
    watched (w.now r.tick)
      (look_over r (w.sources r.tick)
        (record { stalled = false; progressed = false; view = r.watch.last_confirmed_view }))
      (current (w.reconcile_ended r.tick) r.watch))

arm-cursors : (b : Bool) (now : ℕ) (r : Reporter) → cursors (arm b now r) ≡ cursors r
unfolding arm
arm-cursors false now r = refl
arm-cursors true now r = refl

module _ (join : String → String → String) (dir : String) (w : World) where
  checked-cursors :
      (force : Bool) (files : List WalFile) (r : Reporter)
      → cursors (checked join dir w force files r).reporter ≡ cursors r
  unfolding checked
  checked-cursors true files r = refl
  checked-cursors false files r = maybe_auto_reconcile-cursors w r

  checked-files :
      (force : Bool) (files : List WalFile) (r : Reporter)
      → (checked join dir w force files r).files ≡ files
  unfolding checked
  checked-files true files r = refl
  checked-files false files r = refl

  after-cursors :
      (p : Pass) (d : Draining join dir w)
      → cursors (after join dir w p d).reporter ≡ cursors d.reporter
  unfolding after
  after-cursors p d =
      let armed = arm d.retryable (w.now d.reporter.tick) (ticked d.reporter) in
      checked-cursors p.force (prune_confirmed_wal d.reporter p.current p.rereads p.keep p.files)
        armed
      ∙ arm-cursors d.retryable (w.now d.reporter.tick) (ticked d.reporter)

  drain_once-Advances :
      (p : Pass) (r : Reporter) → Advances w r (drain_once join dir w p r).reporter
  unfolding drain_once
  drain_once-Advances p r =
      elim (Bool-cases (not p.force && gated r.next_upload_attempt (w.now r.tick))) [
        | inl e ↦ rw e (stays-Advances w r)
        | inr e ↦
            let d = drain_wal join dir w (read_all_wal p.reads p.files) (ticked r) in
            rw e (
              trans-Advances w r d.reporter (after join dir w p d).reporter
                (drain_wal-Advances join dir w (read_all_wal p.reads p.files) (ticked r))
                (same-Advances w d.reporter (after join dir w p d).reporter (after-cursors p d)))
      ]

  passes-Advances : (ps : List Pass) (r : Reporter) → Advances w r (passes join dir w ps r)
  unfolding passes
  passes-Advances [] r = stays-Advances w r
  passes-Advances (p ∷ ps) r =
      let r' = (drain_once join dir w p r).reporter in
      trans-Advances w r r' (passes join dir w ps r') (drain_once-Advances p r)
        (passes-Advances ps r')

  Advances-Backed : (a b : Reporter) → Advances w a b → Backed w a → Backed w b
  Advances-Backed a b adv backed s = elim (adv.2 s) [
    | inr told ↦ inr told
    | inl same ↦ rw same (backed s)
  ]

  still_handled :
      (a b : Reporter) (e : WalEntry) → Advances w a b → selected a e ≡ none → selected b e ≡ none
  unfolding selected
  still_handled a b e adv h = elim (Bool-cases (is_v2 e)) [
    | inl v2 ↦ ground (arith, v2, h, adv.0 e.source_id)
    | inr v1 ↦ elim (Bool-cases (a.seen_v1 e.event.event_id)) [
      | inl seen ↦ ground (arith, v1, adv.1 e.event.event_id seen)
      | inr fresh ↦ ground (arith, v1, h, fresh)
    ]
  ]

  -- Of the reporter, only the events seen count for a removal.
  same_seen :
      (a b : Reporter) (current : Option ℕ) (reads : Reads) (f : WalFile)
      → b.seen_v1 ≡ a.seen_v1
      → Removable w a current reads f
      → Removable w b current reads f
  same_seen a b current reads f e (shut, whole, safe, v2) = (
    shut,
    whole,
    All-map
        (λ x s. elim s [ inl told ↦ inl told | inr (v1, named, seen) ↦ inr (v1, named, rw e seen) ])
        (read_wal_file reads f).0 safe,
    v2,
  )

  left_or_gone :
      (p : Pass) (d : Draining join dir w) (f : WalFile)
      → Backed w d.reporter
      → Any (λ g. f ≡ g) p.files
      → Any (λ g. f ≡ g) (after join dir w p d).files
        ⊎ Removable w (after join dir w p d).reporter p.current p.rereads f
  unfolding after
  left_or_gone p d f backed m =
      let armed = arm d.retryable (w.now d.reporter.tick) (ticked d.reporter) in
      let left = prune_confirmed_wal d.reporter p.current p.rereads p.keep p.files in
      elim (prune-Removable w d.reporter p.current p.rereads p.keep p.files f backed m) [
        | inl kept ↦ inl (rw (checked-files p.force left armed) kept)
        | inr gone ↦ inr (
            same_seen d.reporter (after join dir w p d).reporter p.current p.rereads f
              (ap (λ (c : Cursors). c.2) (after-cursors p d)) gone)
      ]

  -- An entry of the log that a pass would not upload any more, because its number is at or below the mark handed over for its source or because its event was seen, is not uploaded by any later pass of the process, whatever the collectors answer and whenever the context ends.
  pub handled_once :
      (ps : List Pass) (r : Reporter) (e : WalEntry)
      → selected r e ≡ none
      → selected (passes join dir w ps r) e ≡ none
  handled_once ps r e h = still_handled r (passes join dir w ps r) e (passes-Advances ps r) h

  -- In a process that starts without confirmed marks, after any passes: the next pass leaves a file of the log in place, or the file is not the one open for writing, it was read to its end, it holds an entry with a number, every such entry lies at or below a mark that some collector reported for its source, and every other event was handed over.
  pub no_unconfirmed_deletion :
      (ps : List Pass) (p : Pass) (r : Reporter) (f : WalFile)
      → ((s : String) → r.confirmed_seq s ≡ 0)
      → Any (λ g. f ≡ g) p.files
      → let o = drain_once join dir w p (passes join dir w ps r) in
        Any (λ g. f ≡ g) o.files ⊎ Removable w o.reporter p.current p.rereads f
  unfolding drain_once
  no_unconfirmed_deletion ps p r f fresh m =
      let r' = passes join dir w ps r in
      let backed = Advances-Backed r r' (passes-Advances ps r) (λ s. inl (fresh s)) in
      elim (Bool-cases (not p.force && gated r'.next_upload_attempt (w.now r'.tick))) [
        | inl e ↦ rw e (inl m)
        | inr e ↦
            let d = drain_wal join dir w (read_all_wal p.reads p.files) (ticked r') in
            let backed' =
              Advances-Backed (ticked r') d.reporter
                (drain_wal-Advances join dir w (read_all_wal p.reads p.files) (ticked r')) backed in
            rw e (left_or_gone p d f backed' m)
      ]
