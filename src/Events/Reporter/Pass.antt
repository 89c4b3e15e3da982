-- ===== src/Events/Reporter/Pass.antt =====
-- `drainOnce` of internal/events/reporter.go: a whole pass, and the passes of a process.
pub mod Conserves
use aikey_proxy.Prelude.{
  ℕ, ◌+◌, String, Bool, true, false, not, Option, List, [], ◌∷◌, ◌&&◌, if◌then◌else◌,
}
use aikey_proxy.Events.Wal.{WalFile, Reads, read_all_wal}
use aikey_proxy.Events.Reporter.{Reporter, World, ticked}
use aikey_proxy.Events.Reporter.Drain.{Draining, drain_wal, prune_confirmed_wal, arm, gated}
use aikey_proxy.Events.Reporter.Stall.{maybe_auto_reconcile}

-- What stands still while a pass runs: how the files read, which is open, which cannot be removed.
pub record Pass : Type 0 where
  pub force : Bool
  pub files : List WalFile
  pub current : Option ℕ
  pub reads : Reads
  pub rereads : Reads
  pub keep : WalFile → Bool

-- The reporter, the files that are left, and whether a reconciliation starts.
pub record Passed : Type 0 where
  pub reporter : Reporter
  pub files : List WalFile
  pub reconcile : Bool

module _ (join : String → String → String) (dir : String) (w : World) where
  checked : Bool → List WalFile → Reporter → Passed
  unfolding maybe_auto_reconcile
  checked true files r = record { reporter = r; files = files; reconcile = false }
  checked false files r =
      let (r', trigger) = maybe_auto_reconcile w r in
      record { reporter = r'; files = files; reconcile = trigger }

  after : Pass → Draining join dir w → Passed
  unfolding checked prune_confirmed_wal arm
  after p d =
      checked p.force (prune_confirmed_wal d.reporter p.current p.rereads p.keep p.files)
        (arm d.retryable (w.now d.reporter.tick) (ticked d.reporter))

  pub drain_once : Pass → Reporter → Passed
  unfolding gated after drain_wal
  drain_once p r =
      let r' = ticked r in
      if not p.force && gated r.next_upload_attempt (w.now r.tick)
      then record { reporter = r'; files = p.files; reconcile = false }
      else after p (drain_wal join dir w (read_all_wal p.reads p.files) r')

  -- The passes of a process, the first one first.
  pub passes : List Pass → Reporter → Reporter
  unfolding drain_once
  passes [] r = r
  passes (p ∷ ps) r = passes ps (drain_once p r).reporter
