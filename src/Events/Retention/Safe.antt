-- ===== src/Events/Retention/Safe.antt =====
-- The sweep loses no file before its time.

use aikey_proxy.Prelude.{List, inl, inr, ℕ, ◌≡◌, ◌⊎◌}
use aikey_proxy.Prelude.Lists.{All, All-members, Any}
use aikey_proxy.Prelude.Words.{pos}
use aikey_proxy.Events.Retention.{
  Disk, LogFile, RetentionConfig, Swept, archive_live, cutoff_of, expire_archive, prune_events,
  run_retention_sweep,
}
use aikey_proxy.Events.Retention.Sweep.{Archiving, Has}
use aikey_proxy.Events.Retention.Expire.{
  ArchiveFate, LiveFate, archive_live-Archiving, archive_live-archive, expire_archive-Expired,
  expire_archive-live, prune_events-same,
}

module _ (disk : Disk) (cfg : RetentionConfig) (now : ℕ) where
  carry-live :
      (f : LogFile) (s : Swept)
      → Archiving disk (cutoff_of (pos cfg.retention_days) now) f s
      → LiveFate disk cfg now f (prune_events disk.pruned (expire_archive disk cfg now s))
  carry-live f s fate =
      let same = prune_events-same disk cfg now disk.pruned (expire_archive disk cfg now s) in
      elim fate [
        | inl stayed ↦ inl (rw (same.0, expire_archive-live disk cfg now f s) stayed)
        | inr (old, inl gone) ↦ inr (old, inl gone)
        | inr (old, inr there) ↦ elim (expire_archive-Expired disk cfg now f s there) [
          | inl kept ↦ inr (old, inr (inl (rw same.1 kept)))
          | inr due ↦ inr (old, inr (inr due))
        ]
      ]

  carry-archive :
      (live : List LogFile) (f : LogFile) (s : Swept)
      → Has f s.archive ⊎ Any (λ g. f.name ≡ g.name) live
      → ArchiveFate disk cfg now live f (prune_events disk.pruned (expire_archive disk cfg now s))
  carry-archive live f s fate =
      let same = prune_events-same disk cfg now disk.pruned (expire_archive disk cfg now s) in
      elim fate [
        | inr taken ↦ inr (inl taken)
        | inl there ↦ elim (expire_archive-Expired disk cfg now f s there) [
          | inl kept ↦ inl (rw same.1 kept)
          | inr due ↦ inr (inr due)
        ]
      ]

  -- Whatever calls of the operating system fail, if no two files of the directory have one name, a sweep leaves each of them in the directory unless its hour is older than the retention days; then it is there still, or had already gone, or is in the archive, or is past the archive days too while these are not negative. And each file of the archive is still in it, or a file of the directory had its name, or it is past the archive days while these are not negative.
  pub run_retention_sweep-Safe :
      (live archive : List LogFile)
      → ((f g : LogFile) → Has f live → Has g live → f.name ≡ g.name → f ≡ g)
      → All (λ f. LiveFate disk cfg now f (run_retention_sweep disk cfg now live archive)) live
        × All
            (λ f. ArchiveFate disk cfg now live f (run_retention_sweep disk cfg now live archive))
            archive
  unfolding run_retention_sweep
  run_retention_sweep-Safe live archive one =
      let end = run_retention_sweep disk cfg now live archive in
      let s = archive_live disk cfg now live archive in
      (
        All-members (λ f. LiveFate disk cfg now f end) live
            (λ f m.
              carry-live f s
                (archive_live-Archiving disk cfg now f live archive (λ g n e. one f g m n e) m)),
        All-members (λ f. ArchiveFate disk cfg now live f end) archive
            (λ f m. carry-archive live f s (archive_live-archive disk cfg now f live archive m)),
      )
