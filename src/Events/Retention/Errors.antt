-- ===== src/Events/Retention/Errors.antt =====
-- No stage of the sweep lowers the number of errors.

use aikey_proxy.Prelude.{
  List, Option, [], arith, if◌then◌else◌, none, not, some, ℕ, ◌++◌, ◌||◌, ◌∷◌, ◌≤◌,
}
use aikey_proxy.Events.Retention.{
  Answer, Disk, LogFile, RetentionConfig, Swept, archive_files, archived, completed, cutoff_of,
  delete_file, delete_files, deleted, expire_archive, failed, is_before, keeps_archive, missing,
  prune_events, stays, with_error,
}
use aikey_proxy.Events.Retention.Sweep.{if-either}

module _ (disk : Disk) (cutoff : ℕ) where
  pub archived-errors :
      (g : LogFile) (a : Answer) (s : Swept) → s.result.errors ≤ (archived g a s).result.errors
  unfolding archived stays with_error
  archived-errors g completed s = omega arith
  archived-errors g missing s = omega arith
  archived-errors g failed s = omega arith

  pub archive_files-errors :
      (files : List LogFile) (s : Swept)
      → s.result.errors ≤ (archive_files disk cutoff files s).result.errors
  unfolding archive_files with_error stays
  archive_files-errors [] s = omega arith
  archive_files-errors (g ∷ files) s =
      let next = archived g (disk.rename g.name) s in
      let stop = with_error (record s { live = s.live ++ (g ∷ files) }) in
      if-either (λ t. s.result.errors ≤ t.result.errors)
        (archive_files disk cutoff files (stays g s))
        (if disk.mkdir_fails g.name then stop else archive_files disk cutoff files next)
        (not (is_before g.stamp cutoff)) (λ young. archive_files-errors files (stays g s))
        (λ old.
          if-either (λ t. s.result.errors ≤ t.result.errors) stop
            (archive_files disk cutoff files next) (disk.mkdir_fails g.name) (λ bad. omega arith)
            (λ good.
              omega
                (arith, archived-errors g (disk.rename g.name) s, archive_files-errors files next)))

  pub deleted-errors :
      (g : LogFile) (a : Answer) (s : Swept) → s.result.errors ≤ (deleted g a s).result.errors
  unfolding deleted with_error
  deleted-errors g completed s = omega arith
  deleted-errors g missing s = omega arith
  deleted-errors g failed s = omega arith

  pub delete_file-errors :
      (g : LogFile) (s : Swept) → s.result.errors ≤ (delete_file disk cutoff g s).result.errors
  unfolding delete_file
  delete_file-errors g s =
      if-either (λ t. s.result.errors ≤ t.result.errors) (deleted g (disk.remove g.name) s)
        (record s { archive = s.archive ++ (g ∷ []) }) (is_before g.stamp cutoff)
        (λ old. deleted-errors g (disk.remove g.name) s) (λ young. omega arith)

  pub delete_files-errors :
      (files : List LogFile) (s : Swept)
      → s.result.errors ≤ (delete_files disk cutoff files s).result.errors
  unfolding delete_files
  delete_files-errors [] s = omega arith
  delete_files-errors (g ∷ files) s =
      let next = delete_file disk cutoff g s in
      omega (arith, delete_file-errors g s, delete_files-errors files next)

module _ (disk : Disk) (cfg : RetentionConfig) (now : ℕ) where
  pub prune_events-errors :
      (p : Option (Option ℕ)) (s : Swept) → s.result.errors ≤ (prune_events p s).result.errors
  unfolding prune_events with_error
  prune_events-errors none s = omega arith
  prune_events-errors (some none) s = omega arith
  prune_events-errors (some (some n)) s = omega arith

  pub expire_archive-errors :
      (s : Swept) → s.result.errors ≤ (expire_archive disk cfg now s).result.errors
  unfolding expire_archive
  expire_archive-errors s =
      if-either (λ t. s.result.errors ≤ t.result.errors) s
        (delete_files disk (cutoff_of cfg.archive_days now) s.archive (record s { archive = [] }))
        (disk.glob_fails || keeps_archive cfg.archive_days) (λ kept. omega arith)
        (λ due.
          delete_files-errors disk (cutoff_of cfg.archive_days now) s.archive
            (record s { archive = [] }))
