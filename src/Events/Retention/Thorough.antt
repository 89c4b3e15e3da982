-- ===== src/Events/Retention/Thorough.antt =====
-- A sweep without errors leaves nothing that is past its time.

-- The hour of the file does not lie before the time.
use aikey_proxy.Prelude.{
  Bool-cases, true, List, [], arith, false, if◌then◌else◌, inl, inr, not, sym, ℕ, ◌++◌, ◌||◌, ◌∷◌,
  ◌≡◌, ◌⊎◌,
}
use aikey_proxy.Prelude.Lists.{All, All-members}
use aikey_proxy.Prelude.Words.{pos}
use aikey_proxy.Events.Retention.{
  Answer, Disk, LogFile, RetentionConfig, Swept, archive_files, archive_live, archived, completed,
  cutoff_of, delete_file, delete_files, deleted, expire_archive, failed, is_before, keeps_archive,
  missing, no_result, run_retention_sweep, stays, with_error,
}
use aikey_proxy.Events.Retention.Sweep.{Has, if-either, was_false}
use aikey_proxy.Events.Retention.Expire.{expire_archive-live, prune_events-same}
use aikey_proxy.Events.Retention.Errors.{
  archive_files-errors, delete_files-errors, expire_archive-errors, prune_events-errors,
}

abbrev pub Younger : ℕ → LogFile → Type 0
Younger cutoff f = is_before f.stamp cutoff ≡ false

module _ (disk : Disk) (cutoff : ℕ) (f : LogFile) where
  Has-either : (xs ys : List LogFile) → Has f (xs ++ ys) → Has f xs ⊎ Has f ys
  Has-either [] ys m = inr m
  Has-either (x ∷ xs) ys (inl here) = inl (inl here)
  Has-either (x ∷ xs) ys (inr later) = elim (Has-either xs ys later) [
    | inl m ↦ inl (inr m)
    | inr m ↦ inr m
  ]

  -- A file that is put back is one that was there or a younger one.
  put_back :
      (xs : List LogFile) (g : LogFile)
      → is_before g.stamp cutoff ≡ false
      → Has f (xs ++ (g ∷ []))
      → Has f xs ⊎ Younger cutoff f
  put_back xs g young m = elim (Has-either xs (g ∷ []) m) [
    | inl there ↦ inl there
    | inr (inl here) ↦ inr (rw here young)
    | inr (inr never) ↦ absurd never
  ]

  archived-none :
      (g : LogFile) (a : Answer) (s : Swept)
      → (archived g a s).result.errors ≡ 0
      → Has f (archived g a s).live
      → Has f s.live
  unfolding archived stays with_error
  archived-none g completed s e m = m
  archived-none g missing s e m = m
  archived-none g failed s e m = absurd (omega (arith, e))

  archive_files-none :
      (files : List LogFile) (s : Swept)
      → (archive_files disk cutoff files s).result.errors ≡ 0
      → Has f (archive_files disk cutoff files s).live
      → Has f s.live ⊎ Younger cutoff f
  unfolding archive_files with_error stays
  archive_files-none [] s = λ e m. inl m
  archive_files-none (g ∷ files) s =
      let next = archived g (disk.rename g.name) s in
      let stop = with_error (record s { live = s.live ++ (g ∷ files) }) in
      let Good : Swept → Type 0 =
        λ t. t.result.errors ≡ 0 → Has f t.live → Has f s.live ⊎ Younger cutoff f in
      if-either Good (archive_files disk cutoff files (stays g s))
        (if disk.mkdir_fails g.name then stop else archive_files disk cutoff files next)
        (not (is_before g.stamp cutoff))
        (λ young e m. elim (archive_files-none files (stays g s) e m) [
          | inr y ↦ inr y
          | inl back ↦ put_back s.live g (was_false (is_before g.stamp cutoff) young) back
        ])
        (λ old.
          if-either Good stop (archive_files disk cutoff files next) (disk.mkdir_fails g.name)
            (λ bad e m. absurd (omega (arith, e)))
            (λ good e m. elim (archive_files-none files next e m) [
              | inr y ↦ inr y
              | inl there ↦ inl (
                  archived-none g (disk.rename g.name) s
                    (omega (arith, e, archive_files-errors disk cutoff files next)) there)
            ]))

  deleted-none :
      (g : LogFile) (a : Answer) (s : Swept)
      → (deleted g a s).result.errors ≡ 0
      → Has f (deleted g a s).archive
      → Has f s.archive
  unfolding deleted with_error
  deleted-none g completed s e m = m
  deleted-none g missing s e m = m
  deleted-none g failed s e m = absurd (omega (arith, e))

  delete_file-none :
      (g : LogFile) (s : Swept)
      → (delete_file disk cutoff g s).result.errors ≡ 0
      → Has f (delete_file disk cutoff g s).archive
      → Has f s.archive ⊎ Younger cutoff f
  unfolding delete_file
  delete_file-none g s =
      if-either (λ t. t.result.errors ≡ 0 → Has f t.archive → Has f s.archive ⊎ Younger cutoff f)
        (deleted g (disk.remove g.name) s) (record s { archive = s.archive ++ (g ∷ []) })
        (is_before g.stamp cutoff) (λ old e m. inl (deleted-none g (disk.remove g.name) s e m))
        (λ young e m. put_back s.archive g young m)

  delete_files-none :
      (files : List LogFile) (s : Swept)
      → (delete_files disk cutoff files s).result.errors ≡ 0
      → Has f (delete_files disk cutoff files s).archive
      → Has f s.archive ⊎ Younger cutoff f
  unfolding delete_files
  delete_files-none [] s e m = inl m
  delete_files-none (g ∷ files) s e m =
      let next = delete_file disk cutoff g s in
      elim (delete_files-none files next e m) [
        | inr y ↦ inr y
        | inl there ↦
            delete_file-none g s (omega (arith, e, delete_files-errors disk cutoff files next))
              there
      ]

module _ (disk : Disk) (cfg : RetentionConfig) (now : ℕ) where
  archive_live-none :
      (f : LogFile) (live archive : List LogFile)
      → (archive_live disk cfg now live archive).result.errors ≡ 0
      → Has f (archive_live disk cfg now live archive).live
      → Younger (cutoff_of (pos cfg.retention_days) now) f
  unfolding archive_live with_error
  archive_live-none f live archive =
      let start : Swept = record { live = []; archive = archive; result = no_result } in
      let cutoff = cutoff_of (pos cfg.retention_days) now in
      if-either (λ t. t.result.errors ≡ 0 → Has f t.live → Younger cutoff f)
        (with_error (record { live = live; archive = archive; result = no_result }))
        (archive_files disk cutoff live start) disk.list_fails
        (λ bad e m. absurd (omega (arith, e)))
        (λ good e m. elim (archive_files-none disk cutoff f live start e m) [
          | inl never ↦ absurd never
          | inr y ↦ y
        ])

  expire_archive-none :
      (f : LogFile) (s : Swept)
      → disk.glob_fails || keeps_archive cfg.archive_days ≡ false
      → (expire_archive disk cfg now s).result.errors ≡ 0
      → Has f (expire_archive disk cfg now s).archive
      → Younger (cutoff_of cfg.archive_days now) f
  unfolding expire_archive
  expire_archive-none f s due = rw due (λ e m.
      elim (delete_files-none disk (cutoff_of cfg.archive_days now) f s.archive
        (record s { archive = [] }) e m) [ inl never ↦ absurd never | inr y ↦ y ])

  expired_all :
      (s : Swept)
      → (expire_archive disk cfg now s).result.errors ≡ 0
      → (disk.glob_fails || keeps_archive cfg.archive_days ≡ true)
        ⊎ All (Younger (cutoff_of cfg.archive_days now)) (expire_archive disk cfg now s).archive
  expired_all s e = elim (Bool-cases (disk.glob_fails || keeps_archive cfg.archive_days)) [
    | inl kept ↦ inl kept
    | inr due ↦ inr (
        All-members (Younger (cutoff_of cfg.archive_days now))
          (expire_archive disk cfg now s).archive (λ f m. expire_archive-none f s due e m))
  ]

  -- A sweep that reports no error leaves no file in the directory whose hour is older than the retention days, whatever the archive days are. And it leaves none in the archive that is older than these, unless the archive could not be listed or they are negative.
  pub run_retention_sweep-IsThorough :
      (live archive : List LogFile)
      → (run_retention_sweep disk cfg now live archive).result.errors ≡ 0
      → All
          (Younger (cutoff_of (pos cfg.retention_days) now))
          (run_retention_sweep disk cfg now live archive).live
        × ((disk.glob_fails || keeps_archive cfg.archive_days ≡ true)
            ⊎ All
                (Younger (cutoff_of cfg.archive_days now))
                (run_retention_sweep disk cfg now live archive).archive)
  unfolding run_retention_sweep
  run_retention_sweep-IsThorough live archive e =
      let s = archive_live disk cfg now live archive in
      let t = expire_archive disk cfg now s in
      let same = prune_events-same disk cfg now disk.pruned t in
      let end : t.result.errors ≡ 0 =
        omega (arith, e, prune_events-errors disk cfg now disk.pruned t) in
      (
        rw same.0 (
            All-members (Younger (cutoff_of (pos cfg.retention_days) now)) t.live (λ f m.
              archive_live-none f live archive
                (omega (arith, end, expire_archive-errors disk cfg now s))
                (rw (sym (expire_archive-live disk cfg now f s)) m))),
        rw same.1 (expired_all s end),
      )
