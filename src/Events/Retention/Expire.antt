-- ===== src/Events/Retention/Expire.antt =====
-- The second stage of the sweep, over the archive, and the whole of it.

use aikey_proxy.Prelude.{
  Bool, Bool-cases, List, Option, [], false, inl, inr, none, refl, some, subst, true, ℕ, ◌++◌, ◌||◌,
  ◌∙◌, ◌∷◌, ◌≡◌, ◌⊎◌,
}
use aikey_proxy.Prelude.Lists.{Any}
use aikey_proxy.Prelude.Words.{pos}
use aikey_proxy.Events.Retention.{
  Answer, Disk, LogFile, RetentionConfig, Swept, archive_live, completed, cutoff_of, delete_file,
  delete_files, deleted, expire_archive, failed, is_before, keeps_archive, missing, no_result,
  prune_events, with_error,
}
use aikey_proxy.Events.Retention.Sweep.{
  Archiving, Has, Has-left, Has-right, Old, archive_files-Archiving, archive_files-archive,
  if-either,
}

module _ (disk : Disk) (cutoff : ℕ) (f : LogFile) where
  deleted-keeps :
      (g : LogFile) (a : Answer) (s : Swept) → Has f s.archive → Has f (deleted g a s).archive
  unfolding deleted with_error
  deleted-keeps g completed s m = m
  deleted-keeps g missing s m = m
  deleted-keeps g failed s m = Has-left f s.archive (g ∷ []) m

  deleted-live : (g : LogFile) (a : Answer) (s : Swept) → (deleted g a s).live ≡ s.live
  unfolding deleted with_error
  deleted-live g completed s = refl
  deleted-live g missing s = refl
  deleted-live g failed s = refl

  delete_file-keeps :
      (g : LogFile) (s : Swept) → Has f s.archive → Has f (delete_file disk cutoff g s).archive
  unfolding delete_file
  delete_file-keeps g s m =
      if-either (λ t. Has f t.archive) (deleted g (disk.remove g.name) s)
        (record s { archive = s.archive ++ (g ∷ []) }) (is_before g.stamp cutoff)
        (λ old. deleted-keeps g (disk.remove g.name) s m) (λ young. Has-left f s.archive (g ∷ []) m)

  delete_file-own : (s : Swept) → Has f (delete_file disk cutoff f s).archive ⊎ Old cutoff f
  unfolding delete_file
  delete_file-own s =
      if-either (λ t. Has f t.archive ⊎ Old cutoff f) (deleted f (disk.remove f.name) s)
        (record s { archive = s.archive ++ (f ∷ []) }) (is_before f.stamp cutoff) (λ old. inr old)
        (λ young. inl (Has-right f s.archive (f ∷ []) (inl refl)))

  delete_files-keeps :
      (files : List LogFile) (s : Swept)
      → Has f s.archive
      → Has f (delete_files disk cutoff files s).archive
  unfolding delete_files
  delete_files-keeps [] s m = m
  delete_files-keeps (g ∷ files) s m =
      delete_files-keeps files (delete_file disk cutoff g s) (delete_file-keeps g s m)

  delete_files-Old :
      (files : List LogFile) (s : Swept)
      → Has f files
      → Has f (delete_files disk cutoff files s).archive ⊎ Old cutoff f
  unfolding delete_files
  delete_files-Old [] s m = absurd m
  delete_files-Old (g ∷ files) s (inr later) =
      delete_files-Old files (delete_file disk cutoff g s) later
  delete_files-Old (g ∷ files) s (inl here) =
      subst
        (λ (x : LogFile).
          Has f (delete_files disk cutoff files (delete_file disk cutoff x s)).archive
          ⊎ Old cutoff f)
        here
        (elim (delete_file-own s) [
          | inl kept ↦ inl (delete_files-keeps files (delete_file disk cutoff f s) kept)
          | inr old ↦ inr old
        ])

  delete_file-live : (g : LogFile) (s : Swept) → (delete_file disk cutoff g s).live ≡ s.live
  unfolding delete_file
  delete_file-live g s =
      if-either (λ t. t.live ≡ s.live) (deleted g (disk.remove g.name) s)
        (record s { archive = s.archive ++ (g ∷ []) }) (is_before g.stamp cutoff)
        (λ old. deleted-live g (disk.remove g.name) s) (λ young. refl)

  delete_files-live :
      (files : List LogFile) (s : Swept) → (delete_files disk cutoff files s).live ≡ s.live
  unfolding delete_files
  delete_files-live [] s = refl
  delete_files-live (g ∷ files) s =
      delete_files-live files (delete_file disk cutoff g s) ∙ delete_file-live g s

or_false : (a b : Bool) → a || b ≡ false → b ≡ false
or_false true b h = cc
or_false false b h = h

module _ (disk : Disk) (cfg : RetentionConfig) (now : ℕ) where
  -- The file is past the time of the archive, if that has one.
  abbrev pub Expired : LogFile → Type 0
  Expired f = (keeps_archive cfg.archive_days ≡ false) × Old (cutoff_of cfg.archive_days now) f

  pub expire_archive-live :
      (f : LogFile) (s : Swept) → (expire_archive disk cfg now s).live ≡ s.live
  unfolding expire_archive
  expire_archive-live f s =
      if-either (λ t. t.live ≡ s.live) s
        (delete_files disk (cutoff_of cfg.archive_days now) s.archive (record s { archive = [] }))
        (disk.glob_fails || keeps_archive cfg.archive_days) (λ none_due. refl)
        (λ due.
          delete_files-live disk (cutoff_of cfg.archive_days now) f s.archive
            (record s { archive = [] }))

  pub expire_archive-Expired :
      (f : LogFile) (s : Swept)
      → Has f s.archive
      → Has f (expire_archive disk cfg now s).archive ⊎ Expired f
  unfolding expire_archive
  expire_archive-Expired f s m =
      if-either (λ t. Has f t.archive ⊎ Expired f) s
        (delete_files disk (cutoff_of cfg.archive_days now) s.archive (record s { archive = [] }))
        (disk.glob_fails || keeps_archive cfg.archive_days) (λ none_due. inl m)
        (λ due.
          elim (delete_files-Old disk (cutoff_of cfg.archive_days now) f s.archive
            (record s { archive = [] }) m) [
              | inl kept ↦ inl kept
              | inr old ↦ inr (or_false disk.glob_fails (keeps_archive cfg.archive_days) due, old)
            ])

  pub prune_events-same :
      (p : Option (Option ℕ)) (s : Swept)
      → ((prune_events p s).live ≡ s.live) × ((prune_events p s).archive ≡ s.archive)
  unfolding prune_events with_error
  prune_events-same none s = (refl, refl)
  prune_events-same (some none) s = (refl, refl)
  prune_events-same (some (some n)) s = (refl, refl)

  -- What became of a file of the directory, and of one of the archive.
  abbrev pub LiveFate : LogFile → Swept → Type 0
  LiveFate f t =
      Has f t.live
      ⊎ (Old (cutoff_of (pos cfg.retention_days) now) f
          × ((disk.rename f.name ≡ missing) ⊎ (Has f t.archive ⊎ Expired f)))

  abbrev pub ArchiveFate : List LogFile → LogFile → Swept → Type 0
  ArchiveFate live f t = Has f t.archive ⊎ (Any (λ g. f.name ≡ g.name) live ⊎ Expired f)

  pub archive_live-Archiving :
      (f : LogFile) (live archive : List LogFile)
      → ((g : LogFile) → Has g live → f.name ≡ g.name → f ≡ g)
      → Has f live
      → Archiving disk
          (cutoff_of (pos cfg.retention_days) now)
          f
          (archive_live disk cfg now live archive)
  unfolding archive_live with_error
  archive_live-Archiving f live archive one m = elim (Bool-cases disk.list_fails) [
    | inl e ↦ rw e (inl m)
    | inr e ↦ rw e (
        archive_files-Archiving disk (cutoff_of (pos cfg.retention_days) now) f live
          (record { live = []; archive = archive; result = no_result }) one m)
  ]

  pub archive_live-archive :
      (f : LogFile) (live archive : List LogFile)
      → Has f archive
      → Has f (archive_live disk cfg now live archive).archive ⊎ Any (λ g. f.name ≡ g.name) live
  unfolding archive_live with_error
  archive_live-archive f live archive m = elim (Bool-cases disk.list_fails) [
    | inl e ↦ rw e (inl m)
    | inr e ↦ rw e (
        archive_files-archive disk (cutoff_of (pos cfg.retention_days) now) f live
          (record { live = []; archive = archive; result = no_result }) m)
  ]
