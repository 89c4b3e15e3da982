-- ===== src/Events/Retention/Examples.antt =====
-- A sweep over a directory of three files and an archive of one.

use aikey_proxy.Prelude.{
  ◌⊎◌, Bool, [], false, if◌then◌else◌, inl, inr, none, refl, some, sym, true, ℕ, ◌&&◌, ◌==◌, ◌||◌,
  ◌∙◌, ◌∷◌, ◌≡◌,
}
use aikey_proxy.Prelude.Lists.{All}
use aikey_proxy.Prelude.Words.{pos}
use aikey_proxy.Events.Retention.{
  Disk, LogFile, RetentionConfig, completed, cutoff_of, failed, keeps_archive, run_retention_sweep,
}
use aikey_proxy.Events.Retention.Sweep.{Has}
use aikey_proxy.Events.Retention.Expire.{ArchiveFate, LiveFate}
use aikey_proxy.Events.Retention.Safe.{run_retention_sweep-Safe}
use aikey_proxy.Events.Retention.Thorough.{Younger, run_retention_sweep-IsThorough}

abbrev young : LogFile
young = record { name = "usage-young"; stamp = some 990 }

abbrev old : LogFile
old = record { name = "usage-old"; stamp = some 900 }

abbrev stuck : LogFile
stuck = record { name = "usage-stuck"; stamp = some 900 }

abbrev ancient : LogFile
ancient = record { name = "usage-ancient"; stamp = some 10 }

-- The file `stuck` cannot be renamed, if this is so.
abbrev disk_of : Bool → Disk
disk_of fails = record {
  list_fails = false;
  mkdir_fails = λ name. false;
  rename = λ name. if fails && name == "usage-stuck" then failed else completed;
  glob_fails = false;
  remove = λ name. completed;
  pruned = none;
}

abbrev config : RetentionConfig
config = record { retention_days = 2; archive_days = pos 10 }

-- The hour 1000.
abbrev noon : ℕ
noon = 3600000000000000

sweep_keeps :
    (run_retention_sweep (disk_of true) config noon (old ∷ stuck ∷ young ∷ []) (ancient ∷ [])).live
    ≡ stuck ∷ young ∷ []
unfolding run_retention_sweep
sweep_keeps = refl

one_name :
    (f g : LogFile) → Has f (old ∷ young ∷ []) → Has g (old ∷ young ∷ []) → f.name ≡ g.name → f ≡ g
one_name f g (inl a) (inl b) e = a ∙ sym b
one_name f g (inr (inl a)) (inr (inl b)) e = a ∙ sym b
one_name f g (inl a) (inr (inl b)) e = cc
one_name f g (inr (inl a)) (inl b) e = cc
one_name f g (inr (inr never)) m e = absurd never
one_name f g (inl a) (inr (inr never)) e = absurd never
one_name f g (inr (inl a)) (inr (inr never)) e = absurd never

run_retention_sweep-Safe_example :
    All
      (λ f.
        LiveFate
          (disk_of true)
          config
          noon
          f
          (run_retention_sweep (disk_of true) config noon (old ∷ young ∷ []) (ancient ∷ [])))
      (old ∷ young ∷ [])
    × All
        (λ f.
          ArchiveFate
            (disk_of true)
            config
            noon
            (old ∷ young ∷ [])
            f
            (run_retention_sweep (disk_of true) config noon (old ∷ young ∷ []) (ancient ∷ [])))
        (ancient ∷ [])
run_retention_sweep-Safe_example =
    run_retention_sweep-Safe (disk_of true) config noon (old ∷ young ∷ []) (ancient ∷ []) one_name

no_errors :
    (run_retention_sweep
      (disk_of false)
      config
      noon
      (old ∷ young ∷ [])
      (ancient ∷ [])).result.errors
    ≡ 0
unfolding run_retention_sweep
no_errors = refl

run_retention_sweep-IsThorough_example :
    All
      (Younger (cutoff_of (pos 2) noon))
      (run_retention_sweep (disk_of false) config noon (old ∷ young ∷ []) (ancient ∷ [])).live
    × (((disk_of false).glob_fails || keeps_archive config.archive_days ≡ true)
        ⊎ All
            (Younger (cutoff_of (pos 10) noon))
            (run_retention_sweep
              (disk_of false)
              config
              noon
              (old ∷ young ∷ [])
              (ancient ∷ [])).archive)
run_retention_sweep-IsThorough_example =
    run_retention_sweep-IsThorough (disk_of false) config noon (old ∷ young ∷ []) (ancient ∷ [])
      no_errors
