-- ===== src/Events/Retention.antt =====
-- The daily sweep over the log's files: `RunRetentionSweep` of internal/events/retention.go.
--
-- A file has the hour that its name stands for (`walFileTime`), if the name parses. A calendar day
-- of UTC has 86400 seconds. `Disk` is what the operating system and the store answer.
pub mod Sweep
pub mod Expire
pub mod Errors
pub mod Thorough
pub mod Safe
mod Examples
use aikey_proxy.Prelude.Words.{ℤ, negsuc, pos}
use aikey_proxy.Prelude.{
  Bool, List, Option, String, [], false, if◌then◌else◌, ltb, none, not, some, true, ◌*◌, ◌++◌, ◌+◌,
  ◌-◌, ◌==◌, ◌||◌, ◌∷◌, ℕ,
}

pub record LogFile : Type 0 where
  pub name : String
  pub stamp : Option ℕ

pub data Answer : Type 0 where
  completed missing failed : Answer

pub record Disk : Type 0 where
  pub list_fails : Bool
  pub mkdir_fails : String → Bool
  pub rename : String → Answer
  pub glob_fails : Bool
  pub remove : String → Answer
  pub pruned : Option (Option ℕ)

-- `archive_days` below 0 keeps the archive for ever.
pub record RetentionConfig : Type 0 where
  pub retention_days : ℕ
  pub archive_days : ℤ

pub record RetentionResult : Type 0 where
  pub errors : ℕ
  pub wal_archived : ℕ
  pub archive_deleted : ℕ
  pub events_pruned : ℕ

-- The directory and its archive.
pub record Swept : Type 0 where
  pub live : List LogFile
  pub archive : List LogFile
  pub result : RetentionResult

-- The hour of the name lies before the time.
pub is_before : Option ℕ → ℕ → Bool
is_before none cutoff = false
is_before (some hour) cutoff = ltb (hour * 3600000000000) cutoff

pub cutoff_of : ℤ → ℕ → ℕ
cutoff_of (pos days) now = now - days * 86400000000000
cutoff_of (negsuc days) now = now + (days + 1) * 86400000000000

with_error : Swept → Swept
with_error s = record s { result = record s.result { errors = s.result.errors + 1 } }

-- A file of that name is replaced.
pub put_file : LogFile → List LogFile → List LogFile
put_file f [] = f ∷ []
put_file f (g ∷ files) = (if g.name == f.name then [] else g ∷ []) ++ put_file f files

stays : LogFile → Swept → Swept
stays f s = record s { live = s.live ++ (f ∷ []) }

pub archived : LogFile → Answer → Swept → Swept
unfolding put_file stays with_error
archived f completed s = record s {
  archive = put_file f s.archive;
  result = record s.result { wal_archived = s.result.wal_archived + 1 };
}
archived f missing s = s
archived f failed s = stays f (with_error s)

-- The first failure to make the archive ends the loop: the other files stay.
pub archive_files : Disk → ℕ → List LogFile → Swept → Swept
unfolding archived is_before
archive_files disk cutoff [] s = s
archive_files disk cutoff (f ∷ files) s =
    let later = archive_files disk cutoff files (stays f s) in
    let moved = archive_files disk cutoff files (archived f (disk.rename f.name) s) in
    if not (is_before f.stamp cutoff)
    then later
    else if disk.mkdir_fails f.name
    then with_error (record s { live = s.live ++ (f ∷ files) })
    else moved

pub deleted : LogFile → Answer → Swept → Swept
unfolding with_error
deleted f completed s = record s {
  result = record s.result { archive_deleted = s.result.archive_deleted + 1 };
}
deleted f missing s = record s {
  result = record s.result { archive_deleted = s.result.archive_deleted + 1 };
}
deleted f failed s = with_error (record s { archive = s.archive ++ (f ∷ []) })

pub delete_file : Disk → ℕ → LogFile → Swept → Swept
unfolding deleted is_before
delete_file disk cutoff f s =
    if is_before f.stamp cutoff
    then deleted f (disk.remove f.name) s
    else record s { archive = s.archive ++ (f ∷ []) }

pub delete_files : Disk → ℕ → List LogFile → Swept → Swept
unfolding delete_file
delete_files disk cutoff [] s = s
delete_files disk cutoff (f ∷ files) s =
    delete_files disk cutoff files (delete_file disk cutoff f s)

pub keeps_archive : ℤ → Bool
keeps_archive (pos days) = false
keeps_archive (negsuc days) = true

pub expire_archive : Disk → RetentionConfig → ℕ → Swept → Swept
unfolding delete_files keeps_archive cutoff_of
expire_archive disk cfg now s =
    if disk.glob_fails || keeps_archive cfg.archive_days
    then s
    else delete_files disk (cutoff_of cfg.archive_days now) s.archive (record s { archive = [] })

abbrev pub no_result : RetentionResult
no_result = record { errors = 0; wal_archived = 0; archive_deleted = 0; events_pruned = 0 }

pub archive_live : Disk → RetentionConfig → ℕ → List LogFile → List LogFile → Swept
unfolding archive_files cutoff_of with_error
archive_live disk cfg now live archive =
    if disk.list_fails
    then with_error (record { live = live; archive = archive; result = no_result })
    else archive_files disk (cutoff_of (pos cfg.retention_days) now) live
        (record { live = []; archive = archive; result = no_result })

-- Without a store nothing is pruned.
pub prune_events : Option (Option ℕ) → Swept → Swept
unfolding with_error
prune_events none s = s
prune_events (some none) s = with_error s
prune_events (some (some n)) s = record s { result = record s.result { events_pruned = n } }

pub run_retention_sweep : Disk → RetentionConfig → ℕ → List LogFile → List LogFile → Swept
unfolding prune_events expire_archive archive_live
run_retention_sweep disk cfg now live archive =
    prune_events disk.pruned (expire_archive disk cfg now (archive_live disk cfg now live archive))
