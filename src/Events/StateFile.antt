-- ===== src/Events/StateFile.antt =====
-- The state file of a sequence allocator: `loadSeqState` and `writeSeqStateAtomic` of
-- internal/events/seqalloc.go.
--
-- A file's text is kept as what `strings.TrimSpace` and `strconv.ParseInt` make of it. The calls
-- of the operating system may fail: a `Faults` says which of them do.
use aikey_proxy.Prelude.{
  ℕ, ◌<◌, ◌≡◌, refl, ◌⊎◌, arith, String, Bool, false, Option, none, some, Map, Result, ok, err, ltb,
  if◌then◌else◌,
}
use aikey_proxy.Prelude.Words.{ℤ, pos, negsuc, signed64, sign_bound}
use aikey_proxy.Prelude.Maps.{insert, insert_self}

-- A text of white space, a decimal integer, or anything else.
pub data StateText : Type 0 where
  blank : StateText
  decimal : ℤ → StateText
  other_text : StateText

pub data SeqError : Type 0 where
  read_failed corrupt_state negative_state : SeqError
  create_failed write_failed sync_failed close_failed rename_failed : SeqError

-- Which calls of the operating system fail, during one operation.
pub record Faults : Type 0 where
  pub read : Bool
  pub create : Bool
  pub write : Bool
  pub sync : Bool
  pub close : Bool
  pub rename : Bool

abbrev pub no_faults : Faults
no_faults = record {
  read = false;
  create = false;
  write = false;
  sync = false;
  close = false;
  rename = false;
}

-- The files by name, and the temporary file of a write that is under way.
pub record Fs : Type 0 where
  pub files : Map StateText
  pub temp : Option StateText

-- `strconv.ParseInt` on a trimmed text, and the test for a negative value.
unfoldable pub parse_state : StateText → Result SeqError ℕ
parse_state blank = ok 0
parse_state (decimal (pos n)) = if ltb n sign_bound then ok n else err corrupt_state
parse_state (decimal (negsuc n)) =
    if ltb n sign_bound then err negative_state else err corrupt_state
parse_state other_text = err corrupt_state

unfoldable pub read_state : Option StateText → Result SeqError ℕ
unfolding parse_state
read_state none = ok 0
read_state (some text) = parse_state text

unfoldable pub load_seq_state : Faults → String → Fs → Result SeqError ℕ
unfolding read_state
load_seq_state faults path fs = if faults.read then err read_failed else read_state (fs.files path)

-- The steps from the rename backwards; an error removes the temporary file.
unfoldable pub commit_temp : Faults → String → StateText → Fs → Result SeqError Unit × Fs
commit_temp faults path text fs =
    if faults.rename
    then (err rename_failed, record fs { temp = none })
    else (ok tt, record { files = insert path text fs.files; temp = none })

unfoldable pub close_temp : Faults → String → StateText → Fs → Result SeqError Unit × Fs
unfolding commit_temp
close_temp faults path text fs =
    if faults.close
    then (err close_failed, record fs { temp = none })
    else commit_temp faults path text fs

unfoldable pub sync_temp : Faults → String → StateText → Fs → Result SeqError Unit × Fs
unfolding close_temp
sync_temp faults path text fs =
    if faults.sync
    then (err sync_failed, record fs { temp = none })
    else close_temp faults path text fs

unfoldable pub write_temp : Faults → String → StateText → Fs → Result SeqError Unit × Fs
unfolding sync_temp
write_temp faults path text fs =
    if faults.write
    then (err write_failed, record fs { temp = none })
    else sync_temp faults path text (record fs { temp = some text })

unfoldable pub write_seq_state_atomic : Faults → String → ℕ → Fs → Result SeqError Unit × Fs
unfolding write_temp
write_seq_state_atomic faults path hi fs =
    if faults.create
    then (err create_failed, fs)
    else write_temp faults path (decimal (signed64 hi)) (record fs { temp = some blank })

abbrev pub StateWrite : Type 0
StateWrite = Result SeqError Unit × Fs

-- One write stores the whole value or leaves every file as it was.
abbrev pub WritesAtomically : String → ℕ → Fs → StateWrite → Type 0
WritesAtomically path hi fs w =
    ((w.0 ≡ ok tt) × (w.1.files ≡ insert path (decimal (signed64 hi)) fs.files))
    ⊎ ((e : SeqError) × (w.0 ≡ err e) × (w.1.files ≡ fs.files))

pub write_cases :
    (faults : Faults) (path : String) (hi : ℕ) (fs : Fs)
    → WritesAtomically path hi fs (write_seq_state_atomic faults path hi fs)
unfolding write_seq_state_atomic
write_cases faults path hi fs = ground arith

-- Without a fault of the operating system the write succeeds.
pub write_ok :
    (path : String) (hi : ℕ) (fs : Fs) → (write_seq_state_atomic no_faults path hi fs).0 ≡ ok tt
unfolding write_seq_state_atomic
write_ok path hi fs = refl

-- The mark that a start would read, if the read itself does not fail.
abbrev pub stored : String → Fs → Result SeqError ℕ
stored path fs = load_seq_state no_faults path fs

-- A value that was written is read back.
pub stored-write :
    (path : String) (hi : ℕ) (fs fs' : Fs)
    → hi < sign_bound
    → fs'.files ≡ insert path (decimal (signed64 hi)) fs.files
    → stored path fs' ≡ ok hi
unfolding load_seq_state
stored-write path hi fs fs' h e =
    rw (e, read_state, insert_self path (decimal (signed64 hi)) fs.files) (ground arith)

pub stored-same :
    (path : String) (fs fs' : Fs) → fs'.files ≡ fs.files → stored path fs' ≡ stored path fs
unfolding load_seq_state
stored-same path fs fs' e = rw e

pub load_cases :
    (faults : Faults) (path : String) (fs : Fs)
    → (load_seq_state faults path fs ≡ err read_failed)
      ⊎ (load_seq_state faults path fs ≡ stored path fs)
unfolding load_seq_state
load_cases faults path fs = ground arith
