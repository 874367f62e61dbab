-- ===== src/Storage/Atomic.antt =====
-- The two functions that replace a file by way of a temporary one: `atomicJSONWrite` of
-- internal/storage/manifest.go and `atomicWriteFile` of internal/web/server.go. Every system call moves the
-- two files on, and the trail of their states is kept, for a power loss may come in any of them.
pub mod Replaces
use logfalcon.Prelude.{ℕ, Bool, true, false, Option, none, some, List, [], ◌∷◌, take}
use logfalcon.Exec.{Outcome, ok, err, panic, Exec, raise, ◌>>◌}

-- A file; `durable` says that its bytes were synced since they were written.
pub record Content : Type 0 where
  pub bytes : List ℕ
  pub durable : Bool

-- The file to be replaced, and the temporary one beside it.
pub record Files : Type 0 where
  pub target : Option Content
  pub temp : Option Content

-- The files now, their states after each system call, and the results of the calls to come: `some n` is a
-- failure, of a write after `n` bytes.
pub record Volume : Type 0 where
  pub now : Files
  pub trail : List Files
  pub answers : List (Option ℕ)

pub data WriteError : Type 0 where
  marshal_failed open_failed write_failed chmod_failed sync_failed close_failed rename_failed
        removal_failed :
      WriteError

abbrev pub Call : Type 0
Call = Exec Volume WriteError (Unit {0})

unfoldable pub moved_on : Files → List (Option ℕ) → Volume → Volume
moved_on files rest v = record { now = files; trail = files ∷ v.trail; answers = rest }

-- A system call, with what it does to the files where it succeeds and where it fails.
unfoldable pub answer_call :
    List (Option ℕ) → WriteError → (Files → Files) → (ℕ → Files → Files) → Call
unfolding moved_on
answer_call [] e good bad v = (ok tt, moved_on (good v.now) [] v)
answer_call (none ∷ rest) e good bad v = (ok tt, moved_on (good v.now) rest v)
answer_call (some n ∷ rest) e good bad v = (err e, moved_on (bad n v.now) rest v)

abbrev pub call : WriteError → (Files → Files) → (ℕ → Files → Files) → Call
call e good bad v = answer_call v.answers e good bad v

abbrev unchanged : ℕ → Files → Files
unchanged n files = files

-- `OpenFile` with O_TRUNC, or `CreateTemp`.
abbrev pub create : Files → Files
create files = record files { temp = some (record { bytes = []; durable = false }) }

abbrev pub write_temp : List ℕ → Files → Files
write_temp bytes files = record files { temp = some (record { bytes = bytes; durable = false }) }

abbrev pub sync_content : Option Content → Option Content
sync_content none = none
sync_content (some c) = some (record c { durable = true })

abbrev pub sync_temp : Files → Files
sync_temp files = record files { temp = sync_content files.temp }

abbrev pub rename_temp : Files → Files
rename_temp files = record { target = files.temp; temp = none }

abbrev pub remove_temp : Files → Files
remove_temp files = record files { temp = none }

-- A call whose error is dropped.
abbrev pub ignored : Call → Volume → Volume
ignored m v = (m v).1

unfoldable pub close_only : Volume → Volume
unfolding answer_call
close_only = ignored (call close_failed (λ files. files) unchanged)

unfoldable pub remove_only : Volume → Volume
unfolding answer_call
remove_only = ignored (call removal_failed remove_temp unchanged)

-- `if err := ...; err != nil { <clean>; return ... }`
abbrev pub cleaned :
    Outcome WriteError (Unit {0}) × Volume
    → (Volume → Volume)
    → Outcome WriteError (Unit {0}) × Volume
cleaned (ok a, v) clean = (ok a, v)
cleaned (err e, v) clean = (err e, clean v)
cleaned (panic, v) clean = (panic, v)

abbrev pub or_clean : Call → (Volume → Volume) → Call
or_clean m clean v = cleaned (m v) clean

abbrev pub open_call : Call
open_call = call open_failed create unchanged

abbrev pub chmod_call : Call
chmod_call = call chmod_failed (λ files. files) unchanged

abbrev pub sync_call : Call
sync_call = call sync_failed sync_temp unchanged

abbrev pub close_call : Call
close_call = call close_failed (λ files. files) unchanged

abbrev pub rename_call : Call
rename_call = call rename_failed rename_temp unchanged

-- The sync of the directory, whose errors are dropped.
abbrev pub sync_dir : Call
sync_dir v = (ok tt, v)

abbrev pub write_call : List ℕ → Call
write_call bytes = call write_failed (write_temp bytes) (λ n. write_temp (take n bytes))

abbrev pub discard : Volume → Volume
discard v = remove_only (close_only v)

-- `atomicJSONWrite`, from the opening of the temporary file on.
unfoldable pub write_json_file : List ℕ → Call
unfolding answer_call close_only remove_only
write_json_file bytes = do
  open_call
  or_clean (write_call bytes) discard
  or_clean sync_call discard
  or_clean close_call remove_only
  or_clean rename_call remove_only
  sync_dir

-- `atomicJSONWrite`; the argument is what `MarshalIndent` gives.
unfoldable pub atomic_json_write : Option (List ℕ) → Call
unfolding write_json_file
atomic_json_write none = raise marshal_failed
atomic_json_write (some bytes) = write_json_file bytes

-- `atomicWriteFile`; its deferred cleanup runs after the `Close` of an error path.
unfoldable pub atomic_write_file : List ℕ → Call
unfolding answer_call close_only remove_only
atomic_write_file bytes = do
  open_call
  or_clean (write_call bytes) discard
  or_clean chmod_call discard
  or_clean sync_call discard
  or_clean close_call remove_only
  or_clean rename_call remove_only
  sync_dir
