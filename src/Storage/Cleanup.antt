-- ===== src/Storage/Cleanup.antt =====
-- internal/storage/manifest.go: `CleanupOldestSessions`. The results of its system calls are given in
-- advance; a removal that fails may leave any part of the session behind.
pub mod Removal
pub mod Oldest
use logfalcon.Prelude.{
  ℕ, zero, suc, Bool, true, false, ◌&&◌, Option, none, some, List, [], ◌∷◌, ◌++◌, leb,
  if◌then◌else◌, bytes_eq, map,
}
use logfalcon.Prelude.Ints.{ℤ, pos, negsuc}
use logfalcon.Prelude.Sorting.{bytes_less}
use logfalcon.Storage.Sessions.{
  Entry, plain, session, Stored, FcEntry, other, locked, fc_dir, Root, absent, broken, present,
  join,
}

-- `candidate`: the directory of a flight controller, and the session below it.
pub record Candidate : Type 0 where
  pub fc : List ℕ
  pub name : List ℕ

abbrev pub session_id : Candidate → List ℕ
session_id c = join c.fc c.name

pub data CleanupError : Type 0 where
  root_unreadable free_unknown : CleanupError
  remove_failed : Candidate → CleanupError

-- The two results of the function.
pub record Cleaned : Type 0 where
  pub deleted : List (List ℕ)
  pub failure : Option CleanupError

-- `RemoveAll` of a session; a failure tells what it leaves.
pub data Removed (M : Type 0) : Type 0 where
  gone : Removed M
  left_over : Stored M → Bool → Removed M

-- The storage root, and the answers to come: of `FreeBytes`, then errors; of `RemoveAll` and of `Remove`
-- on an empty directory, then successes.
pub record Disk (M : Type 0) : Type 0 where
  pub entries : List (List ℕ × FcEntry M)
  pub free : List (Option ℕ)
  pub removals : List (Removed M)
  pub rmdirs : List Bool

-- The comparison: oldest first.
abbrev pub older : Candidate → Candidate → Bool
older a b = bytes_less a.name b.name

module _ {M : Type 0} where
  -- The inner loop that collects the candidates.
  unfoldable pub collect_dir : List ℕ → List (List ℕ × Entry M) → List Candidate
  collect_dir fc [] = []
  collect_dir fc ((name, plain) ∷ es) = collect_dir fc es
  collect_dir fc ((name, session manifest raw) ∷ es) =
      record { fc = fc; name = name } ∷ collect_dir fc es

  unfoldable pub collect_fc : List ℕ → FcEntry M → List Candidate
  unfolding collect_dir
  collect_fc fc other = []
  collect_fc fc locked = []
  collect_fc fc (fc_dir es) = collect_dir fc es

  unfoldable pub collect_root : List (List ℕ × FcEntry M) → List Candidate
  unfolding collect_fc
  collect_root [] = []
  collect_root ((fc, e) ∷ es) = collect_fc fc e ++ collect_root es

  -- The entry of a session that is removed, or what is left of it.
  unfoldable pub remove_entry : Removed M → List ℕ → Entry M → List (List ℕ × Entry M)
  remove_entry r name plain = (name, plain) ∷ []
  remove_entry gone name (session manifest raw) = []
  remove_entry (left_over manifest' raw') name (session manifest raw) =
      (name, session manifest' raw') ∷ []

  unfoldable pub remove_in_dir :
      Removed M → List ℕ → List (List ℕ × Entry M) → List (List ℕ × Entry M)
  unfolding remove_entry
  remove_in_dir r name [] = []
  remove_in_dir r name ((n, e) ∷ es) =
      (if bytes_eq n name then remove_entry r n e else (n, e) ∷ []) ++ remove_in_dir r name es

  unfoldable pub remove_in_fc : Removed M → List ℕ → FcEntry M → FcEntry M
  unfolding remove_in_dir
  remove_in_fc r name other = other
  remove_in_fc r name locked = locked
  remove_in_fc r name (fc_dir es) = fc_dir (remove_in_dir r name es)

  unfoldable pub remove_in_root :
      Removed M → Candidate → List (List ℕ × FcEntry M) → List (List ℕ × FcEntry M)
  unfolding remove_in_fc
  remove_in_root r c [] = []
  remove_in_root r c ((fc, e) ∷ es) =
      (fc, (if bytes_eq fc c.fc then remove_in_fc r c.name e else e)) ∷ remove_in_root r c es

  -- `if len(remaining) == 0 { _ = os.Remove(parent) }`, where the call succeeds.
  unfoldable pub is_empty_dir : FcEntry M → Bool
  is_empty_dir (fc_dir []) = true
  is_empty_dir _ = false

  unfoldable pub remove_empty : List ℕ → List (List ℕ × FcEntry M) → List (List ℕ × FcEntry M)
  unfolding is_empty_dir
  remove_empty parent [] = []
  remove_empty parent ((fc, e) ∷ es) =
      (if bytes_eq fc parent && is_empty_dir e then [] else (fc, e) ∷ []) ++ remove_empty parent es

  -- `FreeBytes`, with its answers.
  unfoldable pub answer_free : List (Option ℕ) → Disk M → Option ℕ × Disk M
  answer_free [] d = (none, d)
  answer_free (free ∷ rest) d = (free, record d { free = rest })

  -- `RemoveAll`, with its answers.
  unfoldable pub answer_removal : List (Removed M) → Disk M → Removed M × Disk M
  answer_removal [] d = (gone, d)
  answer_removal (r ∷ rest) d = (r, record d { removals = rest })

  unfoldable pub remove_all : Candidate → Disk M → Removed M × Disk M
  unfolding answer_removal remove_in_root
  remove_all c d =
      let (r, d') = answer_removal d.removals d in
      (r, record d' { entries = remove_in_root r c (d'.entries) })

  -- `Remove` of the parent, with its answers.
  unfoldable pub answer_rmdir : List Bool → List ℕ → Disk M → Disk M
  unfolding remove_empty
  answer_rmdir [] parent d = record d { entries = remove_empty parent d.entries }
  answer_rmdir (true ∷ rest) parent d = record d {
    entries = remove_empty parent d.entries;
    rmdirs = rest;
  }
  answer_rmdir (false ∷ rest) parent d = record d { rmdirs = rest }

  -- The body of the deleting loop: `measured` and `removed` are the disk after the measurement
  -- and after the removal, and `rest` what the loop does from then on.
  unfoldable pub judge_removal :
      Candidate → Removed M → (removed : Disk M) → (rest : Cleaned × Disk M) → Cleaned × Disk M
  judge_removal c gone removed rest =
      (record (rest.0) { deleted = session_id c ∷ (rest.0).deleted }, rest.1)
  judge_removal c (left_over manifest raw) removed rest =
      (record { deleted = []; failure = some (remove_failed c) }, removed)

  unfoldable pub judge_free :
      ℕ
      → Candidate
      → Option ℕ
      → (measured : Disk M) → (removal : Removed M × Disk M) → (rest : Cleaned × Disk M)
      → Cleaned × Disk M
  unfolding judge_removal
  judge_free required c none measured removal rest =
      (record { deleted = []; failure = some free_unknown }, measured)
  judge_free required c (some free) measured removal rest =
      if leb required free
      then (record { deleted = []; failure = none }, measured)
      else judge_removal c removal.0 removal.1 rest

  -- The deleting loop; `deleted` is what it appends.
  unfoldable pub delete_loop : ℕ → List Candidate → Disk M → Cleaned × Disk M
  unfolding answer_free remove_all answer_rmdir judge_free
  delete_loop required [] d = (record { deleted = []; failure = none }, d)
  delete_loop required (c ∷ cs) d =
      let (free, measured) = answer_free d.free d in
      let (r, removed) = remove_all c measured in
      let rest = delete_loop required cs (answer_rmdir removed.rmdirs c.fc removed) in
      judge_free required c free measured (r, removed) rest

  -- `CleanupOldestSessions` below a root that can be read, and before.
  unfoldable pub cleanup_present : (List Candidate → List Candidate) → ℕ → Disk M → Cleaned × Disk M
  unfolding collect_root delete_loop
  cleanup_present sort required d = delete_loop required (sort (collect_root d.entries)) d

  unfoldable pub cleanup_oldest_sessions :
      (List Candidate → List Candidate) → ℤ → Root M → Disk M → Cleaned × Disk M
  unfolding cleanup_present
  cleanup_oldest_sessions sort (negsuc n) root d = (record { deleted = []; failure = none }, d)
  cleanup_oldest_sessions sort (pos zero) root d = (record { deleted = []; failure = none }, d)
  cleanup_oldest_sessions sort (pos (suc n)) absent d = (record { deleted = []; failure = none }, d)
  cleanup_oldest_sessions sort (pos (suc n)) broken d =
      (record { deleted = []; failure = some root_unreadable }, d)
  cleanup_oldest_sessions sort (pos (suc n)) (present es) d =
      cleanup_present sort (suc n) (record d { entries = es })
