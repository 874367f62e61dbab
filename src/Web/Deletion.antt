-- ===== src/Web/Deletion.antt =====
-- internal/web/server.go: `handleDeleteSession`. The directory tree is the list of the paths in it; what a
-- failing removal leaves is an argument.
pub mod Guarded
use logfalcon.Prelude.{
  ℕ, zero, suc, Bool, true, false, not, ◌&&◌, Option, none, some, List, [], ◌∷◌, ◌++◌, ◌==◌, leb,
  if◌then◌else◌, bytes_eq, length,
}
use logfalcon.Web.Text.{trim_prefix}
use logfalcon.Web.Sessions.{CleanPath, Places, resolve_session_path}

unfoldable pub path_eq : CleanPath → CleanPath → Bool
path_eq [] [] = true
path_eq (c ∷ p) (d ∷ q) = bytes_eq c d && path_eq p q
path_eq _ _ = false

-- Whether the second path is the first or lies below it.
unfoldable pub is_below : CleanPath → CleanPath → Bool
is_below [] q = true
is_below (c ∷ p) [] = false
is_below (c ∷ p) (d ∷ q) = bytes_eq c d && is_below p q

unfoldable pub any_path : (CleanPath → Bool) → List CleanPath → Bool
any_path p [] = false
any_path p (q ∷ qs) = if p q then true else any_path p qs

unfoldable pub keep_paths : (CleanPath → Bool) → List CleanPath → List CleanPath
keep_paths p [] = []
keep_paths p (q ∷ qs) = (if p q then q ∷ [] else []) ++ keep_paths p qs

-- `filepath.Dir`
unfoldable pub parent_of : CleanPath → CleanPath
parent_of [] = []
parent_of (c ∷ []) = []
parent_of (c ∷ d ∷ p) = c ∷ parent_of (d ∷ p)

-- `RemoveAll`: all goes, or it fails and leaves some of what it was to remove.
pub data Removal : Type 0 where
  all_goes : Removal
  stays : (CleanPath → Bool) → Removal

-- The paths on the disk, what the next removal meets, whether the parent can be removed, and whether the
-- cache of sessions is still to be used.
pub record Site : Type 0 where
  pub tree : List CleanPath
  pub removal : Removal
  pub rmdir_good : Bool
  pub cache_kept : Bool

-- The paths that a removal of `p` leaves.
unfoldable pub survives : Removal → CleanPath → CleanPath → Bool
unfolding is_below
survives all_goes p q = not (is_below p q)
survives (stays left) p q = if is_below p q then left q else true

-- `if len(remaining) == 0 { _ = os.Remove(parent) }`
abbrev pub is_child : CleanPath → CleanPath → Bool
is_child parent q = is_below parent q && not (path_eq parent q)

unfoldable pub remove_empty_parent : CleanPath → Site → Site
unfolding any_path keep_paths is_below path_eq
remove_empty_parent parent s =
    if any_path (is_child parent) s.tree
    then s
    else if s.rmdir_good
    then record s { tree = keep_paths (λ q. not (path_eq parent q)) s.tree }
    else s

-- After `RemoveAll`.
unfoldable pub after_removal : Removal → CleanPath → Site → ℕ × Site
unfolding parent_of remove_empty_parent
after_removal (stays left) p s = (500, s)
after_removal all_goes p s =
    (200, record (remove_empty_parent (parent_of p) s) { cache_kept = false })

-- From the `Stat` on.
unfoldable pub delete_path : Option CleanPath → Site → ℕ × Site
unfolding any_path is_below keep_paths survives after_removal
delete_path none s = (400, s)
delete_path (some p) s =
    if any_path (is_below p) s.tree
    then after_removal s.removal p (record s { tree = keep_paths (survives s.removal p) s.tree })
    else (404, s)

abbrev pub sessions_prefix : List ℕ
sessions_prefix = b'/' ∷ b's' ∷ b'e' ∷ b's' ∷ b's' ∷ b'i' ∷ b'o' ∷ b'n' ∷ b's' ∷ b'/' ∷ []

-- `handleDeleteSession`; the answer is the status.
unfoldable pub handle_delete_session :
    Places → (csrf_token header url_path : List ℕ) → Site → ℕ × Site
unfolding trim_prefix resolve_session_path delete_path
handle_delete_session places csrf_token header url_path s =
    if bytes_eq header csrf_token
    then delete_path (resolve_session_path places (trim_prefix url_path sessions_prefix)) s
    else (403, s)
