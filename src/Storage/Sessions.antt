-- ===== src/Storage/Sessions.antt =====
-- internal/storage/manifest.go: the directories of sessions, their listing, and the cleanup. The
-- directory tree below the storage root is data: every directory with its entries, in the order of
-- `ReadDir`. `sort.Slice` is an argument, since the order of sessions with the same name is its choice.
pub mod Listed
use logfalcon.Prelude.{
  ℕ, zero, suc, Bool, true, false, not, Option, none, some, List, [], ◌∷◌, ◌++◌, ltb, leb, ◌==◌,
  ◌&&◌, if◌then◌else◌, length, take, bytes_eq,
}
use logfalcon.Prelude.Ints.{ℤ, pos, negsuc}
use logfalcon.Prelude.Sorting.{bytes_less}
use Prim.Native.String.{String}

-- What `ReadFile` and `Unmarshal` give for manifest.json.
pub data Stored (M : Type 0) : Type 0 where
  unreadable corrupt : Stored M
  decoded : M → Stored M

-- An entry of a directory of a flight controller; `holds_raw` says that raw_flash.bbl is there.
pub data Entry (M : Type 0) : Type 0 where
  plain : Entry M
  session : (manifest : Stored M) → (holds_raw : Bool) → Entry M

-- An entry of the storage root; `locked` is a directory that cannot be read.
pub data FcEntry (M : Type 0) : Type 0 where
  other locked : FcEntry M
  fc_dir : List (List ℕ × Entry M) → FcEntry M

pub data Root (M : Type 0) : Type 0 where
  absent broken : Root M
  present : List (List ℕ × FcEntry M) → Root M

-- `Session`, and the manifest it points to.
pub record Session (M : Type 0) : Type 0 where
  pub session_id : List ℕ
  pub fc : List ℕ
  pub name : List ℕ
  pub path : List ℕ
  pub bbl_path : Option (List ℕ)
  pub manifest : M

-- `filepath.Join` of a clean path and a name.
unfoldable pub join : List ℕ → List ℕ → List ℕ
join dir name = dir ++ b'/' ∷ name

abbrev pub raw_flash_filename : List ℕ
raw_flash_filename =
    b'r' ∷ b'a' ∷ b'w' ∷ b'_' ∷ b'f' ∷ b'l' ∷ b'a' ∷ b's' ∷ b'h' ∷ b'.' ∷ b'b' ∷ b'b' ∷ b'l' ∷ []

-- `MakeSessionDir`: the eight characters of the UID.
abbrev unknown : List ℕ
unknown = b'u' ∷ b'n' ∷ b'k' ∷ b'n' ∷ b'o' ∷ b'w' ∷ b'n' ∷ []

unfoldable pub uid_short : List ℕ → List ℕ
uid_short uid =
    if not (length uid == 0) && not (bytes_eq uid unknown)
    then (if ltb 8 (length uid) then take 8 uid else uid)
    else unknown

unfoldable pub fc_dir_name : List ℕ → List ℕ → List ℕ
unfolding uid_short
fc_dir_name variant uid =
    b'f' ∷ b'c' ∷ b'_' ∷ variant ++ b'_' ∷ b'u' ∷ b'i' ∷ b'd' ∷ b'-' ∷ uid_short uid

-- `MakeSessionDir`; `timestamp` is the formatted time, `made` the result of `MkdirAll`.
unfoldable pub make_session_dir : List ℕ → List ℕ → List ℕ → List ℕ → Bool → Option (List ℕ)
unfolding fc_dir_name join
make_session_dir root variant uid timestamp made =
    if made then some (join (join root (fc_dir_name variant uid)) timestamp) else none

module _ {M : Type 0} where
  unfoldable pub make_session : List ℕ → List ℕ → List ℕ → M → Bool → Session M
  unfolding join
  make_session root fc name m holds_raw = record {
    session_id = join fc name;
    fc = fc;
    name = name;
    path = join (join root fc) name;
    bbl_path =
        if holds_raw then some (join (join (join root fc) name) raw_flash_filename) else none;
    manifest = m;
  }

  -- The body of the inner loop of `ListSessions`; a `continue` lists nothing.
  unfoldable pub list_entry : List ℕ → List ℕ → List ℕ → Entry M → List (Session M)
  unfolding make_session
  list_entry root fc name plain = []
  list_entry root fc name (session unreadable holds_raw) = []
  list_entry root fc name (session corrupt holds_raw) = []
  list_entry root fc name (session (decoded m) holds_raw) =
      make_session root fc name m holds_raw ∷ []

  unfoldable pub list_dir : List ℕ → List ℕ → List (List ℕ × Entry M) → List (Session M)
  unfolding list_entry
  list_dir root fc [] = []
  list_dir root fc ((name, e) ∷ es) = list_entry root fc name e ++ list_dir root fc es

  unfoldable pub list_fc : List ℕ → List ℕ → FcEntry M → List (Session M)
  unfolding list_dir
  list_fc root fc other = []
  list_fc root fc locked = []
  list_fc root fc (fc_dir es) = list_dir root fc es

  unfoldable pub list_root : List ℕ → List (List ℕ × FcEntry M) → List (Session M)
  unfolding list_fc
  list_root root [] = []
  list_root root ((fc, e) ∷ es) = list_fc root fc e ++ list_root root es

  -- The comparison of `ListSessions`: newest first.
  abbrev pub newer : Session M → Session M → Bool
  newer a b = bytes_less b.name a.name

  -- `ListSessions`; `none` is an error.
  unfoldable pub list_sessions :
      (List (Session M) → List (Session M)) → List ℕ → Root M → Option (List (Session M))
  unfolding list_root
  list_sessions sort root absent = some []
  list_sessions sort root broken = none
  list_sessions sort root (present es) = some (sort (list_root root es))
