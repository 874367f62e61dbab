-- ===== src/Storage/Sessions/Listed.antt =====
-- internal/storage/manifest.go: what `ListSessions` lists.
use logfalcon.Prelude.{◌≡◌, ℕ, suc, ◌+◌, Bool, List, [], ◌∷◌}
use logfalcon.Prelude.Sorting.{Pairwise, LexLe}
use logfalcon.Storage.Sessions.{
  Entry, session, plain, unreadable, corrupt, decoded, FcEntry, other, locked, fc_dir, Session,
  make_session,
}
use mathlib.Core.List.{Memᴰ}
use mathlib.Core.List.Memᴰ
use mathlib.Core.List.Permᴰ

module _ {M : Type 0} (root : List ℕ) where
  -- A directory of a flight controller holds the session `s`: its manifest decodes.
  pub data DirHolds (fc : List ℕ) (es : List (List ℕ × Entry M)) (s : Session M) : Type 0 where
    dir_holds :
        (name : List ℕ) (m : M) (holds_raw : Bool)
        → Memᴰ (name, session (decoded m) holds_raw) es
        → s ≡ make_session root fc name m holds_raw
        → DirHolds fc es s

  -- The storage root holds the session `s`, in a readable directory.
  pub data RootHolds (es : List (List ℕ × FcEntry M)) (s : Session M) : Type 0 where
    root_holds :
        (fc : List ℕ) (entries : List (List ℕ × Entry M))
        → Memᴰ (fc, fc_dir entries) es
        → DirHolds fc entries s
        → RootHolds es s

  -- How many sessions there are.
  abbrev pub count_dir : List (List ℕ × Entry M) → ℕ
  count_dir [] = 0
  count_dir ((name, plain) ∷ es) = count_dir es
  count_dir ((name, session unreadable raw) ∷ es) = count_dir es
  count_dir ((name, session corrupt raw) ∷ es) = count_dir es
  count_dir ((name, session (decoded m) raw) ∷ es) = suc (count_dir es)

  abbrev pub count_root : List (List ℕ × FcEntry M) → ℕ
  count_root [] = 0
  count_root ((fc, other) ∷ es) = count_root es
  count_root ((fc, locked) ∷ es) = count_root es
  count_root ((fc, fc_dir entries) ∷ es) = count_dir entries + count_root es

  -- No name is before a later one.
  abbrev pub NewestFirst : List (Session M) → Type 0
  NewestFirst = Pairwise (λ a b. LexLe b.name a.name)
