-- ===== src/Storage/Cleanup/Oldest.antt =====
-- internal/storage/manifest.go: which sessions `CleanupOldestSessions` deletes, and why it stops.
use logfalcon.Prelude.{ℕ, ◌≡◌, ◌≤◌, ◌<◌, Option, none, some, List, [], ◌∷◌, ◌++◌, map, length, All}
use logfalcon.Prelude.Sorting.{Pairwise, LexLe}
use logfalcon.Storage.Cleanup.{
  Candidate, session_id, CleanupError, free_unknown, remove_failed, Cleaned, Disk, collect_root,
  remove_all, answer_rmdir, judge_free, delete_loop,
}
use logfalcon.Storage.Cleanup.Removal.{without}

-- The candidates that none of `cs` is.
unfoldable pub without_all : List Candidate → List Candidate → List Candidate
unfolding without
without_all [] l = l
without_all (c ∷ cs) l = without_all cs (without c l)

-- No name is after a later one.
abbrev pub OldestFirst : List Candidate → Type 0
OldestFirst = Pairwise (λ a b. LexLe a.name b.name)

-- Why the loop stops before the candidates `left`, with the measurements `after` still to come: none is
-- left; the space is enough; it cannot be measured; or the first of `left` cannot be removed.
pub data Stop (required : ℕ) : List Candidate → List (Option ℕ) → Option CleanupError → Type 0 where
  none_left : {after : List (Option ℕ)} → Stop required [] after none
  enough :
      {left : List Candidate} {after : List (Option ℕ)} (free : ℕ)
      → required ≤ free
      → Stop required left (some free ∷ after) none
  no_answer : {left : List Candidate} → Stop required left [] (some free_unknown)
  not_measured :
      {left : List Candidate} {after : List (Option ℕ)}
      → Stop required left (none ∷ after) (some free_unknown)
  not_removed :
      {c : Candidate} {left : List Candidate} {after : List (Option ℕ)} (free : ℕ)
      → free < required
      → Stop required (c ∷ left) (some free ∷ after) (some (remove_failed c))

module _ {M : Type 0} where
  -- A run of the loop over `order`: it deleted the candidates `done`, for each of which the space had just
  -- been measured and was too little, and no other left the disk.
  pub record Deletes (required : ℕ) (order : List Candidate) (before : Disk M)
      (out : Cleaned × Disk M) : Type 0 where
    pub done : List Candidate
    pub left : List Candidate
    pub short : List ℕ
    pub after : List (Option ℕ)
    pub in_order : order ≡ done ++ left
    pub reported : (out.0).deleted ≡ map session_id done
    pub measured : before.free ≡ map some short ++ after
    pub once_each : length short ≡ length done
    pub too_little : All (λ free. free < required) short
    pub stopped : Stop required left after (out.0).failure
    pub kept : collect_root (out.1).entries ≡ without_all done (collect_root before.entries)

  -- One round, from the measurement on.
  abbrev round : ℕ → Candidate → List Candidate → Option ℕ × Disk M → Cleaned × Disk M
  round required c cs (free, measured) =
      let removed = (remove_all c measured).1 in
      judge_free required c free measured (remove_all c measured)
        (delete_loop required cs (answer_rmdir removed.rmdirs c.fc removed))
