-- ===== src/Storage/Cleanup/Removal.antt =====
-- internal/storage/manifest.go: what the removals of `CleanupOldestSessions` leave on the disk.
use logfalcon.Prelude.{
  ℕ, ◌≡◌, refl, ap, sym, Bool, false, ◌&&◌, List, [], ◌∷◌, ◌++◌, arith, if◌then◌else◌, on_if,
  bytes_eq, bytes_eq_refl, bytes_eq_sound,
}
use logfalcon.Storage.Sessions.{Entry, plain, session, Stored, FcEntry, other, locked, fc_dir}
use logfalcon.Storage.Cleanup.{
  Candidate, gone, left_over, collect_dir, collect_fc, collect_root, remove_entry, remove_in_dir,
  remove_in_fc, remove_in_root, is_empty_dir, remove_empty,
}

unfoldable pub same : Candidate → Candidate → Bool
same c x = bytes_eq x.fc c.fc && bytes_eq x.name c.name

-- The candidates other than `c`.
unfoldable pub without : Candidate → List Candidate → List Candidate
unfolding same
without c [] = []
without c (x ∷ xs) = (if same c x then [] else x ∷ []) ++ without c xs

without-append :
    (c : Candidate) (xs ys : List Candidate) → without c (xs ++ ys) ≡ without c xs ++ without c ys
unfolding without
without-append c [] ys = refl
without-append c (x ∷ xs) ys =
    on_if (λ r. r ++ without c (xs ++ ys) ≡ (r ++ without c xs) ++ without c ys) (same c x) []
      (x ∷ []) (λ _. without-append c xs ys) (λ _. ap (◌∷◌ x) (without-append c xs ys))

module _ {M : Type 0} where
  -- In the directory of the candidate its removal takes away the candidate.
  remove_in_dir_gone :
      (fc name : List ℕ) (es : List (List ℕ × Entry M))
      → collect_dir fc (remove_in_dir gone name es)
        ≡ without (record { fc = fc; name = name }) (collect_dir fc es)
  unfolding collect_dir remove_in_dir remove_entry without same
  remove_in_dir_gone fc name [] = refl
  remove_in_dir_gone fc name ((n, plain) ∷ es) = ground (arith, remove_in_dir_gone fc name es)
  remove_in_dir_gone fc name ((n, session m raw) ∷ es) =
      ground (arith, bytes_eq_refl fc, remove_in_dir_gone fc name es)

  -- A removal that fails keeps every candidate.
  remove_in_dir_left :
      (fc name : List ℕ) (m : Stored M) (raw : Bool) (es : List (List ℕ × Entry M))
      → collect_dir fc (remove_in_dir (left_over m raw) name es) ≡ collect_dir fc es
  unfolding collect_dir remove_in_dir remove_entry
  remove_in_dir_left fc name m raw [] = refl
  remove_in_dir_left fc name m raw ((n, plain) ∷ es) =
      ground (arith, remove_in_dir_left fc name m raw es)
  remove_in_dir_left fc name m raw ((n, session m' raw') ∷ es) =
      ground (arith, remove_in_dir_left fc name m raw es)

  -- Another directory holds no such candidate.
  without_elsewhere :
      (c : Candidate) (fc : List ℕ) (es : List (List ℕ × Entry M))
      → bytes_eq fc c.fc ≡ false
      → without c (collect_dir fc es) ≡ collect_dir fc es
  unfolding collect_dir without same
  without_elsewhere c fc [] h = refl
  without_elsewhere c fc ((n, plain) ∷ es) h = without_elsewhere c fc es h
  without_elsewhere c fc ((n, session m raw) ∷ es) h =
      ground (arith, h, without_elsewhere c fc es h)

  remove_in_fc_gone :
      (c : Candidate) (fc : List ℕ) (e : FcEntry M)
      → collect_fc fc (if bytes_eq fc c.fc then remove_in_fc gone c.name e else e)
        ≡ without c (collect_fc fc e)
  unfolding collect_fc remove_in_fc without
  remove_in_fc_gone c fc other = ground arith
  remove_in_fc_gone c fc locked = ground arith
  remove_in_fc_gone c fc (fc_dir es) =
      on_if (λ r. collect_fc fc r ≡ without c (collect_dir fc es)) (bytes_eq fc c.fc)
        (fc_dir (remove_in_dir gone c.name es)) (fc_dir es)
        (λ h. rw (bytes_eq_sound fc c.fc h) (remove_in_dir_gone c.fc c.name es))
        (λ h. sym (without_elsewhere c fc es h))

  remove_in_fc_left :
      (c : Candidate) (m : Stored M) (raw : Bool) (fc : List ℕ) (e : FcEntry M)
      → collect_fc fc (if bytes_eq fc c.fc then remove_in_fc (left_over m raw) c.name e else e)
        ≡ collect_fc fc e
  unfolding collect_fc remove_in_fc
  remove_in_fc_left c m raw fc other = ground arith
  remove_in_fc_left c m raw fc locked = ground arith
  remove_in_fc_left c m raw fc (fc_dir es) = ground (arith, remove_in_dir_left fc c.name m raw es)

  -- A removal takes away its candidate, and no other.
  pub remove_in_root_gone :
      (c : Candidate) (es : List (List ℕ × FcEntry M))
      → collect_root (remove_in_root gone c es) ≡ without c (collect_root es)
  unfolding collect_root remove_in_root without
  remove_in_root_gone c [] = refl
  remove_in_root_gone c ((fc, e) ∷ es) =
      rw
        (
          without-append c (collect_fc fc e) (collect_root es),
          remove_in_fc_gone c fc e,
          remove_in_root_gone c es,
        )
        refl

  pub remove_in_root_left :
      (c : Candidate) (m : Stored M) (raw : Bool) (es : List (List ℕ × FcEntry M))
      → collect_root (remove_in_root (left_over m raw) c es) ≡ collect_root es
  unfolding collect_root remove_in_root
  remove_in_root_left c m raw [] = refl
  remove_in_root_left c m raw ((fc, e) ∷ es) =
      rw (remove_in_fc_left c m raw fc e, remove_in_root_left c m raw es) refl

  -- The removal of empty directories keeps every candidate.
  pub remove_empty_keeps :
      (parent : List ℕ) (es : List (List ℕ × FcEntry M))
      → collect_root (remove_empty parent es) ≡ collect_root es
  unfolding collect_root collect_fc collect_dir remove_empty is_empty_dir
  remove_empty_keeps parent [] = refl
  remove_empty_keeps parent ((fc, other) ∷ es) = ground (arith, remove_empty_keeps parent es)
  remove_empty_keeps parent ((fc, locked) ∷ es) = ground (arith, remove_empty_keeps parent es)
  remove_empty_keeps parent ((fc, fc_dir []) ∷ es) = ground (arith, remove_empty_keeps parent es)
  remove_empty_keeps parent ((fc, fc_dir (x ∷ xs)) ∷ es) =
      ground (arith, remove_empty_keeps parent es)
