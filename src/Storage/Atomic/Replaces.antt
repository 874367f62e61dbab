-- ===== src/Storage/Atomic/Replaces.antt =====
-- internal/storage/manifest.go and internal/web/server.go: a file is replaced as a whole or not at all.
use logfalcon.Prelude.{
  ℕ, ◌≡◌, refl, ap, ◌∙◌, ◌⊎◌, inl, inr, true, false, Option, none, some, List, [], ◌∷◌, take, All,
}
use logfalcon.Exec.{Outcome, ok, err, panic, continue, ◌>>◌}
use logfalcon.Storage.Atomic.{
  create, write_temp, write_call, chmod_call, open_failed, write_failed, chmod_failed, Content,
  Files, Volume, WriteError, Call, moved_on, answer_call, close_only, remove_only, remove_temp,
  cleaned, discard, or_clean, sync_call, close_call, rename_call, sync_dir, sync_content, sync_temp,
  rename_temp, sync_failed, close_failed, rename_failed, write_json_file, atomic_json_write,
  atomic_write_file,
}

module _ (old : Option Content) (new : List ℕ) where
  abbrev pub replaced : Option Content
  replaced = some (record { bytes = new; durable = true })

  -- After a power loss the file is what it was, or the whole new content.
  abbrev pub IsWhole : Files → Type 0
  IsWhole files = (files.target ≡ old) ⊎ (files.target ≡ replaced)

  -- The abstract replacement: nothing or all of it, in every state passed through, and all of it exactly if
  -- no error is returned.
  abbrev pub Replaces : Outcome WriteError (Unit {0}) × Volume → Type 0
  Replaces (ok a, v) = (v.now.target ≡ replaced) × ((v.now.temp ≡ none) × All IsWhole v.trail)
  Replaces (err e, v) = (v.now.target ≡ old) × All IsWhole v.trail
  Replaces (panic, v) = ⊥

  abbrev IsUntouched : Volume → Type 0
  IsUntouched v = (v.now.target ≡ old) × All IsWhole v.trail

  answer_on :
      (Q : Outcome WriteError (Unit {0}) × Volume → Type 0) (answers : List (Option ℕ))
      (e : WriteError) (good : Files → Files) (bad : ℕ → Files → Files) (clean : Volume → Volume)
      (k : Unit {0} → Call) (v : Volume)
      → ((rest : List (Option ℕ)) → Q (k tt (moved_on (good v.now) rest v)))
      → ((n : ℕ) (rest : List (Option ℕ)) → Q (err e, clean (moved_on (bad n v.now) rest v)))
      → Q (continue (cleaned (answer_call answers e good bad v) clean) k)
  unfolding answer_call
  answer_on Q [] e good bad clean k v h g = h []
  answer_on Q (none ∷ rest) e good bad clean k v h g = h rest
  answer_on Q (some n ∷ rest) e good bad clean k v h g = g n rest

  -- A dropped call that keeps the target.
  ignored-IsUntouched :
      (answers : List (Option ℕ)) (e : WriteError) (good : Files → Files) (v : Volume)
      → (good v.now).target ≡ v.now.target
      → IsUntouched v
      → IsUntouched ((answer_call answers e good (λ n files. files) v).1)
  unfolding answer_call moved_on
  ignored-IsUntouched [] e good v k h = (k ∙ h.0, (inl (k ∙ h.0), h.1))
  ignored-IsUntouched (none ∷ rest) e good v k h = (k ∙ h.0, (inl (k ∙ h.0), h.1))
  ignored-IsUntouched (some n ∷ rest) e good v k h = (h.0, (inl h.0, h.1))

  remove_only-IsUntouched : (v : Volume) → IsUntouched v → IsUntouched (remove_only v)
  unfolding remove_only
  remove_only-IsUntouched v h = ignored-IsUntouched v.answers _ remove_temp v refl h

  discard-IsUntouched : (v : Volume) → IsUntouched v → IsUntouched (discard v)
  unfolding close_only
  discard-IsUntouched v h =
      remove_only-IsUntouched _ (ignored-IsUntouched v.answers _ (λ files. files) v refl h)

  -- What `atomicJSONWrite` does after its write, and `atomicWriteFile` after its `Chmod`.
  abbrev after_write : Call
  after_write = do
    or_clean sync_call discard
    or_clean close_call remove_only
    or_clean rename_call remove_only
    sync_dir

  after_write-Replaces :
      (v : Volume)
      → IsUntouched v
      → v.now.temp ≡ some (record { bytes = new; durable = false })
      → Replaces (after_write v)
  unfolding moved_on
  after_write-Replaces v h e =
      let done : sync_content v.now.temp ≡ replaced = ap sync_content e in
      answer_on Replaces v.answers sync_failed sync_temp (λ n files. files) discard _ v
        (λ r.
          answer_on Replaces r close_failed (λ files. files) (λ n files. files) remove_only _ _
            (λ r'.
              answer_on Replaces r' rename_failed rename_temp (λ n files. files) remove_only _ _
                (λ r''. (done, (refl, (inr done, (inl h.0, (inl h.0, h.1))))))
                (λ n r''. remove_only-IsUntouched _ (h.0, (inl h.0, (inl h.0, (inl h.0, h.1))))))
            (λ n r'. remove_only-IsUntouched _ (h.0, (inl h.0, (inl h.0, h.1)))))
        (λ n r. discard-IsUntouched _ (h.0, (inl h.0, h.1)))

  -- The rest of both functions, from the write on, where a call that keeps the files may come between.
  after_open-Replaces :
      (v : Volume)
      → IsUntouched v
      → Replaces (continue (or_clean (write_call new) discard v) (λ _. after_write))
  unfolding moved_on
  after_open-Replaces v h =
      answer_on Replaces v.answers write_failed (write_temp new) (λ n. write_temp (take n new))
        discard _ v (λ r. after_write-Replaces _ (h.0, (inl h.0, h.1)) refl)
        (λ n r. discard-IsUntouched _ (h.0, (inl h.0, h.1)))

  after_open_chmod-Replaces :
      (v : Volume)
      → IsUntouched v
      → Replaces (
          continue
            (or_clean (write_call new) discard v)
            (λ _. ◌>>◌ (or_clean chmod_call discard) after_write))
  unfolding moved_on
  after_open_chmod-Replaces v h =
      answer_on Replaces v.answers write_failed (write_temp new) (λ n. write_temp (take n new))
        discard _ v
        (λ r.
          answer_on Replaces r chmod_failed (λ files. files) (λ n files. files) discard _ _
            (λ r'. after_write-Replaces _ (h.0, (inl h.0, (inl h.0, h.1))) refl)
            (λ n r'. discard-IsUntouched _ (h.0, (inl h.0, (inl h.0, h.1)))))
        (λ n r. discard-IsUntouched _ (h.0, (inl h.0, h.1)))

  -- The opening of the temporary file, before a rest of the function that replaces.
  open_on :
      (answers : List (Option ℕ)) (k : Unit {0} → Call) (v : Volume)
      → v.now.target ≡ old
      → v.trail ≡ []
      → ((v' : Volume) → IsUntouched v' → Replaces (k tt v'))
      → Replaces (continue (answer_call answers open_failed create (λ n files. files) v) k)
  unfolding answer_call moved_on
  open_on [] k v h e g = g _ (h, (inl h, rw e tt))
  open_on (none ∷ rest) k v h e g = g _ (h, (inl h, rw e tt))
  open_on (some n ∷ rest) k v h e g = (h, (inl h, rw e tt))

  -- `atomicJSONWrite` replaces the target as a whole or not at all: whichever system calls fail, it returns
  -- no error only when the target holds the new bytes, synced, and the temporary file is gone; with an
  -- error the target is what it was; and so it is one or the other in every state on the way.
  pub atomic_json_write-Replaces :
      (v : Volume) → v.now.target ≡ old → v.trail ≡ [] → Replaces (atomic_json_write (some new) v)
  unfolding atomic_json_write write_json_file
  atomic_json_write-Replaces v h e = open_on v.answers _ v h e after_open-Replaces

  -- `atomicWriteFile`, which also sets the mode, replaces the target as a whole or not at all: whichever
  -- system calls fail, it returns no error only when the target holds the new bytes, synced, and the
  -- temporary file is gone; with an error the target is what it was; and so it is one or the other in every
  -- state on the way.
  pub atomic_write_file-Replaces :
      (v : Volume) → v.now.target ≡ old → v.trail ≡ [] → Replaces (atomic_write_file new v)
  unfolding atomic_write_file
  atomic_write_file-Replaces v h e = open_on v.answers _ v h e after_open_chmod-Replaces
