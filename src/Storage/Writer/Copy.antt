-- ===== src/Storage/Writer/Copy.antt =====
-- A copy that was written and closed without an error is exact, and verifies.
use logfalcon.Prelude.{
  ℕ, ◌≡◌, refl, ap, sym, ◌∙◌, Bool, true, false, some, List, [], ◌∷◌, ◌++◌, arith, inl, inr,
  if◌then◌else◌, length, take, take_all, bytes_eq_refl,
}
use mathlib.Core.List.{append_assoc, append-nil, flatten}
use logfalcon.Storage.Writer.{
  File, StreamWriter, new_stream_writer, flush, file_sync, file_close, write, close, close_flushed,
  reread, reread_there, compare_hashes, intact, verify_next, verify_against_file,
}
use logfalcon.Storage.Writer.Buffer.{total, Moves, Same, flush-Moves}
use logfalcon.Storage.Writer.Faithful.{
  IsFaithful, Accepts, write-Accepts, file_sync-content, file_sync-removed,
}

-- Writes one after another, up to the first error.
unfoldable pub write_all : List (List ℕ) → StreamWriter → Bool × StreamWriter
write_all [] w = (true, w)
write_all (chunk ∷ chunks) w =
    let ((n, good), w') = write chunk w in
    let rest = write_all chunks w' in if good then rest else (false, w')

new_stream_writer-IsFaithful : (f : File) → IsFaithful (new_stream_writer f)
unfolding new_stream_writer
new_stream_writer-IsFaithful f = record { kept = refl; counted = refl }

write_all-hashed :
    (chunks : List (List ℕ)) (w : StreamWriter)
    → IsFaithful w
    → (write_all chunks w).0 ≡ true
    → IsFaithful (write_all chunks w).1
      × (((write_all chunks w).1.hashed ≡ w.hashed ++ flatten chunks)
          × ((write_all chunks w).1.file.removed ≡ w.file.removed))
unfolding write_all flatten
write_all-hashed [] w h g = (h, (sym (append-nil w.hashed), refl))
write_all-hashed (chunk ∷ chunks) w h g =
    go (write_all-hashed chunks) (write chunk w) (write-Accepts chunk w h) g
  where
    go :
        ((w' : StreamWriter)
          → IsFaithful w'
          → (write_all chunks w').0 ≡ true
          → IsFaithful (write_all chunks w').1
            × (((write_all chunks w').1.hashed ≡ w'.hashed ++ flatten chunks)
                × ((write_all chunks w').1.file.removed ≡ w'.file.removed)))
        → (r : (ℕ × Bool) × StreamWriter) → Accepts chunk w r
        → (if r.0.1 then write_all chunks r.1 else (false, r.1)).0 ≡ true
        → IsFaithful (if r.0.1 then write_all chunks r.1 else (false, r.1)).1
          × (((if r.0.1 then write_all chunks r.1 else (false, r.1)).1.hashed
                ≡ w.hashed ++ (chunk ++ flatten chunks))
              × ((if r.0.1 then write_all chunks r.1 else (false, r.1)).1.file.removed
                  ≡ w.file.removed))
    go ih ((n, false), w') a g = cc g
    go ih ((n, true), w') a g =
        let (f, (e, there)) = ih w' a.faithful g in
        let full : n ≡ length chunk = elim (a.complete) [ inl e ↦ e | inr e ↦ cc e ] in
        (
          f,
          (
            e
                ∙ ap (λ x. x ++ flatten chunks)
                    (a.hashed
                      ∙ ap (λ x. w.hashed ++ x)
                          (ap (λ k. take k chunk) full
                            ∙ take_all (length chunk) chunk (omega arith)))
                ∙ append_assoc w.hashed chunk (flatten chunks),
            there ∙ a.present,
          ),
        )

pub file_sync-synced : (f : File) → (file_sync f).0 ≡ true → (file_sync f).1.synced ≡ f.content
unfolding file_sync
file_sync-synced f h = ground arith

pub file_close-Same : (f : File) → Same f (file_close f).1
unfolding file_close
file_close-Same f = go f.closes refl
  where
    go : (closes : List Bool) → f.closes ≡ closes → Same f (file_close f).1
    go [] e = rw (file_close, e) (refl, refl)
    go (c ∷ rest) e = rw (file_close, e) (refl, refl)

pub file_close-content : (f : File) → (file_close f).1.content ≡ f.content
unfolding file_close
file_close-content f = ground arith

-- A good `Close` leaves everything in the file, synced.
pub record IsClosed (w : StreamWriter) (r : Bool × StreamWriter) : Type 0 where
  pub content : r.1.file.content ≡ total w
  pub hashed : r.1.hashed ≡ w.hashed
  pub counted : r.1.bytes_written ≡ w.bytes_written
  pub synced : r.1.file.synced ≡ total w
  pub present : r.1.file.removed ≡ w.file.removed

pub close_flushed-IsClosed :
    (w : StreamWriter) (r : Bool × StreamWriter)
    → Moves w r
    → (close_flushed r).0 ≡ true
    → IsClosed w (close_flushed r)
unfolding close_flushed
close_flushed-IsClosed w (false, w') m g = cc g
close_flushed-IsClosed w (true, w') m g = record {
  content = file_close-content (file_sync w'.file).1 ∙ file_sync-content w'.file ∙ all_there;
  hashed = m.hashed;
  counted = m.counted;
  synced =
      (file_close-Same (file_sync w'.file).1).0
      ∙ file_sync-synced w'.file (was_synced _ (file_sync w'.file).0 g)
      ∙ all_there;
  present = (file_close-Same (file_sync w'.file).1).1 ∙ file_sync-removed w'.file ∙ m.same.1;
}
  where
    all_there : w'.file.content ≡ total w
    all_there =
        sym (append-nil w'.file.content)
        ∙ ap (λ b. w'.file.content ++ b) (sym (m.emptied refl))
        ∙ m.totalled

    was_synced : (closed s : Bool) → (if s then closed else false) ≡ true → s ≡ true
    was_synced c true h = refl
    was_synced c false h = cc h

-- Chunks of which every `Write` and then `Close` returned nil, whatever the file system did on the
-- way: the file holds exactly the chunks in order, as many bytes as the writer counted, and a re-read
-- of an intact file verifies, with the hash of those bytes.
pub copy_exact :
    (sha256_hex : List ℕ → List ℕ) (chunks : List (List ℕ)) (f : File)
    → (write_all chunks (new_stream_writer f)).0 ≡ true
    → (close (write_all chunks (new_stream_writer f)).1).0 ≡ true
    → (let w = (close (write_all chunks (new_stream_writer f)).1).1 in
        (w.file.content ≡ flatten chunks)
        × (w.bytes_written ≡ length (flatten chunks))
        × ((verify_against_file sha256_hex
              (record w { file = record (w.file) { rereads = intact ∷ [] } })).0
            ≡ some (true, sha256_hex (flatten chunks))))
unfolding close verify_against_file verify_next reread reread_there compare_hashes new_stream_writer
copy_exact sha256_hex chunks f g k =
    let (faithful, (hashed, there)) =
      write_all-hashed chunks (new_stream_writer f) (new_stream_writer-IsFaithful f) g in
    let copied = (write_all chunks (new_stream_writer f)).1 in
    let closed = close_flushed-IsClosed copied (flush copied) (flush-Moves copied) k in
    let content = closed.content ∙ faithful.kept ∙ hashed in
    (
      content,
      closed.counted ∙ faithful.counted ∙ ap length hashed,
      rw
          (
            closed.present ∙ there,
            content,
            closed.hashed ∙ hashed,
            bytes_eq_refl (sha256_hex (flatten chunks)),
          )
          refl,
    )
