-- ===== src/Sync/EraseSafety/Integrity.antt =====
-- Steps 7 and 8: what goes on to the erase is verified and documented.
use logfalcon.Prelude.{
  ℕ, ◌≡◌, refl, ap, sym, ◌∙◌, Bool, true, false, Option, none, some, List, [], ◌∷◌, ◌==◌, ==_iff,
  on_if, inl, inr, Bool-cases, length, bytes_eq, bytes_eq_sound,
}
use logfalcon.Fc.Detector.{FcInfo}
use logfalcon.Storage.Writer.{
  File, StreamWriter, Reread, intact, reread, compare_hashes, verify_next, verify_against_file,
}
use logfalcon.Sync.World.{World, Manifest, fail}
use logfalcon.Sync.Orchestrator.{
  judge_verification, verify_integrity, answer_write, written_or_failed, write_json, new_manifest,
  write_manifest, erase_recorded, update_read,
}
use logfalcon.Sync.EraseSafety.{Idle, Reaches, Copied, IsChecked, IsDocumented}

module _ (sha256_hex : List ℕ → List ℕ) where
  -- Step 7 goes on with the hash of what was copied, `used_size` bytes.
  pub record IsVerified (used_size : ℕ) (hash : List ℕ) (w : World) : Type 0 where
    pub idle : Idle w
    pub checked : IsChecked sha256_hex w.writer
    pub hashed : hash ≡ sha256_hex w.writer.hashed
    pub sized : used_size ≡ length w.writer.hashed

  -- What is re-read is not removed.
  reread-there :
      (r : Reread) (f : File) (bytes : List ℕ) → reread r f ≡ some bytes → f.removed ≡ false
  unfolding reread
  reread-there r f bytes h = elim (Bool-cases f.removed) [
    | inl e ↦ absurd (cc (rw e at h))
    | inr e ↦ e
  ]

  judge_verification-Reaches :
      (used_size : ℕ) (found : Option (List ℕ)) (writer : StreamWriter) (w : World)
      → Copied w
      → ((bytes : List ℕ) → found ≡ some bytes → w.writer.file.removed ≡ false)
      → w.writer.file.read_back ≡ found
      → writer.hashed ≡ w.writer.hashed
      → used_size ≡ length w.writer.hashed
      → Reaches
          (IsVerified used_size)
          (judge_verification sha256_hex (compare_hashes sha256_hex found writer) w)
  unfolding judge_verification compare_hashes fail
  judge_verification-Reaches used_size none writer w h t b k e = h.0.0
  judge_verification-Reaches used_size (some bytes) writer w h t b k e =
      go (bytes_eq (sha256_hex bytes) (sha256_hex writer.hashed)) refl
    where
      go :
          (same : Bool)
          → bytes_eq (sha256_hex bytes) (sha256_hex writer.hashed) ≡ same
          → Reaches
              (IsVerified used_size)
              (judge_verification sha256_hex (some (same, sha256_hex bytes)) w)
      go true same = record {
        idle = h.0.0;
        checked = elim h.1 [
          | inl s ↦ record {
            there = t bytes refl;
            on_card = s.0;
            synced = s.1;
            bytes = bytes;
            read_back = b;
            compared = bytes_eq_sound _ _ same ∙ ap sha256_hex k;
          }
          | inr gone ↦ absurd (cc (gone, t bytes refl))
        ];
        hashed = bytes_eq_sound _ _ same ∙ ap sha256_hex k;
        sized = e;
      }
      go false other = h.0.0

  verify_next-Reaches :
      (used_size : ℕ) (rereads : List Reread) (w : World)
      → Copied w
      → used_size ≡ length w.writer.hashed
      → Reaches (IsVerified used_size) (
          judge_verification sha256_hex
            (verify_next sha256_hex rereads w.writer).0
            (record w { writer = (verify_next sha256_hex rereads w.writer).1 }))
  unfolding verify_next
  verify_next-Reaches used_size [] w h e =
      judge_verification-Reaches used_size (reread intact w.writer.file) w.writer
        (record w {
          writer = record (w.writer) {
            file = record (w.writer.file) { read_back = reread intact w.writer.file };
          };
        })
        ((h.0.0, record { kept = h.0.1.kept; counted = h.0.1.counted }), h.1)
        (reread-there intact w.writer.file) refl refl e
  verify_next-Reaches used_size (r ∷ rest) w h e =
      judge_verification-Reaches used_size (reread r w.writer.file) w.writer
        (record w {
          writer = record (w.writer) {
            file = record (w.writer.file) { read_back = reread r w.writer.file; rereads = rest };
          };
        })
        ((h.0.0, record { kept = h.0.1.kept; counted = h.0.1.counted }), h.1)
        (reread-there r w.writer.file) refl refl e

  pub verify_integrity-Reaches :
      (used_size : ℕ) (w : World)
      → Copied w
      → Reaches (IsVerified used_size) (verify_integrity sha256_hex used_size w)
  unfolding verify_integrity verify_against_file fail
  verify_integrity-Reaches used_size w h =
      on_if (Reaches (IsVerified used_size)) (w.writer.bytes_written == used_size) _ _
        (λ e.
          verify_next-Reaches used_size w.writer.file.rereads w h
            (sym ((==_iff _ _).0 e) ∙ h.0.1.counted))
        (λ _. h.0.0)

  -- Step 8 goes on with a manifest that describes the copy.
  abbrev pub Documented : World → Type 0
  Documented w = Idle w × IsDocumented sha256_hex w

  answer_write-Reaches :
      (used_size : ℕ) (hash : List ℕ) (info : FcInfo) (answers : List Bool) (w : World)
      → IsVerified used_size hash w
      → Reaches
          (λ (_ : Unit {0}). Documented)
          (written_or_failed (answer_write answers (new_manifest info hash used_size) w))
  unfolding new_manifest written_or_failed fail
  answer_write-Reaches used_size hash info [] w v = v.idle
  answer_write-Reaches used_size hash info (false ∷ rest) w v = v.idle
  answer_write-Reaches used_size hash info (true ∷ rest) w v = (
    v.idle,
    record {
      checked = v.checked;
      document = new_manifest info hash used_size;
      written = refl;
      hash = v.hashed;
      size = v.sized;
    },
  )

  pub write_manifest-Reaches :
      (used_size : ℕ) (hash : List ℕ) (info : FcInfo) (w : World)
      → IsVerified used_size hash w
      → Reaches (λ _. Documented) (write_manifest info hash used_size w)
  unfolding write_manifest write_json
  write_manifest-Reaches used_size hash info w v =
      answer_write-Reaches used_size hash info w.manifest_writes w v

  -- The erase flags of the manifest change nothing of what it says of the copy.
  answer_write-IsDocumented :
      (completed : Bool) (answers : List Bool) (m : Manifest) (w : World)
      → IsDocumented sha256_hex w
      → w.manifest ≡ some m
      → IsDocumented sha256_hex (answer_write answers (erase_recorded completed m) w).1
  answer_write-IsDocumented completed [] m w d e = d
  answer_write-IsDocumented completed (false ∷ rest) m w d e = record {
    checked = d.checked;
    document = d.document;
    written = d.written;
    hash = d.hash;
    size = d.size;
  }
  answer_write-IsDocumented completed (true ∷ rest) m w d e =
      let same : d.document ≡ m = cc (sym d.written ∙ e) in
      record {
        checked = d.checked;
        document = erase_recorded completed m;
        written = refl;
        hash = ap (λ (x : Manifest). x.sha256) (sym same) ∙ d.hash;
        size = ap (λ (x : Manifest). x.bytes) (sym same) ∙ d.size;
      }

  pub update_read-IsDocumented :
      (completed : Bool) (found : Option Manifest) (w : World)
      → IsDocumented sha256_hex w
      → w.manifest ≡ found
      → IsDocumented sha256_hex (update_read found completed w)
  unfolding update_read write_json
  update_read-IsDocumented completed none w d e = d
  update_read-IsDocumented completed (some m) w d e =
      answer_write-IsDocumented completed w.manifest_writes m w d e
