-- ===== src/Tests/Sessions.antt =====
-- internal/storage/manifest.go and the replacement of files, at concrete inputs.
use logfalcon.Prelude.{ℕ, refl, true, false, Option, none, some, List, [], ◌∷◌}
use logfalcon.Prelude.Texts.{ascii}
use logfalcon.Storage.Sessions.{
  plain, session, unreadable, decoded, FcEntry, other, locked, fc_dir, Session,
}
use logfalcon.Storage.Cleanup.{Disk}
use logfalcon.Storage.Atomic.{Content, Volume, atomic_json_write, atomic_write_file}
use logfalcon.Storage.Atomic.Replaces.{
  Replaces, atomic_json_write-Replaces, atomic_write_file-Replaces,
}

-- Two sessions with manifests, one without, a file and a directory that cannot be read.
abbrev a_root : List (List ℕ × FcEntry ℕ)
a_root =
    (
      ascii "fc_a",
      fc_dir (
          (ascii "2026-02", session (decoded 2) true)
          ∷ (ascii "2026-01", session (decoded 1) false)
          ∷ []),
    )
    ∷ (ascii "note", other)
    ∷ (ascii "fc_b", fc_dir ((ascii "x", plain) ∷ (ascii "2026-03", session unreadable true) ∷ []))
    ∷ (ascii "fc_c", locked)
    ∷ []

abbrev a_session : Session ℕ
a_session = record {
  session_id = ascii "fc_a/2026-01";
  fc = ascii "fc_a";
  name = ascii "2026-01";
  path = ascii "/r/fc_a/2026-01";
  bbl_path = none;
  manifest = 1;
}

abbrev a_disk : Disk ℕ
a_disk = record { entries = []; free = some 1 ∷ some 5 ∷ []; removals = []; rmdirs = [] }

-- A volume on which the sync of the temporary file fails.
abbrev old_content : Option Content
old_content = some (record { bytes = ascii "old"; durable = true })

abbrev a_volume : Volume
a_volume = record {
  now = record { target = old_content; temp = none };
  trail = [];
  answers = none ∷ none ∷ some 0 ∷ [];
}

atomic_json_write-Replaces_example :
    Replaces old_content (ascii "new") (atomic_json_write (some (ascii "new")) a_volume)
atomic_json_write-Replaces_example =
    atomic_json_write-Replaces old_content (ascii "new") a_volume refl refl

atomic_write_file-Replaces_example :
    Replaces old_content (ascii "new") (atomic_write_file (ascii "new") a_volume)
atomic_write_file-Replaces_example =
    atomic_write_file-Replaces old_content (ascii "new") a_volume refl refl
