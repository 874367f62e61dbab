-- ===== src/Tests/Files.antt =====
-- internal/web/server.go at concrete inputs: files and their ranges, sessions in requests.
use logfalcon.Prelude.{
  ℕ, ◌+◌, ◌-◌, ◌≡◌, ◌<◌, refl, true, false, none, some, [], ◌∷◌, ◌++◌, arith, min, length, bytes_eq,
}
use logfalcon.Prelude.Texts.{ascii}
use logfalcon.Web.Text.{trim_prefix, magnitude, digits_value}
use logfalcon.Web.Stream.{at_most_suc, Transfer, stream_chunked}
use logfalcon.Web.Stream.Complete.{Ends, stream_chunked-Ends}
use logfalcon.Web.Stream.Exact.{Sends, stream_chunked-Sends}
use logfalcon.Web.Files.{Served, bytes_unit, send_file}
use logfalcon.Web.Files.Range.{IsHonest, send_file-IsHonest}
use logfalcon.Web.Files.Slice.{IsSlice, send_file-IsSlice, send_file_suffix-IsSlice}
use logfalcon.Web.Sessions.{Places, Store, resolve_session_path, download_prefix, handle_download}
use logfalcon.Web.Sessions.Confined.{IsConfined, resolve_session_path-IsConfined}
use logfalcon.Web.Sessions.Downloads.{Downloaded, handle_download-Downloaded}
use logfalcon.Web.Deletion.{Site, all_goes, sessions_prefix, handle_delete_session}
use logfalcon.Web.Deletion.Guarded.{Deleted, handle_delete_session-Deleted}

-- A read of two bytes, then full ones.
abbrev a_transfer : Transfer
a_transfer = record {
  unread = 1 ∷ 2 ∷ 3 ∷ 4 ∷ [];
  sent = [];
  reads = at_most_suc 1 ∷ [];
  writes = none ∷ [];
}

stream_chunked-Ends_example : Ends 3 a_transfer (stream_chunked 3 a_transfer)
stream_chunked-Ends_example = stream_chunked-Ends 3 a_transfer

stream_chunked-Sends_example : Sends 3 a_transfer (stream_chunked 3 a_transfer)
stream_chunked-Sends_example =
    stream_chunked-Sends 3 a_transfer (omega arith) ((tt, tt), (refl, tt))

abbrev a_file : Served
a_file = record {
  stat_good = true;
  open_good = true;
  seek_good = true;
  etag = ascii "t";
  bytes = ascii "0123456789";
  reads = at_most_suc 1 ∷ [];
  writes = [];
}

send_file-IsHonest_example :
    IsHonest a_file [] (ascii "bytes=2-4") (send_file a_file [] (ascii "bytes=2-4"))
send_file-IsHonest_example = send_file-IsHonest a_file [] (ascii "bytes=2-4")

changed : bytes_eq [] a_file.etag ≡ false
unfolding bytes_eq
changed = refl

digit_read : (d : ℕ) → d < 10 → magnitude ((b'0' + d) ∷ []) ≡ some d
unfolding magnitude digits_value
digit_read d h = ground arith

send_file-IsSlice_example :
    IsSlice a_file 2
      (min 4 (length a_file.bytes - 1))
      (send_file a_file [] (bytes_unit ++ (b'2' ∷ []) ++ b'-' ∷ b'4' ∷ []))
send_file-IsSlice_example =
    send_file-IsSlice a_file [] refl refl refl changed ((tt, tt), tt) 2 4 b'2' b'4' [] []
      (digit_read 2 (omega arith)) (digit_read 4 (omega arith)) (omega arith) (omega arith)
      (omega arith)

send_file_suffix-IsSlice_example :
    IsSlice a_file 0
      (min 4 (length a_file.bytes - 1))
      (send_file a_file [] (bytes_unit ++ b'-' ∷ b'4' ∷ []))
send_file_suffix-IsSlice_example =
    send_file_suffix-IsSlice a_file [] refl refl refl changed ((tt, tt), tt) 4 b'4' []
      (digit_read 4 (omega arith)) (omega arith) (omega arith)

-- No symbolic links below /r.
abbrev places : Places
places = record { abs_storage = some (ascii "r" ∷ []); eval_symlinks = λ p. some p }

resolve_session_path-IsConfined_example :
    IsConfined places (resolve_session_path places (ascii "fc_a/2026"))
resolve_session_path-IsConfined_example = resolve_session_path-IsConfined places (ascii "fc_a/2026")

abbrev store : Store
store p = some a_file

handle_download-Downloaded_example :
    Downloaded places store
      (trim_prefix (ascii "/download/fc_a/2026/manifest.json") download_prefix)
      []
      []
      (handle_download places store (ascii "/download/fc_a/2026/manifest.json") [] [])
handle_download-Downloaded_example =
    handle_download-Downloaded places store (ascii "/download/fc_a/2026/manifest.json") [] []

abbrev a_site : Site
a_site = record {
  tree =
      (ascii "r" ∷ [])
      ∷ (ascii "r" ∷ ascii "fc_a" ∷ [])
      ∷ (ascii "r" ∷ ascii "fc_a" ∷ ascii "2026" ∷ [])
      ∷ [];
  removal = all_goes;
  rmdir_good = true;
  cache_kept = true;
}

handle_delete_session-Deleted_example :
    Deleted places
      (ascii "token")
      (ascii "token")
      (trim_prefix (ascii "/sessions/fc_a/2026") sessions_prefix)
      a_site
      (handle_delete_session places
        (ascii "token")
        (ascii "token")
        (ascii "/sessions/fc_a/2026")
        a_site)
handle_delete_session-Deleted_example =
    handle_delete_session-Deleted places (ascii "token") (ascii "token")
      (ascii "/sessions/fc_a/2026") a_site
