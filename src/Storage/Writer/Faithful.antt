-- ===== src/Storage/Writer/Faithful.antt =====
-- What the writer was given is what the file and the buffer hold.
use logfalcon.Prelude.{
  ℕ, ◌+◌, ◌≡◌, refl, ap, sym, ◌∙◌, Bool, false, List, ◌++◌, arith, ◌==◌, on_if, inl, inr, ◌⊎◌,
  ==_iff, length, length-append, length-take, take,
}
use mathlib.Core.List.{append-nil}
use mathlib.Core.List.{append-nil}
use logfalcon.Storage.Writer.{
  File, StreamWriter, file_sync, flush, buffer_write, sync_now, account, write,
}
use logfalcon.Storage.Writer.Buffer.{total, Takes, Moves, flush-Moves, buffer_write-Takes}

-- Everything that was hashed and counted is in the file or the buffer, in order.
pub record IsFaithful (w : StreamWriter) : Type 0 where
  pub kept : total w ≡ w.hashed
  pub counted : w.bytes_written ≡ length w.hashed

-- `r` is what became of `bytes`: a prefix of them was hashed and counted, and is kept.
pub record Accepts (bytes : List ℕ) (w : StreamWriter) (r : (ℕ × Bool) × StreamWriter)
    : Type 0 where
  pub faithful : IsFaithful r.1
  pub hashed : r.1.hashed ≡ w.hashed ++ take r.0.0 bytes
  pub complete : (r.0.0 ≡ length bytes) ⊎ (r.0.1 ≡ false)
  pub present : r.1.file.removed ≡ w.file.removed

-- What `account` does once the bytes are counted, on each of its branches.
record Settles (n : ℕ) (good : Bool) (w : StreamWriter) (r : (ℕ × Bool) × StreamWriter)
    : Type 0 where
  totalled : total r.1 ≡ total w
  hashed : r.1.hashed ≡ w.hashed
  counted : r.1.bytes_written ≡ w.bytes_written
  taken : r.0.0 ≡ n
  present : r.1.file.removed ≡ w.file.removed
  result : (r.0.1 ≡ good) ⊎ (r.0.1 ≡ false)

pub file_sync-removed : (f : File) → (file_sync f).1.removed ≡ f.removed
unfolding file_sync
file_sync-removed f = ground arith

pub file_sync-content : (f : File) → (file_sync f).1.content ≡ f.content
unfolding file_sync
file_sync-content f = ground arith

sync_now-Settles : (n : ℕ) (good : Bool) (w : StreamWriter) → Settles n good w (sync_now n good w)
unfolding sync_now
sync_now-Settles n good w =
    on_if (Settles n good w) (flush w).0 _ _
      (λ _.
        on_if (Settles n good w) (file_sync (flush w).1.file).0 _ _
          (λ _. record {
            totalled = synced_total;
            hashed = moved.hashed;
            counted = moved.counted;
            taken = refl;
            present = synced_present;
            result = inl refl;
          })
          (λ _. record {
            totalled = synced_total;
            hashed = moved.hashed;
            counted = moved.counted;
            taken = refl;
            present = synced_present;
            result = inr refl;
          }))
      (λ _. record {
        totalled = moved.totalled;
        hashed = moved.hashed;
        counted = moved.counted;
        taken = refl;
        present = moved.same.1;
        result = inr refl;
      })
  where
    moved : Moves w (flush w)
    moved = flush-Moves w

    synced_present : (file_sync (flush w).1.file).1.removed ≡ w.file.removed
    synced_present = file_sync-removed (flush w).1.file ∙ moved.same.1

    synced_total : (file_sync (flush w).1.file).1.content ++ (flush w).1.buf ≡ total w
    synced_total =
        ap (λ t. t ++ (flush w).1.buf) (file_sync-content (flush w).1.file) ∙ moved.totalled

-- The writer after the bytes were counted, before the sync.
abbrev pub counting : List ℕ → ℕ → StreamWriter → StreamWriter
counting bytes n w = record w {
  hashed = w.hashed ++ take n bytes;
  bytes_written = w.bytes_written + n;
}

account-Settles :
    (bytes : List ℕ) (n : ℕ) (good : Bool) (w : StreamWriter)
    → Settles n good (counting bytes n w) (account bytes n good w)
unfolding account
account-Settles bytes n good w =
    on_if (Settles n good (counting bytes n w)) (n == 0) _ _
      (λ z.
        let e : n ≡ 0 = (==_iff n 0).0 z in
        record {
          totalled = refl;
          hashed = rw e (sym (append-nil w.hashed));
          counted = omega arith;
          taken = refl;
          present = refl;
          result = inl refl;
        })
      (λ _.
        on_if (Settles n good (counting bytes n w)) _ _ _
          (λ _. sync_now-Settles n good (counting bytes n w))
          (λ _. record {
            totalled = refl;
            hashed = refl;
            counted = refl;
            taken = refl;
            present = refl;
            result = inl refl;
          }))

-- Every call of `Write` on a faithful writer, whatever the file system does: the bytes that the call
-- reports as written are hashed, counted and kept in order, and no others; all of them are, or the
-- call returns an error.
pub write-Accepts :
    (bytes : List ℕ) (w : StreamWriter) → IsFaithful w → Accepts bytes w (write bytes w)
unfolding write
write-Accepts bytes w h = record {
  faithful = record {
    kept =
        s.totalled
        ∙ t.totalled
        ∙ ap (λ x. x ++ take r.0.0 bytes) (h.kept ∙ sym t.hashed)
        ∙ sym s.hashed;
    counted =
        s.counted
        ∙ ap (λ x. x + r.0.0) (t.counted ∙ h.counted)
        ∙ sized
        ∙ ap length (ap (λ x. x ++ take r.0.0 bytes) (sym t.hashed) ∙ sym s.hashed);
  };
  hashed =
      s.hashed
      ∙ ap (λ x. x ++ take r.0.0 bytes) t.hashed
      ∙ ap (λ n. w.hashed ++ take n bytes) (sym s.taken);
  complete = ended s.taken t.complete s.result;
  present = s.present ∙ t.same.1;
}
  where
    r : (ℕ × Bool) × StreamWriter
    r = buffer_write bytes w

    t : Takes bytes w r
    t = buffer_write-Takes bytes w

    s : Settles r.0.0 r.0.1 (counting bytes r.0.0 r.1) (account bytes r.0.0 r.0.1 r.1)
    s = account-Settles bytes r.0.0 r.0.1 r.1

    sized : length w.hashed + r.0.0 ≡ length (w.hashed ++ take r.0.0 bytes)
    sized =
        omega (arith, length-append w.hashed (take r.0.0 bytes), length-take r.0.0 bytes, t.bounded)

    ended :
        {n k : ℕ} {good result : Bool}
        → k ≡ n
        → (n ≡ length bytes) ⊎ (good ≡ false)
        → (result ≡ good) ⊎ (result ≡ false)
        → (k ≡ length bytes) ⊎ (result ≡ false)
    ended e (inl f) g = inl (e ∙ f)
    ended e (inr f) (inl g) = inr (g ∙ f)
    ended e (inr f) (inr g) = inr g
