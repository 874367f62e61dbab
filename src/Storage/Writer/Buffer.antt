-- ===== src/Storage/Writer/Buffer.antt =====
-- The buffer loses nothing: what a write took is in the file or the buffer, behind what was there.
use logfalcon.Prelude.{
  ℕ, ◌+◌, ◌-◌, ◌≤◌, ◌≡◌, refl, ap, sym, ◌∙◌, Bool, true, false, Option, none, some, List, [], ◌∷◌,
  ◌++◌, arith, ◌==◌, leb, on_if, inl, inr, ◌⊎◌, length, take, drop, take_all, take-append-drop,
  take_add, length-drop,
}
use mathlib.Core.List.{append_assoc, append-nil}
use logfalcon.Storage.Writer.{
  buf_size, File, StreamWriter, file_write, flush, direct_write, write_rest, buffer_write,
}

-- Nothing was synced or removed.
abbrev pub Same : File → File → Type 0
Same f g = (g.synced ≡ f.synced) × (g.removed ≡ f.removed)

Same-trans : (f g h : File) → Same f g → Same g h → Same f h
Same-trans f g h a b = (b.0 ∙ a.0, b.1 ∙ a.1)

file_write-Same : (bytes : List ℕ) (f : File) → Same f (file_write bytes f).1
unfolding file_write
file_write-Same bytes f = go f.writes refl
  where
    go : (writes : List (Option ℕ)) → f.writes ≡ writes → Same f (file_write bytes f).1
    go [] e = rw (file_write, e) (refl, refl)
    go (none ∷ rest) e = rw (file_write, e) (refl, refl)
    go (some n ∷ rest) e = rw (file_write, e) (refl, refl)

-- The bytes on their way into the file.
abbrev pub total : StreamWriter → List ℕ
total w = w.file.content ++ w.buf

file_write-content :
    (bytes : List ℕ) (f : File)
    → (file_write bytes f).1.content ≡ f.content ++ take (file_write bytes f).0.0 bytes
unfolding file_write
file_write-content bytes f = go f.writes refl
  where
    go :
        (writes : List (Option ℕ))
        → f.writes ≡ writes
        → (file_write bytes f).1.content ≡ f.content ++ take (file_write bytes f).0.0 bytes
    go [] e = rw (file_write, e, take_all (length bytes) bytes (omega arith)) refl
    go (none ∷ rest) e = rw (file_write, e, take_all (length bytes) bytes (omega arith)) refl
    go (some n ∷ rest) e = rw (file_write, e) refl

file_write-count :
    (bytes : List ℕ) (f : File)
    → ((file_write bytes f).0.0 ≤ length bytes)
      × (((file_write bytes f).0.0 ≡ length bytes) ⊎ ((file_write bytes f).0.1 ≡ false))
unfolding file_write
file_write-count bytes f = go f.writes refl
  where
    go :
        (writes : List (Option ℕ))
        → f.writes ≡ writes
        → ((file_write bytes f).0.0 ≤ length bytes)
          × (((file_write bytes f).0.0 ≡ length bytes) ⊎ ((file_write bytes f).0.1 ≡ false))
    go [] e = rw (file_write, e) (omega arith, inl refl)
    go (none ∷ rest) e = rw (file_write, e) (omega arith, inl refl)
    go (some n ∷ rest) e = rw (file_write, e) (omega arith, inr refl)

-- From `w`, the call took `r.0.0` of `bytes`: they are on their way, and nothing else changed.
pub record Takes (bytes : List ℕ) (w : StreamWriter) (r : (ℕ × Bool) × StreamWriter) : Type 0 where
  pub totalled : total r.1 ≡ total w ++ take r.0.0 bytes
  pub bounded : r.0.0 ≤ length bytes
  pub complete : (r.0.0 ≡ length bytes) ⊎ (r.0.1 ≡ false)
  pub hashed : r.1.hashed ≡ w.hashed
  pub counted : r.1.bytes_written ≡ w.bytes_written
  pub synced : r.1.last_sync_offset ≡ w.last_sync_offset
  pub same : Same w.file r.1.file

-- A flush moves bytes, and changes nothing else.
pub record Moves (w : StreamWriter) (r : Bool × StreamWriter) : Type 0 where
  pub totalled : total r.1 ≡ total w
  pub emptied : r.0 ≡ true → r.1.buf ≡ []
  pub hashed : r.1.hashed ≡ w.hashed
  pub counted : r.1.bytes_written ≡ w.bytes_written
  pub synced : r.1.last_sync_offset ≡ w.last_sync_offset
  pub same : Same w.file r.1.file

empty : (xs : List ℕ) → (length xs == 0) ≡ true → xs ≡ []
empty [] h = refl
empty (x ∷ xs) h = absurd (ground arith)

pub flush-Moves : (w : StreamWriter) → Moves w (flush w)
unfolding flush
flush-Moves w =
    on_if (Moves w) w.buf_failed _ _
      (λ e. record {
        totalled = refl;
        emptied = λ h. cc h;
        hashed = refl;
        counted = refl;
        synced = refl;
        same = (refl, refl);
      })
      (λ e.
        on_if (Moves w) (length w.buf == 0) _ _
          (λ z. record {
            totalled = refl;
            emptied = λ _. empty w.buf z;
            hashed = refl;
            counted = refl;
            synced = refl;
            same = (refl, refl);
          })
          (λ z.
            on_if (Moves w) (file_write w.buf w.file).0.1 _ _
              (λ g. record {
                totalled = append-nil _ ∙ all_in g;
                emptied = λ _. refl;
                hashed = refl;
                counted = refl;
                synced = refl;
                same = file_write-Same w.buf w.file;
              })
              (λ g. record {
                totalled = part_in;
                emptied = λ h. cc h;
                hashed = refl;
                counted = refl;
                synced = refl;
                same = file_write-Same w.buf w.file;
              })))
  where
    n : ℕ
    n = (file_write w.buf w.file).0.0

    all_in : (file_write w.buf w.file).0.1 ≡ true → (file_write w.buf w.file).1.content ≡ total w
    all_in g =
        file_write-content w.buf w.file
        ∙ ap (λ t. w.file.content ++ t)
            (take_all n w.buf (ground (arith, file_write-count w.buf w.file)))

    part_in : (file_write w.buf w.file).1.content ++ drop n w.buf ≡ total w
    part_in =
        ap (λ t. t ++ drop n w.buf) (file_write-content w.buf w.file)
        ∙ append_assoc w.file.content (take n w.buf) (drop n w.buf)
        ∙ ap (λ t. w.file.content ++ t) (take-append-drop n w.buf)

direct_write-Takes :
    (bytes : List ℕ) (w : StreamWriter) → w.buf ≡ [] → Takes bytes w (direct_write bytes w)
unfolding direct_write
direct_write-Takes bytes w e = record {
  totalled = rw e (
      append-nil _
      ∙ file_write-content bytes w.file
      ∙ ap (λ t. t ++ take (file_write bytes w.file).0.0 bytes) (sym (append-nil w.file.content)));
  bounded = (file_write-count bytes w.file).0;
  complete = (file_write-count bytes w.file).1;
  hashed = refl;
  counted = refl;
  synced = refl;
  same = file_write-Same bytes w.file;
}

-- All of `bytes`, put into the buffer.
buffered-Takes :
    (bytes : List ℕ) (w : StreamWriter)
    → Takes bytes w ((length bytes, true), record w { buf = w.buf ++ bytes })
buffered-Takes bytes w = record {
  totalled =
      sym (append_assoc w.file.content w.buf bytes)
      ∙ ap (λ t. total w ++ t) (sym (take_all (length bytes) bytes (omega arith)));
  bounded = omega arith;
  complete = inl refl;
  hashed = refl;
  counted = refl;
  synced = refl;
  same = (refl, refl);
}

-- The first `room` bytes went the way of `w₁`, and `r` took of the others.
Takes-after :
    (room : ℕ) (bytes : List ℕ) (w w1 : StreamWriter) (r : (ℕ × Bool) × StreamWriter)
    → room ≤ length bytes
    → total w1 ≡ total w ++ take room bytes
    → w1.hashed ≡ w.hashed
    → w1.bytes_written ≡ w.bytes_written
    → w1.last_sync_offset ≡ w.last_sync_offset
    → Same w.file w1.file
    → Takes (drop room bytes) w1 r
    → Takes bytes w ((room + r.0.0, r.0.1), r.1)
Takes-after room bytes w w1 r fit t h c s m k = record {
  totalled =
      k.totalled
      ∙ ap (λ x. x ++ take r.0.0 (drop room bytes)) t
      ∙ append_assoc (total w) (take room bytes) (take r.0.0 (drop room bytes))
      ∙ ap (λ x. total w ++ x) (sym (take_add room r.0.0 bytes));
  bounded = omega (arith, k.bounded, length-drop room bytes);
  complete = ground (arith, k.complete, length-drop room bytes);
  hashed = k.hashed ∙ h;
  counted = k.counted ∙ c;
  synced = k.synced ∙ s;
  same = Same-trans w.file w1.file r.1.file m k.same;
}

rest-Takes :
    (room : ℕ) (bytes : List ℕ) (w w1 : StreamWriter)
    → room ≤ length bytes
    → w1.buf ≡ []
    → total w1 ≡ total w ++ take room bytes
    → w1.hashed ≡ w.hashed
    → w1.bytes_written ≡ w.bytes_written
    → w1.last_sync_offset ≡ w.last_sync_offset
    → Same w.file w1.file
    → Takes bytes w (write_rest room (drop room bytes) w1)
unfolding write_rest
rest-Takes room bytes w w1 fit e t h c s m =
    on_if (Takes bytes w) (leb (length (drop room bytes)) buf_size) _ _
      (λ _. Takes-after room bytes w w1 _ fit t h c s m (buffered-Takes (drop room bytes) w1))
      (λ _. Takes-after room bytes w w1 _ fit t h c s m (direct_write-Takes (drop room bytes) w1 e))

nothing-Takes : (bytes : List ℕ) (w : StreamWriter) → Takes bytes w ((0, false), w)
nothing-Takes bytes w = record {
  totalled = sym (append-nil _);
  bounded = omega arith;
  complete = inr refl;
  hashed = refl;
  counted = refl;
  synced = refl;
  same = (refl, refl);
}

pub buffer_write-Takes : (bytes : List ℕ) (w : StreamWriter) → Takes bytes w (buffer_write bytes w)
unfolding buffer_write
buffer_write-Takes bytes w =
    on_if (Takes bytes w) w.buf_failed _ _ (λ _. nothing-Takes bytes w)
      (λ _.
        on_if (Takes bytes w) (leb (length bytes) room) _ _ (λ _. buffered-Takes bytes w)
          (λ big.
            on_if (Takes bytes w) (length w.buf == 0) _ _
              (λ z. direct_write-Takes bytes w (empty w.buf z))
              (λ _.
                on_if (Takes bytes w) (flush filled).0 _ _
                  (λ good.
                    rest-Takes room bytes w (flush filled).1 (ground arith) (moved.emptied good)
                      filled_total moved.hashed moved.counted moved.synced moved.same)
                  (λ bad. record {
                    totalled = filled_total;
                    bounded = ground arith;
                    complete = inr refl;
                    hashed = moved.hashed;
                    counted = moved.counted;
                    synced = moved.synced;
                    same = moved.same;
                  }))))
  where
    room : ℕ
    room = buf_size - length w.buf

    filled : StreamWriter
    filled = record w { buf = w.buf ++ take room bytes }

    moved : Moves filled (flush filled)
    moved = flush-Moves filled

    filled_total : total (flush filled).1 ≡ total w ++ take room bytes
    filled_total = moved.totalled ∙ sym (append_assoc w.file.content w.buf (take room bytes))
