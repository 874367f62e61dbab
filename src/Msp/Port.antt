-- ===== src/Msp/Port.antt =====
-- The serial port and the clock as the client meets them, both outside the repository: what they do
-- is given in advance, as lists that each call takes the next item of. Every run of the program
-- against some port and clock is a run against such lists.
use logfalcon.Prelude.{ℕ, ◌≡◌, refl, arith, IsByte, All, Bool, false, List, [], ◌∷◌, ◌++◌}

-- `Read(buf)`: the bytes read, with a nil error or EOF, or any other error.
pub data Read : Type 0 where
  read read_eof : List ℕ → Read
  read_error : Read

pub record Port : Type 0 where
  -- What the calls of `Read` return; afterwards no data comes, and no error.
  pub reads : List Read
  -- Whether the calls of `Write` succeed; afterwards they fail.
  pub writes : List Bool
  -- For each wait, how often its clock test passes before the deadline; afterwards never.
  pub rounds : List ℕ
  -- What was handed to `Write`, oldest first.
  pub sent : List (List ℕ)

unfoldable pub next_read : Port → Read × Port
next_read p = elim p.reads [ [] ↦ (read [], p) | r ∷ rest ↦ (r, record p { reads = rest }) ]

unfoldable pub write : List ℕ → Port → Bool × Port
write bytes p =
    let q : Port = record p { sent = p.sent ++ bytes ∷ [] } in
    elim p.writes [ [] ↦ (false, q) | w ∷ rest ↦ (w, record q { writes = rest }) ]

unfoldable pub next_rounds : Port → ℕ × Port
next_rounds p = elim p.rounds [ [] ↦ (0, p) | n ∷ rest ↦ (n, record p { rounds = rest }) ]

-- A port delivers bytes.
abbrev pub GivesBytes : Read → Type 0
GivesBytes (read bytes) = All IsByte bytes
GivesBytes (read_eof bytes) = All IsByte bytes
GivesBytes read_error = Unit

pub next_read-GivesBytes :
    (p : Port)
    → All GivesBytes p.reads
    → GivesBytes (next_read p).0 × All GivesBytes (next_read p).1.reads
unfolding next_read
next_read-GivesBytes p all = go p.reads refl all
  where
    go :
        (reads : List Read)
        → p.reads ≡ reads
        → All GivesBytes reads
        → GivesBytes (next_read p).0 × All GivesBytes (next_read p).1.reads
    go [] e all = rw (next_read, e) (tt, rw e tt)
    go (r ∷ rest) e all = rw (next_read, e) all

pub reads-next_rounds : (p : Port) → (next_rounds p).1.reads ≡ p.reads
unfolding next_rounds
reads-next_rounds p = ground arith

pub reads-write : (bytes : List ℕ) (p : Port) → (write bytes p).1.reads ≡ p.reads
unfolding write
reads-write bytes p = ground arith
