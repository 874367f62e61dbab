-- ===== src/Exec.antt =====
-- Go calls that change a state and may return an error or panic. An error is a value that the caller
-- inspects; a panic passes every caller by until a `recover`.
use logfalcon.Prelude.{◌⊎◌, inl, inr}

pub data Outcome {ℓ} (E A : Type ℓ) : Type ℓ where
  ok : A → Outcome E A
  err : E → Outcome E A
  panic : Outcome E A

abbrev pub Exec {ℓ} : Type ℓ → Type ℓ → Type ℓ → Type ℓ
Exec S E A = S → Outcome E A × S

module _ {ℓ} {S E A : Type ℓ} where
  abbrev pub pure : A → Exec S E A
  pure a s = (ok a, s)

  abbrev pub raise : E → Exec S E A
  raise e s = (err e, s)

module _ {ℓ} {S E A B : Type ℓ} where
  abbrev pub continue : Outcome E A × S → (A → Exec S E B) → Outcome E B × S
  continue (ok a, s) f = f a s
  continue (err e, s) f = (err e, s)
  continue (panic, s) f = (panic, s)

  infixl 5 ◌>>=◌ ◌>>◌
  abbrev pub ◌>>=◌ : Exec S E A → (A → Exec S E B) → Exec S E B
  ◌>>=◌ m f s = continue (m s) f

  abbrev pub ◌>>◌ : Exec S E A → Exec S E B → Exec S E B
  ◌>>◌ m n s = continue (m s) (λ _. n)

-- `v, err := m()` with both results looked at.
module _ {ℓ} {S E F A : Type ℓ} where
  abbrev pub inspect : Outcome E A × S → Outcome F (A ⊎ E) × S
  inspect (ok a, s) = (ok (inl a), s)
  inspect (err e, s) = (ok (inr e), s)
  inspect (panic, s) = (panic, s)

  abbrev pub attempt : Exec S E A → Exec S F (A ⊎ E)
  attempt m s = inspect (m s)

-- `P` of the value, where there is one.
abbrev pub OnOk : {E A : Type 0} → (A → Type 0) → Outcome E A → Type 0
OnOk P (ok a) = P a
OnOk P (err e) = Unit
OnOk P panic = Unit

module _ {S E F A B : Type 0} (P : B → Type 0) (f : A ⊎ E → Exec S F B) where
  OnOk-continue :
      (r : Outcome E A × S)
      → ((x : A ⊎ E) (s : S) → OnOk P (f x s).0)
      → OnOk P (continue (inspect r) f).0
  OnOk-continue (ok a, s) h = h (inl a) s
  OnOk-continue (err e, s) h = h (inr e) s
  OnOk-continue (panic, s) h = tt

  -- The rest of a block is looked at for every result of the call before it.
  pub OnOk-attempt :
      (m : Exec S E A) (s : S)
      → ((x : A ⊎ E) (s' : S) → OnOk P (f x s').0)
      → OnOk P (◌>>=◌ (attempt m) f s).0
  OnOk-attempt m s h = OnOk-continue (m s) h

-- What every call keeps of the state, whatever its outcome, a block of calls keeps.
module _ {S E A B : Type 0} (I : S → Type 0) where
  pub continue_keeps :
      (r : Outcome E A × S) (f : A → Exec S E B)
      → I r.1
      → ((a : A) (s : S) → I s → I (f a s).1)
      → I (continue r f).1
  continue_keeps (ok a, s) f i h = h a s i
  continue_keeps (err e, s) f i h = i
  continue_keeps (panic, s) f i h = i

module _ {S E F A B : Type 0} (I : S → Type 0) where
  pub attempt_keeps :
      (r : Outcome E A × S) (f : A ⊎ E → Exec S F B)
      → I r.1
      → ((x : A ⊎ E) (s : S) → I s → I (f x s).1)
      → I (continue (inspect r) f).1
  attempt_keeps (ok a, s) f i h = h (inl a) s i
  attempt_keeps (err e, s) f i h = h (inr e) s i
  attempt_keeps (panic, s) f i h = i
