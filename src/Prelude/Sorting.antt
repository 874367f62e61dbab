-- ===== src/Prelude/Sorting.antt =====
-- Go's `<` on strings, and what `sort.Slice` documents: it rearranges its slice into the order of
-- `less`, and does not say which order elements take that `less` does not tell apart.
use logfalcon.Prelude.Tests.{ltb, ◌==◌, if◌then◌else◌, on_if}
use logfalcon.Prelude.Lists.{All, length}
use Prim.Native.Nat.{ℕ, suc, ◌<◌}
use mathlib.Core.Logic.{◌⊎◌, inl, inr}
use mathlib.Core.Path.{◌≡◌, refl, ap, ◌∙◌}
use mathlib.Core.Bool.{Bool, true, false, ◌&&◌, ◌||◌}
use mathlib.Core.List.{List, [], ◌∷◌, Memᴰ, Permᴰ}
use mathlib.Core.List.Permᴰ
use native.Mathlib.Omega.{arith}

unfoldable pub bytes_less : List ℕ → List ℕ → Bool
bytes_less [] [] = false
bytes_less [] (y ∷ ys) = true
bytes_less (x ∷ xs) [] = false
bytes_less (x ∷ xs) (y ∷ ys) = ltb x y || (x == y && bytes_less xs ys)

pub bytes_less_asym : (a b : List ℕ) → bytes_less a b ≡ true → bytes_less b a ≡ false
unfolding bytes_less
bytes_less_asym [] [] h = refl
bytes_less_asym [] (y ∷ ys) h = refl
bytes_less_asym (x ∷ xs) [] h = cc h
bytes_less_asym (x ∷ xs) (y ∷ ys) h = ground (arith, bytes_less_asym xs ys)

-- "Not after" is transitive.
pub bytes_less_trans :
    (a b c : List ℕ) → bytes_less b a ≡ false → bytes_less c b ≡ false → bytes_less c a ≡ false
unfolding bytes_less
bytes_less_trans [] [] c h k = k
bytes_less_trans [] (y ∷ ys) [] h k = refl
bytes_less_trans [] (y ∷ ys) (z ∷ zs) h k = refl
bytes_less_trans (x ∷ xs) [] c h k = cc h
bytes_less_trans (x ∷ xs) (y ∷ ys) [] h k = cc k
bytes_less_trans (x ∷ xs) (y ∷ ys) (z ∷ zs) h k = ground (arith, bytes_less_trans xs ys zs)

module _ {A : Type 0} (less : A → A → Bool) where
  -- No element is less than one before it.
  abbrev pub InOrder : List A → Type 0
  InOrder [] = Unit {0}
  InOrder (x ∷ xs) = All (λ y. less y x ≡ false) xs × InOrder xs

  pub record IsSorting (sort : List A → List A) : Type 0 where
    pub permutes : (l : List A) → Permᴰ (sort l) l
    pub ordered : (l : List A) → InOrder (sort l)

module _ {A : Type 0} where
  pub Memᴰ-perm : {x : A} {k l : List A} → Permᴰ k l → Memᴰ x k → Memᴰ x l
  Memᴰ-perm Permᴰ.nil m = m
  Memᴰ-perm (Permᴰ.cons e p) (Memᴰ.head h) = Memᴰ.head (cc (h, e))
  Memᴰ-perm (Permᴰ.cons e p) (Memᴰ.tail m) = Memᴰ.tail (Memᴰ-perm p m)
  Memᴰ-perm (Permᴰ.swap e f) (Memᴰ.head h) = Memᴰ.tail (Memᴰ.head (cc (h, e)))
  Memᴰ-perm (Permᴰ.swap e f) (Memᴰ.tail (Memᴰ.head h)) = Memᴰ.head (cc (h, f))
  Memᴰ-perm (Permᴰ.swap e f) (Memᴰ.tail (Memᴰ.tail m)) = Memᴰ.tail (Memᴰ.tail m)
  Memᴰ-perm (Permᴰ.trans p q) m = Memᴰ-perm q (Memᴰ-perm p m)

  pub All-perm : (P : A → Type 0) {k l : List A} → Permᴰ k l → All P k → All P l
  All-perm P Permᴰ.nil m = m
  All-perm P (Permᴰ.cons e p) (h, m) = (rw e at h, All-perm P p m)
  All-perm P (Permᴰ.swap e f) (h, (k, m)) = (rw f at k, (rw e at h, m))
  All-perm P (Permᴰ.trans p q) m = All-perm P q (All-perm P p m)

-- The order of texts, written without a test: a text is before those it begins, and the first byte in which
-- two texts differ decides.
pub data LexLe : List ℕ → List ℕ → Type 0 where
  begins : {ys : List ℕ} → LexLe [] ys
  smaller : {x y : ℕ} {xs ys : List ℕ} → x < y → LexLe (x ∷ xs) (y ∷ ys)
  equal : {x y : ℕ} {xs ys : List ℕ} → x ≡ y → LexLe xs ys → LexLe (x ∷ xs) (y ∷ ys)

pub bytes_less-LexLe : (a b : List ℕ) → bytes_less b a ≡ false → LexLe a b
unfolding bytes_less
bytes_less-LexLe [] b h = begins
bytes_less-LexLe (x ∷ xs) [] h = absurd (cc h)
bytes_less-LexLe (x ∷ xs) (y ∷ ys) h =
    on_cases (bytes_less-LexLe xs ys) (first_byte x y (bytes_less ys xs) h)
  where
    first_byte :
        (x y : ℕ) (rest : Bool)
        → (ltb y x || (y == x && rest)) ≡ false
        → (x < y) ⊎ ((x ≡ y) × (rest ≡ false))
    first_byte x y rest h = ground arith

    on_cases :
        (bytes_less ys xs ≡ false → LexLe xs ys)
        → (x < y) ⊎ ((x ≡ y) × (bytes_less ys xs ≡ false))
        → LexLe (x ∷ xs) (y ∷ ys)
    on_cases ih (inl l) = smaller l
    on_cases ih (inr (e, k)) = equal e (ih k)

module _ {A : Type 0} where
  -- Each element is related to all that come after it.
  abbrev pub Pairwise : (A → A → Type 0) → List A → Type 0
  Pairwise R [] = Unit {0}
  Pairwise R (x ∷ xs) = All (R x) xs × Pairwise R xs

  All-map : (P Q : A → Type 0) (l : List A) → ((a : A) → P a → Q a) → All P l → All Q l
  All-map P Q [] f h = tt
  All-map P Q (x ∷ xs) f h = (f x h.0, All-map P Q xs f h.1)

  pub InOrder-Pairwise :
      (less : A → A → Bool) (R : A → A → Type 0) (l : List A)
      → ((a b : A) → less b a ≡ false → R a b)
      → InOrder less l
      → Pairwise R l
  InOrder-Pairwise less R [] f h = tt
  InOrder-Pairwise less R (x ∷ xs) f h =
      (All-map (λ y. less y x ≡ false) (R x) xs (f x) h.0, InOrder-Pairwise less R xs f h.1)

  pub length-perm : {k l : List A} → Permᴰ k l → length k ≡ length l
  length-perm Permᴰ.nil = refl
  length-perm (Permᴰ.cons e p) = ap suc (length-perm p)
  length-perm (Permᴰ.swap e f) = refl
  length-perm (Permᴰ.trans p q) = length-perm p ∙ length-perm q

-- Insertion sort is such a sort, for an order that is asymmetric and whose negation is transitive.
module _ {A : Type 0} (less : A → A → Bool) where
  unfoldable pub insert_by : A → List A → List A
  insert_by x [] = x ∷ []
  insert_by x (y ∷ ys) = let rest = insert_by x ys in if less y x then y ∷ rest else x ∷ y ∷ ys

  unfoldable pub sort_by : List A → List A
  unfolding insert_by
  sort_by [] = []
  sort_by (x ∷ xs) = insert_by x (sort_by xs)

  module _ (asym : (a b : A) → less a b ≡ true → less b a ≡ false)
      (trans : (a b c : A) → less b a ≡ false → less c b ≡ false → less c a ≡ false) where
    AllAfter : A → List A → Type 0
    AllAfter x l = All (λ y. less y x ≡ false) l

    AllAfter-trans : (x y : A) (l : List A) → less y x ≡ false → AllAfter y l → AllAfter x l
    unfolding AllAfter
    AllAfter-trans x y [] h b = tt
    AllAfter-trans x y (z ∷ l) h b = (trans x y z h b.0, AllAfter-trans x y l h b.1)

    insert_by-perm : (x : A) (l : List A) → Permᴰ (insert_by x l) (x ∷ l)
    unfolding insert_by
    insert_by-perm x [] = Permᴰ.refl (x ∷ [])
    insert_by-perm x (y ∷ ys) =
        on_if (λ r. Permᴰ r (x ∷ y ∷ ys)) (less y x) _ _
          (λ _. Permᴰ.trans (Permᴰ.cons refl (insert_by-perm x ys)) (Permᴰ.swap refl refl))
          (λ _. Permᴰ.refl (x ∷ y ∷ ys))

    insert_by-InOrder : (x : A) (l : List A) → InOrder less l → InOrder less (insert_by x l)
    unfolding insert_by AllAfter
    insert_by-InOrder x [] h = (tt, tt)
    insert_by-InOrder x (y ∷ ys) h =
        on_if (InOrder less) (less y x) _ _
          (λ e. (
            All-perm (λ z. less z y ≡ false) (Permᴰ.symm (insert_by-perm x ys)) (asym y x e, h.0),
            insert_by-InOrder x ys h.1,
          ))
          (λ e. ((e, AllAfter-trans x y ys e h.0), h))

    sort_by-perm : (l : List A) → Permᴰ (sort_by l) l
    unfolding sort_by
    sort_by-perm [] = Permᴰ.nil
    sort_by-perm (x ∷ xs) =
        Permᴰ.trans (insert_by-perm x (sort_by xs)) (Permᴰ.cons refl (sort_by-perm xs))

    sort_by-InOrder : (l : List A) → InOrder less (sort_by l)
    unfolding sort_by
    sort_by-InOrder [] = tt
    sort_by-InOrder (x ∷ xs) = insert_by-InOrder x (sort_by xs) (sort_by-InOrder xs)

    pub sort_by-IsSorting : IsSorting less (sort_by)
    sort_by-IsSorting = record { permutes = sort_by-perm; ordered = sort_by-InOrder }
