-- ===== src/Mist/Keys.antt =====
-- strcmp of the C library, on C strings as lists of their bytes, and the order that it gives.
use Prim.Native.Nat.{compare, Ordering}
use kedr_aux.Prelude.{ℕ, List, [], ◌∷◌, ◌≡◌, refl, arith}

abbrev pub by_first : Ordering → Ordering → Ordering
by_first Ordering.lt rest = Ordering.lt
by_first Ordering.eq rest = rest
by_first Ordering.gt rest = Ordering.gt

unfoldable pub strcmp : List ℕ → List ℕ → Ordering
strcmp [] [] = Ordering.eq
strcmp [] (d ∷ ds) = Ordering.lt
strcmp (c ∷ cs) [] = Ordering.gt
strcmp (c ∷ cs) (d ∷ ds) = by_first (compare c d) (strcmp cs ds)

abbrev pub swapped : Ordering → Ordering
swapped Ordering.lt = Ordering.gt
swapped Ordering.eq = Ordering.eq
swapped Ordering.gt = Ordering.lt

pub strcmp_refl : (a : List ℕ) → strcmp a a ≡ Ordering.eq
unfolding strcmp
strcmp_refl [] = refl
strcmp_refl (c ∷ cs) = ground (arith, strcmp_refl cs)

pub strcmp-swap : (a b : List ℕ) → strcmp b a ≡ swapped (strcmp a b)
unfolding strcmp
strcmp-swap [] [] = refl
strcmp-swap [] (d ∷ ds) = refl
strcmp-swap (c ∷ cs) [] = refl
strcmp-swap (c ∷ cs) (d ∷ ds) = ground (arith, strcmp-swap cs ds)

pub strcmp-eq : (a b : List ℕ) → strcmp a b ≡ Ordering.eq → a ≡ b
unfolding strcmp
strcmp-eq [] [] h = refl
strcmp-eq [] (d ∷ ds) h = cc
strcmp-eq (c ∷ cs) [] h = cc
strcmp-eq (c ∷ cs) (d ∷ ds) h = ground (arith, strcmp-eq cs ds)

pub strcmp_trans :
    (a b c : List ℕ)
    → strcmp a b ≡ Ordering.lt
    → strcmp b c ≡ Ordering.lt
    → strcmp a c ≡ Ordering.lt
unfolding strcmp
strcmp_trans [] [] [] h k = cc
strcmp_trans [] (y ∷ ys) [] h k = cc
strcmp_trans [] b (d ∷ ds) h k = refl
strcmp_trans (x ∷ xs) [] c h k = cc
strcmp_trans (x ∷ xs) (y ∷ ys) [] h k = cc
strcmp_trans (x ∷ xs) (y ∷ ys) (z ∷ zs) h k = ground (arith, strcmp_trans xs ys zs)
