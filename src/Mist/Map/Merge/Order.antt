-- ===== src/Mist/Map/Merge/Order.antt =====
-- The order of pairs by their keys, and what the loops of the merge leave of a sorted array.
use Prim.Native.Nat.{Ordering}
use kedr_aux.Prelude.{
  ℕ, Bool, true, false, List, [], ◌∷◌, ◌++◌, ◌≡◌, ◌≢◌, ◌⊎◌, refl, sym, ap, ◌∙◌, Bool-cases, inl,
  inr,
}
use kedr_aux.Mist.Keys.{strcmp, strcmp-swap, strcmp-eq, strcmp_trans, swapped}
use kedr_aux.Mist.Map.{StringPair, string_pair_compare, is_lt, is_eq}
use kedr_aux.Mist.Map.Merge.{drop_while, comes_before, same_key}
use kedr_aux.Mist.Map.Merge.Moves.{take_while}

-- the key of the first comes before that of the second, or does not come after it
abbrev pub Before : StringPair → StringPair → Type 0
Before p q = strcmp p.key q.key ≡ Ordering.lt

abbrev pub NotAfter : StringPair → StringPair → Type 0
NotAfter p q = strcmp p.key q.key ≢ Ordering.gt

abbrev pub All : (StringPair → Type 0) → List StringPair → Type 0
All P [] = Unit
All P (x ∷ xs) = P x × All P xs

abbrev pub Sorted : List StringPair → Type 0
Sorted [] = Unit
Sorted (x ∷ xs) = All (NotAfter x) xs × Sorted xs

pub strcmp-cases :
    (a b : List ℕ)
    → (strcmp a b ≡ Ordering.lt) ⊎ ((strcmp a b ≡ Ordering.eq) ⊎ (strcmp a b ≡ Ordering.gt))
strcmp-cases a b = by_result (strcmp a b)
  where
    by_result : (o : Ordering) → (o ≡ Ordering.lt) ⊎ ((o ≡ Ordering.eq) ⊎ (o ≡ Ordering.gt))
    by_result Ordering.lt = inl refl
    by_result Ordering.eq = inr (inl refl)
    by_result Ordering.gt = inr (inr refl)

pub strcmp_before :
    (a b c : List ℕ)
    → strcmp a b ≡ Ordering.lt
    → strcmp b c ≢ Ordering.gt
    → strcmp a c ≡ Ordering.lt
strcmp_before a b c h k = elim (strcmp-cases b c) [
  | inl e ↦ strcmp_trans a b c h e
  | inr (inl e) ↦ ap (strcmp a) (sym (strcmp-eq b c e)) ∙ h
  | inr (inr e) ↦ absurd (k e)
]

pub strcmp_not_after :
    (a b c : List ℕ)
    → strcmp a b ≢ Ordering.gt
    → strcmp b c ≢ Ordering.gt
    → strcmp a c ≢ Ordering.gt
strcmp_not_after a b c h k e = elim (strcmp-cases a b) [
  | inl f ↦ let q = strcmp_before a b c f k in cc
  | inr (inl f) ↦ k (ap (λ t. strcmp t c) (sym (strcmp-eq a b f)) ∙ e)
  | inr (inr f) ↦ h f
]

is_lt-swapped : (x u : StringPair) → comes_before u x ≡ false → NotAfter u x
unfolding string_pair_compare
is_lt-swapped x u h e = let q = ap is_lt (strcmp-swap u.key x.key ∙ ap swapped e) in cc

pub is_eq-Before : (x u : StringPair) → same_key u x ≡ false → NotAfter u x → Before u x
unfolding string_pair_compare
is_eq-Before x u h k = elim (strcmp-cases u.key x.key) [
  | inl e ↦ e
  | inr (inl e) ↦ let q = ap is_eq (strcmp-swap u.key x.key ∙ ap swapped e) in absurd cc
  | inr (inr e) ↦ absurd (k e)
]

pub same_key-eq : (x u : StringPair) → same_key u x ≡ true → x.key ≡ u.key
unfolding string_pair_compare
same_key-eq x u h = elim (strcmp-cases x.key u.key) [
  | inl e ↦ let q = ap is_eq e in absurd cc
  | inr (inl e) ↦ strcmp-eq x.key u.key e
  | inr (inr e) ↦ let q = ap is_eq e in absurd cc
]

pub map-All :
    (P Q : StringPair → Type 0) (xs : List StringPair)
    → ((x : StringPair) → P x → Q x)
    → All P xs
    → All Q xs
map-All P Q [] f h = h
map-All P Q (x ∷ xs) f (h, t) = (f x h, map-All P Q xs f t)

pub append-All :
    (P : StringPair → Type 0) (xs ys : List StringPair) → All P xs → All P ys → All P (xs ++ ys)
append-All P [] ys h k = k
append-All P (x ∷ xs) ys (h, t) k = (h, append-All P xs ys t k)

module _ (p : StringPair → Bool) where
  pub take_while-All :
      (P : StringPair → Type 0) (xs : List StringPair) → All P xs → All P (take_while p xs)
  unfolding take_while
  take_while-All P [] h = h
  take_while-All P (x ∷ xs) (h, t) = elim (Bool-cases (p x)) [
    | inl e ↦ rw e (h, take_while-All P xs t)
    | inr e ↦ rw e tt
  ]

  pub drop_while-All :
      (P : StringPair → Type 0) (xs : List StringPair) → All P xs → All P (drop_while p xs)
  unfolding drop_while
  drop_while-All P [] h = h
  drop_while-All P (x ∷ xs) (h, t) = elim (Bool-cases (p x)) [
    | inl e ↦ rw e (drop_while-All P xs t)
    | inr e ↦ rw e (h, t)
  ]

  pub take_while-test : (xs : List StringPair) → All (λ x. p x ≡ true) (take_while p xs)
  unfolding take_while
  take_while-test [] = tt
  take_while-test (x ∷ xs) = elim (Bool-cases (p x)) [
    | inl e ↦ rw e (e, take_while-test xs)
    | inr e ↦ rw e tt
  ]

  pub take_while-Sorted : (xs : List StringPair) → Sorted xs → Sorted (take_while p xs)
  unfolding take_while
  take_while-Sorted [] h = h
  take_while-Sorted (x ∷ xs) (h, t) = elim (Bool-cases (p x)) [
    | inl e ↦ rw e (take_while-All _ xs h, take_while-Sorted xs t)
    | inr e ↦ rw e tt
  ]

  pub drop_while-Sorted : (xs : List StringPair) → Sorted xs → Sorted (drop_while p xs)
  unfolding drop_while
  drop_while-Sorted [] h = h
  drop_while-Sorted (x ∷ xs) (h, t) = elim (Bool-cases (p x)) [
    | inl e ↦ rw e (drop_while-Sorted xs t)
    | inr e ↦ rw e (h, t)
  ]

pub append-Sorted :
    (xs ys : List StringPair)
    → Sorted xs
    → Sorted ys
    → All (λ x. All (NotAfter x) ys) xs
    → Sorted (xs ++ ys)
append-Sorted [] ys h k b = k
append-Sorted (x ∷ xs) ys (h, t) k (c, d) = (append-All _ xs ys h c, append-Sorted xs ys t k d)

module _ (u : StringPair) where
  -- what is not before `u`, once the elements before it are moved
  pub drop_before-All :
      (xs : List StringPair) → Sorted xs → All (NotAfter u) (drop_while (comes_before u) xs)
  unfolding drop_while string_pair_compare
  drop_before-All [] h = tt
  drop_before-All (x ∷ xs) (h, t) = elim (Bool-cases (comes_before u x)) [
    | inl e ↦ rw e (drop_before-All xs t)
    | inr e ↦ rw e (
      is_lt-swapped x u e,
      map-All (NotAfter x) (NotAfter u) xs
          (λ y. strcmp_not_after u.key x.key y.key (is_lt-swapped x u e)) h,
    )
  ]

  -- what has another key than `u`, once the elements that have it are gone
  pub drop_same-All :
      (xs : List StringPair)
      → Sorted xs
      → All (NotAfter u) xs
      → All (Before u) (drop_while (same_key u) xs)
  unfolding drop_while string_pair_compare
  drop_same-All [] h k = tt
  drop_same-All (x ∷ xs) (h, t) (k, l) = elim (Bool-cases (same_key u x)) [
    | inl e ↦ rw e (drop_same-All xs t l)
    | inr e ↦ rw e (
      is_eq-Before x u e k,
      map-All (NotAfter x) (Before u) xs
          (λ y. strcmp_before u.key x.key y.key (is_eq-Before x u e k)) h,
    )
  ]
