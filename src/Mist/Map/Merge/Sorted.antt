-- ===== src/Mist/Map/Merge/Sorted.antt =====
-- The merge of two sorted arrays is sorted.
use kedr_aux.Prelude.{ℕ, zero, suc, true, List, [], ◌∷◌, ◌++◌, ◌≡◌, ap, ◌∙◌, inl, inr}
use kedr_aux.Mist.Keys.{strcmp, strcmp_refl, strcmp_trans}
use kedr_aux.Mist.Map.{StringPair, string_pair_compare, is_lt}
use kedr_aux.Mist.Map.Merge.{drop_while, comes_before, same_key}
use kedr_aux.Mist.Map.Merge.Moves.{take_while, merged}
use kedr_aux.Mist.Map.Merge.Order.{
  Before, NotAfter, All, Sorted, strcmp-cases, map-All, append-All, take_while-All, drop_while-All,
  take_while-test, same_key-eq, take_while-Sorted, drop_while-Sorted, append-Sorted,
  drop_before-All, drop_same-All,
}

pub merged-All :
    (P : StringPair → Type 0) (rounds : ℕ) (old upd : List StringPair)
    → All P old
    → All P upd
    → All P (merged rounds old upd)
unfolding merged
merged-All P rounds old [] h k = h
merged-All P rounds [] (u ∷ us) h k = k
merged-All P zero (o ∷ os) (u ∷ us) h k = tt
merged-All P (suc rounds) (o ∷ os) (u ∷ us) h k =
    append-All P (take_while (comes_before u) (o ∷ os)) _
      (take_while-All (comes_before u) P (o ∷ os) h)
      (append-All P (take_while (same_key u) (u ∷ us)) _ (take_while-All (same_key u) P (u ∷ us) k)
        (merged-All P rounds _ _
          (drop_while-All (same_key u) P _ (drop_while-All (comes_before u) P (o ∷ os) h))
          (drop_while-All (same_key u) P (u ∷ us) k)))

comes_before-Before : (x u : StringPair) → comes_before u x ≡ true → Before x u
unfolding string_pair_compare
comes_before-Before x u h = elim (strcmp-cases x.key u.key) [
  | inl e ↦ e
  | inr (inl e) ↦ let q = ap is_lt e in absurd cc
  | inr (inr e) ↦ let q = ap is_lt e in absurd cc
]

Before-NotAfter : (x y : StringPair) → Before x y → NotAfter x y
Before-NotAfter x y h e = cc

head-NotAfter-All :
    (u : StringPair) (us : List StringPair) → Sorted (u ∷ us) → All (NotAfter u) (u ∷ us)
head-NotAfter-All u us (h, t) = (λ e. let q = strcmp_refl u.key in cc, h)

-- the parts of a round, for a sorted rest of the first array and of the update
module _ (old : List StringPair) (u : StringPair) (us : List StringPair) (so : Sorted old)
    (su : Sorted (u ∷ us)) where
  abbrev pub lower : List StringPair
  lower = take_while (comes_before u) old

  abbrev pub old_rest : List StringPair
  old_rest = drop_while (same_key u) (drop_while (comes_before u) old)

  abbrev pub same : List StringPair
  same = take_while (same_key u) (u ∷ us)

  abbrev pub upd_rest : List StringPair
  upd_rest = drop_while (same_key u) (u ∷ us)

  pub lower-All : All (λ x. Before x u) lower
  lower-All =
      map-All _ (λ x. Before x u) lower (λ x. comes_before-Before x u)
        (take_while-test (comes_before u) old)

  pub same-All : (xs : List StringPair) → All (λ x. x.key ≡ u.key) (take_while (same_key u) xs)
  same-All xs =
      map-All _ (λ x. x.key ≡ u.key) _ (λ x. same_key-eq x u) (take_while-test (same_key u) xs)

  pub old_rest-All : All (Before u) old_rest
  old_rest-All =
      drop_same-All u _ (drop_while-Sorted (comes_before u) old so) (drop_before-All u old so)

  pub upd_rest-All : All (Before u) upd_rest
  upd_rest-All = drop_same-All u (u ∷ us) su (head-NotAfter-All u us su)

  round-Sorted :
      (rest : List StringPair)
      → Sorted rest
      → All (Before u) rest
      → Sorted (lower ++ (same ++ rest))
  round-Sorted rest h b =
      append-Sorted lower (same ++ rest) (take_while-Sorted (comes_before u) old so)
        (append-Sorted same rest (take_while-Sorted (same_key u) (u ∷ us) su) h (
          map-All _ (λ x. All (NotAfter x) rest) same
            (λ x e.
              map-All (Before u) (NotAfter x) rest
                (λ y k. Before-NotAfter x y (ap (λ t. strcmp t y.key) e ∙ k)) b)
            (same-All (u ∷ us))))
        (map-All _ (λ x. All (NotAfter x) (same ++ rest)) lower
          (λ x k.
            append-All (NotAfter x) same rest
              (map-All _ (NotAfter x) same (λ y e. Before-NotAfter x y (ap (strcmp x.key) e ∙ k))
                (same-All (u ∷ us)))
              (map-All (Before u) (NotAfter x) rest
                (λ y e. Before-NotAfter x y (strcmp_trans x.key u.key y.key k e)) b))
          lower-All)

pub merged-Sorted :
    (rounds : ℕ) (old upd : List StringPair)
    → Sorted old
    → Sorted upd
    → Sorted (merged rounds old upd)
unfolding merged
merged-Sorted rounds old [] h k = h
merged-Sorted rounds [] (u ∷ us) h k = k
merged-Sorted zero (o ∷ os) (u ∷ us) h k = tt
merged-Sorted (suc rounds) (o ∷ os) (u ∷ us) h k =
    round-Sorted (o ∷ os) u us h k _
      (merged-Sorted rounds (old_rest (o ∷ os) u us h k) (upd_rest (o ∷ os) u us h k)
        (drop_while-Sorted (same_key u) _ (drop_while-Sorted (comes_before u) (o ∷ os) h))
        (drop_while-Sorted (same_key u) (u ∷ us) k))
      (merged-All (Before u) rounds (old_rest (o ∷ os) u us h k) (upd_rest (o ∷ os) u us h k)
        (old_rest-All (o ∷ os) u us h k) (upd_rest-All (o ∷ os) u us h k))
