-- ===== src/Mist/Map/Duplicates.antt =====
-- smap_check_duplicate_keys finds a key with more than one value if there is one.
use kedr_aux.Prelude.{
  ℕ, ◌≤◌, true, false, Option, none, some, List, [], ◌∷◌, ◌≡◌, sym, ap, ◌∙◌, arith, length,
  Bool-cases, inl, inr,
}
use kedr_aux.Mist.Keys.{strcmp, strcmp-eq, strcmp_refl}
use kedr_aux.Mist.Map.{
  StringPair, StringMap, string_pair_compare, is_eq, duplicate_from, first_duplicate,
  sort_unless_sorted, smap_check_duplicate_keys,
}
use kedr_aux.Mist.Map.Merge.Order.{
  Before, NotAfter, All, Sorted, is_eq-Before, strcmp-cases, same_key-eq, strcmp_before, map-All,
}
use kedr_aux.Mist.Map.Merge.Values.{values, values-after}
use kedr_aux.Mist.Map.Sorting.{
  length-Perm, values-Perm, Sorts, Rearranged, sort_unless_sorted-Rearranged,
}
use mathlib.Core.List.{Permᴰ}

-- NULL just when no key has two values, or a key that has
pub data Duplicate (items : List StringPair) : Option (List ℕ) → Type 0 where
  distinct : ((key : List ℕ) → length (values key items) ≤ 1) → Duplicate items none
  twice : (key : List ℕ) → 2 ≤ length (values key items) → Duplicate items (some key)

values-one : (key : List ℕ) (p : StringPair) → length (values key (p ∷ [])) ≤ 1
unfolding values
values-one key p = ground arith

values-nil : (key : List ℕ) → length (values key []) ≤ 1
unfolding values
values-nil key = omega arith

values-cons :
    (key : List ℕ) (p : StringPair) (ps : List StringPair)
    → length (values key ps) ≤ length (values key (p ∷ ps))
unfolding values
values-cons key p ps = ground arith

values_twice :
    (p q : StringPair) (qs : List StringPair)
    → q.key ≡ p.key
    → 2 ≤ length (values q.key (p ∷ q ∷ qs))
unfolding values
values_twice p q qs e =
    let f = ap (λ t. strcmp t q.key) (sym e) ∙ strcmp_refl q.key in
    let g = strcmp_refl q.key in rw (f, g) (omega arith)

values_once :
    (key : List ℕ) (p : StringPair) (ps : List StringPair)
    → All (Before p) ps
    → length (values key ps) ≤ 1
    → length (values key (p ∷ ps)) ≤ 1
unfolding values
values_once key p ps a h = elim (Bool-cases (is_eq (strcmp p.key key))) [
  | inr e ↦ rw e h
  | inl e ↦
      let q = key_eq e in
      let f = ap (λ t. strcmp t p.key) (sym q) ∙ strcmp_refl p.key in
      rw (e, values-after p key ps (λ g. cc) a) (omega arith)
]
  where
    key_eq : is_eq (strcmp p.key key) ≡ true → p.key ≡ key
    key_eq e = elim (strcmp-cases p.key key) [
      | inl f ↦ let g = ap is_eq f in absurd cc
      | inr (inl f) ↦ strcmp-eq p.key key f
      | inr (inr f) ↦ let g = ap is_eq f in absurd cc
    ]

duplicate_from-Duplicate :
    (p : StringPair) (ps : List StringPair)
    → Sorted (p ∷ ps)
    → Duplicate (p ∷ ps) (duplicate_from p ps)
unfolding duplicate_from string_pair_compare
duplicate_from-Duplicate p [] h = distinct (λ key. values-one key p)
duplicate_from-Duplicate p (q ∷ qs) ((k, l), t) = elim (Bool-cases (is_eq (strcmp q.key p.key))) [
  | inl e ↦ rw e (twice q.key (values_twice p q qs (same_key-eq q p e)))
  | inr e ↦ rw e (one_more e (duplicate_from q qs) (duplicate_from-Duplicate q qs t))
]
  where
    one_more :
        is_eq (strcmp q.key p.key) ≡ false
        → (o : Option (List ℕ)) → Duplicate (q ∷ qs) o
        → Duplicate (p ∷ q ∷ qs) o
    one_more e none (distinct f) =
        let b = is_eq-Before q p e k in
        distinct (λ key.
          values_once key p (q ∷ qs)
            (b, map-All (NotAfter q) (Before p) qs (λ y. strcmp_before p.key q.key y.key b) t.0)
            (f key))
    one_more e (some x) (twice key f) = twice key (omega (arith, f, values-cons key p (q ∷ qs)))

Duplicate-Perm :
    {xs ys : List StringPair} {o : Option (List ℕ)} → Permᴰ xs ys → Duplicate xs o → Duplicate ys o
Duplicate-Perm d (distinct f) =
    distinct (λ key. omega (arith, f key, length-Perm (values-Perm key d)))
Duplicate-Perm d (twice key f) = twice key (omega (arith, f, length-Perm (values-Perm key d)))

-- If qsort sorts by the keys and keeps the elements, and a map that says it is sorted is so:
-- smap_check_duplicate_keys returns NULL just when no key has two values or more in the map, and
-- otherwise a key that has; it leaves a sorted map with the same pairs.
pub smap_check_duplicate_keys-Duplicate :
    (qsort : List StringPair → List StringPair) (smap : StringMap)
    → Sorts qsort
    → (smap.sorted ≡ true → Sorted smap.container.items)
    → Duplicate smap.container.items (smap_check_duplicate_keys qsort smap).0
      × Rearranged smap (smap_check_duplicate_keys qsort smap).1
unfolding smap_check_duplicate_keys
smap_check_duplicate_keys-Duplicate qsort smap sorts h =
    let r = sort_unless_sorted-Rearranged qsort sorts smap h in
    (
      Duplicate-Perm r.same_pairs
          (of_items (sort_unless_sorted qsort smap).container.items r.items_sorted),
      r,
    )
  where
    of_items : (items : List StringPair) → Sorted items → Duplicate items (first_duplicate items)
    of_items [] so = distinct values-nil
    of_items (p ∷ ps) so = duplicate_from-Duplicate p ps so
