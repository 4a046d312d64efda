-- ===== src/Mist/Tests/Library.antt =====
-- A qsort and a bsearch that do what the C library documents.
use Prim.Native.Nat.{Ordering}
use kedr_aux.Prelude.{
  ℕ, zero, suc, true, false, Option, none, some, List, [], ◌∷◌, get_elem?, ◌≡◌, ◌≢◌, refl, ap, ◌∙◌,
  arith, if◌then◌else◌, Bool-cases, Option-cases, inl, inr,
}
use kedr_aux.Mist.Keys.{strcmp, strcmp-swap, swapped}
use kedr_aux.Mist.Map.{StringPair, is_lt, is_eq}
use kedr_aux.Mist.Map.Merge.Order.{NotAfter, All, Sorted, strcmp-cases, strcmp_not_after, map-All}
use kedr_aux.Mist.Map.Lookup.{Searches}
use kedr_aux.Mist.Map.Sorting.{Sorts}
use mathlib.Core.List.{Permᴰ}
use mathlib.Core.List.Permᴰ

abbrev insert_sorted : StringPair → List StringPair → List StringPair
insert_sorted p [] = p ∷ []
insert_sorted p (q ∷ qs) =
    let rest = insert_sorted p qs in if is_lt (strcmp q.key p.key) then q ∷ rest else p ∷ q ∷ qs

abbrev pub insertion_sort : List StringPair → List StringPair
insertion_sort [] = []
insertion_sort (p ∷ ps) = insert_sorted p (insertion_sort ps)

insert_sorted-All :
    (r p : StringPair) (qs : List StringPair)
    → NotAfter r p
    → All (NotAfter r) qs
    → All (NotAfter r) (insert_sorted p qs)
insert_sorted-All r p [] h k = (h, tt)
insert_sorted-All r p (q ∷ qs) h (k, t) = elim (Bool-cases (is_lt (strcmp q.key p.key))) [
  | inl e ↦ rw e (k, insert_sorted-All r p qs h t)
  | inr e ↦ rw e (h, (k, t))
]

lt_NotAfter : (q p : StringPair) → is_lt (strcmp q.key p.key) ≡ true → NotAfter q p
lt_NotAfter q p e g = let f = ap is_lt g in cc

ge_NotAfter : (q p : StringPair) → is_lt (strcmp q.key p.key) ≡ false → NotAfter p q
ge_NotAfter q p e g = let f = ap is_lt (strcmp-swap p.key q.key ∙ ap swapped g) in cc

insert_sorted-Sorted :
    (p : StringPair) (qs : List StringPair) → Sorted qs → Sorted (insert_sorted p qs)
insert_sorted-Sorted p [] h = (tt, tt)
insert_sorted-Sorted p (q ∷ qs) (h, t) = elim (Bool-cases (is_lt (strcmp q.key p.key))) [
  | inl e ↦ rw e (insert_sorted-All q p qs (lt_NotAfter q p e) h, insert_sorted-Sorted p qs t)
  | inr e ↦ rw e (
    (
      ge_NotAfter q p e,
      map-All (NotAfter q) (NotAfter p) qs
          (λ y. strcmp_not_after p.key q.key y.key (ge_NotAfter q p e)) h,
    ),
    (h, t),
  )
]

insertion_sort-Sorted : (xs : List StringPair) → Sorted (insertion_sort xs)
insertion_sort-Sorted [] = tt
insertion_sort-Sorted (p ∷ ps) =
    insert_sorted-Sorted p (insertion_sort ps) (insertion_sort-Sorted ps)

insert_sorted-Perm : (p : StringPair) (qs : List StringPair) → Permᴰ (insert_sorted p qs) (p ∷ qs)
insert_sorted-Perm p [] = Permᴰ.refl _
insert_sorted-Perm p (q ∷ qs) = elim (Bool-cases (is_lt (strcmp q.key p.key))) [
  | inl e ↦ rw e (Permᴰ.trans (Permᴰ.cons refl (insert_sorted-Perm p qs)) (Permᴰ.swap refl refl))
  | inr e ↦ rw e (Permᴰ.refl _)
]

insertion_sort-Perm : (xs : List StringPair) → Permᴰ (insertion_sort xs) xs
insertion_sort-Perm [] = Permᴰ.nil
insertion_sort-Perm (p ∷ ps) =
    Permᴰ.trans (insert_sorted-Perm p (insertion_sort ps))
      (Permᴰ.cons refl (insertion_sort-Perm ps))

pub insertion_sort-Sorts : Sorts insertion_sort
insertion_sort-Sorts = record {
  in_order = insertion_sort-Sorted;
  same_elements = insertion_sort-Perm;
}

abbrev next_index : Option ℕ → Option ℕ
next_index none = none
next_index (some i) = some (suc i)

abbrev pub linear_search : List ℕ → List StringPair → Option ℕ
linear_search key [] = none
linear_search key (p ∷ ps) =
    let rest = linear_search key ps in if is_eq (strcmp p.key key) then some 0 else next_index rest

is_eq-true : (a b : List ℕ) → is_eq (strcmp a b) ≡ true → strcmp a b ≡ Ordering.eq
is_eq-true a b h = elim (strcmp-cases a b) [
  | inl e ↦ let q = ap is_eq e in absurd cc
  | inr (inl e) ↦ e
  | inr (inr e) ↦ let q = ap is_eq e in absurd cc
]

linear_search-finds :
    (key : List ℕ) (items : List StringPair) (i : ℕ)
    → linear_search key items ≡ some i
    → (p : StringPair) × (get_elem? items i ≡ some p) × (strcmp p.key key ≡ Ordering.eq)
linear_search-finds key [] i h = absurd cc
linear_search-finds key (p ∷ ps) zero h = elim (Bool-cases (is_eq (strcmp p.key key))) [
  | inl e ↦ (p, refl, is_eq-true p.key key e)
  | inr e ↦ elim (Option-cases (linear_search key ps)) [
    | inl q ↦ absurd (ground (arith, e, q, h))
    | inr (j, q) ↦ absurd (ground (arith, e, q, h))
  ]
]
linear_search-finds key (p ∷ ps) (suc i) h = elim (Bool-cases (is_eq (strcmp p.key key))) [
  | inl e ↦ absurd (ground (arith, e, h))
  | inr e ↦ elim (Option-cases (linear_search key ps)) [
    | inl q ↦ absurd (ground (arith, e, q, h))
    | inr (j, q) ↦ linear_search-finds key ps i (ground (arith, e, q, h))
  ]
]

linear_search-misses :
    (key : List ℕ) (items : List StringPair)
    → linear_search key items ≡ none
    → All (λ x. strcmp x.key key ≢ Ordering.eq) items
linear_search-misses key [] h = tt
linear_search-misses key (p ∷ ps) h = elim (Bool-cases (is_eq (strcmp p.key key))) [
  | inl e ↦ absurd (ground (arith, e, h))
  | inr e ↦ elim (Option-cases (linear_search key ps)) [
    | inl q ↦ (λ k. let f = ap is_eq k in cc, linear_search-misses key ps q)
    | inr (j, q) ↦ absurd (ground (arith, e, q, h))
  ]
]

pub linear_search-Searches : Searches linear_search
linear_search-Searches = record {
  finds = λ key items i so h. linear_search-finds key items i h;
  misses = λ key items so h. linear_search-misses key items h;
}
