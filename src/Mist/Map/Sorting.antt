-- ===== src/Mist/Map/Sorting.antt =====
-- What the sorting of a map changes: the order of its pairs.
use mathlib.Core.List.{Permᴰ}
use mathlib.Core.List.Permᴰ
use kedr_aux.Prelude.{
  ℕ, zero, suc, true, some, List, [], ◌∷◌, ◌≡◌, refl, sym, ap, ◌∙◌, subst, arith, length, get_elem?,
  Bool-cases, inl, inr,
}
use kedr_aux.Mist.Keys.{strcmp}
use kedr_aux.Mist.Array.{grar_sort}
use kedr_aux.Mist.Map.{StringPair, StringMap, is_eq, sort_unless_sorted}
use kedr_aux.Mist.Map.Merge.Order.{Sorted}
use kedr_aux.Mist.Map.Merge.Values.{values, prefer}

module _ {A : Type 0} where
  pub length-Perm : {xs ys : List A} → Permᴰ xs ys → length xs ≡ length ys
  length-Perm Permᴰ.nil = refl
  length-Perm (Permᴰ.cons e d) = ap suc (length-Perm d)
  length-Perm (Permᴰ.swap e f) = refl
  length-Perm (Permᴰ.trans c d) = length-Perm c ∙ length-Perm d

  pub empty-Perm : {xs ys : List A} → Permᴰ xs ys → xs ≡ [] → ys ≡ []
  empty-Perm {ys = []} d e = refl
  empty-Perm {ys = y ∷ ys} d e = absurd (omega (arith, ap length e, length-Perm d))

-- a value that stands in the list
abbrev pub OneOf : List ℕ → List (List ℕ) → Type 0
OneOf v vs = (j : ℕ) × (get_elem? vs j ≡ some v)

pub OneOf-Perm : (v : List ℕ) {vs ws : List (List ℕ)} → Permᴰ vs ws → OneOf v vs → OneOf v ws
OneOf-Perm v Permᴰ.nil o = o
OneOf-Perm v (Permᴰ.cons e d) (zero, q) = (zero, ap some (sym e) ∙ q)
OneOf-Perm v (Permᴰ.cons e d) (suc j, q) = let (i, p) = OneOf-Perm v d (j, q) in (suc i, p)
OneOf-Perm v (Permᴰ.swap e f) (zero, q) = (1, ap some (sym e) ∙ q)
OneOf-Perm v (Permᴰ.swap e f) (suc zero, q) = (0, ap some (sym f) ∙ q)
OneOf-Perm v (Permᴰ.swap e f) (suc (suc j), q) = (suc (suc j), q)
OneOf-Perm v (Permᴰ.trans c d) o = OneOf-Perm v d (OneOf-Perm v c o)

module _ (key : List ℕ) where
  values-cons_perm :
      (a : StringPair) (xs ys : List StringPair)
      → Permᴰ (values key xs) (values key ys)
      → Permᴰ (values key (a ∷ xs)) (values key (a ∷ ys))
  unfolding values
  values-cons_perm a xs ys d = elim (Bool-cases (is_eq (strcmp a.key key))) [
    | inl e ↦ rw e (Permᴰ.cons refl d)
    | inr e ↦ rw e d
  ]

  values-swap_perm :
      (a b : StringPair) (xs : List StringPair)
      → Permᴰ (values key (a ∷ b ∷ xs)) (values key (b ∷ a ∷ xs))
  unfolding values
  values-swap_perm a b xs = elim (Bool-cases (is_eq (strcmp a.key key))) [
    | inl e ↦ elim (Bool-cases (is_eq (strcmp b.key key))) [
      | inl f ↦ rw (e, f) (Permᴰ.swap refl refl)
      | inr f ↦ rw (e, f) (Permᴰ.refl _)
    ]
    | inr e ↦ elim (Bool-cases (is_eq (strcmp b.key key))) [
      | inl f ↦ rw (e, f) (Permᴰ.refl _)
      | inr f ↦ rw (e, f) (Permᴰ.refl _)
    ]
  ]

  -- a key has the same values, in another order
  pub values-Perm : {xs ys : List StringPair} → Permᴰ xs ys → Permᴰ (values key xs) (values key ys)
  values-Perm Permᴰ.nil = Permᴰ.refl _
  values-Perm (Permᴰ.cons {a} {l₁ = xs} {l₂ = ys} e d) =
      subst (λ z. Permᴰ (values key (a ∷ xs)) (values key (z ∷ ys))) e
        (values-cons_perm a xs ys (values-Perm d))
  values-Perm (Permᴰ.swap {a} {b} {b' = c} {l = xs} e f) =
      subst (λ z. Permᴰ (values key (a ∷ b ∷ xs)) (values key (z ∷ c ∷ xs))) f
        (subst (λ z. Permᴰ (values key (a ∷ b ∷ xs)) (values key (b ∷ z ∷ xs))) e
          (values-swap_perm a b xs))
  values-Perm (Permᴰ.trans c d) = Permᴰ.trans (values-Perm c) (values-Perm d)

pub prefer-Perm :
    {vs ws old old' : List (List ℕ)}
    → Permᴰ vs ws
    → Permᴰ old old'
    → Permᴰ (prefer vs old) (prefer ws old')
prefer-Perm {vs = []} {ws = []} c d = d
prefer-Perm {vs = []} {ws = w ∷ ws} c d = absurd (omega (arith, length-Perm c))
prefer-Perm {vs = v ∷ vs} {ws = []} c d = absurd (omega (arith, length-Perm c))
prefer-Perm {vs = v ∷ vs} {ws = w ∷ ws} c d = c

-- what the C library documents of qsort: it sorts, here by the keys, and keeps the elements
pub record Sorts (qsort : List StringPair → List StringPair) : Type 0 where
  pub in_order : (xs : List StringPair) → Sorted (qsort xs)
  pub same_elements : (xs : List StringPair) → Permᴰ (qsort xs) xs

-- a map with the same pairs, sorted
pub record Rearranged (smap smap' : StringMap) : Type 0 where
  pub says_so : smap'.sorted ≡ true
  pub items_sorted : Sorted smap'.container.items
  pub same_pairs : Permᴰ smap'.container.items smap.container.items

pub sort_unless_sorted-Rearranged :
    (qsort : List StringPair → List StringPair)
    → Sorts qsort
    → (smap : StringMap) → (smap.sorted ≡ true → Sorted smap.container.items)
    → Rearranged smap (sort_unless_sorted qsort smap)
unfolding sort_unless_sorted grar_sort
sort_unless_sorted-Rearranged qsort sorts smap h = elim (Bool-cases smap.sorted) [
  | inl e ↦ simp e (record { says_so = e; items_sorted = h e; same_pairs = Permᴰ.refl _ })
  | inr e ↦ simp e (record {
    says_so = refl;
    items_sorted = sorts.in_order smap.container.items;
    same_pairs = sorts.same_elements smap.container.items;
  })
]
