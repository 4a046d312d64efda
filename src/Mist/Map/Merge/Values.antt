-- ===== src/Mist/Map/Merge/Values.antt =====
-- The values that a key has in the merge of two sorted arrays.
use Prim.Native.Nat.{Ordering}
use kedr_aux.Prelude.{
  ℕ, zero, suc, ◌≤◌, Bool, List, [], ◌∷◌, ◌++◌, ◌≡◌, ◌≢◌, refl, sym, ap, ◌∙◌, arith, length,
  if◌then◌else◌, Bool-cases, inl, inr,
}
use kedr_aux.Mist.Keys.{strcmp, strcmp-swap, strcmp-eq, swapped}
use kedr_aux.Mist.Map.{StringPair, is_eq}
use kedr_aux.Mist.Map.Merge.{drop_while, comes_before, same_key}
use kedr_aux.Mist.Map.Merge.Moves.{
  take_while, take_while-append-drop_while, merged, length-drop_while_same, same_key_refl,
}
use kedr_aux.Mist.Map.Merge.Order.{
  Before, All, Sorted, strcmp-cases, strcmp_before, map-All, drop_while-Sorted,
}
use kedr_aux.Mist.Map.Merge.Sorted.{lower-All, same-All, old_rest-All, upd_rest-All}

-- the values of a key, in the order of the array
unfoldable pub values : List ℕ → List StringPair → List (List ℕ)
values key [] = []
values key (p ∷ ps) =
    let rest = values key ps in if is_eq (strcmp p.key key) then p.val ∷ rest else rest

-- the values that replace others, if there are any
abbrev pub prefer : List (List ℕ) → List (List ℕ) → List (List ℕ)
prefer [] old = old
prefer (v ∷ vs) old = v ∷ vs

pub values-append :
    (key : List ℕ) (xs ys : List StringPair)
    → values key (xs ++ ys) ≡ values key xs ++ values key ys
unfolding values
values-append key [] ys = refl
values-append key (x ∷ xs) ys = elim (Bool-cases (is_eq (strcmp x.key key))) [
  | inl e ↦ rw e (ap (λ t. x.val ∷ t) (values-append key xs ys))
  | inr e ↦ rw e (values-append key xs ys)
]

pub values_none :
    (key : List ℕ) (xs : List StringPair)
    → All (λ x. strcmp x.key key ≢ Ordering.eq) xs
    → values key xs ≡ []
unfolding values
values_none key [] h = refl
values_none key (x ∷ xs) (h, t) = elim (strcmp-cases x.key key) [
  | inl e ↦ rw e (values_none key xs t)
  | inr (inl e) ↦ absurd (h e)
  | inr (inr e) ↦ rw e (values_none key xs t)
]

values-split :
    (p : StringPair → Bool) (key : List ℕ) (xs : List StringPair)
    → values key xs ≡ values key (take_while p xs) ++ values key (drop_while p xs)
values-split p key xs =
    ap (values key) (sym (take_while-append-drop_while p xs))
    ∙ values-append key (take_while p xs) (drop_while p xs)

module _ (u : StringPair) (key : List ℕ) where
  values-Before :
      (xs : List StringPair)
      → strcmp u.key key ≢ Ordering.gt
      → All (λ x. Before x u) xs
      → values key xs ≡ []
  values-Before xs h a =
      values_none key xs (
        map-All (λ x. Before x u) _ xs (λ x k e. let q = strcmp_before x.key u.key key k h in cc) a)

  values-same :
      (xs : List StringPair)
      → strcmp u.key key ≢ Ordering.eq
      → All (λ x. x.key ≡ u.key) xs
      → values key xs ≡ []
  values-same xs h a =
      values_none key xs
        (map-All (λ x. x.key ≡ u.key) _ xs (λ x k e. h (ap (λ t. strcmp t key) (sym k) ∙ e)) a)

  pub values-after :
      (xs : List StringPair)
      → strcmp key u.key ≢ Ordering.gt
      → All (Before u) xs
      → values key xs ≡ []
  values-after xs h a = values_none key xs (
      map-All (Before u) _ xs
        (λ x k e. h (
          strcmp-swap u.key key ∙ ap swapped (ap (strcmp u.key) (sym (strcmp-eq x.key key e)) ∙ k)))
        a)

pub prefer_nil : (vs : List (List ℕ)) → prefer vs [] ≡ vs
prefer_nil [] = refl
prefer_nil (v ∷ vs) = refl

module _ (old : List StringPair) (u : StringPair) (us : List StringPair) (so : Sorted old)
    (su : Sorted (u ∷ us)) (key : List ℕ) where
  abbrev low : List (List ℕ)
  low = values key (take_while (comes_before u) old)

  abbrev mid : List (List ℕ)
  mid = values key (take_while (same_key u) (drop_while (comes_before u) old))

  abbrev old_high : List (List ℕ)
  old_high = values key (drop_while (same_key u) (drop_while (comes_before u) old))

  abbrev new : List (List ℕ)
  new = values key (take_while (same_key u) (u ∷ us))

  abbrev new_high : List (List ℕ)
  new_high = values key (drop_while (same_key u) (u ∷ us))

  values-old : values key old ≡ low ++ (mid ++ old_high)
  values-old =
      values-split (comes_before u) key old
      ∙ ap (λ t. low ++ t) (values-split (same_key u) key (drop_while (comes_before u) old))

  new-cons : strcmp u.key key ≡ Ordering.eq → (vs : List (List ℕ)) × (new ≡ u.val ∷ vs)
  unfolding values take_while
  new-cons e = rw (same_key_refl u, e) (_, refl)

  -- The three kinds of keys: those behind the key of `u`, that key, and those before it.
  prefer-parts :
      low ++ (new ++ prefer new_high old_high) ≡ prefer (new ++ new_high) (low ++ (mid ++ old_high))
  prefer-parts = elim (strcmp-cases u.key key) [
    | inl e ↦
        rw
          (
            values-Before u key (take_while (comes_before u) old) (λ f. cc)
                (lower-All old u us so su),
            values-same u key (take_while (same_key u) (u ∷ us)) (λ f. cc)
                (same-All old u us so su (u ∷ us)),
            values-same u key (take_while (same_key u) (drop_while (comes_before u) old)) (λ f. cc)
                (same-All old u us so su (drop_while (comes_before u) old)),
          )
          refl
    | inr (inl e) ↦
        let (vs, n) = new-cons e in
        let k = strcmp-swap u.key key ∙ ap swapped e in
        rw
          (
            values-Before u key (take_while (comes_before u) old) (λ f. cc)
                (lower-All old u us so su),
            values-after u key (drop_while (same_key u) (u ∷ us)) (λ f. cc)
                (upd_rest-All old u us so su),
            values-after u key (drop_while (same_key u) (drop_while (comes_before u) old)) (λ f. cc)
                (old_rest-All old u us so su),
            n,
          )
          refl
    | inr (inr e) ↦
        let k = strcmp-swap u.key key ∙ ap swapped e in
        rw
          (
            values-after u key (drop_while (same_key u) (u ∷ us)) (λ f. cc)
                (upd_rest-All old u us so su),
            values-after u key (drop_while (same_key u) (drop_while (comes_before u) old)) (λ f. cc)
                (old_rest-All old u us so su),
            values-same u key (take_while (same_key u) (u ∷ us)) (λ f. cc)
                (same-All old u us so su (u ∷ us)),
            values-same u key (take_while (same_key u) (drop_while (comes_before u) old)) (λ f. cc)
                (same-All old u us so su (drop_while (comes_before u) old)),
          )
          refl
  ]

  values-round :
      (rest : List StringPair)
      → values key rest ≡ prefer new_high old_high
      → values key (take_while (comes_before u) old ++ (take_while (same_key u) (u ∷ us) ++ rest))
        ≡ prefer (values key (u ∷ us)) (values key old)
  values-round rest h =
      values-append key (take_while (comes_before u) old) (take_while (same_key u) (u ∷ us) ++ rest)
      ∙ ap (λ t. low ++ t) (values-append key (take_while (same_key u) (u ∷ us)) rest)
      ∙ ap (λ t. low ++ (new ++ t)) h
      ∙ prefer-parts
      ∙ (λ i. prefer (sym (values-split (same_key u) key (u ∷ us)) i) (sym values-old i))

pub values-merged :
    (key : List ℕ) (rounds : ℕ) (old upd : List StringPair)
    → length upd ≤ rounds
    → Sorted old
    → Sorted upd
    → values key (merged rounds old upd) ≡ prefer (values key upd) (values key old)
unfolding merged values
values-merged key rounds old [] l h k = refl
values-merged key rounds [] (u ∷ us) l h k = sym (prefer_nil (values key (u ∷ us)))
values-merged key zero (o ∷ os) (u ∷ us) l h k = absurd (omega (arith, l))
values-merged key (suc rounds) (o ∷ os) (u ∷ us) l h k = values-round (o ∷ os) u us h k key _ (
    values-merged key rounds _ _ (omega (arith, l, length-drop_while_same u us))
      (drop_while-Sorted (same_key u) _ (drop_while-Sorted (comes_before u) (o ∷ os) h))
      (drop_while-Sorted (same_key u) (u ∷ us) k))
