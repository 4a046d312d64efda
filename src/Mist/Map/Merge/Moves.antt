-- ===== src/Mist/Map/Merge/Moves.antt =====
-- smap_update never runs out of room in its temporary array: its loops compute a merge of lists.
use kedr_aux.Prelude.{
  ℕ, zero, suc, ◌+◌, ◌^◌, ◌≤◌, Bool, true, some, List, [], ◌∷◌, ◌++◌, append-nil, append_assoc, ◌≡◌,
  refl, sym, ap, ◌∙◌, arith, length, length-append, if◌then◌else◌, Bool-cases, inl, inr,
}
use kedr_aux.Mist.Keys.{strcmp_refl}
use kedr_aux.Mist.Array.{GrowingArray}
use kedr_aux.Mist.Array.Reserve.{grar_add_element_within}
use kedr_aux.Mist.Map.{StringPair, string_pair_compare, is_eq}
use kedr_aux.Mist.Map.Merge.{
  behind, move_while, drop_while, comes_before, same_key, move_remaining, merge_from,
}

unfoldable pub take_while : (StringPair → Bool) → List StringPair → List StringPair
take_while p [] = []
take_while p (x ∷ xs) = let rest = take_while p xs in if p x then x ∷ rest else []

pub take_while-append-drop_while :
    (p : StringPair → Bool) (xs : List StringPair) → take_while p xs ++ drop_while p xs ≡ xs
unfolding take_while drop_while
take_while-append-drop_while p [] = refl
take_while-append-drop_while p (x ∷ xs) = elim (Bool-cases (p x)) [
  | inl e ↦ rw e (ap (λ t. x ∷ t) (take_while-append-drop_while p xs))
  | inr e ↦ rw e refl
]

length-while :
    (p : StringPair → Bool) (xs : List StringPair)
    → length (take_while p xs) + length (drop_while p xs) ≡ length xs
length-while p xs =
    sym (length-append (take_while p xs) (drop_while p xs))
    ∙ ap length (take_while-append-drop_while p xs)

drop_while_all : (xs : List StringPair) → drop_while (λ x. true) xs ≡ []
unfolding drop_while
drop_while_all [] = refl
drop_while_all (x ∷ xs) = drop_while_all xs

take_while_all : (xs : List StringPair) → take_while (λ x. true) xs ≡ xs
take_while_all xs =
    sym (append-nil (take_while (λ x. true) xs))
    ∙ ap (λ t. take_while (λ x. true) xs ++ t) (sym (drop_while_all xs))
    ∙ take_while-append-drop_while (λ x. true) xs

-- `n` elements fit in the array behind those that are there
abbrev pub Room : ℕ → GrowingArray StringPair → Type 0
Room n grar = (length grar.items + n ≤ grar.capacity) × (length grar.items + n ≤ 2 ^ 60)

-- the array with more elements
abbrev pub with_items : List StringPair → GrowingArray StringPair → GrowingArray StringPair
with_items xs grar = record grar { items = grar.items ++ xs }

move_while-take_while :
    (p : StringPair → Bool) (grown : Bool) (xs : List StringPair) (grar : GrowingArray StringPair)
    → Room (length xs) grar
    → move_while p grown xs grar ≡ some (some (drop_while p xs, with_items (take_while p xs) grar))
unfolding move_while drop_while take_while
move_while-take_while p grown [] grar h =
    ap (λ t. some (some ([], record grar { items = t }))) (sym (append-nil grar.items))
move_while-take_while p grown (x ∷ xs) grar (h, k) = elim (Bool-cases (p x)) [
  | inl e ↦
      rw (e, grar_add_element_within grown x grar (omega (arith, h)) (omega (arith, k)))
        (move_while-take_while p grown xs (with_items (x ∷ []) grar) (
          omega (arith, h, length-append grar.items (x ∷ [])),
          omega (arith, k, length-append grar.items (x ∷ [])),
        )
          ∙ ap (λ t. some (some (drop_while p xs, record grar { items = t })))
              (append_assoc grar.items (x ∷ []) (take_while p xs)))
  | inr e ↦
      rw e (ap (λ t. some (some (x ∷ xs, record grar { items = t }))) (sym (append-nil grar.items)))
]

-- what the merge of two arrays is, round by round
unfoldable pub merged : ℕ → List StringPair → List StringPair → List StringPair
merged rounds old [] = old
merged rounds [] (u ∷ us) = u ∷ us
merged zero (o ∷ os) (u ∷ us) = []
merged (suc rounds) (o ∷ os) (u ∷ us) =
    take_while (comes_before u) (o ∷ os)
    ++ (take_while (same_key u) (u ∷ us)
        ++ merged rounds (drop_while (same_key u) (drop_while (comes_before u) (o ∷ os)))
            (drop_while (same_key u) (u ∷ us)))

pub same_key_refl : (u : StringPair) → same_key u u ≡ true
unfolding string_pair_compare
same_key_refl u = ap is_eq (strcmp_refl u.key)

-- a round moves its first element of the update at least
pub length-drop_while_same :
    (u : StringPair) (us : List StringPair) → length (drop_while (same_key u) (u ∷ us)) ≤ length us
unfolding drop_while
length-drop_while_same u us = rw (same_key_refl u) (omega (arith, length-while (same_key u) us))

pub merge_from-merged :
    (rounds : ℕ) (grown : Bool) (old upd : List StringPair) (grar : GrowingArray StringPair)
    → length upd ≤ rounds
    → Room (length old + length upd) grar
    → behind
        (move_remaining grown old upd grar)
        (λ (old', upd', t). merge_from rounds grown old' upd' t)
      ≡ some (some (with_items (merged rounds old upd) grar))
unfolding merge_from merged
merge_from-merged rounds grown old [] grar l (h, k) =
    rw
      (
        move_while-take_while (λ x. true) grown old grar (omega (arith, h), omega (arith, k)),
        take_while_all old,
      )
      refl
merge_from-merged rounds grown [] (u ∷ us) grar l (h, k) =
    rw
      (
        move_while-take_while (λ x. true) grown (u ∷ us) grar (omega (arith, h), omega (arith, k)),
        drop_while_all (u ∷ us),
        take_while_all (u ∷ us),
      )
      refl
merge_from-merged zero grown (o ∷ os) (u ∷ us) grar l h = absurd (omega (arith, l))
merge_from-merged (suc rounds) grown (o ∷ os) (u ∷ us) grar l (h, k) =
    rw
      (
        move_while-take_while (comes_before u) grown (o ∷ os) grar
            (omega (arith, h), omega (arith, k)),
        move_while-take_while (same_key u) grown (u ∷ us) (with_items b grar) (
          omega (arith, h, lb, length-append grar.items b),
          omega (arith, k, lb, length-append grar.items b),
        ),
      )
      (merge_from-merged rounds grown (drop_while (same_key u) r) n
          (with_items m (with_items b grar)) (omega (arith, l, length-drop_while_same u us))
          (omega (arith, h, sizes), omega (arith, k, sizes))
        ∙ ap (λ t. some (some (record grar { items = t }))) assoc)
  where
    b : List StringPair
    b = take_while (comes_before u) (o ∷ os)

    r : List StringPair
    r = drop_while (comes_before u) (o ∷ os)

    m : List StringPair
    m = take_while (same_key u) (u ∷ us)

    n : List StringPair
    n = drop_while (same_key u) (u ∷ us)

    lb : length b + length r ≡ length (o ∷ os)
    lb = length-while (comes_before u) (o ∷ os)

    sizes :
        length ((grar.items ++ b) ++ m) + (length (drop_while (same_key u) r) + length n)
        ≤ length grar.items + (length (o ∷ os) + length (u ∷ us))
    sizes = omega (
      arith,
      lb,
      length-while (same_key u) r,
      length-while (same_key u) (u ∷ us),
      length-append (grar.items ++ b) m,
      length-append grar.items b,
    )

    assoc :
        ((grar.items ++ b) ++ m) ++ merged rounds (drop_while (same_key u) r) n
        ≡ grar.items ++ (b ++ (m ++ merged rounds (drop_while (same_key u) r) n))
    assoc = simp (append_assoc)
