-- ===== src/Mist/Map/Merge.antt =====
-- smap_update, which merges two sorted arrays.
pub mod Moves
pub mod Order
pub mod Sorted
pub mod Values
use kedr_aux.Prelude.{
  ℕ, zero, suc, ◌+◌, ◌%◌, ◌^◌, Bool, true, false, ◌&&◌, Option, none, some, List, [], ◌∷◌, length,
  ◌==◌, if◌then◌else◌,
}
use kedr_aux.Mist.Array.{
  GrowingArray, grar_create, grar_reserve, grar_add_element, grar_clear, grar_swap,
}
use kedr_aux.Mist.Map.{StringPair, StringMap, string_pair_compare, is_lt, is_eq, sort_unless_sorted}

-- An inner `none` is the return of 0 that an element which cannot be added leads to.
abbrev pub behind_add {ℓ} :
    {B : Type ℓ}
    → Option (Bool × GrowingArray StringPair)
    → (GrowingArray StringPair → Option (Option B))
    → Option (Option B)
behind_add none f = none
behind_add (some (false, grar)) f = some none
behind_add (some (true, grar)) f = f grar

abbrev pub behind {ℓ ℓ'} :
    {A : Type ℓ} {B : Type ℓ'} → Option (Option A) → (A → Option (Option B)) → Option (Option B)
behind none f = none
behind (some none) f = some none
behind (some (some a)) f = f a

-- The loops that move elements to the result, while the test says so, and what they leave.
unfoldable pub move_while :
    (StringPair → Bool)
    → Bool
    → List StringPair
    → GrowingArray StringPair
    → Option (Option (List StringPair × GrowingArray StringPair))
unfolding grar_add_element
move_while p grown [] ga_res = some (some ([], ga_res))
move_while p grown (x ∷ xs) ga_res =
    if p x
    then behind_add (grar_add_element grown x ga_res) (λ t. move_while p grown xs t)
    else some (some (x ∷ xs, ga_res))

-- the loop that destroys elements
unfoldable pub drop_while : (StringPair → Bool) → List StringPair → List StringPair
drop_while p [] = []
drop_while p (x ∷ xs) = let rest = drop_while p xs in if p x then rest else x ∷ xs

abbrev pub comes_before : StringPair → StringPair → Bool
comes_before u x = is_lt (string_pair_compare x u)

abbrev pub same_key : StringPair → StringPair → Bool
same_key u x = is_eq (string_pair_compare x u)

-- The part of a round behind its three loops: all that is left is moved if one array is done.
abbrev pub move_remaining :
    Bool
    → List StringPair
    → List StringPair
    → GrowingArray StringPair
    → Option (Option (List StringPair × List StringPair × GrowingArray StringPair))
move_remaining grown old [] ga_res =
    behind (move_while (λ x. true) grown old ga_res) λ (rest, t). some (some (rest, [], t))
move_remaining grown [] (u ∷ us) ga_res =
    behind (move_while (λ x. true) grown (u ∷ us) ga_res) λ (rest, t). some (some ([], rest, t))
move_remaining grown (o ∷ os) (u ∷ us) ga_res = some (some (o ∷ os, u ∷ us, ga_res))

-- The loop over what remains of both arrays. `none` means that the rounds do not suffice.
unfoldable pub merge_from :
    ℕ
    → Bool
    → List StringPair
    → List StringPair
    → GrowingArray StringPair
    → Option (Option (GrowingArray StringPair))
unfolding move_while drop_while string_pair_compare
merge_from rounds grown old [] ga_res = some (some ga_res)
merge_from zero grown old (u ∷ us) ga_res = none
merge_from (suc rounds) grown old (u ∷ us) ga_res =
    behind (move_while (comes_before u) grown old ga_res) λ (old', t).
      behind (move_while (same_key u) grown (u ∷ us) t) λ (upd', t').
        behind (move_remaining grown (drop_while (same_key u) old') upd' t')
          λ (old'', upd'', t''). merge_from rounds grown old'' upd'' t''

-- The part of smap_update behind the merge. On an error in there the arrays have NULL in the places
-- of the elements that are moved, which is outside of the model, and `none`.
abbrev pub update_merged :
    StringMap
    → StringMap
    → Option (Option (GrowingArray StringPair))
    → Option (Bool × StringMap × StringMap)
update_merged smap upd none = none
update_merged smap upd (some none) = none
update_merged smap upd (some (some ga_res)) = some (
  true,
  record smap { container = ga_res },
  record upd { container = record upd.container { items = [] } },
)

unfoldable pub update_reserved :
    Bool
    → StringMap
    → StringMap
    → Option (Bool × GrowingArray StringPair)
    → Option (Bool × StringMap × StringMap)
unfolding merge_from
update_reserved grown smap upd none = none
update_reserved grown smap upd (some (false, ga_res)) = some (false, smap, upd)
update_reserved grown smap upd (some (true, ga_res)) =
    update_merged smap upd (
      merge_from (length upd.container.items) grown smap.container.items upd.container.items ga_res)

unfoldable pub update_created :
    Bool
    → Bool
    → StringMap
    → StringMap
    → Option (GrowingArray StringPair)
    → Option (Bool × StringMap × StringMap)
unfolding update_reserved grar_reserve
update_created grown grown' smap upd none = some (false, smap, upd)
update_created grown grown' smap upd (some ga_res) = update_reserved grown' smap upd (
    grar_reserve grown ((length smap.container.items + length upd.container.items) % 2 ^ 64) ga_res)

unfoldable pub update_sorted :
    Bool → Bool → Bool → StringMap → StringMap → Option (Bool × StringMap × StringMap)
unfolding update_created grar_create
update_sorted created grown grown' smap upd =
    if length upd.container.items == 0
    then some (true, smap, upd)
    else if length smap.container.items == 0
    then some
        (true, record smap { container = upd.container }, record upd { container = smap.container })
    else update_created grown grown' smap upd (grar_create created)

-- `created` and `grown` tell how the allocations of the temporary array end, and `grown'` how realloc
-- ends when an element is added.
unfoldable pub smap_update :
    (List StringPair → List StringPair)
    → Bool
    → Bool
    → Bool
    → StringMap
    → StringMap
    → Option (Bool × StringMap × StringMap)
unfolding update_sorted sort_unless_sorted
smap_update qsort created grown grown' smap upd =
    update_sorted created grown grown' (sort_unless_sorted qsort smap)
      (sort_unless_sorted qsort upd)
