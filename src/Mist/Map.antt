-- ===== src/Mist/Map.antt =====
-- smap.c: string maps, as arrays of pairs. qsort and bsearch are parameters, and how malloc, realloc
-- and strdup end are arguments.
use Prim.Native.Nat.{Ordering}
use kedr_aux.Prelude.{
  ℕ, zero, suc, ◌+◌, ◌%◌, ◌^◌, Bool, true, false, ◌&&◌, Option, none, some, List, [], ◌∷◌, length,
  get_elem?, if◌then◌else◌,
}
use kedr_aux.Mist.Keys.{strcmp}
use kedr_aux.Mist.Array.{
  GrowingArray, grar_create, grar_reserve, grar_add_element, grar_clear, grar_sort,
}
pub mod Merge
pub mod Sorting
pub mod Update
pub mod Lookup
pub mod Duplicates
pub mod Assign

-- TStringPair
pub record StringPair : Type 0 where
  pub key : List ℕ
  pub val : List ℕ

-- CStringMap
pub record StringMap : Type 0 where
  pub container : GrowingArray StringPair
  pub sorted : Bool

-- pointers that are equal have equal keys
unfoldable pub string_pair_compare : StringPair → StringPair → Ordering
unfolding strcmp
string_pair_compare lhs rhs = strcmp lhs.key rhs.key

abbrev pub is_lt : Ordering → Bool
is_lt Ordering.lt = true
is_lt Ordering.eq = false
is_lt Ordering.gt = false

abbrev pub is_eq : Ordering → Bool
is_eq Ordering.lt = false
is_eq Ordering.eq = true
is_eq Ordering.gt = false

abbrev created_map : Option (GrowingArray StringPair) → Option StringMap
created_map none = none
created_map (some grar) = some (record { container = grar; sorted = false })

unfoldable pub smap_create : Bool → Bool → Option StringMap
unfolding grar_create
smap_create allocated allocated' = if allocated then created_map (grar_create allocated') else none

abbrev pub added : StringMap → Option (Bool × GrowingArray StringPair) → Option (Bool × StringMap)
added smap none = none
added smap (some (true, grar)) = some (true, record { container = grar; sorted = false })
added smap (some (false, grar)) = some (false, smap)

unfoldable pub smap_add_element :
    Bool → Bool → Bool → Bool → List ℕ → List ℕ → StringMap → Option (Bool × StringMap)
unfolding grar_add_element
smap_add_element allocated allocated' allocated'' grown key val smap =
    if allocated && allocated' && allocated''
    then added smap (grar_add_element grown (record { key = key; val = val }) smap.container)
    else some (false, smap)

unfoldable pub smap_clear : StringMap → StringMap
unfolding grar_clear
smap_clear smap = record { container = grar_clear smap.container; sorted = false }

-- the loop of smap_check_duplicate_keys, behind the pair given
unfoldable pub duplicate_from : StringPair → List StringPair → Option (List ℕ)
unfolding strcmp
duplicate_from p [] = none
duplicate_from p (q ∷ qs) =
    let rest = duplicate_from q qs in if is_eq (strcmp q.key p.key) then some q.key else rest

abbrev pub first_duplicate : List StringPair → Option (List ℕ)
first_duplicate [] = none
first_duplicate (p ∷ ps) = duplicate_from p ps

abbrev val_of : Option StringPair → Option (List ℕ)
val_of none = none
val_of (some p) = some p.val

-- what smap_lookup returns for what bsearch found
abbrev pub val_at : Option ℕ → List StringPair → Option (List ℕ)
val_at none items = none
val_at (some i) items = val_of (get_elem? items i)

abbrev pub set_val : ℕ → List ℕ → List StringPair → List StringPair
set_val i val [] = []
set_val zero val (p ∷ ps) = record p { val = val } ∷ ps
set_val (suc i) val (p ∷ ps) = p ∷ set_val i val ps

-- what smap_set_value does with what bsearch found; `copied` tells how its second strdup ends
abbrev pub set_found :
    Bool
    → Bool
    → Bool
    → Bool
    → Bool
    → List ℕ
    → List ℕ
    → StringMap
    → Option ℕ
    → Option (Bool × StringMap)
set_found copied allocated allocated' allocated'' grown key val smap none =
    smap_add_element allocated allocated' allocated'' grown key val smap
set_found copied allocated allocated' allocated'' grown key val smap (some i) =
    if copied
    then some (
      true,
      record smap {
        container = record smap.container { items = set_val i val smap.container.items };
      },
    )
    else some (false, smap)

module _ (qsort : List StringPair → List StringPair) where
  -- what all of the functions below begin with
  unfoldable pub sort_unless_sorted : StringMap → StringMap
  unfolding grar_sort
  sort_unless_sorted smap =
      if smap.sorted
      then smap
      else record { container = grar_sort qsort smap.container; sorted = true }

  unfoldable pub smap_check_duplicate_keys : StringMap → Option (List ℕ) × StringMap
  unfolding sort_unless_sorted duplicate_from
  smap_check_duplicate_keys smap =
      let sorted = sort_unless_sorted smap in (first_duplicate sorted.container.items, sorted)

  module _ (bsearch : List ℕ → List StringPair → Option ℕ) where
    unfoldable pub smap_lookup : List ℕ → StringMap → Option (List ℕ) × StringMap
    unfolding sort_unless_sorted
    smap_lookup skey smap =
        let sorted = sort_unless_sorted smap in
        let items = sorted.container.items in (val_at (bsearch skey items) items, sorted)

    unfoldable pub smap_set_value :
        Bool
        → Bool
        → Bool
        → Bool
        → Bool
        → Bool
        → List ℕ
        → List ℕ
        → StringMap
        → Option (Bool × StringMap)
    unfolding sort_unless_sorted smap_add_element
    smap_set_value key_copied copied allocated allocated' allocated'' grown key val smap =
        let sorted = sort_unless_sorted smap in
        if key_copied
        then set_found copied allocated allocated' allocated'' grown key val sorted
            (bsearch key sorted.container.items)
        else some (false, sorted)
