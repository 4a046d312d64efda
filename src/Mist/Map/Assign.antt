-- ===== src/Mist/Map/Assign.antt =====
-- smap_set_value gives the key its new value and leaves the others alone.
use Prim.Native.Nat.{Ordering}
use kedr_aux.Prelude.{ℕ, Bool, true, false, ◌&&◌, Option, some, List, [], ◌∷◌, ◌≡◌, ◌≢◌}
use kedr_aux.Mist.Keys.{strcmp}
use kedr_aux.Mist.Map.{StringMap}
use kedr_aux.Mist.Map.Merge.Order.{Sorted}
use kedr_aux.Mist.Map.Merge.Values.{values}
use kedr_aux.Mist.Map.Sorting.{Rearranged}
use mathlib.Core.List.{Permᴰ}

-- What set_found may leave behind, of a map that is sorted.
pub data SetIn (allocated : Bool) (key val : List ℕ) (smap : StringMap)
    : Option (Bool × StringMap) → Type 0 where
  was_set :
      (smap' : StringMap)
      → values key smap'.container.items ≡ val ∷ []
      → ((k : List ℕ)
          → strcmp key k ≢ Ordering.eq
          → values k smap'.container.items ≡ values k smap.container.items)
      → (smap'.sorted ≡ true → Sorted smap'.container.items)
      → SetIn allocated key val smap (some (true, smap'))
  not_set : allocated ≡ false → SetIn allocated key val smap (some (false, smap))

module _ (key_copied copied allocated allocated' allocated'' grown : Bool) (key val : List ℕ)
    (smap : StringMap) (so : Sorted smap.container.items) where
  abbrev all_allocated : Bool
  all_allocated = key_copied && copied && allocated && allocated' && allocated'' && grown

-- What smap_set_value may leave behind: a map in which the key has the value and no other, and the other
-- keys the values that they had; or, if an allocation fails, the map with its pairs, sorted.
pub data Assigned (allocated : Bool) (key val : List ℕ) (smap : StringMap)
    : Option (Bool × StringMap) → Type 0 where
  assigned :
      (smap' : StringMap)
      → values key smap'.container.items ≡ val ∷ []
      → ((k : List ℕ)
          → strcmp key k ≢ Ordering.eq
          → Permᴰ (values k smap'.container.items) (values k smap.container.items))
      → (smap'.sorted ≡ true → Sorted smap'.container.items)
      → Assigned allocated key val smap (some (true, smap'))
  refused :
      (smap' : StringMap)
      → allocated ≡ false
      → Rearranged smap smap'
      → Assigned allocated key val smap (some (false, smap'))
