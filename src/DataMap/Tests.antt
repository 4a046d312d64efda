-- ===== src/DataMap/Tests.antt =====
-- Concrete inputs: a table of two chains, and of the chains that data_map_create makes.
use native.Mathlib.Nat.{mod-lt, one-le-pow}
use kedr_aux.Prelude.{
  ℕ, zero, suc, ◌%◌, ◌^◌, true, some, List, [], ◌∷◌, ◌==◌, ◌≡◌, refl, arith, get_elem?,
  if◌then◌else◌,
}
use kedr_aux.DataMap.Table.{
  data_map_get, Elem, DataMap, success, hash_size, shifts, empty_chains, data_map_create, find,
  data_map_add,
}
use kedr_aux.DataMap.WellFormed.{WellFormed, InChain}
use kedr_aux.DataMap.Laws.{
  data_map_get-lookup, InRange, the_some, lookup, Deleted, data_map_add-lookup,
  data_map_delete-lookup,
}

-- the low bits of an address
abbrev low_bits : ℕ → ℕ → ℕ
low_bits k bits = k % 2 ^ bits

low_bits-InRange : InRange low_bits
low_bits-InRange k bits h = mod-lt k (one-le-pow bits 2 (omega arith))

abbrev two_keys : DataMap
two_keys = record {
  hash_table =
      (record { key = 6; data_ptr = 60 } ∷ record { key = 4; data_ptr = 40 } ∷ []) ∷ [] ∷ [];
  size_bits = 1;
}

two_keys-placed :
    (i : ℕ) (c : List Elem) → get_elem? two_keys.hash_table i ≡ some c → InChain low_bits 1 i c
unfolding find
two_keys-placed zero c h = rw (← the_some h) (refl, refl, (refl, refl, tt))
two_keys-placed (suc zero) c h = rw (← the_some h) tt
two_keys-placed (suc (suc i)) c h = cc

two_keys-WellFormed : WellFormed low_bits two_keys
two_keys-WellFormed = record { shifted = omega arith; sized = refl; placed = two_keys-placed }

data_map_add-lookup_example :
    (m' : DataMap) × (data_map_add low_bits true 5 50 two_keys ≡ some (success, m'))
    × WellFormed low_bits m'
    × ((k' : ℕ) → lookup m' k' ≡ (if 5 == k' then some 50 else lookup two_keys k'))
unfolding find
data_map_add-lookup_example =
    data_map_add-lookup low_bits low_bits-InRange two_keys two_keys-WellFormed 5 50 refl

data_map_delete-lookup_example : Deleted low_bits low_bits-InRange two_keys two_keys-WellFormed 6
data_map_delete-lookup_example =
    data_map_delete-lookup low_bits low_bits-InRange two_keys two_keys-WellFormed 6

-- the map made for 3 elements: 8 chains for a hash_size of 5
abbrev for_three : DataMap
for_three = record { hash_table = [] ∷ [] ∷ [] ∷ [] ∷ [] ∷ [] ∷ [] ∷ [] ∷ []; size_bits = 3 }

created : data_map_create true true 3 ≡ some for_three
unfolding data_map_create hash_size shifts empty_chains
created = refl

data_map_get-lookup_example : data_map_get low_bits 6 two_keys ≡ some 60
unfolding find
data_map_get-lookup_example =
    data_map_get-lookup low_bits low_bits-InRange two_keys two_keys-WellFormed 6
