-- ===== src/Mist/Array.antt =====
-- grar.c: growing arrays. How malloc and realloc end are arguments.
use kedr_aux.Prelude.{
  ℕ, zero, suc, ◌+◌, ◌-◌, ◌*◌, ◌%◌, ◌^◌, Bool, true, false, Option, none, some, List, [], ◌∷◌, ◌++◌,
  leb, ltb, length, if◌then◌else◌,
}
use kedr_aux.Mist.Strings.{within}
pub mod Reserve

-- CGrowingArray: `items` are the first `size` elements of `data`.
pub record GrowingArray (A : Type 0) : Type 0 where
  pub capacity : ℕ
  pub items : List A

-- The loop of grar_reserve on a size_t; a capacity that is not 0 gets to 2^64 in 64 rounds. `none`
-- means that the rounds do not suffice.
unfoldable pub grow : ℕ → ℕ → ℕ → Option ℕ
grow zero room new_min_capacity = none
grow (suc rounds) room new_min_capacity =
    let rest = grow rounds (room * 2 % 2 ^ 64) new_min_capacity in
    if ltb (room * 2 % 2 ^ 64) new_min_capacity then rest else some (room * 2 % 2 ^ 64)

module _ {A : Type 0} where
  unfoldable pub grar_create : Bool → Option (GrowingArray A)
  grar_create allocated = if allocated then some (record { capacity = 16; items = [] }) else none

  -- realloc, of elements of 8 bytes; `none` if their number of bytes does not fit a size_t
  abbrev pub reallocate : Bool → GrowingArray A → Option ℕ → Option (Bool × GrowingArray A)
  reallocate grown grar none = none
  reallocate grown grar (some room) =
      within (room * 8) (2 ^ 64 - 1)
        (if grown then some (true, record grar { capacity = room }) else some (false, grar))

  unfoldable pub grar_reserve : Bool → ℕ → GrowingArray A → Option (Bool × GrowingArray A)
  unfolding grow
  grar_reserve grown new_min_capacity grar =
      if leb new_min_capacity grar.capacity
      then some (true, grar)
      else reallocate grown grar (grow 64 grar.capacity new_min_capacity)

  -- the part of grar_add_element behind grar_reserve, and that of grar_append_array
  abbrev pub add_reserved : List A → Option (Bool × GrowingArray A) → Option (Bool × GrowingArray A)
  add_reserved elems none = none
  add_reserved elems (some (false, grar)) = some (false, grar)
  add_reserved elems (some (true, grar)) =
      within (length grar.items + length elems) grar.capacity
        (some (true, record grar { items = grar.items ++ elems }))

  unfoldable pub grar_add_element : Bool → A → GrowingArray A → Option (Bool × GrowingArray A)
  unfolding grar_reserve
  grar_add_element grown elem grar =
      add_reserved (elem ∷ []) (grar_reserve grown ((length grar.items + 1) % 2 ^ 64) grar)

  unfoldable pub grar_append_array :
      Bool → GrowingArray A → GrowingArray A → Option (Bool × GrowingArray A)
  unfolding grar_reserve
  grar_append_array grown grar src =
      add_reserved src.items
        (grar_reserve grown ((length grar.items + length src.items) % 2 ^ 64) grar)

  unfoldable pub grar_destroy : GrowingArray A → GrowingArray A
  grar_destroy grar = record { capacity = 0; items = [] }

  unfoldable pub grar_clear : GrowingArray A → GrowingArray A
  grar_clear grar = record grar { items = [] }

  unfoldable pub grar_swap : GrowingArray A → GrowingArray A → GrowingArray A × GrowingArray A
  grar_swap lhs rhs = (rhs, lhs)

  -- qsort is a parameter
  unfoldable pub grar_sort : (List A → List A) → GrowingArray A → GrowingArray A
  grar_sort qsort grar = record grar { items = qsort grar.items }

-- the loop of grar_string_total_length
unfoldable pub total_from : ℕ → List (List ℕ) → ℕ
total_from len [] = len
total_from len (s ∷ ss) = total_from ((len + length s) % 2 ^ 64) ss

unfoldable pub grar_string_total_length : GrowingArray (List ℕ) → ℕ
unfolding total_from
grar_string_total_length grar = total_from 0 grar.items
