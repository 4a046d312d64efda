-- ===== src/Mist/Array/Reserve.antt =====
-- grar_reserve ends, and what is added stands at the end.
use Prim.Native.Nat.pow
use kedr_aux.Prelude.{
  ℕ, zero, suc, ◌+◌, ◌-◌, ◌*◌, ◌%◌, ◌^◌, ◌≤◌, ◌<◌, Bool, true, false, Option, none, some, List, [],
  ◌∷◌, ◌++◌, leb, ltb, length, length-append, ◌≡◌, refl, ap, arith, if◌then◌else◌, Bool-cases, inl,
  inr, ◌⊎◌,
}
use kedr_aux.Mist.Strings.Bounds.{within-le}
use kedr_aux.Mist.Array.{
  GrowingArray, grow, grar_reserve, reallocate, add_reserved, grar_add_element, grar_append_array,
}

unwrapped : (room n : ℕ) → room < n → n ≤ 2 ^ 63 → room * 2 % 2 ^ 64 ≡ room * 2
unwrapped room n l s = omega (arith, l, s)

-- `room * 2 ^ rounds` is what the loop gets to at most
grow_enough :
    (rounds room n : ℕ)
    → 0 < room
    → room < n
    → n ≤ 2 ^ 63
    → n ≤ room * 2 ^ rounds
    → (c : ℕ) × (grow rounds room n ≡ some c) × (n ≤ c) × (c < 2 * n)
unfolding grow
grow_enough zero room n h l s e = absurd (omega (arith, e, l))
grow_enough (suc rounds) room n h l s e =
    rw (unwrapped room n l s) (elim (Bool-cases (ltb (room * 2) n)) [
      | inl b ↦ rw b (grow_enough rounds (room * 2) n (omega (arith, h)) (ground (arith, b)) s more)
      | inr b ↦ rw b (room * 2, refl, ground (arith, b), omega (arith, l))
    ])
  where
    more : n ≤ room * 2 * 2 ^ rounds
    more = omega (arith, e, ap (λ t. room * t) (pow.suc 2 rounds))

-- What grar_add_element and grar_append_array may leave behind.
pub data Appended {A : Type 0} (grown : Bool) (grar : GrowingArray A) (elems : List A)
    : Option (Bool × GrowingArray A) → Type 0 where
  appended :
      (capacity : ℕ)
      → length (grar.items ++ elems) ≤ capacity
      → (capacity ≡ grar.capacity) ⊎ (capacity < 2 * length (grar.items ++ elems))
      → Appended grown grar elems
          (some (true, record { capacity = capacity; items = grar.items ++ elems }))
  not_grown : grown ≡ false → Appended grown grar elems (some (false, grar))

-- the capacity is 16 at first and only grows, and the elements stand within it
pub record Sized {A : Type 0} (grar : GrowingArray A) : Type 0 where
  pub positive : 0 < grar.capacity
  pub inside : length grar.items ≤ grar.capacity

module _ {A : Type 0} (grown : Bool) (grar : GrowingArray A) (s : Sized grar) where
  append_reserved :
      (elems : List A)
      → length grar.items + length elems ≤ 2 ^ 60
      → Appended grown grar elems (
          add_reserved elems
            (grar_reserve grown ((length grar.items + length elems) % 2 ^ 64) grar))
  unfolding grar_reserve
  append_reserved elems h = rw wrap (elim (Bool-cases (leb total grar.capacity)) [
    | inl b ↦ rw b (add grar.capacity (ground (arith, b)) (inl refl))
    | inr b ↦ rw b (
        enough (
          grow_enough 64 grar.capacity total s.positive (ground (arith, b)) (omega (arith, h))
            reach))
  ])
    where
      total : ℕ
      total = length grar.items + length elems

      wrap : total % 2 ^ 64 ≡ total
      wrap = omega (arith, h)

      reach : total ≤ grar.capacity * 2 ^ 64
      reach = omega (arith, h, s.positive)

      add :
          (capacity : ℕ)
          → total ≤ capacity
          → (capacity ≡ grar.capacity) ⊎ (capacity < 2 * total)
          → Appended grown grar elems
              (add_reserved elems (some (true, record grar { capacity = capacity })))
      add capacity l o = rw (within-le {A = Bool × GrowingArray A} total capacity _ l) (
          appended capacity (rw (length-append grar.items elems) l)
            (rw (length-append grar.items elems) o))

      ends :
          (b : Bool)
          → grown ≡ b
          → (capacity : ℕ)
          → Appended grown grar elems
              (add_reserved elems (some (true, record grar { capacity = capacity })))
          → Appended grown grar elems (
              add_reserved elems (
                if b then some (true, record grar { capacity = capacity }) else some (false, grar)))
      ends true e capacity a = a
      ends false e capacity a = not_grown e

      enough :
          (c : ℕ) × (grow 64 grar.capacity total ≡ some c) × (total ≤ c) × (c < 2 * total)
          → Appended grown grar elems
              (add_reserved elems (reallocate grown grar (grow 64 grar.capacity total)))
      enough (c, e, l, g) =
          let fits : leb (c * 8) (2 ^ 64 - 1) ≡ true = ground (arith, g, h) in
          rw (e, fits) (ends grown refl c (add c l (inr g)))

  -- Adding an element to an array that stands within its capacity, of fewer than 2^60 elements,
  -- ends, and either puts the element behind the others, in an array that stands within its
  -- capacity again, at most doubled, or, only when realloc fails, reports that and changes nothing.
  pub grar_add_element-Appended :
      (elem : A)
      → length grar.items < 2 ^ 60
      → Appended grown grar (elem ∷ []) (grar_add_element grown elem grar)
  unfolding grar_add_element
  grar_add_element-Appended elem h = append_reserved (elem ∷ []) (omega (arith, h))

  -- Appending an array to one that stands within its capacity, with at most 2^60 elements together,
  -- ends, and either puts all of its elements behind the others, in their order, in an array that
  -- stands within its capacity again, which is the old one or less than twice the elements, or, only
  -- when realloc fails, reports that and changes nothing.
  pub grar_append_array-Appended :
      (src : GrowingArray A)
      → length grar.items + length src.items ≤ 2 ^ 60
      → Appended grown grar src.items (grar_append_array grown grar src)
  unfolding grar_append_array
  grar_append_array-Appended src h = append_reserved src.items h

-- A loop of grar_reserve that starts at a capacity of 0 does not end, in any number of rounds.
grow-zero : (rounds n : ℕ) → 0 < n → grow rounds 0 n ≡ none
unfolding grow
grow-zero zero n h = refl
grow-zero (suc rounds) n h = ground (arith, grow-zero rounds n h)

-- An element for which there is room is added without a call of realloc.
pub grar_add_element_within :
    {A : Type 0} (grown : Bool) (x : A) (grar : GrowingArray A)
    → length grar.items < grar.capacity
    → length grar.items < 2 ^ 60
    → grar_add_element grown x grar ≡ some (true, record grar { items = grar.items ++ (x ∷ []) })
unfolding grar_add_element grar_reserve
grar_add_element_within {A} grown x grar h k =
    let wrap : (length grar.items + 1) % 2 ^ 64 ≡ length grar.items + 1 = omega (arith, k) in
    let room : leb (length grar.items + 1) grar.capacity ≡ true = ground (arith, h) in
    rw (wrap, room, room) refl

-- A new array gets room for what is asked for, unless realloc fails.
pub grar_reserve-grar_create :
    {A : Type 0} (grown : Bool) (n : ℕ)
    → n ≤ 2 ^ 60
    → ((c : ℕ) × (grar_reserve {A = A} grown (n % 2 ^ 64) (record { capacity = 16; items = [] })
          ≡ some (true, record { capacity = c; items = [] }))
        × (n ≤ c))
      ⊎ ((grown ≡ false)
          × (grar_reserve {A = A} grown (n % 2 ^ 64) (record { capacity = 16; items = [] })
              ≡ some (false, record { capacity = 16; items = [] })))
unfolding grar_reserve
grar_reserve-grar_create {A} grown n h = rw wrap (elim (Bool-cases (leb n 16)) [
  | inl b ↦ rw b (inl (16, refl, ground (arith, b)))
  | inr b ↦ rw b (
      grown_room (
        grow_enough 64 16 n (omega arith) (ground (arith, b)) (omega (arith, h))
          (omega (arith, h))))
])
  where
    wrap : n % 2 ^ 64 ≡ n
    wrap = omega (arith, h)

    Reserved : Option (Bool × GrowingArray A) → Type 0
    Reserved r =
        ((c : ℕ) × (r ≡ some (true, record { capacity = c; items = [] })) × (n ≤ c))
        ⊎ ((grown ≡ false) × (r ≡ some (false, record { capacity = 16; items = [] })))

    by_grown :
        (b : Bool) (c : ℕ)
        → grown ≡ b
        → n ≤ c
        → Reserved (
            if b
            then some (true, record { capacity = c; items = [] })
            else some (false, record { capacity = 16; items = [] }))
    by_grown true c e l = inl (c, refl, l)
    by_grown false c e l = inr (e, refl)

    grown_room :
        (c : ℕ) × (grow 64 16 n ≡ some c) × (n ≤ c) × (c < 2 * n)
        → Reserved (reallocate {A = A} grown (record { capacity = 16; items = [] }) (grow 64 16 n))
    grown_room (c, e, l, g) =
        let fits : leb (c * 8) (2 ^ 64 - 1) ≡ true = ground (arith, g, h) in
        rw (e, fits) (by_grown grown c refl l)
