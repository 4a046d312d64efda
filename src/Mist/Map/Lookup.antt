-- ===== src/Mist/Map/Lookup.antt =====
-- What smap_lookup finds, also behind a smap_update.
use Prim.Native.Nat.{Ordering}
use kedr_aux.Prelude.{
  ℕ, zero, suc, true, Option, none, some, List, [], ◌∷◌, get_elem?, ◌≡◌, ◌≢◌, refl, Bool-cases,
  Option-cases, inl, inr,
}
use kedr_aux.Mist.Keys.{strcmp}
use kedr_aux.Mist.Map.{StringPair, StringMap, is_eq, val_at, smap_lookup}
use kedr_aux.Mist.Map.Merge.Order.{All, Sorted}
use kedr_aux.Mist.Map.Merge.Values.{values, values_none}
use kedr_aux.Mist.Map.Sorting.{
  OneOf, OneOf-Perm, empty-Perm, values-Perm, Sorts, Rearranged, sort_unless_sorted-Rearranged,
}
use mathlib.Core.List.{Permᴰ}

pub OneOf-values :
    (key : List ℕ) (items : List StringPair) (i : ℕ) (p : StringPair)
    → get_elem? items i ≡ some p
    → strcmp p.key key ≡ Ordering.eq
    → OneOf p.val (values key items)
unfolding values
OneOf-values key [] i p e k = absurd cc
OneOf-values key (x ∷ xs) zero p e k = let q : x ≡ p = cc in rw (q, k) (zero, refl)
OneOf-values key (x ∷ xs) (suc i) p e k =
    let (j, q) = OneOf-values key xs i p e k in
    elim (Bool-cases (is_eq (strcmp x.key key))) [ inl f ↦ rw f (suc j, q) | inr f ↦ rw f (j, q) ]

-- what the C library documents of bsearch: on a sorted array it finds an element that compares equal,
-- or NULL if there is none
pub record Searches (bsearch : List ℕ → List StringPair → Option ℕ) : Type 0 where
  pub finds :
      (key : List ℕ) (items : List StringPair) (i : ℕ)
      → Sorted items
      → bsearch key items ≡ some i
      → (p : StringPair) × (get_elem? items i ≡ some p) × (strcmp p.key key ≡ Ordering.eq)
  pub misses :
      (key : List ℕ) (items : List StringPair)
      → Sorted items
      → bsearch key items ≡ none
      → All (λ x. strcmp x.key key ≢ Ordering.eq) items

-- NULL just when there is no value, and one of the values otherwise
pub data Found (vs : List (List ℕ)) : Option (List ℕ) → Type 0 where
  no_value : vs ≡ [] → Found vs none
  value : (v : List ℕ) → OneOf v vs → Found vs (some v)

module _ (qsort : List StringPair → List StringPair) (sorts : Sorts qsort)
    (bsearch : List ℕ → List StringPair → Option ℕ) (searches : Searches bsearch) where
  Found-at :
      (key : List ℕ) (items : List StringPair)
      → Sorted items
      → Found (values key items) (val_at (bsearch key items) items)
  Found-at key items so = elim (Option-cases (bsearch key items)) [
    | inl e ↦ rw e (no_value (values_none key items (searches.misses key items so e)))
    | inr (i, e) ↦
        let (p, q, k) = searches.finds key items i so e in
        rw (e, q) (value p.val (OneOf-values key items i p q k))
  ]

  Found-Perm : {vs ws : List (List ℕ)} {o : Option (List ℕ)} → Permᴰ vs ws → Found vs o → Found ws o
  Found-Perm d (no_value e) = no_value (empty-Perm d e)
  Found-Perm d (value v p) = value v (OneOf-Perm v d p)

  -- Of a qsort that sorts by the keys and keeps the elements, and a bsearch that finds an element with
  -- the key in a sorted array just if there is one: smap_lookup on a map that is sorted if it says so
  -- returns NULL just when the key has no value in the map, and one of its values otherwise; it leaves
  -- a sorted map with the same pairs.
  pub smap_lookup-Found :
      (skey : List ℕ) (smap : StringMap)
      → (smap.sorted ≡ true → Sorted smap.container.items)
      → Found (values skey smap.container.items) (smap_lookup qsort bsearch skey smap).0
        × Rearranged smap (smap_lookup qsort bsearch skey smap).1
  unfolding smap_lookup
  smap_lookup-Found skey smap h =
      let r = sort_unless_sorted-Rearranged qsort sorts smap h in
      (Found-Perm (values-Perm skey r.same_pairs) (Found-at skey _ r.items_sorted), r)
