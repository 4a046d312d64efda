-- ===== src/Mist/Map/Update.antt =====
-- smap_update overrides the map's values by those of the other map.
use mathlib.Core.List.{Permᴰ}
use kedr_aux.Mist.Map.Sorting.{
  length-Perm, values-Perm, prefer-Perm, Sorts, Rearranged, sort_unless_sorted-Rearranged,
}
use kedr_aux.Prelude.{
  subst, ℕ, ◌+◌, ◌^◌, ◌≤◌, Bool, true, false, ◌&&◌, Option, some, List, [], ◌∷◌, ◌≡◌, refl, sym,
  arith, length, ◌==◌, Bool-cases, inl, inr,
}
use kedr_aux.Mist.Array.{GrowingArray, grar_create}
use kedr_aux.Mist.Array.Reserve.{grar_reserve-grar_create}
use kedr_aux.Mist.Map.{StringPair, StringMap}
use kedr_aux.Mist.Map.Merge.{
  merge_from, update_reserved, update_created, update_sorted, smap_update,
}
use kedr_aux.Mist.Map.Merge.Moves.{Room, merged, with_items, merge_from-merged}
use kedr_aux.Mist.Map.Merge.Order.{Sorted}
use kedr_aux.Mist.Map.Merge.Sorted.{merged-Sorted}
use kedr_aux.Mist.Map.Merge.Values.{values, prefer, prefer_nil, values-merged}

-- What update_sorted may leave behind.
pub data Merged (allocated : Bool) (smap upd : StringMap)
    : Option (Bool × StringMap × StringMap) → Type 0 where
  merged_pairs :
      (smap' upd' : StringMap)
      → smap'.sorted ≡ true
      → Sorted smap'.container.items
      → ((key : List ℕ)
          → values key smap'.container.items
            ≡ prefer (values key upd.container.items) (values key smap.container.items))
      → upd'.container.items ≡ []
      → Merged allocated smap upd (some (true, smap', upd'))
  not_merged : allocated ≡ false → Merged allocated smap upd (some (false, smap, upd))

no_items : {A : Type 0} (xs : List A) → (length xs == 0) ≡ true → xs ≡ []
no_items [] h = refl
no_items (x ∷ xs) h = absurd (ground (arith, h))

merge_from_both :
    (grown : Bool) (old upd : List StringPair) (grar : GrowingArray StringPair)
    → (length old == 0) ≡ false
    → (length upd == 0) ≡ false
    → Room (length old + length upd) grar
    → merge_from (length upd) grown old upd grar
      ≡ some (some (with_items (merged (length upd) old upd) grar))
merge_from_both grown [] upd grar e f r = cc
merge_from_both grown (o ∷ os) [] grar e f r = cc
merge_from_both grown (o ∷ os) (u ∷ us) grar e f r =
    merge_from-merged (length (u ∷ us)) grown (o ∷ os) (u ∷ us) grar (omega arith) r

module _ (created grown grown' : Bool) (smap upd : StringMap) (sm : smap.sorted ≡ true)
    (so : Sorted smap.container.items) (su : Sorted upd.container.items)
    (fits : length smap.container.items + length upd.container.items ≤ 2 ^ 60) where
  reserved-Merged :
      (c : ℕ)
      → length smap.container.items + length upd.container.items ≤ c
      → (length smap.container.items == 0) ≡ false
      → (length upd.container.items == 0) ≡ false
      → Merged
          (created && grown)
          smap
          upd
          (update_reserved grown' smap upd (some (true, record { capacity = c; items = [] })))
  unfolding update_reserved
  reserved-Merged c h e f =
      rw
        (merge_from_both grown' smap.container.items upd.container.items
          (record { capacity = c; items = [] }) e f (omega (arith, h), omega (arith, fits)))
        (merged_pairs _ _ sm
          (merged-Sorted (length upd.container.items) smap.container.items upd.container.items so
            su)
          (λ key.
            values-merged key (length upd.container.items) smap.container.items upd.container.items
              (omega arith) so su)
          refl)

  created-Merged :
      (b : Bool)
      → created ≡ b
      → (length smap.container.items == 0) ≡ false
      → (length upd.container.items == 0) ≡ false
      → Merged (created && grown) smap upd (update_created grown grown' smap upd (grar_create b))
  unfolding update_created grar_create
  created-Merged false b e f = not_merged (rw b refl)
  created-Merged true b e f =
      elim (grar_reserve-grar_create {A = StringPair} grown
        (length smap.container.items + length upd.container.items) fits) [
          | inl (c, q, l) ↦ rw q (reserved-Merged c l e f)
          | inr (g, q) ↦ rw q (not_merged (rw (b, g) refl))
        ]

  update_sorted-Merged :
      Merged (created && grown) smap upd (update_sorted created grown grown' smap upd)
  unfolding update_sorted values
  update_sorted-Merged = elim (Bool-cases (length upd.container.items == 0)) [
    | inl e ↦ rw e (merged_pairs smap upd sm so (λ key. rw (no_items _ e) refl) (no_items _ e))
    | inr e ↦ elim (Bool-cases (length smap.container.items == 0)) [
      | inl f ↦
          rw (e, f)
            (merged_pairs _ _ sm su (λ key. rw (no_items _ f) (sym (prefer_nil _))) (no_items _ f))
      | inr f ↦ rw (e, f) (created-Merged created refl f e)
    ]
  ]

-- What smap_update may leave behind: a sorted map in which a key has the values that the update has for
-- it, or those of the map if the update has none, and an empty update; or, if an allocation fails, both
-- maps with their pairs, sorted.
pub data Updated (allocated : Bool) (smap upd : StringMap)
    : Option (Bool × StringMap × StringMap) → Type 0 where
  updated :
      (smap' upd' : StringMap)
      → smap'.sorted ≡ true
      → Sorted smap'.container.items
      → ((key : List ℕ)
          → Permᴰ
              (values key smap'.container.items)
              (prefer (values key upd.container.items) (values key smap.container.items)))
      → upd'.container.items ≡ []
      → Updated allocated smap upd (some (true, smap', upd'))
  refused :
      (smap' upd' : StringMap)
      → allocated ≡ false
      → Rearranged smap smap'
      → Rearranged upd upd'
      → Updated allocated smap upd (some (false, smap', upd'))

module _ (qsort : List StringPair → List StringPair) (sorts : Sorts qsort) where
  Merged-Updated :
      (allocated : Bool) (smap upd s u : StringMap) (r : Option (Bool × StringMap × StringMap))
      → Rearranged smap s
      → Rearranged upd u
      → Merged allocated s u r
      → Updated allocated smap upd r
  Merged-Updated allocated smap upd s u r p q (merged_pairs s' u' e so f g) =
      updated s' u' e so
        (λ key.
          subst
            (λ z.
              Permᴰ z (prefer (values key upd.container.items) (values key smap.container.items)))
            (sym (f key))
            (prefer-Perm (values-Perm key q.same_pairs) (values-Perm key p.same_pairs)))
        g
  Merged-Updated allocated smap upd s u r p q (not_merged e) = refused s u e p q

  -- If qsort sorts by the keys and keeps the elements, a map that says it is sorted is so, and the two
  -- maps have at most 2^60 elements, smap_update ends, and either it fails, only if an allocation of
  -- the temporary array does, and both maps have the pairs that they had and are sorted, or it leaves
  -- a sorted map, in which a key has the values that the update has for it, or those that the map had
  -- if the update has none, and an empty update.
  pub smap_update-Updated :
      (created grown grown' : Bool) (smap upd : StringMap)
      → (smap.sorted ≡ true → Sorted smap.container.items)
      → (upd.sorted ≡ true → Sorted upd.container.items)
      → length smap.container.items + length upd.container.items ≤ 2 ^ 60
      → Updated (created && grown) smap upd (smap_update qsort created grown grown' smap upd)
  unfolding smap_update
  smap_update-Updated created grown grown' smap upd hs hu fits =
      let p = sort_unless_sorted-Rearranged qsort sorts smap hs in
      let q = sort_unless_sorted-Rearranged qsort sorts upd hu in
      Merged-Updated (created && grown) smap upd _ _ _ p q (
        update_sorted-Merged created grown grown' _ _ p.says_so p.items_sorted q.items_sorted
          (omega (arith, fits, length-Perm p.same_pairs, length-Perm q.same_pairs)))
