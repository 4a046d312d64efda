-- ===== src/Replacer.antt =====
-- operation_replacer.c: the replacement of the operations of an object, and its data in the data_map.
-- A structure of operations is the list of its pointers, NULL as 0. `none` is a BUG_ON or an access
-- outside of a structure.
use kedr_aux.Prelude.{
  ℕ, ◌-◌, ◌^◌, Bool, true, false, Option, none, some, List, [], ◌∷◌, ◌==◌, leb, if◌then◌else◌,
}
use kedr_aux.DataMap.Table.{
  DataMap, Status, success, enomem, einval, ◌>>=◌, data_map_add, data_map_get, data_map_delete,
}
pub mod Restored
mod Tests

-- enum operation_replacer_type
pub data ReplacerType : Type 0 where
  replace_pointer at_place : ReplacerType

-- The objects: `pointer` is what an object points to, `ops` the structure at an address. An object of
-- the type at_place is the structure itself.
pub record Objects : Type 0 where
  pub pointer : ℕ → ℕ
  pub ops : ℕ → List ℕ

-- ops_orig of struct operation_data_replace_pointer, whose `ops` is at the address of the data, and of
-- struct operation_data_at_place, whose `ops` is the object
pub data Data : Type 0 where
  orig_pointer : ℕ → Data
  orig_ops : List ℕ → Data

-- ops_repl_total and ops_mask_total of struct operation_replacer_data
pub record ReplacerData : Type 0 where
  pub ops_repl_total : List ℕ
  pub ops_mask_total : List ℕ

-- struct operation_replacer, with the data by their addresses
pub record Replacer : Type 0 where
  pub type : ReplacerType
  pub n_uses : ℕ
  pub data_of : Option ReplacerData
  pub data_map : DataMap
  pub heap : ℕ → Data
  pub objects : Objects

abbrev pub set {ℓ} : {A : Type ℓ} → ℕ → A → (ℕ → A) → ℕ → A
set k v f x = if x == k then v else f x

-- the loops FOR_EACH_OPERATION_IN_MASK
unfoldable pub replace_masked : List ℕ → List ℕ → List ℕ → Option (List ℕ)
replace_masked [] repl ops = some ops
replace_masked (m ∷ mask) [] ops = none
replace_masked (m ∷ mask) (r ∷ repl) [] = none
replace_masked (m ∷ mask) (r ∷ repl) (o ∷ ops) = do
  rest ← replace_masked mask repl ops
  some ((if m == 0 then o else r) ∷ rest)

unfoldable pub restore_masked : List ℕ → List ℕ → List ℕ → List ℕ → Option (List ℕ)
restore_masked [] repl orig ops = some ops
restore_masked (m ∷ mask) [] orig ops = none
restore_masked (m ∷ mask) (r ∷ repl) [] ops = none
restore_masked (m ∷ mask) (r ∷ repl) (g ∷ orig) [] = none
restore_masked (m ∷ mask) (r ∷ repl) (g ∷ orig) (o ∷ ops) = do
  rest ← restore_masked mask repl orig ops
  some ((if m == 0 then o else if o == r then g else o) ∷ rest)

-- operation_replace_replace_pointer and operation_replace_at_place
unfoldable pub fill : ReplacerType → ℕ → ℕ → ReplacerData → Objects → Option (Data × Objects)
unfolding replace_masked
fill replace_pointer ptr key t s = do
  new ← replace_masked t.ops_mask_total t.ops_repl_total (s.ops (s.pointer key))
  some (
    orig_pointer (s.pointer key),
    record { pointer = set key ptr s.pointer; ops = set ptr new s.ops },
  )
fill at_place ptr key t s = do
  new ← replace_masked t.ops_mask_total t.ops_repl_total (s.ops key)
  some (orig_ops (s.ops key), record s { ops = set key new s.ops })

-- operation_restore_replace_pointer and operation_restore_at_place
unfoldable pub restore : ℕ → ℕ → ReplacerData → Data → Objects → Option Objects
unfolding restore_masked
restore ptr key t (orig_pointer p) s =
    if s.pointer key == ptr then some (record s { pointer = set key p s.pointer }) else some s
restore ptr key t (orig_ops orig) s = do
  new ← restore_masked t.ops_mask_total t.ops_repl_total orig (s.ops key)
  some (record s { ops = set key new s.ops })

-- operation_replacement_update_replace_pointer and operation_replacement_update_at_place
unfoldable pub update : ℕ → ℕ → ReplacerData → Data → Objects → Option (Data × Objects)
unfolding fill restore
update ptr key t (orig_pointer p) s =
    if s.pointer key == ptr
    then some (orig_pointer p, s)
    else if s.pointer key == p
    then some (orig_pointer p, record s { pointer = set key ptr s.pointer })
    else fill replace_pointer ptr key t s
update ptr key t (orig_ops orig) s = do
  s' ← restore ptr key t (orig_ops orig) s
  fill at_place ptr key t s'

abbrev pub is_err : ℕ → Bool
is_err p = leb (2 ^ 64 - 4095) p

-- 0 or an error, or 1 if there is no such key
pub data Code : Type 0 where
  returned : Status → Code
  no_key : Code

module _ (hash_ptr : ℕ → ℕ → ℕ) where
  -- operation_replace behind data_map_add
  abbrev pub added :
      ℕ → ℕ → ReplacerData → Replacer → Data × Objects → Status × DataMap → Option (Code × Replacer)
  added ptr key t r (d, s) (success, m) =
      some (returned success, record r { data_map = m; heap = set ptr d r.heap; objects = s })
  added ptr key t r (d, s) (enomem, m) = do
    s' ← restore ptr key t d s
    some (returned enomem, record r { data_map = m; objects = s' })
  added ptr key t r (d, s) (einval, m) = do
    s' ← restore ptr key t d s
    some (returned einval, record r { data_map = m; objects = s' })

  abbrev pub replace_with :
      Bool → ℕ → Replacer → Option ReplacerData → Option ℕ → Option (Code × Replacer)
  replace_with allocated key r none ptr = some (returned enomem, r)
  replace_with allocated key r (some t) none = some (returned enomem, r)
  replace_with allocated key r (some t) (some ptr) = do
    filled ← fill r.type ptr key t r.objects
    stored ← data_map_add hash_ptr allocated key ptr r.data_map
    added ptr key t r filled stored

  -- the two allocations: that of the data, and that of data_map_add
  unfoldable pub operation_replace : Option ℕ → Bool → ℕ → Replacer → Option (Code × Replacer)
  unfolding fill restore
  operation_replace ptr allocated key r =
      if r.n_uses == 0 then none else replace_with allocated key r r.data_of ptr

  abbrev pub restore_found : ℕ → Replacer → ReplacerData → ℕ → Option (Code × Replacer)
  restore_found key r t ptr = if is_err ptr then some (no_key, r) else if ptr == 0 then none else do
    s ← restore ptr key t (r.heap ptr) r.objects
    deleted ← data_map_delete hash_ptr key r.data_map
    some (returned success, record r { data_map = deleted.1; objects = s })

  abbrev pub restore_with : ℕ → Replacer → Option ReplacerData → Option (Code × Replacer)
  restore_with key r none = some (returned success, r)
  restore_with key r (some t) = do
    ptr ← data_map_get hash_ptr key r.data_map
    restore_found key r t ptr

  unfoldable pub operation_restore : ℕ → Replacer → Option (Code × Replacer)
  unfolding restore
  operation_restore key r = if r.n_uses == 0 then none else restore_with key r r.data_of

  abbrev pub clean_found : ℕ → Replacer → ℕ → Option (Code × Replacer)
  clean_found key r ptr = if is_err ptr then some (no_key, r) else if ptr == 0 then none else do
    deleted ← data_map_delete hash_ptr key r.data_map
    some (returned success, record r { data_map = deleted.1 })

  abbrev pub clean_with : ℕ → Replacer → Option ReplacerData → Option (Code × Replacer)
  clean_with key r none = some (returned success, r)
  clean_with key r (some t) = do ptr ← data_map_get hash_ptr key r.data_map; clean_found key r ptr

  unfoldable pub operation_replacement_clean : ℕ → Replacer → Option (Code × Replacer)
  operation_replacement_clean key r = if r.n_uses == 0 then none else clean_with key r r.data_of

  abbrev pub update_found :
      Option ℕ → Bool → ℕ → Replacer → ReplacerData → ℕ → Option (Code × Replacer)
  update_found new_ptr allocated key r t ptr =
      if is_err ptr
      then operation_replace new_ptr allocated key r
      else if ptr == 0
      then none
      else do
        updated ← update ptr key t (r.heap ptr) r.objects
        some (returned success, record r { heap = set ptr updated.0 r.heap; objects = updated.1 })

  abbrev pub update_with :
      Option ℕ → Bool → ℕ → Replacer → Option ReplacerData → Option (Code × Replacer)
  update_with new_ptr allocated key r none = some (returned enomem, r)
  update_with new_ptr allocated key r (some t) = do
    ptr ← data_map_get hash_ptr key r.data_map
    update_found new_ptr allocated key r t ptr

  unfoldable pub operation_replacement_update :
      Option ℕ → Bool → ℕ → Replacer → Option (Code × Replacer)
  unfolding operation_replace update
  operation_replacement_update new_ptr allocated key r =
      if r.n_uses == 0 then none else update_with new_ptr allocated key r r.data_of
