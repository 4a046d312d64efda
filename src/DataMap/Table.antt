-- ===== src/DataMap/Table.antt =====
-- The hash table and its operations. hash_ptr and the results of kmalloc are arguments; `none` is
-- an access outside of the table.
use kedr_aux.Prelude.{
  ℕ, zero, suc, ◌+◌, ◌-◌, ◌*◌, ◌/◌, ◌%◌, ◌^◌, Bool, true, false, ◌||◌, Option, none, some, List, [],
  ◌∷◌, ◌++◌, ◌==◌, get_elem?, if◌then◌else◌,
}

-- struct data_map_element, without its links
pub record Elem : Type 0 where
  pub key : ℕ
  pub data_ptr : ℕ

-- struct data_map, without its lock: a chain is the list of its elements
pub record DataMap : Type 0 where
  pub hash_table : List (List Elem)
  pub size_bits : ℕ

pub data Status : Type 0 where
  success enomem einval : Status

infixl 5 ◌>>=◌
abbrev pub ◌>>=◌ {ℓ} : {A B : Type ℓ} → Option A → (A → Option B) → Option B
none >>= f = none
some a >>= f = f a

-- ERR_PTR(-EINVAL)
abbrev pub err_ptr_einval : ℕ
err_ptr_einval = 2 ^ 64 - 22

-- `hash_size` when the loop of data_map_create starts: size_t wraps around
unfoldable pub hash_size : ℕ → ℕ
hash_size elem_number = (elem_number * 10 % 2 ^ 64 + 2 ^ 64 - 1) % 2 ^ 64 / 7

-- that loop: how often `hash_size` is shifted until it is 0; a size_t is 0 behind 64 shifts
unfoldable pub shifts : ℕ → ℕ → ℕ
shifts zero n = 0
shifts (suc f) n = let rest = shifts f (n / 2) in if n == 0 then 0 else rest + 1

-- the loop over INIT_HLIST_HEAD
unfoldable pub empty_chains : ℕ → List (List Elem)
empty_chains zero = []
empty_chains (suc n) = [] ∷ empty_chains n

unfoldable pub data_map_create : Bool → Bool → ℕ → Option DataMap
data_map_create allocated allocated' elem_number =
    let bits = shifts 64 (hash_size elem_number) in
    let size_bits = if bits == 0 then 1 else bits in
    if allocated
    then (if allocated'
        then some (record { hash_table = empty_chains (2 ^ size_bits); size_bits = size_bits })
        else none)
    else none

-- a chain of the table replaced
unfoldable pub set_chain : List (List Elem) → ℕ → List Elem → List (List Elem)
set_chain [] i b = []
set_chain (c ∷ cs) zero b = b ∷ cs
set_chain (c ∷ cs) (suc i) b = c ∷ set_chain cs i b

-- the data of the first element of a chain with the key
unfoldable pub find : ℕ → List Elem → Option ℕ
find k [] = none
find k (e ∷ es) = let rest = find k es in if e.key == k then some e.data_ptr else rest

-- the result of a search: `result` is ERR_PTR(-EINVAL) at first
abbrev pub or_err : Option ℕ → ℕ
or_err none = err_ptr_einval
or_err (some d) = d

-- hlist_del of the first element with the key
unfoldable pub hlist_del : ℕ → List Elem → List Elem
hlist_del k [] = []
hlist_del k (e ∷ es) = let rest = hlist_del k es in if e.key == k then es else e ∷ rest

module _ (hash_ptr : ℕ → ℕ → ℕ) where
  -- the part of data_map_add behind the search of the chain
  unfoldable pub insert : ℕ → ℕ → DataMap → List Elem → Option ℕ → Status × DataMap
  insert k d m chain (some x) = (einval, m)
  insert k d m chain none = (
    success,
    record m {
      hash_table =
          set_chain m.hash_table (hash_ptr k m.size_bits)
            (record { key = k; data_ptr = d } ∷ chain);
    },
  )

  unfoldable pub data_map_add : Bool → ℕ → ℕ → DataMap → Option (Status × DataMap)
  data_map_add allocated k d m =
      if allocated
      then (do
        chain ← get_elem? m.hash_table (hash_ptr k m.size_bits)
        some (insert k d m chain (find k chain)))
      else some (enomem, m)

  unfoldable pub data_map_get : ℕ → DataMap → Option ℕ
  data_map_get k m = do
    chain ← get_elem? m.hash_table (hash_ptr k m.size_bits)
    some (or_err (find k chain))

  -- the part of data_map_delete behind the search of the chain
  unfoldable pub unlink : ℕ → DataMap → List Elem → Option ℕ → ℕ × DataMap
  unlink k m chain none = (err_ptr_einval, m)
  unlink k m chain (some d) = (
    d,
    record m { hash_table = set_chain m.hash_table (hash_ptr k m.size_bits) (hlist_del k chain) },
  )

  unfoldable pub data_map_delete : ℕ → DataMap → Option (ℕ × DataMap)
  data_map_delete k m = do
    chain ← get_elem? m.hash_table (hash_ptr k m.size_bits)
    some (unlink k m chain (find k chain))

-- the while loop of data_map_delete_all on a chain: the calls of `free_data`, if it is not NULL
unfoldable pub free_chain : Bool → List Elem → List Elem
free_chain free_data [] = []
free_chain free_data (e ∷ es) =
    let rest = free_chain free_data es in if free_data then e ∷ rest else rest

-- the for loop, with the rounds left: the calls of `free_data` and the table
unfoldable pub delete_from : ℕ → Bool → ℕ → List (List Elem) → Option (List Elem × List (List Elem))
delete_from zero free_data i table = some ([], table)
delete_from (suc rounds) free_data i table = do
  chain ← get_elem? table i
  rest ← delete_from rounds free_data (i + 1) (set_chain table i [])
  some (free_chain free_data chain ++ rest.0, rest.1)

unfoldable pub data_map_delete_all : Bool → DataMap → Option (List Elem × DataMap)
data_map_delete_all free_data m = do
  done ← delete_from (2 ^ m.size_bits) free_data 0 m.hash_table
  some (done.0, record m { hash_table = done.1 })

abbrev pub is_nonempty : List Elem → Bool
is_nonempty [] = false
is_nonempty (e ∷ es) = true

-- The loops of data_map_destroy, with the rounds left and `was_elems`, which is the result. What is
-- freed behind them is gone.
unfoldable pub destroy_from : ℕ → ℕ → Bool → List (List Elem) → Option Bool
destroy_from zero i was_elems table = some was_elems
destroy_from (suc rounds) i was_elems table = do
  chain ← get_elem? table i
  destroy_from rounds (i + 1) (was_elems || is_nonempty chain) (set_chain table i [])

unfoldable pub data_map_destroy : DataMap → Option Bool
data_map_destroy m = destroy_from (2 ^ m.size_bits) 0 false m.hash_table
