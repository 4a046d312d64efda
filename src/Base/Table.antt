-- ===== src/Base/Table.antt =====
-- Payloads and the combined replacement table: free_repl_table and create_repl_table.
use kedr_aux.Prelude.{
  ℕ, zero, suc, ◌+◌, ◌%◌, ◌^◌, Bool, true, false, ◌&&◌, Option, none, some, List, [], ◌∷◌,
  get_elem?, if◌then◌else◌,
}

-- struct kedr_repl_table; a NULL array is `none`.
pub record ReplTable : Type 0 where
  pub orig_addrs : Option (List ℕ)
  pub repl_addrs : Option (List ℕ)
  pub num_addrs : ℕ

-- struct kedr_payload: its address, its module, its table, and which callbacks are not NULL
pub record Payload : Type 0 where
  pub address : ℕ
  pub owner : ℕ
  pub repl_table : ReplTable
  pub has_load_callback : Bool
  pub has_unload_callback : Bool

abbrev pub empty_table : ReplTable
empty_table = record { orig_addrs = none; repl_addrs = none; num_addrs = 0 }

unfoldable pub free_repl_table : ReplTable → ReplTable
free_repl_table t = empty_table

infixl 5 ◌>>=◌
abbrev pub ◌>>=◌ : {A B : Type 0} → Option A → (A → Option B) → Option B
none >>= f = none
some a >>= f = f a

-- a write to an array; `none` is a write out of bounds
unfoldable pub write : List ℕ → ℕ → ℕ → Option (List ℕ)
write [] i v = none
write (x ∷ xs) zero v = some (v ∷ xs)
write (x ∷ xs) (suc i) v = do rest ← write xs i v; some (x ∷ rest)

-- kzalloc of `n` pointers
unfoldable pub zeros : ℕ → List ℕ
zeros zero = []
zeros (suc n) = 0 ∷ zeros n

-- the arrays under construction, and the index `i` of create_repl_table
pub record Filling : Type 0 where
  pub orig : List ℕ
  pub repl : List ℕ
  pub next : ℕ

-- the loop over `k`, with the number of rounds left
unfoldable pub copy_entries : ℕ → ℕ → List ℕ → List ℕ → Filling → Option Filling
copy_entries zero k origs repls d = some d
copy_entries (suc rounds) k origs repls d = do
  o ← get_elem? origs k
  orig ← write d.orig d.next o
  r ← get_elem? repls k
  repl ← write d.repl d.next r
  copy_entries rounds (k + 1) origs repls (record { orig = orig; repl = repl; next = d.next + 1 })

-- the second loop over payload_modules; a NULL array is a BUG
unfoldable pub copy_tables : List Payload → Filling → Option Filling
copy_tables [] d = some d
copy_tables (p ∷ ps) d = do
  origs ← p.repl_table.orig_addrs
  repls ← p.repl_table.repl_addrs
  filled ← copy_entries p.repl_table.num_addrs 0 origs repls d
  copy_tables ps filled

-- the first loop: `num_addrs` is an unsigned int
unfoldable pub total_addrs : ℕ → List Payload → ℕ
total_addrs n [] = n
total_addrs n (p ∷ ps) = total_addrs ((n + p.repl_table.num_addrs) % 2 ^ 32) ps

-- create_repl_table: whether it succeeds, and the table. `allocated` says how each kzalloc ends;
-- `none` is a BUG or an access out of bounds.
unfoldable pub create_repl_table : Bool → Bool → List Payload → Option (Bool × ReplTable)
unfolding free_repl_table
create_repl_table allocated allocated' ps =
    let num = total_addrs 0 ps in
    if allocated && allocated'
    then (do
      filled ← copy_tables ps (record { orig = zeros num; repl = zeros num; next = 0 })
      some (
          (
            true,
            record {
              orig_addrs = some filled.orig;
              repl_addrs = some filled.repl;
              num_addrs = num;
            },
          )))
    else some
        (false, free_repl_table (record { orig_addrs = none; repl_addrs = none; num_addrs = num }))
