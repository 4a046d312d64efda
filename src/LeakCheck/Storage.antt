-- ===== src/LeakCheck/Storage.antt =====
-- mbi_ops.c and mbi_ops.h: the storage and its operations.
use kedr_aux.Prelude.{ℕ, ◌+◌, ◌-◌, ◌%◌, ◌^◌, Bool, true, false, List, [], ◌∷◌, ◌==◌, if◌then◌else◌}

-- struct klc_memblock_info, without its stack trace
pub record MemblockInfo : Type 0 where
  pub block : ℕ
  pub size : ℕ

-- what klc_flush_allocs, klc_flush_deallocs and klc_flush_stats print
pub data Printed : Type 0 where
  alloc_info dealloc_info : MemblockInfo → Printed
  totals : ℕ → ℕ → ℕ → Printed

-- the global data of mbi_ops.c
pub record Storage : Type 0 where
  pub alloc_list : List MemblockInfo
  pub bad_free_list : List MemblockInfo
  pub total_allocs : ℕ
  pub total_leaks : ℕ
  pub total_bad_frees : ℕ

abbrev pub empty_storage : Storage
empty_storage = record {
  alloc_list = [];
  bad_free_list = [];
  total_allocs = 0;
  total_leaks = 0;
  total_bad_frees = 0;
}

-- `++` and `--` on a u64
abbrev pub incremented : ℕ → ℕ
incremented n = (n + 1) % 2 ^ 64

abbrev pub decremented : ℕ → ℕ
decremented n = (n + 2 ^ 64 - 1) % 2 ^ 64

unfoldable pub klc_add_alloc_impl : MemblockInfo → Storage → Storage
klc_add_alloc_impl m s = record s {
  alloc_list = m ∷ s.alloc_list;
  total_allocs = incremented s.total_allocs;
  total_leaks = incremented s.total_leaks;
}

unfoldable pub klc_add_bad_free_impl : MemblockInfo → Storage → Storage
klc_add_bad_free_impl m s = record s {
  bad_free_list = m ∷ s.bad_free_list;
  total_bad_frees = incremented s.total_bad_frees;
}

-- The macros: `created` is whether the klc_memblock_info can be made. The size of a bad free is
-- (size_t)(-1).
unfoldable pub klc_add_alloc : Bool → ℕ → ℕ → Storage → Storage
unfolding klc_add_alloc_impl
klc_add_alloc created block size s =
    if created then klc_add_alloc_impl (record { block = block; size = size }) s else s

unfoldable pub klc_add_bad_free : Bool → ℕ → Storage → Storage
unfolding klc_add_bad_free_impl
klc_add_bad_free created block s =
    if created then klc_add_bad_free_impl (record { block = block; size = 2 ^ 64 - 1 }) s else s

-- the loop of klc_find_and_remove_alloc: `ret`, the list and the count of leaks
unfoldable pub remove_from : ℕ → List MemblockInfo → Bool → ℕ → Bool × List MemblockInfo × ℕ
remove_from block [] ret leaks = (ret, [], leaks)
remove_from block (m ∷ ms) ret leaks =
    let found = m.block == block in
    let rest =
      remove_from block ms (if found then true else ret)
        (if found then decremented leaks else leaks) in
    (rest.0, (if found then rest.1 else m ∷ rest.1), rest.2)

unfoldable pub klc_find_and_remove_alloc : ℕ → Storage → Bool × Storage
klc_find_and_remove_alloc block s =
    let removed = remove_from block s.alloc_list false s.total_leaks in
    (removed.0, record s { alloc_list = removed.1; total_leaks = removed.2 })

-- the loops over a whole list, with what is printed
unfoldable pub flush_list : (MemblockInfo → Printed) → List MemblockInfo → List Printed
flush_list print [] = []
flush_list print (m ∷ ms) = print m ∷ flush_list print ms

unfoldable pub klc_flush_allocs : Storage → List Printed × Storage
klc_flush_allocs s = (flush_list Printed.alloc_info s.alloc_list, record s { alloc_list = [] })

unfoldable pub klc_flush_deallocs : Storage → List Printed × Storage
klc_flush_deallocs s =
    (flush_list Printed.dealloc_info s.bad_free_list, record s { bad_free_list = [] })

unfoldable pub klc_flush_stats : Storage → List Printed × Storage
klc_flush_stats s = (
  Printed.totals s.total_allocs s.total_leaks s.total_bad_frees ∷ [],
  record s { total_allocs = 0; total_leaks = 0; total_bad_frees = 0 },
)
