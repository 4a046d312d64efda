-- ===== src/LeakCheck/Replace.antt =====
-- payload.c: the replacement functions, as what they do to the storage. `ret_val` is what the
-- target function returns, and `created` tells how each creation of a klc_memblock_info ends.
use kedr_aux.Prelude.{ℕ, ◌*◌, ◌%◌, ◌^◌, Bool, not, ◌&&◌, ◌||◌, List, ◌++◌, ◌==◌, if◌then◌else◌}
use kedr_aux.LeakCheck.Storage.{
  Storage, Printed, klc_add_alloc, klc_add_bad_free, klc_find_and_remove_alloc, klc_flush_allocs,
  klc_flush_deallocs, klc_flush_stats,
}

-- `if (!klc_find_and_remove_alloc(p)) klc_add_bad_free(p, stack_depth);`
unfoldable pub record_free : Bool → ℕ → Storage → Storage
record_free created p s =
    let (found, s') = klc_find_and_remove_alloc p s in
    if found then s' else klc_add_bad_free created p s'

-- the functions that test `ret_val != NULL`: kmem_cache_alloc, the pages, kmemdup, vmalloc
unfoldable pub record_alloc : Bool → ℕ → ℕ → Storage → Storage
record_alloc created size ret_val s =
    if ret_val == 0 then s else klc_add_alloc created ret_val size s

-- the functions that allocate 2^order pages
unfoldable pub repl___get_free_pages : Bool → ℕ → ℕ → ℕ → Storage → Storage
repl___get_free_pages created page_size order ret_val s =
    record_alloc created (page_size * 2 ^ order % 2 ^ 64) ret_val s

-- `address` is the page_address of the page
unfoldable pub repl___free_pages : Bool → ℕ → ℕ → Storage → Storage
repl___free_pages created page address s = if page == 0 then s else record_free created address s

unfoldable pub repl___alloc_pages_nodemask : Bool → ℕ → ℕ → ℕ → ℕ → Storage → Storage
repl___alloc_pages_nodemask created page_size order page address s =
    if page == 0 then s else klc_add_alloc created address (page_size * 2 ^ order % 2 ^ 64) s

unfoldable pub repl___krealloc : Bool → ℕ → ℕ → ℕ → Storage → Storage
repl___krealloc created p size ret_val s =
    if size == 0
    then s
    else if p == 0
    then (if ret_val == 0 then s else klc_add_alloc created ret_val size s)
    else if not (ret_val == 0) && not (ret_val == p)
    then klc_add_alloc created ret_val size s
    else s

-- IS_ERR is a parameter
unfoldable pub repl_memdup_user : (ℕ → Bool) → Bool → ℕ → ℕ → Storage → Storage
repl_memdup_user is_err created len ret_val s =
    if is_err ret_val then s else klc_add_alloc created ret_val len s

-- ZERO_OR_NULL_PTR is a parameter.
module _ (zero_or_null : ℕ → Bool) where
  -- __kmalloc and alloc_pages_exact
  unfoldable pub repl___kmalloc : Bool → ℕ → ℕ → Storage → Storage
  repl___kmalloc created size ret_val s =
      if zero_or_null ret_val then s else klc_add_alloc created ret_val size s

  -- kfree, kzfree, kmem_cache_free, free_pages, free_pages_exact and vfree
  unfoldable pub repl_kfree : Bool → ℕ → Storage → Storage
  repl_kfree created p s = if zero_or_null p then s else record_free created p s

  -- the part of repl_krealloc before the call of krealloc, and the part behind it
  unfoldable pub before_krealloc : Bool → ℕ → ℕ → Storage → Storage
  before_krealloc created p size s =
      if (size == 0) || not (zero_or_null p)
      then (if zero_or_null p then s else record_free created p s)
      else s

  unfoldable pub after_krealloc : Bool → ℕ → ℕ → ℕ → Storage → Storage
  after_krealloc created p size ret_val s =
      if size == 0
      then s
      else if p == 0
      then (if ret_val == 0 then s else klc_add_alloc created ret_val size s)
      else klc_add_alloc created (if ret_val == 0 then p else ret_val) size s

  unfoldable pub repl_krealloc : Bool → Bool → ℕ → ℕ → ℕ → Storage → Storage
  repl_krealloc created created' p size ret_val s =
      after_krealloc created' p size ret_val (before_krealloc created p size s)

-- target_unload_callback, with what it prints
unfoldable pub target_unload_callback : Storage → List Printed × Storage
target_unload_callback s =
    let (allocs, s1) = klc_flush_allocs s in
    let (deallocs, s2) = klc_flush_deallocs s1 in
    let (stats, s3) = klc_flush_stats s2 in (allocs ++ deallocs ++ stats, s3)
