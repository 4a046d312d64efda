-- ===== src/LeakCheck/Count.antt =====
-- The counters follow the lists, whatever the target calls.
use kedr_aux.Prelude.{
  ℕ, ◌*◌, ◌%◌, ◌^◌, Bool, true, false, not, ◌&&◌, ◌||◌, ◌==◌, ◌≡◌, refl, arith, length,
  if◌then◌else◌,
}
use kedr_aux.LeakCheck.Storage.{
  Storage, empty_storage, klc_add_alloc_impl, klc_add_alloc, klc_add_bad_free_impl,
  klc_add_bad_free, klc_find_and_remove_alloc, klc_flush_allocs, klc_flush_deallocs,
  klc_flush_stats,
}
use kedr_aux.LeakCheck.Replace.{
  record_free, record_alloc, repl___get_free_pages, repl___free_pages, repl___alloc_pages_nodemask,
  repl___krealloc, repl_memdup_user, repl___kmalloc, repl_kfree, before_krealloc, after_krealloc,
  repl_krealloc, target_unload_callback,
}
use kedr_aux.LeakCheck.Remove.{klc_find_and_remove_alloc-others}

-- total_leaks and total_bad_frees are the lengths of the lists, modulo 2^64.
pub record Counted (s : Storage) : Type 0 where
  pub leaks : s.total_leaks ≡ length s.alloc_list % 2 ^ 64
  pub bad_frees : s.total_bad_frees ≡ length s.bad_free_list % 2 ^ 64

if-Counted : (b : Bool) (s t : Storage) → Counted s → Counted t → Counted (if b then s else t)
if-Counted true s t h k = h
if-Counted false s t h k = k

pub klc_add_alloc-Counted :
    (created : Bool) (block size : ℕ) (s : Storage)
    → Counted s
    → Counted (klc_add_alloc created block size s)
unfolding klc_add_alloc klc_add_alloc_impl
klc_add_alloc-Counted true block size s h = record {
  leaks = omega (arith, h.leaks);
  bad_frees = h.bad_frees;
}
klc_add_alloc-Counted false block size s h = h

klc_add_bad_free-Counted :
    (created : Bool) (block : ℕ) (s : Storage)
    → Counted s
    → Counted (klc_add_bad_free created block s)
unfolding klc_add_bad_free klc_add_bad_free_impl
klc_add_bad_free-Counted true block s h = record {
  leaks = h.leaks;
  bad_frees = omega (arith, h.bad_frees);
}
klc_add_bad_free-Counted false block s h = h

removed-Counted :
    (block : ℕ) (s : Storage) → Counted s → Counted (klc_find_and_remove_alloc block s).1
removed-Counted block s h =
    rw (klc_find_and_remove_alloc-others block s h.leaks)
      (record { leaks = refl; bad_frees = h.bad_frees })

record_free-Counted :
    (created : Bool) (p : ℕ) (s : Storage) → Counted s → Counted (record_free created p s)
unfolding record_free
record_free-Counted created p s h =
    let s' : Storage = (klc_find_and_remove_alloc p s).1 in
    if-Counted (klc_find_and_remove_alloc p s).0 s' (klc_add_bad_free created p s')
      (removed-Counted p s h) (klc_add_bad_free-Counted created p s' (removed-Counted p s h))

record_alloc-Counted :
    (created : Bool) (size ret_val : ℕ) (s : Storage)
    → Counted s
    → Counted (record_alloc created size ret_val s)
unfolding record_alloc
record_alloc-Counted created size ret_val s h =
    if-Counted (ret_val == 0) s (klc_add_alloc created ret_val size s) h
      (klc_add_alloc-Counted created ret_val size s h)

module _ (zero_or_null is_err : ℕ → Bool) where
  -- the calls of the target that payload.c replaces, with what the kernel's functions return
  pub data Event : Storage → Storage → Type 0 where
    kmalloc :
        (created : Bool) (size ret_val : ℕ) (s : Storage)
        → Event s (repl___kmalloc zero_or_null created size ret_val s)
    kfree : (created : Bool) (p : ℕ) (s : Storage) → Event s (repl_kfree zero_or_null created p s)
    krealloc :
        (created created' : Bool) (p size ret_val : ℕ) (s : Storage)
        → Event s (repl_krealloc zero_or_null created created' p size ret_val s)
    krealloc_no_free :
        (created : Bool) (p size ret_val : ℕ) (s : Storage)
        → Event s (repl___krealloc created p size ret_val s)
    alloc :
        (created : Bool) (size ret_val : ℕ) (s : Storage)
        → Event s (record_alloc created size ret_val s)
    get_pages :
        (created : Bool) (page_size order ret_val : ℕ) (s : Storage)
        → Event s (repl___get_free_pages created page_size order ret_val s)
    alloc_pages :
        (created : Bool) (page_size order page address : ℕ) (s : Storage)
        → Event s (repl___alloc_pages_nodemask created page_size order page address s)
    free_pages :
        (created : Bool) (page address : ℕ) (s : Storage)
        → Event s (repl___free_pages created page address s)
    memdup_user :
        (created : Bool) (len ret_val : ℕ) (s : Storage)
        → Event s (repl_memdup_user is_err created len ret_val s)
    target_unload : (s : Storage) → Event s (target_unload_callback s).1

  pub data Reach (s : Storage) : Storage → Type 0 where
    here : Reach s s
    next : {t u : Storage} → Reach s t → Event t u → Reach s u

  kfree-Counted :
      (created : Bool) (p : ℕ) (s : Storage)
      → Counted s
      → Counted (repl_kfree zero_or_null created p s)
  unfolding repl_kfree
  kfree-Counted created p s h =
      if-Counted (zero_or_null p) s (record_free created p s) h (record_free-Counted created p s h)

  before_krealloc-Counted :
      (created : Bool) (p size : ℕ) (s : Storage)
      → Counted s
      → Counted (before_krealloc zero_or_null created p size s)
  unfolding before_krealloc
  before_krealloc-Counted created p size s h =
      if-Counted ((size == 0) || not (zero_or_null p)) _ s
        (if-Counted (zero_or_null p) s (record_free created p s) h
          (record_free-Counted created p s h))
        h

  after_krealloc-Counted :
      (created : Bool) (p size ret_val : ℕ) (s : Storage)
      → Counted s
      → Counted (after_krealloc zero_or_null created p size ret_val s)
  unfolding after_krealloc
  after_krealloc-Counted created p size ret_val s h = if-Counted (size == 0) s _ h (
      if-Counted (p == 0) _ _
        (if-Counted (ret_val == 0) s _ h (klc_add_alloc-Counted created ret_val size s h))
        (klc_add_alloc-Counted created (if ret_val == 0 then p else ret_val) size s h))

  krealloc_no_free-Counted :
      (created : Bool) (p size ret_val : ℕ) (s : Storage)
      → Counted s
      → Counted (repl___krealloc created p size ret_val s)
  unfolding repl___krealloc
  krealloc_no_free-Counted created p size ret_val s h = if-Counted (size == 0) s _ h (
      if-Counted (p == 0) _ _
        (if-Counted (ret_val == 0) s _ h (klc_add_alloc-Counted created ret_val size s h))
        (if-Counted (not (ret_val == 0) && not (ret_val == p)) _ s
          (klc_add_alloc-Counted created ret_val size s h) h))

  Event-Counted : {s t : Storage} → Event s t → Counted s → Counted t
  unfolding repl___kmalloc repl_krealloc repl___get_free_pages repl___alloc_pages_nodemask
      repl___free_pages repl_memdup_user target_unload_callback klc_flush_allocs klc_flush_deallocs
      klc_flush_stats
  Event-Counted (kmalloc created size ret_val s) h =
      if-Counted (zero_or_null ret_val) s _ h (klc_add_alloc-Counted created ret_val size s h)
  Event-Counted (kfree created p s) h = kfree-Counted created p s h
  Event-Counted (krealloc created created' p size ret_val s) h =
      after_krealloc-Counted created' p size ret_val _ (before_krealloc-Counted created p size s h)
  Event-Counted (krealloc_no_free created p size ret_val s) h =
      krealloc_no_free-Counted created p size ret_val s h
  Event-Counted (alloc created size ret_val s) h = record_alloc-Counted created size ret_val s h
  Event-Counted (get_pages created page_size order ret_val s) h =
      record_alloc-Counted created (page_size * 2 ^ order % 2 ^ 64) ret_val s h
  Event-Counted (alloc_pages created page_size order page address s) h =
      if-Counted (page == 0) s _ h
        (klc_add_alloc-Counted created address (page_size * 2 ^ order % 2 ^ 64) s h)
  Event-Counted (free_pages created page address s) h =
      if-Counted (page == 0) s _ h (record_free-Counted created address s h)
  Event-Counted (memdup_user created len ret_val s) h =
      if-Counted (is_err ret_val) s _ h (klc_add_alloc-Counted created ret_val len s h)
  Event-Counted (target_unload s) h = record { leaks = refl; bad_frees = refl }

  -- From an empty storage, whatever the target calls, whatever the kernel's functions return and
  -- whichever records cannot be made, total_leaks is the number of allocations stored and
  -- total_bad_frees that of the bad frees stored, modulo 2^64.
  pub Reach-Counted : {s : Storage} → Reach empty_storage s → Counted s
  Reach-Counted here = record { leaks = refl; bad_frees = refl }
  Reach-Counted (next r e) = Event-Counted e (Reach-Counted r)
