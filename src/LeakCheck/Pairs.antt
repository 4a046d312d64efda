-- ===== src/LeakCheck/Pairs.antt =====
-- What calls of the target do to the storage one after another.
use kedr_aux.Prelude.{
  ℕ, ◌%◌, ◌^◌, Bool, true, false, not, ◌&&◌, ◌||◌, List, [], ◌∷◌, ◌++◌, map, ◌==◌, ◌≡◌, refl, sym,
  ap, ◌∙◌, arith, length, if◌then◌else◌, Bool-cases, inl, inr, subst,
}
use kedr_aux.LeakCheck.Storage.{
  MemblockInfo, Storage, Printed, empty_storage, incremented, klc_add_alloc_impl, klc_add_alloc,
  klc_add_bad_free, flush_list, klc_flush_allocs, klc_flush_deallocs, klc_flush_stats,
}
use kedr_aux.LeakCheck.Replace.{
  record_free, repl___kmalloc, repl_kfree, before_krealloc, after_krealloc, repl_krealloc,
  target_unload_callback,
}
use kedr_aux.LeakCheck.Remove.{stored, others, others-absent, klc_find_and_remove_alloc-others}
use kedr_aux.LeakCheck.Count.{Counted, klc_add_alloc-Counted}

-- the storage without the allocations of a block
abbrev pub without : ℕ → Storage → Storage
without block s = record s {
  alloc_list = others block s.alloc_list;
  total_leaks = length (others block s.alloc_list) % 2 ^ 64;
}

record_free-stored :
    (created : Bool) (p : ℕ) (s : Storage)
    → Counted s
    → record_free created p s
      ≡ (if stored p s.alloc_list then without p s else klc_add_bad_free created p (without p s))
unfolding record_free
record_free-stored created p s h =
    ap (λ r. if r.0 then r.1 else klc_add_bad_free created p r.1)
      (klc_find_and_remove_alloc-others p s h.leaks)

without-absent : (p : ℕ) (s : Storage) → Counted s → stored p s.alloc_list ≡ false → without p s ≡ s
without-absent p s h a = λ i. record s {
  alloc_list = others-absent p s.alloc_list a i;
  total_leaks = (ap (λ l. length l % 2 ^ 64) (others-absent p s.alloc_list a) ∙ sym h.leaks) i;
}

stored-others_eq :
    (p b : ℕ) (ms : List MemblockInfo) → stored b (others p ms) ≡ (stored b ms && not (p == b))
stored-others_eq p b [] = refl
stored-others_eq p b (m ∷ ms) = ground (arith, stored-others_eq p b ms)

module _ (zero_or_null : ℕ → Bool) where
  -- If the counters follow the lists, kfree of a block that is neither null nor of size zero and of
  -- which no allocation is stored records a bad free, if the record can be made, and changes
  -- nothing else.
  pub repl_kfree-absent :
      (created : Bool) (p : ℕ) (s : Storage)
      → Counted s
      → zero_or_null p ≡ false
      → stored p s.alloc_list ≡ false
      → repl_kfree zero_or_null created p s ≡ klc_add_bad_free created p s
  unfolding repl_kfree
  repl_kfree-absent created p s h z a = rw z (
      record_free-stored created p s h
      ∙ (λ i. if a i then without p s else klc_add_bad_free created p (without-absent p s h a i)))

  others-cons :
      (p size : ℕ) (s : Storage)
      → stored p s.alloc_list ≡ false
      → others p (record { block = p; size = size } ∷ s.alloc_list) ≡ s.alloc_list
  others-cons p size s a = elim (Bool-cases (p == p)) [
    | inl e ↦ rw e (others-absent p s.alloc_list a)
    | inr e ↦ ground (arith, e)
  ]

  -- If the counters follow the lists, a kmalloc that is recorded and returns a block, neither null
  -- nor of size zero, that is not stored, and the kfree of that block, leave the storage as it was,
  -- but for the count of allocations.
  pub repl_kfree-repl___kmalloc :
      (created : Bool) (size p : ℕ) (s : Storage)
      → Counted s
      → zero_or_null p ≡ false
      → stored p s.alloc_list ≡ false
      → repl_kfree zero_or_null created p (repl___kmalloc zero_or_null true size p s)
        ≡ record s { total_allocs = incremented s.total_allocs }
  unfolding repl_kfree repl___kmalloc klc_add_alloc klc_add_alloc_impl
  repl_kfree-repl___kmalloc created size p s h z a =
      let t : Storage = klc_add_alloc true p size s in
      rw z (
        record_free-stored created p t (klc_add_alloc-Counted true p size s h)
        ∙ (λ i. if is_stored i then without p t else klc_add_bad_free created p (without p t))
        ∙ (λ i. record s {
          alloc_list = others-cons p size s a i;
          total_allocs = incremented s.total_allocs;
          total_leaks = (ap (λ l. length l % 2 ^ 64) (others-cons p size s a) ∙ sym h.leaks) i;
        }))
    where
      is_stored : ((p == p) || stored p s.alloc_list) ≡ true
      is_stored = ground arith

  before-free :
      (created : Bool) (p size : ℕ) (s : Storage)
      → Counted s
      → zero_or_null p ≡ false
      → stored p s.alloc_list ≡ true
      → before_krealloc zero_or_null created p size s ≡ without p s
  unfolding before_krealloc
  before-free created p size s h z a = elim (Bool-cases (size == 0)) [
    | inl e ↦
        rw (e, z)
          (record_free-stored created p s h
            ∙ (λ i. if a i then without p s else klc_add_bad_free created p (without p s)))
    | inr e ↦
        rw (e, z)
          (record_free-stored created p s h
            ∙ (λ i. if a i then without p s else klc_add_bad_free created p (without p s)))
  ]

  after-alloc :
      (p size ret_val : ℕ) (s : Storage)
      → (size == 0) ≡ false
      → (p == 0) ≡ false
      → after_krealloc zero_or_null true p size ret_val s
        ≡ klc_add_alloc true (if ret_val == 0 then p else ret_val) size s
  unfolding after_krealloc
  after-alloc p size ret_val s z n = rw (z, n) refl

  -- What krealloc of a stored block leaves: the block it returns is stored, or the old one if it
  -- failed, and beside it the other blocks that were; no bad free is recorded.
  pub record Moved (p ret_val : ℕ) (s t : Storage) : Type 0 where
    pub blocks :
        (b : ℕ)
        → stored b t.alloc_list ≡ (
            ((if ret_val == 0 then p else ret_val) == b) || (stored b s.alloc_list && not (p == b)))
    pub bad_frees : t.bad_free_list ≡ s.bad_free_list

  -- If the counters follow the lists, an allocation of the block `p`, neither null nor of size
  -- zero, is stored, the size is not 0 and the allocation can be recorded, then behind krealloc the
  -- block returned is stored in place of `p`, or `p` again if krealloc failed.
  pub repl_krealloc-Moved :
      (created : Bool) (p size ret_val : ℕ) (s : Storage)
      → Counted s
      → zero_or_null p ≡ false
      → (p == 0) ≡ false
      → (size == 0) ≡ false
      → stored p s.alloc_list ≡ true
      → Moved p ret_val s (repl_krealloc zero_or_null created true p size ret_val s)
  unfolding repl_krealloc klc_add_alloc klc_add_alloc_impl
  repl_krealloc-Moved created p size ret_val s h z n k a =
      subst (Moved p ret_val s)
        (sym (
          ap (after_krealloc zero_or_null true p size ret_val) (before-free created p size s h z a)
          ∙ after-alloc p size ret_val (without p s) k n))
        moved
    where
      moved :
          Moved p ret_val s
            (klc_add_alloc true (if ret_val == 0 then p else ret_val) size (without p s))
      moved = record {
        blocks = λ b.
            ap (λ x. ((if ret_val == 0 then p else ret_val) == b) || x)
              (stored-others_eq p b s.alloc_list);
        bad_frees = refl;
      }

flush_list-map : (f : MemblockInfo → Printed) (ms : List MemblockInfo) → flush_list f ms ≡ map f ms
unfolding flush_list
flush_list-map f [] = refl
flush_list-map f (m ∷ ms) = ap (λ t. f m ∷ t) (flush_list-map f ms)

-- If the counters follow the lists, the unload of the target prints each allocation stored, each
-- bad free, and the totals, which are the lengths of the lists modulo 2^64, and it leaves an empty
-- storage.
pub target_unload_callback-empty_storage :
    (s : Storage)
    → Counted s
    → target_unload_callback s ≡ (
      map Printed.alloc_info s.alloc_list
          ++ map Printed.dealloc_info s.bad_free_list
          ++ (Printed.totals s.total_allocs
                (length s.alloc_list % 2 ^ 64)
                (length s.bad_free_list % 2 ^ 64)
              ∷ []),
      empty_storage,
    )
unfolding target_unload_callback klc_flush_allocs klc_flush_deallocs klc_flush_stats
target_unload_callback-empty_storage s h = λ i. (
  flush_list-map Printed.alloc_info s.alloc_list i
      ++ flush_list-map Printed.dealloc_info s.bad_free_list i
      ++ (Printed.totals s.total_allocs (h.leaks i) (h.bad_frees i) ∷ []),
  empty_storage,
)
