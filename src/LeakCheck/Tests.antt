-- ===== src/LeakCheck/Tests.antt =====
-- Concrete inputs: two blocks allocated; ZERO_SIZE_PTR is 16.
use kedr_aux.Prelude.{ℕ, ◌^◌, Bool, true, [], ◌∷◌, leb, ◌-◌, refl}
use kedr_aux.LeakCheck.Storage.{MemblockInfo, Storage, empty_storage}
use kedr_aux.LeakCheck.Replace.{repl___kmalloc, repl_kfree, repl_krealloc}
use kedr_aux.LeakCheck.Count.{Counted, Event, Reach, Reach-Counted}
use kedr_aux.LeakCheck.Pairs.{Moved, repl_krealloc-Moved}

abbrev zero_or_null : ℕ → Bool
zero_or_null p = leb p 16

abbrev is_err : ℕ → Bool
is_err p = leb (2 ^ 64 - 4095) p

abbrev small : MemblockInfo
small = record { block = 4096; size = 8 }

abbrev large : MemblockInfo
large = record { block = 8192; size = 64 }

abbrev busy : Storage
busy = record empty_storage { alloc_list = large ∷ small ∷ []; total_allocs = 2; total_leaks = 2 }

busy-Counted : Counted busy
busy-Counted = record { leaks = refl; bad_frees = refl }

Reach-Counted_example :
    Counted
      (repl_kfree zero_or_null true 12288 (repl___kmalloc zero_or_null true 8 4096 empty_storage))
Reach-Counted_example = Reach-Counted zero_or_null is_err (
    Reach.next (Reach.next Reach.here (Event.kmalloc true 8 4096 empty_storage))
      (Event.kfree true 12288 (repl___kmalloc zero_or_null true 8 4096 empty_storage)))

repl_krealloc-Moved_example :
    Moved zero_or_null 4096 0 busy (repl_krealloc zero_or_null true true 4096 100 0 busy)
repl_krealloc-Moved_example =
    repl_krealloc-Moved zero_or_null true 4096 100 0 busy busy-Counted refl refl refl refl
