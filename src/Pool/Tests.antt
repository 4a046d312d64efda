-- ===== src/Pool/Tests.antt =====
-- A block at the beginning of a page, for an object of 100 bytes.
use kedr_aux.Prelude.{ℕ, false, some, none, refl, ◌∷◌, [], ◌≡◌, ◌≢◌, arith}
use kedr_aux.Pool.{
  Block, remove_block, mempool_block_get_address, mempool_allocator_alloc, mempool_allocator_free,
  mempool_allocator_size, mempool_get_size_aligned, mempool_get_alignment,
}
use kedr_aux.Pool.Layout.{Laid, mempool_block_get_address-Laid, object_size}
use kedr_aux.Pool.Blocks.{
  Distinct, mempool_allocator_free_twice, mempool_allocator_free-mempool_allocator_alloc,
}

abbrev first_block : Block
first_block = record { block = 40960; size = 100 }

mempool_block_get_address-Laid_example : Laid false first_block
unfolding object_size mempool_get_size_aligned mempool_get_alignment
mempool_block_get_address-Laid_example =
    mempool_block_get_address-Laid false first_block (omega arith) (omega arith) (omega arith)
      (omega arith) (λ e. omega (arith, e))

mempool_allocator_free-mempool_allocator_alloc_example :
    let (addr, blocks) = mempool_allocator_alloc 40960 100 [] in
    (mempool_allocator_free addr blocks ≡ (0, some 40960, []))
    × (mempool_allocator_size addr blocks ≡ 100)
    × ((other : ℕ)
        → other ≢ addr
        → mempool_allocator_size other blocks ≡ mempool_allocator_size other [])
mempool_allocator_free-mempool_allocator_alloc_example =
    mempool_allocator_free-mempool_allocator_alloc 40960 100 [] (λ e. omega (arith, e))
      (omega arith)

abbrev second_block : Block
second_block = record { block = 81920; size = 100 }

two_blocks-Distinct : Distinct (first_block ∷ second_block ∷ [])
unfolding remove_block mempool_block_get_address
two_blocks-Distinct = (refl, (refl, tt))

mempool_allocator_free_twice_example :
    let (r, f, blocks) =
      mempool_allocator_free
        (mempool_block_get_address second_block)
        (first_block ∷ second_block ∷ []) in
    mempool_allocator_free (mempool_block_get_address second_block) blocks ≡ (1, none, blocks)
mempool_allocator_free_twice_example =
    mempool_allocator_free_twice (mempool_block_get_address second_block)
      (first_block ∷ second_block ∷ []) two_blocks-Distinct
