-- ===== src/Pool/Blocks.antt =====
-- The list of blocks: what is allocated is found, and freed once.
use kedr_aux.Prelude.{
  ℕ, ◌^◌, ◌<◌, true, false, none, some, List, [], ◌∷◌, ◌==◌, ◌≡◌, ◌≢◌, refl, sym, ap, ◌∙◌, arith,
  Bool-cases, Option-cases, inl, inr,
}
use kedr_aux.Pool.{
  Block, mempool_block_get_address, mempool_allocator_alloc, mempool_allocator_free,
  mempool_allocator_size, remove_block,
}
use kedr_aux.Pool.Layout.{mempool_block_get_size-small}

-- Of the memory that mempool_allocator_alloc gets for less than 2 GB, unless that is NULL: mempool_allocator_free of
-- the address returned returns 0, passes the block's address on and leaves the list as it was;
-- mempool_allocator_size gives the size asked for, and for other addresses what it gave before.
pub mempool_allocator_free-mempool_allocator_alloc :
    (block size : ℕ) (blocks : List Block)
    → block ≢ 0
    → size < 2 ^ 31
    → let (addr, blocks') = mempool_allocator_alloc block size blocks in
      (mempool_allocator_free addr blocks' ≡ (0, some block, blocks))
      × (mempool_allocator_size addr blocks' ≡ size)
      × ((other : ℕ)
          → other ≢ addr
          → mempool_allocator_size other blocks' ≡ mempool_allocator_size other blocks)
unfolding mempool_allocator_free mempool_allocator_alloc mempool_allocator_size remove_block
mempool_allocator_free-mempool_allocator_alloc block size blocks h two_gb =
    let n : (block == 0) ≡ false = ground (arith, h) in
    let addr = mempool_block_get_address (record { block = block; size = size }) in
    let s : (addr == addr) ≡ true = ground arith in
    rw (n, s)
      (
        refl,
        mempool_block_get_size-small (record { block = block; size = size }) two_gb,
        λ other d. let t : (addr == other) ≡ false = ground (arith, d) in rw t refl,
      )

-- no two of the blocks return the same address
abbrev pub Distinct : List Block → Type 0
Distinct [] = Unit
Distinct (b ∷ bs) = (remove_block (mempool_block_get_address b) bs ≡ none) × Distinct bs

remove_block_twice :
    (addr : ℕ) (blocks : List Block) (b : Block) (bs : List Block)
    → Distinct blocks
    → remove_block addr blocks ≡ some (b, bs)
    → remove_block addr bs ≡ none
unfolding remove_block
remove_block_twice addr [] b bs d h = absurd cc
remove_block_twice addr (c ∷ cs) b bs (n, d) h =
    elim (Bool-cases (mempool_block_get_address c == addr)) [
      | inl e ↦
          let a : mempool_block_get_address c ≡ addr = ground (arith, e) in
          let q : cs ≡ bs = ground (arith, e, h) in
          ap (λ t. remove_block addr t) (sym q) ∙ ap (λ t. remove_block t cs) (sym a) ∙ n
      | inr e ↦ elim (Option-cases (remove_block addr cs)) [
        | inl q ↦ absurd (ground (arith, e, q, h))
        | inr ((x, xs), q) ↦
            let f : c ∷ xs ≡ bs = ground (arith, e, q, h) in
            ap (λ t. remove_block addr t) (sym f) ∙ rw (e, remove_block_twice addr cs x xs d q) refl
      ]
    ]

-- If no two blocks return the same address, an address that has been passed to
-- mempool_allocator_free is not known any more: the second call returns 1, frees nothing and leaves
-- the list alone.
pub mempool_allocator_free_twice :
    (addr : ℕ) (blocks : List Block)
    → Distinct blocks
    → let (r, f, blocks') = mempool_allocator_free addr blocks in
      mempool_allocator_free addr blocks' ≡ (1, none, blocks')
unfolding mempool_allocator_free
mempool_allocator_free_twice addr blocks d = elim (Option-cases (remove_block addr blocks)) [
  | inl q ↦ rw (q, q) refl
  | inr ((b, bs), q) ↦ rw (q, remove_block_twice addr blocks b bs d q) refl
]
