-- ===== src/Pool.antt =====
-- memory_pool.c: blocks that end at a page without access. Addresses and sizes have 64 bits, a page
-- has 4096 bytes. What the wrapped allocator returns is an argument.
use kedr_aux.Prelude.{
  ℕ, ◌+◌, ◌-◌, ◌*◌, ◌/◌, ◌%◌, ◌^◌, Bool, true, false, Option, none, some, List, [], ◌∷◌, ◌==◌, ltb,
  leb, if◌then◌else◌,
}
pub mod Layout
pub mod Blocks
mod Tests

-- PAGE_SIZE and sizeof(struct mempool_block)
abbrev pub page_size : ℕ
page_size = 4096

abbrev pub head_size : ℕ
head_size = 24

-- struct mempool_block, with its address
pub record Block : Type 0 where
  pub block : ℕ
  pub size : ℕ

unfoldable pub mempool_get_alignment : ℕ → ℕ
mempool_get_alignment size =
    if leb 16 size
    then 16
    else if leb 8 size
    then 8
    else if leb 4 size
    then 4
    else if leb 2 size
    then 2
    else 1

-- `align` is a power of 2
unfoldable pub mempool_get_size_aligned : ℕ → ℕ → ℕ
mempool_get_size_aligned size align =
    ((size + (2 ^ 64 - 1)) % 2 ^ 64 / align * align + align) % 2 ^ 64

abbrev pub page_addr : ℕ → ℕ
page_addr addr = addr / page_size * page_size

abbrev pub page_addr_rel : ℕ → ℕ
page_addr_rel addr = addr % page_size

unfoldable pub mempool_block_get_address : Block → ℕ
unfolding mempool_get_size_aligned mempool_get_alignment
mempool_block_get_address b =
    let obj_size = mempool_get_size_aligned b.size (mempool_get_alignment b.size) in
    let rel_addr = page_addr_rel ((2 ^ 64 - obj_size) % 2 ^ 64) in
    let first_page_addr = page_addr b.block in
    if leb rel_addr (page_addr_rel b.block + head_size)
    then (first_page_addr + page_size + rel_addr) % 2 ^ 64
    else (first_page_addr + rel_addr) % 2 ^ 64

-- The result is an int, which the callers convert to 64 bits again.
unfoldable pub mempool_block_get_size : Block → ℕ
mempool_block_get_size b =
    let int_size = b.size % 2 ^ 32 in
    if ltb int_size (2 ^ 31) then int_size else int_size + (2 ^ 64 - 2 ^ 32)

unfoldable pub mempool_block_get_address_locked : Block → ℕ
unfolding mempool_block_get_address mempool_block_get_size
mempool_block_get_address_locked b =
    (page_addr ((mempool_block_get_address b + mempool_block_get_size b + (2 ^ 64 - 1)) % 2 ^ 64)
      + page_size)
    % 2 ^ 64

-- the list of blocks of a new allocator
unfoldable pub mempool_allocator_create : Bool → Option (List Block)
mempool_allocator_create allocated = if allocated then some [] else none

-- whether the BUG_ON is not hit
unfoldable pub mempool_allocator_destroy : List Block → Bool
mempool_allocator_destroy [] = true
mempool_allocator_destroy (b ∷ bs) = false

-- how many bytes mempool_allocator_alloc asks for: `right` tells whether the wrapped allocator has
-- alloc_with_right_alignment
unfoldable pub mempool_alloc_with_right_alignment : Bool → ℕ → ℕ
mempool_alloc_with_right_alignment right size =
    if right then size else (size + page_size + (2 ^ 64 - 1)) % 2 ^ 64

unfoldable pub real_size : ℕ → ℕ
unfolding mempool_get_size_aligned mempool_get_alignment
real_size size =
    (head_size + mempool_get_size_aligned size (mempool_get_alignment size) + page_size) % 2 ^ 64

-- `block` is what the wrapped allocator returns, 0 for NULL; the result goes with the list of blocks
unfoldable pub mempool_allocator_alloc : ℕ → ℕ → List Block → ℕ × List Block
unfolding mempool_block_get_address
mempool_allocator_alloc block size blocks = if block == 0 then (0, blocks) else (
  mempool_block_get_address (record { block = block; size = size }),
  record { block = block; size = size } ∷ blocks,
)

-- what mempool_allocator_free leaves in the list, and the block that it frees
abbrev pub kept : Block → Option (Block × List Block) → Option (Block × List Block)
kept b none = none
kept b (some (c, bs)) = some (c, b ∷ bs)

unfoldable pub remove_block : ℕ → List Block → Option (Block × List Block)
unfolding mempool_block_get_address
remove_block addr [] = none
remove_block addr (b ∷ bs) =
    let rest = remove_block addr bs in
    if mempool_block_get_address b == addr then some (b, bs) else kept b rest

abbrev pub freed : List Block → Option (Block × List Block) → ℕ × Option ℕ × List Block
freed blocks none = (1, none, blocks)
freed blocks (some (b, bs)) = (0, some b.block, bs)

-- the result, the address that is passed on to be freed, and the list
unfoldable pub mempool_allocator_free : ℕ → List Block → ℕ × Option ℕ × List Block
unfolding remove_block
mempool_allocator_free addr blocks = freed blocks (remove_block addr blocks)

unfoldable pub mempool_allocator_size : ℕ → List Block → ℕ
unfolding mempool_block_get_address mempool_block_get_size
mempool_allocator_size addr [] = 0
mempool_allocator_size addr (b ∷ bs) =
    let rest = mempool_allocator_size addr bs in
    if mempool_block_get_address b == addr then mempool_block_get_size b else rest
