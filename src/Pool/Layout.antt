-- ===== src/Pool/Layout.antt =====
-- The object of a block ends at a page boundary, within the memory of the block.
use kedr_aux.Prelude.{
  ℕ, ◌+◌, ◌-◌, ◌*◌, ◌%◌, ◌^◌, ◌≤◌, ◌<◌, Bool, true, false, ◌≡◌, ◌≢◌, ◌⊎◌, refl, sym, ap, ◌∙◌, arith,
  leb, if◌then◌else◌, Bool-cases, inl, inr,
}
use kedr_aux.Pool.{
  Block, page_size, head_size, mempool_get_alignment, mempool_get_size_aligned,
  mempool_block_get_address, mempool_block_get_address_locked, mempool_block_get_size, page_addr,
  page_addr_rel, real_size, mempool_alloc_with_right_alignment,
}

-- the size of the object with its padding
unfoldable pub object_size : ℕ → ℕ
unfolding mempool_get_size_aligned mempool_get_alignment
object_size size = mempool_get_size_aligned size (mempool_get_alignment size)

object_size-bounds :
    (size : ℕ)
    → 0 < size
    → size < 2 ^ 63
    → (size ≤ object_size size)
      × (object_size size < size + mempool_get_alignment size)
      × (mempool_get_alignment size ≤ 16)
      × (object_size size % mempool_get_alignment size ≡ 0)
unfolding object_size mempool_get_size_aligned mempool_get_alignment
object_size-bounds size h k = elim (Bool-cases (leb 16 size)) [
  | inl e ↦ rw e (omega (arith, h, k), omega (arith, h, k), omega arith, omega (arith, h, k))
  | inr e ↦ elim (Bool-cases (leb 8 size)) [
    | inl f ↦ rw (e, f) (omega (arith, h, k), omega (arith, h, k), omega arith, omega (arith, h, k))
    | inr f ↦ elim (Bool-cases (leb 4 size)) [
      | inl g ↦
          rw (e, f, g) (omega (arith, h, k), omega (arith, h, k), omega arith, omega (arith, h, k))
      | inr g ↦ elim (Bool-cases (leb 2 size)) [
        | inl i ↦
            rw (e, f, g, i)
              (omega (arith, h, k), omega (arith, h, k), omega arith, omega (arith, h, k))
        | inr i ↦
            rw (e, f, g, i)
              (omega (arith, h, k), omega (arith, h, k), omega arith, omega (arith, h, k))
      ]
    ]
  ]
]

-- where the object of a block starts in a page
abbrev pub start_in_page : ℕ → ℕ
start_in_page size = (2 ^ 64 - object_size size) % 2 ^ 64 % page_size

-- Where the memory of a block ends: with alloc_with_right_alignment it has all of its last page.
unfoldable pub memory_end : Bool → Block → ℕ
unfolding real_size mempool_alloc_with_right_alignment
memory_end true b =
    page_addr (b.block + mempool_alloc_with_right_alignment true (real_size b.size) - 1) + page_size
memory_end false b = b.block + mempool_alloc_with_right_alignment false (real_size b.size)

-- What the memory of a block looks like: the head, the object, whose padding ends at a page boundary,
-- and the locked page.
pub record Laid (right : Bool) (b : Block) : Type 0 where
  pub behind_head : b.block + head_size ≤ mempool_block_get_address b
  pub fits : b.size ≤ object_size b.size
  pub aligned : mempool_block_get_address b % mempool_get_alignment b.size ≡ 0
  pub before_locked :
      mempool_block_get_address b + object_size b.size ≡ mempool_block_get_address_locked b
  pub page_boundary : mempool_block_get_address_locked b % page_size ≡ 0
  pub locked_inside : mempool_block_get_address_locked b + page_size ≤ memory_end right b

abbrev at_page : ℕ → ℕ → ℕ
at_page block rel_addr =
    if leb rel_addr (page_addr_rel block + head_size)
    then (page_addr block + page_size + rel_addr) % 2 ^ 64
    else (page_addr block + rel_addr) % 2 ^ 64

at_page-bounds :
    (block rel : ℕ)
    → rel < page_size
    → block < 2 ^ 63
    → block % page_size + head_size ≤ page_size
    → block % page_size + head_size ≢ rel
    → (block + head_size ≤ at_page block rel)
      × (at_page block rel < block + head_size + page_size)
      × (at_page block rel % page_size ≡ rel)
at_page-bounds block rel r b head apart =
    elim (Bool-cases (leb rel (page_addr_rel block + head_size))) [
      | inl e ↦
          let f : rel < block % 4096 + 24 = ground (arith, e, apart) in
          rw e (
            omega (arith, f, r, b, head),
            omega (arith, f, r, b, head),
            omega (arith, f, r, b, head),
          )
      | inr e ↦
          let f : block % 4096 + 24 < rel = ground (arith, e) in
          rw e (
            omega (arith, f, r, b, head),
            omega (arith, f, r, b, head),
            omega (arith, f, r, b, head),
          )
    ]

address-bounds :
    (b : Block)
    → b.block < 2 ^ 63
    → b.block % page_size + head_size ≤ page_size
    → b.block % page_size + head_size ≢ start_in_page b.size
    → (b.block + head_size ≤ mempool_block_get_address b)
      × (mempool_block_get_address b < b.block + head_size + page_size)
      × (mempool_block_get_address b % page_size ≡ start_in_page b.size)
unfolding mempool_block_get_address object_size
address-bounds b h head apart =
    at_page-bounds b.block (start_in_page b.size) (omega arith) h head apart

-- a page boundary follows the object, and the locked page is behind it
locked_lem :
    (addr size obj : ℕ)
    → 0 < size
    → size ≤ obj
    → obj < size + 16
    → addr + obj < 2 ^ 63
    → (addr + obj) % page_size ≡ 0
    → (page_addr ((addr + size + (2 ^ 64 - 1)) % 2 ^ 64) + page_size) % 2 ^ 64 ≡ addr + obj
locked_lem addr size obj h l g k z = omega (arith, h, l, g, k, z)

boundary_lem :
    (addr obj : ℕ)
    → 0 < obj
    → obj < 2 ^ 64
    → addr % page_size ≡ (2 ^ 64 - obj) % 2 ^ 64 % page_size
    → (addr + obj) % page_size ≡ 0
boundary_lem addr obj h k e = omega (arith, h, k, e)

aligned_lem :
    (addr obj align : ℕ)
    → (align ≡ 1) ⊎ ((align ≡ 2) ⊎ ((align ≡ 4) ⊎ ((align ≡ 8) ⊎ (align ≡ 16))))
    → obj % align ≡ 0
    → (addr + obj) % page_size ≡ 0
    → addr % align ≡ 0
aligned_lem addr obj align (inl e) h k = rw e (omega arith)
aligned_lem addr obj align (inr (inl e)) h k =
    rw e (omega (arith, ap (λ t. obj % t) (sym e) ∙ h, k))
aligned_lem addr obj align (inr (inr (inl e))) h k =
    rw e (omega (arith, ap (λ t. obj % t) (sym e) ∙ h, k))
aligned_lem addr obj align (inr (inr (inr (inl e)))) h k =
    rw e (omega (arith, ap (λ t. obj % t) (sym e) ∙ h, k))
aligned_lem addr obj align (inr (inr (inr (inr e)))) h k =
    rw e (omega (arith, ap (λ t. obj % t) (sym e) ∙ h, k))

alignment-cases :
    (size : ℕ)
    → let a = mempool_get_alignment size in (a ≡ 1) ⊎ ((a ≡ 2) ⊎ ((a ≡ 4) ⊎ ((a ≡ 8) ⊎ (a ≡ 16))))
unfolding mempool_get_alignment
alignment-cases size = elim (Bool-cases (leb 16 size)) [
  | inl e ↦ rw e (inr (inr (inr (inr refl))))
  | inr e ↦ elim (Bool-cases (leb 8 size)) [
    | inl f ↦ rw (e, f) (inr (inr (inr (inl refl))))
    | inr f ↦ elim (Bool-cases (leb 4 size)) [
      | inl g ↦ rw (e, f, g) (inr (inr (inl refl)))
      | inr g ↦ elim (Bool-cases (leb 2 size)) [
        | inl i ↦ rw (e, f, g, i) (inr (inl refl))
        | inr i ↦ rw (e, f, g, i) (inl refl)
      ]
    ]
  ]
]

real_size-object_size :
    (size : ℕ)
    → object_size size < 2 ^ 63
    → real_size size ≡ head_size + object_size size + page_size
unfolding real_size object_size
real_size-object_size size h = omega (arith, h)

inside_lem :
    (right : Bool) (b : Block) (locked : ℕ)
    → b.block + b.size + 5 * page_size < 2 ^ 63
    → object_size b.size < b.size + 16
    → locked < b.block + head_size + page_size + object_size b.size
    → locked % page_size ≡ 0
    → locked + page_size ≤ memory_end right b
unfolding memory_end mempool_alloc_with_right_alignment
inside_lem true b locked e o l z =
    omega (arith, real_size-object_size b.size (omega (arith, e, o)), e, o, l, z)
inside_lem false b locked e o l z =
    omega (arith, real_size-object_size b.size (omega (arith, e, o)), e, o, l, z)

-- an object below 2 GB has the size that it was asked for
pub mempool_block_get_size-small : (b : Block) → b.size < 2 ^ 31 → mempool_block_get_size b ≡ b.size
unfolding mempool_block_get_size
mempool_block_get_size-small b h = ground (arith, h)

-- If a block's head does not cross a page boundary, does not end where the object is to begin in its
-- page, the object is not empty and has less than
-- 2 GB, and all addresses fit in 63 bits, then the object lies behind the
-- head, aligned, and its padding ends at a page boundary; the locked page follows, and it ends within
-- the memory that was asked for.
pub mempool_block_get_address-Laid :
    (right : Bool) (b : Block)
    → 0 < b.size
    → b.size < 2 ^ 31
    → b.block + b.size + 5 * page_size < 2 ^ 63
    → b.block % page_size + head_size ≤ page_size
    → b.block % page_size + head_size ≢ start_in_page b.size
    → Laid right b
unfolding mempool_block_get_address_locked
mempool_block_get_address-Laid right b h two_gb e head apart =
    let (le, lt, small, aligned) = object_size-bounds b.size h (omega (arith, e)) in
    let (behind, near, page) = address-bounds b (omega (arith, e)) head apart in
    let boundary =
      boundary_lem (mempool_block_get_address b) (object_size b.size) (omega (arith, h, le))
        (omega (arith, lt, small, e)) page in
    let locked =
      ap
        (λ t.
          (page_addr ((mempool_block_get_address b + t + (2 ^ 64 - 1)) % 2 ^ 64) + page_size)
          % 2 ^ 64)
        (mempool_block_get_size-small b two_gb)
      ∙ locked_lem (mempool_block_get_address b) b.size (object_size b.size) h le
          (omega (arith, lt, small)) (omega (arith, near, lt, small, e)) boundary in
    record {
      behind_head = behind;
      fits = le;
      aligned =
          aligned_lem (mempool_block_get_address b) (object_size b.size)
            (mempool_get_alignment b.size) (alignment-cases b.size) aligned boundary;
      before_locked = sym locked;
      page_boundary = ap (λ t. t % page_size) locked ∙ boundary;
      locked_inside =
          inside_lem right b (mempool_block_get_address_locked b) e (omega (arith, lt, small))
            (omega (arith, locked, near)) (ap (λ t. t % page_size) locked ∙ boundary);
    }
