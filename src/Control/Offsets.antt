-- ===== src/Control/Offsets.antt =====
-- The offsets of calls: what is written is what is called.
use kedr_aux.Prelude.{ℕ, ◌+◌, ◌-◌, ◌%◌, ◌^◌, ◌≤◌, ◌<◌, ◌≡◌, ◌⊎◌, ap, ◌∙◌, arith, inl, inr}
use kedr_aux.Control.{
  Memory, Insn, call_addr_from_offset, call_offset_from_addr, read_u32, write_u32, call_target,
}

-- `dest_addr` is within 2 GB of the end of the instruction
abbrev pub Near : ℕ → ℕ → ℕ → Type 0
Near insn_addr insn_len dest_addr =
    (dest_addr < 2 ^ 64)
    × (((dest_addr + (2 ^ 64 - (insn_addr + insn_len) % 2 ^ 64)) % 2 ^ 64 < 2 ^ 31)
        ⊎ (2 ^ 64 - 2 ^ 31 ≤ (dest_addr + (2 ^ 64 - (insn_addr + insn_len) % 2 ^ 64)) % 2 ^ 64))

-- The call with the offset that is computed for an address within 2 GB goes to that address.
pub call_addr_from_offset-call_offset_from_addr :
    (insn_addr insn_len dest_addr : ℕ)
    → Near insn_addr insn_len dest_addr
    → call_addr_from_offset insn_addr insn_len (call_offset_from_addr insn_addr insn_len dest_addr)
      ≡ dest_addr
unfolding call_addr_from_offset call_offset_from_addr
call_addr_from_offset-call_offset_from_addr a l d (h, inl n) = ground (arith, h, n)
call_addr_from_offset-call_offset_from_addr a l d (h, inr n) = ground (arith, h, n)

pub call_offset_from_addr-lt : (a l d : ℕ) → call_offset_from_addr a l d < 2 ^ 32
unfolding call_offset_from_addr
call_offset_from_addr-lt a l d = omega arith

pub read_u32-write_u32 : (mem : Memory) (a v : ℕ) → v < 2 ^ 32 → read_u32 (write_u32 mem a v) a ≡ v
unfolding read_u32 write_u32
read_u32-write_u32 mem a v h = ground (arith, h)

-- only the four bytes from `a` on are written
pub write_u32-outside :
    (mem : Memory) (a v x : ℕ) → (x < a) ⊎ (a + 4 ≤ x) → write_u32 mem a v x ≡ mem x
unfolding write_u32
write_u32-outside mem a v x (inl h) = ground (arith, h)
write_u32-outside mem a v x (inr h) = ground (arith, h)

-- what a call goes to behind the replacement of its offset
pub call_target-write_u32 :
    (mem : Memory) (kaddr t : ℕ) (insn : Insn)
    → Near kaddr insn.insn_length t
    → call_target
        (write_u32 mem
          (kaddr + insn.offset_immediate)
          (call_offset_from_addr kaddr insn.insn_length t))
        kaddr
        insn
      ≡ t
unfolding call_target
call_target-write_u32 mem kaddr t insn n =
    ap (call_addr_from_offset kaddr insn.insn_length) (
      read_u32-write_u32 mem (kaddr + insn.offset_immediate) _
        (call_offset_from_addr-lt kaddr insn.insn_length t))
    ∙ call_addr_from_offset-call_offset_from_addr kaddr insn.insn_length t n
