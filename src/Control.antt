-- ===== src/Control.antt =====
-- controller.c of the standalone KEDR: the calls in the code of a module, and their replacement, for
-- CONFIG_X86_64. The memory is a function from addresses to bytes. The decoder of instructions (the
-- kernel's insn.c) is the parameter `decode`.
use kedr_aux.Prelude.{
  ℕ, zero, suc, ◌+◌, ◌-◌, ◌*◌, ◌/◌, ◌%◌, ◌^◌, Bool, true, false, Option, none, some, List, [], ◌∷◌,
  ◌==◌, ltb, leb, drop, if◌then◌else◌,
}
use kedr_aux.Base.Table.{ReplTable}
pub mod Detector
pub mod Offsets
pub mod Area
pub mod Targets
pub mod Agree
pub mod Skips
pub mod Sites
pub mod Redirects
pub mod Session
pub mod Startup
mod Tests

abbrev pub Memory : Type 0
Memory = ℕ → ℕ

-- what do_process_insn uses of struct insn
pub record Insn : Type 0 where
  pub insn_length : ℕ
  pub opcode : ℕ
  pub immediate_nbytes : ℕ
  pub offset_immediate : ℕ

-- `bug` is a BUG_ON or a read out of bounds, and `unfinished` a loop that has no round left.
pub data Result (A : Type 0) : Type 0 where
  bug unfinished : Result A
  done : A → Result A

-- the parts of struct module that the controller uses; a NULL pointer is 0
pub record Module : Type 0 where
  pub address : ℕ
  pub name : List ℕ
  pub module_init : ℕ
  pub init_text_size : ℕ
  pub module_core : ℕ
  pub core_text_size : ℕ

unfoldable pub call_addr_from_offset : ℕ → ℕ → ℕ → ℕ
call_addr_from_offset insn_addr insn_len offset =
    if ltb offset (2 ^ 31)
    then (insn_addr + insn_len + offset) % 2 ^ 64
    else (insn_addr + insn_len + (offset + (2 ^ 64 - 2 ^ 32))) % 2 ^ 64

unfoldable pub call_offset_from_addr : ℕ → ℕ → ℕ → ℕ
call_offset_from_addr insn_addr insn_len dest_addr =
    (dest_addr + (2 ^ 64 - (insn_addr + insn_len) % 2 ^ 64)) % 2 ^ 64 % 2 ^ 32

-- a u32 in the memory
unfoldable pub read_u32 : Memory → ℕ → ℕ
read_u32 mem a = mem a + 2 ^ 8 * mem (a + 1) + 2 ^ 16 * mem (a + 2) + 2 ^ 24 * mem (a + 3)

unfoldable pub write_u32 : Memory → ℕ → ℕ → Memory
write_u32 mem a v x =
    if x == a
    then v % 2 ^ 8
    else if x == a + 1
    then v / 2 ^ 8 % 2 ^ 8
    else if x == a + 2
    then v / 2 ^ 16 % 2 ^ 8
    else if x == a + 3
    then v / 2 ^ 24 % 2 ^ 8
    else mem x

-- to_funcs[i], of the rest of the array; `none` is the BUG_ON, or no element
abbrev pub replacement : List ℕ → Option (Option ℕ)
replacement [] = none
replacement (t ∷ ts) = if t == 0 then none else some (some t)

-- The loop over the functions of interest, with what is left of the arrays: the replacement of the
-- first one that is called, if there is one.
unfoldable pub find_replacement : ℕ → ℕ → List ℕ → List ℕ → Option (Option ℕ)
find_replacement zero addr from_funcs to_funcs = some none
find_replacement (suc nfuncs) addr [] to_funcs = none
find_replacement (suc nfuncs) addr (f ∷ from_funcs) to_funcs =
    let rest = find_replacement nfuncs addr from_funcs (drop 1 to_funcs) in
    if addr == f then replacement to_funcs else rest

-- the address that the call in `insn` at `kaddr` goes to
unfoldable pub call_target : Memory → ℕ → Insn → ℕ
unfolding call_addr_from_offset read_u32
call_target mem kaddr insn =
    call_addr_from_offset kaddr insn.insn_length (read_u32 mem (kaddr + insn.offset_immediate))

abbrev pub replaced : Memory → ℕ → Insn → Option (Option ℕ) → Option (ℕ × Memory)
replaced mem kaddr insn none = none
replaced mem kaddr insn (some none) = some (insn.insn_length, mem)
replaced mem kaddr insn (some (some t)) = some (
  insn.insn_length,
  write_u32 mem (kaddr + insn.offset_immediate) (call_offset_from_addr kaddr insn.insn_length t),
)

-- do_process_insn behind the decoding
abbrev pub process_decoded : Memory → ℕ → Insn → List ℕ → List ℕ → ℕ → Option (ℕ × Memory)
process_decoded mem kaddr insn from_funcs to_funcs nfuncs =
    if insn.insn_length == 0
    then some (0, mem)
    else if insn.opcode == 232
    then (if insn.immediate_nbytes == 4
        then replaced mem kaddr insn
            (find_replacement nfuncs (call_target mem kaddr insn) from_funcs to_funcs)
        else some (insn.insn_length, mem))
    else some (insn.insn_length, mem)

-- whether the `len` bytes from `pos` on are zero
unfoldable pub all_zero : ℕ → Memory → ℕ → Bool
all_zero zero mem pos = true
all_zero (suc len) mem pos =
    let rest = all_zero len mem (pos + 1) in if mem pos == 0 then rest else false

-- the loop that skips zero bytes, with the number of bytes up to `kend`
unfoldable pub skip_zeros : ℕ → Memory → ℕ → ℕ
skip_zeros zero mem pos = pos
skip_zeros (suc left) mem pos =
    let rest = skip_zeros left mem (pos + 1) in if mem pos == 0 then rest else pos

unfoldable pub next_pos : ℕ → Memory → ℕ → ℕ → ℕ
unfolding all_zero skip_zeros
next_pos kend mem pos len =
    if all_zero len mem pos then skip_zeros (kend - (pos + len)) mem (pos + len) else pos + len

module _ (decode : Memory → ℕ → Insn) where
  -- `end_kaddr` is left out, since what it is compared for is a warning
  unfoldable pub do_process_insn :
      Memory → ℕ → Option (List ℕ) → Option (List ℕ) → ℕ → Option (ℕ × Memory)
  unfolding find_replacement call_target write_u32 call_offset_from_addr
  do_process_insn mem kaddr none to_funcs nfuncs = none
  do_process_insn mem kaddr (some from_funcs) none nfuncs = none
  do_process_insn mem kaddr (some from_funcs) (some to_funcs) nfuncs =
      process_decoded mem kaddr (decode mem kaddr) from_funcs to_funcs nfuncs

  module _ (from_funcs to_funcs : Option (List ℕ)) (nfuncs : ℕ) where
    -- what a round does with what do_process_insn returns
    abbrev pub processed :
        ℕ → ℕ → (Memory → ℕ → Result Memory) → Option (ℕ × Memory) → Result Memory
    processed kend pos go_on none = bug
    processed kend pos go_on (some (zero, mem)) = done mem
    processed kend pos go_on (some (suc len, mem)) =
        if leb (pos + suc len) kend then go_on mem (next_pos kend mem pos (suc len)) else done mem

    -- the loop of do_process_area, with the number of rounds left
    unfoldable pub process_from : ℕ → ℕ → Memory → ℕ → Result Memory
    unfolding next_pos do_process_insn
    process_from zero kend mem pos = unfinished
    process_from (suc rounds) kend mem pos =
        if ltb (pos + 4) kend
        then processed kend pos (λ mem' pos'. process_from rounds kend mem' pos')
            (do_process_insn mem pos from_funcs to_funcs nfuncs)
        else done mem

    -- a round for each byte and one more
    unfoldable pub do_process_area : Memory → ℕ → ℕ → Result Memory
    unfolding process_from
    do_process_area mem kbeg kend =
        if kbeg == 0
        then bug
        else if kend == 0
        then bug
        else if ltb kend kbeg
        then bug
        else process_from (suc (kend - kbeg)) kend mem kbeg

  abbrev pub in_order : Result Memory → (Memory → Result Memory) → Result Memory
  in_order bug go_on = bug
  in_order unfinished go_on = unfinished
  in_order (done mem) go_on = go_on mem

  unfoldable pub replace_calls_in_module : Module → ReplTable → Memory → Result Memory
  unfolding do_process_area
  replace_calls_in_module target t mem =
      if target.module_core == 0
      then bug
      else in_order
          (if target.module_init == 0
            then done mem
            else do_process_area t.orig_addrs t.repl_addrs t.num_addrs mem target.module_init
                (target.module_init + target.init_text_size))
          (λ mem'.
            do_process_area t.orig_addrs t.repl_addrs t.num_addrs mem' target.module_core
              (target.module_core + target.core_text_size))
