-- ===== src/Control/Agree.antt =====
-- Two memories that agree below an address, as do_process_area reads them.
use kedr_aux.Prelude.{
  ℕ, zero, suc, ◌+◌, ◌-◌, ◌≤◌, ◌<◌, ◌≡◌, refl, arith, ◌==◌, Bool-cases, inl, inr,
}
use kedr_aux.Control.{Memory, Insn, skip_zeros, all_zero, next_pos, call_target, read_u32}
use kedr_aux.Control.Area.{skip_zeros-le, next_pos-le}

-- the two memories agree below `end`
abbrev pub Agree : ℕ → Memory → Memory → Type 0
Agree end mem mem' = (x : ℕ) → x < end → mem' x ≡ mem x

all_zero-Agree :
    (len : ℕ) (mem mem' : Memory) (pos : ℕ)
    → Agree (pos + len) mem mem'
    → all_zero len mem' pos ≡ all_zero len mem pos
unfolding all_zero
all_zero-Agree zero mem mem' pos a = refl
all_zero-Agree (suc len) mem mem' pos a =
    rw (a pos (omega arith), all_zero-Agree len mem mem' (pos + 1) (λ x h. a x (omega (arith, h))))
      refl

-- the first byte that is not skipped is the same, if that byte is
skip_zeros-Agree :
    (left : ℕ) (mem mem' : Memory) (pos : ℕ)
    → Agree (skip_zeros left mem pos + 1) mem mem'
    → skip_zeros left mem' pos ≡ skip_zeros left mem pos
unfolding skip_zeros
skip_zeros-Agree zero mem mem' pos a = refl
skip_zeros-Agree (suc left) mem mem' pos a = elim (Bool-cases (mem pos == 0)) [
  | inl e ↦
      let b : Agree (skip_zeros left mem (pos + 1) + 1) mem mem' =
        λ x h. a x (ground (arith, e, h)) in
      simp (e, a pos (ground (arith, e, skip_zeros-le left mem (pos + 1))))
        (skip_zeros-Agree left mem mem' (pos + 1) b)
  | inr e ↦ simp (a pos (ground (arith, e)), e) refl
]

pub next_pos-Agree :
    (kend : ℕ) (mem mem' : Memory) (pos len : ℕ)
    → Agree (next_pos kend mem pos len + 1) mem mem'
    → next_pos kend mem' pos len ≡ next_pos kend mem pos len
unfolding next_pos
next_pos-Agree kend mem mem' pos len a =
    let z =
      all_zero-Agree len mem mem' pos
        (λ x h. a x (omega (arith, h, next_pos-le kend mem pos len))) in
    elim (Bool-cases (all_zero len mem pos)) [
      | inl e ↦
          simp (z, e)
            (skip_zeros-Agree (kend - (pos + len)) mem mem' (pos + len)
              (λ x h. a x (ground (arith, e, h))))
      | inr e ↦ simp (z, e) refl
    ]

pub call_target-Agree :
    (mem mem' : Memory) (pos : ℕ) (insn : Insn) (end : ℕ)
    → pos + insn.offset_immediate + 4 ≤ end
    → Agree end mem mem'
    → call_target mem' pos insn ≡ call_target mem pos insn
unfolding call_target read_u32
call_target-Agree mem mem' pos insn end h a =
    rw
      (
        a (pos + insn.offset_immediate) (omega (arith, h)),
        a (pos + insn.offset_immediate + 1) (omega (arith, h)),
        a (pos + insn.offset_immediate + 2) (omega (arith, h)),
        a (pos + insn.offset_immediate + 3) (omega (arith, h)),
      )
      refl
