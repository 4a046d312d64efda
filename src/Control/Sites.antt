-- ===== src/Control/Sites.antt =====
-- The instructions that do_process_area visits, and what is to become of the calls among them.
use kedr_aux.Prelude.{
  ℕ, ◌+◌, ◌≤◌, ◌<◌, some, List, ◌≡◌, ◌≢◌, ◌⊎◌, refl, sym, ap, ◌∙◌, subst, arith, ◌==◌, get_elem?,
  Bool-cases, inl, inr,
}
use kedr_aux.Control.{Memory, Insn, call_target, read_u32}
use kedr_aux.Control.Skips.{Next, Next-le}

-- What is relied on of the decoder besides: the opcode comes before the offset; what an instruction is
-- depends on its bytes alone, and for a call not on its offset.
pub record Local (decode : Memory → ℕ → Insn) : Type 0 where
  pub opcode_first :
      (mem : Memory) (a : ℕ)
      → (decode mem a).opcode ≡ 232
      → (decode mem a).immediate_nbytes ≡ 4
      → 0 < (decode mem a).offset_immediate
  pub same_insn :
      (mem mem' : Memory) (a : ℕ)
      → (decode mem a).insn_length ≢ 0
      → ((x : ℕ) → a ≤ x → x < a + (decode mem a).insn_length → mem' x ≡ mem x)
      → decode mem' a ≡ decode mem a
  pub same_call :
      (mem mem' : Memory) (a : ℕ)
      → (decode mem a).insn_length ≢ 0
      → (decode mem a).opcode ≡ 232
      → (decode mem a).immediate_nbytes ≡ 4
      → ((x : ℕ)
          → a ≤ x
          → x < a + (decode mem a).insn_length
          → (x < a + (decode mem a).offset_immediate)
            ⊎ (a + (decode mem a).offset_immediate + 4 ≤ x)
          → mem' x ≡ mem x)
      → decode mem' a ≡ decode mem a

module _ (decode : Memory → ℕ → Insn) (kend : ℕ) where
  -- The instruction at `s` comes from `p` on in the code of `mem`, one instruction after the other, with
  -- the zero bytes behind an instruction of zero bytes skipped.
  pub data Visited (mem : Memory) : ℕ → ℕ → Type 0 where
    here : {p : ℕ} → Visited mem p p
    further :
        {p next s : ℕ}
        → p + 4 < kend
        → (decode mem p).insn_length ≢ 0
        → p + (decode mem p).insn_length ≤ kend
        → Next kend mem p (decode mem p).insn_length next
        → Visited mem next s
        → Visited mem p s

  pub Visited-le : {mem : Memory} {p s : ℕ} → Visited mem p s → p ≤ s
  Visited-le here = omega arith
  Visited-le (further h l k n v) = omega (arith, Visited-le v, Next-le n)

  -- `x` is a byte of the offset of a call that is visited
  pub record InOffset (mem : Memory) (p x : ℕ) : Type 0 where
    pub site : ℕ
    pub visited : Visited mem p site
    pub is_call : (decode mem site).opcode ≡ 232
    pub has_offset : (decode mem site).immediate_nbytes ≡ 4
    pub from_offset : site + (decode mem site).offset_immediate ≤ x
    pub below_end : x < site + (decode mem site).offset_immediate + 4

module _ (decode : Memory → ℕ → Insn) (froms tos : List ℕ) (nfuncs : ℕ) where
  -- What becomes of the instruction `insn` at `s` of `mem` in `mem'`. It stays the instruction that it
  -- was; a call of a function of interest goes to the replacement of the first function that it
  -- calls, and another call to where it went.
  pub data Redirected (mem mem' : Memory) (s : ℕ) (insn : Insn) : Type 0 where
    not_decoded : insn.insn_length ≡ 0 → Redirected mem mem' s insn
    not_call :
        insn.insn_length ≢ 0
        → decode mem' s ≡ insn
        → (insn.opcode ≢ 232) ⊎ (insn.immediate_nbytes ≢ 4)
        → Redirected mem mem' s insn
    old_call :
        insn.insn_length ≢ 0
        → decode mem' s ≡ insn
        → ((i : ℕ) → i < nfuncs → get_elem? froms i ≢ some (call_target mem s insn))
        → call_target mem' s insn ≡ call_target mem s insn
        → Redirected mem mem' s insn
    new_call :
        (i : ℕ)
        → insn.insn_length ≢ 0
        → decode mem' s ≡ insn
        → i < nfuncs
        → get_elem? froms i ≡ some (call_target mem s insn)
        → ((j : ℕ) → j < i → get_elem? froms j ≢ some (call_target mem s insn))
        → get_elem? tos i ≡ some (call_target mem' s insn)
        → Redirected mem mem' s insn

  -- memory that is the same from `s` on has the same call at `s`
  call_target-Above :
      (mem m : Memory) (s : ℕ) (insn : Insn)
      → ((x : ℕ) → s ≤ x → m x ≡ mem x)
      → call_target m s insn ≡ call_target mem s insn
  unfolding call_target read_u32
  call_target-Above mem m s insn a =
      rw
        (
          a (s + insn.offset_immediate) (omega arith),
          a (s + insn.offset_immediate + 1) (omega arith),
          a (s + insn.offset_immediate + 2) (omega arith),
          a (s + insn.offset_immediate + 3) (omega arith),
        )
        refl

  from_here :
      (mem m mem' : Memory) (s : ℕ) (insn : Insn)
      → call_target m s insn ≡ call_target mem s insn
      → Redirected m mem' s insn
      → Redirected mem mem' s insn
  from_here mem m mem' s insn e (not_decoded l) = not_decoded l
  from_here mem m mem' s insn e (not_call l d n) = not_call l d n
  from_here mem m mem' s insn e (old_call l d f t) =
      old_call l d (λ i h q. f i h (q ∙ ap some (sym e))) (t ∙ e)
  from_here mem m mem' s insn e (new_call i l d h f g t) =
      new_call i l d h (f ∙ ap some e) (λ j k q. g j k (q ∙ ap some (sym e))) t

  -- what is written before `s` does not matter
  pub Redirected-Above :
      (mem m mem' : Memory) (s : ℕ)
      → Local decode
      → ((x : ℕ) → s ≤ x → m x ≡ mem x)
      → Redirected m mem' s (decode m s)
      → Redirected mem mem' s (decode mem s)
  Redirected-Above mem m mem' s local a r = elim (Bool-cases ((decode mem s).insn_length == 0)) [
    | inl e ↦ not_decoded (ground (arith, e))
    | inr e ↦
        let d : decode m s ≡ decode mem s =
          local.same_insn mem m s (λ z. ground (arith, e, z)) (λ x h k. a x h) in
        from_here mem m mem' s (decode mem s) (call_target-Above mem m s (decode mem s) a)
          (subst (λ i. Redirected m mem' s i) d r)
  ]
