-- ===== src/Control/Area.antt =====
-- How do_process_area ends, and where it writes.
use kedr_aux.Prelude.{
  ℕ, zero, suc, ◌+◌, ◌-◌, ◌≤◌, ◌<◌, false, Option, none, some, List, ◌≡◌, ◌≢◌, ◌⊎◌, refl, ◌∙◌,
  arith, ◌==◌, ltb, leb, length, Bool-cases, inl, inr,
}
use kedr_aux.Control.{
  Memory, Insn, Result, done, skip_zeros, next_pos, processed, process_from, do_process_area,
}
use kedr_aux.Control.Targets.{
  NonNull, Processed, no_insn, no_call, not_of_interest, redirected, do_process_insn-Processed,
}

pub skip_zeros-le : (left : ℕ) (mem : Memory) (pos : ℕ) → pos ≤ skip_zeros left mem pos
unfolding skip_zeros
skip_zeros-le zero mem pos = omega arith
skip_zeros-le (suc left) mem pos = ground (arith, skip_zeros-le left mem (pos + 1))

pub next_pos-le : (kend : ℕ) (mem : Memory) (pos len : ℕ) → pos + len ≤ next_pos kend mem pos len
unfolding next_pos
next_pos-le kend mem pos len = ground (arith, skip_zeros-le (kend - (pos + len)) mem (pos + len))

-- What is relied on of the decoder: the offset of a call is within the instruction, and no call is
-- longer than `longest` bytes.
pub record CallsFit (decode : Memory → ℕ → Insn) (longest : ℕ) : Type 0 where
  pub offset_inside :
      (mem : Memory) (a : ℕ)
      → (decode mem a).opcode ≡ 232
      → (decode mem a).immediate_nbytes ≡ 4
      → (decode mem a).offset_immediate + 4 ≤ (decode mem a).insn_length
  pub at_most :
      (mem : Memory) (a : ℕ) → (decode mem a).opcode ≡ 232 → (decode mem a).insn_length ≤ longest

module _ (decode : Memory → ℕ → Insn) (longest : ℕ) (fit : CallsFit decode longest)
    (froms tos : List ℕ) (nfuncs : ℕ) (enough_froms : nfuncs ≤ length froms)
    (enough_tos : nfuncs ≤ length tos) (non_null : NonNull tos) where
  -- nothing is changed before `kbeg`, and behind `kend` at most the end of a call of more than 5 bytes
  abbrev pub Untouched : ℕ → ℕ → Memory → Memory → Type 0
  Untouched kbeg kend mem mem' = (x : ℕ) → (x < kbeg) ⊎ (kend + longest ≤ x + 5) → mem' x ≡ mem x

  data Ended (kbeg kend : ℕ) (mem : Memory) : Result Memory → Type 0 where
    ended : (mem' : Memory) → Untouched kbeg kend mem mem' → Ended kbeg kend mem (done mem')

  insn-Untouched :
      (kbeg kend : ℕ) (mem mem' : Memory) (pos len : ℕ)
      → kbeg ≤ pos
      → pos + 4 < kend
      → Processed mem pos (decode mem pos) nfuncs froms tos (some (len, mem'))
      → Untouched kbeg kend mem mem'
  insn-Untouched kbeg kend mem mem' pos len h k (no_insn e) x o = refl
  insn-Untouched kbeg kend mem mem' pos len h k (no_call e f) x o = refl
  insn-Untouched kbeg kend mem mem' pos len h k (not_of_interest e c b f) x o = refl
  insn-Untouched kbeg kend mem mem' pos len h k (redirected m i t l c b n f g u near frame) x
        (inl o) =
      frame x (inl (omega (arith, o, h)))
  insn-Untouched kbeg kend mem mem' pos len h k (redirected m i t l c b n f g u near frame) x
        (inr o) =
      frame x (inr (omega (arith, o, k, fit.offset_inside mem pos c b, fit.at_most mem pos c)))

  then-Ended :
      (kbeg kend : ℕ) (mem mem' : Memory) (r : Result Memory)
      → Untouched kbeg kend mem mem'
      → Ended kbeg kend mem' r
      → Ended kbeg kend mem r
  then-Ended kbeg kend mem mem' r i (ended m j) = ended m (λ x o. j x o ∙ i x o)

  processed-Ended :
      (kbeg kend : ℕ) (mem : Memory) (pos : ℕ) (go_on : Memory → ℕ → Result Memory)
      (r : Option (ℕ × Memory))
      → kbeg ≤ pos
      → pos + 4 < kend
      → ((m : Memory) (p : ℕ) → pos < p → Ended kbeg kend m (go_on m p))
      → Processed mem pos (decode mem pos) nfuncs froms tos r
      → Ended kbeg kend mem (processed decode (some froms) (some tos) nfuncs kend pos go_on r)
  processed-Ended kbeg kend mem pos go_on (some (zero, m)) h k g p =
      ended m (insn-Untouched kbeg kend mem m pos zero h k p)
  processed-Ended kbeg kend mem pos go_on (some (suc len, m)) h k g p =
      elim (Bool-cases (leb (pos + suc len) kend)) [
        | inl e ↦ simp e (
            then-Ended kbeg kend mem m _ (insn-Untouched kbeg kend mem m pos (suc len) h k p)
              (g m _ (omega (arith, next_pos-le kend m pos (suc len)))))
        | inr e ↦ simp e (ended m (insn-Untouched kbeg kend mem m pos (suc len) h k p))
      ]
  processed-Ended kbeg kend mem pos go_on none h k g p = absurd (returns none p refl)
    where
      returns :
          (r : Option (ℕ × Memory))
          → Processed mem pos (decode mem pos) nfuncs froms tos r
          → r ≢ none
      returns r (no_insn e) q = cc
      returns r (no_call e f) q = cc
      returns r (not_of_interest e c b f) q = cc
      returns r (redirected m i t l c b n f j u near frame) q = cc

  process_from-Ended :
      (rounds kbeg kend : ℕ) (mem : Memory) (pos : ℕ)
      → kend - pos < rounds
      → kbeg ≤ pos
      → Ended kbeg kend mem (process_from decode (some froms) (some tos) nfuncs rounds kend mem pos)
  unfolding process_from
  process_from-Ended zero kbeg kend mem pos h k = absurd (omega (arith, h))
  process_from-Ended (suc rounds) kbeg kend mem pos h k = elim (Bool-cases (ltb (pos + 4) kend)) [
    | inl e ↦ simp e (
        processed-Ended kbeg kend mem pos _ _ k (ground (arith, e))
          (λ m p l.
            process_from-Ended rounds kbeg kend m p (ground (arith, h, l, e)) (omega (arith, k, l)))
          (do_process_insn-Processed decode mem pos nfuncs froms tos enough_froms enough_tos
            non_null))
    | inr e ↦ simp e (ended mem (λ x o. refl))
  ]

  area-Ended :
      (mem : Memory) (kbeg kend : ℕ)
      → 0 < kbeg
      → kbeg ≤ kend
      → Ended kbeg kend mem (do_process_area decode (some froms) (some tos) nfuncs mem kbeg kend)
  unfolding do_process_area
  area-Ended mem kbeg kend h k =
      let e : (kbeg == 0) ≡ false = ground (arith, h) in
      let f : (kend == 0) ≡ false = ground (arith, h, k) in
      let g : ltb kend kbeg ≡ false = ground (arith, k) in
      simp (e, f, g)
        (process_from-Ended (suc (kend - kbeg)) kbeg kend mem kbeg (omega arith) (omega arith))

  -- For an area that does not begin at address 0, arrays of at least `nfuncs` functions without a NULL
  -- among the replacements, and a decoder whose calls have at most `longest` bytes with their offset
  -- inside: do_process_area ends without a BUG_ON, and leaves alone what is before the area, and what is
  -- behind it from `longest` - 5 bytes on. A call with prefixes may be written up to there.
  pub do_process_area-Untouched :
      (mem : Memory) (kbeg kend : ℕ)
      → 0 < kbeg
      → kbeg ≤ kend
      → (mem' : Memory) × (do_process_area decode (some froms) (some tos) nfuncs mem kbeg kend
          ≡ done mem')
        × Untouched kbeg kend mem mem'
  do_process_area-Untouched mem kbeg kend h k = result _ (area-Ended mem kbeg kend h k)
    where
      result :
          (r : Result Memory)
          → Ended kbeg kend mem r
          → (mem' : Memory) × (r ≡ done mem') × Untouched kbeg kend mem mem'
      result r (ended m i) = (m, refl, i)
