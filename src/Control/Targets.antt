-- ===== src/Control/Targets.antt =====
-- do_process_insn: which call it redirects, and to which function.
use kedr_aux.Prelude.{
  ℕ, zero, suc, ◌+◌, ◌≤◌, ◌<◌, false, Option, none, some, List, [], ◌∷◌, ◌≡◌, ◌≢◌, ◌⊎◌, refl, arith,
  ◌==◌, get_elem?, length, Bool-cases, inl, inr,
}
use kedr_aux.Control.{
  Memory, Insn, call_target, find_replacement, replaced, process_decoded, do_process_insn,
}
use kedr_aux.Control.Offsets.{Near, call_target-write_u32, write_u32-outside}

-- no function pointer among them is NULL
abbrev pub NonNull : List ℕ → Type 0
NonNull [] = Unit
NonNull (t ∷ ts) = (t ≢ 0) × NonNull ts

-- what the search finds: nothing among the first `n` functions, or the first of them that is called
pub data Found (addr : ℕ) : ℕ → List ℕ → List ℕ → Option (Option ℕ) → Type 0 where
  nowhere :
      {n : ℕ} {froms tos : List ℕ}
      → ((i : ℕ) → i < n → get_elem? froms i ≢ some addr)
      → Found addr n froms tos (some none)
  at :
      {n : ℕ} {froms tos : List ℕ} (i t : ℕ)
      → i < n
      → get_elem? froms i ≡ some addr
      → ((j : ℕ) → j < i → get_elem? froms j ≢ some addr)
      → get_elem? tos i ≡ some t
      → t ≢ 0
      → Found addr n froms tos (some (some t))

-- one function further on
absent-suc :
    (addr f n : ℕ) (froms : List ℕ)
    → (addr == f) ≡ false
    → ((i : ℕ) → i < n → get_elem? froms i ≢ some addr)
    → (i : ℕ) → i < suc n
    → get_elem? (f ∷ froms) i ≢ some addr
absent-suc addr f n froms e h zero l q = ground (arith, e, q)
absent-suc addr f n froms e h (suc i) l q = h i (omega (arith, l)) q

later :
    (addr f t n : ℕ) (froms tos : List ℕ) (r : Option (Option ℕ))
    → (addr == f) ≡ false
    → Found addr n froms tos r
    → Found addr (suc n) (f ∷ froms) (t ∷ tos) r
later addr f t n froms tos r e (nowhere h) = nowhere (absent-suc addr f n froms e h)
later addr f t n froms tos r e (at i u l q b p z) =
    at (suc i) u (omega (arith, l)) q (absent-suc addr f i froms e b) p z

pub find_replacement-Found :
    (n addr : ℕ) (froms tos : List ℕ)
    → n ≤ length froms
    → n ≤ length tos
    → NonNull tos
    → Found addr n froms tos (find_replacement n addr froms tos)
unfolding find_replacement
find_replacement-Found zero addr froms tos h k z = nowhere (λ i l. absurd (omega (arith, l)))
find_replacement-Found (suc n) addr [] tos h k z = absurd (omega (arith, h))
find_replacement-Found (suc n) addr (f ∷ froms) [] h k z = absurd (omega (arith, k))
find_replacement-Found (suc n) addr (f ∷ froms) (t ∷ tos) h k (z, zs) =
    elim (Bool-cases (addr == f)) [
      | inl e ↦ elim (Bool-cases (t == 0)) [
        | inl d ↦ absurd (z (ground (arith, d)))
        | inr d ↦
            simp (e, d)
              (at 0 t (omega arith) (ground (arith, e)) (λ j l. absurd (omega (arith, l))) refl z)
      ]
      | inr e ↦ simp e (
          later addr f t n froms tos (find_replacement n addr froms tos) e
            (find_replacement-Found n addr froms tos (omega (arith, h)) (omega (arith, k)) zs))
    ]

-- What do_process_insn does with the instruction at `kaddr`: nothing, if it is not a call with an
-- offset of 32 bits or calls no function of interest, or the call of the first function of interest
-- that it calls becomes a call of that function's replacement, by four bytes and no others.
pub data Processed (mem : Memory) (kaddr : ℕ) (insn : Insn) (n : ℕ) (froms tos : List ℕ)
    : Option (ℕ × Memory) → Type 0 where
  no_insn : insn.insn_length ≡ 0 → Processed mem kaddr insn n froms tos (some (0, mem))
  no_call :
      insn.insn_length ≢ 0
      → (insn.opcode ≢ 232) ⊎ (insn.immediate_nbytes ≢ 4)
      → Processed mem kaddr insn n froms tos (some (insn.insn_length, mem))
  not_of_interest :
      insn.insn_length ≢ 0
      → insn.opcode ≡ 232
      → insn.immediate_nbytes ≡ 4
      → ((i : ℕ) → i < n → get_elem? froms i ≢ some (call_target mem kaddr insn))
      → Processed mem kaddr insn n froms tos (some (insn.insn_length, mem))
  redirected :
      (mem' : Memory) (i t : ℕ)
      → insn.insn_length ≢ 0
      → insn.opcode ≡ 232
      → insn.immediate_nbytes ≡ 4
      → i < n
      → get_elem? froms i ≡ some (call_target mem kaddr insn)
      → ((j : ℕ) → j < i → get_elem? froms j ≢ some (call_target mem kaddr insn))
      → get_elem? tos i ≡ some t
      → (Near kaddr insn.insn_length t → call_target mem' kaddr insn ≡ t)
      → ((x : ℕ)
          → (x < kaddr + insn.offset_immediate) ⊎ (kaddr + insn.offset_immediate + 4 ≤ x)
          → mem' x ≡ mem x)
      → Processed mem kaddr insn n froms tos (some (insn.insn_length, mem'))

replaced-Processed :
    (mem : Memory) (kaddr n : ℕ) (insn : Insn) (froms tos : List ℕ) (r : Option (Option ℕ))
    → insn.insn_length ≢ 0
    → insn.opcode ≡ 232
    → insn.immediate_nbytes ≡ 4
    → Found (call_target mem kaddr insn) n froms tos r
    → Processed mem kaddr insn n froms tos (replaced mem kaddr insn r)
replaced-Processed mem kaddr n insn froms tos r l o b (nowhere h) = not_of_interest l o b h
replaced-Processed mem kaddr n insn froms tos r l o b (at i t m f e g z) =
    redirected _ i t l o b m f e g (λ near. call_target-write_u32 mem kaddr t insn near)
      (λ x h. write_u32-outside mem (kaddr + insn.offset_immediate) _ x h)

process_decoded-Processed :
    (mem : Memory) (kaddr n : ℕ) (insn : Insn) (froms tos : List ℕ)
    → n ≤ length froms
    → n ≤ length tos
    → NonNull tos
    → Processed mem kaddr insn n froms tos (process_decoded mem kaddr insn froms tos n)
process_decoded-Processed mem kaddr n insn froms tos h k z =
    elim (Bool-cases (insn.insn_length == 0)) [
      | inl e ↦ simp e (no_insn (ground (arith, e)))
      | inr e ↦ elim (Bool-cases (insn.opcode == 232)) [
        | inr o ↦
            simp (e, o) (no_call (λ q. ground (arith, e, q)) (inl (λ q. ground (arith, o, q))))
        | inl o ↦ elim (Bool-cases (insn.immediate_nbytes == 4)) [
          | inr b ↦
              simp (e, o, b) (no_call (λ q. ground (arith, e, q)) (inr (λ q. ground (arith, b, q))))
          | inl b ↦
              simp (e, o, b)
                (replaced-Processed mem kaddr n insn froms tos _ (λ q. ground (arith, e, q))
                  (ground (arith, o)) (ground (arith, b))
                  (find_replacement-Found n (call_target mem kaddr insn) froms tos h k z))
        ]
      ]
    ]

-- For arrays of at least `nfuncs` functions without a NULL among the replacements, do_process_insn
-- always returns, and changes nothing but the offset of a call of one of the functions, which then
-- goes to the replacement of the first that it is, if that lies within 2 GB.
pub do_process_insn-Processed :
    (decode : Memory → ℕ → Insn) (mem : Memory) (kaddr nfuncs : ℕ) (froms tos : List ℕ)
    → nfuncs ≤ length froms
    → nfuncs ≤ length tos
    → NonNull tos
    → Processed mem kaddr
        (decode mem kaddr)
        nfuncs
        froms
        tos
        (do_process_insn decode mem kaddr (some froms) (some tos) nfuncs)
unfolding do_process_insn
do_process_insn-Processed decode mem kaddr nfuncs froms tos h k z =
    process_decoded-Processed mem kaddr nfuncs (decode mem kaddr) froms tos h k z
