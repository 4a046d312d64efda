-- ===== src/Control/Skips.antt =====
-- Where the instruction after another one begins.
use kedr_aux.Prelude.{
  ℕ, zero, suc, ◌+◌, ◌-◌, ◌≤◌, ◌<◌, true, false, ◌≡◌, ◌≢◌, ◌⊎◌, refl, sym, ap, ◌∙◌, arith, ◌==◌,
  Bool-cases, inl, inr,
}
use kedr_aux.Control.{Memory, all_zero, skip_zeros, next_pos}
use kedr_aux.Control.Area.{skip_zeros-le}

-- The instruction of `len` bytes at `p` is followed by one at `p'`: right behind it, or, if its bytes are
-- all zero, where the zero bytes behind it end, at `kend` at the latest.
pub data Next (kend : ℕ) (mem : Memory) (p len : ℕ) : ℕ → Type 0 where
  adjacent : (i : ℕ) → i < len → mem (p + i) ≢ 0 → Next kend mem p len (p + len)
  behind_zeros :
      (p' : ℕ)
      → ((i : ℕ) → i < len → mem (p + i) ≡ 0)
      → p + len ≤ p'
      → p' ≤ kend
      → ((x : ℕ) → p + len ≤ x → x < p' → mem x ≡ 0)
      → (p' ≡ kend) ⊎ (mem p' ≢ 0)
      → Next kend mem p len p'

pub Next-le : {kend : ℕ} {mem : Memory} {p len p' : ℕ} → Next kend mem p len p' → p + len ≤ p'
Next-le (adjacent i h n) = omega arith
Next-le (behind_zeros p' z h k b e) = h

all_zero-true :
    (len : ℕ) (mem : Memory) (p i : ℕ) → all_zero len mem p ≡ true → i < len → mem (p + i) ≡ 0
unfolding all_zero
all_zero-true zero mem p i h k = absurd (omega (arith, k))
all_zero-true (suc len) mem p zero h k = elim (Bool-cases (mem p == 0)) [
  | inl e ↦ let q : p + 0 ≡ p = omega arith in ap mem q ∙ ground (arith, e)
  | inr e ↦ absurd (ground (arith, e, h))
]
all_zero-true (suc len) mem p (suc i) h k = elim (Bool-cases (mem p == 0)) [
  | inl e ↦
      let q : p + suc i ≡ p + 1 + i = omega arith in
      ap mem q ∙ all_zero-true len mem (p + 1) i (ground (arith, e, h)) (omega (arith, k))
  | inr e ↦ absurd (ground (arith, e, h))
]

all_zero-false :
    (len : ℕ) (mem : Memory) (p : ℕ)
    → all_zero len mem p ≡ false
    → (i : ℕ) × (i < len) × (mem (p + i) ≢ 0)
unfolding all_zero
all_zero-false zero mem p h = absurd cc
all_zero-false (suc len) mem p h = elim (Bool-cases (mem p == 0)) [
  | inl e ↦
      let (i, k, n) = all_zero-false len mem (p + 1) (ground (arith, e, h)) in
      let q : p + 1 + i ≡ p + suc i = omega arith in
      (suc i, omega (arith, k), λ z. n (ap mem q ∙ z))
  | inr e ↦
      let q : p ≡ p + 0 = omega arith in (0, omega arith, λ z. ground (arith, e, ap mem q ∙ z))
]

skip_zeros-zero :
    (left : ℕ) (mem : Memory) (p x : ℕ) → p ≤ x → x < skip_zeros left mem p → mem x ≡ 0
unfolding skip_zeros
skip_zeros-zero zero mem p x h k = absurd (omega (arith, h, k))
skip_zeros-zero (suc left) mem p x h k = elim (Bool-cases (mem p == 0)) [
  | inr e ↦ absurd (ground (arith, e, h, k))
  | inl e ↦ elim (Bool-cases (x == p)) [
    | inl f ↦ let q : x ≡ p = ground (arith, f) in ap mem q ∙ ground (arith, e)
    | inr f ↦ skip_zeros-zero left mem (p + 1) x (ground (arith, f, h)) (ground (arith, e, k))
  ]
]

skip_zeros-stops :
    (left : ℕ) (mem : Memory) (p : ℕ)
    → (skip_zeros left mem p ≤ p + left)
      × ((skip_zeros left mem p ≡ p + left) ⊎ (mem (skip_zeros left mem p) ≢ 0))
unfolding skip_zeros
skip_zeros-stops zero mem p = (omega arith, inl (omega arith))
skip_zeros-stops (suc left) mem p = elim (Bool-cases (mem p == 0)) [
  | inl e ↦
      let (a, b) = skip_zeros-stops left mem (p + 1) in
      simp e (omega (arith, a), elim b [ inl q ↦ inl (omega (arith, q)) | inr n ↦ inr n ])
  | inr e ↦ simp e (omega arith, inr (λ z. ground (arith, e, z)))
]

-- where zero bytes end is determined
skip_zeros-eq :
    (left : ℕ) (mem : Memory) (p p' : ℕ)
    → p ≤ p'
    → p' ≤ p + left
    → ((x : ℕ) → p ≤ x → x < p' → mem x ≡ 0)
    → (p' ≡ p + left) ⊎ (mem p' ≢ 0)
    → skip_zeros left mem p ≡ p'
unfolding skip_zeros
skip_zeros-eq zero mem p p' h k b e = omega (arith, h, k)
skip_zeros-eq (suc left) mem p p' h k b e = elim (Bool-cases (p == p')) [
  | inl f ↦
      let q : p ≡ p' = ground (arith, f) in
      elim e [
        | inl g ↦ absurd (omega (arith, g, q))
        | inr n ↦ let d : (mem p == 0) ≡ false = ground (arith, n, ap mem q) in simp d q
      ]
  | inr f ↦
      let l : p < p' = ground (arith, f, h) in
      let d : (mem p == 0) ≡ true = ground (arith, b p (omega arith) l) in
      simp d (
        skip_zeros-eq left mem (p + 1) p' (omega (arith, l)) (omega (arith, k))
          (λ x i j. b x (omega (arith, i)) j)
          (elim e [ inl g ↦ inl (omega (arith, g)) | inr n ↦ inr n ]))
]

pub next_pos-Next :
    (kend : ℕ) (mem : Memory) (p len : ℕ)
    → p + len ≤ kend
    → Next kend mem p len (next_pos kend mem p len)
unfolding next_pos
next_pos-Next kend mem p len h = elim (Bool-cases (all_zero len mem p)) [
  | inl e ↦
      let (k, t) = skip_zeros-stops (kend - (p + len)) mem (p + len) in
      simp e (
        behind_zeros _ (λ i l. all_zero-true len mem p i e l)
          (skip_zeros-le (kend - (p + len)) mem (p + len)) (omega (arith, h, k))
          (λ x l m. skip_zeros-zero (kend - (p + len)) mem (p + len) x l m)
          (elim t [ inl q ↦ inl (omega (arith, q, h)) | inr n ↦ inr n ]))
  | inr e ↦ let (i, l, n) = all_zero-false len mem p e in simp e (adjacent i l n)
]

pub Next-next_pos :
    (kend : ℕ) (mem : Memory) (p len p' : ℕ) → Next kend mem p len p' → p' ≡ next_pos kend mem p len
unfolding next_pos
Next-next_pos kend mem p len p' (adjacent i h n) = elim (Bool-cases (all_zero len mem p)) [
  | inl e ↦ absurd (n (all_zero-true len mem p i e h))
  | inr e ↦ simp e refl
]
Next-next_pos kend mem p len p' (behind_zeros q z h k b s) =
    elim (Bool-cases (all_zero len mem p)) [
      | inl e ↦ simp e (
          sym (
            skip_zeros-eq (kend - (p + len)) mem (p + len) q h (omega (arith, h, k)) b
              (elim s [ inl t ↦ inl (omega (arith, t, h)) | inr n ↦ inr n ])))
      | inr e ↦ let (i, l, n) = all_zero-false len mem p e in absurd (n (z i l))
    ]
