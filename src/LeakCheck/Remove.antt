-- ===== src/LeakCheck/Remove.antt =====
-- What klc_find_and_remove_alloc returns and leaves.
use kedr_aux.Prelude.{
  ℕ, ◌+◌, ◌%◌, ◌^◌, Bool, true, false, ◌||◌, List, [], ◌∷◌, ◌==◌, ◌≡◌, refl, ap, ◌∙◌, arith, length,
  if◌then◌else◌, Bool-cases, inl, inr,
}
use kedr_aux.LeakCheck.Storage.{
  MemblockInfo, Storage, decremented, remove_from, klc_find_and_remove_alloc,
}

-- whether an allocation of the block is stored
abbrev pub stored : ℕ → List MemblockInfo → Bool
stored block [] = false
stored block (m ∷ ms) = (m.block == block) || stored block ms

-- the others, in their order
abbrev pub others : ℕ → List MemblockInfo → List MemblockInfo
others block [] = []
others block (m ∷ ms) = if m.block == block then others block ms else m ∷ others block ms

remove_from-ret :
    (block : ℕ) (ms : List MemblockInfo) (ret : Bool) (leaks : ℕ)
    → (remove_from block ms ret leaks).0 ≡ (ret || stored block ms)
unfolding remove_from
remove_from-ret block [] ret leaks = ground arith
remove_from-ret block (m ∷ ms) ret leaks = elim (Bool-cases (m.block == block)) [
  | inl e ↦ rw (e, remove_from-ret block ms true (decremented leaks)) (ground arith)
  | inr e ↦ rw (e, remove_from-ret block ms ret leaks) refl
]

remove_from-others :
    (block : ℕ) (ms : List MemblockInfo) (ret : Bool) (leaks : ℕ)
    → (remove_from block ms ret leaks).1 ≡ others block ms
unfolding remove_from
remove_from-others block [] ret leaks = refl
remove_from-others block (m ∷ ms) ret leaks = elim (Bool-cases (m.block == block)) [
  | inl e ↦ rw e (remove_from-others block ms true (decremented leaks))
  | inr e ↦ rw e (ap (λ t. m ∷ t) (remove_from-others block ms ret leaks))
]

-- the count follows the list
remove_from-leaks :
    (block n : ℕ) (ms : List MemblockInfo) (ret : Bool) (leaks : ℕ)
    → leaks ≡ (n + length ms) % 2 ^ 64
    → (remove_from block ms ret leaks).2 ≡ (n + length (others block ms)) % 2 ^ 64
unfolding remove_from
remove_from-leaks block n [] ret leaks h = h
remove_from-leaks block n (m ∷ ms) ret leaks h = elim (Bool-cases (m.block == block)) [
  | inl e ↦ rw e (remove_from-leaks block n ms true (decremented leaks) (omega (arith, h)))
  | inr e ↦ rw e (remove_from-leaks block (n + 1) ms ret leaks (omega (arith, h)) ∙ omega arith)
]

-- klc_find_and_remove_alloc returns whether an allocation of the block is stored, removes all of
-- them and keeps the others in their order; if total_leaks was the number of allocations stored,
-- modulo 2^64, it is so again.
pub klc_find_and_remove_alloc-others :
    (block : ℕ) (s : Storage)
    → s.total_leaks ≡ length s.alloc_list % 2 ^ 64
    → klc_find_and_remove_alloc block s ≡ (
      stored block s.alloc_list,
      record s {
        alloc_list = others block s.alloc_list;
        total_leaks = length (others block s.alloc_list) % 2 ^ 64;
      },
    )
unfolding klc_find_and_remove_alloc
klc_find_and_remove_alloc-others block s h = λ i. (
  remove_from-ret block s.alloc_list false s.total_leaks i,
  record s {
    alloc_list = remove_from-others block s.alloc_list false s.total_leaks i;
    total_leaks = leaks i;
  },
)
  where
    leaks :
        (remove_from block s.alloc_list false s.total_leaks).2
        ≡ length (others block s.alloc_list) % 2 ^ 64
    leaks =
        remove_from-leaks block 0 s.alloc_list false s.total_leaks (omega (arith, h)) ∙ omega arith

pub stored-others : (block : ℕ) (ms : List MemblockInfo) → stored block (others block ms) ≡ false
stored-others block [] = refl
stored-others block (m ∷ ms) = elim (Bool-cases (m.block == block)) [
  | inl e ↦ rw e (stored-others block ms)
  | inr e ↦ rw (e, e) (stored-others block ms)
]

pub others-absent :
    (block : ℕ) (ms : List MemblockInfo) → stored block ms ≡ false → others block ms ≡ ms
others-absent block [] h = refl
others-absent block (m ∷ ms) h = elim (Bool-cases (m.block == block)) [
  | inl e ↦ ground (arith, e, h)
  | inr e ↦ rw e (ap (λ t. m ∷ t) (others-absent block ms (rw e at h)))
]
