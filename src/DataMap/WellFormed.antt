-- ===== src/DataMap/WellFormed.antt =====
-- The invariant of a map, and what one chain does.
use kedr_aux.Prelude.{
  ℕ, zero, suc, ◌^◌, ◌<◌, none, some, List, [], ◌∷◌, ◌==◌, ◌≡◌, ◌≢◌, refl, ap, arith, length,
  get_elem?, if◌then◌else◌, Bool-cases, inl, inr,
}
use kedr_aux.DataMap.Table.{Elem, DataMap, set_chain, find, hlist_del}

find-hlist_del-none : (a b : ℕ) (es : List Elem) → find a es ≡ none → find a (hlist_del b es) ≡ none
unfolding find hlist_del
find-hlist_del-none a b [] h = refl
find-hlist_del-none a b (e ∷ es) h = ground (arith, find-hlist_del-none a b es)

module _ (hash_ptr : ℕ → ℕ → ℕ) where
  -- Each key of a chain hashes to the chain's index, and stands there once.
  abbrev pub InChain : ℕ → ℕ → List Elem → Type 0
  InChain bits i [] = Unit
  InChain bits i (e ∷ es) = (hash_ptr e.key bits ≡ i) × (find e.key es ≡ none) × InChain bits i es

  pub record WellFormed (m : DataMap) : Type 0 where
    pub shifted : 0 < m.size_bits
    pub sized : length m.hash_table ≡ 2 ^ m.size_bits
    pub placed :
        (i : ℕ) (chain : List Elem)
        → get_elem? m.hash_table i ≡ some chain
        → InChain m.size_bits i chain

  pub hlist_del-InChain :
      (bits i k : ℕ) (es : List Elem) → InChain bits i es → InChain bits i (hlist_del k es)
  unfolding hlist_del
  hlist_del-InChain bits i k [] c = tt
  hlist_del-InChain bits i k (e ∷ es) c = elim (Bool-cases (e.key == k)) [
    | inl q ↦ rw q c.2
    | inr q ↦ rw q (c.0, find-hlist_del-none e.key k es c.1, hlist_del-InChain bits i k es c.2)
  ]

  pub find-hlist_del :
      (bits i k k' : ℕ) (es : List Elem)
      → InChain bits i es
      → find k' (hlist_del k es) ≡ (if k == k' then none else find k' es)
  unfolding find hlist_del
  find-hlist_del bits i k k' [] c = ground arith
  find-hlist_del bits i k k' (e ∷ es) c = ground (arith, find-hlist_del bits i k k' es c.2, c.1)

  -- a key that hashes elsewhere is not in the chain
  pub find-InChain :
      (bits i k : ℕ) (es : List Elem) → InChain bits i es → hash_ptr k bits ≢ i → find k es ≡ none
  unfolding find
  find-InChain bits i k [] c h = refl
  find-InChain bits i k (e ∷ es) c h = ground (arith, find-InChain bits i k es c.2 h, c.0, h)

pub length-set_chain :
    (t : List (List Elem)) (i : ℕ) (b : List Elem) → length (set_chain t i b) ≡ length t
unfolding set_chain
length-set_chain [] i b = refl
length-set_chain (c ∷ cs) zero b = refl
length-set_chain (c ∷ cs) (suc i) b = ap suc (length-set_chain cs i b)

pub get_elem?-set_chain_self :
    (t : List (List Elem)) (i : ℕ) (b c : List Elem)
    → get_elem? t i ≡ some c
    → get_elem? (set_chain t i b) i ≡ some b
unfolding set_chain
get_elem?-set_chain_self [] i b c h = cc
get_elem?-set_chain_self (d ∷ ds) zero b c h = refl
get_elem?-set_chain_self (d ∷ ds) (suc i) b c h = get_elem?-set_chain_self ds i b c h

pub get_elem?-set_chain_ne :
    (t : List (List Elem)) (i j : ℕ) (b : List Elem)
    → i ≢ j
    → get_elem? (set_chain t i b) j ≡ get_elem? t j
unfolding set_chain
get_elem?-set_chain_ne [] i j b h = refl
get_elem?-set_chain_ne (d ∷ ds) zero zero b h = absurd (h refl)
get_elem?-set_chain_ne (d ∷ ds) zero (suc j) b h = refl
get_elem?-set_chain_ne (d ∷ ds) (suc i) zero b h = refl
get_elem?-set_chain_ne (d ∷ ds) (suc i) (suc j) b h =
    get_elem?-set_chain_ne ds i j b (λ q. h (ap suc q))

pub get_elem?-some :
    (t : List (List Elem)) (i : ℕ) → i < length t → (c : List Elem) × (get_elem? t i ≡ some c)
get_elem?-some [] i h = absurd (omega arith)
get_elem?-some (c ∷ cs) zero h = (c, refl)
get_elem?-some (c ∷ cs) (suc i) h = get_elem?-some cs i (omega arith)
