-- ===== src/DataMap/Drain.antt =====
-- Making a map and emptying it: data_map_create, data_map_delete_all and data_map_destroy.
use Prim.Native.Nat.pow
use kedr_aux.Prelude.{
  ℕ, zero, suc, ◌+◌, ◌*◌, ◌/◌, ◌^◌, ◌<◌, ◌≤◌, Bool, true, false, ◌||◌, none, some, List, [], ◌∷◌,
  ◌++◌, ◌==◌, ◌≡◌, refl, sym, ap, ◌∙◌, arith, length, get_elem?, if◌then◌else◌, Bool-cases, inl,
  inr, append_assoc, length-append,
}
use kedr_aux.DataMap.Table.{
  Elem, DataMap, ◌>>=◌, hash_size, shifts, empty_chains, data_map_create, set_chain, find,
  free_chain, delete_from, data_map_delete_all, is_nonempty, destroy_from, data_map_destroy,
}
use kedr_aux.DataMap.WellFormed.{WellFormed}
use kedr_aux.DataMap.Laws.{contents, lookup, the_some}

pow_suc : (n : ℕ) → 2 ^ (n + 1) ≡ 2 ^ n * 2
pow_suc n = (λ i. 2 ^ (add_one i)) ∙ pow.suc 2 n
  where
    add_one : n + 1 ≡ suc n
    add_one = omega arith

lt_pow-shifts : (f n : ℕ) → n < 2 ^ f → n < 2 ^ shifts f n
unfolding shifts
lt_pow-shifts zero n h = h
lt_pow-shifts (suc f) n h = elim (Bool-cases (n == 0)) [
  | inl q ↦ rw q (ground (arith, q))
  | inr q ↦ rw q (
      omega (
        arith,
        pow_suc (shifts f (n / 2)),
        pow_suc f,
        h,
        lt_pow-shifts f (n / 2) (omega (arith, pow_suc f, h)),
      ))
]

length-empty_chains : (n : ℕ) → length (empty_chains n) ≡ n
unfolding empty_chains
length-empty_chains zero = refl
length-empty_chains (suc n) = ap suc (length-empty_chains n)

get_elem?-empty_chains : (n i : ℕ) (c : List Elem) → get_elem? (empty_chains n) i ≡ some c → c ≡ []
unfolding empty_chains
get_elem?-empty_chains zero i c h = cc
get_elem?-empty_chains (suc n) zero c h = cc
get_elem?-empty_chains (suc n) (suc i) c h = get_elem?-empty_chains n i c h

contents-empty_chains : (n : ℕ) → contents (empty_chains n) ≡ []
unfolding empty_chains
contents-empty_chains zero = refl
contents-empty_chains (suc n) = contents-empty_chains n

-- A map that data_map_create returns, whatever hash_ptr is, is well-formed and holds no key.
pub data_map_create-WellFormed :
    (hash_ptr : ℕ → ℕ → ℕ) (allocated allocated' : Bool) (elem_number : ℕ) (m : DataMap)
    → data_map_create allocated allocated' elem_number ≡ some m
    → WellFormed hash_ptr m × ((k : ℕ) → lookup m k ≡ none)
unfolding data_map_create find
data_map_create-WellFormed hash_ptr true true elem_number m h = rw (← the_some h) (
  record {
    shifted = ground arith;
    sized = length-empty_chains (2 ^ bits);
    placed = λ i c q. rw (get_elem?-empty_chains (2 ^ bits) i c q) tt;
  },
  λ k. rw (contents-empty_chains (2 ^ bits)) refl,
)
  where
    bits : ℕ
    bits = if shifts 64 (hash_size elem_number) == 0 then 1 else shifts 64 (hash_size elem_number)
data_map_create-WellFormed hash_ptr true false elem_number m h = cc
data_map_create-WellFormed hash_ptr false allocated' elem_number m h = cc

hash_size-lt : (n : ℕ) → hash_size n < 2 ^ 64
unfolding hash_size
hash_size-lt n = omega arith

load_bound : (n p : ℕ) → 0 < n → n * 10 < 2 ^ 64 → hash_size n < p → n * 10 ≤ p * 7
unfolding hash_size
load_bound n p lo hi h = omega arith

-- If 0 < elem_number and elem_number * 10 fits a size_t, the elements expected are at most 70% of
-- the chains of the map that data_map_create returns.
pub data_map_create-load :
    (allocated allocated' : Bool) (elem_number : ℕ) (m : DataMap)
    → 0 < elem_number
    → elem_number * 10 < 2 ^ 64
    → data_map_create allocated allocated' elem_number ≡ some m
    → elem_number * 10 ≤ length m.hash_table * 7
unfolding data_map_create hash_size
data_map_create-load true true elem_number m lo hi h =
    rw
      (
        ← the_some h,
        length-empty_chains (
            2
            ^ (if shifts 64 (hash_size elem_number) == 0
                then 1
                else shifts 64 (hash_size elem_number))),
      )
      (elim (Bool-cases (shifts 64 (hash_size elem_number) == 0)) [
        | inl q ↦
            let zero_bits : shifts 64 (hash_size elem_number) ≡ 0 = ground (arith, q) in
            rw q (omega (arith, h', ap (λ b. 2 ^ b) zero_bits))
        | inr q ↦ rw q h'
      ])
  where
    h' : elem_number * 10 ≤ 2 ^ shifts 64 (hash_size elem_number) * 7
    h' =
        load_bound elem_number (2 ^ shifts 64 (hash_size elem_number)) lo hi
          (lt_pow-shifts 64 (hash_size elem_number) (hash_size-lt elem_number))
data_map_create-load true false elem_number m lo hi h = cc
data_map_create-load false allocated' elem_number m lo hi h = cc

append_one : (xs ys : List (List Elem)) (c : List Elem) → xs ++ (c ∷ ys) ≡ (xs ++ (c ∷ [])) ++ ys
append_one xs ys c = sym (append_assoc xs (c ∷ []) ys)

get_elem?-append :
    (xs ys : List (List Elem)) (c : List Elem) → get_elem? (xs ++ (c ∷ ys)) (length xs) ≡ some c
get_elem?-append [] ys c = refl
get_elem?-append (x ∷ xs) ys c = get_elem?-append xs ys c

set_chain-append :
    (xs ys : List (List Elem)) (c b : List Elem)
    → set_chain (xs ++ (c ∷ ys)) (length xs) b ≡ (xs ++ (b ∷ [])) ++ ys
unfolding set_chain
set_chain-append [] ys c b = refl
set_chain-append (x ∷ xs) ys c b = ap (λ t. x ∷ t) (set_chain-append xs ys c b)

length-append_one :
    (xs : List (List Elem)) (b : List Elem) → length xs + 1 ≡ length (xs ++ (b ∷ []))
length-append_one xs b = omega (arith, length-append xs (b ∷ []))

free_chain-append :
    (free_data : Bool) (es fs : List Elem)
    → free_chain free_data es ++ free_chain free_data fs ≡ free_chain free_data (es ++ fs)
unfolding free_chain
free_chain-append free_data [] fs = refl
free_chain-append true (e ∷ es) fs = ap (λ t. e ∷ t) (free_chain-append true es fs)
free_chain-append false (e ∷ es) fs = free_chain-append false es fs

-- the for loop behind the chains `xs`, which it has emptied
delete_from-append :
    (free_data : Bool) (xs ys : List (List Elem))
    → delete_from (length ys) free_data (length xs) (xs ++ ys)
      ≡ some (free_chain free_data (contents ys), xs ++ empty_chains (length ys))
unfolding delete_from empty_chains free_chain
delete_from-append free_data xs [] = refl
delete_from-append free_data xs (c ∷ cs) =
    rw
      (
        get_elem?-append xs cs c,
        set_chain-append xs cs c [],
        length-append_one xs [],
        delete_from-append free_data (xs ++ ([] ∷ [])) cs,
      )
      (λ i. some (
        free_chain-append free_data c (contents cs) i,
        append_assoc xs ([] ∷ []) (empty_chains (length cs)) i,
      ))

or-is_nonempty :
    (w : Bool) (es fs : List Elem)
    → ((w || is_nonempty es) || is_nonempty fs) ≡ (w || is_nonempty (es ++ fs))
or-is_nonempty true es fs = refl
or-is_nonempty false [] fs = refl
or-is_nonempty false (e ∷ es) fs = refl

or_false : (w : Bool) → w ≡ (w || false)
or_false true = refl
or_false false = refl

destroy_from-append :
    (w : Bool) (xs ys : List (List Elem))
    → destroy_from (length ys) (length xs) w (xs ++ ys) ≡ some (w || is_nonempty (contents ys))
unfolding destroy_from
destroy_from-append w xs [] = ap some (or_false w)
destroy_from-append w xs (c ∷ cs) =
    rw (get_elem?-append xs cs c, set_chain-append xs cs c [], length-append_one xs [])
      (destroy_from-append (w || is_nonempty c) (xs ++ ([] ∷ [])) cs
        ∙ ap some (or-is_nonempty w c (contents cs)))

free_chain_lem :
    (free_data : Bool) (es : List Elem) → free_chain free_data es ≡ (if free_data then es else [])
unfolding free_chain
free_chain_lem true [] = refl
free_chain_lem false [] = refl
free_chain_lem true (e ∷ es) = ap (λ t. e ∷ t) (free_chain_lem true es)
free_chain_lem false (e ∷ es) = free_chain_lem false es

module _ (hash_ptr : ℕ → ℕ → ℕ) (m : DataMap) (wf : WellFormed hash_ptr m) where
  -- On a well-formed map data_map_delete_all stays in the table, calls free_data, if it is not
  -- NULL, once for each element, chain by chain, and leaves a table of the same size that holds
  -- nothing.
  pub data_map_delete_all-contents :
      (free_data : Bool)
      → data_map_delete_all free_data m
        ≡ some (
          (if free_data then contents m.hash_table else []),
          record m { hash_table = empty_chains (2 ^ m.size_bits) },
        )
  unfolding data_map_delete_all
  data_map_delete_all-contents free_data =
      ap (λ o. o >>= λ d. some (d.0, record m { hash_table = d.1 }))
        ((λ i. delete_from (sym wf.sized i) free_data 0 m.hash_table)
          ∙ delete_from-append free_data [] m.hash_table
          ∙ (λ i.
              some (free_chain_lem free_data (contents m.hash_table) i, empty_chains (wf.sized i))))

  -- On a well-formed map data_map_destroy stays in the table, and it warns exactly if an element is
  -- left.
  pub data_map_destroy-contents : data_map_destroy m ≡ some (is_nonempty (contents m.hash_table))
  unfolding data_map_destroy
  data_map_destroy-contents =
      (λ i. destroy_from (sym wf.sized i) 0 false m.hash_table)
      ∙ destroy_from-append false [] m.hash_table
