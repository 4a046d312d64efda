-- ===== src/DataMap/Laws.antt =====
-- The table as a finite map: data_map_add, data_map_get and data_map_delete against a search of all
-- that the table holds.
use kedr_aux.Prelude.{
  ℕ, zero, suc, ◌^◌, ◌<◌, true, false, Option, none, some, List, [], ◌∷◌, ◌++◌, ◌==◌, ◌≡◌, ◌≢◌,
  refl, sym, ap, ◌∙◌, arith, get_elem?, if◌then◌else◌, Bool-cases, Option-cases, inl, inr, subst,
}
use kedr_aux.DataMap.Table.{
  Elem, DataMap, success, einval, or_err, set_chain, find, hlist_del, insert, data_map_add,
  data_map_get, unlink, data_map_delete,
}
use kedr_aux.DataMap.WellFormed.{
  WellFormed, InChain, hlist_del-InChain, find-hlist_del, find-InChain, length-set_chain,
  get_elem?-set_chain_self, get_elem?-set_chain_ne, get_elem?-some,
}

pub the_some {ℓ} : {A : Type ℓ} {a b : A} → some a ≡ some b → a ≡ b
the_some q = cc

-- all that a table holds, one chain behind the other
abbrev pub contents : List (List Elem) → List Elem
contents [] = []
contents (c ∷ cs) = c ++ contents cs

-- the abstract map: the data of a key, by a search of the whole table
abbrev pub lookup : DataMap → ℕ → Option ℕ
lookup m k = find k (contents m.hash_table)

abbrev or_else : Option ℕ → Option ℕ → Option ℕ
or_else none o = o
or_else (some x) o = some x

find-append : (k : ℕ) (es fs : List Elem) → find k (es ++ fs) ≡ or_else (find k es) (find k fs)
unfolding find
find-append k [] fs = refl
find-append k (e ∷ es) fs = ground (arith, find-append k es fs)

find-contents-none :
    (k : ℕ) (t : List (List Elem))
    → ((i : ℕ) (b : List Elem) → get_elem? t i ≡ some b → find k b ≡ none)
    → find k (contents t) ≡ none
unfolding find
find-contents-none k [] h = refl
find-contents-none k (c ∷ cs) h =
    find-append k c (contents cs)
    ∙ (λ i. or_else (h 0 c refl i) (find-contents-none k cs (λ j. h (suc j)) i))

find-contents :
    (k h : ℕ) (t : List (List Elem)) (c : List Elem)
    → get_elem? t h ≡ some c
    → ((i : ℕ) (b : List Elem) → get_elem? t i ≡ some b → h ≢ i → find k b ≡ none)
    → find k (contents t) ≡ find k c
find-contents k h [] c e others = cc
find-contents k zero (d ∷ ds) c e others =
    find-append k d (contents ds)
    ∙ (λ i.
        or_else (find k (the_some e i))
          (find-contents-none k ds (λ j b q. others (suc j) b q (λ r. omega (arith, r))) i))
    ∙ or_none (find k c)
  where
    or_none : (o : Option ℕ) → or_else o none ≡ o
    or_none none = refl
    or_none (some x) = refl
find-contents k (suc h) (d ∷ ds) c e others = find-append k d (contents ds) ∙ (λ i.
    or_else (others 0 d refl (λ r. omega (arith, r)) i)
      (find-contents k h ds c e (λ j b q n. others (suc j) b q (λ r. n (omega (arith, r)))) i))

-- what is documented of hash_ptr: an index of the table, unless the table has a single chain
abbrev pub InRange : (ℕ → ℕ → ℕ) → Type 0
InRange hash_ptr = (k bits : ℕ) → 0 < bits → hash_ptr k bits < 2 ^ bits

module _ (hash_ptr : ℕ → ℕ → ℕ) (in_range : InRange hash_ptr) (m : DataMap)
    (wf : WellFormed hash_ptr m) where
  chain_of : (k : ℕ) → (c : List Elem) × (get_elem? m.hash_table (hash_ptr k m.size_bits) ≡ some c)
  chain_of k =
      get_elem?-some m.hash_table (hash_ptr k m.size_bits)
        (omega (arith, in_range k m.size_bits wf.shifted, wf.sized))

  lookup-chain :
      (k : ℕ) (c : List Elem)
      → get_elem? m.hash_table (hash_ptr k m.size_bits) ≡ some c
      → lookup m k ≡ find k c
  lookup-chain k c e =
      find-contents k (hash_ptr k m.size_bits) m.hash_table c e
        (λ i b q n. find-InChain hash_ptr m.size_bits i k b (wf.placed i b q) n)

  -- If hash_ptr stays in its range and the map is well-formed, data_map_get stays in the table and
  -- returns the key's data, or ERR_PTR(-EINVAL) if the table holds no such key.
  pub data_map_get-lookup : (k : ℕ) → data_map_get hash_ptr k m ≡ some (or_err (lookup m k))
  unfolding data_map_get
  data_map_get-lookup k = let (c, e) = chain_of k in rw (e, lookup-chain k c e) refl

  -- a chain replaced by one that belongs there keeps the map well-formed
  replace-WellFormed :
      (i : ℕ) (c b : List Elem)
      → get_elem? m.hash_table i ≡ some c
      → InChain hash_ptr m.size_bits i b
      → WellFormed hash_ptr (record m { hash_table = set_chain m.hash_table i b })
  replace-WellFormed i c b e p = record {
    shifted = wf.shifted;
    sized = length-set_chain m.hash_table i b ∙ wf.sized;
    placed = λ j d q. elim (Bool-cases (i == j)) [
      | inl r ↦
          let same : i ≡ j = ground (arith, r) in
          subst (λ x. InChain hash_ptr m.size_bits j x)
            (the_some (
              sym (get_elem?-set_chain_self m.hash_table i b c e)
              ∙ ap (get_elem? (set_chain m.hash_table i b)) same
              ∙ q))
            (rw (← same) p)
      | inr r ↦
          wf.placed j d
            (sym (get_elem?-set_chain_ne m.hash_table i j b (λ s. ground (arith, r, s))) ∙ q)
    ];
  }

module _ (hash_ptr : ℕ → ℕ → ℕ) (in_range : InRange hash_ptr) (m : DataMap)
    (wf : WellFormed hash_ptr m) where
  -- the map with the chain of `k` replaced
  abbrev replaced : ℕ → List Elem → DataMap
  replaced k b = record m { hash_table = set_chain m.hash_table (hash_ptr k m.size_bits) b }

  lookup-replaced :
      (k k' : ℕ) (c b : List Elem) (v : Option ℕ)
      → get_elem? m.hash_table (hash_ptr k m.size_bits) ≡ some c
      → InChain hash_ptr m.size_bits (hash_ptr k m.size_bits) b
      → find k' b ≡ (if k == k' then v else find k' c)
      → lookup (replaced k b) k' ≡ (if k == k' then v else lookup m k')
  lookup-replaced k k' c b v e p f =
      elim (Bool-cases (hash_ptr k m.size_bits == hash_ptr k' m.size_bits)) [
        | inl r ↦
            let same : hash_ptr k m.size_bits ≡ hash_ptr k' m.size_bits = ground (arith, r) in
            lookup-chain hash_ptr in_range (replaced k b) wf' k' b (
              ap (get_elem? (replaced k b).hash_table) (sym same)
              ∙ get_elem?-set_chain_self m.hash_table (hash_ptr k m.size_bits) b c e)
            ∙ f
            ∙ (λ i.
                if k == k'
                then v
                else sym
                    (lookup-chain hash_ptr in_range m wf k' c
                      (ap (get_elem? m.hash_table) (sym same) ∙ e))
                    i)
        | inr r ↦
            let (c', e') = chain_of hash_ptr in_range m wf k' in
            lookup-chain hash_ptr in_range (replaced k b) wf' k' c' (
              get_elem?-set_chain_ne m.hash_table (hash_ptr k m.size_bits) (hash_ptr k' m.size_bits)
                b (λ s. ground (arith, r, s))
              ∙ e')
            ∙ sym (lookup-chain hash_ptr in_range m wf k' c' e')
            ∙ rw (other r) refl
      ]
    where
      wf' : WellFormed hash_ptr (replaced k b)
      wf' = replace-WellFormed hash_ptr in_range m wf (hash_ptr k m.size_bits) c b e p

      other : (hash_ptr k m.size_bits == hash_ptr k' m.size_bits) ≡ false → (k == k') ≡ false
      other r = elim (Bool-cases (k == k')) [
        | inl q ↦
            let same : k ≡ k' = ground (arith, q) in
            ground (arith, r, ap (λ x. hash_ptr x m.size_bits) same)
        | inr q ↦ q
      ]

  find-cons :
      (k k' d : ℕ) (c : List Elem)
      → find k' (record { key = k; data_ptr = d } ∷ c) ≡ (if k == k' then some d else find k' c)
  unfolding find
  find-cons k k' d c = refl

  -- If hash_ptr stays in its range, the map is well-formed and it lacks the key, a data_map_add
  -- whose allocation succeeds returns 0 and leaves a well-formed map that has the key with its
  -- data, and every other key as before.
  pub data_map_add-lookup :
      (k d : ℕ)
      → lookup m k ≡ none
      → (m' : DataMap) × (data_map_add hash_ptr true k d m ≡ some (success, m'))
        × WellFormed hash_ptr m'
        × ((k' : ℕ) → lookup m' k' ≡ (if k == k' then some d else lookup m k'))
  unfolding data_map_add insert
  data_map_add-lookup k d h =
      let (c, e) = chain_of hash_ptr in_range m wf k in
      let q : find k c ≡ none = sym (lookup-chain hash_ptr in_range m wf k c e) ∙ h in
      let b : List Elem = record { key = k; data_ptr = d } ∷ c in
      let p : InChain hash_ptr m.size_bits (hash_ptr k m.size_bits) b =
        (refl, q, wf.placed (hash_ptr k m.size_bits) c e) in
      (
        replaced k b,
        rw (e, q) refl,
        replace-WellFormed hash_ptr in_range m wf (hash_ptr k m.size_bits) c b e p,
        λ k'. lookup-replaced k k' c b (some d) e p (find-cons k k' d c),
      )

  -- If hash_ptr stays in its range, the map is well-formed and it has the key, a data_map_add whose
  -- allocation succeeds returns -EINVAL and changes nothing.
  pub data_map_add-twice :
      (k d x : ℕ) → lookup m k ≡ some x → data_map_add hash_ptr true k d m ≡ some (einval, m)
  unfolding data_map_add insert
  data_map_add-twice k d x h =
      let (c, e) = chain_of hash_ptr in_range m wf k in
      rw (e, sym (lookup-chain hash_ptr in_range m wf k c e) ∙ h) refl

  -- the result of data_map_delete, and the map behind it
  abbrev pub Deleted : ℕ → Type 0
  Deleted k =
      (m' : DataMap) × (data_map_delete hash_ptr k m ≡ some (or_err (lookup m k), m'))
      × WellFormed hash_ptr m'
      × ((k' : ℕ) → lookup m' k' ≡ (if k == k' then none else lookup m k'))

  -- If hash_ptr stays in its range and the map is well-formed, data_map_delete returns the key's
  -- data, or ERR_PTR(-EINVAL) if there is no such key, and leaves a well-formed map that lacks the
  -- key and has every other key as before.
  pub data_map_delete-lookup : (k : ℕ) → Deleted k
  unfolding data_map_delete unlink
  data_map_delete-lookup k =
      let (c, e) = chain_of hash_ptr in_range m wf k in
      let l : lookup m k ≡ find k c = lookup-chain hash_ptr in_range m wf k c e in
      let b : List Elem = hlist_del k c in
      let p : InChain hash_ptr m.size_bits (hash_ptr k m.size_bits) b =
        hlist_del-InChain hash_ptr m.size_bits (hash_ptr k m.size_bits) k c
          (wf.placed (hash_ptr k m.size_bits) c e) in
      elim (Option-cases (find k c)) [
        | inl q ↦ (m, rw (e, l, q) refl, wf, λ k'. absent k k' (l ∙ q))
        | inr (x, q) ↦ (
          replaced k b,
          rw (e, l, q) refl,
          replace-WellFormed hash_ptr in_range m wf (hash_ptr k m.size_bits) c b e p,
          λ k'. lookup-replaced k k' c b none e p (
              find-hlist_del hash_ptr m.size_bits (hash_ptr k m.size_bits) k k' c
                (wf.placed (hash_ptr k m.size_bits) c e)),
        )
      ]
    where
      absent :
          (k k' : ℕ) → lookup m k ≡ none → lookup m k' ≡ (if k == k' then none else lookup m k')
      absent k k' h = elim (Bool-cases (k == k')) [
        | inl q ↦ let same : k ≡ k' = ground (arith, q) in rw (q, ← same) h
        | inr q ↦ rw q refl
      ]
