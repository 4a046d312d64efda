-- ===== src/Base/Concat.antt =====
-- The combined table is the concatenation of the payloads' tables.
use Prim.Native.Nat.add
use kedr_aux.Prelude.{
  ℕ, zero, suc, ◌+◌, ◌%◌, ◌^◌, ◌<◌, true, some, List, [], ◌∷◌, ◌++◌, length, length-append,
  get_elem?, ◌≡◌, refl, sym, ap, ◌∙◌, arith, append-nil, append_assoc,
}
use kedr_aux.Base.Table.{
  Payload, ◌>>=◌, write, zeros, Filling, copy_entries, copy_tables, total_addrs, create_repl_table,
}

-- The tables of a list of payloads, one behind the other.
pub data Tables : List Payload → List ℕ → List ℕ → Type 0 where
  no_tables : Tables [] [] []
  and_table :
      {p : Payload} {ps : List Payload} {origs repls : List ℕ} (os rs : List ℕ)
      → p.repl_table.orig_addrs ≡ some os
      → p.repl_table.repl_addrs ≡ some rs
      → length os ≡ p.repl_table.num_addrs
      → length rs ≡ p.repl_table.num_addrs
      → Tables ps origs repls
      → Tables (p ∷ ps) (os ++ origs) (rs ++ repls)

write-append :
    (xs zs : List ℕ) (z v : ℕ) → write (xs ++ (z ∷ zs)) (length xs) v ≡ some (xs ++ (v ∷ zs))
unfolding write
write-append [] zs z v = refl
write-append (x ∷ xs) zs z v = rw (write-append xs zs z v)

get-append : (xs ys : List ℕ) (y : ℕ) → get_elem? (xs ++ (y ∷ ys)) (length xs) ≡ some y
get-append [] ys y = refl
get-append (x ∷ xs) ys y = get-append xs ys y

snoc : (xs ys : List ℕ) (y : ℕ) → xs ++ (y ∷ ys) ≡ (xs ++ (y ∷ [])) ++ ys
snoc xs ys y = sym (append_assoc xs (y ∷ []) ys)

length-snoc : (xs : List ℕ) (y : ℕ) → length (xs ++ (y ∷ [])) ≡ length xs + 1
length-snoc xs y = length-append xs (y ∷ [])

zeros-add : (m n : ℕ) → zeros (m + n) ≡ zeros m ++ zeros n
unfolding zeros
zeros-add zero n = ap zeros (add.zero n)
zeros-add (suc m) n = ap zeros (add.suc m n) ∙ ap (λ l. 0 ∷ l) (zeros-add m n)

length-zeros : (n : ℕ) → length (zeros n) ≡ n
unfolding zeros
length-zeros zero = refl
length-zeros (suc n) = ap suc (length-zeros n)

-- The arrays with `os` and `rs` written in front of `to` and `tr`.
abbrev filled : List ℕ → List ℕ → List ℕ → List ℕ → Filling
filled os rs to tr = record { orig = os ++ to; repl = rs ++ tr; next = length os }

-- Copying the rest `ts` and `us` of a table, over `zo` and `zr`.
copy_entries-append :
    (o1 r1 os rs ts us zo zr to tr : List ℕ)
    → length o1 ≡ length r1
    → length os ≡ length rs
    → length us ≡ length ts
    → length zo ≡ length ts
    → length zr ≡ length ts
    → copy_entries
        (length ts)
        (length o1)
        (o1 ++ ts)
        (r1 ++ us)
        (filled os rs (zo ++ to) (zr ++ tr))
      ≡ some (filled (os ++ ts) (rs ++ us) to tr)
unfolding copy_entries
copy_entries-append o1 r1 os rs [] [] [] [] to tr e1 e2 e3 e4 e5 =
    rw (append-nil os, append-nil rs) refl
copy_entries-append o1 r1 os rs (t ∷ ts) (u ∷ us) (y ∷ zo) (z ∷ zr) to tr e1 e2 e3 e4 e5 =
    rw (got, wrote, got', wrote')
      ((λ i.
          copy_entries (length ts) (sym (length-snoc o1 t) i) (snoc o1 ts t i) (snoc r1 us u i)
            (record {
              orig = snoc os (zo ++ to) t i;
              repl = snoc rs (zr ++ tr) u i;
              next = sym (length-snoc os t) i;
            }))
        ∙ copy_entries-append (o1 ++ (t ∷ [])) (r1 ++ (u ∷ [])) (os ++ (t ∷ [])) (rs ++ (u ∷ [])) ts
            us zo zr to tr (omega (arith, length-snoc o1 t, length-snoc r1 u))
            (omega (arith, length-snoc os t, length-snoc rs u)) (omega arith) (omega arith)
            (omega arith)
        ∙ (λ i. some (filled (sym (snoc os ts t) i) (sym (snoc rs us u) i) to tr)))
  where
    got : get_elem? (o1 ++ (t ∷ ts)) (length o1) ≡ some t
    got = get-append o1 ts t

    got' : get_elem? (r1 ++ (u ∷ us)) (length o1) ≡ some u
    got' = rw e1 (get-append r1 us u)

    wrote : write (os ++ (y ∷ (zo ++ to))) (length os) t ≡ some (os ++ (t ∷ (zo ++ to)))
    wrote = write-append os (zo ++ to) y t

    wrote' : write (rs ++ (z ∷ (zr ++ tr))) (length os) u ≡ some (rs ++ (u ∷ (zr ++ tr)))
    wrote' = rw e2 (write-append rs (zr ++ tr) z u)
copy_entries-append _ _ _ _ _ _ _ _ _ _ e1 e2 e3 e4 e5 = absurd (omega arith)

-- Copying the tables of payloads behind what stands in the arrays.
copy_tables-append :
    {ps : List Payload} {origs repls : List ℕ} (os rs : List ℕ)
    → Tables ps origs repls
    → length os ≡ length rs
    → copy_tables ps (filled os rs (zeros (length origs)) (zeros (length origs)))
      ≡ some (filled (os ++ origs) (rs ++ repls) [] [])
unfolding copy_tables zeros
copy_tables-append os rs no_tables e =
    λ i. some (filled (sym (append-nil os) i) (sym (append-nil rs) i) [] [])
copy_tables-append os rs
      (and_table {p = p} {ps = ps} {origs = origs} {repls = repls} ts us ho hr ht hu rest) e =
    rw (ho, hr, ← ht)
      ((λ i. copy_entries (length ts) 0 ts us (filled os rs (room i) (room i)) >>= copy_tables ps)
        ∙ ap (λ o. o >>= copy_tables ps)
            (copy_entries-append [] [] os rs ts us (zeros (length ts)) (zeros (length ts))
              (zeros (length origs)) (zeros (length origs)) refl e (hu ∙ sym ht)
              (length-zeros (length ts)) (length-zeros (length ts)))
        ∙ copy_tables-append (os ++ ts) (rs ++ us) rest
            (omega (arith, length-append os ts, length-append rs us))
        ∙ (λ i. some (filled (append_assoc os ts origs i) (append_assoc rs us repls i) [] [])))
  where
    room : zeros (length (ts ++ origs)) ≡ zeros (length ts) ++ zeros (length origs)
    room = ap zeros (length-append ts origs) ∙ zeros-add (length ts) (length origs)

total_addrs-Tables :
    {ps : List Payload} {origs repls : List ℕ} (n : ℕ)
    → Tables ps origs repls
    → n + length origs < 2 ^ 32
    → total_addrs n ps ≡ n + length origs
unfolding total_addrs
total_addrs-Tables n no_tables h = omega arith
total_addrs-Tables n (and_table {p = p} {ps = ps} {origs = origs} os rs ho hr ht hu rest) h =
    ap (λ k. total_addrs k ps) small
    ∙ total_addrs-Tables (n + p.repl_table.num_addrs) rest (omega (arith, length-append os origs))
    ∙ omega (arith, length-append os origs)
  where
    small : (n + p.repl_table.num_addrs) % 2 ^ 32 ≡ n + p.repl_table.num_addrs
    small = omega (arith, length-append os origs)

-- If both allocations succeed, each payload's arrays have as many entries as it says and there are
-- fewer than 2^32 entries in all, then create_repl_table writes within its arrays, and the combined
-- table holds the entries of all payloads, in the order of registration.
pub create_repl_table-Tables :
    {ps : List Payload} {origs repls : List ℕ}
    → Tables ps origs repls
    → length origs < 2 ^ 32
    → create_repl_table true true ps
      ≡ some (
        true,
        record { orig_addrs = some origs; repl_addrs = some repls; num_addrs = length origs },
      )
unfolding create_repl_table
create_repl_table-Tables {ps} {origs} {repls} t h =
    rw (total_addrs-Tables 0 t (omega arith) ∙ zero_add (length origs)) (
      ap
        (λ o. o >>= λ d. some (
          true,
          record { orig_addrs = some d.orig; repl_addrs = some d.repl; num_addrs = length origs },
        ))
        (copy_tables-append [] [] t refl)
      ∙ (λ i. some (
        true,
        record {
          orig_addrs = some (append-nil origs i);
          repl_addrs = some (append-nil repls i);
          num_addrs = length origs;
        },
      )))
  where
    zero_add : (n : ℕ) → 0 + n ≡ n
    zero_add n = omega arith
