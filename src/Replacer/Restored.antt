-- ===== src/Replacer/Restored.antt =====
-- A replacement that is restored.
use kedr_aux.Prelude.{
  ℕ, ◌-◌, ◌^◌, ◌≤◌, ◌<◌, true, false, Option, none, some, List, [], ◌∷◌, ◌≡◌, ◌≢◌, refl, sym, ap,
  ◌∙◌, arith, ◌==◌, length, if◌then◌else◌, Bool-cases, inl, inr,
}
use kedr_aux.DataMap.Table.{success, data_map_get}
use kedr_aux.DataMap.WellFormed.{WellFormed}
use kedr_aux.DataMap.Laws.{
  InRange, lookup, data_map_get-lookup, data_map_add-lookup, data_map_delete-lookup,
}
use kedr_aux.Replacer.{
  ReplacerType, replace_pointer, at_place, Objects, Data, orig_pointer, orig_ops, ReplacerData,
  Replacer, set, replace_masked, restore_masked, fill, restore, is_err, returned, operation_replace,
  operation_restore,
}

restored_lem :
    (m r o : ℕ)
    → (if m == 0
        then (if m == 0 then o else r)
        else if (if m == 0 then o else r) == r
        then o
        else (if m == 0 then o else r))
      ≡ o
restored_lem m r o = ground arith

-- what a replacement puts into a structure can be restored
restore_masked-replace_masked :
    (mask repl ops : List ℕ)
    → length mask ≤ length repl
    → length mask ≤ length ops
    → (new : List ℕ) × (replace_masked mask repl ops ≡ some new)
      × (restore_masked mask repl ops new ≡ some ops)
unfolding replace_masked restore_masked
restore_masked-replace_masked [] repl ops h k = (ops, refl, refl)
restore_masked-replace_masked (m ∷ mask) [] ops h k = absurd (omega (arith, h))
restore_masked-replace_masked (m ∷ mask) (r ∷ repl) [] h k = absurd (omega (arith, k))
restore_masked-replace_masked (m ∷ mask) (r ∷ repl) (o ∷ ops) h k =
    let (new, e, f) =
      restore_masked-replace_masked mask repl ops (omega (arith, h)) (omega (arith, k)) in
    (
      (if m == 0 then o else r) ∷ new,
      simp e refl,
      simp f (ap (λ x. some (x ∷ ops)) (restored_lem m r o)),
    )

-- the objects as they were, apart from the structure in the memory that was allocated and is freed
pub record Same (ptr : ℕ) (s s' : Objects) : Type 0 where
  pub pointers : (x : ℕ) → s'.pointer x ≡ s.pointer x
  pub structures : (x : ℕ) → x ≢ ptr → s'.ops x ≡ s.ops x

-- the structure that the replacement of an object reads
abbrev pub original : ReplacerType → ℕ → Objects → List ℕ
original replace_pointer key s = s.ops (s.pointer key)
original at_place key s = s.ops key

restore-fill :
    (type : ReplacerType) (ptr key : ℕ) (t : ReplacerData) (s : Objects)
    → length t.ops_mask_total ≤ length t.ops_repl_total
    → length t.ops_mask_total ≤ length (original type key s)
    → (d : Data) × (s' s'' : Objects) × (fill type ptr key t s ≡ some (d, s'))
      × (restore ptr key t d s' ≡ some s'')
      × Same ptr s s''
unfolding fill restore
restore-fill replace_pointer ptr key t s h k =
    let (new, e, f) =
      restore_masked-replace_masked t.ops_mask_total t.ops_repl_total (s.ops (s.pointer key)) h k in
    let s' : Objects = record { pointer = set key ptr s.pointer; ops = set ptr new s.ops } in
    let c : (s'.pointer key == ptr) ≡ true = ground arith in
    (
      orig_pointer (s.pointer key),
      s',
      record s' { pointer = set key (s.pointer key) s'.pointer },
      simp e refl,
      simp c refl,
      record { pointers = λ x. ground arith; structures = λ x n. ground (arith, n) },
    )
restore-fill at_place ptr key t s h k =
    let (new, e, f) =
      restore_masked-replace_masked t.ops_mask_total t.ops_repl_total (s.ops key) h k in
    let s' : Objects = record s { ops = set key new s.ops } in
    let c : s'.ops key ≡ new = ground arith in
    (
      orig_ops (s.ops key),
      s',
      record s' { ops = set key (s.ops key) s'.ops },
      simp e refl,
      simp (c, f) refl,
      record { pointers = λ x. refl; structures = λ x n. ground arith },
    )

key_gone :
    (key k ptr : ℕ) (o : Option ℕ) (f : ℕ → Option ℕ)
    → f key ≡ none
    → o ≡ (if key == k then some ptr else f k)
    → (if key == k then none else o) ≡ f k
key_gone key k ptr o f n e = elim (Bool-cases (key == k)) [
  | inl i ↦ let same : key ≡ k = ground (arith, i) in simp i (sym n ∙ ap f same)
  | inr i ↦ simp i (e ∙ simp i refl)
]

module _ (hash_ptr : ℕ → ℕ → ℕ) (in_range : InRange hash_ptr) where
  -- With a well-formed map that lacks the key, a loaded target, structures that are no shorter than
  -- the mask, and memory at an address that is no error: operation_replace succeeds, and an
  -- operation_restore behind it succeeds and leaves all objects as they were and the map with the keys
  -- it had, each with its data.
  pub operation_restore-operation_replace :
      (r : Replacer) (key ptr : ℕ) (t : ReplacerData)
      → WellFormed hash_ptr r.data_map
      → lookup r.data_map key ≡ none
      → 0 < r.n_uses
      → r.data_of ≡ some t
      → 0 < ptr
      → ptr < 2 ^ 64 - 4095
      → length t.ops_mask_total ≤ length t.ops_repl_total
      → length t.ops_mask_total ≤ length (original r.type key r.objects)
      → (r' r'' : Replacer) × (operation_replace hash_ptr (some ptr) true key r
          ≡ some (returned success, r'))
        × (operation_restore hash_ptr key r' ≡ some (returned success, r''))
        × Same ptr r.objects r''.objects
        × ((k : ℕ) → lookup r''.data_map k ≡ lookup r.data_map k)
  unfolding operation_replace operation_restore
  operation_restore-operation_replace r key ptr t wf l n q z b h k =
      let (d, s', s'', e, f, same) = restore-fill r.type ptr key t r.objects h k in
      let (m', a, wf', l') = data_map_add-lookup hash_ptr in_range r.data_map wf key ptr l in
      let (m'', c, wf'', l'') = data_map_delete-lookup hash_ptr in_range m' wf' key in
      let used : (r.n_uses == 0) ≡ false = ground (arith, n) in
      let found : lookup m' key ≡ some ptr = l' key ∙ ground arith in
      let get : data_map_get hash_ptr key m' ≡ some ptr =
        data_map_get-lookup hash_ptr in_range m' wf' key ∙ rw found refl in
      let no_err : is_err ptr ≡ false = ground (arith, b) in
      let not_null : (ptr == 0) ≡ false = ground (arith, z) in
      let kept : set ptr d r.heap ptr ≡ d = ground arith in
      (
        record r { data_map = m'; heap = set ptr d r.heap; objects = s' },
        record r { data_map = m''; heap = set ptr d r.heap; objects = s'' },
        simp (used, q, e, a) refl,
        simp (used, q, get, no_err, not_null, kept, f, c) refl,
        same,
        λ k'. l'' k' ∙ key_gone key k' ptr (lookup m' k') (lookup r.data_map) l (l' k'),
      )
