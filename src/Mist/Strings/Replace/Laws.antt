-- ===== src/Mist/Strings/Replace/Laws.antt =====
-- mist_string_replace replaces each occurrence, from the left, and its buffer is large enough.
use Prim.Native.Nat.mul
use kedr_aux.Prelude.{
  ℕ, zero, suc, ◌+◌, ◌-◌, ◌*◌, ◌%◌, ◌^◌, ◌≤◌, ◌<◌, true, none, some, List, [], ◌∷◌, ◌++◌,
  append_assoc, ◌≡◌, refl, sym, ap, ◌∙◌, arith, ltb, length, length-append, length-drop,
  length-take_le, take, drop, if◌then◌else◌, Bool-cases, Option-cases, inl, inr,
}
use kedr_aux.Mist.Strings.{MistString, ok, mist_string_reserve}
use kedr_aux.Mist.Strings.Bounds.{within-le}
use kedr_aux.Mist.Strings.Unescape.{reserve-fresh}
use kedr_aux.Mist.Strings.Replace.{
  begins_with, strstr, count_occurrences, copy_replaced, finish, replace_reserved, replace_counted,
  mist_string_replace,
}

-- `r` is `s` with its `c` occurrences of `what` replaced: those that strstr finds from the left, each
-- search beginning behind the last occurrence.
pub data Replaced (what with : List ℕ) : List ℕ → ℕ → List ℕ → Type 0 where
  finished :
      {s : List ℕ} {c : ℕ} {r : List ℕ}
      → strstr s what ≡ none
      → c ≡ 0
      → r ≡ s
      → Replaced what with s c r
  next :
      {s : List ℕ} {c : ℕ} {r : List ℕ} (i c' : ℕ) (r' : List ℕ)
      → strstr s what ≡ some i
      → c ≡ suc c'
      → r ≡ take i s ++ (with ++ r')
      → Replaced what with (drop (i + length what) s) c' r'
      → Replaced what with s c r

begins_with-le : (s what : List ℕ) → begins_with s what ≡ true → length what ≤ length s
unfolding begins_with
begins_with-le s [] h = omega arith
begins_with-le [] (w ∷ ws) h = cc
begins_with-le (c ∷ cs) (w ∷ ws) h = ground (arith, begins_with-le cs ws)

strstr-le : (s what : List ℕ) (i : ℕ) → strstr s what ≡ some i → i + length what ≤ length s
unfolding strstr
strstr-le [] what i h = ground (arith, begins_with-le [] what)
strstr-le (c ∷ cs) what i h = elim (Bool-cases (begins_with (c ∷ cs) what)) [
  | inl e ↦ ground (arith, e, h, begins_with-le (c ∷ cs) what)
  | inr e ↦ elim (Option-cases (strstr cs what)) [
    | inl q ↦ ground (arith, e, h, q)
    | inr (j, q) ↦ ground (arith, e, h, q, strstr-le cs what j)
  ]
]

module _ (what with : List ℕ) where
  length-Replaced :
      {s : List ℕ} {c : ℕ} {r : List ℕ}
      → Replaced what with s c r
      → length r + c * length what ≡ length s + c * length with
  length-Replaced {s} {c} {r} (finished f e q) = rw (e, q) (omega arith)
  length-Replaced {s} {c} {r} (next i c' r' f e q rest) =
      rw (e, q)
        (omega (
          arith,
          length-Replaced rest,
          mul.suc c' (length what),
          mul.suc c' (length with),
          length-append (take i s) (with ++ r'),
          length-append with r',
          length-drop (i + length what) s,
          length-take_le i s (omega (arith, strstr-le s what i f)),
          strstr-le s what i f,
        ))

  count-Replaced :
      (rounds : ℕ) {s : List ℕ} {c : ℕ} {r : List ℕ}
      → 0 < length what
      → length s < rounds
      → Replaced what with s c r
      → count_occurrences rounds s what ≡ some c
  unfolding count_occurrences
  count-Replaced zero hw h p = absurd (omega (arith, h))
  count-Replaced (suc rounds) hw h (finished f e q) = rw (f, e) refl
  count-Replaced (suc rounds) {s} hw h (next i c' r' f e q rest) =
      let ih =
        count-Replaced rounds hw
          (omega (arith, h, hw, length-drop (i + length what) s, strstr-le s what i f)) rest in
      rw (f, e, ih) refl

  copy-Replaced :
      (rounds bsize : ℕ) {s : List ℕ} {c : ℕ} {r : List ℕ} (out : List ℕ)
      → 0 < length what
      → length s < rounds
      → length out + length r + 1 ≤ bsize
      → Replaced what with s c r
      → copy_replaced rounds bsize s what with out ≡ some (out ++ r)
  unfolding copy_replaced
  copy-Replaced zero bsize out hw h hb p = absurd (omega (arith, h))
  copy-Replaced (suc rounds) bsize {s} out hw h hb (finished f e q) =
      rw (f, q) (within-le (length out + length s + 1) bsize (some (out ++ s)) (rw q at hb))
  copy-Replaced (suc rounds) bsize {s} {c} {r} out hw h hb (next i c' r' f e q rest) =
      let o' : List ℕ = out ++ (take i s ++ with) in
      let l : length r ≡ length (take i s) + (length with + length r') =
        ap length q ∙ omega (arith, length-append (take i s) (with ++ r'), length-append with r') in
      let lt : length (take i s) ≡ i = length-take_le i s (omega (arith, strstr-le s what i f)) in
      rw f (
        within-le (length out + i + length with) bsize _ (omega (arith, hb, l, lt))
        ∙ copy-Replaced rounds bsize o' hw
            (omega (arith, h, hw, length-drop (i + length what) s, strstr-le s what i f))
            (omega
              (arith, hb, l, length-append out (take i s ++ with), length-append (take i s) with))
            rest
        ∙ ap some (regroup (take i s) r' ∙ ap (λ t. out ++ t) (sym q)))
    where
      regroup : (t u : List ℕ) → (out ++ (t ++ with)) ++ u ≡ out ++ (t ++ (with ++ u))
      regroup t u = simp (append_assoc)

  -- what is to be replaced with what has a result
  Replaced-total :
      (n : ℕ) (s : List ℕ)
      → 0 < length what
      → length s < n
      → (c : ℕ) × (r : List ℕ) × Replaced what with s c r
  Replaced-total zero s hw h = absurd (omega (arith, h))
  Replaced-total (suc n) s hw h = elim (Option-cases (strstr s what)) [
    | inl f ↦ (0, s, finished f refl refl)
    | inr (i, f) ↦
        let (c', r', rest) =
          Replaced-total n (drop (i + length what) s) hw
            (omega (arith, h, hw, length-drop (i + length what) s, strstr-le s what i f)) in
        (suc c', take i s ++ (with ++ r'), next i c' r' f refl refl rest)
  ]

  -- the string that mist_string_replace leaves
  abbrev pub replace_result : MistString → ℕ → List ℕ → MistString
  replace_result ms zero r = ms
  replace_result ms (suc c) r = record {
    bsize = if ltb 16 (length r + 1) then length r + 1 else 16;
    offset = 0;
    text = r;
  }

  Replaced-by_count :
      (ms : MistString) (c : ℕ) (r : List ℕ)
      → 0 < length what
      → length r + 1 < 2 ^ 64
      → Replaced what with ms.text c r
      → replace_counted true true true ms what with (some c) ≡ some (ok, replace_result ms c r)
  unfolding mist_string_replace
  Replaced-by_count ms zero r hw hr p = refl
  Replaced-by_count ms (suc c) r hw hr p =
      ap
        (λ n.
          replace_reserved ms what with
            (mist_string_reserve true n (record { bsize = 16; offset = 0; text = [] })))
        size
      ∙ ap (replace_reserved ms what with) (reserve-fresh (length r) hr)
      ∙ ap (finish (record { bsize = room; offset = 0; text = [] }))
          (copy-Replaced (length ms.text + 1) room [] hw (omega arith) (ground arith) p)
    where
      room : ℕ
      room = if ltb 16 (length r + 1) then length r + 1 else 16

      size : (length ms.text + suc c * length with - suc c * length what) % 2 ^ 64 ≡ length r
      size = omega (arith, hr, length-Replaced p)

  -- If its allocations succeed, `what` is not empty and the result `r` fits a size_t,
  -- mist_string_replace ends, writes inside of its buffer, and leaves the text with each of its `c`
  -- occurrences of `what` replaced; it leaves the string as it is if there is none.
  pub mist_string_replace-Replaced :
      (ms : MistString) (c : ℕ) (r : List ℕ)
      → 0 < length what
      → length r + 1 < 2 ^ 64
      → Replaced what with ms.text c r
      → mist_string_replace true true true what with ms ≡ some (ok, replace_result ms c r)
  unfolding mist_string_replace
  mist_string_replace-Replaced ms c r hw hr p =
      ap (replace_counted true true true ms what with)
        (count-Replaced (length ms.text + 1) hw (omega arith) p)
      ∙ Replaced-by_count ms c r hw hr p
