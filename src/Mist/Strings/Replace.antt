-- ===== src/Mist/Strings/Replace.antt =====
-- mist_string_replace.
use kedr_aux.Prelude.{
  ℕ, zero, suc, ◌+◌, ◌-◌, ◌*◌, ◌%◌, ◌^◌, ◌≤◌, ◌<◌, Bool, true, false, not, ◌&&◌, Option, none, some,
  List, [], ◌∷◌, ◌++◌, append-nil, append_assoc, ◌==◌, ◌≡◌, ◌≢◌, refl, sym, ap, ◌∙◌, arith, leb,
  ltb, length, length-append, length-drop, take, drop, if◌then◌else◌, Bool-cases, Option-cases, inl,
  inr,
}
use kedr_aux.Mist.Strings.{
  MistString, ErrorCode, ok, out_of_memory, within, mist_string_reserve, mist_string_create,
  mist_string_create_from_range, c_string,
}
pub mod Laws

-- strstr of the C library: the place where a string occurs first
unfoldable pub begins_with : List ℕ → List ℕ → Bool
begins_with s [] = true
begins_with [] (w ∷ ws) = false
begins_with (c ∷ cs) (w ∷ ws) = (c == w) && begins_with cs ws

unfoldable pub strstr : List ℕ → List ℕ → Option ℕ
unfolding begins_with
strstr [] what = if begins_with [] what then some 0 else none
strstr (c ∷ cs) what =
    let rest = strstr cs what in
    if begins_with (c ∷ cs) what then some 0 else elim rest [ some i ↦ some (suc i) | none ↦ none ]

abbrev pub or_else {ℓ} : {A : Type ℓ} → Option ℕ → (ℕ → A) → A → A
or_else (some i) found absent = found i
or_else none found absent = absent

-- The loop that counts the occurrences. `none` means that the rounds do not suffice.
unfoldable pub count_occurrences : ℕ → List ℕ → List ℕ → Option ℕ
count_occurrences zero s what = none
count_occurrences (suc rounds) s what =
    or_else (strstr s what)
      (λ i. elim (count_occurrences rounds (drop (i + length what) s) what) [
        | some c ↦ some (suc c)
        | none ↦ none
      ])
      (some 0)

-- The loop that copies, with what is in `ts` already, and the part behind it. `none` is a write behind
-- the end of the buffer of `ts`, too.
unfoldable pub copy_replaced : ℕ → ℕ → List ℕ → List ℕ → List ℕ → List ℕ → Option (List ℕ)
copy_replaced zero bsize s what with out = none
copy_replaced (suc rounds) bsize s what with out =
    or_else (strstr s what)
      (λ i. within (length out + i + length with) bsize (
        copy_replaced rounds bsize (drop (i + length what) s) what with
          (out ++ (take i s ++ with))))
      (within (length out + length s + 1) bsize (some (out ++ s)))

abbrev pub finish : MistString → Option (List ℕ) → Option (ErrorCode × MistString)
finish ts none = none
finish ts (some text) = some (ok, record ts { offset = 0; text = text })

unfoldable pub replace_reserved :
    MistString → List ℕ → List ℕ → ErrorCode × MistString → Option (ErrorCode × MistString)
replace_reserved ms what with (out_of_memory, ts) = some (out_of_memory, ms)
replace_reserved ms what with (ok, ts) =
    finish ts (copy_replaced (length ms.text + 1) ts.bsize ms.text what with [])

unfoldable pub replace_into :
    Bool
    → ℕ
    → MistString
    → List ℕ
    → List ℕ
    → Option (Option MistString)
    → Option (ErrorCode × MistString)
replace_into grown c ms what with none = none
replace_into grown c ms what with (some none) = some (out_of_memory, ms)
replace_into grown c ms what with (some (some ts)) =
    replace_reserved ms what with
      (mist_string_reserve grown ((length ms.text + c * length with - c * length what) % 2 ^ 64) ts)

unfoldable pub replace_counted :
    Bool → Bool → Bool → MistString → List ℕ → List ℕ → Option ℕ → Option (ErrorCode × MistString)
replace_counted allocated allocated' grown ms what with none = none
replace_counted allocated allocated' grown ms what with (some zero) = some (ok, ms)
replace_counted allocated allocated' grown ms what with (some (suc c)) =
    replace_into grown (suc c) ms what with (mist_string_create allocated allocated' none)

unfoldable pub mist_string_replace :
    Bool → Bool → Bool → List ℕ → List ℕ → MistString → Option (ErrorCode × MistString)
unfolding replace_counted replace_into replace_reserved copy_replaced count_occurrences strstr
    mist_string_create mist_string_create_from_range c_string mist_string_reserve
mist_string_replace allocated allocated' grown what with ms =
    replace_counted allocated allocated' grown ms what with
      (count_occurrences (length ms.text + 1) ms.text what)
