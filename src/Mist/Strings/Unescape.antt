-- ===== src/Mist/Strings/Unescape.antt =====
-- mist_string_unescape.
use kedr_aux.Prelude.{
  ℕ, ◌+◌, ◌%◌, ◌^◌, ◌≤◌, ◌<◌, Bool, true, false, Option, none, some, List, [], ◌∷◌, ◌++◌,
  append-nil, append_assoc, ◌==◌, ◌≡◌, refl, sym, ap, ◌∙◌, arith, leb, ltb, length, if◌then◌else◌,
  Bool-cases, inl, inr,
}
use kedr_aux.Mist.Strings.{
  MistString, ErrorCode, ok, out_of_memory, within, mist_string_reserve, mist_string_create,
  mist_string_create_from_range, c_string,
}

-- ch_what and ch_to, whose NULs belong to the arrays
unfoldable pub special : ℕ → Option ℕ
special c =
    if c == b't'
    then some 9
    else if c == b'n'
    then some 10
    else if c == b'r'
    then some 13
    else if c == 0
    then some 0
    else none

abbrev pub by_special : Option ℕ → (ℕ → List ℕ) → List ℕ → List ℕ
by_special (some t) known unknown = known t
by_special none known unknown = unknown

-- what stands in `res` at the end: the loop over `pos`, with the bytes from `beg` to `pos` and those
-- written to `res`
unfoldable pub unescape_from : List ℕ → List ℕ → List ℕ → List ℕ
unescape_from [] segment res = res ++ segment
unescape_from (c ∷ []) segment res =
    if c == 92 then (res ++ segment) ++ (92 ∷ []) else res ++ (segment ++ (c ∷ []))
unescape_from (c ∷ d ∷ cs) segment res =
    let plain = unescape_from (d ∷ cs) (segment ++ (c ∷ [])) res in
    let backslash = unescape_from cs [] ((res ++ segment) ++ (92 ∷ [])) in
    let unknown = unescape_from (d ∷ cs) [] ((res ++ segment) ++ (92 ∷ [])) in
    let known = λ (t : ℕ). unescape_from cs [] ((res ++ segment) ++ (t ∷ [])) in
    if c == 92 then (if d == 92 then backslash else by_special (special d) known unknown) else plain

-- The part behind the creation of `res`. On an error `ms` is left, and `res` is not freed.
unfoldable pub unescape_reserved :
    MistString → ErrorCode × MistString → Option (ErrorCode × MistString)
unescape_reserved ms (out_of_memory, res) = some (out_of_memory, ms)
unescape_reserved ms (ok, res) =
    let text = unescape_from ms.text [] [] in
    within (length text + 1) res.bsize (some (ok, record res { offset = 0; text = text }))

unfoldable pub unescape_into :
    Bool → MistString → Option (Option MistString) → Option (ErrorCode × MistString)
unescape_into grown ms none = none
unescape_into grown ms (some none) = some (out_of_memory, ms)
unescape_into grown ms (some (some res)) =
    unescape_reserved ms (mist_string_reserve grown (length ms.text) res)

-- The writes to `res` go forward, so they are inside of its buffer if the last one is.
unfoldable pub mist_string_unescape :
    Bool → Bool → Bool → MistString → Option (ErrorCode × MistString)
unfolding unescape_into unescape_reserved unescape_from special mist_string_create
    mist_string_create_from_range c_string mist_string_reserve
mist_string_unescape allocated allocated' grown ms =
    if ltb (length ms.text) 2
    then some (ok, ms)
    else unescape_into grown ms (mist_string_create allocated allocated' (some []))

-- what a text with escapes means
abbrev pub unescaped : List ℕ → List ℕ
unescaped [] = []
unescaped (c ∷ []) = c ∷ []
unescaped (c ∷ d ∷ cs) =
    let plain = unescaped (d ∷ cs) in
    let rest = unescaped cs in
    if c == 92
    then (if d == 92 then 92 ∷ rest else by_special (special d) (λ t. t ∷ rest) (92 ∷ plain))
    else c ∷ plain

shift : (r s u : List ℕ) (x : ℕ) → ((r ++ s) ++ (x ∷ [])) ++ u ≡ r ++ (s ++ (x ∷ u))
shift r s u x = simp (append_assoc)

unescape_from-unescaped :
    (cs segment res : List ℕ) → unescape_from cs segment res ≡ res ++ (segment ++ unescaped cs)
unfolding unescape_from
unescape_from-unescaped [] segment res = ap (λ t. res ++ t) (sym (append-nil segment))
unescape_from-unescaped (c ∷ []) segment res = elim (Bool-cases (c == 92)) [
  | inl e ↦ let q : c ≡ 92 = ground (arith, e) in rw (e, q) (append_assoc res segment (92 ∷ []))
  | inr e ↦ rw e refl
]
unescape_from-unescaped (c ∷ d ∷ cs) segment res = elim (Bool-cases (c == 92)) [
  | inr e ↦ rw e (
      unescape_from-unescaped (d ∷ cs) (segment ++ (c ∷ [])) res
      ∙ ap (λ t. res ++ t) (append_assoc segment (c ∷ []) (unescaped (d ∷ cs))))
  | inl e ↦ rw e (elim (Bool-cases (d == 92)) [
    | inl q ↦ rw q (
        unescape_from-unescaped cs [] ((res ++ segment) ++ (92 ∷ []))
        ∙ shift res segment (unescaped cs) 92)
    | inr q ↦ rw q (
        by_cases (special d) (λ t. unescape_from-unescaped cs [] ((res ++ segment) ++ (t ∷ [])))
          (unescape_from-unescaped (d ∷ cs) [] ((res ++ segment) ++ (92 ∷ []))))
  ])
]
  where
    by_cases :
        (o : Option ℕ)
        → ((t : ℕ)
            → unescape_from cs [] ((res ++ segment) ++ (t ∷ []))
              ≡ ((res ++ segment) ++ (t ∷ [])) ++ unescaped cs)
        → unescape_from (d ∷ cs) [] ((res ++ segment) ++ (92 ∷ []))
          ≡ ((res ++ segment) ++ (92 ∷ [])) ++ unescaped (d ∷ cs)
        → by_special o
            (λ t. unescape_from cs [] ((res ++ segment) ++ (t ∷ [])))
            (unescape_from (d ∷ cs) [] ((res ++ segment) ++ (92 ∷ [])))
          ≡ res ++ (segment ++ by_special o (λ t. t ∷ unescaped cs) (92 ∷ unescaped (d ∷ cs)))
    by_cases (some t) known unknown = known t ∙ shift res segment (unescaped cs) t
    by_cases none known unknown = unknown ∙ shift res segment (unescaped (d ∷ cs)) 92

length-unescaped : (cs : List ℕ) → length (unescaped cs) ≤ length cs
length-unescaped [] = omega arith
length-unescaped (c ∷ []) = omega arith
length-unescaped (c ∷ d ∷ cs) = elim (Bool-cases (c == 92)) [
  | inr e ↦ rw e (omega (arith, length-unescaped (d ∷ cs)))
  | inl e ↦ rw e (elim (Bool-cases (d == 92)) [
    | inl q ↦ rw q (omega (arith, length-unescaped cs))
    | inr q ↦ rw q (by_cases (special d) (length-unescaped cs) (length-unescaped (d ∷ cs)))
  ])
]
  where
    by_cases :
        (o : Option ℕ)
        → length (unescaped cs) ≤ length cs
        → length (unescaped (d ∷ cs)) ≤ length (d ∷ cs)
        → length (by_special o (λ t. t ∷ unescaped cs) (92 ∷ unescaped (d ∷ cs)))
          ≤ length (c ∷ d ∷ cs)
    by_cases (some t) h k = omega arith
    by_cases none h k = omega arith

-- the string that mist_string_unescape returns
abbrev pub unescape_result : MistString → MistString
unescape_result ms = if ltb (length ms.text) 2 then ms else record {
  bsize = if ltb 16 (length ms.text + 1) then length ms.text + 1 else 16;
  offset = 0;
  text = unescaped ms.text;
}

unescaped-short : (cs : List ℕ) → length cs < 2 → cs ≡ unescaped cs
unescaped-short [] h = refl
unescaped-short (c ∷ []) h = refl
unescaped-short (c ∷ d ∷ cs) h = absurd (omega (arith, h))

pub reserve-fresh :
    (n : ℕ)
    → n + 1 < 2 ^ 64
    → mist_string_reserve true n (record { bsize = 16; offset = 0; text = [] })
      ≡ (ok, record { bsize = if ltb 16 (n + 1) then n + 1 else 16; offset = 0; text = [] })
unfolding mist_string_reserve
reserve-fresh n h =
    let q : (n + 1) % 2 ^ 64 ≡ n + 1 = omega (arith, h) in
    rw q (elim (Bool-cases (ltb 16 (n + 1))) [ inl e ↦ rw e refl | inr e ↦ rw e refl ])

unescape_reserved-result :
    (ms : MistString) (b : ℕ)
    → length ms.text + 1 ≤ b
    → unescape_reserved ms (ok, record { bsize = b; offset = 0; text = [] })
      ≡ some (ok, record { bsize = b; offset = 0; text = unescaped ms.text })
unfolding unescape_reserved
unescape_reserved-result ms b h = rw (unescape_from-unescaped ms.text [] []) (
    let fits : leb (length (unescaped ms.text) + 1) b ≡ true =
      ground (arith, length-unescaped ms.text, h) in
    rw fits refl)

-- If its allocations succeed and the text's length fits a size_t, mist_string_unescape writes inside
-- of its buffer and returns what the text with its escapes means.
pub mist_string_unescape-unescaped :
    (ms : MistString)
    → length ms.text + 1 < 2 ^ 64
    → (mist_string_unescape true true true ms ≡ some (ok, unescape_result ms))
      × ((unescape_result ms).text ≡ unescaped ms.text)
unfolding mist_string_unescape
mist_string_unescape-unescaped ms h = (
  whole,
  elim (Bool-cases (ltb (length ms.text) 2)) [
    | inl e ↦ rw e (unescaped-short ms.text (ground (arith, e)))
    | inr e ↦ rw e refl
  ],
)
  where
    enough : length ms.text + 1 ≤ (if ltb 16 (length ms.text + 1) then length ms.text + 1 else 16)
    enough = ground arith

    whole : mist_string_unescape true true true ms ≡ some (ok, unescape_result ms)
    whole = elim (Bool-cases (ltb (length ms.text) 2)) [
      | inl e ↦ rw e refl
      | inr e ↦ rw e (
          ap (unescape_reserved ms) (reserve-fresh (length ms.text) h)
          ∙ unescape_reserved-result ms
              (if ltb 16 (length ms.text + 1) then length ms.text + 1 else 16) enough)
    ]

-- a text with escapes for a given one
abbrev pub escaped : List ℕ → List ℕ
escaped [] = []
escaped (c ∷ cs) =
    let rest = escaped cs in
    if c == 92
    then 92 ∷ 92 ∷ rest
    else if c == 9
    then 92 ∷ b't' ∷ rest
    else if c == 10
    then 92 ∷ b'n' ∷ rest
    else if c == 13
    then 92 ∷ b'r' ∷ rest
    else c ∷ rest

unescaped-plain : (c : ℕ) (cs : List ℕ) → (c == 92) ≡ false → unescaped (c ∷ cs) ≡ c ∷ unescaped cs
unescaped-plain c [] e = refl
unescaped-plain c (d ∷ cs) e = rw e refl

unescaped-escaped : (cs : List ℕ) → unescaped (escaped cs) ≡ cs
unfolding special
unescaped-escaped [] = refl
unescaped-escaped (c ∷ cs) = elim (Bool-cases (c == 92)) [
  | inl e ↦ rw e (again 92 (ground (arith, e)) (unescaped-escaped cs))
  | inr e ↦ rw e (elim (Bool-cases (c == 9)) [
    | inl f ↦ rw f (again 9 (ground (arith, f)) (unescaped-escaped cs))
    | inr f ↦ rw f (elim (Bool-cases (c == 10)) [
      | inl g ↦ rw g (again 10 (ground (arith, g)) (unescaped-escaped cs))
      | inr g ↦ rw g (elim (Bool-cases (c == 13)) [
        | inl k ↦ rw k (again 13 (ground (arith, k)) (unescaped-escaped cs))
        | inr k ↦ rw k (unescaped-plain c (escaped cs) e ∙ ap (λ t. c ∷ t) (unescaped-escaped cs))
      ])
    ])
  ])
]
  where
    again : (x : ℕ) → x ≡ c → unescaped (escaped cs) ≡ cs → x ∷ unescaped (escaped cs) ≡ c ∷ cs
    again x e ih = λ i. e i ∷ ih i

-- If its allocations succeed and the length fits, mist_string_unescape of a text that is escaped,
-- with backslashes doubled and tabs and ends of lines as letters, gives the text back.
pub mist_string_unescape-escaped :
    (ms : MistString) (cs : List ℕ)
    → ms.text ≡ escaped cs
    → length ms.text + 1 < 2 ^ 64
    → (t : MistString) × (mist_string_unescape true true true ms ≡ some (ok, t)) × (t.text ≡ cs)
mist_string_unescape-escaped ms cs e h =
    let (p, q) = mist_string_unescape-unescaped ms h in
    (unescape_result ms, p, q ∙ ap unescaped e ∙ unescaped-escaped cs)
