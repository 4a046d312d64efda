-- ===== src/Mist/Names.antt =====
-- What names are accepted, and what mist_chars_to_spaces leaves.
use kedr_aux.Prelude.{
  ℕ, zero, suc, ◌+◌, ◌≤◌, ◌<◌, Bool, true, false, not, ◌&&◌, ◌||◌, some, List, [], ◌∷◌, ◌++◌, map,
  ◌==◌, ◌⊎◌, ◌≡◌, refl, sym, ap, ◌∙◌, arith, leb, ltb, length, length-drop, take, drop,
  if◌then◌else◌, Bool-cases, inl, inr,
}
use kedr_aux.Mist.Find.{
  among, mist_find_in_range_first_of, is_bad_char, has_bad_char, mist_name_is_bad, spaces_from,
  mist_chars_to_spaces,
}

-- letters, digits, '_', '-', '.' and the space
abbrev pub is_name_char : ℕ → Bool
is_name_char c =
    (leb b'a' c && leb c b'z')
    || (leb b'A' c && leb c b'Z')
    || (leb b'0' c && leb c b'9')
    || (c == b'_')
    || (c == b'-')
    || (c == b'.')
    || (c == b' ')

abbrev pub all : (ℕ → Bool) → List ℕ → Bool
all p [] = true
all p (c ∷ cs) = p c && all p cs

abbrev pub is_good_name : List ℕ → Bool
is_good_name [] = false
is_good_name (c ∷ cs) = not (c == b'.') && not (c == b' ') && all is_name_char (c ∷ cs)

bytes_below : ℕ → List ℕ
bytes_below zero = []
bytes_below (suc c) = c ∷ bytes_below c

all-bytes_below :
    (p : ℕ → Bool) (bound c : ℕ) → c < bound → all p (bytes_below bound) ≡ true → p c ≡ true
unfolding bytes_below
all-bytes_below p zero c l e = absurd (omega (arith, l))
all-bytes_below p (suc bound) c l e = ground (arith, all-bytes_below p bound c)

same : Bool → Bool → Bool
same true b = b
same false b = not b

same_sound : (a b : Bool) → same a b ≡ true → a ≡ b
unfolding same
same_sound true b h = sym h
same_sound false true h = cc
same_sound false false h = refl

allowed_table : all (λ c. same (not (is_bad_char c)) (is_name_char c)) (bytes_below 127) ≡ true
unfolding bytes_below same is_bad_char
allowed_table = refl

allowed_high : (c : ℕ) → 127 ≤ c → (not (is_bad_char c) ≡ false) × (is_name_char c ≡ false)
unfolding is_bad_char
allowed_high c h = (ground arith, ground arith)

is_bad_char-is_name_char : (c : ℕ) → not (is_bad_char c) ≡ is_name_char c
is_bad_char-is_name_char c = elim (Bool-cases (ltb c 127)) [
  | inl e ↦ same_sound _ _ (all-bytes_below _ 127 c (ground (arith, e)) allowed_table)
  | inr e ↦ let (p, q) = allowed_high c (ground (arith, e)) in p ∙ sym q
]

has_bad_char-all : (cs : List ℕ) → has_bad_char cs ≡ not (all is_name_char cs)
unfolding has_bad_char
has_bad_char-all [] = refl
has_bad_char-all (c ∷ cs) = ground (arith, has_bad_char-all cs, is_bad_char-is_name_char c)

-- A name is bad exactly if it is empty, begins with a dot or a space, or has a character that is
-- neither a letter nor a digit nor one of '_', '-', '.' and the space.
pub mist_name_is_bad-is_good_name :
    (name : List ℕ) → mist_name_is_bad name ≡ not (is_good_name name)
unfolding mist_name_is_bad
mist_name_is_bad-is_good_name [] = refl
mist_name_is_bad-is_good_name (c ∷ cs) =
    rw (has_bad_char-all (c ∷ cs)) (by_first (c == b'.') (c == b' ') (all is_name_char (c ∷ cs)))
  where
    by_first : (p q r : Bool) → (if p || q then true else not r) ≡ not (not p && not q && r)
    by_first true q r = refl
    by_first false true r = refl
    by_first false false r = refl

abbrev spaced : List ℕ → List ℕ → List ℕ
spaced syms = map (λ c. if among c syms then b' ' else c)

-- the first byte of `syms`, if there is one
first_of-spaced :
    (range syms : List ℕ)
    → ((mist_find_in_range_first_of range syms ≡ length range) × (spaced syms range ≡ range))
      ⊎ ((mist_find_in_range_first_of range syms < length range)
          × (spaced syms range
              ≡ take (mist_find_in_range_first_of range syms) range
                ++ (b' '
                    ∷ spaced syms (drop (suc (mist_find_in_range_first_of range syms)) range))))
unfolding mist_find_in_range_first_of
first_of-spaced [] syms = inl (refl, refl)
first_of-spaced (c ∷ cs) syms = elim (Bool-cases (among c syms)) [
  | inl e ↦ rw e (inr (omega arith, refl))
  | inr e ↦ elim (first_of-spaced cs syms) [
    | inl (p, q) ↦ inl (rw e (omega (arith, p)), rw e (ap (λ t. c ∷ t) q))
    | inr (p, q) ↦ inr (rw e (omega (arith, p)), rw e (ap (λ t. c ∷ t) q))
  ]
]

spaces_from-map :
    (rounds : ℕ) (range syms : List ℕ)
    → length range < rounds
    → spaces_from rounds range syms ≡ some (spaced syms range)
unfolding spaces_from
spaces_from-map zero range syms h = absurd (omega arith)
spaces_from-map (suc rounds) range syms h = elim (first_of-spaced range syms) [
  | inl (p, q) ↦
      let t : (mist_find_in_range_first_of range syms == length range) ≡ true = ground (arith, p) in
      rw t (ap some (sym q))
  | inr (p, q) ↦
      let t : (mist_find_in_range_first_of range syms == length range) ≡ false =
        ground (arith, p) in
      let ih =
        spaces_from-map rounds (drop (suc (mist_find_in_range_first_of range syms)) range) syms
          (omega (arith, h, p, length-drop (suc (mist_find_in_range_first_of range syms)) range)) in
      rw (t, ih) (ap some (sym q))
]

-- mist_chars_to_spaces ends, and it has put a space for each character of the given set and changed
-- no other.
pub mist_chars_to_spaces-map :
    (range syms : List ℕ)
    → mist_chars_to_spaces range syms ≡ some (map (λ c. if among c syms then b' ' else c) range)
unfolding mist_chars_to_spaces
mist_chars_to_spaces-map range syms = spaces_from-map (length range + 1) range syms (omega arith)
