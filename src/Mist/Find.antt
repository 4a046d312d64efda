-- ===== src/Mist/Find.antt =====
-- mist_string_utils.c: the searches in a range, and the functions on names and positions. A range or
-- a C string is the list of its bytes, and a position in it is an index.
use kedr_aux.Prelude.{
  ℕ, zero, suc, ◌+◌, ◌%◌, ◌^◌, Bool, true, false, not, ◌||◌, Option, none, some, List, [], ◌∷◌,
  ◌++◌, ◌==◌, leb, length, get_elem?, take, drop, if◌then◌else◌,
}

-- the loop over `syms`: whether it stops before the end
unfoldable pub among : ℕ → List ℕ → Bool
among c [] = false
among c (s ∷ syms) = (c == s) || among c syms

unfoldable pub mist_find_in_range_first_of : List ℕ → List ℕ → ℕ
mist_find_in_range_first_of [] syms = 0
mist_find_in_range_first_of (c ∷ cs) syms =
    let rest = mist_find_in_range_first_of cs syms in if among c syms then 0 else suc rest

unfoldable pub mist_find_in_range_first_not_of : List ℕ → List ℕ → ℕ
mist_find_in_range_first_not_of [] syms = 0
mist_find_in_range_first_not_of (c ∷ cs) syms =
    let rest = mist_find_in_range_first_not_of cs syms in if among c syms then suc rest else 0

-- the loop of mist_find_in_range_last_not_of, with `pos` at the number of bytes given
abbrev pub if_other : Option ℕ → List ℕ → Option ℕ → ℕ → Option ℕ
if_other (some c) syms rest k = if among c syms then rest else some k
if_other none syms rest k = none

unfoldable pub last_not_of_from : ℕ → List ℕ → List ℕ → Option ℕ
last_not_of_from zero range syms = none
last_not_of_from (suc k) range syms =
    if_other (get_elem? range k) syms (last_not_of_from k range syms) k

abbrev pub or_end : Option ℕ → ℕ → ℕ
or_end (some k) n = k
or_end none n = n

unfoldable pub mist_find_in_range_last_not_of : List ℕ → List ℕ → ℕ
mist_find_in_range_last_not_of range syms =
    or_end (last_not_of_from (length range) range syms) (length range)

-- NULL is `none`
abbrev or_null : ℕ → List ℕ → Option ℕ
or_null pos str = if pos == length str then none else some pos

unfoldable pub mist_find_first_of : List ℕ → List ℕ → Option ℕ
mist_find_first_of str syms = or_null (mist_find_in_range_first_of str syms) str

unfoldable pub mist_find_first_not_of : List ℕ → List ℕ → Option ℕ
mist_find_first_not_of str syms = or_null (mist_find_in_range_first_not_of str syms) str

unfoldable pub mist_find_last_not_of : List ℕ → List ℕ → Option ℕ
mist_find_last_not_of str syms = or_null (mist_find_in_range_last_not_of str syms) str

abbrev row : ℕ → List Bool → List Bool
row zero rest = rest
row (suc n) rest = false ∷ row n rest

abbrev ones : ℕ → List Bool → List Bool
ones zero rest = rest
ones (suc n) rest = true ∷ ones n rest

-- ch_allowed: the characters below the space, and then from 0x20, 0x30, 0x40 and 0x60 on
unfoldable pub ch_allowed : List Bool
ch_allowed = row 32 (
    true
    ∷ row 12 (
        true
        ∷ true
        ∷ row 1 (ones 10 (row 6 (row 1 (ones 26 (row 4 (true ∷ row 1 (ones 26 (row 5 []))))))))))

-- the test in the loop of mist_name_is_bad; a read behind the table counts as 0
unfoldable pub is_bad_char : ℕ → Bool
unfolding ch_allowed
is_bad_char c =
    if leb c 0x1F || leb 0x7F c
    then true
    else elim (get_elem? ch_allowed c) [ some b ↦ not b | none ↦ true ]

unfoldable pub has_bad_char : List ℕ → Bool
has_bad_char [] = false
has_bad_char (c ∷ cs) = let rest = has_bad_char cs in if is_bad_char c then true else rest

unfoldable pub mist_name_is_bad : List ℕ → Bool
unfolding has_bad_char
mist_name_is_bad [] = true
mist_name_is_bad (c ∷ cs) = if (c == b'.') || (c == b' ') then true else has_bad_char (c ∷ cs)

-- the loop of mist_line_num_for_ptr over the bytes before `ptr`
unfoldable pub count_lines : ℕ → List ℕ → ℕ
count_lines cnt [] = cnt
count_lines cnt (c ∷ cs) = count_lines (if c == 10 then (cnt + 1) % 2 ^ 32 else cnt) cs

unfoldable pub mist_line_num_for_ptr : List ℕ → ℕ → ℕ
mist_line_num_for_ptr src ptr = count_lines 1 (take ptr src)

-- the loop of mist_is_char_escaped, from the byte before the number of bytes given
abbrev pub if_slash : Option ℕ → ℕ → ℕ → ℕ
if_slash (some c) rest cnt = if c == 92 then rest else cnt
if_slash none rest cnt = cnt

unfoldable pub count_slashes : ℕ → List ℕ → ℕ → ℕ
count_slashes zero src cnt = cnt
count_slashes (suc k) src cnt =
    let rest = count_slashes k src (cnt + 1) in if_slash (get_elem? src k) rest cnt

unfoldable pub mist_is_char_escaped : ℕ → List ℕ → Bool
mist_is_char_escaped pos src = if pos == 0 then false else count_slashes pos src 0 % 2 == 1

-- The loop of mist_chars_to_spaces: the bytes from `beg` on, with the rounds left. `none` means that
-- they do not suffice.
unfoldable pub spaces_from : ℕ → List ℕ → List ℕ → Option (List ℕ)
spaces_from zero range syms = none
spaces_from (suc rounds) range syms =
    let pos = mist_find_in_range_first_of range syms in
    let rest = spaces_from rounds (drop (suc pos) range) syms in
    if pos == length range
    then some range
    else elim rest [ some cs ↦ some (take pos range ++ (b' ' ∷ cs)) | none ↦ none ]

unfoldable pub mist_chars_to_spaces : List ℕ → List ℕ → Option (List ℕ)
mist_chars_to_spaces range syms = spaces_from (length range + 1) range syms
