-- ===== src/Mist/Tests.antt =====
-- Concrete inputs: short texts with escapes, separators and occurrences.
mod Library
use kedr_aux.Prelude.{ℕ, true, false, none, some, List, [], ◌∷◌, ◌++◌, ◌≡◌, refl, arith}
use kedr_aux.Mist.Find.{among, mist_name_is_bad, mist_chars_to_spaces, mist_is_char_escaped}
use kedr_aux.Mist.Names.{mist_name_is_bad-is_good_name, mist_chars_to_spaces-map}
use kedr_aux.Mist.Escaped.{mist_is_char_escaped-scan}
use kedr_aux.Mist.Strings.{
  MistString, ok, c_string, mist_string_set, mist_string_append, mist_string_append_range,
  mist_string_sum, mist_string_trim,
}
use kedr_aux.Mist.Strings.Sum.{mist_string_sum-append}
use kedr_aux.Mist.Strings.Bounds.{WellFormed, Edits, mist_string-Edits}
use kedr_aux.Mist.Strings.Trim.{Trimmed, mist_string_trim-Trimmed}
use kedr_aux.Mist.Strings.Unescape.{mist_string_unescape, mist_string_unescape-escaped}
use kedr_aux.Mist.Strings.Replace.{mist_string_replace, strstr}
use kedr_aux.Mist.Strings.Replace.Laws.{Replaced, finished, next, mist_string_replace-Replaced}
use kedr_aux.Mist.Array.{GrowingArray, grar_append_array}
use kedr_aux.Mist.Array.Reserve.{Appended, Sized, grar_append_array-Appended}
use kedr_aux.Mist.Array.{grar_sort}
use kedr_aux.Mist.Map.{
  StringPair, StringMap, sort_unless_sorted, smap_lookup, smap_check_duplicate_keys,
}
use kedr_aux.Mist.Map.Merge.{smap_update}
use kedr_aux.Mist.Map.Merge.Order.{Sorted}
use kedr_aux.Mist.Map.Merge.Values.{values}
use kedr_aux.Mist.Map.Sorting.{Rearranged}
use kedr_aux.Mist.Map.Update.{Updated, smap_update-Updated}
use kedr_aux.Mist.Map.Lookup.{Found, smap_lookup-Found}
use kedr_aux.Mist.Map.Duplicates.{Duplicate, smap_check_duplicate_keys-Duplicate}
use kedr_aux.Mist.Tests.Library.{
  insertion_sort, insertion_sort-Sorts, linear_search, linear_search-Searches,
}

-- "a.b"
abbrev dotted : List ℕ
dotted = b'a' ∷ b'.' ∷ b'b' ∷ []

abbrev text_of : List ℕ → MistString
text_of t = record { bsize = 16; offset = 0; text = t }

dotted-WellFormed : WellFormed (text_of dotted)
dotted-WellFormed = record { inside = omega arith; small = omega arith }

mist_string-Edits_example :
    Edits (text_of dotted) (b'x' ∷ []) (mist_string_set true (b'x' ∷ []) (text_of dotted))
    × Edits
        (text_of dotted)
        (dotted ++ dotted)
        (mist_string_append true (text_of dotted) (text_of dotted))
    × Edits (text_of dotted) dotted (mist_string_append_range true (0 ∷ b'x' ∷ []) (text_of dotted))
unfolding c_string
mist_string-Edits_example =
    mist_string-Edits true (text_of dotted) dotted-WellFormed (b'x' ∷ []) (0 ∷ b'x' ∷ [])
      (text_of dotted) (omega arith) (omega arith) (omega arith)

-- " x "
abbrev blanks : List ℕ
blanks = b' ' ∷ b'x' ∷ b' ' ∷ []

mist_string_trim-Trimmed_example :
    Trimmed blanks (mist_string_trim (text_of blanks)).text
    × WellFormed (mist_string_trim (text_of blanks))
mist_string_trim-Trimmed_example =
    mist_string_trim-Trimmed (text_of blanks) (record { inside = omega arith; small = omega arith })

-- a backslash and `n`
abbrev newline : MistString
newline = text_of (92 ∷ b'n' ∷ [])

mist_string_unescape-escaped_example :
    (t : MistString) × (mist_string_unescape true true true newline ≡ some (ok, t))
    × (t.text ≡ 10 ∷ [])
mist_string_unescape-escaped_example =
    mist_string_unescape-escaped newline (10 ∷ []) refl (omega arith)

found : strstr dotted (b'.' ∷ []) ≡ some 1
unfolding strstr
found = refl

not_found : strstr (b'b' ∷ []) (b'.' ∷ []) ≡ none
unfolding strstr
not_found = refl

dotted-Replaced : Replaced (b'.' ∷ []) (b'-' ∷ b'-' ∷ []) dotted 1 (b'a' ∷ b'-' ∷ b'-' ∷ b'b' ∷ [])
dotted-Replaced = next 1 0 (b'b' ∷ []) found refl refl (finished not_found refl refl)

mist_string_replace-Replaced_example :
    mist_string_replace true true true (b'.' ∷ []) (b'-' ∷ b'-' ∷ []) (text_of dotted)
    ≡ some (ok, text_of (b'a' ∷ b'-' ∷ b'-' ∷ b'b' ∷ []))
mist_string_replace-Replaced_example =
    mist_string_replace-Replaced (b'.' ∷ []) (b'-' ∷ b'-' ∷ []) (text_of dotted) 1
      (b'a' ∷ b'-' ∷ b'-' ∷ b'b' ∷ []) (omega arith) (omega arith) dotted-Replaced

abbrev full : GrowingArray ℕ
full = record { capacity = 2; items = 7 ∷ 8 ∷ [] }

full-Sized : Sized full
full-Sized = record { positive = omega arith; inside = omega arith }

grar_append_array-Appended_example :
    Appended true full (7 ∷ 8 ∷ []) (grar_append_array true full full)
grar_append_array-Appended_example =
    grar_append_array-Appended true full full-Sized full (omega arith)

-- "a" is 1 and "b" is 2
abbrev pair : ℕ → ℕ → StringPair
pair k v = record { key = k ∷ []; val = v ∷ [] }

abbrev two_pairs : StringMap
two_pairs = record {
  container = record { capacity = 16; items = pair b'b' b'2' ∷ pair b'a' b'1' ∷ [] };
  sorted = false;
}

abbrev one_pair : StringMap
one_pair = record {
  container = record { capacity = 16; items = pair b'b' b'3' ∷ [] };
  sorted = false;
}

unsorted : {P : Type 0} → false ≡ true → P
unsorted e = absurd cc

smap_update-Updated_example :
    Updated true two_pairs one_pair (smap_update insertion_sort true true true two_pairs one_pair)
smap_update-Updated_example =
    smap_update-Updated insertion_sort insertion_sort-Sorts true true true two_pairs one_pair
      unsorted unsorted (omega arith)

smap_lookup-Found_example :
    Found
      (values (b'a' ∷ []) two_pairs.container.items)
      (smap_lookup insertion_sort linear_search (b'a' ∷ []) two_pairs).0
    × Rearranged two_pairs (smap_lookup insertion_sort linear_search (b'a' ∷ []) two_pairs).1
smap_lookup-Found_example =
    smap_lookup-Found insertion_sort insertion_sort-Sorts linear_search linear_search-Searches
      (b'a' ∷ []) two_pairs unsorted

smap_check_duplicate_keys-Duplicate_example :
    Duplicate two_pairs.container.items (smap_check_duplicate_keys insertion_sort two_pairs).0
    × Rearranged two_pairs (smap_check_duplicate_keys insertion_sort two_pairs).1
smap_check_duplicate_keys-Duplicate_example =
    smap_check_duplicate_keys-Duplicate insertion_sort two_pairs insertion_sort-Sorts unsorted

mist_name_is_bad-is_good_name_example : mist_name_is_bad dotted ≡ false
mist_name_is_bad-is_good_name_example = mist_name_is_bad-is_good_name dotted
