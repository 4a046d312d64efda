-- ===== src/Mist/Strings.antt =====
-- mist_string_utils.c: CMistString. How malloc and realloc end are arguments.
use kedr_aux.Prelude.{
  ℕ, zero, suc, ◌+◌, ◌-◌, ◌*◌, ◌/◌, ◌%◌, ◌^◌, Bool, true, false, ◌&&◌, Option, none, some, List, [],
  ◌∷◌, ◌++◌, ◌==◌, leb, ltb, length, take, drop, if◌then◌else◌,
}
use kedr_aux.Mist.Find.{mist_find_in_range_first_not_of, mist_find_in_range_last_not_of}
pub mod Bounds
pub mod Sum
pub mod Trim
pub mod Replace
pub mod Unescape

-- CMistString: the size of `buf`, the offset of `str` in it, and the bytes from `str` to the NUL
pub record MistString : Type 0 where
  pub bsize : ℕ
  pub offset : ℕ
  pub text : List ℕ

-- EMistErrorCode, as far as these functions return it
pub data ErrorCode : Type 0 where
  ok out_of_memory : ErrorCode

-- writes up to the given number of bytes of a buffer; `none` is a write behind its end
abbrev pub within {ℓ} : {A : Type ℓ} → ℕ → ℕ → Option A → Option A
within n bsize r = if leb n bsize then r else none

-- the bytes before the first NUL, which is where strncpy and strncat stop
unfoldable pub c_string : List ℕ → List ℕ
c_string [] = []
c_string (c ∷ cs) = let rest = c_string cs in if c == 0 then [] else c ∷ rest

unfoldable pub mist_string_create_from_range : Bool → Bool → List ℕ → Option (Option MistString)
unfolding c_string
mist_string_create_from_range allocated allocated' range =
    let bsize = (length range + 16) % 2 ^ 64 / 16 * 16 in
    if allocated && allocated'
    then within (length range + 1) bsize
        (some (some (record { bsize = bsize; offset = 0; text = c_string range })))
    else some none

-- NULL is `none`
unfoldable pub mist_string_create : Bool → Bool → Option (List ℕ) → Option (Option MistString)
mist_string_create allocated allocated' none = mist_string_create_from_range allocated allocated' []
mist_string_create allocated allocated' (some init) =
    mist_string_create_from_range allocated allocated' init

unfoldable pub mist_string_reserve : Bool → ℕ → MistString → ErrorCode × MistString
mist_string_reserve grown size ms =
    let new_size = (size + 1) % 2 ^ 64 in
    if ltb ms.bsize new_size
    then (if grown then (ok, record ms { bsize = new_size }) else (out_of_memory, ms))
    else (ok, ms)

unfoldable pub mist_string_reset : MistString → Option MistString
mist_string_reset ms = within 1 ms.bsize (some (record ms { offset = 0; text = [] }))

-- what the functions do behind mist_string_reserve: return its error, or write up to `n` bytes
unfoldable pub behind_reserve :
    ErrorCode × MistString → ℕ → (MistString → MistString) → Option (ErrorCode × MistString)
behind_reserve (ok, ms) n f = within n ms.bsize (some (ok, f ms))
behind_reserve (out_of_memory, ms) n f = some (out_of_memory, ms)

unfoldable pub mist_string_set : Bool → List ℕ → MistString → Option (ErrorCode × MistString)
unfolding behind_reserve mist_string_reserve
mist_string_set grown src ms =
    behind_reserve (mist_string_reserve grown ((length src + 1) % 2 ^ 64) ms) (length src + 1)
      (λ t. record t { offset = 0; text = src })

unfoldable pub mist_string_append : Bool → MistString → MistString → Option (ErrorCode × MistString)
unfolding behind_reserve mist_string_reserve
mist_string_append grown what ms =
    behind_reserve
      (mist_string_reserve grown ((ms.offset + length ms.text + length what.text + 1) % 2 ^ 64) ms)
      (ms.offset + length ms.text + length what.text + 1)
      (λ t. record t { text = ms.text ++ what.text })

unfoldable pub mist_string_append_range :
    Bool → List ℕ → MistString → Option (ErrorCode × MistString)
unfolding behind_reserve mist_string_reserve c_string
mist_string_append_range grown range ms =
    behind_reserve
      (mist_string_reserve grown ((ms.offset + length ms.text + length range + 1) % 2 ^ 64) ms)
      (ms.offset + length ms.text + length (c_string range) + 1)
      (λ t. record t { text = ms.text ++ c_string range })

-- The part of mist_string_sum behind its mist_string_create, which fails with NULL on any error.
-- mist_string_set and mist_string_append call realloc only if what is reserved before is too small.
abbrev pub null_on_error : Option (ErrorCode × MistString) → Option (Option MistString)
null_on_error none = none
null_on_error (some (ok, t)) = some (some t)
null_on_error (some (out_of_memory, t)) = some none

unfoldable pub sum_append :
    Bool → MistString → Option (ErrorCode × MistString) → Option (Option MistString)
sum_append grown right none = none
sum_append grown right (some (ok, t)) = null_on_error (mist_string_append grown right t)
sum_append grown right (some (out_of_memory, t)) = some none

unfoldable pub sum_set :
    Bool → Bool → MistString → MistString → ErrorCode × MistString → Option (Option MistString)
sum_set grown' grown'' left right (ok, t) =
    sum_append grown'' right (mist_string_set grown' left.text t)
sum_set grown' grown'' left right (out_of_memory, t) = some none

unfoldable pub sum_reserve :
    Bool
    → Bool
    → Bool
    → MistString
    → MistString
    → Option (Option MistString)
    → Option (Option MistString)
sum_reserve grown grown' grown'' left right none = none
sum_reserve grown grown' grown'' left right (some none) = some none
sum_reserve grown grown' grown'' left right (some (some t)) =
    sum_set grown' grown'' left right
      (mist_string_reserve grown ((length left.text + length right.text + 1) % 2 ^ 64) t)

unfoldable pub mist_string_sum :
    Bool → Bool → Bool → Bool → Bool → MistString → MistString → Option (Option MistString)
unfolding sum_reserve sum_set sum_append mist_string_create mist_string_create_from_range
    mist_string_set mist_string_append mist_string_reserve behind_reserve
mist_string_sum allocated allocated' grown grown' grown'' left right =
    sum_reserve grown grown' grown'' left right (mist_string_create allocated allocated' none)

-- `seps` of mist_string_trim
abbrev pub seps : List ℕ
seps = b' ' ∷ 9 ∷ 10 ∷ 13 ∷ []

-- where mist_string_trim puts the NUL: at the end, or behind the last byte that is no separator
abbrev pub end_new : List ℕ → ℕ
end_new text =
    let last = mist_find_in_range_last_not_of text seps in
    if last == length text then last else suc last

unfoldable pub mist_string_trim : MistString → MistString
mist_string_trim ms =
    let beg_new = mist_find_in_range_first_not_of ms.text seps in
    if length ms.text == 0
    then ms
    else if beg_new == length ms.text
    then record ms { text = [] }
    else record ms {
      offset = ms.offset + beg_new;
      text = drop beg_new (take (end_new ms.text) ms.text);
    }

unfoldable pub mist_string_swap : MistString → MistString → MistString × MistString
mist_string_swap lhs rhs = (rhs, lhs)

-- the text that mist_string_detach returns, which it moves to the beginning of the buffer
unfoldable pub mist_string_detach : MistString → List ℕ
mist_string_detach ms = ms.text
