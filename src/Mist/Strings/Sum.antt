-- ===== src/Mist/Strings/Sum.antt =====
-- The strings that are made: mist_string_create_from_range and mist_string_sum.
use kedr_aux.Prelude.{
  ℕ, ◌+◌, ◌*◌, ◌/◌, ◌%◌, ◌^◌, ◌≤◌, ◌<◌, Bool, true, false, not, ◌&&◌, Option, none, some, List, [],
  ◌++◌, ◌≡◌, refl, ◌∙◌, ap, arith, ltb, length, if◌then◌else◌, Bool-cases, inl, inr,
}
use kedr_aux.Mist.Strings.{
  MistString, ErrorCode, ok, out_of_memory, c_string, mist_string_reserve, behind_reserve,
  mist_string_set, mist_string_append, mist_string_create_from_range, mist_string_sum, sum_append,
  sum_set,
}
use kedr_aux.Mist.Strings.Bounds.{
  WellFormed, reserve-enough, reserve-grows, within-le, length-c_string,
}

created : (n : ℕ) → n + 16 < 2 ^ 64 → n + 1 ≤ (n + 16) % 2 ^ 64 / 16 * 16
created n h = omega arith

created_small : (n : ℕ) → (n + 16) % 2 ^ 64 / 16 * 16 < 2 ^ 64
created_small n = omega arith

-- If the length fits, mist_string_create_from_range writes inside of its buffer, and it returns a
-- well-formed string with the range's bytes before the first NUL, or NULL for want of memory.
pub mist_string_create_from_range-WellFormed :
    (allocated allocated' : Bool) (range : List ℕ)
    → length range + 16 < 2 ^ 64
    → (o : Option MistString) × (mist_string_create_from_range allocated allocated' range ≡ some o)
      × ((t : MistString) → o ≡ some t → WellFormed t × (t.text ≡ c_string range))
      × (o ≡ none → (allocated && allocated') ≡ false)
unfolding mist_string_create_from_range
mist_string_create_from_range-WellFormed true true range h = (
  some made,
  within-le {A = Option MistString} (length range + 1) made.bsize (some (some made))
      (created (length range) h),
  λ t e. is_made t (the_some e),
  λ e. cc,
)
  where
    made : MistString
    made = record {
      bsize = (length range + 16) % 2 ^ 64 / 16 * 16;
      offset = 0;
      text = c_string range;
    }

    the_some : {a b : MistString} → some a ≡ some b → a ≡ b
    the_some q = cc

    is_made : (t : MistString) → made ≡ t → WellFormed t × (t.text ≡ c_string range)
    is_made t e = rw (← e) (
      record {
        inside = omega (arith, length-c_string range, created (length range) h);
        small = created_small (length range);
      },
      refl,
    )
mist_string_create_from_range-WellFormed true false range h = (none, refl, λ t e. cc, λ e. refl)
mist_string_create_from_range-WellFormed false allocated' range h =
    (none, refl, λ t e. cc, λ e. refl)

module _ (left right : MistString) (h : length left.text + length right.text + 3 < 2 ^ 64) where
  -- the string that mist_string_sum has behind its mist_string_reserve
  abbrev roomy : MistString
  roomy = record {
    bsize =
        if ltb 16 (length left.text + length right.text + 1 + 1)
        then length left.text + length right.text + 1 + 1
        else 16;
    offset = 0;
    text = [];
  }

  room : (length left.text + length right.text + 1 + 1 ≤ roomy.bsize) × (roomy.bsize < 2 ^ 64)
  room = (ground (arith, h), ground (arith, h))

  set-room :
      (grown : Bool)
      → mist_string_set grown left.text roomy ≡ some (ok, record roomy { text = left.text })
  unfolding mist_string_set behind_reserve
  set-room grown =
      rw
        (reserve-enough grown (length left.text + 1) roomy (ground (arith, room.0))
          (omega (arith, h)))
        (within-le {A = ErrorCode × MistString} (length left.text + 1) roomy.bsize _
          (omega (arith, room.0)))

  append-room :
      (grown : Bool)
      → mist_string_append grown right (record roomy { text = left.text })
        ≡ some (ok, record roomy { text = left.text ++ right.text })
  unfolding mist_string_append behind_reserve
  append-room grown =
      rw
        (reserve-enough grown (0 + length left.text + length right.text + 1)
          (record roomy { text = left.text }) (ground (arith, room.0)) (omega (arith, h)))
        (within-le {A = ErrorCode × MistString} (0 + length left.text + length right.text + 1)
          roomy.bsize _ (omega (arith, room.0)))

  abbrev fresh : MistString
  fresh = record { bsize = 16; offset = 0; text = [] }

  fresh-reserve :
      (grown : Bool)
      → mist_string_reserve grown ((length left.text + length right.text + 1) % 2 ^ 64) fresh ≡ (
          if ltb 16 (length left.text + length right.text + 1 + 1) && not grown
          then (out_of_memory, fresh)
          else (ok, roomy))
  fresh-reserve grown = elim (Bool-cases (ltb 16 (length left.text + length right.text + 1 + 1))) [
    | inr e ↦
        rw e (
          reserve-enough grown (length left.text + length right.text + 1) fresh e
            (omega (arith, h)))
    | inl e ↦ rw e (
        reserve-grows grown (length left.text + length right.text + 1) fresh e (omega (arith, h))
        ∙ by_grown grown)
  ]
    where
      by_grown :
          (b : Bool)
          → ◌≡◌ {A = ErrorCode × MistString}
              (if b
                then (ok, record fresh { bsize = length left.text + length right.text + 1 + 1 })
                else (out_of_memory, fresh))
              (if true && not b
                then (out_of_memory, fresh)
                else (ok, record fresh { bsize = length left.text + length right.text + 1 + 1 }))
      by_grown true = refl
      by_grown false = refl

  sum_set-room :
      (grown' grown'' : Bool)
      → sum_set grown' grown'' left right (ok, roomy)
        ≡ some (some (record roomy { text = left.text ++ right.text }))
  unfolding sum_set sum_append
  sum_set-room grown' grown'' = rw (set-room grown', append-room grown'') refl

  -- If the lengths fit, mist_string_sum writes inside of its buffers, and it returns the two texts one
  -- behind the other, or NULL if one of its first two allocations fails, or the first realloc where
  -- the text does not fit in 16 bytes; the calls of realloc behind it are never made.
  pub mist_string_sum-append :
      (allocated allocated' grown grown' grown'' : Bool)
      → mist_string_sum allocated allocated' grown grown' grown'' left right
        ≡ some (
            if allocated
              && allocated'
              && not (ltb 16 (length left.text + length right.text + 1 + 1) && not grown)
            then some (record roomy { text = left.text ++ right.text })
            else none)
  unfolding mist_string_sum
  mist_string_sum-append true true grown grown' grown'' =
      ap (sum_set grown' grown'' left right) (fresh-reserve grown)
      ∙ by_failed (ltb 16 (length left.text + length right.text + 1 + 1) && not grown)
    where
      by_failed :
          (b : Bool)
          → sum_set grown' grown'' left right (if b then (out_of_memory, fresh) else (ok, roomy))
            ≡ some (if not b then some (record roomy { text = left.text ++ right.text }) else none)
      by_failed true = refl
      by_failed false = sum_set-room grown' grown''
  mist_string_sum-append true false grown grown' grown'' = refl
  mist_string_sum-append false allocated' grown grown' grown'' = refl
