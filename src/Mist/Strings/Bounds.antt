-- ===== src/Mist/Strings/Bounds.antt =====
-- The strings stay within their buffers.
use kedr_aux.Prelude.{
  ℕ, ◌+◌, ◌%◌, ◌^◌, ◌≤◌, ◌<◌, Bool, true, false, Option, some, List, [], ◌∷◌, ◌++◌, ◌≡◌, refl,
  arith, leb, ltb, length, length-append, if◌then◌else◌, Bool-cases, inl, inr,
}
use kedr_aux.Mist.Strings.{
  MistString, ErrorCode, ok, out_of_memory, within, c_string, mist_string_reserve, behind_reserve,
  mist_string_set, mist_string_append, mist_string_append_range,
}

-- the text and its NUL stand in the buffer, whose size is a size_t
pub record WellFormed (ms : MistString) : Type 0 where
  pub inside : ms.offset + length ms.text + 1 ≤ ms.bsize
  pub small : ms.bsize < 2 ^ 64

pub length-c_string : (cs : List ℕ) → length (c_string cs) ≤ length cs
unfolding c_string
length-c_string [] = omega arith
length-c_string (c ∷ cs) = ground (arith, length-c_string cs)

-- What an edit of `ms` may do: leave a well-formed string with the given text, or refuse for want of
-- memory and change nothing. A write outside of the buffer is neither.
pub data Edits (ms : MistString) (text : List ℕ) : Option (ErrorCode × MistString) → Type 0 where
  done : (t : MistString) → WellFormed t → t.text ≡ text → Edits ms text (some (ok, t))
  refused : Edits ms text (some (out_of_memory, ms))

-- the string behind a mist_string_reserve that succeeds
abbrev pub reserved : ℕ → MistString → MistString
reserved size ms = record ms { bsize = if ltb ms.bsize (size + 1) then size + 1 else ms.bsize }

pub reserve-enough :
    (grown : Bool) (size : ℕ) (ms : MistString)
    → ltb ms.bsize (size + 1) ≡ false
    → size + 1 < 2 ^ 64
    → mist_string_reserve grown (size % 2 ^ 64) ms ≡ (ok, ms)
unfolding mist_string_reserve
reserve-enough grown size ms e h =
    let q : (size % 2 ^ 64 + 1) % 2 ^ 64 ≡ size + 1 = omega (arith, h) in rw (q, e) refl

pub reserve-grows :
    (grown : Bool) (size : ℕ) (ms : MistString)
    → ltb ms.bsize (size + 1) ≡ true
    → size + 1 < 2 ^ 64
    → mist_string_reserve grown (size % 2 ^ 64) ms
      ≡ (if grown then (ok, record ms { bsize = size + 1 }) else (out_of_memory, ms))
unfolding mist_string_reserve
reserve-grows grown size ms e h =
    let q : (size % 2 ^ 64 + 1) % 2 ^ 64 ≡ size + 1 = omega (arith, h) in rw (q, e) refl

pub within-le {ℓ} : {A : Type ℓ} (n bsize : ℕ) (r : Option A) → n ≤ bsize → within n bsize r ≡ r
within-le n bsize r h = let e : leb n bsize ≡ true = ground (arith, h) in rw e refl

-- `n` bytes are written behind a reservation of `size`, and `f` tells what the string is then.
behind_reserve-Edits :
    (grown : Bool) (size n : ℕ) (ms : MistString) (text : List ℕ) (f : MistString → MistString)
    → size + 1 < 2 ^ 64
    → n ≤ size
    → ms.bsize < 2 ^ 64
    → ((t : MistString)
        → n ≤ t.bsize
        → t.offset ≡ ms.offset
        → t.bsize < 2 ^ 64
        → WellFormed (f t) × ((f t).text ≡ text))
    → Edits ms text (behind_reserve (mist_string_reserve grown (size % 2 ^ 64) ms) n f)
unfolding behind_reserve
behind_reserve-Edits grown size n ms text f hs hn hb wf =
    elim (Bool-cases (ltb ms.bsize (size + 1))) [
      | inr e ↦
          let fits : n ≤ ms.bsize = ground (arith, e, hn) in
          rw
            (
              reserve-enough grown size ms e hs,
              within-le {A = ErrorCode × MistString} n ms.bsize (some (ok, f ms)) fits,
            )
            (done (f ms) (wf ms fits refl hb).0 (wf ms fits refl hb).1)
      | inl e ↦ rw (reserve-grows grown size ms e hs) (by_grown grown)
    ]
  where
    by_grown :
        (b : Bool)
        → Edits ms text (
            behind_reserve
              (if b then (ok, record ms { bsize = size + 1 }) else (out_of_memory, ms))
              n
              f)
    by_grown true =
        let t : MistString = record ms { bsize = size + 1 } in
        rw
          (within-le {A = ErrorCode × MistString} n (size + 1) (some (ok, f t)) (omega (arith, hn)))
          (done (f t) (wf t (omega (arith, hn)) refl hs).0 (wf t (omega (arith, hn)) refl hs).1)
    by_grown false = refused

module _ (grown : Bool) (ms : MistString) (wf : WellFormed ms) where
  -- If all fits a size_t, mist_string_set stays in its buffer, and sets the text or refuses.
  set-Edits : (src : List ℕ) → length src + 2 < 2 ^ 64 → Edits ms src (mist_string_set grown src ms)
  unfolding mist_string_set
  set-Edits src h =
      behind_reserve-Edits grown (length src + 1) (length src + 1) ms src _ (omega (arith, h))
        (omega arith) wf.small (λ t n o s. (record { inside = omega (arith, n); small = s }, refl))

  append-Edits :
      (what : MistString)
      → ms.offset + length ms.text + length what.text + 2 < 2 ^ 64
      → Edits ms (ms.text ++ what.text) (mist_string_append grown what ms)
  unfolding mist_string_append
  append-Edits what h =
      behind_reserve-Edits grown (ms.offset + length ms.text + length what.text + 1)
        (ms.offset + length ms.text + length what.text + 1) ms (ms.text ++ what.text) _
        (omega (arith, h)) (omega arith) wf.small
        (λ t n o s. (
          record { inside = omega (arith, n, o, length-append ms.text what.text); small = s },
          refl,
        ))

  append_range-Edits :
      (range : List ℕ)
      → ms.offset + length ms.text + length range + 2 < 2 ^ 64
      → Edits ms (ms.text ++ c_string range) (mist_string_append_range grown range ms)
  unfolding mist_string_append_range
  append_range-Edits range h =
      behind_reserve-Edits grown (ms.offset + length ms.text + length range + 1)
        (ms.offset + length ms.text + length (c_string range) + 1) ms (ms.text ++ c_string range) _
        (omega (arith, h)) (omega (arith, length-c_string range)) wf.small
        (λ t n o s. (
          record {
            inside = omega (arith, n, o, length-append ms.text (c_string range));
            small = s;
          },
          refl,
        ))

  -- On a well-formed string, if what is asked for fits a size_t, mist_string_set, mist_string_append
  -- and mist_string_append_range write inside of the buffer only. Each sets or appends its text and
  -- leaves a well-formed string, or it returns MIST_OUT_OF_MEMORY and changes nothing.
  pub mist_string-Edits :
      (src range : List ℕ) (what : MistString)
      → length src + 2 < 2 ^ 64
      → ms.offset + length ms.text + length what.text + 2 < 2 ^ 64
      → ms.offset + length ms.text + length range + 2 < 2 ^ 64
      → Edits ms src (mist_string_set grown src ms)
        × Edits ms (ms.text ++ what.text) (mist_string_append grown what ms)
        × Edits ms (ms.text ++ c_string range) (mist_string_append_range grown range ms)
  mist_string-Edits src range what hs hw hr =
      (set-Edits src hs, append-Edits what hw, append_range-Edits range hr)
