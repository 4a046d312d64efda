-- ===== src/Mist/Escaped.antt =====
-- mist_is_char_escaped against a scan from the left.
use kedr_aux.Prelude.{
  ℕ, zero, suc, ◌+◌, ◌%◌, ◌≤◌, Bool, true, false, not, ◌&&◌, List, [], ◌∷◌, ◌++◌, ◌==◌, ◌≡◌, refl,
  ap, ◌∙◌, arith, length, get_elem?-lt, take-suc, take, Bool-cases, inl, inr,
}
use kedr_aux.Mist.Find.{if_slash, count_slashes, mist_is_char_escaped}

-- whether the character behind a text is escaped, read from the left: a backslash that is not
-- escaped escapes the next character
abbrev pub scan : Bool → List ℕ → Bool
scan escaped [] = escaped
scan escaped (c ∷ cs) = scan ((c == 92) && not escaped) cs

scan-append_one :
    (b : Bool) (cs : List ℕ) (c : ℕ) → scan b (cs ++ (c ∷ [])) ≡ ((c == 92) && not (scan b cs))
scan-append_one b [] c = refl
scan-append_one b (d ∷ cs) c = scan-append_one ((d == 92) && not b) cs c

abbrev differ : Bool → Bool → Bool
differ true b = not b
differ false b = b

odd_suc : (n : ℕ) (b : Bool) → differ ((n + 1) % 2 == 1) b ≡ differ (n % 2 == 1) (not b)
odd_suc n true = ground arith
odd_suc n false = ground arith

differ-false : (b : Bool) → b ≡ differ b false
differ-false true = refl
differ-false false = refl

count_slashes-scan :
    (k : ℕ) (src : List ℕ) (cnt : ℕ)
    → k ≤ length src
    → (count_slashes k src cnt % 2 == 1) ≡ differ (cnt % 2 == 1) (scan false (take k src))
unfolding count_slashes
count_slashes-scan zero src cnt h = ground arith
count_slashes-scan (suc k) src cnt h =
    let (c, e) = get_elem?-lt k src (omega arith) in
    let s : scan false (take (suc k) src) ≡ ((c == 92) && not (scan false (take k src))) =
      ap (scan false) (take-suc k src c e) ∙ scan-append_one false (take k src) c in
    ap (λ o. if_slash o (count_slashes k src (cnt + 1)) cnt % 2 == 1) e
    ∙ elim (Bool-cases (c == 92)) [
      | inl q ↦
          rw (q, s, q)
            (count_slashes-scan k src (cnt + 1) (omega arith)
              ∙ odd_suc cnt (scan false (take k src)))
      | inr q ↦ rw (q, s, q) (differ-false (cnt % 2 == 1))
    ]

-- A character of a text, or its end, is escaped just if a scan from the beginning says so.
pub mist_is_char_escaped-scan :
    (pos : ℕ) (src : List ℕ)
    → pos ≤ length src
    → mist_is_char_escaped pos src ≡ scan false (take pos src)
unfolding mist_is_char_escaped
mist_is_char_escaped-scan zero src h = refl
mist_is_char_escaped-scan (suc pos) src h = ground (arith, count_slashes-scan (suc pos) src 0)
