-- ===== src/Calc/Names.antt =====
-- The search for a name, and the values of numbers.
use kedr_aux.Prelude.{
  ℕ, zero, suc, ◌+◌, ◌-◌, ◌*◌, ◌^◌, ◌<◌, true, false, some, List, [], ◌∷◌, ◌++◌, peek, length, ◌≡◌,
  ◌≢◌, refl, sym, ap, ◌∙◌, arith, ◌↔◌, Bool-cases, inl, inr, subst,
}
use mathlib.Core.Bool.{false≢true}
use native.Mathlib.Nat.{pow-suc}
use kedr_aux.Calc.Essence.{CalcInt}
use kedr_aux.Calc.Env.{is_substr_equal, search_names}
use kedr_aux.Calc.Lex.{isdigit, number10_from, parse_number10}

-- a C string's bytes, its NUL not among them
abbrev pub NoNul : List ℕ → Type 0
NoNul [] = Unit
NoNul (c ∷ cs) = (0 < c) × NoNul cs

is_substr_equal_sound :
    (name rest orig : List ℕ)
    → NoNul name
    → NoNul orig
    → is_substr_equal (name ++ rest) (length name) orig ≡ true
    → name ≡ orig
unfolding is_substr_equal
is_substr_equal_sound [] rest [] hn ho e = refl
is_substr_equal_sound [] rest (d ∷ orig) hn ho e = ground arith
is_substr_equal_sound (c ∷ name) rest [] hn ho e = ground arith
is_substr_equal_sound (c ∷ name) rest (d ∷ orig) hn ho e =
    ground (arith, is_substr_equal_sound name rest orig)

is_substr_equal_complete :
    (name rest : List ℕ) → is_substr_equal (name ++ rest) (length name) name ≡ true
unfolding is_substr_equal
is_substr_equal_complete [] rest = refl
is_substr_equal_complete (c ∷ name) rest = ground (arith, is_substr_equal_complete name rest)

-- For C strings, is_substr_equal of a name with its length and a string holds exactly if they are
-- equal, whatever follows the name.
pub is_substr_equal_iff :
    (name rest orig : List ℕ)
    → NoNul name
    → NoNul orig
    → (is_substr_equal (name ++ rest) (length name) orig ≡ true) ↔ (name ≡ orig)
is_substr_equal_iff name rest orig hn ho =
    (is_substr_equal_sound name rest orig hn ho, λ e. rw (← e) (is_substr_equal_complete name rest))

-- `k` is the first place of a name in an array.
abbrev pub First : List ℕ → List (List ℕ) → ℕ → Type 0
First name [] k = ⊥
First name (v ∷ vs) zero = name ≡ v
First name (v ∷ vs) (suc k) = (name ≢ v) × First name vs k

abbrev pub AllNoNul : List (List ℕ) → Type 0
AllNoNul [] = Unit
AllNoNul (v ∷ vs) = NoNul v × AllNoNul vs

search_from :
    (name rest : List ℕ) (i : ℕ) (vs : List (List ℕ)) (k : ℕ)
    → NoNul name
    → AllNoNul vs
    → search_names (name ++ rest) (length name) i vs ≡ some k
    → (m : ℕ) × (k ≡ i + m) × First name vs m
unfolding search_names
search_from name rest i [] k hn hs e = cc
search_from name rest i (v ∷ vs) k hn hs e =
    elim (Bool-cases (is_substr_equal (name ++ rest) (length name) v)) [
      | inl h ↦ (0, ground arith, (is_substr_equal_iff name rest v hn hs.0).0 h)
      | inr h ↦
          later (search_from name rest (i + 1) vs k hn hs.1 (ground arith))
            (λ q. false≢true (sym h ∙ (is_substr_equal_iff name rest v hn hs.0).1 q))
    ]
  where
    later :
        (m : ℕ) × (k ≡ i + 1 + m) × First name vs m
        → name ≢ v
        → (m : ℕ) × (k ≡ i + m) × First name (v ∷ vs) m
    later (m, p, f) n = (suc m, omega arith, (n, f))

-- For C strings, the index that parse_data_search_variable or parse_data_search_weak_variable finds
-- is the first place of the name.
pub search_names-First :
    (name rest : List ℕ) (vs : List (List ℕ)) (k : ℕ)
    → NoNul name
    → AllNoNul vs
    → search_names (name ++ rest) (length name) 0 vs ≡ some k
    → First name vs k
search_names-First name rest vs k hn hs e =
    let (m, p, f) = search_from name rest 0 vs k hn hs e in
    let q : m ≡ k = omega arith in subst (First name vs) q f

-- the digits of a number, as their values
abbrev pub AllDigits : List ℕ → Type 0
AllDigits [] = Unit
AllDigits (d ∷ ds) = (d < 10) × AllDigits ds

abbrev pub decimal : List ℕ → ℕ
decimal [] = 0
decimal (d ∷ ds) = d * 10 ^ length ds + decimal ds

abbrev pub digit_chars : List ℕ → List ℕ
digit_chars [] = []
digit_chars (d ∷ ds) = (d + b'0') ∷ digit_chars ds

-- What parse_number10 relies on of kedr_calc_int_t: sums and products of constants.
pub record IsInt {A : Type 0} (ops : CalcInt A) : Type 0 where
  pub add_of_int : (m n : ℕ) → ops.add (ops.of_int m) (ops.of_int n) ≡ ops.of_int (m + n)
  pub mul_of_int : (m n : ℕ) → ops.mul (ops.of_int m) (ops.of_int n) ≡ ops.of_int (m * n)

module _ {A : Type 0} (ops : CalcInt A) (int : IsInt ops) where
  number10_from-digits :
      (acc : ℕ) (ds rest : List ℕ)
      → AllDigits ds
      → isdigit (peek rest) ≡ false
      → number10_from ops (ops.of_int acc) (digit_chars ds ++ rest)
        ≡ (ops.of_int (acc * 10 ^ length ds + decimal ds), rest)
  unfolding number10_from
  number10_from-digits acc [] [] h e = ap (λ n. (ops.of_int n, [])) (omega arith)
  number10_from-digits acc [] (c ∷ cs) h e = rw e (ap (λ n. (ops.of_int n, c ∷ cs)) (omega arith))
  number10_from-digits acc (d ∷ ds) rest h e =
      rw (is_digit d h.0, int.mul_of_int, int.add_of_int)
        (number10_from-digits (acc * 10 + (d + b'0' - b'0')) ds rest h.1 e
          ∙ ap (λ n. (ops.of_int n, rest))
              (regroup acc d (10 ^ length ds) (decimal ds) (10 ^ suc (length ds))
                (pow-suc 10 (length ds))))
    where
      is_digit : (d : ℕ) → d < 10 → isdigit (d + b'0') ≡ true
      is_digit d h = ground arith

      regroup :
          (a d p t q : ℕ) → q ≡ p * 10 → (a * 10 + (d + b'0' - b'0')) * p + t ≡ a * q + (d * p + t)
      regroup a d p t q e =
          let back : d + b'0' - b'0' ≡ d = omega arith in rw (back, e) (omega arith)

  -- If sums and products of constants of kedr_calc_int_t are those of numbers, parse_number10 reads
  -- the longest run of decimal digits, and its value is that of the digits by their places.
  pub parse_number10-digits :
      (d : ℕ) (ds rest : List ℕ)
      → AllDigits (d ∷ ds)
      → isdigit (peek rest) ≡ false
      → parse_number10 ops (digit_chars (d ∷ ds) ++ rest)
        ≡ some (ops.of_int (decimal (d ∷ ds)), rest)
  unfolding parse_number10
  parse_number10-digits d ds rest h e = rw (is_digit d h.0) (
      ap some (
        number10_from-digits (d + b'0' - b'0') ds rest h.1 e
        ∙ ap (λ n. (ops.of_int (n * 10 ^ length ds + decimal ds), rest)) (back d)))
    where
      is_digit : (d : ℕ) → d < 10 → isdigit (d + b'0') ≡ true
      is_digit d h = ground arith

      back : (d : ℕ) → d + b'0' - b'0' ≡ d
      back d = omega arith
