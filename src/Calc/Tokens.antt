-- ===== src/Calc/Tokens.antt =====
-- What the lexer does to the text: it only moves forward, and its indices are in range.
use kedr_aux.Prelude.{
  ℕ, zero, suc, ◌+◌, ◌-◌, ◌≤◌, ◌<◌, Bool, true, false, ◌&&◌, ◌||◌, Option, none, some, List, [],
  ◌∷◌, peek, drop, length, length-drop, ◌==◌, ◌≡◌, refl, arith, Bool-cases, inl, inr,
}
use kedr_aux.Calc.Essence.{CalcInt}
use kedr_aux.Calc.Env.{Env, search_const, search_names}
use kedr_aux.Calc.Lex.{
  Token, isspace, isdigit, isalpha, hdigit_to_value, skip_spaces, name_run, number10_from,
  number16_from, parse_number10, parse_number16, name_token, number_token, symbol_token, char_token,
  lex_here, lex,
}

-- whether a '?' is left in a text
abbrev pub has_question : List ℕ → Bool
has_question [] = false
has_question (c ∷ cs) = (c == b'?') || has_question cs

module _ {A : Type 0} where
  abbrev pub is_question : Token A → Bool
  is_question Token.cond_first = true
  is_question _ = false

  -- whether parse_data_next_token may be called with this token current
  abbrev pub can_advance : Token A → Bool
  can_advance Token.error = false
  can_advance Token.eof = false
  can_advance _ = true

  abbrev pub InRange : Env A → Token A → Type 0
  InRange env (Token.variable i) = i < length env.var_names
  InRange env (Token.weak_variable i) = i < length env.weak_vars
  InRange env _ = Unit

has_question-drop : (n : ℕ) (cs : List ℕ) → has_question (drop n cs) ≡ true → has_question cs ≡ true
has_question-drop zero cs h = h
has_question-drop (suc n) [] h = h
has_question-drop (suc n) (c ∷ cs) h = ground (arith, has_question-drop n cs)

-- What a step of the lexer from `text` to the token `t` and the text `rest` guarantees.
pub record Lexed {A : Type 0} (env : Env A) (text : List ℕ) (t : Token A) (rest : List ℕ)
    : Type 0 where
  pub moves : length rest ≤ length text
  pub consumes : can_advance t ≡ true → length rest < length text
  pub question : (is_question t || has_question rest) ≡ true → has_question text ≡ true
  pub in_range : InRange env t

search_names-lt :
    (name : List ℕ) (len i : ℕ) (vs : List (List ℕ)) (k : ℕ)
    → search_names name len i vs ≡ some k
    → k < i + length vs
unfolding search_names
search_names-lt name len i [] k h = ground arith
search_names-lt name len i (v ∷ vs) k h = ground (arith, search_names-lt name len (i + 1) vs k)

module _ {A : Type 0} (env : Env A) where
  chosen-InRange :
      (c : Option A) (v w : Option ℕ)
      → ((k : ℕ) → v ≡ some k → k < 0 + length env.var_names)
      → ((k : ℕ) → w ≡ some k → k < 0 + length env.weak_vars)
      → InRange env (elim c [
        | some a ↦ Token.constant a
        | none ↦ elim v [
          | some i ↦ Token.variable i
          | none ↦ elim w [ some i ↦ Token.weak_variable i | none ↦ Token.error ]
        ]
      ])
  chosen-InRange (some a) v w hv hw = tt
  chosen-InRange none (some i) w hv hw = omega (arith, hv i refl)
  chosen-InRange none none (some i) hv hw = omega (arith, hw i refl)
  chosen-InRange none none none hv hw = tt

  name_token-InRange : (text : List ℕ) (len : ℕ) → InRange env (name_token env text len)
  unfolding name_token
  name_token-InRange text len =
      chosen-InRange (search_const text len env.const_vec) (search_names text len 0 env.var_names)
        (search_names text len 0 env.weak_vars) (search_names-lt text len 0 env.var_names)
        (search_names-lt text len 0 env.weak_vars)

  name_token-is_question : (text : List ℕ) (len : ℕ) → is_question (name_token env text len) ≡ false
  unfolding name_token
  name_token-is_question text len = ground arith

  name_Lexed :
      (c : ℕ) (cs : List ℕ) (len : ℕ)
      → Lexed env (c ∷ cs) (name_token env (c ∷ cs) (len + 1)) (drop (len + 1) (c ∷ cs))
  name_Lexed c cs len = record {
    moves = omega (arith, length-drop (len + 1) (c ∷ cs));
    consumes = λ _. omega (arith, length-drop (len + 1) (c ∷ cs));
    question = λ h.
        ground
          (arith, name_token-is_question (c ∷ cs) (len + 1), has_question-drop (len + 1) (c ∷ cs));
    in_range = name_token-InRange (c ∷ cs) (len + 1);
  }

  symbol_Lexed :
      (c : ℕ) (cs : List ℕ) → let (t, rest) = symbol_token {A = A} c cs in Lexed env (c ∷ cs) t rest
  unfolding symbol_token
  symbol_Lexed c [] = ground arith
  symbol_Lexed c (d ∷ cs) = ground arith

  Lexed-cons :
      {c : ℕ} {cs rest : List ℕ} {t : Token A} → Lexed env cs t rest → Lexed env (c ∷ cs) t rest
  Lexed-cons h = record {
    moves = omega (arith, h.moves);
    consumes = λ p. omega (arith, h.consumes p);
    question = λ p. ground (arith, h.question p);
    in_range = h.in_range;
  }

-- what the loops over digits leave
record Consumed (text rest : List ℕ) : Type 0 where
  shorter : length rest ≤ length text
  kept : has_question rest ≡ true → has_question text ≡ true

module _ {A : Type 0} (ops : CalcInt A) where
  number10_from-Consumed : (acc : A) (cs : List ℕ) → Consumed cs (number10_from ops acc cs).1
  unfolding number10_from
  number10_from-Consumed acc [] = ground arith
  number10_from-Consumed acc (c ∷ cs) = ground (
    arith,
    number10_from-Consumed (ops.add (ops.mul acc (ops.of_int 10)) (ops.of_int (c - b'0'))) cs,
  )

  number16_from-Consumed : (acc : A) (cs : List ℕ) → Consumed cs (number16_from ops acc cs).1
  unfolding number16_from
  number16_from-Consumed acc [] = ground arith
  number16_from-Consumed acc (c ∷ cs) = ground (
    arith,
    number16_from-Consumed
        (ops.add (ops.mul acc (ops.of_int 16)) (ops.of_int (hdigit_to_value ops c))) cs,
  )

module _ {A : Type 0} (ops : CalcInt A) (env : Env A) where
  number10_Lexed :
      (c : ℕ) (cs : List ℕ)
      → let (t, rest) = number_token (c ∷ cs) (parse_number10 ops (c ∷ cs)) in
        Lexed env (c ∷ cs) t rest
  unfolding parse_number10 number_token
  number10_Lexed c cs = ground (arith, number10_from-Consumed ops (ops.of_int (c - b'0')) cs)

  number16_Lexed :
      (c : ℕ) (cs : List ℕ)
      → let (t, rest) = number_token (c ∷ cs) (parse_number16 ops (drop 1 cs)) in
        Lexed env (c ∷ cs) t rest
  unfolding parse_number16 number_token
  number16_Lexed c [] = ground arith
  number16_Lexed c (x ∷ []) = ground arith
  number16_Lexed c (x ∷ d ∷ ds) =
      ground (arith, number16_from-Consumed ops (ops.of_int (hdigit_to_value ops d)) ds)

  char_Lexed :
      (c : ℕ) (cs : List ℕ) → let (t, rest) = char_token ops env c cs in Lexed env (c ∷ cs) t rest
  unfolding char_token
  char_Lexed c cs = elim (Bool-cases (isalpha c || (c == b'_'))) [
    | inl e ↦ rw e (name_Lexed env c cs (name_run cs))
    | inr e ↦ rw e (elim (Bool-cases (isdigit c)) [
      | inl d ↦ rw d (elim (Bool-cases ((c == b'0') && ((peek cs == b'x') || (peek cs == b'X')))) [
        | inl x ↦ rw x (number16_Lexed c cs)
        | inr x ↦ rw x (number10_Lexed c cs)
      ])
      | inr d ↦ rw d (symbol_Lexed env c cs)
    ])
  ]

  here_Lexed : (text : List ℕ) → let (t, rest) = lex_here ops env text in Lexed env text t rest
  unfolding lex_here
  here_Lexed [] = ground arith
  here_Lexed (zero ∷ cs) = ground arith
  here_Lexed (suc c ∷ cs) = char_Lexed (suc c) cs

  -- From every text parse_data_next_token leaves a text that is no longer, shorter if the token is
  -- no error and not the end, with a '?' only if there was one, and an index in range.
  pub lex-Lexed : (text : List ℕ) → let (t, rest) = lex ops env text in Lexed env text t rest
  unfolding lex
  lex-Lexed text = skipped text
    where
      skipped :
          (cs : List ℕ) → let (t, rest) = lex_here ops env (skip_spaces cs) in Lexed env cs t rest
      skipped [] = here_Lexed []
      skipped (c ∷ cs) = elim (Bool-cases (isspace c)) [
        | inl e ↦ rw e (Lexed-cons env (skipped cs))
        | inr e ↦ rw e (here_Lexed (c ∷ cs))
      ]
