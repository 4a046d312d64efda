-- ===== src/Calc/Precedence/Levels.antt =====
-- enum priorities against the levels of C's operators.
use kedr_aux.Prelude.{ℕ, ◌+◌, ◌*◌, ◌≤◌, ◌<◌, true, none, some, ◌≡◌, refl, arith, ◌⊎◌}
use kedr_aux.Calc.Essence.{EssenceType, is_binary}
use kedr_aux.Calc.Lex.{Token}
use kedr_aux.Calc.Parse.{binary_op}
use kedr_aux.Calc.Print.{level, token_of, Follow}
use kedr_aux.Calc.Tokens.{can_advance}

module _ {A : Type 0} where
  -- the tokens at which the loop of a call of parse_data_parse with this priority returns
  abbrev pub Stops : ℕ → Token A → Type 0
  Stops p Token.eof = Unit
  Stops p Token.close_parenthesis = Unit
  Stops p Token.cond_second = Unit
  Stops p Token.cond_first = 2 < p
  Stops p k = elim (binary_op k) [ some b ↦ b.left < p | none ↦ ⊥ ]

  pub Follow-Stops : (m p : ℕ) (k : Token A) → Follow m k → (m ≡ 0) ⊎ (2 * m + 1 < p) → Stops p k
  unfolding binary_op level
  Follow-Stops m p Token.eof f h = tt
  Follow-Stops m p _ f h = ground arith

  pub Follow-Stops_unary : (m p : ℕ) (k : Token A) → Follow m k → 23 ≤ p → Stops p k
  unfolding binary_op level
  Follow-Stops_unary m p Token.eof f h = tt
  Follow-Stops_unary m p _ f h = ground arith

  pub Follow-mono : (m n : ℕ) (k : Token A) → Follow m k → m ≤ n → Follow n k
  unfolding binary_op level
  Follow-mono m n Token.eof f h = tt
  Follow-mono m n _ f h = ground arith

-- The priorities of a binary operator's operands, by its level.
pub binary_op-token_of :
    (A : Type 0) (t : EssenceType)
    → is_binary t ≡ true
    → binary_op (token_of {A = A} t)
      ≡ some (record { type = t; left = 2 * level t + 1; right = 2 * level t + 2 })
unfolding binary_op level token_of is_binary
binary_op-token_of A EssenceType.multiply h = refl
binary_op-token_of A _ h = ground arith

pub level-pos : (t : EssenceType) → is_binary t ≡ true → (1 ≤ level t) × (level t ≤ 10)
unfolding level is_binary
level-pos EssenceType.multiply h = omega arith
level-pos _ h = ground arith

pub can_advance-token_of :
    (A : Type 0) (t : EssenceType) → is_binary t ≡ true → can_advance (token_of {A = A} t) ≡ true
unfolding token_of is_binary
can_advance-token_of A EssenceType.multiply h = refl
can_advance-token_of A _ h = ground arith

pub Follow-token_of :
    (A : Type 0) (t : EssenceType) → is_binary t ≡ true → Follow {A = A} (level t) (token_of t)
unfolding binary_op level token_of is_binary
Follow-token_of A EssenceType.multiply h = omega arith
Follow-token_of A _ h = ground arith
