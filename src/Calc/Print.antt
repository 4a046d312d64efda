-- ===== src/Calc/Print.antt =====
-- Expressions written out with as few parentheses as C's table of precedences allows. Levels grow
-- with the binding: 0 for `?:`, 1 for `||`, up to 10 for `*`; operands of unary operators stand at
-- 12.
use kedr_aux.Prelude.{ℕ, ◌+◌, ◌≤◌, Bool, true, false, none, some, List, [], ◌∷◌, ◌++◌, ltb}
use kedr_aux.Calc.Essence.{Essence, val, var, weak_var, op1, op2, op3, EssenceType}
use kedr_aux.Calc.Lex.{Token}
use kedr_aux.Calc.Parse.{binary_op}

-- C's precedence of a binary operator
unfoldable pub level : EssenceType → ℕ
level EssenceType.multiply = 10
level EssenceType.divide = 10
level EssenceType.rest = 10
level EssenceType.plus = 9
level EssenceType.minus = 9
level EssenceType.left_shift = 8
level EssenceType.right_shift = 8
level EssenceType.less = 7
level EssenceType.greater = 7
level EssenceType.less_equal = 7
level EssenceType.greater_equal = 7
level EssenceType.equal = 6
level EssenceType.inequal = 6
level EssenceType.binary_and = 5
level EssenceType.binary_xor = 4
level EssenceType.binary_or = 3
level EssenceType.logical_and = 2
level EssenceType.logical_or = 1
level _ = 0

module _ {A : Type 0} where
  -- the token of an operator
  unfoldable pub token_of : EssenceType → Token A
  token_of EssenceType.binary_not = Token.binary_not
  token_of EssenceType.logical_not = Token.logical_not
  token_of EssenceType.unary_plus = Token.plus
  token_of EssenceType.unary_minus = Token.minus
  token_of EssenceType.multiply = Token.multiply
  token_of EssenceType.divide = Token.divide
  token_of EssenceType.rest = Token.rest
  token_of EssenceType.plus = Token.plus
  token_of EssenceType.minus = Token.minus
  token_of EssenceType.left_shift = Token.left_shift
  token_of EssenceType.right_shift = Token.right_shift
  token_of EssenceType.less = Token.less
  token_of EssenceType.greater = Token.greater
  token_of EssenceType.less_equal = Token.less_equal
  token_of EssenceType.greater_equal = Token.greater_equal
  token_of EssenceType.equal = Token.equal
  token_of EssenceType.inequal = Token.inequal
  token_of EssenceType.binary_and = Token.binary_and
  token_of EssenceType.binary_xor = Token.binary_xor
  token_of EssenceType.binary_or = Token.binary_or
  token_of EssenceType.logical_and = Token.logical_and
  token_of EssenceType.logical_or = Token.logical_or
  token_of _ = Token.error

  -- parentheses, if the operator binds less than the context
  abbrev pub wrap : Bool → List (Token A) → List (Token A)
  wrap true ts = Token.open_parenthesis ∷ (ts ++ (Token.close_parenthesis ∷ []))
  wrap false ts = ts

  -- the tokens of a tree in a context of level `n`
  unfoldable pub print : ℕ → Essence A → List (Token A)
  print n (val v) = Token.value v ∷ []
  print n (var i) = Token.variable i ∷ []
  print n (weak_var i) = Token.weak_variable i ∷ []
  print n (op1 t a) = token_of t ∷ print 12 a
  print n (op2 t a b) =
      wrap (ltb (level t) n) (print (level t) a ++ (token_of t ∷ print (level t + 1) b))
  print n (op3 t a b c) =
      wrap (ltb 0 n)
        (print 1 a ++ (Token.cond_first ∷ (print 0 b ++ (Token.cond_second ∷ print 0 c))))

  -- the tokens that may follow an expression printed at level `n`
  abbrev pub Follow : ℕ → Token A → Type 0
  Follow n Token.eof = Unit
  Follow n Token.close_parenthesis = Unit
  Follow n Token.cond_second = Unit
  Follow n Token.cond_first = 1 ≤ n
  Follow n k = elim (binary_op k) [ some b ↦ level b.type ≤ n | none ↦ ⊥ ]
