-- ===== src/Calc/Parse.antt =====
-- parse_data_parse, and kedr_calc_parse and kedr_calc_delete on top of it.
use kedr_aux.Prelude.{
  ℕ, zero, suc, ◌+◌, ◌-◌, Bool, true, false, not, Option, none, some, List, ltb, if◌then◌else◌,
}
use kedr_aux.Calc.Essence.{
  Essence, val, var, weak_var, op1, op2, op3, EssenceType, CalcInt, is_unary, is_binary, is_ternary,
}
use kedr_aux.Calc.Env.{Env}
use kedr_aux.Calc.Priority
use kedr_aux.Calc.Lex.{Token, lex}
use kedr_aux.Calc.Run.{ParseData, Outcome, Run, pure, crash, out_of_fuel, get_token, ◌>>=◌, ◌>>◌}

-- the arguments of TWO_OPERANDS_ESSENCE
pub record BinaryOp : Type 0 where
  pub type : EssenceType
  pub left : ℕ
  pub right : ℕ

abbrev binary : EssenceType → ℕ → ℕ → Option BinaryOp
binary t l r = some (record { type = t; left = l; right = r })

-- the cases of the switch that are TWO_OPERANDS_ESSENCE
unfoldable pub binary_op : {A : Type 0} → Token A → Option BinaryOp
binary_op Token.multiply =
    binary EssenceType.multiply Priority.multiply_left Priority.multiply_right
binary_op Token.divide = binary EssenceType.divide Priority.divide_left Priority.divide_right
binary_op Token.rest = binary EssenceType.rest Priority.rest_left Priority.rest_right
binary_op Token.plus = binary EssenceType.plus Priority.plus_left Priority.plus_right
binary_op Token.minus = binary EssenceType.minus Priority.minus_left Priority.minus_right
binary_op Token.left_shift =
    binary EssenceType.left_shift Priority.left_shift_left Priority.left_shift_right
binary_op Token.right_shift =
    binary EssenceType.right_shift Priority.right_shift_left Priority.right_shift_right
binary_op Token.less = binary EssenceType.less Priority.less_left Priority.less_right
binary_op Token.greater = binary EssenceType.greater Priority.greater_left Priority.greater_right
binary_op Token.less_equal =
    binary EssenceType.less_equal Priority.less_equal_left Priority.less_equal_right
binary_op Token.greater_equal =
    binary EssenceType.greater_equal Priority.greater_equal_left Priority.greater_equal_right
binary_op Token.equal = binary EssenceType.equal Priority.equal_left Priority.equal_right
binary_op Token.inequal = binary EssenceType.inequal Priority.inequal_left Priority.inequal_right
binary_op Token.binary_or =
    binary EssenceType.binary_or Priority.binary_or_left Priority.binary_or_right
binary_op Token.binary_xor =
    binary EssenceType.binary_xor Priority.binary_xor_left Priority.binary_xor_right
binary_op Token.binary_and =
    binary EssenceType.binary_and Priority.binary_and_left Priority.binary_and_right
binary_op Token.logical_or =
    binary EssenceType.logical_or Priority.logical_or_left Priority.logical_or_right
binary_op Token.logical_and =
    binary EssenceType.logical_and Priority.logical_and_left Priority.logical_and_right
binary_op _ = none

-- What one round of the loop over operations does: return, or go on with the new operand.
pub data Round (A : Type 0) : Type 0 where
  return : Option (Essence A) → Round A
  again : Essence A → Round A

-- struct kedr_calc
pub record Calc (A : Type 0) : Type 0 where
  pub top_essence : Essence A
  pub weak_vars : List (List ℕ)

module _ {A : Type 0} where
  -- kfree of one object
  unfoldable pub kfree : Run A (Unit {0})
  kfree s = Outcome.done tt (record s { live = s.live - 1 })

  -- calc_essence_free: the operands that the type says, then the object
  unfoldable pub calc_essence_free : Essence A → Run A (Unit {0})
  calc_essence_free (val v) = kfree
  calc_essence_free (var i) = kfree
  calc_essence_free (weak_var i) = kfree
  calc_essence_free (op1 t a) =
      let free_operand = calc_essence_free a in
      if is_unary t then (free_operand >> kfree) else crash
  calc_essence_free (op2 t a b) =
      let free_operands = calc_essence_free a >> calc_essence_free b in
      if is_binary t then (free_operands >> kfree) else crash
  calc_essence_free (op3 t a b c) =
      let free_operands = calc_essence_free a >> calc_essence_free b >> calc_essence_free c in
      if is_ternary t then (free_operands >> kfree) else crash

  -- `if(essence == NULL)` after a call
  unfoldable pub or_null :
      {B : Type 0} → Option (Essence A) → Run A B → (Essence A → Run A B) → Run A B
  or_null none fail k = fail
  or_null (some e) fail k = k e

  unfoldable pub is_close : Token A → Bool
  is_close Token.close_parenthesis = true
  is_close _ = false

  unfoldable pub is_eof : Token A → Bool
  is_eof Token.eof = true
  is_eof _ = false

module _ {A : Type 0} (kmalloc : ℕ → Bool) where
  -- kmalloc of one object, and calc_essence_alloc, whose test of the size passes: whether the call
  -- succeeds
  unfoldable pub calc_essence_alloc : Run A Bool
  calc_essence_alloc s =
      if kmalloc s.kmallocs
      then Outcome.done true (record s { kmallocs = s.kmallocs + 1; live = s.live + 1 })
      else Outcome.done false (record s { kmallocs = s.kmallocs + 1 })

  -- an allocated object, filled
  unfoldable pub create : Essence A → Run A (Option (Essence A))
  create e = do allocated ← calc_essence_alloc; pure (if allocated then some e else none)

  unfoldable pub essence_1op_create : EssenceType → Essence A → Run A (Option (Essence A))
  essence_1op_create t a = if is_unary t then create (op1 t a) else pure none

  unfoldable pub essence_2op_create :
      EssenceType → Essence A → Essence A → Run A (Option (Essence A))
  essence_2op_create t a b = if is_binary t then create (op2 t a b) else pure none

  unfoldable pub essence_3op_create :
      EssenceType → Essence A → Essence A → Essence A → Run A (Option (Essence A))
  essence_3op_create t a b c = if is_ternary t then create (op3 t a b c) else pure none

module _ {A : Type 0} (ops : CalcInt A) (env : Env A) where
  abbrev pub advance : ParseData A → Outcome A (Token A)
  advance s =
      let (t, rest) = lex ops env s.text in Outcome.done t (record s { text = rest; token = t })

  -- parse_data_next_token, its BUG_ONs first
  unfoldable pub next_token : Run A (Token A)
  next_token s = elim s.token [
    | Token.error ↦ Outcome.bug
    | Token.eof ↦ Outcome.bug
    | _ ↦ advance s
  ]

module _ {A : Type 0} (ops : CalcInt A) (env : Env A) (kmalloc : ℕ → Bool) where
  -- `if(result) parse_data_next_token(data)` after the creation of a leaf
  unfoldable pub leaf : Essence A → Run A (Option (Essence A))
  leaf e = do
    result ← create kmalloc e
    or_null result (pure none) λ e. do next_token ops env; pure (some e)

  module _ (parse : ℕ → Run A (Option (Essence A))) where
    -- UNARY_OP
    unfoldable pub unary_op : EssenceType → ℕ → Run A (Option (Essence A))
    unary_op t priority = do
      op ← parse priority
      or_null op (pure none) λ op. do
        result ← essence_1op_create kmalloc t op
        or_null result (calc_essence_free op >> pure none) λ e. pure (some e)

    unfoldable pub parenthesised : Run A (Option (Essence A))
    parenthesised = do
      result ← parse Priority.min
      or_null result (pure none) λ e. do
        t ← get_token
        if is_close t
            then (do next_token ops env; pure (some e))
            else (do calc_essence_free e; pure none)

    -- the first switch of parse_data_parse, on the token that it has advanced to
    unfoldable pub operand : Token A → Run A (Option (Essence A))
    operand (Token.value v) = leaf (val v)
    operand (Token.constant v) = leaf (val v)
    operand (Token.variable i) = leaf (var i)
    operand (Token.weak_variable i) = leaf (weak_var i)
    operand Token.open_parenthesis = parenthesised
    operand Token.minus = unary_op EssenceType.unary_minus Priority.unary_minus
    operand Token.plus = unary_op EssenceType.unary_plus Priority.unary_plus
    operand Token.logical_not = unary_op EssenceType.logical_not Priority.logical_not
    operand Token.binary_not = unary_op EssenceType.binary_not Priority.binary_not
    operand _ = pure none

    -- TWO_OPERANDS_ESSENCE behind its test of the priority
    unfoldable pub two_operands : BinaryOp → Essence A → Run A (Round A)
    two_operands b a = do
      second ← parse b.right
      or_null second (calc_essence_free a >> pure (Round.return none)) λ c. do
        result ← essence_2op_create kmalloc b.type a c
        or_null result (calc_essence_free a >> calc_essence_free c >> pure (Round.return none))
            λ e. pure (Round.again e)

    -- The case of '?' behind its test of the priority. That the token is not ':' is only reported.
    unfoldable pub three_operands : Essence A → Run A (Round A)
    three_operands a = do
      second ← parse Priority.min
      or_null second (calc_essence_free a >> pure (Round.return none)) λ b. do
        third ← parse Priority.cond_right
        or_null third (calc_essence_free b >> calc_essence_free a >> pure (Round.return none)) λ c.
            do
              result ← essence_3op_create kmalloc EssenceType.cond a b c
              or_null result
                  (calc_essence_free a
                    >> calc_essence_free b
                    >> calc_essence_free c
                    >> pure (Round.return none))
                  λ e. pure (Round.again e)

    unfoldable pub abandon : Essence A → Run A (Round A)
    abandon a = calc_essence_free a >> pure (Round.return none)

    unfoldable pub two_operands_if : ℕ → Essence A → Option BinaryOp → Run A (Round A)
    two_operands_if priority a none = abandon a
    two_operands_if priority a (some b) =
        if ltb b.left priority then pure (Round.return (some a)) else two_operands b a

    -- the switch of the loop over operations
    unfoldable pub round : ℕ → Essence A → Token A → Run A (Round A)
    round priority a Token.error = abandon a
    round priority a Token.eof = pure (Round.return (some a))
    round priority a Token.close_parenthesis = pure (Round.return (some a))
    round priority a Token.cond_second = pure (Round.return (some a))
    round priority a Token.cond_first =
        if ltb Priority.cond_left priority then pure (Round.return (some a)) else three_operands a
    round priority a t = two_operands_if priority a (binary_op t)

    -- while(1), with fuel for the rounds
    unfoldable pub loop : ℕ → ℕ → Essence A → Run A (Option (Essence A))
    loop zero priority a = out_of_fuel
    loop (suc k) priority a = do
      t ← get_token
      next ← round priority a t
      elim next [ Round.return r ↦ pure r | Round.again e ↦ loop k priority e ]

  -- parse_data_parse, with fuel for the depth of its recursion
  unfoldable pub parse_data_parse : ℕ → ℕ → Run A (Option (Essence A))
  parse_data_parse zero priority = out_of_fuel
  parse_data_parse (suc f) priority = do
    t ← next_token ops env
    result ← operand (parse_data_parse f) t
    or_null result (pure none) λ e. loop (parse_data_parse f) f priority e

  -- kedr_calc_parse, its parse_data made
  unfoldable pub kedr_calc_parse : ℕ → Run A (Option (Calc A))
  kedr_calc_parse fuel = do
    allocated ← calc_essence_alloc kmalloc
    if not allocated then pure none else do
      top ← parse_data_parse fuel Priority.min
      or_null top (kfree >> pure none) λ e. do
        t ← get_token
        if is_eof t
            then pure (some (record { top_essence = e; weak_vars = env.weak_vars }))
            else (do calc_essence_free e; kfree; pure none)

module _ {A : Type 0} where
  unfoldable pub kedr_calc_delete : Calc A → Run A (Unit {0})
  kedr_calc_delete calc = do calc_essence_free calc.top_essence; kfree

  -- struct parse_data as kedr_calc_parse makes it
  abbrev pub initial : List ℕ → ℕ → ℕ → ParseData A
  initial expr kmallocs live = record {
    text = expr;
    token = Token.start;
    kmallocs = kmallocs;
    live = live;
  }
