-- ===== src/Calc/Essence.antt =====
-- The tree of `struct calc_essence` objects, and the operations on kedr_calc_int_t that it stands
-- for.
use kedr_aux.Prelude.{ℕ, ◌+◌, Bool, true, false, Option}

-- enum calc_essence_type
pub data EssenceType : Type 0 where
  value variable weak_variable : EssenceType
  binary_not logical_not unary_plus unary_minus : EssenceType
  multiply divide rest plus minus left_shift right_shift : EssenceType
  less greater less_equal greater_equal equal inequal : EssenceType
  binary_and binary_xor binary_or logical_and logical_or : EssenceType
  cond : EssenceType

-- A node holds its type tag and its operands; `A` is kedr_calc_int_t.
pub data Essence (A : Type 0) : Type 0 where
  val : A → Essence A
  var : ℕ → Essence A
  weak_var : ℕ → Essence A
  op1 : EssenceType → Essence A → Essence A
  op2 : EssenceType → Essence A → Essence A → Essence A
  op3 : EssenceType → Essence A → Essence A → Essence A → Essence A

-- kedr_calc_int_t, whose header is not in the repository: C's operators on it.
-- `none` stands for a trap of `/` or `%`.
pub record CalcInt (A : Type 0) : Type 0 where
  pub of_int : ℕ → A
  pub neg : A → A
  pub bnot : A → A
  pub add : A → A → A
  pub sub : A → A → A
  pub mul : A → A → A
  pub div : A → A → Option A
  pub rem : A → A → Option A
  pub shl : A → A → A
  pub shr : A → A → A
  pub band : A → A → A
  pub bxor : A → A → A
  pub bor : A → A → A
  pub lt : A → A → Bool
  pub eq : A → A → Bool
  pub truth : A → Bool

-- the switch of calc_essence_1op_create
unfoldable pub is_unary : EssenceType → Bool
is_unary EssenceType.unary_plus = true
is_unary EssenceType.unary_minus = true
is_unary EssenceType.binary_not = true
is_unary EssenceType.logical_not = true
is_unary _ = false

-- the switch of calc_essence_2op_create
unfoldable pub is_binary : EssenceType → Bool
is_binary EssenceType.multiply = true
is_binary EssenceType.divide = true
is_binary EssenceType.rest = true
is_binary EssenceType.plus = true
is_binary EssenceType.minus = true
is_binary EssenceType.left_shift = true
is_binary EssenceType.right_shift = true
is_binary EssenceType.less = true
is_binary EssenceType.greater = true
is_binary EssenceType.less_equal = true
is_binary EssenceType.greater_equal = true
is_binary EssenceType.equal = true
is_binary EssenceType.inequal = true
is_binary EssenceType.binary_and = true
is_binary EssenceType.binary_xor = true
is_binary EssenceType.binary_or = true
is_binary EssenceType.logical_and = true
is_binary EssenceType.logical_or = true
is_binary _ = false

-- the switch of calc_essence_3op_create
unfoldable pub is_ternary : EssenceType → Bool
is_ternary EssenceType.cond = true
is_ternary _ = false

-- the number of objects that a tree occupies
abbrev pub size : {A : Type 0} → Essence A → ℕ
size (val v) = 1
size (var i) = 1
size (weak_var i) = 1
size (op1 t a) = size a + 1
size (op2 t a b) = size a + size b + 1
size (op3 t a b c) = size a + size b + size c + 1
