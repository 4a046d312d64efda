-- ===== src/Calc/Eval.antt =====
-- calc_essence_evaluate. `none` is a trap of a division, a read past the end of an array of values
-- or the BUG() of an unknown type.
use kedr_aux.Prelude.{Bool, true, false, not, Option, none, some, List, get_elem?, if◌then◌else◌}
use kedr_aux.Calc.Essence.{Essence, val, var, weak_var, op1, op2, op3, EssenceType, CalcInt}

module _ {A : Type 0} (ops : CalcInt A) where
  open ops use {
    of_int, neg, bnot, add, sub, mul, div, rem, shl, shr, band, bxor, bor, lt, eq, truth,
  }

  -- the value of a C comparison
  abbrev pub of_bool : Bool → A
  of_bool b = of_int (if b then 1 else 0)

  abbrev pub strict1 : (A → A) → Option A → Option A
  strict1 f none = none
  strict1 f (some a) = some (f a)

  abbrev pub partial2 : (A → A → Option A) → Option A → Option A → Option A
  partial2 f none y = none
  partial2 f (some a) none = none
  partial2 f (some a) (some b) = f a b

  abbrev pub strict2 : (A → A → A) → Option A → Option A → Option A
  strict2 f = partial2 (λ a b. some (f a b))

  -- `&&` and `||`, which do not look at the second operand when the first one decides
  abbrev pub logical_and : Option A → Option A → Option A
  logical_and none y = none
  logical_and (some a) y =
      if truth a then strict1 (λ b. of_bool (truth b)) y else some (of_bool false)

  abbrev pub logical_or : Option A → Option A → Option A
  logical_or none y = none
  logical_or (some a) y =
      if truth a then some (of_bool true) else strict1 (λ b. of_bool (truth b)) y

  unfoldable pub evaluate_1op : EssenceType → Option A → Option A
  evaluate_1op EssenceType.unary_plus x = x
  evaluate_1op EssenceType.unary_minus x = strict1 neg x
  evaluate_1op EssenceType.binary_not x = strict1 bnot x
  evaluate_1op EssenceType.logical_not x = strict1 (λ a. of_bool (not (truth a))) x
  evaluate_1op _ x = none

  unfoldable pub evaluate_2op : EssenceType → Option A → Option A → Option A
  evaluate_2op EssenceType.multiply x y = strict2 mul x y
  evaluate_2op EssenceType.divide x y = partial2 div x y
  evaluate_2op EssenceType.rest x y = partial2 rem x y
  evaluate_2op EssenceType.plus x y = strict2 add x y
  evaluate_2op EssenceType.minus x y = strict2 sub x y
  evaluate_2op EssenceType.left_shift x y = strict2 shl x y
  evaluate_2op EssenceType.right_shift x y = strict2 shr x y
  evaluate_2op EssenceType.less x y = strict2 (λ a b. of_bool (lt a b)) x y
  evaluate_2op EssenceType.greater x y = strict2 (λ a b. of_bool (lt b a)) x y
  evaluate_2op EssenceType.less_equal x y = strict2 (λ a b. of_bool (not (lt b a))) x y
  evaluate_2op EssenceType.greater_equal x y = strict2 (λ a b. of_bool (not (lt a b))) x y
  evaluate_2op EssenceType.equal x y = strict2 (λ a b. of_bool (eq a b)) x y
  evaluate_2op EssenceType.inequal x y = strict2 (λ a b. of_bool (not (eq a b))) x y
  evaluate_2op EssenceType.binary_and x y = strict2 band x y
  evaluate_2op EssenceType.binary_xor x y = strict2 bxor x y
  evaluate_2op EssenceType.binary_or x y = strict2 bor x y
  evaluate_2op EssenceType.logical_and x y = logical_and x y
  evaluate_2op EssenceType.logical_or x y = logical_or x y
  evaluate_2op _ x y = none

  abbrev pub choose : Option A → Option A → Option A → Option A
  choose none y z = none
  choose (some a) y z = if truth a then y else z

  unfoldable pub evaluate_3op : EssenceType → Option A → Option A → Option A → Option A
  evaluate_3op EssenceType.cond x y z = choose x y z
  evaluate_3op _ x y z = none

  -- `weak_values` are what the functions `compute` of the weak variables return.
  module _ (var_values weak_values : List A) where
    unfoldable pub calc_essence_evaluate : Essence A → Option A
    calc_essence_evaluate (val v) = some v
    calc_essence_evaluate (var i) = get_elem? var_values i
    calc_essence_evaluate (weak_var i) = get_elem? weak_values i
    calc_essence_evaluate (op1 t a) = evaluate_1op t (calc_essence_evaluate a)
    calc_essence_evaluate (op2 t a b) =
        evaluate_2op t (calc_essence_evaluate a) (calc_essence_evaluate b)
    calc_essence_evaluate (op3 t a b c) =
        evaluate_3op t (calc_essence_evaluate a) (calc_essence_evaluate b) (calc_essence_evaluate c)
