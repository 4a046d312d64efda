-- ===== src/Calc/Traps.antt =====
-- When the evaluation of a tree fails.
use kedr_aux.Prelude.{
  ℕ, zero, suc, ◌<◌, true, Option, none, some, List, [], ◌∷◌, length, get_elem?, ◌≡◌, refl, ap,
  arith, ◌⊎◌, inl, inr,
}
use kedr_aux.Calc.Essence.{
  Essence, val, var, weak_var, op1, op2, op3, EssenceType, CalcInt, is_unary, is_binary, is_ternary,
}
use kedr_aux.Calc.Env.{Env}
use kedr_aux.Calc.Eval.{evaluate_1op, evaluate_2op, evaluate_3op, calc_essence_evaluate}
use kedr_aux.Calc.Sound.Spec.{WellFormed}

get_elem?-ne-none {ℓ} :
    {A : Type ℓ} (xs : List A) (i : ℕ) → i < length xs → get_elem? xs i ≡ none → ⊥
get_elem?-ne-none [] i h e = elim h [ ]
get_elem?-ne-none (x ∷ xs) zero h e = cc
get_elem?-ne-none (x ∷ xs) (suc i) h e = get_elem?-ne-none xs i (omega arith) e

module _ {A : Type 0} (ops : CalcInt A) where
  -- C's operator of a division, `none` for the others
  abbrev pub division : EssenceType → A → A → Option (Option A)
  division EssenceType.divide a b = some (ops.div a b)
  division EssenceType.rest a b = some (ops.rem a b)
  division _ a b = none

  -- why a node with two operands has no value
  data Fails2 (t : EssenceType) (x y : Option A) : Type 0 where
    first : x ≡ none → Fails2 t x y
    second : y ≡ none → Fails2 t x y
    divides : (a b : A) → x ≡ some a → y ≡ some b → division t a b ≡ some none → Fails2 t x y

  evaluate_1op-none :
      (t : EssenceType) (x : Option A) → is_unary t ≡ true → evaluate_1op ops t x ≡ none → x ≡ none
  unfolding evaluate_1op is_unary
  evaluate_1op-none EssenceType.unary_plus x u e = e
  evaluate_1op-none _ x u e = ground arith

  evaluate_2op-none :
      (t : EssenceType) (x y : Option A)
      → is_binary t ≡ true
      → evaluate_2op ops t x y ≡ none
      → Fails2 t x y
  unfolding evaluate_2op is_binary
  evaluate_2op-none t none y u e = first refl
  evaluate_2op-none t (some a) none u e = second refl
  evaluate_2op-none EssenceType.divide (some a) (some b) u e = divides a b refl refl (ap some e)
  evaluate_2op-none EssenceType.rest (some a) (some b) u e = divides a b refl refl (ap some e)
  evaluate_2op-none _ (some a) (some b) u e = ground arith

  evaluate_3op-none :
      (t : EssenceType) (x y z : Option A)
      → is_ternary t ≡ true
      → evaluate_3op ops t x y z ≡ none
      → (x ≡ none) ⊎ ((y ≡ none) ⊎ (z ≡ none))
  unfolding evaluate_3op is_ternary
  evaluate_3op-none EssenceType.cond x y z u e = ground arith
  evaluate_3op-none _ x y z u e = ground arith

  module _ (var_values weak_values : List A) where
    abbrev value_of : Essence A → Option A
    value_of = calc_essence_evaluate ops var_values weak_values

    -- Some division in the tree is evaluated to a trap.
    pub data Traps : Essence A → Type 0 where
      here :
          {t : EssenceType} {a b : Essence A} (x y : A)
          → value_of a ≡ some x
          → value_of b ≡ some y
          → division t x y ≡ some none
          → Traps (op2 t a b)
      in_op1 : {t : EssenceType} {a : Essence A} → Traps a → Traps (op1 t a)
      in_left : {t : EssenceType} {a b : Essence A} → Traps a → Traps (op2 t a b)
      in_right : {t : EssenceType} {a b : Essence A} → Traps b → Traps (op2 t a b)
      in_first : {t : EssenceType} {a b c : Essence A} → Traps a → Traps (op3 t a b c)
      in_second : {t : EssenceType} {a b c : Essence A} → Traps b → Traps (op3 t a b c)
      in_third : {t : EssenceType} {a b c : Essence A} → Traps c → Traps (op3 t a b c)

    -- A well formed tree, evaluated with a value for each variable and each weak variable, has a
    -- value unless a division in it traps.
    pub evaluate-eq-none :
        (env : Env A) (e : Essence A)
        → length env.var_names ≡ length var_values
        → length env.weak_vars ≡ length weak_values
        → WellFormed env e
        → value_of e ≡ none
        → Traps e
    unfolding calc_essence_evaluate
    evaluate-eq-none env (val v) hv hw w e = cc
    evaluate-eq-none env (var i) hv hw w e = absurd (get_elem?-ne-none var_values i (omega arith) e)
    evaluate-eq-none env (weak_var i) hv hw w e =
        absurd (get_elem?-ne-none weak_values i (omega arith) e)
    evaluate-eq-none env (op1 t a) hv hw w e =
        in_op1 (evaluate-eq-none env a hv hw w.1 (evaluate_1op-none t (value_of a) w.0 e))
    evaluate-eq-none env (op2 t a b) hv hw w e =
        why (evaluate-eq-none env a hv hw w.1) (evaluate-eq-none env b hv hw w.2)
          (evaluate_2op-none t (value_of a) (value_of b) w.0 e)
      where
        why :
            (value_of a ≡ none → Traps a)
            → (value_of b ≡ none → Traps b)
            → Fails2 t (value_of a) (value_of b)
            → Traps (op2 t a b)
        why ia ib (first p) = in_left (ia p)
        why ia ib (second p) = in_right (ib p)
        why ia ib (divides x y p q d) = here x y p q d
    evaluate-eq-none env (op3 t a b c) hv hw w e =
        why (evaluate-eq-none env a hv hw w.1) (evaluate-eq-none env b hv hw w.2)
          (evaluate-eq-none env c hv hw w.3)
          (evaluate_3op-none t (value_of a) (value_of b) (value_of c) w.0 e)
      where
        why :
            (value_of a ≡ none → Traps a)
            → (value_of b ≡ none → Traps b)
            → (value_of c ≡ none → Traps c)
            → (value_of a ≡ none) ⊎ ((value_of b ≡ none) ⊎ (value_of c ≡ none))
            → Traps (op3 t a b c)
        why ia ib ic (inl p) = in_first (ia p)
        why ia ib ic (inr (inl p)) = in_second (ib p)
        why ia ib ic (inr (inr p)) = in_third (ic p)
