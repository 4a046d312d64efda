-- ===== src/Calc/Precedence/Rules.antt =====
-- The equations of the parser with the fuel left out: a run with any fuel from some bound on.
use kedr_aux.Prelude.{
  ℕ, zero, suc, ◌+◌, ◌≤◌, Bool, true, false, Option, some, List, ltb, ◌≡◌, refl, ◌∙◌, ap, arith,
}
use kedr_aux.Calc.Essence.{
  Essence, val, var, weak_var, op1, op2, op3, EssenceType, CalcInt, is_unary, is_binary,
}
use kedr_aux.Calc.Env.{Env}
use kedr_aux.Calc.Priority
use kedr_aux.Calc.Lex.{Token, lex}
use kedr_aux.Calc.Run.{ParseData, Outcome, Run}
use kedr_aux.Calc.Parse.{BinaryOp, binary_op, operand, leaf, loop, parse_data_parse}
use kedr_aux.Calc.Tokens.{can_advance}
use kedr_aux.Calc.Precedence.Levels.{Stops}
use kedr_aux.Calc.Precedence.Equations.{
  at_token, grown, leaf-eq, unary_op-eq, parenthesised-eq, loop-binary, loop-cond, loop-Stops,
  parse-operand,
}

module _ {A : Type 0} (ops : CalcInt A) (env : Env A) (kmalloc : ℕ → Bool)
    (ok : (n : ℕ) → kmalloc n ≡ true) where
  -- parse_data_parse ends with `r`, given enough fuel
  abbrev pub ParseTo : ℕ → ParseData A → Outcome A (Option (Essence A)) → Type 0
  ParseTo p s r = (F : ℕ) × ((f : ℕ) → F ≤ f → parse_data_parse ops env kmalloc f p s ≡ r)

  -- so does its loop, with a tree at hand
  abbrev pub LoopTo : ℕ → Essence A → ParseData A → Outcome A (Option (Essence A)) → Type 0
  LoopTo p a s r =
      (F : ℕ) × ((f k : ℕ)
        → F ≤ f
        → F ≤ k
        → loop ops env kmalloc (parse_data_parse ops env kmalloc f) k p a s ≡ r)

  -- the token of a leaf
  pub data Leaf : Essence A → Token A → Type 0 where
    is_val : (v : A) → Leaf (val v) (Token.value v)
    is_var : (i : ℕ) → Leaf (var i) (Token.variable i)
    is_weak_var : (i : ℕ) → Leaf (weak_var i) (Token.weak_variable i)

  operand-Leaf :
      (parse : ℕ → Run A (Option (Essence A))) {e : Essence A} {k : Token A}
      → Leaf e k
      → operand ops env kmalloc parse k ≡ leaf ops env kmalloc e
  unfolding operand
  operand-Leaf parse (is_val v) = refl
  operand-Leaf parse (is_var i) = refl
  operand-Leaf parse (is_weak_var i) = refl

  can_advance-Leaf : {e : Essence A} {k : Token A} → Leaf e k → can_advance k ≡ true
  can_advance-Leaf (is_val v) = refl
  can_advance-Leaf (is_var i) = refl
  can_advance-Leaf (is_weak_var i) = refl

  -- the operand is read, and the loop goes on
  continue_from :
      (p : ℕ) (s u : ParseData A) (k : Token A) (t : List ℕ) (a : Essence A)
      (r : Outcome A (Option (Essence A))) (G : ℕ)
      → can_advance s.token ≡ true
      → lex ops env s.text ≡ (k, t)
      → ((f : ℕ)
          → G ≤ f
          → operand ops env kmalloc (parse_data_parse ops env kmalloc f) k (at_token s k t)
            ≡ Outcome.done (some a) u)
      → LoopTo p a u r
      → ParseTo p s r
  continue_from p s u k t a r G c l e (F, run) = (G + F + 1, go)
    where
      go : (f : ℕ) → G + F + 1 ≤ f → parse_data_parse ops env kmalloc f p s ≡ r
      go zero h = absurd (omega arith)
      go (suc f) h =
          parse-operand ops env kmalloc ok f p s u k t a c l (e f (omega arith))
          ∙ run f f (omega arith) (omega arith)

  pub Leaf-rule :
      (p : ℕ) (s : ParseData A) (k k' : Token A) (t t' : List ℕ) (a : Essence A)
      (r : Outcome A (Option (Essence A)))
      → Leaf a k
      → can_advance s.token ≡ true
      → lex ops env s.text ≡ (k, t)
      → lex ops env t ≡ (k', t')
      → LoopTo p a (grown (at_token s k' t')) r
      → ParseTo p s r
  Leaf-rule p s k k' t t' a r w c l l' =
      continue_from p s (grown (at_token s k' t')) k t a r 0 c l (λ f _.
        ap (λ (m : Run A (Option (Essence A))). m (at_token s k t))
          (operand-Leaf (parse_data_parse ops env kmalloc f) w)
        ∙ leaf-eq ops env kmalloc ok a (at_token s k t) k' t' (can_advance-Leaf w) l')

  -- a unary operator, with the priority of its operand
  pub data Unary : Token A → EssenceType → ℕ → Type 0 where
    minus : Unary Token.minus EssenceType.unary_minus Priority.unary_minus
    plus : Unary Token.plus EssenceType.unary_plus Priority.unary_plus
    logical_not : Unary Token.logical_not EssenceType.logical_not Priority.logical_not
    binary_not : Unary Token.binary_not EssenceType.binary_not Priority.binary_not

  operand-Unary :
      (parse : ℕ → Run A (Option (Essence A))) (k : Token A) (ty : EssenceType) (q : ℕ)
      (a : Essence A) (s u : ParseData A)
      → Unary k ty q
      → parse q s ≡ Outcome.done (some a) u
      → operand ops env kmalloc parse k s ≡ Outcome.done (some (op1 ty a)) (grown u)
  unfolding operand is_unary
  operand-Unary parse _ _ _ a s u minus e =
      unary_op-eq ops env kmalloc ok parse EssenceType.unary_minus Priority.unary_minus a s u refl e
  operand-Unary parse _ _ _ a s u plus e =
      unary_op-eq ops env kmalloc ok parse EssenceType.unary_plus Priority.unary_plus a s u refl e
  operand-Unary parse _ _ _ a s u logical_not e =
      unary_op-eq ops env kmalloc ok parse EssenceType.logical_not Priority.logical_not a s u refl e
  operand-Unary parse _ _ _ a s u binary_not e =
      unary_op-eq ops env kmalloc ok parse EssenceType.binary_not Priority.binary_not a s u refl e

  pub Unary_rule :
      (p q : ℕ) (s u : ParseData A) (k : Token A) (t : List ℕ) (ty : EssenceType) (a : Essence A)
      (r : Outcome A (Option (Essence A)))
      → Unary k ty q
      → can_advance s.token ≡ true
      → lex ops env s.text ≡ (k, t)
      → ParseTo q (at_token s k t) (Outcome.done (some a) u)
      → LoopTo p (op1 ty a) (grown u) r
      → ParseTo p s r
  Unary_rule p q s u k t ty a r w c l (G, e) =
      continue_from p s (grown u) k t (op1 ty a) r G c l (λ f h.
        operand-Unary (parse_data_parse ops env kmalloc f) k ty q a (at_token s k t) u w (e f h))

  pub parenthesised_rule :
      (p : ℕ) (s u : ParseData A) (t : List ℕ) (k' : Token A) (t' : List ℕ) (a : Essence A)
      (r : Outcome A (Option (Essence A)))
      → can_advance s.token ≡ true
      → lex ops env s.text ≡ (Token.open_parenthesis, t)
      → ParseTo 0 (at_token s Token.open_parenthesis t) (Outcome.done (some a) u)
      → u.token ≡ Token.close_parenthesis
      → lex ops env u.text ≡ (k', t')
      → LoopTo p a (at_token u k' t') r
      → ParseTo p s r
  unfolding operand
  parenthesised_rule p s u t k' t' a r c l (G, e) q l' =
      continue_from p s (at_token u k' t') Token.open_parenthesis t a r G c l (λ f h.
        parenthesised-eq ops env kmalloc ok (parse_data_parse ops env kmalloc f) a
          (at_token s Token.open_parenthesis t) u k' t' (e f h) q l')

  pub stop_rule :
      (p : ℕ) (a : Essence A) (s : ParseData A)
      → Stops p s.token
      → LoopTo p a s (Outcome.done (some a) s)
  stop_rule p a s h = (1, go)
    where
      go :
          (f k : ℕ)
          → 1 ≤ f
          → 1 ≤ k
          → loop ops env kmalloc (parse_data_parse ops env kmalloc f) k p a s
            ≡ Outcome.done (some a) s
      go f zero x y = absurd (omega arith)
      go f (suc k) x y =
          loop-Stops ops env kmalloc ok (parse_data_parse ops env kmalloc f) k p a s h

  pub binary_rule :
      (p : ℕ) (a c : Essence A) (b : BinaryOp) (s u : ParseData A)
      (r : Outcome A (Option (Essence A)))
      → binary_op s.token ≡ some b
      → ltb b.left p ≡ false
      → is_binary b.type ≡ true
      → ParseTo b.right s (Outcome.done (some c) u)
      → LoopTo p (op2 b.type a c) (grown u) r
      → LoopTo p a s r
  binary_rule p a c b s u r e l h (G, q) (F, run) = (G + F + 1, go)
    where
      go :
          (f k : ℕ)
          → G + F + 1 ≤ f
          → G + F + 1 ≤ k
          → loop ops env kmalloc (parse_data_parse ops env kmalloc f) k p a s ≡ r
      go f zero x y = absurd (omega arith)
      go f (suc k) x y =
          loop-binary ops env kmalloc ok (parse_data_parse ops env kmalloc f) k p a c b s u e l h
            (q f (omega arith))
          ∙ run f k (omega arith) (omega arith)

  pub cond_rule :
      (p : ℕ) (a b c : Essence A) (s u v : ParseData A) (r : Outcome A (Option (Essence A)))
      → s.token ≡ Token.cond_first
      → ltb Priority.cond_left p ≡ false
      → ParseTo Priority.min s (Outcome.done (some b) u)
      → ParseTo Priority.cond_right u (Outcome.done (some c) v)
      → LoopTo p (op3 EssenceType.cond a b c) (grown v) r
      → LoopTo p a s r
  cond_rule p a b c s u v r e l (G, q) (G', q') (F, run) = (G + G' + F + 1, go)
    where
      go :
          (f k : ℕ)
          → G + G' + F + 1 ≤ f
          → G + G' + F + 1 ≤ k
          → loop ops env kmalloc (parse_data_parse ops env kmalloc f) k p a s ≡ r
      go f zero x y = absurd (omega arith)
      go f (suc k) x y =
          loop-cond ops env kmalloc ok (parse_data_parse ops env kmalloc f) k p a b c s u v e l
            (q f (omega arith)) (q' f (omega arith))
          ∙ run f k (omega arith) (omega arith)
