-- ===== src/Calc/Precedence/Equations.antt =====
-- What each step of the parser returns when its parts succeed.
use kedr_aux.Prelude.{
  ℕ, suc, ◌+◌, Bool, true, false, Option, some, List, ltb, ◌≡◌, refl, ◌∙◌, ap, arith,
}
use kedr_aux.Calc.Essence.{
  Essence, op1, op2, op3, EssenceType, CalcInt, is_unary, is_binary, is_ternary,
}
use kedr_aux.Calc.Env.{Env}
use kedr_aux.Calc.Priority
use kedr_aux.Calc.Lex.{Token, lex}
use kedr_aux.Calc.Run.{ParseData, Outcome, Run, pure, get_token, ◌>>=◌, bind-done}
use kedr_aux.Calc.Parse.{
  return, again, BinaryOp, binary_op, or_null, calc_essence_alloc, create, essence_1op_create,
  essence_2op_create, essence_3op_create, advance, next_token, leaf, unary_op, parenthesised,
  operand, is_close, two_operands, three_operands, two_operands_if, round, loop, parse_data_parse,
}
use kedr_aux.Calc.Tokens.{can_advance}
use kedr_aux.Calc.Precedence.Levels.{Stops}

-- the state with a token and the text behind it
abbrev pub at_token : {A : Type 0} → ParseData A → Token A → List ℕ → ParseData A
at_token s k t = record s { token = k; text = t }

-- the state behind the creation of an object
abbrev pub grown : {A : Type 0} → ParseData A → ParseData A
grown s = record s { kmallocs = s.kmallocs + 1; live = s.live + 1 }

module _ {A : Type 0} (ops : CalcInt A) (env : Env A) where
  next_on :
      (s : ParseData A) (k : Token A)
      → can_advance k ≡ true
      → elim k [ Token.error ↦ Outcome.bug | Token.eof ↦ Outcome.bug | _ ↦ advance ops env s ]
        ≡ advance ops env s
  next_on s Token.error c = cc
  next_on s Token.eof c = cc
  next_on s _ c = refl

  pub next_token-eq :
      (s : ParseData A) (k : Token A) (t : List ℕ)
      → can_advance s.token ≡ true
      → lex ops env s.text ≡ (k, t)
      → next_token ops env s ≡ Outcome.done k (at_token s k t)
  unfolding next_token
  next_token-eq s k t c e =
      next_on s s.token c ∙ ap (λ (x : Token A × List ℕ). Outcome.done x.0 (at_token s x.0 x.1)) e

module _ {A : Type 0} (kmalloc : ℕ → Bool) (ok : (n : ℕ) → kmalloc n ≡ true) where
  pub create-eq :
      (e : Essence A) (s : ParseData A) → create kmalloc e s ≡ Outcome.done (some e) (grown s)
  unfolding create calc_essence_alloc ◌>>=◌ pure
  create-eq e s = simp (ok, ◌>>=◌)

  pub essence_1op_create-eq :
      (t : EssenceType) (a : Essence A) (s : ParseData A)
      → is_unary t ≡ true
      → essence_1op_create kmalloc t a s ≡ Outcome.done (some (op1 t a)) (grown s)
  unfolding essence_1op_create
  essence_1op_create-eq t a s h = rw h (create-eq (op1 t a) s)

  pub essence_2op_create-eq :
      (t : EssenceType) (a b : Essence A) (s : ParseData A)
      → is_binary t ≡ true
      → essence_2op_create kmalloc t a b s ≡ Outcome.done (some (op2 t a b)) (grown s)
  unfolding essence_2op_create
  essence_2op_create-eq t a b s h = rw h (create-eq (op2 t a b) s)

module _ {A : Type 0} (ops : CalcInt A) (env : Env A) (kmalloc : ℕ → Bool)
    (ok : (n : ℕ) → kmalloc n ≡ true) where
  pub leaf-eq :
      (e : Essence A) (s : ParseData A) (k : Token A) (t : List ℕ)
      → can_advance s.token ≡ true
      → lex ops env s.text ≡ (k, t)
      → leaf ops env kmalloc e s ≡ Outcome.done (some e) (grown (at_token s k t))
  unfolding leaf or_null pure
  leaf-eq e s k t c l =
      bind-done (create kmalloc e) _ s (create-eq kmalloc ok e s)
      ∙ bind-done (next_token ops env) _ (grown s) (next_token-eq ops env (grown s) k t c l)

  module _ (parse : ℕ → Run A (Option (Essence A))) where
    pub unary_op-eq :
        (ty : EssenceType) (p : ℕ) (a : Essence A) (s u : ParseData A)
        → is_unary ty ≡ true
        → parse p s ≡ Outcome.done (some a) u
        → unary_op ops env kmalloc parse ty p s ≡ Outcome.done (some (op1 ty a)) (grown u)
    unfolding unary_op or_null pure
    unary_op-eq ty p a s u h e =
        bind-done (parse p) _ s e
        ∙ bind-done (essence_1op_create kmalloc ty a) _ u
            (essence_1op_create-eq kmalloc ok ty a u h)

    pub parenthesised-eq :
        (a : Essence A) (s u : ParseData A) (k : Token A) (t : List ℕ)
        → parse Priority.min s ≡ Outcome.done (some a) u
        → u.token ≡ Token.close_parenthesis
        → lex ops env u.text ≡ (k, t)
        → parenthesised ops env kmalloc parse s ≡ Outcome.done (some a) (at_token u k t)
    unfolding parenthesised or_null pure get_token is_close
    parenthesised-eq a s u k t e c l =
        bind-done (parse Priority.min) _ s e
        ∙ bind-done get_token _ u refl
        ∙ rw (closed u.token c).0 (
            bind-done (next_token ops env) _ u (next_token-eq ops env u k t (closed u.token c).1 l))
      where
        closed :
            (k : Token A)
            → k ≡ Token.close_parenthesis
            → (is_close k ≡ true) × (can_advance k ≡ true)
        closed k e = rw e (refl, refl)

    pub two_operands-eq :
        (b : BinaryOp) (a c : Essence A) (s u : ParseData A)
        → is_binary b.type ≡ true
        → parse b.right s ≡ Outcome.done (some c) u
        → two_operands ops env kmalloc parse b a s ≡ Outcome.done (again (op2 b.type a c)) (grown u)
    unfolding two_operands or_null pure
    two_operands-eq b a c s u h e =
        bind-done (parse b.right) _ s e
        ∙ bind-done (essence_2op_create kmalloc b.type a c) _ u
            (essence_2op_create-eq kmalloc ok b.type a c u h)

    pub three_operands-eq :
        (a b c : Essence A) (s u v : ParseData A)
        → parse Priority.min s ≡ Outcome.done (some b) u
        → parse Priority.cond_right u ≡ Outcome.done (some c) v
        → three_operands ops env kmalloc parse a s
          ≡ Outcome.done (again (op3 EssenceType.cond a b c)) (grown v)
    unfolding three_operands or_null pure essence_3op_create is_ternary
    three_operands-eq a b c s u v e e' =
        bind-done (parse Priority.min) _ s e
        ∙ bind-done (parse Priority.cond_right) _ u e'
        ∙ bind-done (essence_3op_create kmalloc EssenceType.cond a b c) _ v
            (create-eq kmalloc ok (op3 EssenceType.cond a b c) v)

    round_on-binary :
        (p : ℕ) (a : Essence A) (k : Token A) (b : BinaryOp)
        → binary_op k ≡ some b
        → round ops env kmalloc parse p a k ≡ two_operands_if ops env kmalloc parse p a (some b)
    unfolding round binary_op
    round_on-binary p a Token.error b e = cc
    round_on-binary p a Token.eof b e = cc
    round_on-binary p a Token.close_parenthesis b e = cc
    round_on-binary p a Token.cond_second b e = cc
    round_on-binary p a Token.cond_first b e = cc
    round_on-binary p a _ b e = ap (two_operands_if ops env kmalloc parse p a) e

    -- the loop at a binary operator that the priority lets in
    pub loop-binary :
        (k p : ℕ) (a c : Essence A) (b : BinaryOp) (s u : ParseData A)
        → binary_op s.token ≡ some b
        → ltb b.left p ≡ false
        → is_binary b.type ≡ true
        → parse b.right s ≡ Outcome.done (some c) u
        → loop ops env kmalloc parse (suc k) p a s
          ≡ loop ops env kmalloc parse k p (op2 b.type a c) (grown u)
    unfolding loop get_token
    loop-binary k p a c b s u e l h q =
        bind-done get_token _ s refl
        ∙ bind-done (round ops env kmalloc parse p a s.token) _ s entered
      where
        entered :
            round ops env kmalloc parse p a s.token s
            ≡ Outcome.done (again (op2 b.type a c)) (grown u)
        entered =
            rw (round_on-binary p a s.token b e)
              (unfold two_operands_if in rw l (two_operands-eq b a c s u h q))

    pub round_on-cond :
        (p : ℕ) (a : Essence A) (k : Token A) (s : ParseData A)
        → k ≡ Token.cond_first
        → ltb Priority.cond_left p ≡ false
        → round ops env kmalloc parse p a k s ≡ three_operands ops env kmalloc parse a s
    unfolding round
    round_on-cond p a k s e l = rw (e, l, round) refl

    -- the loop at a '?' that the priority lets in
    pub loop-cond :
        (k p : ℕ) (a b c : Essence A) (s u v : ParseData A)
        → s.token ≡ Token.cond_first
        → ltb Priority.cond_left p ≡ false
        → parse Priority.min s ≡ Outcome.done (some b) u
        → parse Priority.cond_right u ≡ Outcome.done (some c) v
        → loop ops env kmalloc parse (suc k) p a s
          ≡ loop ops env kmalloc parse k p (op3 EssenceType.cond a b c) (grown v)
    unfolding loop get_token
    loop-cond k p a b c s u v e l q q' =
        bind-done get_token _ s refl
        ∙ bind-done (round ops env kmalloc parse p a s.token) _ s entered
      where
        entered :
            round ops env kmalloc parse p a s.token s
            ≡ Outcome.done (again (op3 EssenceType.cond a b c)) (grown v)
        entered = round_on-cond p a s.token s e l ∙ three_operands-eq a b c s u v q q'

    round-Stops :
        (p : ℕ) (a : Essence A) (k : Token A) (s : ParseData A)
        → Stops p k
        → round ops env kmalloc parse p a k s ≡ Outcome.done (return (some a)) s
    unfolding round binary_op two_operands_if pure
    round-Stops p a Token.eof s h = refl
    round-Stops p a _ s h = ground arith

    -- the loop at a token at which it stops
    pub loop-Stops :
        (k p : ℕ) (a : Essence A) (s : ParseData A)
        → Stops p s.token
        → loop ops env kmalloc parse (suc k) p a s ≡ Outcome.done (some a) s
    unfolding loop get_token pure
    loop-Stops k p a s h =
        bind-done get_token _ s refl
        ∙ bind-done (round ops env kmalloc parse p a s.token) _ s (round-Stops p a s.token s h)

  -- parse_data_parse, once its operand is read
  pub parse-operand :
      (f p : ℕ) (s u : ParseData A) (k : Token A) (t : List ℕ) (a : Essence A)
      → can_advance s.token ≡ true
      → lex ops env s.text ≡ (k, t)
      → operand ops env kmalloc (parse_data_parse ops env kmalloc f) k (at_token s k t)
        ≡ Outcome.done (some a) u
      → parse_data_parse ops env kmalloc (suc f) p s
        ≡ loop ops env kmalloc (parse_data_parse ops env kmalloc f) f p a u
  unfolding parse_data_parse or_null
  parse-operand f p s u k t a c l e =
      bind-done (next_token ops env) _ s (next_token-eq ops env s k t c l)
      ∙ bind-done (operand ops env kmalloc (parse_data_parse ops env kmalloc f) k) _
          (at_token s k t) e
