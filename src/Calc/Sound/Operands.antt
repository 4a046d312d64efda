-- ===== src/Calc/Sound/Operands.antt =====
-- The first switch of parse_data_parse keeps what Spec asks, given that the recursive calls do.
use kedr_aux.Prelude.{
  ℕ, ◌+◌, ◌-◌, ◌≤◌, ◌<◌, Bool, true, false, Option, none, some, length, ◌≡◌, refl, arith,
  if◌then◌else◌,
}
use kedr_aux.Calc.Essence.{Essence, val, var, weak_var, EssenceType, CalcInt, size}
use kedr_aux.Calc.Env.{Env}
use kedr_aux.Calc.Priority
use kedr_aux.Calc.Lex.{Token}
use kedr_aux.Calc.Run.{
  ParseData, Run, Ensures, pure, get_token, ◌>>=◌, ◌>>◌, Ensures-bind, Ensures-pure, Ensures-weaken,
}
use kedr_aux.Calc.Parse.{
  calc_essence_free, or_null, create, essence_1op_create, next_token, leaf, unary_op, parenthesised,
  operand, is_close,
}
use kedr_aux.Calc.Tokens.{can_advance, InRange}
use kedr_aux.Calc.Sound.Spec.{WellFormed, asks, Post, Held, Operand, Made, Advanced, Parses}
use kedr_aux.Calc.Sound.Steps.{
  create-Made, essence_1op_create-Made, next_token-Advanced, free_then, get_then, asks-Advanced,
}

close_advances : {A : Type 0} (k : Token A) → is_close k ≡ true → can_advance k ≡ false → ⊥
unfolding is_close
close_advances k c x = ground arith

module _ {A : Type 0} (ops : CalcInt A) (env : Env A) (kmalloc : ℕ → Bool) (G : Type 0) where
  -- From a state that holds a tree, one step of the lexer leads to one that holds it.
  keeps_count :
      (e : Essence A) (L : ℕ) (s : ParseData A) (N : ℕ) (k : Token A) (t : ParseData A)
      → s.live ≡ L + size e
      → length s.text + 1 ≤ N
      → WellFormed env e
      → (asks s ≡ true → G)
      → Advanced env G s k t
      → Held env G N L e t
  keeps_count e L s N k t live short w ahead h = record {
    held = omega (arith, h.live, live);
    shorter = omega (arith, h.lexed.moves, short);
    wf = w;
    ahead = λ p. ahead (asks-Advanced h p);
  }

  -- The operand is built: take the next token.
  finish_Operand :
      {O : Type 0} (e : Essence A) (L N : ℕ) (s : ParseData A)
      → s.live ≡ L + size e
      → length s.text + 1 ≤ N
      → WellFormed env e
      → (asks s ≡ true → G)
      → (can_advance s.token ≡ false → G)
      → Ensures G O (Operand env G N L) ((next_token ops env >> pure (some e)) s)
  finish_Operand e L N s live short w ahead g =
      Ensures-bind (next_token ops env) _ s (next_token-Advanced ops env G _ s g)
        (λ k t h. Ensures-pure (some e) t (keeps_count e L s N k t live short w ahead h))

  no_Operand :
      {O : Type 0} (L N : ℕ) (s : ParseData A)
      → s.live ≡ L
      → length s.text ≤ N
      → (asks s ≡ true → G)
      → Ensures G O (Operand env G N L) (pure none s)
  no_Operand L N s live short ahead = Ensures-pure none s (record {
    held = omega arith;
    shorter = omega arith;
    wf = tt;
    ahead = ahead;
    no_error = λ p. absurd (omega arith);
  })

  leaf-Operand :
      {O : Type 0} (e : Essence A) (N : ℕ) (s : ParseData A)
      → size e ≡ 1
      → length s.text + 1 ≤ N
      → WellFormed env e
      → (asks s ≡ true → G)
      → (can_advance s.token ≡ false → G)
      → Ensures G O (Operand env G N s.live) (leaf ops env kmalloc e s)
  unfolding leaf
  leaf-Operand {O} e N s one short w ahead g =
      Ensures-bind (create kmalloc e) _ s (create-Made env G O kmalloc e s w) made
    where
      made :
          (o : Option (Essence A)) (t : ParseData A)
          → Made env G s (size e) o t
          → Ensures G O
              (Operand env G N s.live)
              (or_null o (pure none) (λ e. next_token ops env >> pure (some e)) t)
      made none t h =
          unfold or_null in
          no_Operand s.live N t (omega (arith, h.live)) (rw h.text (omega arith))
            (rw (h.text, h.token) ahead)
      made (some e') t h =
          unfold or_null in
          finish_Operand e' s.live N t (omega (arith, h.live, h.sized)) (rw h.text short) h.wf
            (rw (h.text, h.token) ahead) (rw h.token g)

module _ {A : Type 0} (ops : CalcInt A) (env : Env A) (kmalloc : ℕ → Bool) (G : Type 0) (f : ℕ)
    (parse : ℕ → Run A (Option (Essence A))) (spec : Parses env G f parse) where
  unary_Operand :
      (ty : EssenceType) (p N : ℕ) (s : ParseData A)
      → length s.text + 1 ≤ N
      → (asks s ≡ true → G)
      → (can_advance s.token ≡ false → G)
      → Ensures G (f < N) (Operand env G N s.live) (unary_op ops env kmalloc parse ty p s)
  unfolding unary_op
  unary_Operand ty p N s short ahead g =
      Ensures-bind (parse p) _ s
        (Ensures-weaken (spec p s g ahead) (λ x. x) (λ o. omega arith) (λ b t q. q)) parsed
    where
      made :
          (e : Essence A) (t : ParseData A)
          → Post env G (length s.text) s.live (some e) t
          → (o : Option (Essence A)) (u : ParseData A) → Made env G t (size e + 1) o u
          → Ensures G
              (f < N)
              (Operand env G N s.live)
              (or_null o (calc_essence_free e >> pure none) (λ e. pure (some e)) u)
      made e t q none u h =
          unfold or_null in
          free_then env e q.wf (pure none) u (
            no_Operand ops env kmalloc G s.live N (record u { live = u.live - size e })
              (omega (arith, h.live, q.held)) (rw h.text (omega (arith, q.shorter)))
              (λ x. q.ahead (rw (h.text, h.token) at x)))
      made e t q (some e') u h =
          unfold or_null in
          Ensures-pure (some e') u (record {
            held = omega (arith, h.live, h.sized, q.held);
            shorter = rw h.text (omega (arith, q.shorter));
            wf = h.wf;
            ahead = λ x. q.ahead (rw (h.text, h.token) at x);
          })

      parsed :
          (o : Option (Essence A)) (t : ParseData A)
          → Post env G (length s.text) s.live o t
          → Ensures G (f < N) (Operand env G N s.live) (
              or_null o
                (pure none)
                (λ op. essence_1op_create kmalloc ty op >>= λ result.
                  or_null result (calc_essence_free op >> pure none) (λ e. pure (some e)))
                t)
      parsed none t q =
          unfold or_null in
          no_Operand ops env kmalloc G s.live N t (omega (arith, q.held)) (omega (arith, q.shorter))
            q.ahead
      parsed (some e) t q =
          unfold or_null in
          Ensures-bind (essence_1op_create kmalloc ty e) _ t
            (essence_1op_create-Made env G (f < N) kmalloc ty e t q.wf) (made e t q)

  parenthesised-Operand :
      (N : ℕ) (s : ParseData A)
      → length s.text + 1 ≤ N
      → (asks s ≡ true → G)
      → (can_advance s.token ≡ false → G)
      → Ensures G (f < N) (Operand env G N s.live) (parenthesised ops env kmalloc parse s)
  unfolding parenthesised
  parenthesised-Operand N s short ahead g =
      Ensures-bind (parse Priority.min) _ s
        (Ensures-weaken (spec Priority.min s g ahead) (λ x. x) (λ o. omega arith) (λ b t q. q))
        parsed
    where
      closed :
          (e : Essence A) (t : ParseData A)
          → Post env G (length s.text) s.live (some e) t
          → (b : Bool) → is_close t.token ≡ b
          → Ensures G (f < N) (Operand env G N s.live) (
              (if b
                  then (next_token ops env >> pure (some e))
                  else (calc_essence_free e >> pure none))
                t)
      closed e t q true c =
          finish_Operand ops env kmalloc G e s.live N t (omega (arith, q.held))
            (omega (arith, q.shorter)) q.wf q.ahead (λ x. absurd (close_advances t.token c x))
      closed e t q false c = free_then env e q.wf (pure none) t (
          no_Operand ops env kmalloc G s.live N (record t { live = t.live - size e })
            (omega (arith, q.held)) (omega (arith, q.shorter)) q.ahead)

      parsed :
          (o : Option (Essence A)) (t : ParseData A)
          → Post env G (length s.text) s.live o t
          → Ensures G (f < N) (Operand env G N s.live) (
              or_null o
                (pure none)
                (λ e. get_token >>= λ k.
                  if is_close k
                  then (next_token ops env >> pure (some e))
                  else (calc_essence_free e >> pure none))
                t)
      parsed none t q =
          unfold or_null in
          no_Operand ops env kmalloc G s.live N t (omega (arith, q.held)) (omega (arith, q.shorter))
            q.ahead
      parsed (some e) t q = unfold or_null in get_then _ t (closed e t q (is_close t.token) refl)

  pub operand-Operand :
      (k : Token A) (N : ℕ) (s : ParseData A)
      → s.token ≡ k
      → InRange env k
      → (can_advance k ≡ true → length s.text + 1 ≤ N)
      → length s.text ≤ N
      → (asks s ≡ true → G)
      → Ensures G (f < N) (Operand env G N s.live) (operand ops env kmalloc parse k s)
  unfolding operand
  operand-Operand (Token.value v) N s e r lt le a =
      leaf-Operand ops env kmalloc G (val v) N s refl (lt refl) tt a (rw e (λ x. cc))
  operand-Operand (Token.constant v) N s e r lt le a =
      leaf-Operand ops env kmalloc G (val v) N s refl (lt refl) tt a (rw e (λ x. cc))
  operand-Operand (Token.variable i) N s e r lt le a =
      leaf-Operand ops env kmalloc G (var i) N s refl (lt refl) r a (rw e (λ x. cc))
  operand-Operand (Token.weak_variable i) N s e r lt le a =
      leaf-Operand ops env kmalloc G (weak_var i) N s refl (lt refl) r a (rw e (λ x. cc))
  operand-Operand Token.open_parenthesis N s e r lt le a =
      parenthesised-Operand N s (lt refl) a (rw e (λ x. cc))
  operand-Operand Token.minus N s e r lt le a =
      unary_Operand EssenceType.unary_minus Priority.unary_minus N s (lt refl) a (rw e (λ x. cc))
  operand-Operand Token.plus N s e r lt le a =
      unary_Operand EssenceType.unary_plus Priority.unary_plus N s (lt refl) a (rw e (λ x. cc))
  operand-Operand Token.logical_not N s e r lt le a =
      unary_Operand EssenceType.logical_not Priority.logical_not N s (lt refl) a (rw e (λ x. cc))
  operand-Operand Token.binary_not N s e r lt le a =
      unary_Operand EssenceType.binary_not Priority.binary_not N s (lt refl) a (rw e (λ x. cc))
  operand-Operand _ N s e r lt le a = no_Operand ops env kmalloc G s.live N s refl le a
