-- ===== src/Calc/Sound/Rounds.antt =====
-- The loop over operations and parse_data_parse itself keep what Spec asks.
use kedr_aux.Prelude.{
  ℕ, zero, suc, ◌+◌, ◌-◌, ◌≤◌, ◌<◌, Bool, true, false, Option, none, some, length, ◌≡◌, refl, arith,
  Bool-cases, ◌⊎◌, inl, inr, ltb,
}
use kedr_aux.Calc.Essence.{Essence, EssenceType, CalcInt, size}
use kedr_aux.Calc.Env.{Env}
use kedr_aux.Calc.Priority
use kedr_aux.Calc.Lex.{Token}
use kedr_aux.Calc.Run.{
  ParseData, Run, Ensures, on_out, pure, out_of_fuel, ◌>>=◌, ◌>>◌, Ensures-bind, Ensures-pure,
  Ensures-weaken,
}
use kedr_aux.Calc.Parse.{
  Round, return, again, BinaryOp, binary_op, calc_essence_free, or_null, essence_2op_create,
  essence_3op_create, next_token, operand, two_operands, three_operands, abandon, two_operands_if,
  round, loop, parse_data_parse,
}
use kedr_aux.Calc.Tokens.{can_advance}
use kedr_aux.Calc.Sound.Spec.{asks, is_error, Post, Held, Operand, Rounded, Made, Advanced, Parses}
use kedr_aux.Calc.Sound.Steps.{
  essence_2op_create-Made, essence_3op_create-Made, next_token-Advanced, free_then, get_then,
  asks-Advanced,
}
use kedr_aux.Calc.Sound.Operands.{operand-Operand}

no_error_of_can_advance : {A : Type 0} (k : Token A) → can_advance k ≡ true → is_error k ≡ false
no_error_of_can_advance k e = ground arith

module _ {A : Type 0} (ops : CalcInt A) (env : Env A) (kmalloc : ℕ → Bool) (G : Type 0) (f : ℕ)
    (parse : ℕ → Run A (Option (Essence A))) (spec : Parses env G f parse) where
  round_gives_up :
      (e : Essence A) (N M L : ℕ) (s : ParseData A)
      → s.live ≡ L
      → length s.text ≤ N
      → (asks s ≡ true → G)
      → Ensures G (f < N) (Rounded env G N M L) (pure (return none) s)
  round_gives_up e N M L s live short ahead = Ensures-pure (return none) s (record {
    held = omega arith;
    shorter = omega arith;
    wf = tt;
    ahead = ahead;
    no_error = λ x. absurd (omega arith);
  })

  two_operands-Rounded :
      (b : BinaryOp) (a : Essence A) (N L : ℕ) (s : ParseData A)
      → Held env G N L a s
      → (can_advance s.token ≡ false → G)
      → Ensures G
          (f < N)
          (Rounded env G N (length s.text) L)
          (two_operands ops env kmalloc parse b a s)
  unfolding two_operands
  two_operands-Rounded b a N L s held g =
      Ensures-bind (parse b.right) _ s
        (Ensures-weaken (spec b.right s g held.ahead) (λ x. x) (λ o. omega (arith, held.shorter))
          (λ b t q. q))
        parsed
    where
      made :
          (c : Essence A) (t : ParseData A)
          → Post env G (length s.text) s.live (some c) t
          → (o : Option (Essence A)) (u : ParseData A) → Made env G t (size a + size c + 1) o u
          → Ensures G (f < N) (Rounded env G N (length s.text) L) (
              or_null o
                (calc_essence_free a >> calc_essence_free c >> pure (return none))
                (λ e. pure (again e))
                u)
      made c t q none u h =
          unfold or_null in
          free_then env a held.wf _ u (
            free_then env c q.wf (pure (return none)) _ (
              round_gives_up a N (length s.text) L (record u { live = u.live - size a - size c })
                (omega (arith, h.live, q.held, held.held))
                (rw h.text (omega (arith, q.shorter, held.shorter)))
                (λ x. q.ahead (rw (h.text, h.token) at x))))
      made c t q (some e) u h =
          unfold or_null in
          Ensures-pure (again e) u (record {
            held = omega (arith, h.live, h.sized, q.held, held.held);
            shorter = rw h.text (omega (arith, q.shorter));
            wf = h.wf;
            ahead = λ x. q.ahead (rw (h.text, h.token) at x);
          })

      parsed :
          (o : Option (Essence A)) (t : ParseData A)
          → Post env G (length s.text) s.live o t
          → Ensures G (f < N) (Rounded env G N (length s.text) L) (
              or_null o
                (calc_essence_free a >> pure (return none))
                (λ c. essence_2op_create kmalloc b.type a c >>= λ result.
                  or_null result
                    (calc_essence_free a >> calc_essence_free c >> pure (return none))
                    (λ e. pure (again e)))
                t)
      parsed none t q =
          unfold or_null in
          free_then env a held.wf (pure (return none)) t (
            round_gives_up a N (length s.text) L (record t { live = t.live - size a })
              (omega (arith, q.held, held.held)) (omega (arith, q.shorter, held.shorter)) q.ahead)
      parsed (some c) t q =
          unfold or_null in
          Ensures-bind (essence_2op_create kmalloc b.type a c) _ t
            (essence_2op_create-Made env G (f < N) kmalloc b.type a c t held.wf q.wf) (made c t q)

  three_operands-Rounded :
      (a : Essence A) (N L : ℕ) (s : ParseData A)
      → Held env G N L a s
      → G
      → Ensures G
          (f < N)
          (Rounded env G N (length s.text) L)
          (three_operands ops env kmalloc parse a s)
  unfolding three_operands
  three_operands-Rounded a N L s held g =
      Ensures-bind (parse Priority.min) _ s
        (Ensures-weaken (spec Priority.min s (λ _. g) (λ _. g)) (λ x. x)
          (λ o. omega (arith, held.shorter)) (λ b t q. q))
        second
    where
      made :
          (b c : Essence A) (t u : ParseData A)
          → Post env G (length s.text) s.live (some b) t
          → Post env G (length t.text) t.live (some c) u
          → (o : Option (Essence A)) (v : ParseData A)
          → Made env G u (size a + size b + size c + 1) o v
          → Ensures G (f < N) (Rounded env G N (length s.text) L) (
              or_null o
                (calc_essence_free a
                  >> calc_essence_free b
                  >> calc_essence_free c
                  >> pure (return none))
                (λ e. pure (again e))
                v)
      made b c t u q r none v h =
          unfold or_null in
          free_then env a held.wf _ v (
            free_then env b q.wf _ _ (
              free_then env c r.wf (pure (return none)) _ (
                round_gives_up a N (length s.text) L
                  (record v { live = v.live - size a - size b - size c })
                  (omega (arith, h.live, r.held, q.held, held.held))
                  (rw h.text (omega (arith, r.shorter, q.shorter, held.shorter))) (λ _. g))))
      made b c t u q r (some e) v h =
          unfold or_null in
          Ensures-pure (again e) v (record {
            held = omega (arith, h.live, h.sized, r.held, q.held, held.held);
            shorter = rw h.text (omega (arith, r.shorter, q.shorter));
            wf = h.wf;
            ahead = λ _. g;
          })

      third :
          (b : Essence A) (t : ParseData A)
          → Post env G (length s.text) s.live (some b) t
          → (o : Option (Essence A)) (u : ParseData A) → Post env G (length t.text) t.live o u
          → Ensures G (f < N) (Rounded env G N (length s.text) L) (
              or_null o
                (calc_essence_free b >> calc_essence_free a >> pure (return none))
                (λ c. essence_3op_create kmalloc EssenceType.cond a b c >>= λ result.
                  or_null result
                    (calc_essence_free a
                      >> calc_essence_free b
                      >> calc_essence_free c
                      >> pure (return none))
                    (λ e. pure (again e)))
                u)
      third b t q none u r =
          unfold or_null in
          free_then env b q.wf _ u (
            free_then env a held.wf (pure (return none)) _ (
              round_gives_up a N (length s.text) L (record u { live = u.live - size b - size a })
                (omega (arith, r.held, q.held, held.held))
                (omega (arith, r.shorter, q.shorter, held.shorter)) (λ _. g)))
      third b t q (some c) u r =
          unfold or_null in
          Ensures-bind (essence_3op_create kmalloc EssenceType.cond a b c) _ u
            (essence_3op_create-Made env G (f < N) kmalloc EssenceType.cond a b c u held.wf q.wf
              r.wf)
            (made b c t u q r)

      second :
          (o : Option (Essence A)) (t : ParseData A)
          → Post env G (length s.text) s.live o t
          → Ensures G (f < N) (Rounded env G N (length s.text) L) (
              or_null o
                (calc_essence_free a >> pure (return none))
                (λ b. parse Priority.cond_right >>= λ o.
                  or_null o (calc_essence_free b >> calc_essence_free a >> pure (return none)) (λ c.
                    essence_3op_create kmalloc EssenceType.cond a b c >>= λ result.
                    or_null result
                      (calc_essence_free a
                        >> calc_essence_free b
                        >> calc_essence_free c
                        >> pure (return none))
                      (λ e. pure (again e))))
                t)
      second none t q =
          unfold or_null in
          free_then env a held.wf (pure (return none)) t (
            round_gives_up a N (length s.text) L (record t { live = t.live - size a })
              (omega (arith, q.held, held.held)) (omega (arith, q.shorter, held.shorter)) (λ _. g))
      second (some b) t q =
          unfold or_null in
          Ensures-bind (parse Priority.cond_right) _ t
            (Ensures-weaken (spec Priority.cond_right t (λ _. g) (λ _. g)) (λ x. x)
              (λ o. omega (arith, q.shorter, held.shorter)) (λ b t q. q))
            (third b t q)

  stop_Rounded :
      (a : Essence A) (N M L : ℕ) (s : ParseData A)
      → Held env G N L a s
      → is_error s.token ≡ false
      → Ensures G (f < N) (Rounded env G N M L) (pure (return (some a)) s)
  stop_Rounded a N M L s held e = Ensures-pure (return (some a)) s (record {
    held = held.held;
    shorter = held.shorter;
    wf = held.wf;
    ahead = held.ahead;
    no_error = λ _. e;
  })

  abandon-Rounded :
      (a : Essence A) (N M L : ℕ) (s : ParseData A)
      → Held env G N L a s
      → Ensures G (f < N) (Rounded env G N M L) (abandon ops env kmalloc parse a s)
  unfolding abandon
  abandon-Rounded a N M L s held = free_then env a held.wf (pure (return none)) s (
      round_gives_up a N M L (record s { live = s.live - size a }) (omega (arith, held.held))
        (omega (arith, held.shorter)) held.ahead)

  two_operands_if-Rounded :
      (p : ℕ) (a : Essence A) (N L : ℕ) (s : ParseData A) (o : Option BinaryOp)
      → Held env G N L a s
      → can_advance s.token ≡ true
      → Ensures G
          (f < N)
          (Rounded env G N (length s.text) L)
          (two_operands_if ops env kmalloc parse p a o s)
  unfolding two_operands_if
  two_operands_if-Rounded p a N L s none held e = abandon-Rounded a N (length s.text) L s held
  two_operands_if-Rounded p a N L s (some b) held e = elim (Bool-cases (ltb b.left p)) [
    | inl h ↦ rw h (stop_Rounded a N (length s.text) L s held (no_error_of_can_advance s.token e))
    | inr h ↦ rw h (two_operands-Rounded b a N L s held (rw e (λ x. cc)))
  ]

  round-Rounded :
      (p : ℕ) (a : Essence A) (k : Token A) (N L : ℕ) (s : ParseData A)
      → s.token ≡ k
      → Held env G N L a s
      → Ensures G (f < N) (Rounded env G N (length s.text) L) (round ops env kmalloc parse p a k s)
  unfolding round
  round-Rounded p a Token.error N L s e held = abandon-Rounded a N (length s.text) L s held
  round-Rounded p a Token.eof N L s e held = stop_Rounded a N (length s.text) L s held (rw e refl)
  round-Rounded p a Token.close_parenthesis N L s e held =
      stop_Rounded a N (length s.text) L s held (rw e refl)
  round-Rounded p a Token.cond_second N L s e held =
      stop_Rounded a N (length s.text) L s held (rw e refl)
  round-Rounded p a Token.cond_first N L s e held = elim (Bool-cases (ltb Priority.cond_left p)) [
    | inl h ↦ rw h (stop_Rounded a N (length s.text) L s held (rw e refl))
    | inr h ↦ rw h (three_operands-Rounded a N L s held (held.ahead (rw e refl)))
  ]
  round-Rounded p a k N L s e held =
      two_operands_if-Rounded p a N L s (binary_op k) held (rw e refl)

  loop-Post :
      (k p : ℕ) (a : Essence A) (N L : ℕ) (s : ParseData A)
      → Held env G N L a s
      → Ensures G ((k < N) ⊎ (f < N)) (Post env G N L) (loop ops env kmalloc parse k p a s)
  unfolding loop
  loop-Post zero p a N L s held = unfold out_of_fuel in on_out (inl (omega (arith, held.shorter)))
  loop-Post (suc k) p a N L s held = get_then _ s (
      Ensures-bind (round ops env kmalloc parse p a s.token) _ s
        (Ensures-weaken (round-Rounded p a s.token N L s refl held) (λ x. x) inr (λ b t q. q))
        (next (loop-Post k p)))
    where
      next :
          ((e : Essence A) (N L : ℕ) (t : ParseData A)
            → Held env G N L e t
            → Ensures G ((k < N) ⊎ (f < N)) (Post env G N L) (loop ops env kmalloc parse k p e t))
          → (r : Round A) (t : ParseData A) → Rounded env G N (length s.text) L r t
          → Ensures G ((suc k < N) ⊎ (f < N)) (Post env G N L) (
              (elim r as (λ _. Run A (Option (Essence A))) [
                | return o ↦ pure o
                | again e ↦ loop ops env kmalloc parse k p e
              ])
                t)
      next ih (return o) t q = Ensures-pure o t q
      next ih (again e) t q =
          Ensures-weaken (ih e (length s.text) L t q) (λ x. x) (λ o. omega (arith, held.shorter))
            (λ b t q. record {
              held = q.held;
              shorter = omega (arith, q.shorter, held.shorter);
              wf = q.wf;
              ahead = q.ahead;
              no_error = q.no_error;
            })

module _ {A : Type 0} (ops : CalcInt A) (env : Env A) (kmalloc : ℕ → Bool) (G : Type 0) where
  -- Whatever the fuel, parse_data_parse keeps Spec.
  pub parse-Parses : (f : ℕ) → Parses env G f (parse_data_parse ops env kmalloc f)
  unfolding parse_data_parse
  parse-Parses zero p s g ahead = unfold out_of_fuel in on_out (omega arith)
  parse-Parses (suc f) p s g ahead =
      Ensures-bind (next_token ops env) _ s (next_token-Advanced ops env G _ s g)
        (advanced (parse-Parses f))
    where
      parsed :
          Parses env G f (parse_data_parse ops env kmalloc f)
          → (o : Option (Essence A)) (t : ParseData A) → Operand env G (length s.text) s.live o t
          → Ensures G (suc f ≤ length s.text) (Post env G (length s.text) s.live) (
              or_null o
                (pure none)
                (λ e. loop ops env kmalloc (parse_data_parse ops env kmalloc f) f p e)
                t)
      parsed spec none t q = unfold or_null in Ensures-pure none t q
      parsed spec (some e) t q =
          unfold or_null in
          Ensures-weaken
            (loop-Post ops env kmalloc G f (parse_data_parse ops env kmalloc f) spec f p e
              (length s.text) s.live t q)
            (λ x. x) (λ o. omega arith) (λ b t q. q)

      advanced :
          Parses env G f (parse_data_parse ops env kmalloc f)
          → (k : Token A) (t : ParseData A) → Advanced env G s k t
          → Ensures G (suc f ≤ length s.text) (Post env G (length s.text) s.live) (
              (operand ops env kmalloc (parse_data_parse ops env kmalloc f) k >>= λ o.
              or_null o
                (pure none)
                (λ e. loop ops env kmalloc (parse_data_parse ops env kmalloc f) f p e))
                t)
      advanced spec k t h =
          Ensures-bind (operand ops env kmalloc (parse_data_parse ops env kmalloc f) k) _ t
            (rw (← h.live) (
              Ensures-weaken
                (operand-Operand ops env kmalloc G f (parse_data_parse ops env kmalloc f) spec k
                  (length s.text) t h.token h.lexed.in_range
                  (λ c. omega (arith, h.lexed.consumes c)) h.lexed.moves
                  (λ x. ahead (asks-Advanced h x)))
                (λ x. x) (λ o. o) (λ b t q. q)))
            (parsed spec)
