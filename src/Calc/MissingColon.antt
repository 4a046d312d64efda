-- ===== src/Calc/MissingColon.antt =====
-- What the parser does where the ':' of a conditional expression is missing.
use kedr_aux.Prelude.{ℕ, suc, Bool, true, false, Option, some, ltb, ◌≡◌, refl, ◌∙◌}
use kedr_aux.Calc.Essence.{Essence, CalcInt}
use kedr_aux.Calc.Env.{Env}
use kedr_aux.Calc.Lex.{Token}
use kedr_aux.Calc.Priority
use kedr_aux.Calc.Run.{ParseData, Outcome, Run, get_token, ◌>>=◌, bind-done}
use kedr_aux.Calc.Parse.{or_null, next_token, three_operands, round, loop, parse_data_parse}
use kedr_aux.Calc.Precedence.Equations.{round_on-cond}

module _ {A : Type 0} where
  bind-bug :
      {B C : Type 0} (m : Run A B) (f : B → Run A C) (s : ParseData A)
      → m s ≡ Outcome.bug
      → (m >>= f) s ≡ Outcome.bug
  unfolding ◌>>=◌
  bind-bug m f s e = rw (e, ◌>>=◌)

module _ {A : Type 0} (ops : CalcInt A) (env : Env A) (kmalloc : ℕ → Bool)
    (ok : (n : ℕ) → kmalloc n ≡ true) where
  next_token-eof :
      (s : ParseData A) (k : Token A)
      → s.token ≡ k
      → k ≡ Token.eof
      → next_token ops env s ≡ Outcome.bug
  unfolding next_token
  next_token-eof s k e h = rw (e, h, next_token) refl

  parse-eof :
      (f p : ℕ) (s : ParseData A)
      → s.token ≡ Token.eof
      → parse_data_parse ops env kmalloc (suc f) p s ≡ Outcome.bug
  unfolding parse_data_parse
  parse-eof f p s e = bind-bug (next_token ops env) _ s (next_token-eof s s.token refl e)

  -- If every kmalloc succeeds: at a '?' whose priority lets it in, if the text ends where the ':'
  -- is to stand, behind a second operand that is parsed, then parse_data_parse hits the BUG_ON of
  -- parse_data_next_token.
  pub missing_colon :
      (f k p : ℕ) (a b : Essence A) (s t : ParseData A)
      → s.token ≡ Token.cond_first
      → ltb Priority.cond_left p ≡ false
      → parse_data_parse ops env kmalloc (suc f) Priority.min s ≡ Outcome.done (some b) t
      → t.token ≡ Token.eof
      → loop ops env kmalloc (parse_data_parse ops env kmalloc (suc f)) (suc k) p a s ≡ Outcome.bug
  unfolding loop get_token three_operands or_null
  missing_colon f k p a b s t c l q e =
      bind-done get_token _ s refl
      ∙ bind-bug (round ops env kmalloc parse p a s.token) _ s (
          round_on-cond ops env kmalloc ok parse p a s.token s c l
          ∙ bind-done (parse Priority.min) _ s q
          ∙ bind-bug (parse Priority.cond_right) _ t (parse-eof f Priority.cond_right t e))
    where
      parse : ℕ → Run A (Option (Essence A))
      parse = parse_data_parse ops env kmalloc (suc f)
