-- ===== src/Calc/RoundTrip.antt =====
-- kedr_calc_parse reads a printed expression back.
use kedr_aux.Prelude.{ℕ, ◌≤◌, Bool, true, some, List, [], ◌∷◌, ◌++◌, ◌≡◌, refl, ◌∙◌, arith}
use kedr_aux.Calc.Essence.{Essence, CalcInt, size}
use kedr_aux.Calc.Env.{Env}
use kedr_aux.Calc.Lex.{Token}
use kedr_aux.Calc.Priority
use kedr_aux.Calc.Run.{ParseData, Outcome, pure, get_token, bind-done}
use kedr_aux.Calc.Parse.{
  or_null, calc_essence_alloc, is_eof, parse_data_parse, kedr_calc_parse, initial,
}
use kedr_aux.Calc.Print.{print}
use kedr_aux.Calc.Sound.Spec.{WellFormed}
use kedr_aux.Calc.Precedence.Equations.{grown}
use kedr_aux.Calc.Precedence.Rules.{stop_rule}
use kedr_aux.Calc.Precedence.Reads.{Ahead, after, Reads-print}

module _ {A : Type 0} (ops : CalcInt A) (env : Env A) (kmalloc : ℕ → Bool)
    (ok : (n : ℕ) → kmalloc n ≡ true) where
  alloc-eq : (s : ParseData A) → calc_essence_alloc kmalloc s ≡ Outcome.done true (grown s)
  unfolding calc_essence_alloc
  alloc-eq s = rw (ok s.kmallocs)

  -- If every kmalloc succeeds and the tokens of a text are those of a well formed tree printed with
  -- as few parentheses as C's precedences allow, then kedr_calc_parse, given enough fuel, returns
  -- that tree.
  pub kedr_calc_parse-print :
      (expr : List ℕ) (e : Essence A) (n live : ℕ)
      → WellFormed env e
      → Ahead ops env expr (print 0 e ++ (Token.eof ∷ []))
      → (F : ℕ) × (t : ParseData A) × ((f : ℕ)
          → F ≤ f
          → kedr_calc_parse ops env kmalloc f (initial expr n live)
            ≡ Outcome.done (some (record { top_essence = e; weak_vars = env.weak_vars })) t)
  unfolding kedr_calc_parse or_null pure get_token is_eof
  kedr_calc_parse-print expr e n live w a =
      let s = grown (initial expr n live) in
      let (t, b, run) =
        Reads-print ops env kmalloc ok e 0 0 w (omega arith) (omega arith) s Token.eof [] refl tt
          a in
      let u = after s (size e) Token.eof t in
      let (F, q) = run (Outcome.done (some e) u) (stop_rule ops env kmalloc ok 0 e u tt) in
      (
        F,
        u,
        λ f h.
            bind-done (calc_essence_alloc kmalloc) _ (initial expr n live)
              (alloc-eq (initial expr n live))
            ∙ bind-done (parse_data_parse ops env kmalloc f Priority.min) _ s (q f h)
            ∙ bind-done get_token _ u refl,
      )
