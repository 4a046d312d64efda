-- ===== src/Calc/Correct.antt =====
-- kedr_calc_parse and kedr_calc_delete: what they return, allocate, free and read.
use kedr_aux.Prelude.{
  ℕ, ◌+◌, ◌-◌, ◌≤◌, ◌<◌, Bool, true, false, not, Option, none, some, List, length, ◌≡◌, ◌≢◌, sym,
  ap, ◌∙◌, arith, if◌then◌else◌,
}
use mathlib.Core.Bool.{false≢true}
use kedr_aux.Calc.Essence.{Essence, CalcInt, size}
use kedr_aux.Calc.Env.{Env}
use kedr_aux.Calc.Priority
use kedr_aux.Calc.Run.{
  ParseData, Outcome, Run, Ensures, pure, get_token, ◌>>=◌, ◌>>◌, Ensures-bind, bind-done,
  Ensures-pure, Ensures-done, Ensures-bug, Ensures-out, Ensures-total,
}
use kedr_aux.Calc.Parse.{
  Calc, calc_essence_free, kfree, or_null, calc_essence_alloc, is_eof, parse_data_parse,
  kedr_calc_parse, kedr_calc_delete, initial,
}
use kedr_aux.Calc.Tokens.{has_question}
use kedr_aux.Calc.Sound.Spec.{WellFormed, Post}
use kedr_aux.Calc.Sound.Steps.{
  Allocated, alloc_Allocated, calc_essence_free-eq, free_then, get_then,
}
use kedr_aux.Calc.Sound.Rounds.{parse-Parses}

module _ {A : Type 0} where
  -- the objects that a kedr_calc_t holds, itself included
  abbrev pub calc_size : Option (Calc A) → ℕ
  calc_size none = 0
  calc_size (some c) = size c.top_essence + 1

  abbrev pub WellFormedCalc : Env A → Option (Calc A) → Type 0
  WellFormedCalc env none = Unit
  WellFormedCalc env (some c) = WellFormed env c.top_essence

  -- what kedr_calc_parse leaves
  pub record Parsed (env : Env A) (live : ℕ) (o : Option (Calc A)) (t : ParseData A) : Type 0 where
    pub held : t.live ≡ live + calc_size o
    pub wf : WellFormedCalc env o

module _ {A : Type 0} {G O : Type 0} {B : Type 0} {Q : B → ParseData A → Type 0} where
  kfree_then :
      (m : Run A B) (s : ParseData A)
      → Ensures G O Q (m (record s { live = s.live - 1 }))
      → Ensures G O Q ((kfree >> m) s)
  unfolding kfree ◌>>=◌
  kfree_then m s h = h

module _ {A : Type 0} (ops : CalcInt A) (env : Env A) (kmalloc : ℕ → Bool) (expr : List ℕ)
    (G : Type 0) (asked : has_question expr ≡ true → G) where
  parse-Parsed :
      (fuel n live : ℕ)
      → Ensures G
          (fuel ≤ length expr)
          (Parsed env live)
          (kedr_calc_parse ops env kmalloc fuel (initial expr n live))
  unfolding kedr_calc_parse
  parse-Parsed fuel n live =
      Ensures-bind (calc_essence_alloc kmalloc) _ _
        (alloc_Allocated env G (fuel ≤ length expr) kmalloc (initial expr n live)) allocated
    where
      ended :
          (e : Essence A) (t : ParseData A) (b : Bool)
          → t.live ≡ live + 1 + size e
          → WellFormed env e
          → Ensures G (fuel ≤ length expr) (Parsed env live) (
              (if b
                  then pure (some (record { top_essence = e; weak_vars = env.weak_vars }))
                  else (calc_essence_free e >> kfree >> pure none))
                t)
      ended e t true h w = Ensures-pure _ t (record { held = omega arith; wf = w })
      ended e t false h w =
          free_then env e w _ t
            (kfree_then _ _ (Ensures-pure none _ (record { held = omega arith; wf = tt })))

      parsed :
          (s : ParseData A)
          → s.live ≡ live + 1
          → (o : Option (Essence A)) (t : ParseData A) → Post env G (length expr) s.live o t
          → Ensures G (fuel ≤ length expr) (Parsed env live) (
              or_null o
                (kfree >> pure none)
                (λ e. get_token >>= λ k.
                  if is_eof k
                  then pure (some (record { top_essence = e; weak_vars = env.weak_vars }))
                  else (calc_essence_free e >> kfree >> pure none))
                t)
      parsed s l none t q =
          unfold or_null in
          kfree_then _ t (Ensures-pure none _ (record { held = omega (arith, q.held, l); wf = tt }))
      parsed s l (some e) t q =
          unfold or_null in
          get_then _ t (ended e t (is_eof t.token) (omega (arith, q.held, l)) q.wf)

      allocated :
          (b : Bool) (s : ParseData A)
          → Allocated env G (fuel ≤ length expr) kmalloc (initial expr n live) b s
          → Ensures G (fuel ≤ length expr) (Parsed env live) (
              (if not b
                  then pure none
                  else (parse_data_parse ops env kmalloc fuel Priority.min >>= λ o.
                      or_null o (kfree >> pure none) (λ e. get_token >>= λ k.
                      if is_eof k
                      then pure (some (record { top_essence = e; weak_vars = env.weak_vars }))
                      else (calc_essence_free e >> kfree >> pure none))))
                s)
      allocated false s h = Ensures-pure none s (record { held = omega (arith, h.live); wf = tt })
      allocated true s h =
          Ensures-bind (parse_data_parse ops env kmalloc fuel Priority.min) _ s
            (rw (← h.text) (
              parse-Parses ops env kmalloc G fuel Priority.min s (rw h.token (λ x. cc))
                (rw (h.token, h.text) asked)))
            (parsed s (omega (arith, h.live)))

module _ {A : Type 0} (ops : CalcInt A) (env : Env A) (kmalloc : ℕ → Bool) (expr : List ℕ)
    (fuel n live : ℕ) where
  kedr_calc_parse-Parsed :
      Ensures
        (has_question expr ≡ true)
        (fuel ≤ length expr)
        (Parsed env live)
        (kedr_calc_parse ops env kmalloc fuel (initial expr n live))
  kedr_calc_parse-Parsed =
      parse-Parsed ops env kmalloc expr (has_question expr ≡ true) (λ h. h) fuel n live

  -- With more fuel than the text has bytes, kedr_calc_parse ends.
  pub kedr_calc_parse-ne-out :
      length expr < fuel → kedr_calc_parse ops env kmalloc fuel (initial expr n live) ≢ Outcome.out
  kedr_calc_parse-ne-out h e = absurd (omega (arith, Ensures-out kedr_calc_parse-Parsed e))

  -- A text with no '?' never makes kedr_calc_parse hit a BUG_ON.
  pub kedr_calc_parse-ne-bug :
      has_question expr ≡ false
      → kedr_calc_parse ops env kmalloc fuel (initial expr n live) ≢ Outcome.bug
  kedr_calc_parse-ne-bug h e = cc (h, Ensures-bug kedr_calc_parse-Parsed e)

  -- If kedr_calc_parse returns, however the calls of kmalloc end, then what it leaves allocated
  -- beside what was before is exactly the object that it returns with its tree, and nothing if it
  -- returns NULL.
  pub live-kedr_calc_parse :
      (o : Option (Calc A)) (t : ParseData A)
      → kedr_calc_parse ops env kmalloc fuel (initial expr n live) ≡ Outcome.done o t
      → t.live ≡ live + calc_size o
  live-kedr_calc_parse o t e = (Ensures-done kedr_calc_parse-Parsed e).held

  -- In the tree that kedr_calc_parse returns each node's type has as many operands as the node, and
  -- each index of a variable is in range.
  pub kedr_calc_parse-WellFormed :
      (c : Calc A) (t : ParseData A)
      → kedr_calc_parse ops env kmalloc fuel (initial expr n live) ≡ Outcome.done (some c) t
      → WellFormed env c.top_essence
  kedr_calc_parse-WellFormed c t e = (Ensures-done kedr_calc_parse-Parsed e).wf

  -- kedr_calc_delete of an object that kedr_calc_parse returned frees it without a BUG and leaves
  -- allocated just what was before.
  pub kedr_calc_delete-kedr_calc_parse :
      (c : Calc A) (t : ParseData A)
      → kedr_calc_parse ops env kmalloc fuel (initial expr n live) ≡ Outcome.done (some c) t
      → kedr_calc_delete c t ≡ Outcome.done tt (record t { live = live })
  unfolding kedr_calc_delete kfree
  kedr_calc_delete-kedr_calc_parse c t e =
      bind-done (calc_essence_free c.top_essence) _ t
        (calc_essence_free-eq env c.top_essence t (kedr_calc_parse-WellFormed c t e))
      ∙ freed (t.live - size c.top_essence - 1) (omega (arith, live-kedr_calc_parse (some c) t e))
    where
      freed :
          (m : ℕ)
          → m ≡ live
          → Outcome.done tt (record t { live = m }) ≡ Outcome.done tt (record t { live = live })
      freed m h = ap (λ m. Outcome.done tt (record t { live = m })) h

  -- On a text with no '?', with more fuel than the text has bytes and however the calls of kmalloc
  -- end, kedr_calc_parse returns. What it leaves allocated beside what was before is exactly the
  -- object that it returns with its tree, and the tree is well formed.
  pub kedr_calc_parse_total :
      length expr < fuel
      → has_question expr ≡ false
      → (o : Option (Calc A)) × (t : ParseData A) × (kedr_calc_parse ops env kmalloc fuel
            (initial expr n live)
          ≡ Outcome.done o t)
        × Parsed env live o t
  kedr_calc_parse_total h q =
      Ensures-total kedr_calc_parse-Parsed (λ g. false≢true (sym q ∙ g)) (λ o. omega arith)
