-- ===== src/Calc/Sound/Steps.antt =====
-- The rules for the steps that the parser is made of.
use kedr_aux.Prelude.{
  ℕ, ◌+◌, ◌-◌, Bool, true, false, ◌||◌, none, some, ◌≡◌, refl, sym, subst, ap, ◌∙◌, arith,
  Bool-cases, inl, inr, if◌then◌else◌,
}
use kedr_aux.Calc.Essence.{
  Essence, val, var, weak_var, op1, op2, op3, EssenceType, CalcInt, is_unary, is_binary, is_ternary,
  size,
}
use kedr_aux.Calc.Env.{Env}
use kedr_aux.Calc.Lex.{Token}
use kedr_aux.Calc.Run.{
  ParseData, Outcome, Run, Ensures, on_done, on_bug, pure, get_token, ◌>>=◌, ◌>>◌, Ensures-bind,
  Ensures-pure, bind-done,
}
use kedr_aux.Calc.Parse.{
  kfree, calc_essence_free, calc_essence_alloc, create, essence_1op_create, essence_2op_create,
  essence_3op_create, advance, next_token,
}
use kedr_aux.Calc.Tokens.{has_question, is_question, can_advance, lex-Lexed}
use kedr_aux.Calc.Sound.Spec.{WellFormed, asks, Made, Advanced}

module _ {A : Type 0} (env : Env A) (G O : Type 0) (kmalloc : ℕ → Bool) where
  -- what calc_essence_alloc leaves
  pub record Allocated (s : ParseData A) (b : Bool) (t : ParseData A) : Type 0 where
    pub text : t.text ≡ s.text
    pub token : t.token ≡ s.token
    pub live : t.live ≡ s.live + (if b then 1 else 0)

  pub alloc_Allocated : (s : ParseData A) → Ensures G O (Allocated s) (calc_essence_alloc kmalloc s)
  unfolding calc_essence_alloc
  alloc_Allocated s = elim (Bool-cases (kmalloc s.kmallocs)) [
    | inl h ↦ rw h (on_done (record { text = refl; token = refl; live = omega arith }))
    | inr h ↦ rw h (on_done (record { text = refl; token = refl; live = omega arith }))
  ]

  pub create-Made :
      (e : Essence A) (s : ParseData A)
      → WellFormed env e
      → Ensures G O (Made env G s (size e)) (create kmalloc e s)
  unfolding create
  create-Made e s w = Ensures-bind (calc_essence_alloc kmalloc) _ s (alloc_Allocated s) filled
    where
      filled :
          (b : Bool) (t : ParseData A)
          → Allocated s b t
          → Ensures G O (Made env G s (size e)) (pure (if b then some e else none) t)
      filled true t h =
          Ensures-pure (some e) t
            (record { text = h.text; token = h.token; live = h.live; sized = omega arith; wf = w })
      filled false t h =
          Ensures-pure none t
            (record { text = h.text; token = h.token; live = h.live; sized = omega arith; wf = tt })

  nothing_Made : (n : ℕ) (s : ParseData A) → Ensures G O (Made env G s n) (pure none s)
  unfolding pure
  nothing_Made n s =
      on_done
        (record { text = refl; token = refl; live = omega arith; sized = omega arith; wf = tt })

  pub essence_1op_create-Made :
      (t : EssenceType) (a : Essence A) (s : ParseData A)
      → WellFormed env a
      → Ensures G O (Made env G s (size a + 1)) (essence_1op_create kmalloc t a s)
  unfolding essence_1op_create
  essence_1op_create-Made t a s w = elim (Bool-cases (is_unary t)) [
    | inl h ↦ rw h (create-Made (op1 t a) s (h, w))
    | inr h ↦ rw h (nothing_Made (size a + 1) s)
  ]

  pub essence_2op_create-Made :
      (t : EssenceType) (a b : Essence A) (s : ParseData A)
      → WellFormed env a
      → WellFormed env b
      → Ensures G O (Made env G s (size a + size b + 1)) (essence_2op_create kmalloc t a b s)
  unfolding essence_2op_create
  essence_2op_create-Made t a b s v w = elim (Bool-cases (is_binary t)) [
    | inl h ↦ rw h (create-Made (op2 t a b) s (h, v, w))
    | inr h ↦ rw h (nothing_Made (size a + size b + 1) s)
  ]

  pub essence_3op_create-Made :
      (t : EssenceType) (a b c : Essence A) (s : ParseData A)
      → WellFormed env a
      → WellFormed env b
      → WellFormed env c
      → Ensures G O
          (Made env G s (size a + size b + size c + 1))
          (essence_3op_create kmalloc t a b c s)
  unfolding essence_3op_create
  essence_3op_create-Made t a b c s u v w = elim (Bool-cases (is_ternary t)) [
    | inl h ↦ rw h (create-Made (op3 t a b c) s (h, u, v, w))
    | inr h ↦ rw h (nothing_Made (size a + size b + size c + 1) s)
  ]

module _ {A : Type 0} (ops : CalcInt A) (env : Env A) (G O : Type 0) where
  next_token_on :
      (s : ParseData A) (k : Token A)
      → (can_advance k ≡ false → G)
      → Ensures G O
          (Advanced env G s)
          (elim k [ Token.error ↦ Outcome.bug | Token.eof ↦ Outcome.bug | _ ↦ advance ops env s ])
  next_token_on s Token.error g = on_bug (g refl)
  next_token_on s Token.eof g = on_bug (g refl)
  next_token_on s _ g =
      on_done (record { token = refl; live = refl; lexed = lex-Lexed ops env s.text })

  pub next_token-Advanced :
      (s : ParseData A)
      → (can_advance s.token ≡ false → G)
      → Ensures G O (Advanced env G s) (next_token ops env s)
  unfolding next_token
  next_token-Advanced s g = next_token_on s s.token g

module _ {A : Type 0} (env : Env A) where
  -- The state behind the release of `n` objects.
  abbrev pub released : ParseData A → ℕ → ParseData A
  released s n = record s { live = s.live - n }

  released-released :
      (s : ParseData A) (m n : ℕ)
      → Outcome.done tt (released (released s m) n) ≡ Outcome.done tt (released s (m + n))
  released-released s m n =
      let e : s.live - m - n ≡ s.live - (m + n) = omega arith in
      λ i. Outcome.done tt (record s { live = e i })

  -- A well formed tree is freed object by object, with no BUG().
  pub calc_essence_free-eq :
      (e : Essence A) (s : ParseData A)
      → WellFormed env e
      → calc_essence_free e s ≡ Outcome.done tt (released s (size e))
  unfolding calc_essence_free kfree
  calc_essence_free-eq (val v) s w = refl
  calc_essence_free-eq (var i) s w = refl
  calc_essence_free-eq (weak_var i) s w = refl
  calc_essence_free-eq (op1 t a) s w = rw w.0 (
      bind-done (calc_essence_free a) _ s (calc_essence_free-eq a s w.1)
      ∙ released-released s (size a) 1)
  calc_essence_free-eq (op2 t a b) s w = rw w.0 (
      bind-done (calc_essence_free a >> calc_essence_free b) _ s (
        bind-done (calc_essence_free a) _ s (calc_essence_free-eq a s w.1)
        ∙ calc_essence_free-eq b (released s (size a)) w.2
        ∙ released-released s (size a) (size b))
      ∙ released-released s (size a + size b) 1)
  calc_essence_free-eq (op3 t a b c) s w = rw w.0 (
      bind-done (calc_essence_free a >> calc_essence_free b >> calc_essence_free c) _ s (
        bind-done (calc_essence_free a) _ s (calc_essence_free-eq a s w.1)
        ∙ bind-done (calc_essence_free b) _ (released s (size a))
            (calc_essence_free-eq b (released s (size a)) w.2)
        ∙ calc_essence_free-eq c (released (released s (size a)) (size b)) w.3
        ∙ released-released (released s (size a)) (size b) (size c)
        ∙ released-released s (size a) (size b + size c)
        ∙ ap (λ n. Outcome.done tt (released s n)) (omega arith))
      ∙ released-released s (size a + size b + size c) 1)

module _ {A : Type 0} (env : Env A) {B : Type 0} {G O : Type 0} {Q : B → ParseData A → Type 0} where
  -- A tree is freed first.
  pub free_then :
      (e : Essence A) (w : WellFormed env e) (m : Run A B) (s : ParseData A)
      → Ensures G O Q (m (record s { live = s.live - size e }))
      → Ensures G O Q ((calc_essence_free e >> m) s)
  free_then e w m s h =
      subst (Ensures G O Q)
        (sym (bind-done (calc_essence_free e) (λ _. m) s (calc_essence_free-eq env e s w))) h

module _ {A B : Type 0} {G O : Type 0} {Q : B → ParseData A → Type 0} where
  pub get_then :
      (f : Token A → Run A B) (s : ParseData A)
      → Ensures G O Q (f s.token s)
      → Ensures G O Q ((get_token >>= f) s)
  unfolding get_token ◌>>=◌
  get_then f s h = h

-- A '?' ahead of the next token was ahead already.
pub asks-Advanced :
    {A : Type 0} {env : Env A} {G : Type 0} {s t : ParseData A} {k : Token A}
    → Advanced env G s k t
    → asks t ≡ true
    → asks s ≡ true
asks-Advanced {A} {s} {t} {k} h p = question h.token h.lexed.question p
  where
    question :
        t.token ≡ k
        → ((is_question k || has_question t.text) ≡ true → has_question s.text ≡ true)
        → asks t ≡ true
        → asks s ≡ true
    question e q p = ground (arith, e, q, p)
