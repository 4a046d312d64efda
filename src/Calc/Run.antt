-- ===== src/Calc/Run.antt =====
-- The state of a parse, its outcomes, and the rules to reason about them.
use kedr_aux.Prelude.{ℕ, List, ◌≡◌, refl, ap, subst₂}
use kedr_aux.Calc.Lex.{Token}

-- struct parse_data: the text from `current_pos` on and the current token. `kmallocs` counts the
-- calls of kmalloc made so far, and `live` the allocated objects that are not freed.
pub record ParseData (A : Type 0) : Type 0 where
  pub text : List ℕ
  pub token : Token A
  pub kmallocs : ℕ
  pub live : ℕ

-- `bug` is a BUG_ON that holds, and `out` says that the model's fuel ran out.
pub data Outcome (A B : Type 0) : Type 0 where
  done : B → ParseData A → Outcome A B
  bug : Outcome A B
  out : Outcome A B

abbrev pub Run : Type 0 → Type 0 → Type 0
Run A B = ParseData A → Outcome A B

module _ {A : Type 0} where
  unfoldable pub pure : {B : Type 0} → B → Run A B
  pure b s = Outcome.done b s

  -- BUG()
  unfoldable pub crash : {B : Type 0} → Run A B
  crash s = Outcome.bug

  unfoldable pub out_of_fuel : {B : Type 0} → Run A B
  out_of_fuel s = Outcome.out

  unfoldable pub get_token : Run A (Token A)
  get_token s = Outcome.done s.token s

  infixr 5 ◌>>=◌ ◌>>◌
  unfoldable pub ◌>>=◌ : {B C : Type 0} → Run A B → (B → Run A C) → Run A C
  ◌>>=◌ m f s = elim (m s) [
    | Outcome.done b t ↦ f b t
    | Outcome.bug ↦ Outcome.bug
    | Outcome.out ↦ Outcome.out
  ]

  abbrev pub ◌>>◌ : {B C : Type 0} → Run A B → Run A C → Run A C
  m >> n = m >>= λ _. n

module _ {A : Type 0} where
  -- the outcome of a chain whose first part is done
  pub bind-done :
      {B C : Type 0} (m : Run A B) (f : B → Run A C) (s : ParseData A) {b : B} {t : ParseData A}
      → m s ≡ Outcome.done b t
      → (m >>= f) s ≡ f b t
  unfolding ◌>>=◌
  bind-done m f s e = rw (e, ◌>>=◌)

-- What an outcome may be: a result with `Q`, a BUG only with `G`, an end of the fuel only with `O`.
pub data Ensures {A B : Type 0} (G O : Type 0) (Q : B → ParseData A → Type 0)
    : Outcome A B → Type 0 where
  on_done : {b : B} {t : ParseData A} → Q b t → Ensures G O Q (Outcome.done b t)
  on_bug : G → Ensures G O Q Outcome.bug
  on_out : O → Ensures G O Q Outcome.out

module _ {A : Type 0} {G O : Type 0} where
  pub Ensures-weaken :
      {B : Type 0} {Q R : B → ParseData A → Type 0} {G' O' : Type 0} {o : Outcome A B}
      → Ensures G O Q o
      → (G → G')
      → (O → O')
      → ((b : B) (t : ParseData A) → Q b t → R b t)
      → Ensures G' O' R o
  Ensures-weaken (on_done {b = b} {t = t} q) g o k = on_done (k b t q)
  Ensures-weaken (on_bug h) g o k = on_bug (g h)
  Ensures-weaken (on_out h) g o k = on_out (o h)

  Ensures-continue :
      {B C : Type 0} (Q : B → ParseData A → Type 0) (R : C → ParseData A → Type 0) (f : B → Run A C)
      (o : Outcome A B)
      → Ensures G O Q o
      → ((b : B) (t : ParseData A) → Q b t → Ensures G O R (f b t))
      → Ensures G O R (elim o [
        | Outcome.done b t ↦ f b t
        | Outcome.bug ↦ Outcome.bug
        | Outcome.out ↦ Outcome.out
      ])
  Ensures-continue Q R f _ (on_done {b = b} {t = t} q) k = k b t q
  Ensures-continue Q R f _ (on_bug h) k = on_bug h
  Ensures-continue Q R f _ (on_out h) k = on_out h

  pub Ensures-bind :
      {B C : Type 0} {Q : B → ParseData A → Type 0} {R : C → ParseData A → Type 0} (m : Run A B)
      (f : B → Run A C) (s : ParseData A)
      → Ensures G O Q (m s)
      → ((b : B) (t : ParseData A) → Q b t → Ensures G O R (f b t))
      → Ensures G O R ((m >>= f) s)
  unfolding ◌>>=◌
  Ensures-bind {Q = Q} {R = R} m f s h k = Ensures-continue Q R f (m s) h k

  pub Ensures-pure :
      {B : Type 0} {Q : B → ParseData A → Type 0} (b : B) (s : ParseData A)
      → Q b s
      → Ensures G O Q (pure b s)
  unfolding pure
  Ensures-pure b s q = on_done q

module _ {A : Type 0} where
  abbrev result_or : {B : Type 0} → B → Outcome A B → B
  result_or d (Outcome.done b t) = b
  result_or d _ = d

  abbrev state_or : {B : Type 0} → ParseData A → Outcome A B → ParseData A
  state_or d (Outcome.done b t) = t
  state_or d _ = d

module _ {A B : Type 0} {G O : Type 0} {Q : B → ParseData A → Type 0} where
  -- What Ensures says of an outcome that is known.
  pub Ensures-done :
      {o : Outcome A B} {b : B} {t : ParseData A} → Ensures G O Q o → o ≡ Outcome.done b t → Q b t
  Ensures-done {b = b} {t = t} (on_done {b = b'} {t = t'} q) e =
      subst₂ Q (ap (result_or b) e) (ap (state_or t) e) q
  Ensures-done (on_bug h) e = cc
  Ensures-done (on_out h) e = cc

  pub Ensures-bug : {o : Outcome A B} → Ensures G O Q o → o ≡ Outcome.bug → G
  Ensures-bug (on_done q) e = cc
  Ensures-bug (on_bug h) e = h
  Ensures-bug (on_out h) e = cc

  pub Ensures-out : {o : Outcome A B} → Ensures G O Q o → o ≡ Outcome.out → O
  Ensures-out (on_done q) e = cc
  Ensures-out (on_bug h) e = cc
  Ensures-out (on_out h) e = h

  -- An outcome that is neither a BUG nor the end of the fuel is a result.
  pub Ensures-total :
      {o : Outcome A B}
      → Ensures G O Q o
      → (G → ⊥)
      → (O → ⊥)
      → (b : B) × (t : ParseData A) × (o ≡ Outcome.done b t) × Q b t
  Ensures-total (on_done {b = b} {t = t} q) g o = (b, t, refl, q)
  Ensures-total (on_bug h) g o = absurd (g h)
  Ensures-total (on_out h) g o = absurd (o h)
