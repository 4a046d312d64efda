-- ===== src/Calc/Precedence/Reads.antt =====
-- The induction: from a text whose tokens are those of a printed tree the parser builds that tree.
use kedr_aux.Prelude.{
  ℕ, zero, suc, ◌+◌, ◌*◌, ◌≤◌, Bool, true, false, Option, some, List, [], ◌∷◌, ◌++◌, ltb, ◌≡◌, refl,
  sym, ◌∙◌, ap, arith, append_assoc, Bool-cases, inl, inr, subst,
}
use mathlib.Core.Bool.{false≢true}
use kedr_aux.Calc.Essence.{
  Essence, val, var, weak_var, op1, op2, op3, EssenceType, CalcInt, is_unary, is_binary, is_ternary,
  size,
}
use kedr_aux.Calc.Env.{Env}
use kedr_aux.Calc.Lex.{Token, lex}
use kedr_aux.Calc.Run.{ParseData, Outcome}
use kedr_aux.Calc.Print.{level, token_of, print, Follow}
use kedr_aux.Calc.Tokens.{can_advance}
use kedr_aux.Calc.Sound.Spec.{WellFormed}
use kedr_aux.Calc.Precedence.Levels.{
  Stops, Follow-Stops, Follow-Stops_unary, Follow-mono, Follow-token_of, binary_op-token_of,
  level-pos, can_advance-token_of,
}
use kedr_aux.Calc.Precedence.Equations.{at_token, grown}
use kedr_aux.Calc.Precedence.Rules.{
  ParseTo, LoopTo, Leaf, is_val, is_var, is_weak_var, Leaf-rule, Unary, Unary_rule, minus, plus,
  logical_not, binary_not, parenthesised_rule, stop_rule, binary_rule, cond_rule,
}

-- the state behind a tree of `n` objects, at the token `k`
abbrev pub after : {A : Type 0} → ParseData A → ℕ → Token A → List ℕ → ParseData A
after s n k t = record { text = t; token = k; kmallocs = s.kmallocs + n; live = s.live + n }

grown-after :
    {A : Type 0} (s : ParseData A) (n : ℕ) (k : Token A) (t : List ℕ)
    → grown (after s n k t) ≡ after s (n + 1) k t
grown-after s n k t =
    let e : s.kmallocs + n + 1 ≡ s.kmallocs + (n + 1) = omega arith in
    let d : s.live + n + 1 ≡ s.live + (n + 1) = omega arith in
    λ i. record { text = t; token = k; kmallocs = e i; live = d i }

after-after :
    {A : Type 0} (s : ParseData A) (m n : ℕ) (k k' : Token A) (t t' : List ℕ)
    → after (after s m k t) n k' t' ≡ after s (m + n) k' t'
after-after s m n k k' t t' =
    let e : s.kmallocs + m + n ≡ s.kmallocs + (m + n) = omega arith in
    let d : s.live + m + n ≡ s.live + (m + n) = omega arith in
    λ i. record { text = t'; token = k'; kmallocs = e i; live = d i }

grown_twice :
    {A : Type 0} (s : ParseData A) (m n : ℕ) (k k' : Token A) (t t' : List ℕ)
    → grown (after (after s m k t) n k' t') ≡ after s (m + n + 1) k' t'
grown_twice s m n k k' t t' = ap grown (after-after s m n k k' t t') ∙ grown-after s (m + n) k' t'

not_below : (l p : ℕ) → p ≤ l → ltb l p ≡ false
not_below l p h = ground arith

below_false : (l n : ℕ) → ltb l n ≡ false → n ≤ l
below_false l n h = ground arith

module _ {A : Type 0} (ops : CalcInt A) (env : Env A) where
  -- the lexer reads these tokens from a text
  abbrev pub Ahead : List ℕ → List (Token A) → Type 0
  Ahead text [] = Unit
  Ahead text (k ∷ ts) = (t : List ℕ) × (lex ops env text ≡ (k, t)) × Ahead t ts

module _ {A : Type 0} (ops : CalcInt A) (env : Env A) (kmalloc : ℕ → Bool)
    (ok : (n : ℕ) → kmalloc n ≡ true) where
  -- With priority `p`, the parser reads the tokens `toks` as `e`, if what follows may follow an
  -- expression of level `n`, and its loop goes on from there.
  abbrev Reads : Essence A → ℕ → ℕ → List (Token A) → Type 0
  Reads e p n toks =
      (s : ParseData A) (k : Token A) (ts : List (Token A))
      → can_advance s.token ≡ true
      → Follow n k
      → Ahead ops env s.text (toks ++ (k ∷ ts))
      → (t : List ℕ) × Ahead ops env t ts
        × ((r : Outcome A (Option (Essence A)))
            → LoopTo ops env kmalloc ok p e (after s (size e) k t) r
            → ParseTo ops env kmalloc ok p s r)

  -- the same, where the loop stops behind the expression
  Reads-Stops :
      (e : Essence A) (p n : ℕ) (toks : List (Token A))
      → Reads e p n toks
      → (s : ParseData A) (k : Token A) (ts : List (Token A)) → can_advance s.token ≡ true
      → Follow n k
      → Stops p k
      → Ahead ops env s.text (toks ++ (k ∷ ts))
      → (t : List ℕ) × Ahead ops env t ts
        × ParseTo ops env kmalloc ok p s (Outcome.done (some e) (after s (size e) k t))
  Reads-Stops e p n toks h s k ts c f stop a =
      let (t, b, run) = h s k ts c f a in
      (
        t,
        b,
        run (Outcome.done (some e) (after s (size e) k t))
            (stop_rule ops env kmalloc ok p e (after s (size e) k t) stop),
      )

  Reads-Leaf :
      (e : Essence A) (p n : ℕ) (k : Token A)
      → size e ≡ 1
      → Leaf ops env kmalloc ok e k
      → Reads e p n (k ∷ [])
  Reads-Leaf e p n k one w s k' ts c f (t, l, (t', l', a)) = (
    t',
    a,
    λ r run.
        Leaf-rule ops env kmalloc ok p s k k' t t' e r w c l l'
          (subst (λ m. LoopTo ops env kmalloc ok p e (after s m k' t') r) one run),
  )

  Reads-Unary :
      (a : Essence A) (p q n : ℕ) (k : Token A) (ty : EssenceType)
      → 23 ≤ q
      → n ≤ 12
      → can_advance k ≡ true
      → Unary ops env kmalloc ok k ty q
      → Reads a q 12 (print 12 a)
      → Reads (op1 ty a) p n (k ∷ print 12 a)
  Reads-Unary a p q n k ty big small ck w ih s k' ts c f (t, l, rest) =
      let (t', b, run) =
        Reads-Stops a q 12 (print 12 a) ih (at_token s k t) k' ts ck (Follow-mono n 12 k' f small)
          (Follow-Stops_unary n q k' f big) rest in
      (
        t',
        b,
        λ r go. Unary_rule ops env kmalloc ok p q s (after s (size a) k' t') k t ty a r w c l run (
            subst (λ u. LoopTo ops env kmalloc ok p (op1 ty a) u r)
              (sym (grown-after s (size a) k' t')) go),
      )

  Reads-wrap :
      (e : Essence A) (p n : ℕ) (toks : List (Token A))
      → Reads e 0 0 toks
      → Reads e p n (Token.open_parenthesis ∷ (toks ++ (Token.close_parenthesis ∷ [])))
  Reads-wrap e p n toks h s k ts c f (t, l, rest) =
      let (t', (t'', l'', b), run) =
        Reads-Stops e 0 0 toks h (at_token s Token.open_parenthesis t) Token.close_parenthesis
          (k ∷ ts) refl tt tt
          (subst (Ahead ops env t) (append_assoc toks (Token.close_parenthesis ∷ []) (k ∷ ts))
            rest) in
      (
        t'',
        b,
        λ r go.
            parenthesised_rule ops env kmalloc ok p s (after s (size e) Token.close_parenthesis t')
              t k t'' e r c l run refl l'' go,
      )

  Reads-binary :
      (ty : EssenceType) (a b : Essence A) (p n : ℕ)
      → is_binary ty ≡ true
      → n ≤ level ty
      → p ≤ 2 * n + 1
      → Reads a p (level ty) (print (level ty) a)
      → Reads b (2 * level ty + 2) (level ty + 1) (print (level ty + 1) b)
      → Reads (op2 ty a b) p n (print (level ty) a ++ (token_of ty ∷ print (level ty + 1) b))
  Reads-binary ty a b p n h le fits ia ib s k ts c f ahead =
      let (t, rest, run) =
        ia s (token_of ty) (print (level ty + 1) b ++ (k ∷ ts)) c (Follow-token_of A ty h) (
          subst (Ahead ops env s.text)
            (append_assoc (print (level ty) a) (token_of ty ∷ print (level ty + 1) b) (k ∷ ts))
            ahead) in
      let (t', rest', second) =
        Reads-Stops b (2 * level ty + 2) (level ty + 1) (print (level ty + 1) b) ib
          (after s (size a) (token_of ty) t) k ts (can_advance-token_of A ty h)
          (Follow-mono n (level ty + 1) k f (omega arith))
          (Follow-Stops n (2 * level ty + 2) k f (inr (omega arith))) rest in
      let same = grown_twice s (size a) (size b) (token_of ty) k t t' in
      (
        t',
        rest',
        λ r go. run r (
            binary_rule ops env kmalloc ok p a b
              (record { type = ty; left = 2 * level ty + 1; right = 2 * level ty + 2 })
              (after s (size a) (token_of ty) t)
              (after (after s (size a) (token_of ty) t) (size b) k t') r (binary_op-token_of A ty h)
              (not_below (2 * level ty + 1) p (omega arith)) h second
              (subst (λ u. LoopTo ops env kmalloc ok p (op2 ty a b) u r) (sym same) go)),
      )

  Reads-cond :
      (a b c : Essence A) (p : ℕ)
      → p ≤ 1
      → Reads a p 1 (print 1 a)
      → Reads b 0 0 (print 0 b)
      → Reads c 1 0 (print 0 c)
      → Reads
          (op3 EssenceType.cond a b c)
          p
          0
          (print 1 a ++ (Token.cond_first ∷ (print 0 b ++ (Token.cond_second ∷ print 0 c))))
  Reads-cond a b c p fits ia ib ic s k ts ca f ahead =
      let (t, rest, run) =
        ia s Token.cond_first ((print 0 b ++ (Token.cond_second ∷ print 0 c)) ++ (k ∷ ts)) ca
          (omega arith)
          (subst (Ahead ops env s.text)
            (append_assoc (print 1 a)
              (Token.cond_first ∷ (print 0 b ++ (Token.cond_second ∷ print 0 c))) (k ∷ ts))
            ahead) in
      let (t', rest', second) =
        Reads-Stops b 0 0 (print 0 b) ib (after s (size a) Token.cond_first t) Token.cond_second
          (print 0 c ++ (k ∷ ts)) refl tt tt
          (subst (Ahead ops env t)
            (append_assoc (print 0 b) (Token.cond_second ∷ print 0 c) (k ∷ ts)) rest) in
      let (t'', rest'', third) =
        Reads-Stops c 1 0 (print 0 c) ic
          (after (after s (size a) Token.cond_first t) (size b) Token.cond_second t') k ts refl f
          (Follow-Stops 0 1 k f (inl refl)) rest' in
      let same =
        ap (λ u. grown (after u (size c) k t''))
          (after-after s (size a) (size b) Token.cond_first Token.cond_second t t')
        ∙ grown_twice s (size a + size b) (size c) Token.cond_second k t' t'' in
      (
        t'',
        rest'',
        λ r go. run r (
            cond_rule ops env kmalloc ok p a b c (after s (size a) Token.cond_first t)
              (after (after s (size a) Token.cond_first t) (size b) Token.cond_second t')
              (after (after (after s (size a) Token.cond_first t) (size b) Token.cond_second t')
                (size c) k t'')
              r refl (not_below 2 p (omega arith)) second third
              (subst (λ u. LoopTo ops env kmalloc ok p (op3 EssenceType.cond a b c) u r) (sym same)
                go)),
      )

  Reads-unary_op :
      (ty : EssenceType) (a : Essence A) (p n : ℕ)
      → is_unary ty ≡ true
      → n ≤ 12
      → ((q : ℕ) → q ≤ 24 → Reads a q 12 (print 12 a))
      → Reads (op1 ty a) p n (token_of ty ∷ print 12 a)
  unfolding is_unary token_of
  Reads-unary_op EssenceType.unary_minus a p n h le ih =
      Reads-Unary a p 23 n Token.minus EssenceType.unary_minus (omega arith) le refl minus
        (ih 23 (omega arith))
  Reads-unary_op EssenceType.unary_plus a p n h le ih =
      Reads-Unary a p 23 n Token.plus EssenceType.unary_plus (omega arith) le refl plus
        (ih 23 (omega arith))
  Reads-unary_op EssenceType.logical_not a p n h le ih =
      Reads-Unary a p 24 n Token.logical_not EssenceType.logical_not (omega arith) le refl
        logical_not (ih 24 (omega arith))
  Reads-unary_op EssenceType.binary_not a p n h le ih =
      Reads-Unary a p 24 n Token.binary_not EssenceType.binary_not (omega arith) le refl binary_not
        (ih 24 (omega arith))
  Reads-unary_op _ a p n h le ih = absurd (false≢true h)

  Reads-op3 :
      (ty : EssenceType) (a b c : Essence A) (p n : ℕ)
      → is_ternary ty ≡ true
      → p ≤ 2 * n + 1
      → ((q : ℕ)
          → q ≤ 1
          → Reads
              (op3 EssenceType.cond a b c)
              q
              0
              (print 1 a ++ (Token.cond_first ∷ (print 0 b ++ (Token.cond_second ∷ print 0 c)))))
      → Reads (op3 ty a b c) p n (print n (op3 ty a b c))
  unfolding print is_ternary
  Reads-op3 EssenceType.cond a b c p zero h fits ih = ih p (omega arith)
  Reads-op3 EssenceType.cond a b c p (suc n) h fits ih =
      let e : ltb 0 (suc n) ≡ true = ground arith in
      rw e (Reads-wrap (op3 EssenceType.cond a b c) p (suc n) _ (ih 0 (omega arith)))
  Reads-op3 _ a b c p n h fits ih = absurd (false≢true h)

  -- The parser reads what `print n` writes, with each priority that lets in what stands there
  -- without parentheses.
  pub Reads-print :
      (e : Essence A) (p n : ℕ)
      → WellFormed env e
      → n ≤ 12
      → p ≤ 2 * n + 1
      → Reads e p n (print n e)
  unfolding print
  Reads-print (val v) p n w le fits = Reads-Leaf (val v) p n (Token.value v) refl (is_val v)
  Reads-print (var i) p n w le fits = Reads-Leaf (var i) p n (Token.variable i) refl (is_var i)
  Reads-print (weak_var i) p n w le fits =
      Reads-Leaf (weak_var i) p n (Token.weak_variable i) refl (is_weak_var i)
  Reads-print (op1 ty a) p n w le fits =
      Reads-unary_op ty a p n w.0 le (λ q h. Reads-print a q 12 w.1 (omega arith) (omega arith))
  Reads-print (op2 ty a b) p n w le fits =
      let bounds = level-pos ty w.0 in
      let second =
        Reads-print b (2 * level ty + 2) (level ty + 1) w.2 (omega arith) (omega arith) in
      let first =
        λ (q : ℕ) (h : q ≤ 2 * level ty + 1). Reads-print a q (level ty) w.1 (omega arith) h in
      elim (Bool-cases (ltb (level ty) n)) [
        | inl h ↦ rw h (
            Reads-wrap (op2 ty a b) p n _ (
              Reads-binary ty a b 0 0 w.0 (omega arith) (omega arith) (first 0 (omega arith))
                second))
        | inr h ↦ rw h (
            Reads-binary ty a b p n w.0 (below_false (level ty) n h) fits
              (first p (omega (arith, below_false (level ty) n h))) second)
      ]
  Reads-print (op3 ty a b c) p n w le fits = Reads-op3 ty a b c p n w.0 fits (λ q h.
      Reads-cond a b c q h (Reads-print a q 1 w.1 (omega arith) (omega arith))
        (Reads-print b 0 0 w.2 (omega arith) (omega arith))
        (Reads-print c 1 0 w.3 (omega arith) (omega arith)))
