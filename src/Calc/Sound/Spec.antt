-- ===== src/Calc/Sound/Spec.antt =====
-- What the functions of the parser are to keep.
use kedr_aux.Prelude.{
  ℕ, ◌+◌, ◌*◌, ◌≤◌, ◌<◌, Bool, true, false, ◌||◌, Option, none, some, length, ◌≡◌,
}
use kedr_aux.Calc.Essence.{
  Essence, val, var, weak_var, op1, op2, op3, is_unary, is_binary, is_ternary, size,
}
use kedr_aux.Calc.Env.{Env}
use kedr_aux.Calc.Lex.{Token}
use kedr_aux.Calc.Run.{ParseData, Run, Ensures}
use kedr_aux.Calc.Parse.{Round, return, again}
use kedr_aux.Calc.Tokens.{has_question, is_question, can_advance, Lexed}

module _ {A : Type 0} where
  -- The type of each node has as many operands as the node, and each index is in range.
  abbrev pub WellFormed : Env A → Essence A → Type 0
  WellFormed env (val v) = Unit
  WellFormed env (var i) = i < length env.var_names
  WellFormed env (weak_var i) = i < length env.weak_vars
  WellFormed env (op1 t a) = (is_unary t ≡ true) × WellFormed env a
  WellFormed env (op2 t a b) = (is_binary t ≡ true) × WellFormed env a × WellFormed env b
  WellFormed env (op3 t a b c) =
      (is_ternary t ≡ true) × WellFormed env a × WellFormed env b × WellFormed env c

  -- the same of a pointer to a tree, which may be NULL
  abbrev pub WellFormed? : Env A → Option (Essence A) → Type 0
  WellFormed? env none = Unit
  WellFormed? env (some e) = WellFormed env e

  abbrev pub size? : Option (Essence A) → ℕ
  size? none = 0
  size? (some e) = size e

  -- 1 if there is a tree
  abbrev pub count : Option (Essence A) → ℕ
  count none = 0
  count (some e) = 1

  -- whether the parser has met a '?' that it has not passed, or will meet one
  abbrev pub asks : ParseData A → Bool
  asks s = is_question s.token || has_question s.text

  abbrev pub is_error : Token A → Bool
  is_error Token.error = true
  is_error _ = false

module _ {A : Type 0} (env : Env A) (G : Type 0) where
  -- What holds of a result and the state behind it: `L` objects beside the tree are allocated, the
  -- text is at most `N` long and shorter if there is a tree, and a '?' ahead gives `G`.
  pub record Post (N L : ℕ) (o : Option (Essence A)) (t : ParseData A) : Type 0 where
    pub held : t.live ≡ L + size? o
    pub shorter : length t.text + count o ≤ N
    pub wf : WellFormed? env o
    pub ahead : asks t ≡ true → G
    pub no_error : count o ≡ 1 → is_error t.token ≡ false

  -- the same of a tree that the parser holds, before the loop has looked at the token
  pub record Held (N L : ℕ) (e : Essence A) (t : ParseData A) : Type 0 where
    pub held : t.live ≡ L + size e
    pub shorter : length t.text + 1 ≤ N
    pub wf : WellFormed env e
    pub ahead : asks t ≡ true → G

  -- what the first switch of parse_data_parse leaves
  abbrev pub Operand : ℕ → ℕ → Option (Essence A) → ParseData A → Type 0
  Operand N L none t = Post N L none t
  Operand N L (some e) t = Held N L e t

  -- What a round of the loop leaves; a tree to go on with comes with less than `M` text.
  abbrev pub Rounded : ℕ → ℕ → ℕ → Round A → ParseData A → Type 0
  Rounded N M L (return o) t = Post N L o t
  Rounded N M L (again e) t = Held M L e t

  -- What the creation of a node of a tree of `n` objects leaves, from the state `s`.
  pub record Made (s : ParseData A) (n : ℕ) (o : Option (Essence A)) (t : ParseData A)
      : Type 0 where
    pub text : t.text ≡ s.text
    pub token : t.token ≡ s.token
    pub live : t.live ≡ s.live + count o
    pub sized : size? o ≡ count o * n
    pub wf : WellFormed? env o

  -- what parse_data_next_token leaves, from the state `s`
  pub record Advanced (s : ParseData A) (k : Token A) (t : ParseData A) : Type 0 where
    pub token : t.token ≡ k
    pub live : t.live ≡ s.live
    pub lexed : Lexed env s.text k t.text

  -- What parse_data_parse is to keep, with fuel `f`.
  abbrev pub Parses : ℕ → (ℕ → Run A (Option (Essence A))) → Type 0
  Parses f parse =
      (priority : ℕ) (s : ParseData A)
      → (can_advance s.token ≡ false → G)
      → (asks s ≡ true → G)
      → Ensures G (f ≤ length s.text) (Post (length s.text) s.live) (parse priority s)
