-- ===== src/Calc/Lex.antt =====
-- The tokens of an expression: parse_data_next_token and the functions that it calls. The text is
-- what remains of it from `current_pos` on.
use kedr_aux.Prelude.{
  ℕ, zero, suc, ◌+◌, ◌-◌, Bool, ◌&&◌, ◌||◌, Option, none, some, List, [], ◌∷◌, peek, drop, ◌==◌,
  leb, if◌then◌else◌,
}
use kedr_aux.Calc.Essence.{CalcInt}
use kedr_aux.Calc.Env.{Env, search_const, search_names}

-- enum token_type, with the value or index that struct parse_data keeps beside it
pub data Token (A : Type 0) : Type 0 where
  error start eof : Token A
  value constant : A → Token A
  variable weak_variable : ℕ → Token A
  open_parenthesis close_parenthesis : Token A
  logical_not binary_not : Token A
  multiply divide rest plus minus left_shift right_shift : Token A
  less greater less_equal greater_equal equal inequal : Token A
  binary_and binary_xor binary_or logical_and logical_or : Token A
  cond_first cond_second : Token A

-- The classes of linux/ctype.h, for ASCII.
abbrev pub isspace : ℕ → Bool
isspace c = (leb 9 c && leb c 13) || (c == b' ')

abbrev pub isdigit : ℕ → Bool
isdigit c = leb b'0' c && leb c b'9'

abbrev pub islower : ℕ → Bool
islower c = leb b'a' c && leb c b'z'

abbrev pub isalpha : ℕ → Bool
isalpha c = islower c || (leb b'A' c && leb c b'Z')

abbrev pub isalnum : ℕ → Bool
isalnum c = isalpha c || isdigit c

abbrev pub isxdigit : ℕ → Bool
isxdigit c = isdigit c || ((leb b'a' c && leb c b'f') || (leb b'A' c && leb c b'F'))

-- while(isspace(data->expr[data->current_pos])) data->current_pos++
unfoldable pub skip_spaces : List ℕ → List ℕ
skip_spaces [] = []
skip_spaces (c ∷ cs) = if isspace c then skip_spaces cs else c ∷ cs

abbrev pub is_name_char : ℕ → Bool
is_name_char c = isalnum c || (c == b'_')

-- how far the loop over `name_len` goes
unfoldable pub name_run : List ℕ → ℕ
name_run [] = 0
name_run (c ∷ cs) = if is_name_char c then name_run cs + 1 else 0

module _ {A : Type 0} (ops : CalcInt A) where
  open ops use {of_int, add, mul}

  -- the loop of parse_number10: the value, and the text at `number_end`
  unfoldable pub number10_from : A → List ℕ → A × List ℕ
  number10_from acc [] = (acc, [])
  number10_from acc (c ∷ cs) =
      if isdigit c
      then number10_from (add (mul acc (of_int 10)) (of_int (c - b'0'))) cs
      else (acc, c ∷ cs)

  unfoldable pub parse_number10 : List ℕ → Option (A × List ℕ)
  unfolding number10_from
  parse_number10 [] = none
  parse_number10 (c ∷ cs) = if isdigit c then some (number10_from (of_int (c - b'0')) cs) else none

  -- HDIGIT_TO_VALUE
  abbrev pub hdigit_to_value : ℕ → ℕ
  hdigit_to_value c = if isdigit c then c - b'0' else c - (if islower c then b'a' else b'A') + 10

  unfoldable pub number16_from : A → List ℕ → A × List ℕ
  number16_from acc [] = (acc, [])
  number16_from acc (c ∷ cs) =
      if isxdigit c
      then number16_from (add (mul acc (of_int 16)) (of_int (hdigit_to_value c))) cs
      else (acc, c ∷ cs)

  unfoldable pub parse_number16 : List ℕ → Option (A × List ℕ)
  unfolding number16_from
  parse_number16 [] = none
  parse_number16 (c ∷ cs) =
      if isxdigit c then some (number16_from (of_int (hdigit_to_value c)) cs) else none

module _ {A : Type 0} where
  -- the branch for a name, with `len` its length
  unfoldable pub name_token : Env A → List ℕ → ℕ → Token A
  name_token env text len = elim (search_const text len env.const_vec) [
    | some v ↦ Token.constant v
    | none ↦ elim (search_names text len 0 env.var_names) [
      | some i ↦ Token.variable i
      | none ↦ elim (search_names text len 0 env.weak_vars) [
        | some i ↦ Token.weak_variable i
        | none ↦ Token.error
      ]
    ]
  ]

  -- the branch for a number: on an error `current_pos` stays at its first digit
  unfoldable pub number_token : List ℕ → Option (A × List ℕ) → Token A × List ℕ
  number_token text none = (Token.error, text)
  number_token text (some (v, end)) = (Token.value v, end)

  -- RESOLVE_TOKEN2, with the text behind the first symbol
  unfoldable pub resolve_token2 : ℕ → Token A → Token A → List ℕ → Token A × List ℕ
  resolve_token2 symbol t0 t1 cs = if peek cs == symbol then (t1, drop 1 cs) else (t0, cs)

  -- RESOLVE_TOKEN3
  unfoldable pub resolve_token3 : ℕ → ℕ → Token A → Token A → Token A → List ℕ → Token A × List ℕ
  resolve_token3 a b t0 ta tb cs =
      if peek cs == a then (ta, drop 1 cs) else if peek cs == b then (tb, drop 1 cs) else (t0, cs)

  -- the switch on the first character `ch`, with the text behind it
  unfoldable pub symbol_token : ℕ → List ℕ → Token A × List ℕ
  unfolding resolve_token2 resolve_token3
  symbol_token ch cs =
      if ch == b'('
      then (Token.open_parenthesis, cs)
      else if ch == b')'
      then (Token.close_parenthesis, cs)
      else if ch == b'~'
      then (Token.binary_not, cs)
      else if ch == b'*'
      then (Token.multiply, cs)
      else if ch == b'/'
      then (Token.divide, cs)
      else if ch == b'%'
      then (Token.rest, cs)
      else if ch == b'+'
      then (Token.plus, cs)
      else if ch == b'-'
      then (Token.minus, cs)
      else if ch == b'^'
      then (Token.binary_xor, cs)
      else if ch == b'?'
      then (Token.cond_first, cs)
      else if ch == b':'
      then (Token.cond_second, cs)
      else if ch == b'='
      then (Token.equal, cs)
      else if ch == b'!'
      then resolve_token2 b'=' Token.logical_not Token.inequal cs
      else if ch == b'|'
      then resolve_token2 b'|' Token.binary_or Token.logical_or cs
      else if ch == b'&'
      then resolve_token2 b'&' Token.binary_and Token.logical_and cs
      else if ch == b'>'
      then resolve_token3 b'>' b'=' Token.greater Token.right_shift Token.greater_equal cs
      else if ch == b'<'
      then resolve_token3 b'<' b'=' Token.less Token.left_shift Token.less_equal cs
      else (Token.error, ch ∷ cs)

module _ {A : Type 0} (ops : CalcInt A) (env : Env A) where
  -- parse_data_next_token behind the spaces, on a text that is not at its end
  unfoldable pub char_token : ℕ → List ℕ → Token A × List ℕ
  unfolding name_token number_token symbol_token
  char_token ch cs =
      if isalpha ch || (ch == b'_')
      then (let len = name_run cs + 1 in (name_token env (ch ∷ cs) len, drop len (ch ∷ cs)))
      else if isdigit ch
      then (if (ch == b'0') && ((peek cs == b'x') || (peek cs == b'X'))
          then number_token (ch ∷ cs) (parse_number16 ops (drop 1 cs))
          else number_token (ch ∷ cs) (parse_number10 ops (ch ∷ cs)))
      else symbol_token ch cs

  -- the token at a text, behind its spaces, and the text that follows it
  unfoldable pub lex_here : List ℕ → Token A × List ℕ
  unfolding char_token
  lex_here [] = (Token.eof, [])
  lex_here (zero ∷ cs) = (Token.eof, zero ∷ cs)
  lex_here (suc c ∷ cs) = char_token (suc c) cs

  unfoldable pub lex : List ℕ → Token A × List ℕ
  unfolding lex_here skip_spaces
  lex text = lex_here (skip_spaces text)
