-- ===== src/Calc/Tests.antt =====
-- Concrete inputs: kedr_calc_int_t as 64-bit words.
use Prim.Native.Nat.{bit_and, bit_xor, bit_or}
use native.Mathlib.Nat.{div-add-mod, add-mul-mod_self_left}
use kedr_aux.Prelude.{
  ℕ, ◌+◌, ◌-◌, ◌*◌, ◌/◌, ◌%◌, ◌^◌, ◌≤◌, Bool, true, not, Option, none, some, List, [], ◌∷◌, codes,
  String, ◌≡◌, refl, sym, ap, ◌∙◌, arith, ltb, ◌==◌, if◌then◌else◌,
}
use kedr_aux.Calc.Essence.{
  Essence, val, var, weak_var, op2, op3, EssenceType, CalcInt, is_unary, is_binary, is_ternary,
}
use kedr_aux.Calc.Env.{Env, search_const, is_substr_equal, search_names}
use kedr_aux.Calc.Eval.{calc_essence_evaluate, evaluate_2op}
use kedr_aux.Calc.Lex.{lex, parse_number10, parse_number16, name_run}
use kedr_aux.Calc.Run.{ParseData, Outcome, pure, crash, get_token, ◌>>=◌, out_of_fuel}
use kedr_aux.Calc.Parse.{
  Calc, binary_op, calc_essence_free, kfree, or_null, is_close, is_eof, calc_essence_alloc, create,
  essence_1op_create, essence_2op_create, essence_3op_create, next_token, leaf, unary_op,
  parenthesised, operand, two_operands, three_operands, abandon, two_operands_if, round, loop,
  parse_data_parse, kedr_calc_parse, kedr_calc_delete, initial,
}
use kedr_aux.Calc.Lex.{Token}
use kedr_aux.Calc.Print.{print, level, token_of}
use kedr_aux.Calc.Tokens.{Lexed, lex-Lexed}
use kedr_aux.Calc.Sound.Spec.{WellFormed}
use kedr_aux.Calc.Correct.{
  Parsed, calc_size, kedr_calc_parse_total, live-kedr_calc_parse, kedr_calc_parse-WellFormed,
  kedr_calc_delete-kedr_calc_parse,
}
use kedr_aux.Calc.RoundTrip.{kedr_calc_parse-print}
use kedr_aux.Calc.Traps.{Traps, evaluate-eq-none}
use kedr_aux.Calc.Names.{IsInt}
use kedr_aux.Calc.MissingColon.{missing_colon}

abbrev word : ℕ
word = 2 ^ 64

abbrev words : CalcInt ℕ
words = record {
  of_int = λ n. n % word;
  neg = λ a. (word - a) % word;
  bnot = λ a. word - 1 - a;
  add = λ a b. (a + b) % word;
  sub = λ a b. (a + word - b) % word;
  mul = λ a b. a * b % word;
  div = λ a b. if b == 0 then none else some (a / b);
  rem = λ a b. if b == 0 then none else some (a % b);
  shl = λ a b. a * 2 ^ b % word;
  shr = λ a b. a / 2 ^ b;
  band = bit_and;
  bxor = bit_xor;
  bor = bit_or;
  lt = ltb;
  eq = ◌==◌;
  truth = λ a. not (a == 0);
}

abbrev env : Env ℕ
env = record {
  const_vec = (record { name = codes "GFP"; value = 208 } ∷ []) ∷ [];
  var_names = codes "size" ∷ codes "flags" ∷ [];
  weak_vars = codes "times" ∷ [];
}

abbrev always : ℕ → Bool
always n = true

abbrev top_of : Outcome ℕ (Option (Calc ℕ)) → Option (Essence ℕ)
top_of (Outcome.done (some c) t) = some c.top_essence
top_of _ = none

abbrev live_of : Outcome ℕ (Option (Calc ℕ)) → Option ℕ
live_of (Outcome.done c t) = some t.live
live_of _ = none

-- kedr_calc_parse with all that it calls unfolded
run : (ℕ → Bool) → String → Outcome ℕ (Option (Calc ℕ))
unfolding kedr_calc_parse parse_data_parse loop round two_operands_if two_operands three_operands
    operand leaf unary_op parenthesised abandon next_token create essence_1op_create
    essence_2op_create essence_3op_create calc_essence_alloc calc_essence_free kfree or_null
    is_close is_eof binary_op is_unary is_binary is_ternary lex pure get_token ◌>>=◌ crash
    out_of_fuel parse_number10 parse_number16 search_const is_substr_equal name_run search_names
run kmalloc s = kedr_calc_parse words env kmalloc 40 (initial (codes s) 0 5)

parse_sum :
    top_of (run always "1 + size*2 - GFP")
    ≡ some (
        op2 EssenceType.minus
          (op2 EssenceType.plus (val 1) (op2 EssenceType.multiply (var 0) (val 2)))
          (val 208))
unfolding run
parse_sum = refl

-- '=' alone is the token of equality, and "==" is two of them.
equality :
    (top_of (run always "1 = 2") ≡ some (op2 EssenceType.equal (val 1) (val 2)))
    × (top_of (run always "1 == 2") ≡ none)
unfolding run
equality = (refl, refl)

-- A ')' in the place of the ':' is accepted, and an end of the text there is a BUG.
colons :
    (top_of (run always "1 ? 2 ) 3") ≡ some (op3 EssenceType.cond (val 1) (val 2) (val 3)))
    × (run always "1 ? 2" ≡ Outcome.bug)
unfolding run
colons = (refl, refl)

-- an error after several allocations: all is freed
all_freed : live_of (run always "(size + 0x1F) * flags ? 1 : ~2 )") ≡ some 5
unfolding run
all_freed = refl

values :
    calc_essence_evaluate words (7 ∷ 2 ∷ []) (9 ∷ []) (
      op2 EssenceType.minus
        (op2 EssenceType.plus (val 1) (op2 EssenceType.multiply (var 0) (weak_var 0)))
        (val 3))
    ≡ some 61
unfolding calc_essence_evaluate evaluate_2op
values = refl

-- the text of the examples, with what the lexer makes of it
abbrev sum_text : List ℕ
sum_text = codes "2*(size+1)"

abbrev sum_tree : Essence ℕ
sum_tree = op2 EssenceType.multiply (val 2) (op2 EssenceType.plus (var 0) (val 1))

abbrev sum_calc : Calc ℕ
sum_calc = record { top_essence = sum_tree; weak_vars = codes "times" ∷ [] }

abbrev sum_end : ParseData ℕ
sum_end = record { text = []; token = Token.eof; kmallocs = 6; live = 11 }

sum_parsed :
    kedr_calc_parse words env always 40 (initial sum_text 0 5)
    ≡ Outcome.done (some sum_calc) sum_end
unfolding run
sum_parsed = refl

kedr_calc_parse-print_example :
    (F : ℕ) × (t : ParseData ℕ) × ((f : ℕ)
      → F ≤ f
      → kedr_calc_parse words env always f (initial sum_text 0 5) ≡ Outcome.done (some sum_calc) t)
unfolding run print level token_of
kedr_calc_parse-print_example =
    kedr_calc_parse-print words env always (λ n. refl) sum_text sum_tree 0 5
      (refl, tt, (refl, omega arith, tt))
      (
        codes "*(size+1)",
        refl,
        (
          codes "(size+1)",
          refl,
          (
            codes "size+1)",
            refl,
            (codes "+1)", refl, (codes "1)", refl, (codes ")", refl, ([], refl, ([], refl, tt))))),
          ),
        ),
      )

kedr_calc_parse_total_example :
    (o : Option (Calc ℕ)) × (t : ParseData ℕ) × (kedr_calc_parse words env always 40
        (initial sum_text 0 5)
      ≡ Outcome.done o t)
    × Parsed env 5 o t
kedr_calc_parse_total_example =
    kedr_calc_parse_total words env always sum_text 40 0 5 (omega arith) refl

live-kedr_calc_parse_example : 11 ≡ 5 + calc_size (some sum_calc)
live-kedr_calc_parse_example =
    live-kedr_calc_parse words env always sum_text 40 0 5 (some sum_calc) sum_end sum_parsed

kedr_calc_parse-WellFormed_example : WellFormed env sum_tree
kedr_calc_parse-WellFormed_example =
    kedr_calc_parse-WellFormed words env always sum_text 40 0 5 sum_calc sum_end sum_parsed

kedr_calc_delete-kedr_calc_parse_example :
    kedr_calc_delete sum_calc sum_end ≡ Outcome.done tt (record sum_end { live = 5 })
kedr_calc_delete-kedr_calc_parse_example =
    kedr_calc_delete-kedr_calc_parse words env always sum_text 40 0 5 sum_calc sum_end sum_parsed

evaluate-eq-none_example :
    Traps words (7 ∷ 0 ∷ []) (9 ∷ []) (op2 EssenceType.divide (val 1) (var 1))
unfolding calc_essence_evaluate evaluate_2op is_binary
evaluate-eq-none_example =
    evaluate-eq-none words (7 ∷ 0 ∷ []) (9 ∷ []) env (op2 EssenceType.divide (val 1) (var 1)) refl
      refl (refl, tt, omega arith) refl

lex-Lexed_example : Lexed env (codes " size") (Token.variable 0) []
unfolding run
lex-Lexed_example = lex-Lexed words env (codes " size")

expand : (w q r m n : ℕ) → w * q + r ≡ m → m * n ≡ r * n + w * (q * n)
expand w q r m n h = rw (← h) (grind arith)

mul_mod_word : (m n : ℕ) → m % word * n % word ≡ m * n % word
mul_mod_word m n = sym (
    ap (λ x. x % word) (expand word (m / word) (m % word) m n (div-add-mod m word))
    ∙ add-mul-mod_self_left (m % word * n) word (m / word * n))

words-IsInt : IsInt words
words-IsInt = record {
  add_of_int = λ m n. omega arith;
  mul_of_int = λ m n.
      mul_mod_word m (n % word)
      ∙ ap (λ x. x % word) (mul_comm m (n % word))
      ∙ mul_mod_word n m
      ∙ ap (λ x. x % word) (mul_comm n m);
}
  where
    mul_comm : (m n : ℕ) → m * n ≡ n * m
    mul_comm m n = grind arith

-- the state at the '?' of "1 ? 2"
abbrev at_question : ParseData ℕ
at_question = record { text = codes " 2"; token = Token.cond_first; kmallocs = 2; live = 2 }

missing_colon_example :
    loop words env always (parse_data_parse words env always 5) 5 0 (val 1) at_question
    ≡ Outcome.bug
unfolding run
missing_colon_example =
    missing_colon words env always (λ n. refl) 4 4 0 (val 1) (val 2) at_question
      (record { text = []; token = Token.eof; kmallocs = 3; live = 3 }) refl refl refl refl
