-- ===== src/Calc/Env.antt =====
-- What kedr_calc_parse is given beside the text, and the search for a name in it.
use kedr_aux.Prelude.{
  ℕ, zero, suc, ◌+◌, Bool, true, ◌&&◌, ◌||◌, Option, none, some, List, [], ◌∷◌, peek, drop, ◌==◌,
  if◌then◌else◌,
}

-- struct kedr_calc_const
pub record Const (A : Type 0) : Type 0 where
  pub name : List ℕ
  pub value : A

-- The parameters of kedr_calc_parse that struct parse_data keeps a copy of. A weak variable is its
-- name: its function `compute` is called by the evaluator only.
pub record Env (A : Type 0) : Type 0 where
  pub const_vec : List (List (Const A))
  pub var_names : List (List ℕ)
  pub weak_vars : List (List ℕ)

-- strncmp(str, orig, len) == 0
unfoldable pub strncmp_eq : List ℕ → List ℕ → ℕ → Bool
strncmp_eq s t zero = true
strncmp_eq [] [] (suc n) = true
strncmp_eq [] (d ∷ t) (suc n) = d == 0
strncmp_eq (c ∷ s) [] (suc n) = c == 0
strncmp_eq (c ∷ s) (d ∷ t) (suc n) = (c == d) && ((c == 0) || strncmp_eq s t n)

unfoldable pub is_substr_equal : List ℕ → ℕ → List ℕ → Bool
unfolding strncmp_eq
is_substr_equal str len orig = strncmp_eq str orig len && (peek (drop len orig) == 0)

module _ {A : Type 0} (name : List ℕ) (len : ℕ) where
  -- the inner loop of parse_data_search_const
  unfoldable pub search_elems : List (Const A) → Option A
  search_elems [] = none
  search_elems (c ∷ cs) = if is_substr_equal name len c.name then some c.value else search_elems cs

  unfoldable pub search_const : List (List (Const A)) → Option A
  unfolding search_elems
  search_const [] = none
  search_const (v ∷ vs) =
      let outer = search_const vs in elim (search_elems v) [ some a ↦ some a | none ↦ outer ]

-- The loops of parse_data_search_variable and parse_data_search_weak_variable, from `var_index` on.
unfoldable pub search_names : List ℕ → ℕ → ℕ → List (List ℕ) → Option ℕ
search_names name len i [] = none
search_names name len i (v ∷ vs) =
    if is_substr_equal name len v then some i else search_names name len (i + 1) vs
