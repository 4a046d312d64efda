-- ===== src/Replacer/Tests.antt =====
-- A concrete replacement.
use native.Mathlib.Nat.{one-le-pow}
use kedr_aux.Prelude.{ℕ, zero, suc, true, some, List, [], ◌∷◌, ◌≡◌, refl, arith, get_elem?}
use kedr_aux.DataMap.Table.{DataMap, Elem, success, find}
use kedr_aux.DataMap.WellFormed.{WellFormed, InChain}
use kedr_aux.DataMap.Laws.{InRange, lookup, the_some}
use kedr_aux.Replacer.{
  at_place, orig_ops, ReplacerData, Replacer, returned, operation_replace, operation_restore,
}
use kedr_aux.Replacer.Restored.{Same, operation_restore-operation_replace}

abbrev one_chain : ℕ → ℕ → ℕ
one_chain k bits = 0

one_chain-InRange : InRange one_chain
one_chain-InRange k bits h = omega (arith, one-le-pow bits 2 (omega arith))

abbrev no_keys : DataMap
no_keys = record { hash_table = [] ∷ [] ∷ []; size_bits = 1 }

no_keys-placed :
    (i : ℕ) (c : List Elem) → get_elem? no_keys.hash_table i ≡ some c → InChain one_chain 1 i c
no_keys-placed zero c h = rw (← the_some h) tt
no_keys-placed (suc zero) c h = rw (← the_some h) tt
no_keys-placed (suc (suc i)) c h = cc

no_keys-WellFormed : WellFormed one_chain no_keys
no_keys-WellFormed = record { shifted = omega arith; sized = refl; placed = no_keys-placed }

-- the second of two operations is replaced
abbrev second_op : ReplacerData
second_op = record { ops_repl_total = 0 ∷ 99 ∷ []; ops_mask_total = 0 ∷ 1 ∷ [] }

abbrev replacer : Replacer
replacer = record {
  type = at_place;
  n_uses = 1;
  data_of = some second_op;
  data_map = no_keys;
  heap = λ a. orig_ops [];
  objects = record { pointer = λ a. 0; ops = λ a. 11 ∷ 12 ∷ [] };
}

operation_restore-operation_replace_example :
    (r' r'' : Replacer) × (operation_replace one_chain (some 70) true 5 replacer
      ≡ some (returned success, r'))
    × (operation_restore one_chain 5 r' ≡ some (returned success, r''))
    × Same 70 replacer.objects r''.objects
    × ((k : ℕ) → lookup r''.data_map k ≡ lookup replacer.data_map k)
unfolding find
operation_restore-operation_replace_example =
    operation_restore-operation_replace one_chain one_chain-InRange replacer 5 70 second_op
      no_keys-WellFormed refl (omega arith) refl (omega arith) (omega arith) (omega arith)
      (omega arith)
