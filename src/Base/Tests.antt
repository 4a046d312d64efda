-- ===== src/Base/Tests.antt =====
-- Concrete inputs: two payloads of module 7, one of module 8, and a controller of module 9.
use kedr_aux.Prelude.{
  ℕ, Bool, true, false, Option, none, some, List, [], ◌∷◌, ◌==◌, ◌≡◌, refl, arith, length,
  if◌then◌else◌,
}
use kedr_aux.Base.Table.{
  Payload, ReplTable, free_repl_table, write, zeros, copy_entries, copy_tables, total_addrs,
  create_repl_table,
}
use kedr_aux.Base.Registry.{
  Status, Call, bump, success, ebusy, efault, Controller, Base, base_init_module,
  kedr_payload_register, load_payloads, load_modules, after_table, kedr_impl_on_target_load,
  unload_payloads, kedr_impl_on_target_unload,
}
use kedr_aux.Base.Concat.{no_tables, and_table, create_repl_table-Tables}
use kedr_aux.Base.Invariant.{Distinct, Step, Reach, Reach-Distinct}
use kedr_aux.Base.Session.{
  Balanced, load-unload-Balanced, kedr_payload_register-kedr_impl_on_target_load,
}

abbrev payload : ℕ → ℕ → List ℕ → List ℕ → Payload
payload a m os rs = record {
  address = a;
  owner = m;
  repl_table = record { orig_addrs = some os; repl_addrs = some rs; num_addrs = length os };
  has_load_callback = true;
  has_unload_callback = false;
}

abbrev first_payload : Payload
first_payload = payload 100 7 (11 ∷ 12 ∷ []) (21 ∷ 22 ∷ [])

abbrev second_payload : Payload
second_payload = payload 200 8 (13 ∷ []) (23 ∷ [])

abbrev third_payload : Payload
third_payload = payload 300 7 [] []

abbrev controller : Controller
controller = record { address = 500; owner = 9 }

abbrev ready : Base
ready = record base_init_module {
  payload_modules = first_payload ∷ second_payload ∷ third_payload ∷ [];
  current_controller = some controller;
}

abbrev table : ReplTable
table = record {
  orig_addrs = some (11 ∷ 12 ∷ 13 ∷ []);
  repl_addrs = some (21 ∷ 22 ∷ 23 ∷ []);
  num_addrs = 3;
}

abbrev get_calls : Option (Status × Option ReplTable × Base) → Option (Option ReplTable × List Call)
get_calls none = none
get_calls (some (r, o, s)) = some (o, s.calls)

-- `ready` behind a load that fails at the second payload
abbrev failed : Base
failed = record ready {
  deny_payload_register = true;
  combined = table;
  gets = bump 7 (λ m. 0);
  calls = Call.loaded 100 ∷ [];
}

abbrev always : ℕ → Bool
always m = true

abbrev not_8 : ℕ → Bool
not_8 m = if m == 8 then false else true

create_repl_table-Tables_example :
    create_repl_table true true ready.payload_modules ≡ some (true, table)
create_repl_table-Tables_example =
    create_repl_table-Tables
      (and_table {p = first_payload} (11 ∷ 12 ∷ []) (21 ∷ 22 ∷ []) refl refl refl refl (
        and_table {p = second_payload} (13 ∷ []) (23 ∷ []) refl refl refl refl
          (and_table {p = third_payload} [] [] refl refl refl refl no_tables)))
      (omega arith)

Reach-Distinct_example :
    Distinct
      (kedr_payload_register true true first_payload
        (kedr_payload_register true true first_payload base_init_module).1).1.payload_modules
Reach-Distinct_example = Reach-Distinct (
    Reach.next (Reach.next Reach.here (Step.register true true first_payload base_init_module)) (
      Step.register true true first_payload
        (kedr_payload_register true true first_payload base_init_module).1))

-- what the two calls do to `ready`, with all that they call unfolded
load : (ℕ → Bool) → Option (Status × Option ReplTable × Base)
unfolding kedr_impl_on_target_load create_repl_table after_table load_modules load_payloads
    copy_tables copy_entries write zeros total_addrs free_repl_table
load get = kedr_impl_on_target_load true true true get ready

unload : Base → Option (Status × Base)
unfolding kedr_impl_on_target_unload unload_payloads
unload s = kedr_impl_on_target_unload true s

-- a load of `ready`, and the calls of the callbacks
load_calls :
    get_calls (load always)
    ≡ some (some table, (Call.loaded 300 ∷ Call.loaded 200 ∷ Call.loaded 100 ∷ []))
unfolding load
load_calls = refl

-- `ready` with its target loaded, and unloaded again
abbrev in_use : Base
in_use = record ready {
  deny_payload_register = true;
  combined = table;
  gets = bump 9 (bump 7 (bump 8 (bump 7 (λ m. 0))));
  calls = Call.loaded 300 ∷ Call.loaded 200 ∷ Call.loaded 100 ∷ [];
}

abbrev given_back : Base
given_back = record in_use {
  deny_payload_register = false;
  puts = bump 9 (bump 7 (bump 8 (bump 7 (λ m. 0))));
}

load-unload-Balanced_example : (success ≡ success) × Balanced always controller ready given_back
unfolding load unload
load-unload-Balanced_example =
    load-unload-Balanced true true true always ready in_use given_back controller (some table)
      success refl refl refl

-- the module 8 is about to go away: the reference on the module 7 stays, and so does the ban
kedr_payload_register-kedr_impl_on_target_load_example :
    kedr_payload_register true true (payload 400 7 [] []) failed ≡ (ebusy, failed)
unfolding load
kedr_payload_register-kedr_impl_on_target_load_example =
    kedr_payload_register-kedr_impl_on_target_load true true true not_8 ready failed efault none
      (payload 400 7 [] []) refl
