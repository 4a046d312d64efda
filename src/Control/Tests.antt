-- ===== src/Control/Tests.antt =====
-- Concrete code, payloads and calls.
use kedr_aux.Prelude.{
  ℕ, zero, suc, ◌+◌, ◌≤◌, ◌<◌, Bool, true, false, some, List, [], ◌∷◌, ◌≡◌, ◌⊎◌, ◌↔◌, refl, ap,
  arith, ◌==◌, get_elem?, if◌then◌else◌, inl,
}
use kedr_aux.Base.Table.{ReplTable, create_repl_table, copy_tables, zeros, total_addrs}
use kedr_aux.Base.Registry.{
  success, Controller, base_init_module, kedr_impl_on_target_load, kedr_impl_controller_register,
  after_table, load_modules, load_payloads, kedr_impl_on_target_unload, unload_payloads,
}
use kedr_aux.Base.Session.{Balanced}
use kedr_aux.Control.{
  Memory, Insn, Result, bug, unfinished, done, Module, write_u32, call_offset_from_addr,
  do_process_insn, do_process_area, replace_calls_in_module,
}
use kedr_aux.Control.Targets.{Processed, do_process_insn-Processed}
use kedr_aux.Control.Area.{CallsFit, do_process_area-Untouched}
use kedr_aux.Control.Offsets.{Near}
use kedr_aux.Control.Sites.{Local, Visited, InOffset, Redirected}
use kedr_aux.Control.Redirects.{do_process_area-Redirected}
use kedr_aux.Control.Detector.{
  Detector, Kernel, coming, going, filter_module, detector_notifier_call, Payloads, InitKernel,
  new_detector, init_payloads, controller_init_module,
}
use kedr_aux.Control.Session.{Idle, detector_notifier_call-Balanced}
use kedr_aux.Control.Startup.{
  Initialized, LeftLocked, controller_init_module-Initialized, controller_init_module-module_mutex,
}

-- a decoder that knows calls, and takes each other byte for an instruction
abbrev call_insn : Insn
call_insn = record { insn_length = 5; opcode = 232; immediate_nbytes = 4; offset_immediate = 1 }

abbrev byte_insn : ℕ → Insn
byte_insn b = record { insn_length = 1; opcode = b; immediate_nbytes = 0; offset_immediate = 0 }

decode_byte : ℕ → Insn
decode_byte b = if b == 232 then call_insn else byte_insn b

decode : Memory → ℕ → Insn
unfolding decode_byte
decode mem a = decode_byte (mem a)

decode-CallsFit : CallsFit decode 5
unfolding decode
decode-CallsFit = record {
  offset_inside = λ mem a o b. ground (arith, o, b);
  at_most = λ mem a o. ground (arith, o);
}

decode-Local : Local decode
unfolding decode
decode-Local = record {
  opcode_first = λ mem a o b. ground (arith, o, b);
  same_insn = λ mem mem' a l h. ap decode_byte (h a (omega arith) (ground (arith, l)));
  same_call = λ mem mem' a l o b h.
      ap decode_byte (h a (omega arith) (ground (arith, l)) (inl (ground (arith, o, b))));
}

-- a call of the function at 121, and zero bytes
abbrev code : Memory
code x = if x == 100 then 232 else if x == 101 then 16 else 0

abbrev functions : List ℕ
functions = 121 ∷ []

abbrev replacements : List ℕ
replacements = 200 ∷ []

do_process_insn-Processed_example :
    Processed code 100
      (decode code 100)
      1
      functions
      replacements
      (do_process_insn decode code 100 (some functions) (some replacements) 1)
do_process_insn-Processed_example =
    do_process_insn-Processed decode code 100 1 functions replacements (omega arith) (omega arith)
      ((λ e. omega (arith, e)), tt)

do_process_area-Untouched_example :
    (mem' : Memory) × (do_process_area decode (some functions) (some replacements) 1 code 100 110
      ≡ done mem')
    × ((x : ℕ) → (x < 100) ⊎ (110 + 5 ≤ x + 5) → mem' x ≡ code x)
do_process_area-Untouched_example =
    do_process_area-Untouched decode 5 decode-CallsFit functions replacements 1 (omega arith)
      (omega arith) ((λ e. omega (arith, e)), tt) code 100 110 (omega arith) (omega arith)

abbrev code' : Memory
unfolding write_u32 call_offset_from_addr
code' = write_u32 code 101 (call_offset_from_addr 100 5 200)

replaced_code :
    do_process_area decode (some functions) (some replacements) 1 code 100 110 ≡ done code'
unfolding do_process_area decode
replaced_code = refl

is_replacement : (i t : ℕ) → get_elem? replacements i ≡ some t → t ≡ 200
is_replacement zero t e = cc
is_replacement (suc i) t e = cc

replacements-Near :
    (a l i t : ℕ) → 100 ≤ a → a < 110 → l ≤ 5 → get_elem? replacements i ≡ some t → Near a l t
replacements-Near a l i t h k m e =
    (omega (arith, is_replacement i t e), inl (omega (arith, is_replacement i t e, h, k, m)))

do_process_area-Redirected_example :
    ((s : ℕ)
      → Visited decode 110 code' 100 s
      → s + 4 < 110
      → Redirected decode functions replacements 1 code code' s (decode code s))
    × ((x : ℕ) → (code' x ≡ code x) ⊎ InOffset decode 110 code' 100 x)
do_process_area-Redirected_example =
    do_process_area-Redirected decode 5 decode-CallsFit decode-Local functions replacements 1
      (omega arith) (omega arith) ((λ e. omega (arith, e)), tt) 100 110 replacements-Near code code'
      replaced_code

abbrev ends_well : Kernel
ends_well = record {
  locked = true;
  base_locked = true;
  allocated = true;
  allocated' = true;
  get = λ m. true;
}

abbrev kedr : Controller
kedr = record { address = 1; owner = 2 }

-- the target, whose name is the text 7, 8, without any code
abbrev driver : ℕ → Module
driver a = record {
  address = a;
  name = 7 ∷ 8 ∷ [];
  module_init = 0;
  init_text_size = 0;
  module_core = 100;
  core_text_size = 0;
}

abbrev waits : Detector
waits = record (new_detector code) {
  handle_module_notifications = true;
  notified = true;
  base = record base_init_module { current_controller = some kedr };
}

abbrev result_of : Result Detector → Detector
result_of (done d) = d
result_of bug = waits
result_of unfinished = waits

came : Detector
unfolding detector_notifier_call
came = result_of (detector_notifier_call decode (7 ∷ 8 ∷ []) ends_well coming (driver 50) waits)

came-is : detector_notifier_call decode (7 ∷ 8 ∷ []) ends_well coming (driver 50) waits ≡ done came
unfolding detector_notifier_call came kedr_impl_on_target_load create_repl_table copy_tables
    after_table load_modules load_payloads replace_calls_in_module
came-is = refl

went : Detector
unfolding detector_notifier_call came
went = result_of (detector_notifier_call decode (7 ∷ 8 ∷ []) ends_well going (driver 50) came)

went-is : detector_notifier_call decode (7 ∷ 8 ∷ []) ends_well going (driver 50) came ≡ done went
unfolding detector_notifier_call came went kedr_impl_on_target_load create_repl_table copy_tables
    after_table load_modules load_payloads replace_calls_in_module kedr_impl_on_target_unload
    unload_payloads
went-is = refl

abbrev given_table : ReplTable
given_table = record { orig_addrs = some []; repl_addrs = some []; num_addrs = 0 }

base_loads :
    kedr_impl_on_target_load true true true (λ m. true) waits.base
    ≡ some (
      success,
      some given_table,
      record waits.base {
        deny_payload_register = true;
        combined = given_table;
        gets = λ m. if 2 == m then 0 + 1 else 0;
      },
    )
unfolding kedr_impl_on_target_load create_repl_table copy_tables after_table load_modules
    load_payloads zeros total_addrs
base_loads = refl

detector_notifier_call-Balanced_example : Idle went × Balanced (λ m. true) kedr waits.base went.base
unfolding filter_module
detector_notifier_call-Balanced_example =
    detector_notifier_call-Balanced decode (7 ∷ 8 ∷ []) ends_well ends_well (driver 50) waits came
      went kedr _ _ refl refl refl refl refl refl refl base_loads came-is went-is

abbrev init_ends : Bool → InitKernel
init_ends l = record {
  base_locked = true;
  module_mutex_locked = true;
  registered = true;
  target_found = false;
  controller_locked = l;
  unregister_locked = true;
  get_lock = λ a. true;
  cleanup_locked = true;
}

-- a payload that registers nothing
abbrev quiet : Payloads
quiet = record { init = λ b. (false, b); exit = λ b. b }

controller_init_module-Initialized_example :
    Initialized
      (quiet ∷ [])
      kedr
      (init_ends true)
      (controller_init_module (quiet ∷ []) kedr (init_ends true) code)
controller_init_module-Initialized_example =
    controller_init_module-Initialized (quiet ∷ []) kedr (init_ends true) code

controller_init_module-module_mutex_example :
    ((controller_init_module (quiet ∷ []) kedr (init_ends false) code).1.module_mutex ≡ true)
    ↔ LeftLocked (quiet ∷ []) kedr (init_ends false)
controller_init_module-module_mutex_example =
    controller_init_module-module_mutex (quiet ∷ []) kedr (init_ends false) code

-- module_mutex is left locked
still_locked :
    (controller_init_module (quiet ∷ []) kedr (init_ends false) code).1.module_mutex ≡ true
unfolding controller_init_module init_payloads kedr_impl_controller_register
still_locked = refl
