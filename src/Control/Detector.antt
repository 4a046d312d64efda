-- ===== src/Control/Detector.antt =====
-- controller.c: the loading and unloading of the target module, and of the controller, over kedr-base.
use kedr_aux.Prelude.{
  ℕ, Bool, true, false, not, Option, none, some, List, [], ◌∷◌, ◌==◌, if◌then◌else◌,
}
use kedr_aux.Base.Table.{ReplTable, empty_table}
use kedr_aux.Base.Registry.{
  Status, success, eintr, ebusy, einval, enomem, efault, Controller, Base, base_init_module,
  kedr_impl_controller_register, kedr_impl_controller_unregister, kedr_impl_on_target_load,
  kedr_impl_on_target_unload, base_cleanup_module,
}
use kedr_aux.Control.{Memory, Insn, Result, bug, unfinished, done, Module, replace_calls_in_module}

-- The global data of the controller, the memory with the code of the modules, and kedr-base.
-- `notified` tells whether detector_nb is registered, and `module_mutex` whether the controller holds it.
pub record Detector : Type 0 where
  pub target_module : Option Module
  pub target_in_init : Bool
  pub handle_module_notifications : Bool
  pub repl_table : ReplTable
  pub memory : Memory
  pub base : Base
  pub notified : Bool
  pub module_mutex : Bool

pub data ModuleState : Type 0 where
  live coming going : ModuleState

-- How the calls of the kernel end, for one call of detector_notifier_call: the two mutexes, the two
-- allocations, try_module_get.
pub record Kernel : Type 0 where
  pub locked : Bool
  pub base_locked : Bool
  pub allocated : Bool
  pub allocated' : Bool
  pub get : ℕ → Bool

-- strcmp(a, b) == 0
unfoldable pub same_name : List ℕ → List ℕ → Bool
same_name [] [] = true
same_name [] (y ∷ ys) = false
same_name (x ∷ xs) [] = false
same_name (x ∷ xs) (y ∷ ys) = let rest = same_name xs ys in if x == y then rest else false

unfoldable pub filter_module : List ℕ → List ℕ → Bool
unfolding same_name
filter_module target_name mod_name = same_name mod_name target_name

abbrev pub table_or : ReplTable → Option ReplTable → ReplTable
table_or old none = old
table_or old (some t) = t

module _ (decode : Memory → ℕ → Insn) (target_name : List ℕ) where
  abbrev pub with_code : Detector → Result Memory → Result Detector
  with_code d bug = bug
  with_code d unfinished = unfinished
  with_code d (done mem) = done (record d { memory = mem })

  -- on_module_load behind kedr_impl_on_target_load
  abbrev pub after_load :
      Module → Detector → Option (Status × Option ReplTable × Base) → Result Detector
  after_load m d none = bug
  after_load m d (some (success, t, b)) =
      with_code (record d { base = b; repl_table = table_or d.repl_table t })
        (replace_calls_in_module decode m (table_or d.repl_table t) d.memory)
  after_load m d (some (eintr, t, b)) =
      done (record d { base = b; repl_table = table_or d.repl_table t })
  after_load m d (some (ebusy, t, b)) =
      done (record d { base = b; repl_table = table_or d.repl_table t })
  after_load m d (some (einval, t, b)) =
      done (record d { base = b; repl_table = table_or d.repl_table t })
  after_load m d (some (enomem, t, b)) =
      done (record d { base = b; repl_table = table_or d.repl_table t })
  after_load m d (some (efault, t, b)) =
      done (record d { base = b; repl_table = table_or d.repl_table t })

  unfoldable pub on_module_load : Kernel → Module → Detector → Result Detector
  on_module_load k m d =
      after_load m (record d { target_in_init = true })
        (kedr_impl_on_target_load k.base_locked k.allocated k.allocated' k.get d.base)

  abbrev pub after_unload : Detector → Option (Status × Base) → Result Detector
  after_unload d none = bug
  after_unload d (some (r, b)) = done (record d { base = b })

  unfoldable pub on_module_unload : Kernel → Detector → Result Detector
  on_module_unload k d =
      after_unload (record d { repl_table = empty_table; target_in_init = false })
        (kedr_impl_on_target_unload k.base_locked d.base)

  -- mod == target_module
  abbrev pub is_target : Module → Option Module → Bool
  is_target m none = false
  is_target m (some m') = m.address == m'.address

  abbrev pub forgotten : Result Detector → Result Detector
  forgotten bug = bug
  forgotten unfinished = unfinished
  forgotten (done d) = done (record d { target_module = none })

  -- the case MODULE_STATE_COMING of a module that is the target
  abbrev pub target_coming : Kernel → Module → Detector → Option Module → Result Detector
  target_coming k m d none = on_module_load k m (record d { target_module = some m })
  target_coming k m d (some m') = bug

  abbrev pub handled : Kernel → ModuleState → Module → Detector → Result Detector
  handled k live m d = done d
  handled k coming m d =
      if filter_module target_name m.name then target_coming k m d d.target_module else done d
  handled k going m d =
      if is_target m d.target_module then forgotten (on_module_unload k d) else done d

  unfoldable pub detector_notifier_call : Kernel → ModuleState → Module → Detector → Result Detector
  unfolding filter_module on_module_load on_module_unload
  detector_notifier_call k mod_state m d =
      if k.locked
      then (if d.handle_module_notifications then handled k mod_state m d else done d)
      else done d

-- `module_init` is that of the target at the time of the call, which is NULL behind its init function
unfoldable pub is_target_module_in_init : ℕ → Detector → Bool × Detector
is_target_module_in_init module_init d =
    if d.target_in_init
    then (not (module_init == 0), record d { target_in_init = not (module_init == 0) })
    else (false, d)

-- a payload of payloads_init and payloads_exit, which are generated; init tells whether it fails
pub record Payloads : Type 0 where
  pub init : Base → Bool × Base
  pub exit : Base → Base

unfoldable pub exit_payloads : List Payloads → Base → Base
exit_payloads [] b = b
exit_payloads (p ∷ ps) b = exit_payloads ps (p.exit b)

-- The loop over payloads_init, with the payloads before, the last one first. A payload that fails is
-- put out together with those before it.
abbrev pub next_payload : List Payloads → Bool × Base → (Base → Bool × Base) → Bool × Base
next_payload tried (true, b) go_on = (true, exit_payloads tried b)
next_payload tried (false, b) go_on = go_on b

unfoldable pub init_payloads : List Payloads → List Payloads → Base → Bool × Base
unfolding exit_payloads
init_payloads tried [] b = (false, b)
init_payloads tried (p ∷ ps) b =
    next_payload (p ∷ tried) (p.init b) (λ b'. init_payloads (p ∷ tried) ps b')

-- How the calls of controller_init_module and of controller_cleanup_module end: `get_lock` says which
-- of base_cleanup_module's calls get their lock.
pub record InitKernel : Type 0 where
  pub base_locked : Bool
  pub module_mutex_locked : Bool
  pub registered : Bool
  pub target_found : Bool
  pub controller_locked : Bool
  pub unregister_locked : Bool
  pub get_lock : ℕ → Bool
  pub cleanup_locked : Bool

-- the global data of a module that has just been loaded
abbrev pub new_detector : Memory → Detector
new_detector memory = record {
  target_module = none;
  target_in_init = false;
  handle_module_notifications = false;
  repl_table = empty_table;
  memory = memory;
  base = base_init_module;
  notified = false;
  module_mutex = false;
}

module _ (payloads : List Payloads) (controller : Controller) (k : InitKernel) where
  unfoldable pub controller_cleanup_module : Detector → Detector
  unfolding exit_payloads
  controller_cleanup_module d = record d {
    notified = false;
    base = base_cleanup_module k.get_lock k.cleanup_locked (
        exit_payloads payloads
          (kedr_impl_controller_unregister k.unregister_locked (some controller) d.base));
  }

  -- The labels of controller_init_module. `false` is an error.
  abbrev pub fail : Detector → Bool × Detector
  fail d = (false, controller_cleanup_module d)

  abbrev pub unlock_and_fail : Detector → Bool × Detector
  unlock_and_fail d = fail (record d { module_mutex = false })

  -- controller_init_module from the registration of the notifier on, with module_mutex held
  abbrev pub notify : Detector → Bool × Detector
  notify d =
      if k.registered
      then (if k.target_found
          then unlock_and_fail (record d { notified = true })
          else if k.controller_locked
          then (
            true,
            record d { notified = true; handle_module_notifications = true; module_mutex = false },
          )
          else fail (record d { notified = true }))
      else unlock_and_fail d

  -- behind kedr_impl_controller_register
  abbrev pub lock_and_notify : Detector → Status × Base → Bool × Detector
  lock_and_notify d (success, b) =
      if k.module_mutex_locked
      then notify (record d { base = b; module_mutex = true })
      else fail (record d { base = b })
  lock_and_notify d (eintr, b) = fail (record d { base = b })
  lock_and_notify d (ebusy, b) = fail (record d { base = b })
  lock_and_notify d (einval, b) = fail (record d { base = b })
  lock_and_notify d (enomem, b) = fail (record d { base = b })
  lock_and_notify d (efault, b) = fail (record d { base = b })

  -- behind the loop over payloads_init
  abbrev pub register : Detector → Bool × Base → Bool × Detector
  register d (true, b) =
      (false, record d { base = base_cleanup_module k.get_lock k.cleanup_locked b })
  register d (false, b) =
      lock_and_notify (record d { base = b })
        (kedr_impl_controller_register k.base_locked controller b)

  unfoldable pub controller_init_module : Memory → Bool × Detector
  unfolding controller_cleanup_module init_payloads
  controller_init_module memory =
      register (new_detector memory) (init_payloads [] payloads base_init_module)
