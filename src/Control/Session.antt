-- ===== src/Control/Session.antt =====
-- The stay of the target, as the controller and kedr-base see it.
use kedr_aux.Prelude.{ℕ, Bool, true, false, Option, none, some, List, ◌≡◌, refl, subst, ◌==◌, arith}
use kedr_aux.Base.Table.{ReplTable, empty_table}
use kedr_aux.Base.Registry.{
  Status, success, Controller, Base, kedr_impl_on_target_load, kedr_impl_on_target_unload,
}
use kedr_aux.Base.Session.{Balanced, load-unload-Balanced}
use kedr_aux.Control.{Memory, Insn, Result, bug, unfinished, done, Module}
use kedr_aux.Control.Detector.{
  Detector, Kernel, coming, going, filter_module, table_or, with_code, on_module_load, after_unload,
  on_module_unload, forgotten, detector_notifier_call,
}

-- no target: nothing that is replaced, and nothing that initializes
pub record Idle (d : Detector) : Type 0 where
  pub target_gone : d.target_module ≡ none
  pub no_table : d.repl_table ≡ empty_table
  pub not_in_init : d.target_in_init ≡ false

module _ (decode : Memory → ℕ → Insn) (target_name : List ℕ) where
  -- what on_module_load leaves
  record Watched (m : Module) (b : Base) (d : Detector) : Type 0 where
    handles : d.handle_module_notifications ≡ true
    target : d.target_module ≡ some m
    base_is : d.base ≡ b

  with_code-Watched :
      (m : Module) (b : Base) (d d' : Detector) (r : Result Memory)
      → Watched m b d
      → with_code decode target_name d r ≡ done d'
      → Watched m b d'
  with_code-Watched m b d d' bug w h = cc
  with_code-Watched m b d d' unfinished w h = cc
  with_code-Watched m b d d' (done mem) w h =
      subst (Watched m b) (done_lem _ d' h)
        (record { handles = w.handles; target = w.target; base_is = w.base_is })
    where
      done_lem : (x y : Detector) → done x ≡ done y → x ≡ y
      done_lem x y e = cc

  coming-Watched :
      (k : Kernel) (m : Module) (d d' : Detector) (t : Option ReplTable) (b : Base)
      → k.locked ≡ true
      → d.handle_module_notifications ≡ true
      → d.target_module ≡ none
      → filter_module target_name m.name ≡ true
      → kedr_impl_on_target_load k.base_locked k.allocated k.allocated' k.get d.base
        ≡ some (success, t, b)
      → detector_notifier_call decode target_name k coming m d ≡ done d'
      → Watched m b d'
  unfolding detector_notifier_call on_module_load
  coming-Watched k m d d' t b l n e f q h =
      with_code-Watched m b
        (record d {
          target_module = some m;
          target_in_init = true;
          handle_module_notifications = true;
          base = b;
          repl_table = table_or d.repl_table t;
        })
        d' _ (record { handles = refl; target = refl; base_is = refl }) (simp (l, n, f, e, q) at h)

  unloaded :
      (m : Module) (get : ℕ → Bool) (c : Controller) (s : Base) (d d' : Detector)
      (r : Option (Status × Base))
      → d.repl_table ≡ empty_table
      → d.target_in_init ≡ false
      → ((v : Status) (u : Base) → r ≡ some (v, u) → Balanced get c s u)
      → forgotten decode target_name (after_unload decode target_name d r) ≡ done d'
      → Idle d' × Balanced get c s d'.base
  unloaded m get c s d d' none x y g h = cc
  unloaded m get c s d d' (some (v, u)) x y g h =
      subst (λ z. Idle z × Balanced get c s z.base) (done_lem _ d' h)
        (record { target_gone = refl; no_table = x; not_in_init = y }, g v u refl)
    where
      done_lem : (x y : Detector) → done x ≡ done y → x ≡ y
      done_lem x y e = cc

  same_address : (a : ℕ) → (a == a) ≡ true
  same_address a = ground arith

  -- The target comes while notifications are handled and there is no other target, kedr-base accepts
  -- it, and it goes; the calls for its unload get their locks. Then no target is known, no table is
  -- in use and nothing is initializing, the references of kedr-base's modules are given back as
  -- load-unload-Balanced says, and payloads may be registered again.
  pub detector_notifier_call-Balanced :
      (k k' : Kernel) (m : Module) (d d' d'' : Detector) (c : Controller) (t : Option ReplTable)
      (b : Base)
      → k.locked ≡ true
      → k'.locked ≡ true
      → k'.base_locked ≡ true
      → d.handle_module_notifications ≡ true
      → d.target_module ≡ none
      → d.base.current_controller ≡ some c
      → filter_module target_name m.name ≡ true
      → kedr_impl_on_target_load k.base_locked k.allocated k.allocated' k.get d.base
        ≡ some (success, t, b)
      → detector_notifier_call decode target_name k coming m d ≡ done d'
      → detector_notifier_call decode target_name k' going m d' ≡ done d''
      → Idle d'' × Balanced k.get c d.base d''.base
  unfolding detector_notifier_call on_module_unload
  detector_notifier_call-Balanced k k' m d d' d'' c t b l l' l'' n e f g q h h' =
      let w = coming-Watched k m d d' t b l n e g q h in
      unloaded m k.get c d.base
        (record d' {
          target_module = some m;
          target_in_init = false;
          handle_module_notifications = true;
          base = b;
          repl_table = empty_table;
        })
        d'' (kedr_impl_on_target_unload true b) refl refl
        (λ v u p.
          (load-unload-Balanced k.base_locked k.allocated k.allocated' k.get d.base b u c t v f q
            p).1)
        (simp (l', w.handles, w.target, same_address m.address, l'', w.base_is) at h')
