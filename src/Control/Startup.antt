-- ===== src/Control/Startup.antt =====
-- How controller_init_module ends.
use kedr_aux.Prelude.{
  Bool, true, false, Option, none, some, List, [], ◌≡◌, ◌⊎◌, ◌↔◌, refl, Bool-cases, inl, inr, arith,
}
use kedr_aux.Base.Registry.{
  Status, success, eintr, ebusy, einval, enomem, efault, Controller, Base, base_init_module,
  kedr_impl_controller_register,
}
use kedr_aux.Control.{Memory}
use kedr_aux.Control.Detector.{
  Detector, Payloads, new_detector, InitKernel, init_payloads, controller_cleanup_module, notify,
  lock_and_notify, register, controller_init_module,
}

-- the mutex is free, or its holder could not lock controller_mutex
abbrev pub FreeUnless : Bool → Bool → Type 0
FreeUnless locked held = (held ≡ false) ⊎ (locked ≡ false)

module _ (payloads : List Payloads) (controller : Controller) (k : InitKernel) where
  -- The two ways in which the controller's module is loaded or is not.
  pub data Initialized : Bool × Detector → Type 0 where
    started :
        {d : Detector}
        → d.handle_module_notifications ≡ true
        → d.notified ≡ true
        → d.module_mutex ≡ false
        → d.base.current_controller ≡ some controller
        → d.target_module ≡ none
        → Initialized (true, d)
    failed :
        {d : Detector}
        → d.handle_module_notifications ≡ false
        → d.notified ≡ false
        → FreeUnless k.controller_locked d.module_mutex
        → Initialized (false, d)

  -- the state before the notifier is registered
  record Fresh (d : Detector) : Type 0 where
    handles_not : d.handle_module_notifications ≡ false
    notified_not : d.notified ≡ false
    mutex_free : d.module_mutex ≡ false
    no_target : d.target_module ≡ none

  notify-Initialized :
      (d : Detector)
      → Fresh d
      → d.base.current_controller ≡ some controller
      → Initialized (notify payloads controller k (record d { module_mutex = true }))
  unfolding controller_cleanup_module
  notify-Initialized d f c = elim (Bool-cases k.registered) [
    | inr e ↦ simp e (failed f.handles_not refl (inl refl))
    | inl e ↦ elim (Bool-cases k.target_found) [
      | inl t ↦ simp (e, t) (failed f.handles_not refl (inl refl))
      | inr t ↦ elim (Bool-cases k.controller_locked) [
        | inl l ↦ simp (e, t, l) (started refl refl refl c f.no_target)
        | inr l ↦ simp (e, t, l) (failed f.handles_not refl (inr l))
      ]
    ]
  ]

  registered-controller :
      (b : Base) (c : Option Controller)
      → b.current_controller ≡ c
      → (kedr_impl_controller_register k.base_locked controller b).0 ≡ success
      → (kedr_impl_controller_register k.base_locked controller b).1.current_controller
        ≡ some controller
  unfolding kedr_impl_controller_register
  registered-controller b (some c) e h = ground (arith, e, h)
  registered-controller b none e h = ground (arith, e, h)

  lock_and_notify-Initialized :
      (d : Detector) (r : Status × Base)
      → Fresh d
      → (r.0 ≡ success → r.1.current_controller ≡ some controller)
      → Initialized (lock_and_notify payloads controller k d r)
  unfolding controller_cleanup_module
  lock_and_notify-Initialized d (success, b) f c = elim (Bool-cases k.module_mutex_locked) [
    | inl e ↦ simp e (
        notify-Initialized (record d { base = b })
          (record {
            handles_not = f.handles_not;
            notified_not = f.notified_not;
            mutex_free = f.mutex_free;
            no_target = f.no_target;
          })
          (c refl))
    | inr e ↦ simp e (failed f.handles_not refl (inl f.mutex_free))
  ]
  lock_and_notify-Initialized d (eintr, b) f c = failed f.handles_not refl (inl f.mutex_free)
  lock_and_notify-Initialized d (ebusy, b) f c = failed f.handles_not refl (inl f.mutex_free)
  lock_and_notify-Initialized d (einval, b) f c = failed f.handles_not refl (inl f.mutex_free)
  lock_and_notify-Initialized d (enomem, b) f c = failed f.handles_not refl (inl f.mutex_free)
  lock_and_notify-Initialized d (efault, b) f c = failed f.handles_not refl (inl f.mutex_free)

  register-Initialized :
      (d : Detector) (r : Bool × Base) → Fresh d → Initialized (register payloads controller k d r)
  register-Initialized d (true, b) f = failed f.handles_not f.notified_not (inl f.mutex_free)
  register-Initialized d (false, b) f =
      lock_and_notify-Initialized (record d { base = b }) _
        (record {
          handles_not = f.handles_not;
          notified_not = f.notified_not;
          mutex_free = f.mutex_free;
          no_target = f.no_target;
        })
        (registered-controller b b.current_controller refl)

  -- controller_init_module, with whatever payloads and however the calls of the kernel end: either it
  -- succeeds, the controller is registered with kedr-base, the notifier with the kernel, module_mutex
  -- is free and notifications are handled from a state without a target on; or it fails, the notifier
  -- is not registered, no notification is handled, and module_mutex is free or controller_mutex could
  -- not be locked.
  pub controller_init_module-Initialized :
      (memory : Memory) → Initialized (controller_init_module payloads controller k memory)
  unfolding controller_init_module
  controller_init_module-Initialized memory =
      register-Initialized (new_detector memory) (init_payloads [] payloads base_init_module)
        (record { handles_not = refl; notified_not = refl; mutex_free = refl; no_target = refl })

  -- the path on which module_mutex is left locked
  pub record LeftLocked : Type 0 where
    pub payloads_base : Base
    pub payloads_init : init_payloads [] payloads base_init_module ≡ (false, payloads_base)
    pub controller_registers :
        (kedr_impl_controller_register k.base_locked controller payloads_base).0 ≡ success
    pub mutex_locked : k.module_mutex_locked ≡ true
    pub notifier_registered : k.registered ≡ true
    pub not_found : k.target_found ≡ false
    pub interrupted : k.controller_locked ≡ false

  notify_locked :
      (d : Detector)
      → d.module_mutex ≡ true
      → (notify payloads controller k d).1.module_mutex ≡ true
      → (k.registered ≡ true) × (k.target_found ≡ false) × (k.controller_locked ≡ false)
  unfolding controller_cleanup_module
  notify_locked d e h = elim (Bool-cases k.registered) [
    | inr r ↦ absurd (ground (arith, r, h))
    | inl r ↦ elim (Bool-cases k.target_found) [
      | inl t ↦ absurd (ground (arith, r, t, h))
      | inr t ↦ elim (Bool-cases k.controller_locked) [
        | inl l ↦ absurd (ground (arith, r, t, l, h))
        | inr l ↦ (r, t, l)
      ]
    ]
  ]

  lock_and_notify_locked :
      (d : Detector) (r : Status × Base)
      → d.module_mutex ≡ false
      → (lock_and_notify payloads controller k d r).1.module_mutex ≡ true
      → (r.0 ≡ success)
        × (k.module_mutex_locked ≡ true)
        × (k.registered ≡ true)
        × (k.target_found ≡ false)
        × (k.controller_locked ≡ false)
  unfolding controller_cleanup_module
  lock_and_notify_locked d (success, b) e h = elim (Bool-cases k.module_mutex_locked) [
    | inl l ↦
        let (r, t, c) =
          notify_locked (record d { base = b; module_mutex = true }) refl (simp l at h) in
        (refl, l, r, t, c)
    | inr l ↦ absurd (ground (arith, l, e, h))
  ]
  lock_and_notify_locked d (eintr, b) e h = absurd (ground (arith, e, h))
  lock_and_notify_locked d (ebusy, b) e h = absurd (ground (arith, e, h))
  lock_and_notify_locked d (einval, b) e h = absurd (ground (arith, e, h))
  lock_and_notify_locked d (enomem, b) e h = absurd (ground (arith, e, h))
  lock_and_notify_locked d (efault, b) e h = absurd (ground (arith, e, h))

  register_locked :
      (d : Detector) (r : Bool × Base)
      → d.module_mutex ≡ false
      → init_payloads [] payloads base_init_module ≡ r
      → (register payloads controller k d r).1.module_mutex ≡ true
      → LeftLocked
  unfolding kedr_impl_controller_register
  register_locked d (true, b) e i h = absurd (ground (arith, e, h))
  register_locked d (false, b) e i h =
      let (c, l, r, t, o) =
        lock_and_notify_locked (record d { base = b })
          (kedr_impl_controller_register k.base_locked controller b) e h in
      record {
        payloads_base = b;
        payloads_init = i;
        controller_registers = c;
        mutex_locked = l;
        notifier_registered = r;
        not_found = t;
        interrupted = o;
      }

  register_held :
      (d : Detector) (r : Status × Base)
      → r.0 ≡ success
      → LeftLocked
      → (lock_and_notify payloads controller k d r).1.module_mutex ≡ true
  unfolding controller_cleanup_module
  register_held d (success, b) e l =
      simp (l.mutex_locked, l.notifier_registered, l.not_found, l.interrupted) refl
  register_held d (eintr, b) e l = cc
  register_held d (ebusy, b) e l = cc
  register_held d (einval, b) e l = cc
  register_held d (enomem, b) e l = cc
  register_held d (efault, b) e l = cc

  -- controller_init_module, however its calls end, leaves module_mutex locked if the payloads
  -- initialize, the controller is registered, module_mutex is locked, the notifier is registered, the
  -- target is not there and controller_mutex cannot be locked, and on no other path.
  pub controller_init_module-module_mutex :
      (memory : Memory)
      → ((controller_init_module payloads controller k memory).1.module_mutex ≡ true) ↔ LeftLocked
  unfolding controller_init_module
  controller_init_module-module_mutex memory = (
    λ h.
        register_locked (new_detector memory) (init_payloads [] payloads base_init_module) refl refl
          h,
    λ l. simp l.payloads_init (
        register_held (record (new_detector memory) { base = l.payloads_base }) _
          l.controller_registers l),
  )
