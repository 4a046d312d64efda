-- ===== src/Base/Session.antt =====
-- A load of the target and the unload that follows.
use kedr_aux.Prelude.{
  ℕ, ◌+◌, Bool, true, false, Option, none, some, List, [], ◌∷◌, ◌==◌, ◌≡◌, refl, ap, arith,
  Bool-cases, inl, inr, if◌then◌else◌,
}
use kedr_aux.Base.Table.{Payload, ReplTable, free_repl_table, ◌>>=◌, create_repl_table}
use kedr_aux.Base.Registry.{
  Status, success, ebusy, Controller, Base, loaded, bump, kedr_payload_register, load_payloads,
  load_modules, after_table, kedr_impl_on_target_load, kedr_impl_on_target_unload,
}
use kedr_aux.Base.Balance.{count, Loaded, load_modules-Loaded, unload_payloads-Given}

-- one reference on the controller's module, if try_module_get grants it
abbrev pub granted : (ℕ → Bool) → Controller → ℕ → ℕ
granted get c m = if get c.owner then (if c.owner == m then 1 else 0) else 0

after_table-Loaded :
    (get : ℕ → Bool) (s t : Base) (c : Controller) (r : Option ReplTable)
    (o : Option (Bool × ReplTable))
    → s.current_controller ≡ some c
    → (o >>= after_table get s) ≡ some (success, r, t)
    → Loaded get c s t
unfolding after_table
after_table-Loaded get s t c r none hc h = cc
after_table-Loaded get s t c r (some (true, table)) hc h =
    moved (load_modules-Loaded get (record s { combined = table }) t c r hc h)
  where
    moved : Loaded get c (record s { combined = table }) t → Loaded get c s t
    moved l = record {
      gets = l.gets;
      puts = l.puts;
      modules = l.modules;
      controller = l.controller;
      denied = l.denied;
    }
after_table-Loaded get s t c r (some (false, table)) hc h = cc

load-Loaded :
    (locked allocated allocated' : Bool) (get : ℕ → Bool) (s t : Base) (c : Controller)
    (r : Option ReplTable)
    → s.current_controller ≡ some c
    → kedr_impl_on_target_load locked allocated allocated' get s ≡ some (success, r, t)
    → Loaded get c
        (record s { deny_payload_register = true; combined = free_repl_table s.combined })
        t
unfolding kedr_impl_on_target_load
load-Loaded true allocated allocated' get s t c r hc h =
    after_table-Loaded get
      (record s { deny_payload_register = true; combined = free_repl_table s.combined }) t c r
      (create_repl_table allocated allocated' s.payload_modules) hc h
load-Loaded false allocated allocated' get s t c r hc h = cc

-- What a target's stay leaves: the references given back are those taken, but for the controller's,
-- which is given back whether or not it was taken; registering is allowed again.
pub record Balanced (get : ℕ → Bool) (c : Controller) (s t : Base) : Type 0 where
  pub gets : (m : ℕ) → t.gets m ≡ s.gets m + count m s.payload_modules + granted get c m
  pub puts :
      (m : ℕ) → t.puts m ≡ s.puts m + count m s.payload_modules + (if c.owner == m then 1 else 0)
  pub allowed : t.deny_payload_register ≡ false

module _ (get : ℕ → Bool) (s t u : Base) (c : Controller) (r : Status) (l : Loaded get c s t)
    (h : kedr_impl_on_target_unload true t ≡ some (r, u)) where
  given_gets : (m : ℕ) → u.gets m ≡ s.gets m + count m s.payload_modules + granted get c m
  unfolding kedr_impl_on_target_unload
  given_gets m = ground (
    arith,
    h,
    l.controller,
    l.gets m,
    (unload_payloads-Given t.payload_modules t).controller,
    (unload_payloads-Given t.payload_modules t).gets m,
  )

  given_puts :
      (m : ℕ) → u.puts m ≡ s.puts m + count m s.payload_modules + (if c.owner == m then 1 else 0)
  unfolding kedr_impl_on_target_unload
  given_puts m = ground (
    arith,
    h,
    l.controller,
    l.puts m,
    ap (count m) l.modules,
    (unload_payloads-Given t.payload_modules t).controller,
    (unload_payloads-Given t.payload_modules t).puts m,
  )

  given_allowed : u.deny_payload_register ≡ false
  unfolding kedr_impl_on_target_unload
  given_allowed =
      ground (arith, h, l.controller, (unload_payloads-Given t.payload_modules t).controller)

  given_success : r ≡ success
  unfolding kedr_impl_on_target_unload
  given_success =
      ground (arith, h, l.controller, (unload_payloads-Given t.payload_modules t).controller)

-- If a load of the target succeeds while the controller `c` is registered, and the unload that
-- follows gets the lock, then the unload succeeds, each payload's module has been taken and given
-- back as often as the module has payloads, the controller's module has been given back once and
-- taken once if try_module_get granted it, and payloads may be registered again.
pub load-unload-Balanced :
    (locked allocated allocated' : Bool) (get : ℕ → Bool) (s t u : Base) (c : Controller)
    (table : Option ReplTable) (r : Status)
    → s.current_controller ≡ some c
    → kedr_impl_on_target_load locked allocated allocated' get s ≡ some (success, table, t)
    → kedr_impl_on_target_unload true t ≡ some (r, u)
    → (r ≡ success) × Balanced get c s u
load-unload-Balanced locked allocated allocated' get s t u c table r hc h k =
    let l = load-Loaded locked allocated allocated' get s t c table hc h in
    let s' : Base = record s {
      deny_payload_register = true;
      combined = free_repl_table s.combined;
    } in
    (
      given_success get s' t u c r l k,
      record {
        gets = given_gets get s' t u c r l k;
        puts = given_puts get s' t u c r l k;
        allowed = given_allowed get s' t u c r l k;
      },
    )

load_payloads-denied :
    (get : ℕ → Bool) (ps : List Payload) (s : Base)
    → (load_payloads get ps s).1.deny_payload_register ≡ s.deny_payload_register
unfolding load_payloads
load_payloads-denied get [] s = refl
load_payloads-denied get (p ∷ ps) s = elim (Bool-cases (get p.owner)) [
  | inl e ↦ rw e (
      load_payloads-denied get ps (record s {
        gets = bump p.owner s.gets;
        calls = if p.has_load_callback then loaded p.address ∷ s.calls else s.calls;
      }))
  | inr e ↦ rw e refl
]

after_table-denied :
    (get : ℕ → Bool) (s t : Base) (r : Status) (table : Option ReplTable)
    (o : Option (Bool × ReplTable))
    → (o >>= after_table get s) ≡ some (r, table, t)
    → t.deny_payload_register ≡ s.deny_payload_register
unfolding after_table load_modules
after_table-denied get s t r table none h = cc
after_table-denied get s t r table (some (true, table')) h =
    ground (arith, h, load_payloads-denied get s.payload_modules (record s { combined = table' }))
after_table-denied get s t r table (some (false, table')) h = ground arith

-- Behind a load of the target that got the lock, whether it succeeds or fails, every registration
-- of a payload that gets the lock is refused with -EBUSY and changes nothing.
pub kedr_payload_register-kedr_impl_on_target_load :
    (allocated allocated' allocated'' : Bool) (get : ℕ → Bool) (s t : Base) (r : Status)
    (table : Option ReplTable) (p : Payload)
    → kedr_impl_on_target_load true allocated allocated' get s ≡ some (r, table, t)
    → kedr_payload_register true allocated'' p t ≡ (ebusy, t)
unfolding kedr_payload_register kedr_impl_on_target_load
kedr_payload_register-kedr_impl_on_target_load allocated allocated' allocated'' get s t r table p
      h =
    rw
      (after_table-denied get
        (record s { deny_payload_register = true; combined = free_repl_table s.combined }) t r table
        (create_repl_table allocated allocated' s.payload_modules) h)
      refl
