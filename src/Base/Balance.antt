-- ===== src/Base/Balance.antt =====
-- The references on modules that a load of the target takes and its unload gives back.
use kedr_aux.Prelude.{
  ℕ, ◌+◌, Bool, true, Option, some, List, [], ◌∷◌, ◌==◌, ◌≡◌, refl, arith, Bool-cases, inl, inr,
  if◌then◌else◌,
}
use mathlib.Core.Bool.{false≢true}
use kedr_aux.Base.Table.{Payload, ReplTable}
use kedr_aux.Base.Registry.{
  success, Controller, Base, loaded, unloading, bump, load_payloads, load_modules, unload_payloads,
}

-- how many payloads belong to a module
abbrev pub count : ℕ → List Payload → ℕ
count m [] = 0
count m (p ∷ ps) = if p.owner == m then count m ps + 1 else count m ps

-- What the loop of kedr_impl_on_target_load leaves once it gets through.
record Taken (ps : List Payload) (s t : Base) : Type 0 where
  gets : (m : ℕ) → t.gets m ≡ s.gets m + count m ps
  puts : (m : ℕ) → t.puts m ≡ s.puts m
  modules : t.payload_modules ≡ s.payload_modules
  controller : t.current_controller ≡ s.current_controller
  denied : t.deny_payload_register ≡ s.deny_payload_register

load_payloads-Taken :
    (get : ℕ → Bool) (ps : List Payload) (s : Base)
    → (load_payloads get ps s).0 ≡ true
    → Taken ps s (load_payloads get ps s).1
unfolding load_payloads
load_payloads-Taken get [] s h = record {
  gets = λ m. omega arith;
  puts = λ m. refl;
  modules = refl;
  controller = refl;
  denied = refl;
}
load_payloads-Taken get (p ∷ ps) s h = elim (Bool-cases (get p.owner)) [
  | inr e ↦ absurd (false≢true (rw e at h))
  | inl e ↦ rw e (later (load_payloads-Taken get ps s1 (rw e at h)))
]
  where
    s1 : Base
    s1 = record s {
      gets = bump p.owner s.gets;
      calls = if p.has_load_callback then loaded p.address ∷ s.calls else s.calls;
    }

    later : {t : Base} → Taken ps s1 t → Taken (p ∷ ps) s t
    later h = record {
      gets = λ m. ground (arith, h.gets m);
      puts = h.puts;
      modules = h.modules;
      controller = h.controller;
      denied = h.denied;
    }

module _ (get : ℕ → Bool) (ps : List Payload) (s : Base) where
  taken_gets :
      (m : ℕ)
      → (load_payloads get ps s).0 ≡ true
      → (load_payloads get ps s).1.gets m ≡ s.gets m + count m ps
  taken_gets m h = (load_payloads-Taken get ps s h).gets m

  taken_puts :
      (m : ℕ) → (load_payloads get ps s).0 ≡ true → (load_payloads get ps s).1.puts m ≡ s.puts m
  taken_puts m h = (load_payloads-Taken get ps s h).puts m

  taken_modules :
      (load_payloads get ps s).0 ≡ true
      → (load_payloads get ps s).1.payload_modules ≡ s.payload_modules
  taken_modules h = (load_payloads-Taken get ps s h).modules

  taken_controller :
      (load_payloads get ps s).0 ≡ true
      → (load_payloads get ps s).1.current_controller ≡ s.current_controller
  taken_controller h = (load_payloads-Taken get ps s h).controller

  taken_denied :
      (load_payloads get ps s).0 ≡ true
      → (load_payloads get ps s).1.deny_payload_register ≡ s.deny_payload_register
  taken_denied h = (load_payloads-Taken get ps s h).denied

-- what the loop of kedr_impl_on_target_unload leaves
pub record Given (ps : List Payload) (s t : Base) : Type 0 where
  pub gets : (m : ℕ) → t.gets m ≡ s.gets m
  pub puts : (m : ℕ) → t.puts m ≡ s.puts m + count m ps
  pub controller : t.current_controller ≡ s.current_controller

pub unload_payloads-Given : (ps : List Payload) (s : Base) → Given ps s (unload_payloads ps s)
unfolding unload_payloads
unload_payloads-Given [] s = record { gets = λ m. refl; puts = λ m. omega arith; controller = refl }
unload_payloads-Given (p ∷ ps) s = later (unload_payloads-Given ps s1)
  where
    s1 : Base
    s1 = record s {
      calls = if p.has_unload_callback then unloading p.address ∷ s.calls else s.calls;
      puts = bump p.owner s.puts;
    }

    later : {t : Base} → Given ps s1 t → Given (p ∷ ps) s t
    later h = record {
      gets = h.gets;
      puts = λ m. ground (arith, h.puts m);
      controller = h.controller;
    }

-- What a load that succeeds leaves: each payload's module is taken once more, and so is that of the
-- controller `c` if try_module_get lets it.
pub record Loaded (get : ℕ → Bool) (c : Controller) (s t : Base) : Type 0 where
  pub gets :
      (m : ℕ)
      → t.gets m
        ≡ s.gets m
          + count m s.payload_modules
          + (if get c.owner then (if c.owner == m then 1 else 0) else 0)
  pub puts : (m : ℕ) → t.puts m ≡ s.puts m
  pub modules : t.payload_modules ≡ s.payload_modules
  pub controller : t.current_controller ≡ some c
  pub denied : t.deny_payload_register ≡ s.deny_payload_register

pub load_modules-Loaded :
    (get : ℕ → Bool) (s t : Base) (c : Controller) (r : Option ReplTable)
    → s.current_controller ≡ some c
    → load_modules get s ≡ some (success, r, t)
    → Loaded get c s t
unfolding load_modules
load_modules-Loaded get s t c r hc h = record {
  gets = λ m. ground (
    arith,
    hc,
    h,
    taken_gets get s.payload_modules s m,
    taken_controller get s.payload_modules s,
  );
  puts = λ m. ground (
    arith,
    hc,
    h,
    taken_puts get s.payload_modules s m,
    taken_controller get s.payload_modules s,
  );
  modules = ground (
    arith,
    hc,
    h,
    taken_modules get s.payload_modules s,
    taken_controller get s.payload_modules s,
  );
  controller = ground (arith, hc, h, taken_controller get s.payload_modules s);
  denied = ground (
    arith,
    hc,
    h,
    taken_denied get s.payload_modules s,
    taken_controller get s.payload_modules s,
  );
}
