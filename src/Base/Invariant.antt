-- ===== src/Base/Invariant.antt =====
-- No payload is registered twice, whatever is called.
use kedr_aux.Prelude.{
  ℕ, Bool, true, false, ◌||◌, Option, none, some, List, [], ◌∷◌, ◌++◌, ◌==◌, ◌≡◌, refl, sym, arith,
  Bool-cases, inl, inr, subst, if◌then◌else◌,
}
use kedr_aux.Base.Table.{Payload, ReplTable, free_repl_table, ◌>>=◌, create_repl_table}
use kedr_aux.Base.Registry.{
  Status, success, Controller, Base, loaded, unloading, bump, base_init_module, payload_find,
  kedr_payload_register, list_del, kedr_payload_unregister, kedr_impl_controller_register,
  kedr_impl_controller_unregister, load_payloads, load_modules, after_table,
  kedr_impl_on_target_load, unload_payloads, kedr_impl_on_target_unload,
}

-- no address twice
abbrev pub Distinct : List Payload → Type 0
Distinct [] = Unit
Distinct (p ∷ ps) = (payload_find p.address ps ≡ false) × Distinct ps

payload_find-append :
    (a : ℕ) (ps : List Payload) (p : Payload)
    → payload_find a (ps ++ (p ∷ [])) ≡ (payload_find a ps || (p.address == a))
unfolding payload_find
payload_find-append a [] p = ground arith
payload_find-append a (q ∷ ps) p = ground (arith, payload_find-append a ps p)

Distinct-append :
    (ps : List Payload) (p : Payload)
    → Distinct ps
    → payload_find p.address ps ≡ false
    → Distinct (ps ++ (p ∷ []))
unfolding payload_find
Distinct-append [] p d f = (refl, tt)
Distinct-append (q ∷ ps) p d f =
    (ground (arith, payload_find-append q.address ps p), Distinct-append ps p d.1 (ground arith))

payload_find-list_del :
    (a b : ℕ) (ps : List Payload)
    → payload_find a ps ≡ false
    → payload_find a (list_del b ps) ≡ false
unfolding payload_find list_del
payload_find-list_del a b [] f = refl
payload_find-list_del a b (p ∷ ps) f = ground (arith, payload_find-list_del a b ps)

list_del-Distinct : (a : ℕ) (ps : List Payload) → Distinct ps → Distinct (list_del a ps)
unfolding list_del
list_del-Distinct a [] d = tt
list_del-Distinct a (p ∷ ps) d = elim (Bool-cases (p.address == a)) [
  | inl e ↦ rw e d.1
  | inr e ↦ rw e (payload_find-list_del p.address a ps d.0, list_del-Distinct a ps d.1)
]

payload_find-list_del_eq :
    (a b : ℕ) (ps : List Payload)
    → Distinct ps
    → payload_find b (list_del a ps) ≡ (if a == b then false else payload_find b ps)
unfolding payload_find list_del
payload_find-list_del_eq a b [] d = ground arith
payload_find-list_del_eq a b (p ∷ ps) d = ground (arith, payload_find-list_del_eq a b ps d.1, d.0)

payload_find-ne :
    (a b : ℕ) (ps : List Payload)
    → payload_find a ps ≡ false
    → payload_find b ps ≡ (if a == b then false else payload_find b ps)
payload_find-ne a b ps h = elim (Bool-cases (a == b)) [
  | inl e ↦ let q : a ≡ b = ground (arith, e) in rw e (rw (← q) h)
  | inr e ↦ rw e refl
]

-- If no payload is registered twice, then behind a kedr_payload_unregister that gets the lock the
-- payload is not found, and every other one is found just if it was.
pub payload_find-kedr_payload_unregister :
    (a b : ℕ) (s : Base)
    → Distinct s.payload_modules
    → payload_find b (kedr_payload_unregister true a s).payload_modules
      ≡ (if a == b then false else payload_find b s.payload_modules)
unfolding kedr_payload_unregister
payload_find-kedr_payload_unregister a b s d =
    elim (Bool-cases (payload_find a s.payload_modules)) [
      | inl e ↦ rw e (payload_find-list_del_eq a b s.payload_modules d)
      | inr e ↦ rw e (payload_find-ne a b s.payload_modules e)
    ]

payload_find-append_self :
    (ps : List Payload) (p : Payload) → payload_find p.address (ps ++ (p ∷ [])) ≡ true
unfolding payload_find
payload_find-append_self [] p = ground arith
payload_find-append_self (q ∷ ps) p = ground (arith, payload_find-append_self ps p)

list_del-append :
    (ps : List Payload) (p : Payload)
    → payload_find p.address ps ≡ false
    → list_del p.address (ps ++ (p ∷ [])) ≡ ps
unfolding payload_find list_del
list_del-append [] p f = ground arith
list_del-append (q ∷ ps) p f = ground (arith, list_del-append ps p)

undo :
    (p : Payload) (s : Base)
    → payload_find p.address s.payload_modules ≡ false
    → kedr_payload_unregister true p.address
        (record s { payload_modules = s.payload_modules ++ (p ∷ []) })
      ≡ s
unfolding kedr_payload_unregister
undo p s f =
    rw (payload_find-append_self s.payload_modules p)
      (λ i. record s { payload_modules = list_del-append s.payload_modules p f i })

-- kedr_payload_unregister, if it gets the lock, undoes a kedr_payload_register that succeeded.
pub kedr_payload_unregister-kedr_payload_register :
    (locked allocated : Bool) (p : Payload) (s : Base)
    → (kedr_payload_register locked allocated p s).0 ≡ success
    → kedr_payload_unregister true p.address (kedr_payload_register locked allocated p s).1 ≡ s
unfolding kedr_payload_register
kedr_payload_unregister-kedr_payload_register false allocated p s h = cc
kedr_payload_unregister-kedr_payload_register true allocated p s h = ground (arith, undo p s)

-- the calls that the modules of the kernel make, each with the results of what it calls
pub data Step : Base → Base → Type 0 where
  register :
      (locked allocated : Bool) (p : Payload) (s : Base)
      → Step s (kedr_payload_register locked allocated p s).1
  unregister : (locked : Bool) (a : ℕ) (s : Base) → Step s (kedr_payload_unregister locked a s)
  register_controller :
      (locked : Bool) (c : Controller) (s : Base)
      → Step s (kedr_impl_controller_register locked c s).1
  unregister_controller :
      (locked : Bool) (c : Option Controller) (s : Base)
      → Step s (kedr_impl_controller_unregister locked c s)
  target_load :
      (locked allocated allocated' : Bool) (get : ℕ → Bool) (s s' : Base) (r : Status)
      (t : Option ReplTable)
      → kedr_impl_on_target_load locked allocated allocated' get s ≡ some (r, t, s')
      → Step s s'
  target_unload :
      (locked : Bool) (s s' : Base) {r : Status}
      → kedr_impl_on_target_unload locked s ≡ some (r, s')
      → Step s s'

pub data Reach (s : Base) : Base → Type 0 where
  here : Reach s s
  next : {t u : Base} → Reach s t → Step t u → Reach s u

load_payloads-modules :
    (get : ℕ → Bool) (ps : List Payload) (s : Base)
    → (load_payloads get ps s).1.payload_modules ≡ s.payload_modules
unfolding load_payloads
load_payloads-modules get [] s = refl
load_payloads-modules get (p ∷ ps) s = elim (Bool-cases (get p.owner)) [
  | inl e ↦ rw e (
      load_payloads-modules get ps (record s {
        gets = bump p.owner s.gets;
        calls = if p.has_load_callback then loaded p.address ∷ s.calls else s.calls;
      }))
  | inr e ↦ rw e refl
]

unload_payloads-modules :
    (ps : List Payload) (s : Base) → (unload_payloads ps s).payload_modules ≡ s.payload_modules
unfolding unload_payloads
unload_payloads-modules [] s = refl
unload_payloads-modules (p ∷ ps) s = unload_payloads-modules ps (record s {
  calls = if p.has_unload_callback then unloading p.address ∷ s.calls else s.calls;
  puts = bump p.owner s.puts;
})

load_modules-modules :
    (get : ℕ → Bool) (s s' : Base) (r : Status) (t : Option ReplTable)
    → load_modules get s ≡ some (r, t, s')
    → s'.payload_modules ≡ s.payload_modules
unfolding load_modules
load_modules-modules get s s' r t h = ground (arith, load_payloads-modules get s.payload_modules s)

after_table-modules :
    (get : ℕ → Bool) (s s' : Base) (r : Status) (t : Option ReplTable)
    (o : Option (Bool × ReplTable))
    → (o >>= after_table get s) ≡ some (r, t, s')
    → s'.payload_modules ≡ s.payload_modules
unfolding after_table
after_table-modules get s s' r t none h = cc
after_table-modules get s s' r t (some (true, table)) h =
    load_modules-modules get (record s { combined = table }) s' r t h
after_table-modules get s s' r t (some (false, table)) h = ground arith

load-modules :
    (locked allocated allocated' : Bool) (get : ℕ → Bool) (s s' : Base) (r : Status)
    (t : Option ReplTable)
    → kedr_impl_on_target_load locked allocated allocated' get s ≡ some (r, t, s')
    → s'.payload_modules ≡ s.payload_modules
unfolding kedr_impl_on_target_load
load-modules true allocated allocated' get s s' r t h =
    after_table-modules get
      (record s { deny_payload_register = true; combined = free_repl_table s.combined }) s' r t
      (create_repl_table allocated allocated' s.payload_modules) h
load-modules false allocated allocated' get s s' r t h = ground arith

unload-modules :
    (locked : Bool) (s s' : Base) {r : Status}
    → kedr_impl_on_target_unload locked s ≡ some (r, s')
    → s'.payload_modules ≡ s.payload_modules
unfolding kedr_impl_on_target_unload
unload-modules locked s s' h = ground (arith, unload_payloads-modules s.payload_modules s)

register-Distinct :
    (locked allocated : Bool) (p : Payload) (s : Base)
    → Distinct s.payload_modules
    → Distinct (kedr_payload_register locked allocated p s).1.payload_modules
unfolding kedr_payload_register
register-Distinct false allocated p s d = d
register-Distinct true allocated p s d = elim (Bool-cases s.deny_payload_register) [
  | inl e ↦ rw e d
  | inr e ↦ rw e (elim (Bool-cases (payload_find p.address s.payload_modules)) [
    | inl f ↦ rw f d
    | inr f ↦ rw f (elim (Bool-cases allocated) [
      | inl g ↦ rw g (Distinct-append s.payload_modules p d f)
      | inr g ↦ rw g d
    ])
  ])
]

unregister-Distinct :
    (locked : Bool) (a : ℕ) (s : Base)
    → Distinct s.payload_modules
    → Distinct (kedr_payload_unregister locked a s).payload_modules
unfolding kedr_payload_unregister
unregister-Distinct false a s d = d
unregister-Distinct true a s d = elim (Bool-cases (payload_find a s.payload_modules)) [
  | inl e ↦ rw e (list_del-Distinct a s.payload_modules d)
  | inr e ↦ rw e d
]

register_controller-modules :
    (locked : Bool) (c : Controller) (s : Base)
    → (kedr_impl_controller_register locked c s).1.payload_modules ≡ s.payload_modules
unfolding kedr_impl_controller_register
register_controller-modules locked c s = ground arith

unregister_controller-modules :
    (locked : Bool) (c : Option Controller) (s : Base)
    → (kedr_impl_controller_unregister locked c s).payload_modules ≡ s.payload_modules
unfolding kedr_impl_controller_unregister
unregister_controller-modules locked c s = ground arith

Step-Distinct : {s t : Base} → Step s t → Distinct s.payload_modules → Distinct t.payload_modules
Step-Distinct (register locked allocated p s) d = register-Distinct locked allocated p s d
Step-Distinct (unregister locked a s) d = unregister-Distinct locked a s d
Step-Distinct (register_controller locked c s) d =
    subst Distinct (sym (register_controller-modules locked c s)) d
Step-Distinct (unregister_controller locked c s) d =
    subst Distinct (sym (unregister_controller-modules locked c s)) d
Step-Distinct (target_load locked allocated allocated' get s s' r t h) d =
    subst Distinct (sym (load-modules locked allocated allocated' get s s' r t h)) d
Step-Distinct (target_unload locked s s' h) d =
    subst Distinct (sym (unload-modules locked s s' h)) d

-- From an initialised kedr-base, whatever the calls and their failures, no payload is registered
-- twice.
pub Reach-Distinct : {s : Base} → Reach base_init_module s → Distinct s.payload_modules
Reach-Distinct here = tt
Reach-Distinct (next r st) = Step-Distinct st (Reach-Distinct r)
