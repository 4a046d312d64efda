-- ===== src/Base/Registry.antt =====
-- The operations of kedr-base. The result of mutex_lock_interruptible, of the allocations and of
-- try_module_get are arguments.
use kedr_aux.Prelude.{
  ℕ, ◌+◌, Bool, true, false, Option, none, some, List, [], ◌∷◌, ◌++◌, ◌==◌, if◌then◌else◌,
}
use kedr_aux.Base.Table.{Payload, ReplTable, empty_table, free_repl_table, create_repl_table, ◌>>=◌}

-- what the functions return
pub data Status : Type 0 where
  success eintr ebusy einval enomem efault : Status

-- struct kedr_impl_controller: its address and its module
pub record Controller : Type 0 where
  pub address : ℕ
  pub owner : ℕ

-- the calls of the payloads' callbacks, by the payload's address
pub data Call : Type 0 where
  loaded unloading : ℕ → Call

-- The global data of kedr-base, the calls of try_module_get that succeeded and of module_put, by
-- module, and the callbacks called, the last one first.
pub record Base : Type 0 where
  pub payload_modules : List Payload
  pub deny_payload_register : Bool
  pub combined : ReplTable
  pub current_controller : Option Controller
  pub gets : ℕ → ℕ
  pub puts : ℕ → ℕ
  pub calls : List Call

-- base_init_module
abbrev pub base_init_module : Base
base_init_module = record {
  payload_modules = [];
  deny_payload_register = false;
  combined = empty_table;
  current_controller = none;
  gets = λ m. 0;
  puts = λ m. 0;
  calls = [];
}

-- whether payload_find finds an element
unfoldable pub payload_find : ℕ → List Payload → Bool
payload_find a [] = false
payload_find a (p ∷ ps) = if p.address == a then true else payload_find a ps

unfoldable pub kedr_payload_register : Bool → Bool → Payload → Base → Status × Base
kedr_payload_register locked allocated p s =
    if locked
    then (if s.deny_payload_register
        then (ebusy, s)
        else if payload_find p.address s.payload_modules
        then (einval, s)
        else if allocated
        then (success, record s { payload_modules = s.payload_modules ++ (p ∷ []) })
        else (enomem, s))
    else (eintr, s)

-- list_del of the element that payload_find returns
unfoldable pub list_del : ℕ → List Payload → List Payload
list_del a [] = []
list_del a (p ∷ ps) = let rest = list_del a ps in if p.address == a then ps else p ∷ rest

unfoldable pub kedr_payload_unregister : Bool → ℕ → Base → Base
kedr_payload_unregister locked a s =
    if locked
    then (if payload_find a s.payload_modules
        then record s { payload_modules = list_del a s.payload_modules }
        else s)
    else s

unfoldable pub kedr_impl_controller_register : Bool → Controller → Base → Status × Base
kedr_impl_controller_register locked c s =
    if locked
    then elim s.current_controller [
      | some d ↦ (einval, s)
      | none ↦ (success, record s { current_controller = some c })
    ]
    else (eintr, s)

-- `none` is a NULL argument
unfoldable pub kedr_impl_controller_unregister : Bool → Option Controller → Base → Base
kedr_impl_controller_unregister locked c s =
    if locked
    then elim s.current_controller [
      | none ↦ s
      | some d ↦ elim c [
        | none ↦ s
        | some c' ↦ if d.address == c'.address then record s { current_controller = none } else s
      ]
    ]
    else s

abbrev pub bump : ℕ → (ℕ → ℕ) → ℕ → ℕ
bump m f = λ x. if m == x then f x + 1 else f x

-- The loop of kedr_impl_on_target_load over payload_modules, and whether it gets through.
unfoldable pub load_payloads : (ℕ → Bool) → List Payload → Base → Bool × Base
load_payloads get [] s = (true, s)
load_payloads get (p ∷ ps) s =
    let rest = load_payloads get ps (record s {
      gets = bump p.owner s.gets;
      calls = if p.has_load_callback then loaded p.address ∷ s.calls else s.calls;
    }) in
    if get p.owner then rest else (false, s)

-- The part of kedr_impl_on_target_load behind the creation of the table. The table in the result is
-- what `*ptable` is set to, if it is. `none` is the use of a NULL controller.
unfoldable pub load_modules : (ℕ → Bool) → Base → Option (Status × Option ReplTable × Base)
load_modules get s =
    let (through, s') = load_payloads get s.payload_modules s in
    if through
    then elim s'.current_controller [
      | none ↦ none
      | some c ↦ some (
        success,
        some s'.combined,
        (if get c.owner then record s' { gets = bump c.owner s'.gets } else s'),
      )
    ]
    else some (efault, none, s')

unfoldable pub after_table :
    (ℕ → Bool) → Base → Bool × ReplTable → Option (Status × Option ReplTable × Base)
after_table get s (true, table) = load_modules get (record s { combined = table })
after_table get s (false, table) = some (enomem, none, record s { combined = table })

unfoldable pub kedr_impl_on_target_load :
    Bool → Bool → Bool → (ℕ → Bool) → Base → Option (Status × Option ReplTable × Base)
kedr_impl_on_target_load locked allocated allocated' get s =
    if locked
    then create_repl_table allocated allocated' s.payload_modules
      >>= after_table get
          (record s { deny_payload_register = true; combined = free_repl_table s.combined })
    else some (eintr, none, s)

-- the loop of kedr_impl_on_target_unload
unfoldable pub unload_payloads : List Payload → Base → Base
unload_payloads [] s = s
unload_payloads (p ∷ ps) s = unload_payloads ps (record s {
  calls = if p.has_unload_callback then unloading p.address ∷ s.calls else s.calls;
  puts = bump p.owner s.puts;
})

unfoldable pub kedr_impl_on_target_unload : Bool → Base → Option (Status × Base)
kedr_impl_on_target_unload locked s =
    if locked
    then (let s' = unload_payloads s.payload_modules s in
        elim s'.current_controller [
          | none ↦ none
          | some c ↦
              some
                (success, record s' { puts = bump c.owner s'.puts; deny_payload_register = false })
        ])
    else some (eintr, s)

-- the loop of base_cleanup_module, with how each call's lock ends
unfoldable pub unregister_all : (ℕ → Bool) → List Payload → Base → Base
unregister_all locked [] s = s
unregister_all locked (p ∷ ps) s =
    unregister_all locked ps (kedr_payload_unregister (locked p.address) p.address s)

unfoldable pub base_cleanup_module : (ℕ → Bool) → Bool → Base → Base
base_cleanup_module locked locked' s =
    let s1 = unregister_all locked s.payload_modules s in
    let s2 = kedr_impl_controller_unregister locked' s1.current_controller s1 in
    record s2 { combined = free_repl_table s2.combined }
