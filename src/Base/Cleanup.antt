-- ===== src/Base/Cleanup.antt =====
-- What base_cleanup_module leaves.
use kedr_aux.Prelude.{
  ℕ, true, Option, none, List, [], ◌∷◌, ◌==◌, ◌≡◌, refl, ◌∙◌, arith, Option-cases, inl, inr,
}
use kedr_aux.Base.Table.{Payload, empty_table, free_repl_table}
use kedr_aux.Base.Registry.{
  Controller, Base, payload_find, list_del, kedr_payload_unregister,
  kedr_impl_controller_unregister, unregister_all, base_cleanup_module,
}

==-refl : (n : ℕ) → (n == n) ≡ true
==-refl n = ground arith

-- the first payload is the one that is found, and the one that is removed
unregister-first :
    (p : Payload) (ps : List Payload) (s : Base)
    → s.payload_modules ≡ p ∷ ps
    → (kedr_payload_unregister true p.address s).payload_modules ≡ ps
unfolding kedr_payload_unregister payload_find list_del
unregister-first p ps s h = rw (h, ==-refl p.address) refl

unregister_all-nil :
    (ps : List Payload) (s : Base)
    → s.payload_modules ≡ ps
    → (unregister_all (λ a. true) ps s).payload_modules ≡ []
unfolding unregister_all
unregister_all-nil [] s h = h
unregister_all-nil (p ∷ ps) s h =
    unregister_all-nil ps (kedr_payload_unregister true p.address s) (unregister-first p ps s h)

controller-none :
    (s : Base)
    → (kedr_impl_controller_unregister true s.current_controller s).current_controller ≡ none
unfolding kedr_impl_controller_unregister
controller-none s = elim (Option-cases s.current_controller) [
  | inl e ↦ rw (e, e) refl
  | inr (c, e) ↦ ground (arith, e, ==-refl c.address)
]

controller-modules :
    (s : Base) (c : Option Controller)
    → (kedr_impl_controller_unregister true c s).payload_modules ≡ s.payload_modules
unfolding kedr_impl_controller_unregister
controller-modules s c = ground arith

-- If base_cleanup_module gets every lock, it leaves no payload, no controller and an empty table.
pub base_cleanup_module-empty :
    (s : Base)
    → ((base_cleanup_module (λ a. true) true s).payload_modules ≡ [])
      × ((base_cleanup_module (λ a. true) true s).current_controller ≡ none)
      × ((base_cleanup_module (λ a. true) true s).combined ≡ empty_table)
unfolding base_cleanup_module free_repl_table
base_cleanup_module-empty s =
    let s1 : Base = unregister_all (λ a. true) s.payload_modules s in
    (
      controller-modules s1 s1.current_controller ∙ unregister_all-nil s.payload_modules s refl,
      controller-none s1,
      refl,
    )
