-- ===== src/Registry/Modes.antt =====
-- What safe-exit-only and a rollback leave possible, in packages/config/src/deployments.ts and
-- signedRegistry.ts.
use capital_os.Shared.{
  Text, text_eq_iff, Bool, true, false, Option, none, some, List, [], ◌∷◌, find, ◌≡◌, ◌↔◌, ◌≢◌,
  refl, sym, ap, arith, Bool-cases, inl, inr,
}
use capital_os.Errors.{ok}
use capital_os.Network.{StacksNetwork}
use capital_os.Plan.{Action}
use capital_os.Registry.Deployments.{
  Tables, CapabilityRecord, CapabilityState, active, safe_exit_only, action_eq, is_exit, is_enabled,
  is_disabled, apply_registry_mode, is_capability, with_mode, capability_for, executable_one,
  assert_executable,
}
use capital_os.Registry.Signed.{RegistryActivation, VerifiedRegistry}
use capital_os.Registry.Validate.{activate_registry, rollback_registry, follows, go_safe_exit_only}

find-test {ℓ} :
    {A : Type ℓ} (test : A → Bool) (xs : List A) (x : A) → find test xs ≡ some x → test x ≡ true
find-test test [] x e = absurd (ground (arith, e))
find-test test (y ∷ ys) x e = ground (arith, find-test test ys x)

exit_of :
    (item : CapabilityRecord) (action : Action)
    → action_eq item.action action ≡ true
    → is_exit item.action ≡ is_exit action
exit_of item action h = ground arith

enabled_live : (s : CapabilityState) → is_enabled s ≡ true → is_disabled s ≡ false
enabled_live s h = ground arith

active_keeps : (c : CapabilityRecord) → apply_registry_mode c active ≡ c
unfolding apply_registry_mode
active_keeps c = refl

safe_keeps :
    (c : CapabilityRecord) → is_exit c.action ≡ true → apply_registry_mode c safe_exit_only ≡ c
unfolding apply_registry_mode
safe_keeps c h = rw h

safe_stops :
    (c : CapabilityRecord)
    → is_exit c.action ≡ false
    → is_enabled (apply_registry_mode c safe_exit_only).state ≡ false
unfolding apply_registry_mode
safe_stops c h = elim (Bool-cases (is_disabled c.state)) [
  | inl off ↦ rw (h, off) (ground arith)
  | inr on ↦ rw (h, on)
]

stopped_throws :
    (action : Action) (network : StacksNetwork) (c r : CapabilityRecord)
    → is_enabled c.state ≡ false
    → executable_one action network (some c) ≢ ok r
stopped_throws action network c r h e = cc (rw h at e)

one_mode :
    (action : Action) (network : StacksNetwork) (c r : CapabilityRecord) (b : Bool)
    → is_exit c.action ≡ b
    → (executable_one action network (some (apply_registry_mode c safe_exit_only)) ≡ ok r)
      ↔ ((b ≡ true) × (executable_one action network (some (apply_registry_mode c active)) ≡ ok r))
one_mode action network c r true h = rw (safe_keeps c h, active_keeps c) (λ e. (refl, e), λ e. e.1)
one_mode action network c r false h =
    (λ e. absurd (stopped_throws action network _ r (safe_stops c h) e), λ e. cc (e.0))

found_mode :
    (action : Action) (network : StacksNetwork) (protocol : Option Text) (r : CapabilityRecord)
    (tables : Tables) (found : Option CapabilityRecord)
    → find (is_capability action network protocol) tables.capabilities ≡ found
    → (executable_one action network (with_mode safe_exit_only found) ≡ ok r)
      ↔ ((is_exit action ≡ true) × (executable_one action network (with_mode active found) ≡ ok r))
found_mode action network protocol r tables none k = (λ e. absurd (ground arith), λ e. e.1)
found_mode action network protocol r tables (some c) k =
    let same : action_eq c.action action ≡ true =
      ground (arith, find-test (is_capability action network protocol) tables.capabilities c k) in
    one_mode action network c r (is_exit action) (exit_of c action same)

-- In safe-exit-only mode an action can be executed exactly when it is one that lets a user out and can be
-- executed in the active mode, and by the same capability.
pub safe_exit_iff :
    (tables : Tables) (action : Action) (network : StacksNetwork) (protocol : Option Text)
    (r : CapabilityRecord)
    → (assert_executable tables action network protocol safe_exit_only ≡ ok r)
      ↔ ((is_exit action ≡ true) × (assert_executable tables action network protocol active ≡ ok r))
unfolding assert_executable capability_for
safe_exit_iff tables action network protocol r = found_mode action network protocol r tables _ refl

named_previous : (p : Option Text) (v : Text) → follows p v ≡ true → p ≡ some v
named_previous none v h = cc
named_previous (some p) v h = ap some ((text_eq_iff p v).0 h)

-- What a candidate makes of the active version.
abbrev replacing : RegistryActivation → VerifiedRegistry → RegistryActivation
replacing current candidate = record {
  active_version = candidate.payload.version;
  rollback_version = some current.active_version;
  mode = active;
}

-- How a version that replaced another is given up again.
abbrev pub Rollback : RegistryActivation → VerifiedRegistry → RegistryActivation → Type 0
Rollback current candidate next =
    (candidate.payload.previous_version ≡ some current.active_version)
    × (next.active_version ≡ candidate.payload.version)
    × ((back : RegistryActivation) × (again : RegistryActivation) × (rollback_registry next
          ≡ ok back)
        × (rollback_registry back ≡ ok again)
        × (back ≡ record {
          active_version = current.active_version;
          rollback_version = some candidate.payload.version;
          mode = safe_exit_only;
        })
        × (again ≡ go_safe_exit_only next))

-- A version replaces the active one only if it names it as its previous one. A rollback then makes the
-- version before active again, but only to exit, and a second rollback returns to the version that was
-- given up, also only to exit.
pub activate_registry-Rollback :
    (current : RegistryActivation) (candidate : VerifiedRegistry) (next : RegistryActivation)
    → activate_registry (some current) candidate ≡ ok next
    → Rollback current candidate next
unfolding activate_registry rollback_registry go_safe_exit_only
activate_registry-Rollback current candidate next e =
    elim (Bool-cases (follows candidate.payload.previous_version current.active_version)) [
      | inr other ↦ absurd (cc (rw other at e))
      | inl named ↦
          let is_next : replacing current candidate ≡ next = ground (arith, rw named at e) in
          (
            named_previous candidate.payload.previous_version current.active_version named,
            ap (λ x. x.active_version) (sym is_next),
            (
              record {
                active_version = current.active_version;
                rollback_version = some candidate.payload.version;
                mode = safe_exit_only;
              },
              go_safe_exit_only next,
              rw (← is_next),
              rw (← is_next),
              refl,
              refl,
            ),
          )
    ]
