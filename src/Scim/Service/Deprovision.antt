-- ===== src/Scim/Service/Deprovision.antt =====
-- What deprovisioning leaves alone.
use deterministic_identity_r.Prelude.{◌≡◌, refl, true, false, not, ◌||◌, some, ok}
use deterministic_identity_r.Prelude.Text.Case.{Unicode}
use deterministic_identity_r.Reconcile.Model.{ObservedState, DesiredState}
use deterministic_identity_r.Reconcile.Converge.{converge, result}
use deterministic_identity_r.Scim.Config.{Adapter, disable}
use deterministic_identity_r.Scim.Desired.{scim_state_equivalent}
use deterministic_identity_r.Scim.Service.{Service, observe, scim_target}

module _ ⦃u : Unicode⦄ {S : Type 0} (service : Service S) (a : Adapter) where
  -- In disable mode, an identity that should not exist and is observed as absent or as disabled is
  -- left alone: Converge makes no request but the search, and reports `unchanged`.
  pub converge-disabled :
      (d : DesiredState) (o : ObservedState) (s t : S)
      → a.deprovision_mode ≡ disable
      → d.exists ≡ false
      → (not o.exists || not o.enabled) ≡ true
      → observe service a d.subject_id s ≡ (ok o, t)
      → converge (some (scim_target service a)) d s ≡ (ok (result o false), t)
  unfolding converge scim_target scim_state_equivalent
  converge-disabled d o s t mode gone off seen = rw (seen, gone, mode, off) refl
