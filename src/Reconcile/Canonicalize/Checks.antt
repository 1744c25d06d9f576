-- ===== src/Reconcile/Canonicalize/Checks.antt =====
-- The checks of Canonicalize are all that it takes.
use deterministic_identity_r.Prelude.{◌≡◌, ◌↔◌, ap, ok}
use deterministic_identity_r.Prelude.Text.Case.{Unicode}
use deterministic_identity_r.Prelude.Sort.{Sorter}
use deterministic_identity_r.Reconcile.Clock.{Time}
use deterministic_identity_r.Reconcile.Model.{PhysicalEvent, CanonicalFact}
use deterministic_identity_r.Reconcile.Platform.{Platform}
use deterministic_identity_r.Reconcile.Canonicalize.{canonicalize}
use deterministic_identity_r.Reconcile.Canonicalize.Facts.{Accepted, canonicalize-Accepted}

module _ ⦃p : Platform⦄ ⦃s : Sorter⦄ ⦃u : Unicode⦄ where
  -- Canonicalize returns a fact exactly if the event passes its checks: the trimmed subject and
  -- event key are not empty, the type and the scope are known up to letter case and space around
  -- them, the effective and modification times are not zero, the sequence and the revision are not
  -- negative, the attributes of the payload can be read, and the envelope can be hashed. The fact
  -- is the one built of what the checks have found.
  pub canonicalize-ok_iff :
      (event : PhysicalEvent) (received_at : Time) (fact : CanonicalFact)
      → (canonicalize event received_at ≡ ok fact) ↔ Accepted event received_at fact
  unfolding canonicalize
  canonicalize-ok_iff event received_at fact = (
    λ h. canonicalize-Accepted event received_at h,
    λ a.
        rw
          (
            a.subject_id, a.event_key, a.event_type_parsed, a.source_scope_parsed, a.effective_time,
            a.modification_time, a.source_sequence, a.revision_number, a.attributes_read,
            a.hash_made,
          )
          (ap ok a.built),
  )
