-- ===== src/Reconcile/Projection/Invariant.antt =====
-- What the projections of a list of facts are: each subject's own facts, folded in order.
use deterministic_identity_r.Prelude.{
  ◌≡◌, ◌≢◌, refl, sym, ap, subst, ◌∙◌, Bool, true, false, if◌then◌else◌, Option, none, some, List,
  [], ◌∷◌, arith, Bool-cases, inl, inr,
}
use deterministic_identity_r.Prelude.Text.{Text, text_eq, text_eq_iff}
use deterministic_identity_r.Prelude.Dict.{Dict, lookup, insert, insert_all, lookup-insert}
use deterministic_identity_r.Reconcile.Model.{
  EventType, hire, rehire, data_update, leave, return_from_leave, conversion, transfer, termination,
  LifecycleState, unset, unknown, active, on_leave, terminated, CanonicalFact, IdentityProjection,
}
use deterministic_identity_r.Reconcile.Projection.{
  new_projection, apply_lifecycle, apply_fact, or_new, project,
}

-- The facts of one subject, folded into its projection.
abbrev pub fold_subject :
    Text → List CanonicalFact → Option IdentityProjection → Option IdentityProjection
fold_subject k [] o = o
fold_subject k (f ∷ fs) o =
    fold_subject k fs (if text_eq f.subject_id k then some (apply_fact (or_new k o) f) else o)

-- The projection of a subject is the fold of that subject's facts alone, in the order of the list.
pub lookup-project :
    (k : Text) (facts : List CanonicalFact) (m : Dict IdentityProjection)
    → lookup k (project facts m) ≡ fold_subject k facts (lookup k m)
unfolding project
lookup-project k [] m = refl
lookup-project k (f ∷ fs) m =
    let next = insert f.subject_id (apply_fact (or_new f.subject_id (lookup f.subject_id m)) f) m in
    elim (Bool-cases (text_eq f.subject_id k)) [
      | inl e ↦ ground (
        arith,
        lookup-project k fs next,
        text_eq_iff f.subject_id k,
        lookup-insert f.subject_id k (apply_fact (or_new f.subject_id (lookup f.subject_id m)) f) m,
      )
      | inr e ↦ ground (
        arith,
        lookup-project k fs next,
        lookup-insert f.subject_id k (apply_fact (or_new f.subject_id (lookup f.subject_id m)) f) m,
      )
    ]

-- The lifecycle state after a list of facts of one subject: that of the last lifecycle event.
abbrev pub state_after : LifecycleState → EventType → LifecycleState
state_after s hire = active
state_after s rehire = active
state_after s leave = on_leave
state_after s return_from_leave = active
state_after s termination = terminated
state_after s data_update = s
state_after s conversion = s
state_after s transfer = s

abbrev pub is_active : LifecycleState → Bool
is_active active = true
is_active _ = false

abbrev pub is_set : LifecycleState → Bool
is_set unset = false
is_set _ = true

-- An account exists once a lifecycle event has been applied and is enabled exactly in the active
-- state; the state is never `unknown`.
pub record IsCoherent (k : Text) (p : IdentityProjection) : Type 0 where
  pub subject_id : p.subject_id ≡ k
  pub exists : p.exists ≡ is_set p.lifecycle_state
  pub enabled : p.enabled ≡ is_active p.lifecycle_state
  pub known : p.lifecycle_state ≢ unknown

new_projection-IsCoherent : (k : Text) → IsCoherent k (new_projection k)
new_projection-IsCoherent k = record {
  subject_id = refl;
  exists = refl;
  enabled = refl;
  known = λ e. cc;
}

apply_lifecycle-IsCoherent :
    (k : Text) (t : EventType) (p : IdentityProjection)
    → IsCoherent k p
    → IsCoherent k (apply_lifecycle t p)
unfolding apply_lifecycle
apply_lifecycle-IsCoherent k hire p h = ground arith
apply_lifecycle-IsCoherent k rehire p h = ground arith
apply_lifecycle-IsCoherent k leave p h = ground arith
apply_lifecycle-IsCoherent k return_from_leave p h = ground arith
apply_lifecycle-IsCoherent k termination p h = ground arith
apply_lifecycle-IsCoherent k _ p h = h

state-apply_lifecycle :
    (t : EventType) (p : IdentityProjection)
    → (apply_lifecycle t p).lifecycle_state ≡ state_after p.lifecycle_state t
unfolding apply_lifecycle
state-apply_lifecycle hire p = refl
state-apply_lifecycle _ p = refl

pub apply_fact-IsCoherent :
    (k : Text) (p : IdentityProjection) (f : CanonicalFact)
    → IsCoherent k p
    → IsCoherent k (apply_fact p f)
unfolding apply_fact
apply_fact-IsCoherent k p f h =
    let q = record p { attributes = insert_all f.attributes p.attributes } in
    let c = apply_lifecycle-IsCoherent k f.event_type q (record {
      subject_id = h.subject_id;
      exists = h.exists;
      enabled = h.enabled;
      known = h.known;
    }) in
    record { subject_id = c.subject_id; exists = c.exists; enabled = c.enabled; known = c.known }

-- The lifecycle state of an optional projection.
abbrev pub state_of : Option IdentityProjection → LifecycleState
state_of none = unset
state_of (some p) = p.lifecycle_state

-- The lifecycle state that the events of one subject lead to.
abbrev pub subject_state : Text → List CanonicalFact → LifecycleState → LifecycleState
subject_state k [] s = s
subject_state k (f ∷ fs) s =
    subject_state k fs (if text_eq f.subject_id k then state_after s f.event_type else s)

-- What is known of an optional projection.
abbrev pub Coherent? : Text → Option IdentityProjection → Type 0
Coherent? k none = Unit {0}
Coherent? k (some p) = IsCoherent k p

or_new-IsCoherent :
    (k : Text) (o : Option IdentityProjection) → Coherent? k o → IsCoherent k (or_new k o)
or_new-IsCoherent k none h = new_projection-IsCoherent k
or_new-IsCoherent k (some p) h = h

fold_subject-Coherent :
    (k : Text) (fs : List CanonicalFact) (o : Option IdentityProjection)
    → Coherent? k o
    → Coherent? k (fold_subject k fs o)
fold_subject-Coherent k [] o h = h
fold_subject-Coherent k (f ∷ fs) o h = elim (Bool-cases (text_eq f.subject_id k)) [
  | inl e ↦ rw e (
      fold_subject-Coherent k fs (some (apply_fact (or_new k o) f))
        (apply_fact-IsCoherent k (or_new k o) f (or_new-IsCoherent k o h)))
  | inr e ↦ rw e (fold_subject-Coherent k fs o h)
]

state-apply_fact :
    (p : IdentityProjection) (f : CanonicalFact)
    → (apply_fact p f).lifecycle_state ≡ state_after p.lifecycle_state f.event_type
unfolding apply_fact
state-apply_fact p f = state-apply_lifecycle f.event_type _

state-or_new :
    (k : Text) (o : Option IdentityProjection) → (or_new k o).lifecycle_state ≡ state_of o
state-or_new k none = refl
state-or_new k (some p) = refl

state-fold_subject :
    (k : Text) (fs : List CanonicalFact) (o : Option IdentityProjection)
    → state_of (fold_subject k fs o) ≡ subject_state k fs (state_of o)
state-fold_subject k [] o = refl
state-fold_subject k (f ∷ fs) o = elim (Bool-cases (text_eq f.subject_id k)) [
  | inl e ↦ rw e (
      state-fold_subject k fs (some (apply_fact (or_new k o) f))
      ∙ ap (subject_state k fs) (
          state-apply_fact (or_new k o) f
          ∙ ap (λ s. state_after s f.event_type) (state-or_new k o)))
  | inr e ↦ rw e (state-fold_subject k fs o)
]

-- Every projection of a batch is filed under its subject, and its three lifecycle fields agree: the
-- state is what the lifecycle events of the subject lead to, in the order of the facts, the
-- account exists if there was one, and is enabled exactly in the active state.
pub project-IsCoherent :
    (k : Text) (facts : List CanonicalFact) (p : IdentityProjection)
    → lookup k (project facts []) ≡ some p
    → IsCoherent k p × (p.lifecycle_state ≡ subject_state k facts unset)
unfolding lookup
project-IsCoherent k facts p h =
    let e = sym (lookup-project k facts []) ∙ h in
    (
      subst (Coherent? k) e (fold_subject-Coherent k facts none tt),
      sym (ap state_of e) ∙ state-fold_subject k facts none,
    )
