-- ===== src/Reconcile/Resolve/Finish.antt =====
-- The last loops: the projections of a rearranged list of decisions are the same.
use mathlib.Core.Logic.Or
use mathlib.Core.List.{
  Mem, Mem-prop, mem-cons, mem-cons_self, mem-cons_of_mem, not-mem-nil, Perm, filter_map,
}
use mathlib.Core.List.Perm
use deterministic_identity_r.Prelude.{
  ◌≡◌, refl, sym, ap, ◌∙◌, if◌then◌else◌, Option, none, some, List, [], ◌∷◌, map, arith, Bool-cases,
  inl, inr,
}
use deterministic_identity_r.Prelude.Sort.{Sorter}
use deterministic_identity_r.Prelude.Sort.Uniqueness.{sort_slice_of_perm, TellsApart}
use deterministic_identity_r.Reconcile.Model.{CanonicalFact, EventResolution}
use deterministic_identity_r.Reconcile.Projection.{project}
use deterministic_identity_r.Reconcile.Resolve.{
  is_process_now, accepted_facts, decision_less, fact_less, finish,
}
use deterministic_identity_r.Reconcile.Resolve.Sorting.{decision_key, keys_of_perm}
use deterministic_identity_r.Reconcile.Resolve.Order.{fact_less-IsStrictWeak, fact_less-neither}
use deterministic_identity_r.Reconcile.Resolve.Dominance.{KeysTell, CarryKeys}

abbrev accept : EventResolution → Option CanonicalFact
accept d = if is_process_now d.action then some d.fact else none

accepted_facts-filter_map : (ds : List EventResolution) → accepted_facts ds ≡ filter_map accept ds
unfolding accepted_facts filter_map
accepted_facts-filter_map [] = refl
accepted_facts-filter_map (d ∷ ds) = ground (arith, accepted_facts-filter_map ds)

accepted_facts-perm :
    {ds es : List EventResolution} → Perm ds es → Perm (accepted_facts ds) (accepted_facts es)
accepted_facts-perm p = simp accepted_facts-filter_map (Perm.filter_map accept p)

-- Each decision is about a fact of the list.
abbrev pub Concerns : List CanonicalFact → List EventResolution → Type 0
Concerns fs ds = (d : EventResolution) → Mem d ds → Mem d.fact fs

pub mem_of_accepted :
    (fs : List CanonicalFact) (ds : List EventResolution)
    → Concerns fs ds
    → (f : CanonicalFact) → Mem f (accepted_facts ds)
    → Mem f fs
unfolding accepted_facts
mem_of_accepted fs [] h f m = absurd (not-mem-nil m)
mem_of_accepted fs (d ∷ ds) h f m = elim (Bool-cases (is_process_now d.action)) [
  | inl e ↦
      Or.elim Mem-prop (mem-cons.0 (rw e at m)) (λ same. rw same (h d mem-cons_self))
        (λ t. mem_of_accepted fs ds (λ x n. h x (mem-cons_of_mem d n)) f t)
  | inr e ↦ mem_of_accepted fs ds (λ x n. h x (mem-cons_of_mem d n)) f (rw e at m)
]

accepted-TellsApart :
    (fs l : List CanonicalFact)
    → KeysTell fs
    → CarryKeys fs
    → ((f : CanonicalFact) → Mem f l → Mem f fs)
    → TellsApart fact_less l
accepted-TellsApart fs l tell carry inside a b ma mb h k =
    tell a b (inside a ma) (inside b mb)
      (sym (carry a (inside a ma)) ∙ fact_less-neither a b h k ∙ carry b (inside b mb))

module _ ⦃s : Sorter⦄ where
  pub finish-perm :
      (fs : List CanonicalFact) (ds es : List EventResolution)
      → KeysTell fs
      → CarryKeys fs
      → Concerns fs ds
      → Perm ds es
      → Perm (finish ds).decisions (finish es).decisions
        × (map decision_key (finish ds).decisions ≡ map decision_key (finish es).decisions)
        × ((finish ds).projections ≡ (finish es).projections)
  unfolding finish
  finish-perm fs ds es tell carry about p =
      let sorted_ds = s.sort_slice-perm decision_less ds in
      let sorted_es = s.sort_slice-perm decision_less es in
      let whole = Perm.trans sorted_ds (Perm.trans p (Perm.symm sorted_es)) in
      (
        whole,
        keys_of_perm s whole,
        ap (λ l. project l [])
            (sort_slice_of_perm s fact_less-IsStrictWeak
              (accepted-TellsApart fs (accepted_facts (s.sort_slice decision_less ds)) tell carry (
                mem_of_accepted fs (s.sort_slice decision_less ds)
                  (λ d m. about d ((Perm.mem_iff sorted_ds).0 m))))
              (accepted_facts-perm whole)),
      )
