-- ===== src/Reconcile/Resolve/Decided.antt =====
-- The decision loop maps each kept fact to one decision, and a rearrangement of the facts
-- rearranges the decisions.
use mathlib.Core.List.{Mem, mem-cons_self, mem-cons_of_mem, Perm}
use mathlib.Core.List.Perm
use deterministic_identity_r.Prelude.{
  ◌≡◌, ◌↔◌, refl, ap, Bool, true, if◌then◌else◌, List, [], ◌∷◌, map, arith, Bool-cases, inl, inr,
  ok,
}
use deterministic_identity_r.Prelude.Dict.{Dict}
use deterministic_identity_r.Reconcile.Model.{
  CanonicalFact, EventResolution, skip, duplicate_or_older,
}
use deterministic_identity_r.Reconcile.Policy.{Policy, validate, evaluate, decide_fact}
use deterministic_identity_r.Reconcile.Resolve.{
  resolution, winners_of, is_winner, decide, decide_all,
}
use deterministic_identity_r.Reconcile.Resolve.Dominance.{KeysTell, CarryKeys, is_winner_iff}

-- The decision on a kept fact, under a valid policy.
abbrev pub decision : Policy → Bool → CanonicalFact → EventResolution
decision policy wins fact =
    if wins
    then resolution fact (decide_fact policy fact).0 (decide_fact policy fact).1
    else resolution fact skip duplicate_or_older

module _ (policy : Policy) (sound : validate policy ≡ ok tt) where
  decide-decision :
      (winners : Dict CanonicalFact) (f : CanonicalFact)
      → decide policy winners f ≡ ok (decision policy (is_winner winners f) f)
  unfolding decide evaluate
  decide-decision winners f = elim (Bool-cases (is_winner winners f)) [
    | inl h ↦ rw (h, sound)
    | inr h ↦ rw h
  ]

  pub decide_all-map :
      (winners : Dict CanonicalFact) (facts : List CanonicalFact)
      → decide_all policy winners facts
        ≡ ok (map (λ f. decision policy (is_winner winners f) f) facts)
  unfolding decide_all
  decide_all-map winners [] = refl
  decide_all-map winners (f ∷ facts) = rw (decide-decision winners f, decide_all-map winners facts)

same_winner :
    (fs gs : List CanonicalFact) (f : CanonicalFact)
    → (is_winner (winners_of fs) f ≡ true) ↔ (is_winner (winners_of gs) f ≡ true)
    → is_winner (winners_of fs) f ≡ is_winner (winners_of gs) f
same_winner fs gs f h = ground arith

map_congr :
    {A B : Type 0} (g h : A → B) (l : List A) → ((a : A) → Mem a l → g a ≡ h a) → map g l ≡ map h l
map_congr g h [] e = refl
map_congr g h (a ∷ l) e = cc (e a mem-cons_self, map_congr g h l (λ b m. e b (mem-cons_of_mem a m)))

module _ (fs gs : List CanonicalFact) (p : Perm fs gs) (tell : KeysTell fs)
    (carry : CarryKeys fs) where
  -- Whether a fact wins does not depend on the order of the facts.
  pub is_winner_of_perm :
      (f : CanonicalFact) → Mem f fs → is_winner (winners_of fs) f ≡ is_winner (winners_of gs) f
  is_winner_of_perm f m =
      let to = (Perm.mem_iff p).0 in
      let from = λ (g : CanonicalFact) (n : Mem g gs). (Perm.mem_iff p).1 n in
      let left = is_winner_iff fs tell carry f m in
      let right =
        is_winner_iff gs (λ a b ma mb. tell a b (from a ma) (from b mb)) (λ g n. carry g (from g n))
          f (to m) in
      same_winner fs gs f (
        λ h. right.1 (λ g n. left.0 h g (from g n)),
        λ h. left.1 (λ g n. right.0 h g ((Perm.mem_iff p).0 n)),
      )

  pub decisions-perm :
      (policy : Policy)
      → Perm
          (map (λ f. decision policy (is_winner (winners_of fs) f) f) fs)
          (map (λ f. decision policy (is_winner (winners_of gs) f) f) gs)
  decisions-perm policy =
      rw
        (map_congr (λ f. decision policy (is_winner (winners_of fs) f) f)
          (λ f. decision policy (is_winner (winners_of gs) f) f) fs
          (λ f m. ap (λ w. decision policy w f) (is_winner_of_perm f m)))
        (Perm.map _ p)
