-- ===== src/Reconcile/Canonicalize/AttributeOrder.antt =====
-- attributesFromPayload does not depend on the order in which Go's map yields the attributes.
use deterministic_identity_r.Prelude.{◌≡◌, refl, ap, ◌∙◌, some, List, [], ◌∷◌, arith}
use deterministic_identity_r.Prelude.Comparison.{IsStrictWeak, is_lt-IsStrictWeak}
use deterministic_identity_r.Prelude.Text.{
  Text, text, text_ltb, compare_text-IsComparison, compare_text-eq, trim_space,
}
use deterministic_identity_r.Prelude.Dict.{Dict, lookup, insert, keys, IsUnique, SameMap, keys-perm}
use deterministic_identity_r.Prelude.Sort.{Sorter}
use deterministic_identity_r.Prelude.Sort.Uniqueness.{sort_slice_of_perm, TellsApart}
use deterministic_identity_r.Reconcile.Model.{Fields, entries, Value, object}
use deterministic_identity_r.Reconcile.Platform.{Platform}
use deterministic_identity_r.Reconcile.Canonicalize.Attributes.{
  scalar_at, store_scalar, collect_attributes, attributes_from_values, attributes_from_payload,
  attribute_values,
}

-- Texts are told apart by their order.
text_ltb-IsStrictWeak : IsStrictWeak text_ltb
unfolding text_ltb
text_ltb-IsStrictWeak = is_lt-IsStrictWeak compare_text-IsComparison

text_ltb-TellsApart : (l : List Text) → TellsApart text_ltb l
unfolding text_ltb
text_ltb-TellsApart l a b _ _ h k =
    compare_text-eq a b (ground (arith, compare_text-IsComparison.flips a b))

module _ ⦃p : Platform⦄ where
  scalar_at-SameMap : (k : Text) (m n : Dict Value) → SameMap m n → scalar_at k m ≡ scalar_at k n
  unfolding scalar_at
  scalar_at-SameMap k m n h = ground (arith, h k)

  collect_attributes-SameMap :
      (l : List Text) (m n : Dict Value) (seen attributes : Dict Text)
      → SameMap m n
      → collect_attributes l m seen attributes ≡ collect_attributes l n seen attributes
  unfolding collect_attributes
  collect_attributes-SameMap [] m n seen attributes h = refl
  collect_attributes-SameMap (k ∷ l) m n seen attributes h = ground (
    arith,
    scalar_at-SameMap k m n h,
    collect_attributes-SameMap l m n (insert (trim_space k) k seen)
        (store_scalar (trim_space k) (scalar_at k m) attributes) h,
  )

  module _ ⦃s : Sorter⦄ where
    pub attributes_from_values-SameMap :
        (m n : Dict Value)
        → IsUnique m
        → IsUnique n
        → SameMap m n
        → attributes_from_values m ≡ attributes_from_values n
    unfolding attributes_from_values
    attributes_from_values-SameMap m n u w h =
        ap (λ l. collect_attributes l m [] [])
          (sort_slice_of_perm s text_ltb-IsStrictWeak (text_ltb-TellsApart (keys m))
            (keys-perm m n u w h))
        ∙ collect_attributes-SameMap _ m n [] [] h

    -- Payloads whose attributes objects are one map, in whatever order its entries come, give the
    -- same attributes or the same error.
    pub attributes_from_payload-SameMap :
        (left right : Fields) (m n : Fields)
        → lookup (text "attributes") (entries left) ≡ some (object m)
        → lookup (text "attributes") (entries right) ≡ some (object n)
        → IsUnique (entries m)
        → IsUnique (entries n)
        → SameMap (entries m) (entries n)
        → attributes_from_payload left ≡ attributes_from_payload right
    attributes_from_payload-SameMap left right m n h k u w e =
        unfold attributes_from_payload attribute_values in
        cc (h, k, attributes_from_values-SameMap (entries m) (entries n) u w e)
