-- ===== src/Reconcile/Model/Payload.antt =====
-- The values of a `map[string]any` payload: what JSON decodes to, and the `map[string]string` that
-- a caller of the library may pass.
use deterministic_identity_r.Prelude.{ℕ, Bool, [], ◌∷◌}
use deterministic_identity_r.Prelude.Text.{Text}
use deterministic_identity_r.Prelude.Dict.{Dict}

-- `number` is a json.Number by its spelling, `float` a float64 by its bits.
mutual
  pub data Value : Type 0 where
    null : Value
    bool : Bool → Value
    string : Text → Value
    number : Text → Value
    float : ℕ → Value
    array : Items → Value
    object : Fields → Value
    string_map : Dict Text → Value

  pub data Items : Type 0 where
    nil : Items
    cons : Value → Items → Items

  pub data Fields : Type 0 where
    end : Fields
    field : Text → Value → Fields → Fields

unfoldable pub entries : Fields → Dict Value
entries end = []
entries (field key value rest) = (key, value) ∷ entries rest
