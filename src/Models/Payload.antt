-- ===== src/Models/Payload.antt =====
-- The values that a `dict[str, Any]` of src/mycoagent/models.py holds.
use myco_agent.Common.{ℕ, String, Bool, Option, none, some, List, [], ◌∷◌, ◌==◌, if◌then◌else◌}

mutual
  pub data Json : Type 0 where
    null : Json
    bool : Bool → Json
    num : ℕ → Json
    -- any other number, by its text, and whether Python's `bool` of it is true
    other_num : (shown : String) → (nonzero : Bool) → Json
    text : String → Json
    arr : Items → Json
    obj : Fields → Json

  pub data Items : Type 0 where
    nil : Items
    cons : Json → Items → Items

  pub data Fields : Type 0 where
    end : Fields
    field : String → Json → Fields → Fields

-- `payload[key] = value`
unfoldable pub set_field : String → Json → Fields → Fields
set_field key value end = field key value end
set_field key value (field k v rest) =
    let changed = set_field key value rest in
    if k == key then field k value rest else field k v changed

unfoldable pub texts : List String → Items
texts [] = nil
texts (t ∷ ts) = cons (text t) (texts ts)

unfoldable pub optional_text : Option String → Json
optional_text none = null
optional_text (some t) = text t
