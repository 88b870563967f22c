-- ===== src/Json.antt =====
-- JSON values: what a `dict[str, Any]` payload holds.
use inbar.Prelude.{String, List, [], ◌∷◌, Bool, string_discrete}

mutual
  pub data Json : Type 0 where
    null : Json
    boolean : Bool → Json
    number : String → Json  -- by its text
    text : String → Json
    array : Items → Json
    object : Fields → Json

  pub data Items : Type 0 where
    nil : Items
    cons : Json → Items → Items

  pub data Fields : Type 0 where
    end : Fields
    field : String → Json → Fields → Fields

pub Fields-discrete : Discrete Fields
Fields-discrete = hlevel string_discrete

-- The keys of one object, in order.
abbrev pub keys : Fields → List String
keys end = []
keys (field k v fs) = k ∷ keys fs
