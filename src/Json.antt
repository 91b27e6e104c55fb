-- ===== src/Json.antt =====
-- The values that the services take from and put into JSON. A text is the list of its characters, and
-- an object the list of its fields.
use Prim.Native.Char.{Char}
use zyntry_backend.Prelude.{String, Bool, true, false, ◌||◌, List, [], ◌∷◌}
use zyntry_backend.Prelude.Int.{ℤ, pos, ltb_ℤ}

mutual
  pub data Json : Type 0 where
    null : Json
    boolean : Bool → Json
    number : ℤ → Json
    text : List Char → Json
    array : Items → Json
    object : Fields → Json

  pub data Items : Type 0 where
    no_items : Items
    item : Json → Items → Items

  pub data Fields : Type 0 where
    no_fields : Fields
    field : String → Json → Fields → Fields

-- `bool(value)`
unfoldable pub truthy : Json → Bool
truthy null = false
truthy (boolean b) = b
truthy (number z) = ltb_ℤ z (pos 0) || ltb_ℤ (pos 0) z
truthy (text []) = false
truthy (text (c ∷ cs)) = true
truthy (array no_items) = false
truthy (array (item j js)) = true
truthy (object no_fields) = false
truthy (object (field k j fs)) = true

abbrev pub is_null : Json → Bool
is_null null = true
is_null _ = false
