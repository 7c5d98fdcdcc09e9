-- ===== src/Base/Json.antt =====
-- Values of JSON as `encoding/json` decodes them: an object has each of its keys once.
use token_route.Base.{Bool, Option, none, some, [], if◌then◌else◌}
use token_route.Base.Text.{Text, text_eq}

mutual
  pub data Json : Type 0 where
    null : Json
    bool : Bool → Json
    number : Text → Json
    text : Text → Json
    array : Items → Json
    object : Fields → Json

  pub data Items : Type 0 where
    no_items : Items
    item : Json → Items → Items

  pub data Fields : Type 0 where
    no_fields : Fields
    field : Text → Json → Fields → Fields

-- `b[key]`
unfoldable pub member : Text → Fields → Option Json
member key no_fields = none
member key (field k v fs) = let rest = member key fs in if text_eq k key then some v else rest

abbrev text_or_empty : Option Json → Text
text_or_empty none = []
text_or_empty (some v) = elim v [ text s ↦ s | _ ↦ [] ]

-- `v, _ := b[key].(string)`
unfoldable pub text_member : Text → Fields → Text
unfolding member
text_member key fs = text_or_empty (member key fs)

-- `delete(b, key)`
unfoldable pub delete_field : Text → Fields → Fields
delete_field key no_fields = no_fields
delete_field key (field k v fs) =
    let rest = delete_field key fs in if text_eq k key then rest else field k v rest

-- `b[key] = v`
unfoldable pub set_field : Text → Json → Fields → Fields
set_field key v no_fields = field key v no_fields
set_field key v (field k w fs) =
    let rest = set_field key v fs in if text_eq k key then field k v fs else field k w rest
