-- ===== src/Json.antt =====
-- The values of Go's package encoding/json, as pkg/translator writes them and pkg/lifecycle reads
-- them. A value holds lists of values, so that lists and objects are types of their own.
use swarm_cracker.Prelude.{String, Bool, Option, none, some, ◌==◌, string_eq, if◌then◌else◌, ℤ}
use swarm_cracker.Image.Text.{Text}

mutual
  pub data Json : Type 0 where
    null : Json
    flag : Bool → Json
    number : ℤ → Json
    text : Text → Json
    array : Items → Json
    object : Fields → Json

  pub data Items : Type 0 where
    end : Items
    item : Json → Items → Items

  pub data Fields : Type 0 where
    nil : Fields
    field : String → Json → Fields → Fields

-- `v, ok := m[key]`
unfoldable pub get_field : String → Fields → Option Json
get_field wanted nil = none
get_field wanted (field key value rest) =
    if key == wanted then some value else get_field wanted rest
