-- ===== src/Lifecycle/Configure.antt =====
-- pkg/lifecycle/vmm.go, configureVM: the requests that configure a VM.
use swarm_cracker.Prelude.{
  ℕ, String, Bool, ◌||◌, Option, none, some, ◌++◌, nat_eq, ◌==◌, Result, ok, err, if◌then◌else◌,
  code_points,
}
use swarm_cracker.Image.Text.{Text, is_empty}
use swarm_cracker.Json.{Json, Fields, Items, text, array, object, end, item, get_field}
use swarm_cracker.Swarmkit.Controller.{GoError}
use swarm_cracker.Lifecycle.{
  System, AnyConfig, nil_config, other_config, map_config, json_config, ConfigureError, bad_json,
  bad_type, boot_source_failed, boot_source_status, machine_config_failed, machine_config_status,
  drive_url, drive_failed, drive_status,
}

-- 204 No Content and 200 OK
abbrev accepted : ℕ → Bool
accepted status = (status == 204) || (status == 200)

abbrev answer :
    {W : Type 0}
    → (GoError → ConfigureError)
    → (ℕ → ConfigureError)
    → Result GoError ℕ × W
    → Option ConfigureError × W
answer failed refused (err e, w) = (some (failed e), w)
answer failed refused (ok status, w) =
    if accepted status then (none, w) else (some (refused status), w)

-- A section that is an object, or else nothing to be sent.
abbrev as_object : Option Json → Option Fields
as_object (some (object fields)) = some fields
as_object other = none

abbrev as_array : Option Json → Items
as_array (some (array items)) = items
as_array other = end

-- The identifier of a drive, if it is a text that is not empty.
abbrev pub id_text : Json → Option Text
id_text (text id) = if is_empty id then none else some id
id_text other = none

abbrev pub drive_id_of : Json → Option (Text × Fields)
drive_id_of (object drive) = elim (get_field "drive_id" drive) [
  | none ↦ none
  | some value ↦ elim (id_text value) [ none ↦ none | some id ↦ some (id, drive) ]
]
drive_id_of other = none

module _ {W : Type 0} (s : System W) (socket : String) where
  abbrev put_drive : Text → Fields → W → Option ConfigureError × W
  put_drive id drive w =
      let url = code_points "drives/" ++ id in
      if s.is_url url
      then answer (drive_failed id) (drive_status id) (s.put socket url (object drive) w)
      else (some (drive_url id), w)

  -- Values that are not drives with an identifier are passed over.
  unfoldable pub put_drives : Items → W → Option ConfigureError × W
  put_drives end w = (none, w)
  put_drives (item value rest) w = elim (drive_id_of value) [
    | none ↦ put_drives rest w
    | some (id, drive) ↦
        let (failure, w') = put_drive id drive w in
        elim failure [ some e ↦ (some e, w') | none ↦ put_drives rest w' ]
  ]

  abbrev put_section :
      String
      → (GoError → ConfigureError)
      → (ℕ → ConfigureError)
      → Fields
      → W
      → Option ConfigureError × W
  put_section key failed refused config w = elim (as_object (get_field key config)) [
    | none ↦ (none, w)
    | some fields ↦ answer failed refused (s.put socket (code_points key) (object fields) w)
  ]

  unfoldable pub put_config : Fields → W → Option ConfigureError × W
  put_config config w =
      let (e₁, w₁) = put_section "boot-source" boot_source_failed boot_source_status config w in
      elim e₁ [
        | some e ↦ (some e, w₁)
        | none ↦
            let (e₂, w₂) =
              put_section "machine-config" machine_config_failed machine_config_status config w₁ in
            elim e₂ [
              | some e ↦ (some e, w₂)
              | none ↦ put_drives (as_array (get_field "drives" config)) w₂
            ]
      ]

  unfoldable pub configure_vm : AnyConfig → W → Option ConfigureError × W
  configure_vm (map_config config) w = put_config config w
  configure_vm (json_config encoded) w = elim (s.unmarshal encoded) [
    | err e ↦ (some (bad_json e), w)
    | ok config ↦ put_config config w
  ]
  configure_vm nil_config w = (some bad_type, w)
  configure_vm other_config w = (some bad_type, w)
