-- ===== src/Swarmkit/Convert.antt =====
-- pkg/swarmkit/executor.go: `convertTask`, which turns a task of SwarmKit into the internal one.
use Prim.Native.String.{◌++◌ as text_append}
use swarm_cracker.Prelude.{
  String, List, [], ◌∷◌, Option, none, some, lookup, string_eq, ◌==◌, map, if◌then◌else◌, ◌≡◌,
  arith,
}
use swarm_cracker.Types.{
  no_restart, no_placement, no_status, SecretRef, ConfigRef, Mount, container_runtime,
  ResourceRequirements, DriverConfig, NetworkAttachment, Task,
}
use swarm_cracker.Swarmkit.Api.{
  ApiTarget, no_file, file_target, ApiReference, ApiMount, ApiContainer, api_container, api_other,
  ApiRequirements, ApiDriver, ApiNetwork, ApiAttachment, ApiTask,
}

-- The name of the file target, if it has one, or else the default.
unfoldable pub target_path : ApiTarget → String → String
target_path no_file default = default
target_path (file_target none) default = default
target_path (file_target (some name)) default = if name == "" then default else name

abbrev pub convert_secret : ApiReference → SecretRef
convert_secret r = record {
  id = r.id;
  name = r.name;
  target = target_path r.target (text_append "/run/secrets/" r.name);
  contents = [];
}

abbrev pub convert_config : ApiReference → ConfigRef
convert_config r = record {
  id = r.id;
  name = r.name;
  target = target_path r.target (text_append "/config/" r.name);
  contents = [];
}

unfoldable pub convert_secrets : ApiTask → List SecretRef
convert_secrets task = elim task.runtime [
  | api_other ↦ []
  | api_container none ↦ []
  | api_container (some c) ↦ map convert_secret c.secrets
]

unfoldable pub convert_configs : ApiTask → List ConfigRef
convert_configs task = elim task.runtime [
  | api_other ↦ []
  | api_container none ↦ []
  | api_container (some c) ↦ map convert_config c.configs
]

abbrev pub convert_mount : ApiMount → Mount
convert_mount m = record { target = m.target; source = m.source; read_only = m.read_only }

abbrev pub convert_resources : Option ApiRequirements → ResourceRequirements
convert_resources none = record { limits = none; reservations = none }
convert_resources (some r) = elim r.reservations [
  | none ↦ record { limits = none; reservations = none }
  | some held ↦ record {
    limits = none;
    reservations = some (record { nano_cpus = held.nano_cpus; memory_bytes = held.memory_bytes });
  }
]

unfoldable pub network_driver : ApiNetwork → String
network_driver n = elim n.driver_state [
  | some state ↦ state.name
  | none ↦ elim n.driver_config [ some config ↦ config.name | none ↦ "bridge" ]
]

-- The bridge's name comes from the options of the driver's configuration.
unfoldable pub convert_driver_config : Option ApiDriver → Option DriverConfig
convert_driver_config none = none
convert_driver_config (some config) = elim config.options [
  | none ↦ none
  | some options ↦ elim (lookup "bridge" options) [
    | none ↦ some (record { bridge = none })
    | some bridge ↦ some (record { bridge = some (record { name = bridge }) })
  ]
]

abbrev pub convert_attachment : ApiNetwork → List String → NetworkAttachment
convert_attachment n addresses = record {
  network = record {
    id = n.id;
    spec = record {
      name = n.name;
      driver = network_driver n;
      driver_config = convert_driver_config n.driver_config;
    };
  };
  addresses = addresses;
}

-- Attachments that are nil or have no network are left out.
unfoldable pub convert_networks : List (Option ApiAttachment) → List NetworkAttachment
convert_networks [] = []
convert_networks (none ∷ rest) = convert_networks rest
convert_networks (some a ∷ rest) =
    let others = convert_networks rest in
    elim a.network [ none ↦ others | some n ↦ convert_attachment n a.addresses ∷ others ]

abbrev pub minimal_task : ApiTask → Task
minimal_task t = record {
  id = t.id;
  service_id = t.service_id;
  node_id = t.node_id;
  spec = record {
    runtime =
        container_runtime (record { image = ""; command = []; args = []; env = []; mounts = [] });
    runtime_type = "";
    resources = record { limits = none; reservations = none };
    restart = no_restart;
    placement = no_placement;
  };
  status = no_status;
  networks = [];
  secrets = [];
  configs = [];
  annotations = [];
}

abbrev pub container_task : ApiTask → ApiContainer → Task
container_task t c = record {
  id = t.id;
  service_id = t.service_id;
  node_id = t.node_id;
  spec = record {
    runtime = container_runtime (record {
      image = c.image;
      command = c.command;
      args = c.args;
      env = c.env;
      mounts = map convert_mount c.mounts;
    });
    runtime_type = "";
    resources = convert_resources t.resources;
    restart = no_restart;
    placement = no_placement;
  };
  status = no_status;
  networks = convert_networks t.networks;
  secrets = convert_secrets t;
  configs = convert_configs t;
  annotations = [];
}

unfoldable pub convert_task : ApiTask → Task
convert_task t = elim t.runtime [
  | api_other ↦ minimal_task t
  | api_container none ↦ minimal_task t
  | api_container (some c) ↦ container_task t c
]

-- What every conversion has in common.
pub annotations-convert_task : (t : ApiTask) → (convert_task t).annotations ≡ []
unfolding convert_task
annotations-convert_task t = ground arith

pub id-convert_task : (t : ApiTask) → (convert_task t).id ≡ t.id
unfolding convert_task
id-convert_task t = ground arith
