-- ===== src/Lifecycle/Start.antt =====
-- pkg/lifecycle/vmm.go, Start.
use Prim.Native.String.{◌++◌ as text_append}
use swarm_cracker.Prelude.{
  ℕ, String, Option, none, some, lookup, insert, string_eq, nat_eq, ◌==◌, ok, err, if◌then◌else◌, ℤ,
  code_points,
}
use swarm_cracker.Types.{Task}
use swarm_cracker.Json.{Json, nil, field, text, object}
use swarm_cracker.Lifecycle.{
  System, AnyConfig, nil_config, other_config, map_config, json_config, VmInstance, running, Vms,
  VmmError, nil_task, already_exists, nil_configuration, binary_not_found, launch_failed,
  api_not_ready, configure_failed, start_failed, unexpected_status,
}
use swarm_cracker.Lifecycle.Waiting.{seen, expired, out_of_rounds, wait_for_api_server}
use swarm_cracker.Lifecycle.Configure.{configure_vm}

-- A request to act, such as "InstanceStart".
abbrev pub action : String → Json
action name = object (field "action_type" (text (code_points name)) nil)

abbrev init_system_of : Task → String
init_system_of task = elim (lookup "init_system" task.annotations) [
  | none ↦ "none"
  | some init_system ↦ init_system
]

module _ {W : Type 0} (s : System W) where
  abbrev pub socket_of : String → String → String
  socket_of socket_dir id = s.join_path socket_dir (text_append id ".sock")

  -- The deferred function: a process that did not become a VM is killed, and its socket removed.
  abbrev give_up : VmmError → ℤ → String → Vms → W → Option VmmError × Vms × W
  give_up e pid socket vms w = (some e, vms, s.remove_file socket (s.kill pid w).1)

  abbrev new_instance : Task → AnyConfig → ℤ → String → ℕ → VmInstance
  new_instance task config pid socket now = record {
    id = task.id;
    pid = pid;
    config = config;
    state = running;
    created_at = now;
    socket_path = socket;
    init_system = init_system_of task;
    grace_period_sec = 10;
  }

  unfoldable pub start_instance :
      Task → AnyConfig → ℤ → String → Vms → W → Option VmmError × Vms × W
  start_instance task config pid socket vms w =
      let (answer, w') = s.put socket (code_points "actions") (action "InstanceStart") w in
      elim answer [
        | err e ↦ give_up (start_failed e) pid socket vms w'
        | ok status ↦
            if status == 204
            then (none, insert task.id (new_instance task config pid socket (s.now w')) vms, w')
            else give_up (unexpected_status status) pid socket vms w'
      ]

  -- From the running process on.
  unfoldable pub configure_and_start :
      Task → AnyConfig → ℤ → String → Vms → W → Option VmmError × Vms × W
  configure_and_start task config pid socket vms w =
      let (waited, w₁) = wait_for_api_server s socket w in
      elim waited [
        | expired ↦ give_up api_not_ready pid socket vms w₁
        | out_of_rounds ↦ give_up api_not_ready pid socket vms w₁
        | seen ↦
            let (failure, w₂) = configure_vm s socket config w₁ in
            elim failure [
              | some e ↦ give_up (configure_failed e) pid socket vms w₂
              | none ↦ start_instance task config pid socket vms w₂
            ]
      ]

  abbrev pub launch_vm : Task → AnyConfig → String → Vms → W → Option VmmError × Vms × W
  launch_vm task config socket vms w = elim (s.look_path "firecracker" w) [
    | err e ↦ (some (binary_not_found e), vms, w)
    | ok binary ↦
        let (launched, w') = s.launch binary socket w in
        elim launched [
          | err e ↦ (some (launch_failed e), vms, w')
          | ok pid ↦ configure_and_start task config pid socket vms w'
        ]
  ]

  abbrev pub check_config : Task → AnyConfig → String → Vms → W → Option VmmError × Vms × W
  check_config task nil_config socket vms w = (some nil_configuration, vms, w)
  check_config task other_config socket vms w = launch_vm task other_config socket vms w
  check_config task (map_config m) socket vms w = launch_vm task (map_config m) socket vms w
  check_config task (json_config j) socket vms w = launch_vm task (json_config j) socket vms w

  unfoldable pub start : String → Option Task → AnyConfig → Vms → W → Option VmmError × Vms × W
  start socket_dir none config vms w = (some nil_task, vms, w)
  start socket_dir (some task) config vms w = elim (lookup task.id vms) [
    | some vm ↦ (some already_exists, vms, w)
    | none ↦
        let socket = socket_of socket_dir task.id in
        check_config task config socket vms (s.remove_file socket w)
  ]
