-- ===== src/Lifecycle/Calls/Moves.antt =====
-- pkg/lifecycle/vmm.go: the table of VMs as a state machine, and that each call makes a move of it.
use swarm_cracker.Prelude.{
  String, Option, none, some, lookup, insert, erase, string_eq, nat_eq, ◌==◌, ℤ, code_points, ◌≡◌,
  ◌⊎◌, refl, Bool-cases, Option-cases, Result-cases, inl, inr,
}
use swarm_cracker.Types.{Task}
use swarm_cracker.Lifecycle.{
  System, AnyConfig, nil_config, other_config, map_config, json_config, VmState, new, starting,
  running, stopping, stopped, crashed, VmInstance, exited, grace_expired, cancelled, ExitWait, Vms,
  set_state,
}
use swarm_cracker.Lifecycle.Waiting.{Waited-cases, wait_for_api_server, wait_for_shutdown}
use swarm_cracker.Lifecycle.Configure.{configure_vm}
use swarm_cracker.Lifecycle.Start.{
  action, socket_of, launch_vm, check_config, start_instance, configure_and_start, start,
}
use swarm_cracker.Lifecycle.Shutdown.{graceful_shutdown, hard_shutdown, shut_down}

-- The VM is in no transition.
abbrev pub IsAtRest : VmState → Type 0
IsAtRest new = Unit
IsAtRest running = Unit
IsAtRest stopped = Unit
IsAtRest crashed = Unit
IsAtRest starting = ⊥
IsAtRest stopping = ⊥

-- What Start, Stop and Remove do.
pub data Moves : Vms → Vms → Type 0 where
  stays : (vms : Vms) → Moves vms vms
  started :
      (vms : Vms) (id : String) (vm : VmInstance)
      → lookup id vms ≡ none
      → vm.state ≡ running
      → Moves vms (insert id vm vms)
  left_stopping :
      (vms : Vms) (id : String) (vm : VmInstance)
      → lookup id vms ≡ some vm
      → IsAtRest vm.state
      → Moves vms (set_state vm stopping id vms)
  was_stopped :
      (vms : Vms) (id : String) (vm : VmInstance)
      → lookup id vms ≡ some vm
      → IsAtRest vm.state
      → Moves vms (set_state vm stopped id (set_state vm stopping id vms))
  removed :
      (vms : Vms) (id : String) (vm : VmInstance)
      → lookup id vms ≡ some vm
      → IsAtRest vm.state
      → Moves vms (erase id vms)

-- A process is found to have died, whatever the state of its VM.
pub data FindsDead : Vms → Vms → Type 0 where
  found_dead :
      (vms : Vms) (id : String) (vm : VmInstance)
      → lookup id vms ≡ some vm
      → FindsDead vms (set_state vm stopped id vms)

ExitWait-cases : (x : ExitWait) → (x ≡ exited) ⊎ ((x ≡ grace_expired) ⊎ (x ≡ cancelled))
ExitWait-cases exited = inl refl
ExitWait-cases grace_expired = inr (inl refl)
ExitWait-cases cancelled = inr (inr refl)

module _ {W : Type 0} (s : System W) where
  start_instance-Moves :
      (task : Task) (config : AnyConfig) (pid : ℤ) (socket : String) (vms : Vms) (w : W)
      → lookup task.id vms ≡ none
      → Moves vms (start_instance s task config pid socket vms w).1
  unfolding start_instance
  start_instance-Moves task config pid socket vms w fresh =
      elim (Result-cases (s.put socket (code_points "actions") (action "InstanceStart") w).0) [
        | inr (e, bad) ↦ rw (start_instance, bad) (stays vms)
        | inl (status, done) ↦ elim (Bool-cases (status == 204)) [
          | inl accepted ↦ rw (start_instance, done, accepted) (started vms task.id _ fresh refl)
          | inr refused ↦ rw (start_instance, done, refused) (stays vms)
        ]
      ]

  configure_and_start-Moves :
      (task : Task) (config : AnyConfig) (pid : ℤ) (socket : String) (vms : Vms) (w : W)
      → lookup task.id vms ≡ none
      → Moves vms (configure_and_start s task config pid socket vms w).1
  unfolding configure_and_start
  configure_and_start-Moves task config pid socket vms w fresh =
      let w₁ = (wait_for_api_server s socket w).1 in
      elim (Waited-cases (wait_for_api_server s socket w).0) [
        | inr (inl late) ↦ rw (configure_and_start, late) (stays vms)
        | inr (inr out) ↦ rw (configure_and_start, out) (stays vms)
        | inl up ↦ elim (Option-cases (configure_vm s socket config w₁).0) [
          | inr (e, bad) ↦ rw (configure_and_start, up, bad) (stays vms)
          | inl fine ↦
              rw (configure_and_start, up, fine)
                (start_instance-Moves task config pid socket vms _ fresh)
        ]
      ]

  launch_vm-Moves :
      (task : Task) (config : AnyConfig) (socket : String) (vms : Vms) (w : W)
      → lookup task.id vms ≡ none
      → Moves vms (launch_vm s task config socket vms w).1
  launch_vm-Moves task config socket vms w fresh =
      elim (Result-cases (s.look_path "firecracker" w)) [
        | inr (e, bad) ↦ rw (launch_vm, bad) (stays vms)
        | inl (binary, found) ↦ elim (Result-cases (s.launch binary socket w).0) [
          | inr (e, bad) ↦ rw (launch_vm, found, bad) (stays vms)
          | inl (pid, done) ↦
              rw (launch_vm, found, done)
                (configure_and_start-Moves task config pid socket vms _ fresh)
        ]
      ]

  check_config-Moves :
      (task : Task) (config : AnyConfig) (socket : String) (vms : Vms) (w : W)
      → lookup task.id vms ≡ none
      → Moves vms (check_config s task config socket vms w).1
  check_config-Moves task nil_config socket vms w fresh = stays vms
  check_config-Moves task other_config socket vms w fresh =
      launch_vm-Moves task other_config socket vms w fresh
  check_config-Moves task (map_config m) socket vms w fresh =
      launch_vm-Moves task (map_config m) socket vms w fresh
  check_config-Moves task (json_config j) socket vms w fresh =
      launch_vm-Moves task (json_config j) socket vms w fresh

  pub start-Moves :
      (socket_dir : String) (task : Option Task) (config : AnyConfig) (vms : Vms) (w : W)
      → Moves vms (start s socket_dir task config vms w).1
  unfolding start
  start-Moves socket_dir none config vms w = stays vms
  start-Moves socket_dir (some task) config vms w = elim (Option-cases (lookup task.id vms)) [
    | inr (vm, known) ↦ rw (start, known) (stays vms)
    | inl fresh ↦
        rw (start, fresh)
          (check_config-Moves task config (socket_of s socket_dir task.id) vms _ fresh)
  ]

  module _ (id : String) (vm : VmInstance) (vms : Vms) (found : lookup id vms ≡ some vm)
      (rested : IsAtRest vm.state) where
    graceful_shutdown-Moves :
        (w : W) → Moves vms (graceful_shutdown s id vm (set_state vm stopping id vms) w).1
    unfolding graceful_shutdown
    graceful_shutdown-Moves w =
        let left : Moves vms (set_state vm stopping id vms) =
          left_stopping vms id vm found rested in
        elim (Option-cases (s.find_process vm.pid w)) [
          | inr (e, bad) ↦ rw (graceful_shutdown, bad) left
          | inl there ↦
              let w₁ = (s.terminate vm.pid w).1 in
              elim (Option-cases (s.terminate vm.pid w).0) [
                | inr (e, bad) ↦ rw (graceful_shutdown, there, bad) left
                | inl sent ↦ elim (ExitWait-cases (s.await_exit vm.pid vm.grace_period_sec w₁).0) [
                  | inl gone ↦
                      rw (graceful_shutdown, there, sent, gone) (was_stopped vms id vm found rested)
                  | inr (inl late) ↦ rw (graceful_shutdown, there, sent, late) left
                  | inr (inr over) ↦ rw (graceful_shutdown, there, sent, over) left
                ]
              ]
        ]

    hard_shutdown-Moves :
        (w : W) → Moves vms (hard_shutdown s id vm (set_state vm stopping id vms) w).1
    unfolding hard_shutdown
    hard_shutdown-Moves w =
        let left : Moves vms (set_state vm stopping id vms) =
          left_stopping vms id vm found rested in
        let sent = s.put vm.socket_path (code_points "actions") (action "SendCtrlAltDel") w in
        elim (Result-cases sent.0) [
          | inr (e, bad) ↦ rw (hard_shutdown, bad) left
          | inl (status, done) ↦
              elim (Bool-cases (s.timer_first (wait_for_shutdown s vm.socket_path sent.1).1)) [
                | inl late ↦ rw (hard_shutdown, done, late) left
                | inr gone ↦ rw (hard_shutdown, done, gone) (was_stopped vms id vm found rested)
              ]
        ]

    pub shut_down-Moves : (w : W) → Moves vms (shut_down s id vm (set_state vm stopping id vms) w).1
    shut_down-Moves w = elim (Bool-cases (vm.init_system == "none")) [
      | inl plain ↦ rw (shut_down, plain) (hard_shutdown-Moves w)
      | inr init ↦ rw (shut_down, init) (graceful_shutdown-Moves w)
    ]
