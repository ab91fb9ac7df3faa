-- ===== src/Lifecycle/Shutdown.antt =====
-- pkg/lifecycle/vmm.go: Stop and Remove. The select of gracefulShutdown and the goroutine that it
-- listens to are one answer of the system.
use swarm_cracker.Prelude.{
  String, Option, none, some, lookup, erase, string_eq, ◌==◌, ok, err, if◌then◌else◌, code_points,
}
use swarm_cracker.Types.{Task}
use swarm_cracker.Swarmkit.Controller.{GoError}
use swarm_cracker.Lifecycle.{
  System, VmState, new, starting, running, stopping, stopped, crashed, VmInstance, exited,
  grace_expired, cancelled, Vms, VmmError, nil_task, not_found, already_stopping, still_starting,
  kill_failed, cannot_remove, set_state,
}
use swarm_cracker.Lifecycle.Waiting.{wait_for_shutdown}
use swarm_cracker.Lifecycle.Start.{action}

abbrev as_vmm_error : Option GoError → Option VmmError
as_vmm_error none = none
as_vmm_error (some e) = some (kill_failed e)

module _ {W : Type 0} (s : System W) where
  unfoldable pub force_kill_vm : VmInstance → W → Option GoError × W
  force_kill_vm vm w = elim (s.find_process vm.pid w) [
    | some e ↦ (some e, w)
    | none ↦ s.kill vm.pid w
  ]

  -- A VM that is killed keeps its state.
  abbrev killed : VmInstance → Vms → W → Option VmmError × Vms × W
  killed vm vms w = let (failure, w') = force_kill_vm vm w in (as_vmm_error failure, vms, w')

  -- The table is that after Stop has set the state of the VM.
  unfoldable pub graceful_shutdown : String → VmInstance → Vms → W → Option VmmError × Vms × W
  graceful_shutdown id vm vms w = elim (s.find_process vm.pid w) [
    | some e ↦ killed vm vms w
    | none ↦
        let (failure, w₁) = s.terminate vm.pid w in
        elim failure [
          | some e ↦ killed vm vms w₁
          | none ↦
              let (outcome, w₂) = s.await_exit vm.pid vm.grace_period_sec w₁ in
              elim outcome [
                | exited ↦ (none, set_state vm stopped id vms, w₂)
                | grace_expired ↦ killed vm vms w₂
                | cancelled ↦ killed vm vms w₂
              ]
        ]
  ]

  unfoldable pub hard_shutdown : String → VmInstance → Vms → W → Option VmmError × Vms × W
  hard_shutdown id vm vms w =
      let (answer, w₁) = s.put vm.socket_path (code_points "actions") (action "SendCtrlAltDel") w in
      elim answer [
        | err e ↦ killed vm vms w₁
        | ok status ↦
            let w₂ = (wait_for_shutdown s vm.socket_path w₁).1 in
            if s.timer_first w₂
            then (none, vms, (force_kill_vm vm w₂).1)
            else (none, set_state vm stopped id vms, w₂)
      ]

  abbrev pub shut_down : String → VmInstance → Vms → W → Option VmmError × Vms × W
  shut_down id vm vms w =
      if vm.init_system == "none" then hard_shutdown id vm vms w else graceful_shutdown id vm vms w

  abbrev pub begin_stop : String → VmInstance → VmState → Vms → W → Option VmmError × Vms × W
  begin_stop id vm stopping vms w = (some already_stopping, vms, w)
  begin_stop id vm starting vms w = (some still_starting, vms, w)
  begin_stop id vm new vms w = shut_down id vm (set_state vm stopping id vms) w
  begin_stop id vm running vms w = shut_down id vm (set_state vm stopping id vms) w
  begin_stop id vm stopped vms w = shut_down id vm (set_state vm stopping id vms) w
  begin_stop id vm crashed vms w = shut_down id vm (set_state vm stopping id vms) w

  unfoldable pub stop : Option Task → Vms → W → Option VmmError × Vms × W
  stop none vms w = (some nil_task, vms, w)
  stop (some task) vms w = elim (lookup task.id vms) [
    | none ↦ (some not_found, vms, w)
    | some vm ↦ begin_stop task.id vm vm.state vms w
  ]

  abbrev kill_running : VmInstance → VmState → W → W
  kill_running vm running w = elim (s.find_process vm.pid w) [
    | some e ↦ w
    | none ↦ (s.kill vm.pid w).1
  ]
  kill_running vm new w = w
  kill_running vm starting w = w
  kill_running vm stopping w = w
  kill_running vm stopped w = w
  kill_running vm crashed w = w

  abbrev remove_socket : VmInstance → W → W
  remove_socket vm w = if vm.socket_path == "" then w else s.remove_file vm.socket_path w

  abbrev discard : String → VmInstance → Vms → W → Option VmmError × Vms × W
  discard id vm vms w = (none, erase id vms, remove_socket vm (kill_running vm vm.state w))

  abbrev pub begin_remove : String → VmInstance → VmState → Vms → W → Option VmmError × Vms × W
  begin_remove id vm stopping vms w = (some (cannot_remove stopping), vms, w)
  begin_remove id vm starting vms w = (some (cannot_remove starting), vms, w)
  begin_remove id vm new vms w = discard id vm vms w
  begin_remove id vm running vms w = discard id vm vms w
  begin_remove id vm stopped vms w = discard id vm vms w
  begin_remove id vm crashed vms w = discard id vm vms w

  unfoldable pub remove : Option Task → Vms → W → Option VmmError × Vms × W
  remove none vms w = (some nil_task, vms, w)
  remove (some task) vms w = elim (lookup task.id vms) [
    | none ↦ (none, vms, w)
    | some vm ↦ begin_remove task.id vm vm.state vms w
  ]
