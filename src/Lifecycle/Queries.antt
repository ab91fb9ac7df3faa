-- ===== src/Lifecycle/Queries.antt =====
-- pkg/lifecycle/vmm.go: Wait and Describe. What the status tells of the running process, which
-- nothing modelled here reads, is left out.
use Prim.Native.String.{◌++◌ as text_append}
use swarm_cracker.Prelude.{
  String, Option, none, some, lookup, string_eq, Result, ok, err, if◌then◌else◌,
}
use swarm_cracker.Types.{
  Task, TaskState, TaskStatus, no_status, state_new, state_starting, state_running, state_complete,
  state_failed, state_orphaned,
}
use swarm_cracker.Lifecycle.{
  System, VmState, new, starting, running, stopping, stopped, crashed, VmInstance, Vms, VmmError,
  nil_task, set_state,
}

abbrev status_of : TaskState → String → TaskStatus
status_of state message = record no_status { state = state; message = message }

abbrev pub task_state_of : VmState → TaskState
task_state_of new = state_new
task_state_of starting = state_starting
task_state_of running = state_running
task_state_of stopping = state_starting
task_state_of stopped = state_complete
task_state_of crashed = state_failed

module _ {W : Type 0} (s : System W) where
  abbrev wait_status : VmInstance → W → TaskStatus
  wait_status vm w = elim (s.find_process vm.pid w) [
    | some e ↦ status_of state_complete "Process not found"
    | none ↦
        if s.alive vm.pid w
        then status_of state_running ""
        else status_of state_complete "Process exited"
  ]

  -- Wait reads the state and changes nothing.
  unfoldable pub wait : Option Task → Vms → W → Result VmmError TaskStatus
  wait none vms w = err nil_task
  wait (some task) vms w = elim (lookup task.id vms) [
    | none ↦ ok (status_of state_orphaned "VM not found")
    | some vm ↦ ok (wait_status vm w)
  ]

  abbrev pub describe_vm : String → VmInstance → Vms → W → Result VmmError TaskStatus × Vms
  describe_vm id vm vms w = elim (s.find_process vm.pid w) [
    | some e ↦ (ok (status_of state_failed (text_append "VM process error: " e)), vms)
    | none ↦
        if s.alive vm.pid w
        then (ok (status_of (task_state_of vm.state) ""), vms)
        else (ok (status_of state_complete "VM has stopped"), set_state vm stopped id vms)
  ]

  unfoldable pub describe : Option Task → Vms → W → Result VmmError TaskStatus × Vms
  describe none vms w = (err nil_task, vms)
  describe (some task) vms w = elim (lookup task.id vms) [
    | none ↦ (ok (status_of state_orphaned "VM not found"), vms)
    | some vm ↦ describe_vm task.id vm vms w
  ]
