-- ===== src/Executor/Composition.antt =====
-- pkg/executor and pkg/lifecycle: the executor with the VM manager in the place of its interface. The
-- other managers act on a world `W`, which the table of VMs joins.
use swarm_cracker.Prelude.{
  String, false, Option, none, some, lookup, string_eq, ◌==◌, Result, ok, err, ◌≡◌, refl,
}
use swarm_cracker.Types.{Task, TaskStatus}
use swarm_cracker.Swarmkit.Controller.{GoError}
use swarm_cracker.Lifecycle.{
  System, map_config, VmInstance, stopping, stopped, Vms, VmmError, cannot_remove,
}
use swarm_cracker.Lifecycle.Start
use swarm_cracker.Lifecycle.Shutdown
use swarm_cracker.Lifecycle.Queries
use swarm_cracker.Lifecycle.Calls.Wedged.{remove_refuses, stop_unsignalled}
use swarm_cracker.Json.{Fields}
use swarm_cracker.Executor.{Managers, remove_failed, remove}

abbrev map_error : (VmmError → GoError) → Option VmmError → Option GoError
map_error text none = none
map_error text (some e) = some (text e)

abbrev map_result : (VmmError → GoError) → Result VmmError TaskStatus → Result GoError TaskStatus
map_result text (ok status) = ok status
map_result text (err e) = err (text e)

abbrev regroup :
    {W : Type 0} → (VmmError → GoError) → Option VmmError × Vms × W → Option GoError × (Vms × W)
regroup text (e, vms, w) = (map_error text e, (vms, w))

-- An operation that does not see the table.
abbrev beside : {A W : Type 0} → (W → A × W) → Vms × W → A × (Vms × W)
beside f (vms, w) = let (a, w') = f w in (a, (vms, w'))

abbrev beside_task :
    {W : Type 0}
    → (Task → W → Option GoError × Task × W)
    → Task
    → Vms × W
    → Option GoError × Task × (Vms × W)
beside_task f task (vms, w) = let (e, task', w') = f task w in (e, task', (vms, w'))

module _ {W : Type 0} (m : Managers W Fields) (s : System W) (socket_dir : String)
    (text : VmmError → GoError) where
  abbrev pub with_lifecycle : Managers (Vms × W) Fields
  with_lifecycle = record {
    prepare_image = beside_task m.prepare_image;
    prepare_network = beside_task m.prepare_network;
    cleanup_network = λ task. beside (m.cleanup_network task);
    shutdown_network = λ state. (state.0, m.shutdown_network state.1);
    translate = m.translate;
    vm_start = λ task config state.
        regroup text (Start.start s socket_dir (some task) (map_config config) state.0 state.1);
    vm_stop = λ task state. regroup text (Shutdown.stop s (some task) state.0 state.1);
    vm_wait = λ task state. map_result text (Queries.wait s (some task) state.0 state.1);
    vm_describe = λ task state.
        let (status, vms) = Queries.describe s (some task) state.0 state.1 in
        (map_result text status, (vms, state.1));
    vm_remove = λ task state. regroup text (Shutdown.remove s (some task) state.0 state.1);
    remove_file = λ path state. (state.0, m.remove_file path state.1);
  }

  -- The removal of a task whose VM has an init system and was stopped before fails, if its process
  -- is found but cannot be signalled any more: Stop brings the VM back into the state "stopping", in
  -- which Remove refuses it, and the VM stays in the table.
  pub remove_stopped_fails :
      (vms : Vms) (w : W) (task : Task) (vm : VmInstance) (e : GoError)
      → lookup task.id vms ≡ some vm
      → vm.state ≡ stopped
      → (vm.init_system == "none") ≡ false
      → s.find_process vm.pid w ≡ none
      → (s.terminate vm.pid w).0 ≡ some e
      → ((remove with_lifecycle task (vms, w)).0
          ≡ some (remove_failed (text (cannot_remove stopping))))
        × (lookup task.id (remove with_lifecycle task (vms, w)).1.0
            ≡ some (record vm { state = stopping }))
  unfolding remove
  remove_stopped_fails vms w task vm e found was init there gone =
      let after = Shutdown.stop s (some task) vms w in
      let kept = stop_unsignalled s vms w task vm e found was init there gone in
      let refused = remove_refuses s after.1 (m.cleanup_network task after.2).1 task _ kept refl in
      let left : lookup task.id
            (Shutdown.remove s (some task) after.1 (m.cleanup_network task after.2).1).1
          ≡ some (record vm { state = stopping }) =
        rw refused kept in
      (rw (remove, refused) refl, rw (remove, refused) left)
