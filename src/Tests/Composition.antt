-- ===== src/Tests/Composition.antt =====
-- The controller over the VM manager, removing a task whose VM is in the table.
use swarm_cracker.Prelude.{
  ℕ, suc, String, true, false, none, some, lookup, string_eq, ◌==◌, ok, err, pos, ◌≡◌,
}
use swarm_cracker.Swarmkit.Translator.{VmConfig}
use swarm_cracker.Swarmkit.Vmm.{describe, complete}
use swarm_cracker.Swarmkit.Controller.{Managers, remove}
use swarm_cracker.Swarmkit.Composition.{composed, remove-describe}
use swarm_cracker.Tests.Controllers.{ready, volumes}
use swarm_cracker.Tests.Machines.{broken, translator, print, digest, table}

abbrev base : Managers ℕ String VmConfig
base = record {
  prepare_image = λ t w. (ok t, suc w);
  prepare_network = λ t w. (ok t, suc w);
  cleanup_network = λ t w. (some "no such device", suc w);
  translate = λ t. err "unused";
  vm_start = λ t config w. (none, suc w);
  vm_stop = λ t w. (none, suc w);
  vm_wait = λ t w. (ok none, suc w);
  vm_remove = λ t w. (none, suc w);
  is_running = λ id w. true;
  get_pid = λ id w. pos 1;
  volume_mgr = some volumes;
  secret_mgr = none;
  remove_file = λ path w. (none, suc w);
  on_remove = some suc;
  rootfs_dir = "/roots";
  socket_dir = "/run";
}

remove-describe_example :
    let after =
      (remove
        (composed base broken translator print digest (λ e. "vm") (λ e. "id"))
        ready
        (table, 0)).2.0 in
    (describe "t1" after ≡ complete)
    × ((other : String) → ("t1" == other) ≡ false → lookup other after ≡ lookup other table)
remove-describe_example =
    remove-describe base broken translator print digest (λ e. "vm") (λ e. "id") ready table 0
