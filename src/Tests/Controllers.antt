-- ===== src/Tests/Controllers.antt =====
-- The theorems about the controller of a task and the resources of a node. The world counts the calls
-- of the managers.
use swarm_cracker.Prelude.{
  ℕ, suc, String, [], ◌∷◌, true, false, none, some, ok, pos, ◌≡◌, ◌⊎◌, refl, code_points,
}
use swarm_cracker.Types.{Task}
use swarm_cracker.Swarmkit.Api.{ApiTask, ApiContainer, api_container}
use swarm_cracker.Swarmkit.Convert.{convert_task}
use swarm_cracker.Swarmkit.Controller.{
  Managers, VolumeManager, Controller, not_prepared, prepare, prepare_with, inject, start,
  start_with, remove,
}
use swarm_cracker.Swarmkit.Controller.Lifecycle.{Reaches, created, called, start_lem}
use swarm_cracker.Swarmkit.Controller.Moves.{prepares, starts, IsReady, call, Follows, call-Follows}
use swarm_cracker.Swarmkit.Controller.Volumes.{remove_never_syncs}

abbrev pub volumes : VolumeManager ℕ String
volumes = record {
  mount_rootfs = λ path w. (ok "/mnt", suc w);
  unmount_rootfs = λ dir w. suc w;
  get_volume = λ name w. (ok "data", suc w);
  unmount_volume = λ volume dir target read_only w. (none, suc w);
}

abbrev managers : Managers ℕ String String
managers = record {
  prepare_image = λ t w. (ok (record t { annotations = ("rootfs", "/r.ext4") ∷ [] }), suc w);
  prepare_network = λ t w. (ok t, suc w);
  cleanup_network = λ t w. (none, suc w);
  translate = λ t. ok t.id;
  vm_start = λ t config w. (none, suc w);
  vm_stop = λ t w. (none, suc w);
  vm_wait = λ t w. (ok none, suc w);
  vm_remove = λ t w. (none, suc w);
  is_running = λ id w. true;
  get_pid = λ id w. pos 1;
  volume_mgr = some volumes;
  secret_mgr = none;
  remove_file = λ path w. (none, suc w);
  on_remove = none;
  rootfs_dir = "/roots";
  socket_dir = "/run";
}

abbrev web : ApiContainer
web = record {
  image = "web:1";
  command = [];
  args = [];
  env = [];
  mounts =
      record { target = "/data"; source = code_points "volume://data"; read_only = false } ∷ [];
  secrets = [];
  configs = [];
}

abbrev task : ApiTask
task = record {
  id = "t1";
  service_id = "s1";
  node_id = "n1";
  runtime = api_container (some web);
  resources = none;
  networks = [];
}

-- After Prepare, in a world that has moved on twice.
abbrev pub ready : Controller
ready = record {
  task = task;
  prepared = true;
  started = false;
  internal_task = some (record (convert_task task) { annotations = ("rootfs", "/r.ext4") ∷ [] });
}

ready-Reaches : Reaches managers ready 2
unfolding call prepare prepare_with inject
ready-Reaches = called prepares (created task 0) refl

start_lem_example :
    ((ready.prepared ≡ false) × (start managers ready 2 ≡ (some not_prepared, ready, 2)))
    ⊎ ((ready.started ≡ true) × (start managers ready 2 ≡ (none, ready, 2)))
    ⊎ ((t : Task) × IsReady managers t
        × (ready.started ≡ false)
        × (start managers ready 2 ≡ start_with managers t ready 2))
start_lem_example = start_lem managers ready-Reaches

call-Follows_example : Follows managers ready (call managers starts ready 2)
call-Follows_example = call-Follows managers starts ready 2

remove_never_syncs_example :
    remove managers ready 2 ≡ remove (record managers { volume_mgr = none }) ready 2
remove_never_syncs_example = remove_never_syncs managers ready 2
