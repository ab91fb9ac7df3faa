-- ===== src/Tests/Lifecycles.antt =====
-- The theorems about the lifecycle of VMs and the executor. The world is a clock in milliseconds.
use swarm_cracker.Prelude.{
  ℕ, ◌+◌, String, List, [], ◌∷◌, true, false, none, some, lookup, string_eq, ok, err, pos, ◌≡◌,
  refl, arith,
}
use swarm_cracker.Types.{Task, no_runtime, no_restart, no_placement, no_status}
use swarm_cracker.Json.{nil, Fields}
use swarm_cracker.Lifecycle.{
  System, VmInstance, Vms, stopping, stopped, map_config, present, exited, already_stopping,
  cannot_remove, VmmError,
}
use swarm_cracker.Lifecycle.Waiting.{
  seen, KeepsTime, HasDecided, HasAnswered, IsGone, wait_for_api_server, wait_for_shutdown,
  waits_decide,
}
use swarm_cracker.Lifecycle.Shutdown.{stop, remove}
use swarm_cracker.Lifecycle.Calls.{Call, starts, stops, removes, perform, run}
use swarm_cracker.Lifecycle.Calls.Steps.{Changes, perform-Changes}
use swarm_cracker.Lifecycle.Calls.Settled.{AllSettled, run-AllSettled}
use swarm_cracker.Lifecycle.Calls.Wedged.{run_refuses}
use swarm_cracker.Executor.{Managers, remove_failed}
use swarm_cracker.Executor
use swarm_cracker.Executor.Composition.{with_lifecycle, remove_stopped_fails}

abbrev machine : System ℕ
machine = record {
  now = λ w. w;
  sleep = λ d w. w + d;
  stat = λ path w. present;
  get_root = λ socket w. (true, w + 1);
  remove_file = λ path w. w;
  join_path = λ dir name. dir;
  look_path = λ name w. ok "/bin/firecracker";
  launch = λ binary socket w. (ok (pos 7), w);
  put = λ socket path body w. (ok 204, w);
  is_url = λ path. true;
  unmarshal = λ encoded. err "no JSON";
  find_process = λ pid w. none;
  terminate = λ pid w. (some "process already finished", w);
  kill = λ pid w. (some "process already finished", w);
  alive = λ pid w. true;
  await_exit = λ pid grace w. (exited, w);
  timer_first = λ w. false;
}

machine-KeepsTime : KeepsTime machine
machine-KeepsTime = record { sleeps = λ d w. omega arith; waits = λ socket w. omega arith }

waits_decide_example :
    HasDecided machine
      (HasAnswered machine "/run/t.sock")
      (5 + 10000)
      (wait_for_api_server machine "/run/t.sock" 5)
    × HasDecided machine
        (IsGone machine "/run/t.sock")
        (5 + 30000)
        (wait_for_shutdown machine "/run/t.sock" 5)
    × (machine.stat "/run/t.sock" 5 ≡ present
        → (machine.get_root "/run/t.sock" 5).0 ≡ true
        → (wait_for_api_server machine "/run/t.sock" 5).0 ≡ seen)
    × (IsGone machine "/run/t.sock" 5 → (wait_for_shutdown machine "/run/t.sock" 5).0 ≡ seen)
waits_decide_example = waits_decide machine "/run/t.sock" 5 machine-KeepsTime

abbrev job : Task
job = record {
  id = "t1";
  service_id = "s";
  node_id = "n";
  spec = record {
    runtime = no_runtime;
    runtime_type = "";
    resources = record { limits = none; reservations = none };
    restart = no_restart;
    placement = no_placement;
  };
  status = no_status;
  networks = [];
  secrets = [];
  configs = [];
  annotations = ("init_system", "tini") ∷ [];
}

abbrev vm : VmInstance
vm = record {
  id = "t1";
  pid = pos 7;
  config = map_config nil;
  state = stopped;
  created_at = 0;
  socket_path = "/run/t1.sock";
  init_system = "tini";
  grace_period_sec = 10;
}

abbrev table : Vms
table = ("t1", vm) ∷ []

abbrev stuck_vm : VmInstance
stuck_vm = record vm { state = stopping }

abbrev stuck_table : Vms
stuck_table = ("t1", stuck_vm) ∷ []

perform-Changes_example : Changes table (perform machine "/run" (removes (some job)) (table, 0)).0
perform-Changes_example = perform-Changes machine "/run" (removes (some job)) table 0

abbrev calls : List (Call ℕ)
calls = starts (some job) (map_config nil) ∷ stops (some job) ∷ removes (some job) ∷ []

run-AllSettled_example : AllSettled (run machine "/run" calls ([], 0)).0
unfolding lookup
run-AllSettled_example = run-AllSettled machine "/run" calls [] 0 (λ id v h. cc)

stuck_found : lookup "t1" stuck_table ≡ some stuck_vm
unfolding lookup
stuck_found = refl

run_refuses_example :
    let (vms', w') = run machine "/run" calls (stuck_table, 0) in
    (lookup job.id vms' ≡ some stuck_vm)
    × (stop machine (some job) vms' w' ≡ (some already_stopping, vms', w'))
    × (remove machine (some job) vms' w' ≡ (some (cannot_remove stopping), vms', w'))
run_refuses_example =
    run_refuses machine "/run" calls stuck_table 0 job stuck_vm stuck_found refl
      (tt, (tt, (tt, tt)))

table-found : lookup "t1" table ≡ some vm
unfolding lookup
table-found = refl

abbrev managers : Managers ℕ Fields
managers = record {
  prepare_image = λ task w. (none, task, w);
  prepare_network = λ task w. (none, task, w);
  cleanup_network = λ task w. (none, w);
  shutdown_network = λ w. w;
  translate = λ task. ok nil;
  vm_start = λ task config w. (none, w);
  vm_stop = λ task w. (none, w);
  vm_wait = λ task w. ok no_status;
  vm_describe = λ task w. (ok no_status, w);
  vm_remove = λ task w. (none, w);
  remove_file = λ path w. w;
}

abbrev text : VmmError → String
text e = "error"

remove_stopped_fails_example :
    ((Executor.remove (with_lifecycle managers machine "/run" text) job (table, 0)).0
      ≡ some (remove_failed "error"))
    × (lookup "t1"
          (Executor.remove (with_lifecycle managers machine "/run" text) job (table, 0)).1.0
        ≡ some stuck_vm)
remove_stopped_fails_example =
    remove_stopped_fails managers machine "/run" text table 0 job vm "process already finished"
      table-found refl refl refl refl
