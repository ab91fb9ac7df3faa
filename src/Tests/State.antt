-- ===== src/Tests/State.antt =====
-- The theorems about the state manager, on two VMs.
use swarm_cracker.Prelude.{
  String, List, [], ◌∷◌, false, true, ◌||◌, ◌≢◌, refl, ◌≡◌, ◌⊎◌, ok, err, some, none, string_eq,
}
use swarm_cracker.Runtime.State.{VmState, StateManager, Fault, StateError, no_fault, save, list}
use swarm_cracker.Runtime.State.Persistence.{
  save_atomic, IsSynced, Call, adds, updates_status, updates_error, removes, reconciles, clears,
  run, run-IsSynced,
}
use swarm_cracker.Tests.Codec.{codec, codec-IsCodec}

abbrev vm : String → String → VmState
vm id status = record {
  id = id;
  pid = 17;
  socket_path = "/run/fc.sock";
  image = "nginx";
  status = status;
  start_time = 5;
  command = "sh" ∷ [];
  vcpus = 1;
  memory_mb = 512;
  kernel_path = "";
  rootfs_path = "";
  log_path = "";
  network_id = "";
  ip_addresses = [];
  last_error = "";
  error_time = 0;
}

abbrev manager : StateManager
manager = record {
  states = ("a", vm "a" "running") ∷ ("b", vm "b" "stopped") ∷ [];
  state_file = none;
  tmp_file = none;
}

-- A manager without VMs and without files.
abbrev fresh : StateManager
fresh = record { states = []; state_file = none; tmp_file = none }

abbrev no_rename : Fault
no_rename = record no_fault { rename_fails = true }

save_atomic_example :
    ((((save codec no_rename manager).0 ≡ ok tt)
        × ((no_rename.marshal_fails || no_rename.rename_fails ≡ false)
            × (no_rename.failed_write ≡ none)))
      × (((save codec no_rename manager).1.state_file ≡ some (codec.encode (list manager)))
          × (((save codec no_rename manager).1.tmp_file ≡ none)
              × ((save codec no_rename manager).1.states ≡ manager.states))))
    ⊎ ((((e : StateError) × ((save codec no_rename manager).0 ≡ err e))
          × ((no_rename.marshal_fails || no_rename.rename_fails ≡ true)
              ⊎ (no_rename.failed_write ≢ none)))
        × (((save codec no_rename manager).1.state_file ≡ manager.state_file)
            × ((save codec no_rename manager).1.states ≡ manager.states)))
save_atomic_example = save_atomic codec no_rename manager

fresh-IsSynced : IsSynced codec fresh
unfolding swarm_cracker.Runtime.State.load
fresh-IsSynced = record { keyed = tt; same = λ id. refl }

abbrev calls : List Call
calls =
    adds 3 (vm "a" "running")
    ∷ updates_status "a" "stopped"
    ∷ updates_error 4 "c" "lost"
    ∷ adds 5 (vm "b" "")
    ∷ reconciles 6 (λ id. false)
    ∷ removes "b"
    ∷ clears
    ∷ []

run-IsSynced_example : IsSynced codec (run codec fresh calls)
run-IsSynced_example = run-IsSynced codec codec-IsCodec fresh calls fresh-IsSynced
