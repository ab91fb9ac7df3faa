-- ===== src/Tests/Machines.antt =====
-- The theorems about the configuration and the processes of VMs. The world counts the calls.
use swarm_cracker.Prelude.{
  ℕ, suc, ◌+◌, String, [], ◌∷◌, true, none, some, Map, lookup, string_eq, ok, pos, ◌≡◌, refl,
}
use swarm_cracker.Image.Text.{Text}
use swarm_cracker.Types.{no_restart, no_placement, no_status, Task, container_runtime}
use swarm_cracker.Swarmkit.Translator.{TaskTranslator, translate, config_for, validate_task_id}
use swarm_cracker.Swarmkit.Translator.Paths.{IsPathOf, translate_inside}
use swarm_cracker.Swarmkit.Vmm.{System}

abbrev pub print : ℕ → Text
print n = (48 + n) ∷ []

abbrev pub digest : Text → Text
digest t = t

abbrev pub translator : TaskTranslator
translator = record { kernel_path = "/vmlinux"; bridge_ip = "192.168.127.1/24" }

abbrev pub job : Task
job = record {
  id = "t1";
  service_id = "s1";
  node_id = "n1";
  spec = record {
    runtime =
        container_runtime
          (record { image = "web:1"; command = []; args = []; env = []; mounts = [] });
    runtime_type = "container";
    resources = record {
      limits = none;
      reservations = some (record { nano_cpus = pos 2500000000; memory_bytes = pos 1 });
    };
    restart = no_restart;
    placement = no_placement;
  };
  status = no_status;
  networks =
      record {
        network = record {
          id = "n";
          spec = record { name = "net"; driver = "bridge"; driver_config = none };
        };
        addresses = "192.168.127.9/24" ∷ [];
      }
      ∷ [];
  secrets = [];
  configs = [];
  annotations = [];
}

translated : translate print digest translator job ≡ ok (config_for print digest translator job)
unfolding translate validate_task_id
translated = refl

translate_inside_example :
    IsPathOf job
      (lookup "rootfs" job.annotations)
      (config_for print digest translator job).path_on_host
translate_inside_example =
    translate_inside print digest translator job (config_for print digest translator job) translated

-- A VM whose socket never appears.
abbrev pub broken : System ℕ String
broken = record {
  make_socket_dir = λ w. (none, suc w);
  launch = λ id w. (ok id, suc w);
  wait_for_socket = λ id w. (some "timeout", suc w);
  configure_vm = λ id w. (none, suc w);
  remove_socket = λ id w. suc w;
  kill = λ proc w. (none, suc w);
  send_sigterm = λ proc w. suc w;
  exits = λ proc w. (true, suc w);
  wait_exit = λ proc w. (none, suc w);
  alive = λ proc w. true;
  pid = λ proc. some (pos 7);
  jailer_stop = λ id w. w;
  jailer_force_stop = λ id w. w;
}

abbrev pub table : Map String String
table = ("t1", "p1") ∷ ("t2", "p2") ∷ []
