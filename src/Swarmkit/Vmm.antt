-- ===== src/Swarmkit/Vmm.antt =====
-- pkg/swarmkit/vmm.go, VMMManager: the table of the Firecracker processes, without the jailer's start.
-- The operating system and Firecracker are operations on a world `W`; `Proc` is Go's exec.Cmd.
pub mod Table
use swarm_cracker.Prelude.{
  String, Bool, true, false, not, Option, none, some, Map, lookup, insert, erase, string_eq, Result,
  ok, err, if◌then◌else◌, ℤ, pos,
}
use swarm_cracker.Swarmkit.Controller.{GoError}

-- `exits` says whether the process has exited before the ten seconds are over, and `alive` is the
-- signal 0.
pub record System (W Proc : Type 0) : Type 0 where
  pub make_socket_dir : W → Option GoError × W
  pub launch : String → W → Result GoError Proc × W
  pub wait_for_socket : String → W → Option GoError × W
  pub configure_vm : String → W → Option GoError × W
  pub remove_socket : String → W → W
  pub kill : Proc → W → Option GoError × W
  pub send_sigterm : Proc → W → W
  pub exits : Proc → W → Bool × W
  pub wait_exit : Proc → W → Option GoError × W
  pub alive : Proc → W → Bool
  -- none where the command has no process
  pub pid : Proc → Option ℤ
  -- what the jailer and its cgroup do, or nothing without a jailer
  pub jailer_stop : String → W → W
  pub jailer_force_stop : String → W → W

pub data VmmError : Type 0 where
  make_dir_failed launch_failed no_socket configure_failed kill_failed : GoError → VmmError
  task_not_found : VmmError

pub data VmStatus : Type 0 where
  complete running : VmStatus
  failed : GoError → VmStatus

module _ {W Proc : Type 0} (s : System W Proc) where
  -- A process that does not become ready is killed, and its socket removed.
  abbrev pub give_up :
      (GoError → VmmError)
      → GoError
      → Proc
      → String
      → Map String Proc
      → W
      → Option VmmError × Map String Proc × W
  give_up reason e proc id procs w = (some (reason e), procs, s.remove_socket id (s.kill proc w).1)

  unfoldable pub await_ready :
      Proc → String → Map String Proc → W → Option VmmError × Map String Proc × W
  await_ready proc id procs w =
      let (unready, w₁) = s.wait_for_socket id w in
      elim unready [
        | some e ↦ give_up no_socket e proc id procs w₁
        | none ↦
            let (unset, w₂) = s.configure_vm id w₁ in
            elim unset [
              | some e ↦ give_up configure_failed e proc id procs w₂
              | none ↦ (none, procs, w₂)
            ]
      ]

  unfoldable pub start_direct : String → Map String Proc → W → Option VmmError × Map String Proc × W
  start_direct id procs w =
      let (no_dir, w₁) = s.make_socket_dir w in
      elim no_dir [
        | some e ↦ (some (make_dir_failed e), procs, w₁)
        | none ↦
            let (launched, w₂) = s.launch id w₁ in
            elim launched [
              | err e ↦ (some (launch_failed e), procs, s.remove_socket id w₂)
              | ok proc ↦ await_ready proc id (insert id proc procs) w₂
            ]
      ]

  unfoldable pub stop_process : Proc → W → W
  stop_process proc w =
      let (exited, w') = s.exits proc (s.send_sigterm proc w) in
      if exited then w' else (s.kill proc w').1

  unfoldable pub stop : String → Map String Proc → W → Option VmmError × Map String Proc × W
  stop id procs w =
      let w₁ = s.jailer_stop id w in
      elim (lookup id procs) [
        | none ↦ (some task_not_found, procs, w₁)
        | some proc ↦ (none, erase id procs, stop_process proc w₁)
      ]

  unfoldable pub force_stop : String → Map String Proc → W → Option VmmError × Map String Proc × W
  force_stop id procs w = elim (lookup id procs) [
    | none ↦ (some task_not_found, procs, w)
    | some proc ↦
        let (unkilled, w₁) = s.kill proc w in
        elim unkilled [
          | some e ↦ (some (kill_failed e), procs, w₁)
          | none ↦ (none, erase id procs, (s.wait_exit proc w₁).1)
        ]
  ]

  -- Wait leaves the table as it is.
  unfoldable pub wait_vm : String → Map String Proc → W → VmStatus × W
  wait_vm id procs w = elim (lookup id procs) [
    | none ↦ (complete, w)
    | some proc ↦
        let (failure, w') = s.wait_exit proc w in
        elim failure [ none ↦ (complete, w') | some e ↦ (failed e, w') ]
  ]

  unfoldable pub get_vm_pid : String → Map String Proc → ℤ
  get_vm_pid id procs = elim (lookup id procs) [
    | none ↦ pos 0
    | some proc ↦ elim (s.pid proc) [ none ↦ pos 0 | some p ↦ p ]
  ]

  unfoldable pub is_vm_running : String → Map String Proc → W → Bool
  is_vm_running id procs w = elim (lookup id procs) [
    | none ↦ false
    | some proc ↦ elim (s.pid proc) [ none ↦ false | some p ↦ s.alive proc w ]
  ]

  abbrev kill_left : Option Proc → W → W
  kill_left none w = w
  kill_left (some proc) w = elim (s.pid proc) [
    | none ↦ w
    | some p ↦ (s.wait_exit proc (s.kill proc w).1).1
  ]

  unfoldable pub remove_vm : String → Map String Proc → W → Map String Proc × W
  remove_vm id procs w =
      (erase id procs, s.remove_socket id (kill_left (lookup id procs) (s.jailer_force_stop id w)))

unfoldable pub describe : {Proc : Type 0} → String → Map String Proc → VmStatus
describe id procs = elim (lookup id procs) [ none ↦ complete | some proc ↦ running ]

unfoldable pub remove_process : {Proc : Type 0} → String → Map String Proc → Map String Proc
remove_process id procs = erase id procs
