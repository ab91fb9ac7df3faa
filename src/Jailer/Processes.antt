-- ===== src/Jailer/Processes.antt =====
-- pkg/jailer/jailer.go: the table of jailed processes, with Start, Stop, ForceStop, the queries and
-- Close. The streaming of copyFile is an operation of the system.
use swarm_cracker.Prelude.{
  ℕ, zero, suc, String, List, [], ◌∷◌, Bool, true, false, Option, none, some, Map, lookup, insert,
  erase, map, string_eq, ◌==◌, Result, ok, err, if◌then◌else◌, ℤ,
}
use swarm_cracker.Swarmkit.Controller.{GoError}
use swarm_cracker.Jailer.{
  Config, VmConfig, Process, System, JailerError, no_task_id, no_vcpus, no_memory, no_kernel_path,
  no_rootfs_path, kernel_missing, rootfs_missing, directory_failed, kernel_uncopied,
  rootfs_uncopied, launch_failed, no_socket, task_unknown, kill_failed, is_positive,
}
use swarm_cracker.Jailer.Command.{socket_path_of, build_jailer_command}

abbrev pub Processes : Type 0
Processes = Map String Process

-- The first field that is not set as it must be.
abbrev pub bad_field : VmConfig → Option JailerError
bad_field cfg =
    if cfg.task_id == ""
    then some no_task_id
    else if is_positive cfg.vcpu_count
    then if is_positive cfg.memory_mb
      then if cfg.kernel_path == ""
        then some no_kernel_path
        else if cfg.rootfs_path == ""
        then some no_rootfs_path
        else none
      else some no_memory
    else some no_vcpus

module _ {W : Type 0} (s : System W) where
  abbrev missing_file : VmConfig → W → Option JailerError
  missing_file cfg w = elim (s.stat cfg.kernel_path w) [
    | some e ↦ some (kernel_missing e)
    | none ↦ elim (s.stat cfg.rootfs_path w) [ some e ↦ some (rootfs_missing e) | none ↦ none ]
  ]

  unfoldable pub validate_vm_config : VmConfig → W → Option JailerError
  validate_vm_config cfg w = elim (bad_field cfg) [ some e ↦ some e | none ↦ missing_file cfg w ]

  -- Each step of the preparation ends it if it fails.
  abbrev then_do :
      (GoError → JailerError)
      → Option GoError × W
      → (W → Option JailerError × W)
      → Option JailerError × W
  then_do reason (some e, w) next = (some (reason e), w)
  then_do reason (none, w) next = next w

  unfoldable pub prepare_chroot_resources : String → VmConfig → W → Option JailerError × W
  prepare_chroot_resources chroot cfg w =
      let kernel_dir = s.join_path (chroot ∷ "kernel" ∷ []) in
      let drives_dir = s.join_path (chroot ∷ "drives" ∷ []) in
      let run_dir = s.join_path (chroot ∷ "run" ∷ "firecracker" ∷ []) in
      let kernel_dest = s.join_path (kernel_dir ∷ "vmlinux" ∷ []) in
      let rootfs_dest = s.join_path (drives_dir ∷ "rootfs.ext4" ∷ []) in
      then_do directory_failed (s.make_dirs kernel_dir w) (λ w₁.
        then_do directory_failed (s.make_dirs drives_dir w₁) (λ w₂.
          then_do directory_failed (s.make_dirs run_dir w₂) (λ w₃.
            then_do kernel_uncopied (s.copy_file cfg.kernel_path kernel_dest w₃) (λ w₄.
              then_do rootfs_uncopied (s.copy_file cfg.rootfs_path rootfs_dest w₄)
                (λ w₅. (none, w₅))))))

  -- The loop of waitForSocket, over the ticks that come before its context is done.
  unfoldable pub await_ticks : ℕ → String → W → Bool × W
  await_ticks zero socket w = (false, w)
  await_ticks (suc ticks) socket w =
      let w' = s.tick w in
      let later = await_ticks ticks socket w' in
      elim (s.stat socket w') [ none ↦ (true, w') | some e ↦ later ]

  abbrev pub wait_for_socket : String → W → Bool × W
  wait_for_socket socket w = await_ticks (s.ticks w) socket w

  abbrev pub new_process : Config → VmConfig → ℤ → W → Process
  new_process j cfg pid w = record {
    task_id = cfg.task_id;
    socket_path = socket_path_of s j cfg;
    pid = pid;
    start_time = s.now w;
  }

  -- From the launched process on.
  unfoldable pub track :
      Config → VmConfig → ℤ → Processes → W → Result JailerError Process × Processes × W
  track j cfg pid procs w =
      let (appeared, w₁) = wait_for_socket (socket_path_of s j cfg) w in
      let process = new_process j cfg pid w₁ in
      if appeared
      then (ok process, insert cfg.task_id process procs, w₁)
      else (err no_socket, procs, (s.kill pid w₁).1)

  unfoldable pub launch_jailed :
      Config → VmConfig → Processes → W → Result JailerError Process × Processes × W
  launch_jailed j cfg procs w =
      let chroot = s.join_path (j.chroot_base_dir ∷ "firecracker" ∷ cfg.task_id ∷ "root" ∷ []) in
      let (failure, w₁) = prepare_chroot_resources chroot cfg w in
      elim failure [
        | some e ↦ (err e, procs, w₁)
        | none ↦
            let (launched, w₂) = s.launch j.jailer_path (build_jailer_command s j cfg) w₁ in
            elim launched [
              | err e ↦ (err (launch_failed e), procs, w₂)
              | ok pid ↦ track j cfg pid procs w₂
            ]
      ]

  unfoldable pub start :
      Config → VmConfig → Processes → W → Result JailerError Process × Processes × W
  start j cfg procs w = elim (validate_vm_config cfg w) [
    | some e ↦ (err e, procs, w)
    | none ↦ launch_jailed j cfg procs w
  ]

  abbrev pub end_process : Process → W → W
  end_process process w =
      let (exited, w') = s.await_exit process.pid (s.terminate process.pid w).1 in
      if exited then w' else (s.kill process.pid w').1

  unfoldable pub stop : String → Processes → W → Option JailerError × Processes × W
  stop id procs w = elim (lookup id procs) [
    | none ↦ (some task_unknown, procs, w)
    | some process ↦ (none, erase id procs, end_process process w)
  ]

  unfoldable pub force_stop : String → Processes → W → Option JailerError × Processes × W
  force_stop id procs w = elim (lookup id procs) [
    | none ↦ (some task_unknown, procs, w)
    | some process ↦
        let (failure, w') = s.kill process.pid w in
        elim failure [
          | some e ↦ (some (kill_failed e), procs, w')
          | none ↦ (none, erase id procs, s.await process.pid w')
        ]
  ]

  -- The errors of the tasks whose process could not be killed; the table keeps all processes.
  unfoldable pub close : Processes → W → List (String × GoError) × W
  close [] w = ([], w)
  close ((id, process) ∷ procs) w =
      let (failure, w₁) = s.kill process.pid w in
      let (errs, w₂) = close procs w₁ in
      elim failure [ some e ↦ ((id, e) ∷ errs, w₂) | none ↦ (errs, w₂) ]

abbrev pub get_process : String → Processes → Option Process
get_process id procs = lookup id procs

abbrev list_processes : Processes → List String
list_processes procs = map (λ (entry : String × Process). entry.0) procs
