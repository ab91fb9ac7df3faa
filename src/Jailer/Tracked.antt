-- ===== src/Jailer/Tracked.antt =====
-- pkg/jailer/jailer.go: which processes the table has after Start.
use swarm_cracker.Prelude.{
  String, insert, string_eq, ◌∷◌, [], Result, ok, err, ℤ, Bool-cases, Option-cases, Result-cases,
  ◌≡◌, ◌⊎◌, inl, inr, refl,
}
use swarm_cracker.Jailer.{Config, VmConfig, Process, System, JailerError, launch_failed, no_socket}
use swarm_cracker.Jailer.Command.{socket_path_of, build_jailer_command}
use swarm_cracker.Jailer.Processes.{
  Processes, validate_vm_config, prepare_chroot_resources, wait_for_socket, track, launch_jailed,
  start,
}

-- The call has failed and left the table alone, or it has put the process that it returns into it.
abbrev Tracks :
    {W : Type 0} → String → Processes → Result JailerError Process × Processes × W → Type 0
Tracks id procs (result, procs', w) =
    ((e : JailerError) × ((result ≡ err e) × (procs' ≡ procs)))
    ⊎ ((process : Process) × ((result ≡ ok process) × (procs' ≡ insert id process procs)))

module _ {W : Type 0} (s : System W) (j : Config) (cfg : VmConfig) (procs : Processes) where
  track-Tracks : (pid : ℤ) (w : W) → Tracks cfg.task_id procs (track s j cfg pid procs w)
  unfolding track
  track-Tracks pid w = elim (Bool-cases (wait_for_socket s (socket_path_of s j cfg) w).0) [
    | inl appeared ↦ rw (track, appeared) (inr (_, (refl, refl)))
    | inr silent ↦ rw (track, silent) (inl (no_socket, (refl, refl)))
  ]

  launch_jailed-Tracks : (w : W) → Tracks cfg.task_id procs (launch_jailed s j cfg procs w)
  unfolding launch_jailed
  launch_jailed-Tracks w =
      let chroot = s.join_path (j.chroot_base_dir ∷ "firecracker" ∷ cfg.task_id ∷ "root" ∷ []) in
      let (failure, w₁) = prepare_chroot_resources s chroot cfg w in
      elim (Option-cases failure) [
        | inr (e, bad) ↦ rw (launch_jailed, bad) (inl (e, (refl, refl)))
        | inl fine ↦
            elim (Result-cases (s.launch j.jailer_path (build_jailer_command s j cfg) w₁).0) [
              | inr (e, bad) ↦ rw (launch_jailed, fine, bad) (inl (launch_failed e, (refl, refl)))
              | inl (pid, launched) ↦ rw (launch_jailed, fine, launched) (track-Tracks pid _)
            ]
      ]

  -- Start fails and leaves the table alone, or puts the process that it returns into it under its task.
  start-Tracks : (w : W) → Tracks cfg.task_id procs (start s j cfg procs w)
  unfolding start
  start-Tracks w = elim (Option-cases (validate_vm_config s cfg w)) [
    | inr (e, bad) ↦ rw (start, bad) (inl (e, (refl, refl)))
    | inl fine ↦ rw (start, fine) (launch_jailed-Tracks w)
  ]
