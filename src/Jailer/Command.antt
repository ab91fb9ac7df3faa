-- ===== src/Jailer/Command.antt =====
-- pkg/jailer/jailer.go, buildJailerCommand.
use Prim.Native.String.{◌++◌ as text_append}
use swarm_cracker.Prelude.{
  String, List, [], ◌∷◌, ◌++◌, nat_eq, string_eq, ◌==◌, if◌then◌else◌, code_points,
}
use swarm_cracker.Image.Text.{Text}
use swarm_cracker.Jailer.{Config, VmConfig, System, is_positive}

-- The jailer's "1" or "2" for "v1" or "v2".
abbrev without_v : Text → Text
without_v [] = []
without_v (c ∷ cs) = if c == 118 then cs else c ∷ cs

abbrev option_arg : String → String → List Text
option_arg name value = if value == "" then [] else code_points name ∷ code_points value ∷ []

module _ {W : Type 0} (s : System W) (j : Config) where
  abbrev socket_rel_path : VmConfig → String
  socket_rel_path cfg = s.join_path ("run" ∷ "firecracker" ∷ text_append cfg.task_id ".sock" ∷ [])

  abbrev pub socket_path_of : VmConfig → String
  socket_path_of cfg = s.join_path (j.chroot_base_dir ∷ cfg.task_id ∷ socket_rel_path cfg ∷ [])

  abbrev identity_args : VmConfig → List Text
  identity_args cfg =
      code_points "--id"
      ∷ code_points cfg.task_id
      ∷ code_points "--exec-file"
      ∷ code_points j.firecracker_path
      ∷ code_points "--uid"
      ∷ s.itoa j.uid
      ∷ code_points "--gid"
      ∷ s.itoa j.gid
      ∷ code_points "--chroot-base-dir"
      ∷ code_points j.chroot_base_dir
      ∷ code_points "--cgroup-version"
      ∷ without_v j.cgroup_version
      ∷ []

  abbrev limit_args : List Text
  limit_args =
      (if is_positive j.cpu_quota_us
        then code_points "--cgroup"
          ∷ (code_points "cpu.max=" ++ s.itoa j.cpu_quota_us ++ code_points " 100000")
          ∷ []
        else [])
      ++ (if is_positive j.memory_max
          then code_points "--cgroup" ∷ (code_points "memory.max=" ++ s.itoa j.memory_max) ∷ []
          else [])

  -- The arguments of the jailer, a double hyphen, and those of Firecracker in the jail.
  unfoldable pub build_jailer_command : VmConfig → List Text
  build_jailer_command cfg =
      identity_args cfg
      ++ option_arg "--netns" j.net_ns
      ++ option_arg "--parent-cgroup" j.parent_cgroup
      ++ limit_args
      ++ j.extra_args
      ++ (code_points "--"
          ∷ code_points "--api-sock"
          ∷ code_points (s.join_path ("/" ∷ socket_rel_path cfg ∷ []))
          ∷ [])
