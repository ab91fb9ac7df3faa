-- ===== src/Image/Preparer/Prepare.antt =====
-- pkg/image/preparer.go, Prepare.
use swarm_cracker.Prelude.{
  String, List, [], ◌∷◌, ◌++◌, ◌||◌, Option, none, some, insert, string_eq, ◌==◌, ok, err,
  if◌then◌else◌, code_points,
}
use swarm_cracker.Types.{SecretRef, ConfigRef, Mount, Container, Task, get_container}
use swarm_cracker.Swarmkit.Controller.{GoError}
use swarm_cracker.Image.Text.{Text}
use swarm_cracker.Image.Reference.{generate_image_id}
use swarm_cracker.Image.Preparer.{
  ImagePreparer, System, PrepareError, unsupported_architecture, invalid_runtime, secrets_failed,
  configs_failed, is_enabled, get_init_path, verify_cached_rootfs, prepare_with_lock,
}

abbrev pub annotate : String → String → Task → Task
annotate key value task = record task { annotations = insert key value task.annotations }

abbrev pub mark_init : ImagePreparer → Task → Task
mark_init ip task =
    if is_enabled ip
    then annotate "init_path" (get_init_path ip.config.init_system)
        (annotate "init_system" ip.config.init_system task)
    else task

module _ {W : Type 0} (s : System W) where
  -- The file for the image, by its reference alone.
  abbrev pub rootfs_path : ImagePreparer → Container → Text
  rootfs_path ip container =
      s.join_path ip.config.rootfs_dir
        (generate_image_id (code_points container.image) ++ code_points ".ext4")

  abbrev pub apply_mounts : ImagePreparer → Task → Text → List Mount → W → W
  apply_mounts ip task path [] w = w
  apply_mounts ip task path (m ∷ ms) w =
      if ip.has_volume_manager then s.handle_mounts task path (m ∷ ms) w else w

  abbrev pub apply_secrets : ImagePreparer → Task → Text → List SecretRef → W → Option GoError × W
  apply_secrets ip task path [] w = (none, w)
  apply_secrets ip task path (r ∷ rs) w =
      if ip.has_secret_manager then s.inject_secrets task.id (r ∷ rs) path w else (none, w)

  abbrev pub apply_configs : ImagePreparer → Task → Text → List ConfigRef → W → Option GoError × W
  apply_configs ip task path [] w = (none, w)
  apply_configs ip task path (r ∷ rs) w =
      if ip.has_secret_manager then s.inject_configs task.id (r ∷ rs) path w else (none, w)

  -- What follows when the file has been made.
  unfoldable pub fill_rootfs :
      ImagePreparer → Task → Container → Text → W → Option PrepareError × Task × ImagePreparer × W
  fill_rootfs ip task container path w =
      let marked = mark_init ip task in
      let (no_secrets, w₂) =
        apply_secrets ip task path task.secrets (apply_mounts ip task path container.mounts w) in
      elim no_secrets [
        | some e ↦ (some (secrets_failed e), marked, ip, w₂)
        | none ↦
            let (no_configs, w₃) = apply_configs ip task path task.configs w₂ in
            elim no_configs [
              | some e ↦ (some (configs_failed e), marked, ip, w₃)
              | none ↦ (none, annotate "rootfs" (s.spell path) marked, ip, w₃)
            ]
      ]

  unfoldable pub make_rootfs :
      ImagePreparer → Task → Container → Text → W → Option PrepareError × Task × ImagePreparer × W
  make_rootfs ip task container path w =
      let image = code_points container.image in
      let (failure, ip', w₁) = prepare_with_lock s image (generate_image_id image) path ip w in
      elim failure [
        | some e ↦ (some e, task, ip', w₁)
        | none ↦ fill_rootfs ip' task container path w₁
      ]

  abbrev pub prepare_container :
      ImagePreparer → Task → Container → W → Option PrepareError × Task × ImagePreparer × W
  prepare_container ip task container w =
      let path = rootfs_path ip container in
      if verify_cached_rootfs s path w
      then (none, annotate "rootfs" (s.spell path) task, ip, w)
      else make_rootfs ip task container path w

  unfoldable pub prepare : ImagePreparer → Task → W → Option PrepareError × Task × ImagePreparer × W
  prepare ip task w = elim (get_container task.spec) [
    | err e ↦ (some (invalid_runtime e), task, ip, w)
    | ok container ↦
        if (s.goarch == "amd64") || (s.goarch == "arm64")
        then prepare_container ip task container w
        else (some unsupported_architecture, task, ip, w)
  ]
