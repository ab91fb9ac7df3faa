-- ===== src/Swarmkit/Controller.antt =====
-- pkg/swarmkit/executor.go, Controller: one task's life, driven by SwarmKit's agent. The managers are
-- interfaces of the code: here operations on a world `W` of which the controller sees nothing else. A
-- manager that is given a task by pointer and changes it returns it.
pub mod Moves
pub mod Lifecycle
pub mod Volumes
use Prim.Native.String.{◌++◌ as text_append}
use swarm_cracker.Prelude.{
  ℕ, String, List, [], ◌∷◌, Bool, true, false, not, ◌&&◌, Option, none, some, lookup, string_eq,
  ◌==◌, Result, ok, err, if◌then◌else◌, ℤ, pos,
}
use swarm_cracker.Image.Text.{Text}
use swarm_cracker.Types.{SecretRef, ConfigRef, Mount, Task, get_container}
use swarm_cracker.Storage.Volume.{is_volume_reference, extract_volume_name}
use swarm_cracker.Swarmkit.Api.{ApiTask}
use swarm_cracker.Swarmkit.Convert.{convert_task}

-- What a manager of Go returns as its error.
abbrev pub GoError : Type 0
GoError = String

-- The volume manager, and the mounting of the root file system that its use needs.
pub record VolumeManager (W Volume : Type 0) : Type 0 where
  pub mount_rootfs : String → W → Result GoError String × W
  pub unmount_rootfs : String → W → W
  pub get_volume : Text → W → Result GoError Volume × W
  pub unmount_volume : Volume → String → String → Bool → W → Option GoError × W

pub record SecretManager (W : Type 0) : Type 0 where
  pub inject_secrets : String → List SecretRef → String → W → Option GoError × W
  pub inject_configs : String → List ConfigRef → String → W → Option GoError × W

pub record Managers (W Volume VmConfig : Type 0) : Type 0 where
  pub prepare_image : Task → W → Result GoError Task × W
  pub prepare_network : Task → W → Result GoError Task × W
  pub cleanup_network : Task → W → Option GoError × W
  pub translate : Task → Result GoError VmConfig
  pub vm_start : Task → VmConfig → W → Option GoError × W
  pub vm_stop : Task → W → Option GoError × W
  -- the status, of which the code reads the error alone
  pub vm_wait : Task → W → Result GoError (Option GoError) × W
  pub vm_remove : Task → W → Option GoError × W
  pub is_running : String → W → Bool
  pub get_pid : String → W → ℤ
  pub volume_mgr : Option (VolumeManager W Volume)
  pub secret_mgr : Option (SecretManager W)
  pub remove_file : String → W → Option GoError × W
  pub on_remove : Option (W → W)
  pub rootfs_dir : String
  pub socket_dir : String

pub record Controller : Type 0 where
  pub task : ApiTask
  pub prepared : Bool
  pub started : Bool
  pub internal_task : Option Task

pub data ControllerError : Type 0 where
  image_failed network_failed translation_failed start_failed : GoError → ControllerError
  shutdown_failed terminate_failed wait_failed vm_failed : GoError → ControllerError
  not_prepared internal_task_missing : ControllerError

-- What a method of the controller does: its error, the controller and the world after it.
abbrev pub Outcome : Type 0 → Type 0
Outcome W = Option ControllerError × Controller × W

abbrev pub new_controller : ApiTask → Controller
new_controller t = record { task = t; prepared = false; started = false; internal_task = none }

unfoldable pub update : {W : Type 0} → ApiTask → Controller → W → Outcome W
update t c w = if c.started then (none, c, w) else (none, record c { task = t }, w)

-- filepath.Join of a clean directory and a plain name.
abbrev pub path_join : String → String → String
path_join dir name = text_append dir (text_append "/" name)

-- The annotation, or the empty text that Go reads for a missing key.
abbrev pub rootfs_of : Task → String
rootfs_of t = elim (lookup "rootfs" t.annotations) [ none ↦ "" | some path ↦ path ]

abbrev inject_secrets_into :
    {W : Type 0} → SecretManager W → String → List SecretRef → String → W → W
inject_secrets_into s id [] path w = w
inject_secrets_into s id (r ∷ rs) path w = (s.inject_secrets id (r ∷ rs) path w).1

abbrev inject_configs_into :
    {W : Type 0} → SecretManager W → String → List ConfigRef → String → W → W
inject_configs_into s id [] path w = w
inject_configs_into s id (r ∷ rs) path w = (s.inject_configs id (r ∷ rs) path w).1

-- Failures are logged.
unfoldable pub inject : {W : Type 0} → Option (SecretManager W) → String → Task → W → W
inject none id t w = w
inject (some s) id t w =
    if rootfs_of t == ""
    then w
    else inject_configs_into s id t.configs (rootfs_of t)
        (inject_secrets_into s id t.secrets (rootfs_of t) w)

-- One round of the loop of syncVolumeData, over the mounted directory; its failures are logged.
unfoldable pub sync_mount : {W Volume : Type 0} → VolumeManager W Volume → String → Mount → W → W
sync_mount v dir mount w =
    if not (is_volume_reference mount.source)
    then w
    else if mount.read_only
    then w
    else let (found, w') = v.get_volume (extract_volume_name mount.source) w in
      elim found [
        | err e ↦ w'
        | ok volume ↦ (v.unmount_volume volume dir mount.target mount.read_only w').1
      ]

abbrev sync_mounts : {W Volume : Type 0} → VolumeManager W Volume → String → List Mount → W → W
sync_mounts v dir [] w = w
sync_mounts v dir (mount ∷ mounts) w = sync_mounts v dir mounts (sync_mount v dir mount w)

unfoldable pub sync_volume_data :
    {W Volume : Type 0} → VolumeManager W Volume → Task → List Mount → W → W
sync_volume_data v t mounts w = elim (lookup "rootfs" t.annotations) [
  | none ↦ w
  | some path ↦
      let (mounted, w') = v.mount_rootfs path w in
      elim mounted [ err e ↦ w' | ok dir ↦ v.unmount_rootfs dir (sync_mounts v dir mounts w') ]
]

-- The first part of Remove, for a controller that has an internal task.
unfoldable pub sync_back : {W Volume : Type 0} → VolumeManager W Volume → Task → Task → W → W
sync_back v internal t w = elim (get_container internal.spec) [
  | err e ↦ w
  | ok container ↦ elim container.mounts [ [] ↦ w | m ∷ ms ↦ sync_volume_data v t (m ∷ ms) w ]
]

unfoldable pub sync_volumes :
    {W Volume : Type 0} → Option (VolumeManager W Volume) → Option Task → Task → W → W
sync_volumes none internal t w = w
sync_volumes (some v) none t w = w
sync_volumes (some v) (some internal) t w = sync_back v internal t w

abbrev pub call_back : {W : Type 0} → Option (W → W) → W → W
call_back none w = w
call_back (some f) w = f w

module _ {W Volume VmConfig : Type 0} (m : Managers W Volume VmConfig) where
  unfoldable pub prepare_with : Task → Controller → W → Outcome W
  prepare_with task c w =
      let (imaged, w₁) = m.prepare_image task w in
      elim imaged [
        | err e ↦ (some (image_failed e), c, w₁)
        | ok t₁ ↦
            let (connected, w₂) = m.prepare_network t₁ w₁ in
            elim connected [
              | err e ↦ (some (network_failed e), c, w₂)
              | ok t₂ ↦ (
                none,
                record c { internal_task = some t₂; prepared = true },
                inject m.secret_mgr c.task.id t₂ w₂,
              )
            ]
      ]

  unfoldable pub prepare : Controller → W → Outcome W
  prepare c w = if c.prepared then (none, c, w) else prepare_with (convert_task c.task) c w

  unfoldable pub start_with : Task → Controller → W → Outcome W
  start_with task c w = elim (m.translate task) [
    | err e ↦ (some (translation_failed e), c, w)
    | ok config ↦
        let (failure, w') = m.vm_start task config w in
        elim failure [
          | some e ↦ (some (start_failed e), c, w')
          | none ↦ (none, record c { started = true }, w')
        ]
  ]

  unfoldable pub start : Controller → W → Outcome W
  start c w =
      if not c.prepared
      then (some not_prepared, c, w)
      else if c.started
      then (none, c, w)
      else elim c.internal_task [
        | none ↦ (some internal_task_missing, c, w)
        | some task ↦ start_with task c w
      ]

  unfoldable pub wait : Controller → W → Outcome W
  wait c w =
      let (status, w') = m.vm_wait (convert_task c.task) w in
      elim status [
        | err e ↦ (some (wait_failed e), c, w')
        | ok (some e) ↦ (some (vm_failed e), c, w')
        | ok none ↦ (none, c, w')
      ]

  unfoldable pub shutdown : Controller → W → Outcome W
  shutdown c w =
      if not c.started
      then (none, c, w)
      else let (failure, w₁) = m.vm_stop (convert_task c.task) w in
        elim failure [
          | some e ↦ (some (shutdown_failed e), c, w₁)
          | none ↦
              let (ignored, w₂) = m.cleanup_network (convert_task c.task) w₁ in
              (none, record c { started = false }, w₂)
        ]

  -- Stop, not ForceStop, and the network stays.
  unfoldable pub terminate : Controller → W → Outcome W
  terminate c w =
      if not c.started
      then (none, c, w)
      else let (failure, w₁) = m.vm_stop (convert_task c.task) w in
        elim failure [
          | some e ↦ (some (terminate_failed e), c, w₁)
          | none ↦ (none, record c { started = false }, w₁)
        ]

  -- What Remove does after the volumes; each failure is logged.
  unfoldable pub discard : Task → W → W
  discard task w =
      let w₁ = (m.cleanup_network task w).1 in
      let w₂ = (m.vm_remove task w₁).1 in
      let w₃ = (m.remove_file (path_join m.rootfs_dir (text_append task.id ".ext4")) w₂).1 in
      (m.remove_file (path_join m.socket_dir (text_append task.id ".sock")) w₃).1

  unfoldable pub remove : Controller → W → Outcome W
  remove c w =
      let task = convert_task c.task in
      let synced = sync_volumes m.volume_mgr c.internal_task task w in
      (
        none,
        record c { started = false; prepared = false },
        call_back m.on_remove (discard task synced),
      )

  -- The identifier, the process id and the exit code of the status, 0 where they are not set.
  unfoldable pub container_status : Controller → W → String × ℤ × ℤ
  container_status c w =
      if not c.started
      then (c.task.id, pos 0, pos 0)
      else if m.is_running c.task.id w
      then (c.task.id, m.get_pid c.task.id w, pos 0)
      else (c.task.id, pos 0, pos 1)
