-- ===== src/Swarmkit/Controller/Volumes.antt =====
-- pkg/swarmkit/executor.go, Remove: what comes of the data of the volumes.
use swarm_cracker.Prelude.{
  List, [], ◌∷◌, false, Option, none, some, lookup, ok, Result-cases, ◌≡◌, refl, ap, inl, inr,
}
use swarm_cracker.Types.{Task, Mount, Container, get_container}
use swarm_cracker.Swarmkit.Api.{ApiTask}
use swarm_cracker.Swarmkit.Convert.{convert_task, annotations-convert_task}
use swarm_cracker.Swarmkit.Controller.{
  Managers, VolumeManager, Controller, sync_volume_data, sync_back, sync_volumes, discard, remove,
  call_back,
}

module _ {W Volume : Type 0} (v : VolumeManager W Volume) (api : ApiTask) where
  -- A converted task has no annotation, so the path of its root file system is missing.
  sync_volume_data-convert_task :
      (mounts : List Mount) (w : W) → sync_volume_data v (convert_task api) mounts w ≡ w
  unfolding sync_volume_data lookup
  sync_volume_data-convert_task mounts w = rw (sync_volume_data, annotations-convert_task api) refl

  sync_mounts_of :
      (mounts : List Mount) (internal : Task) (w : W) (c : Container)
      → get_container internal.spec ≡ ok c
      → c.mounts ≡ mounts
      → sync_back v internal (convert_task api) w ≡ w
  unfolding sync_back
  sync_mounts_of [] internal w c found has = rw (sync_back, found, has) refl
  sync_mounts_of (x ∷ xs) internal w c found has =
      rw (sync_back, found, has) (sync_volume_data-convert_task (x ∷ xs) w)

  sync_back-convert_task : (internal : Task) (w : W) → sync_back v internal (convert_task api) w ≡ w
  unfolding sync_back
  sync_back-convert_task internal w = elim (Result-cases (get_container internal.spec)) [
    | inr (e, failed) ↦ rw (sync_back, failed) refl
    | inl (c, found) ↦ sync_mounts_of c.mounts internal w c found refl
  ]

pub sync_volumes-convert_task :
    {W Volume : Type 0} (v : Option (VolumeManager W Volume)) (internal : Option Task)
    (api : ApiTask) (w : W)
    → sync_volumes v internal (convert_task api) w ≡ w
unfolding sync_volumes
sync_volumes-convert_task none internal api w = refl
sync_volumes-convert_task (some v) none api w = refl
sync_volumes-convert_task (some v) (some t) api w = sync_back-convert_task v api t w

-- Remove does the same with a volume manager as without one: the data of no volume is written back.
pub remove_never_syncs :
    {W Volume VmConfig : Type 0} (m : Managers W Volume VmConfig) (c : Controller) (w : W)
    → remove m c w ≡ remove (record m { volume_mgr = none }) c w
unfolding remove discard sync_volumes
remove_never_syncs m c w =
    ap
      (λ synced. (
        none,
        record c { started = false; prepared = false },
        call_back m.on_remove (discard m (convert_task c.task) synced),
      ))
      (sync_volumes-convert_task m.volume_mgr c.internal_task c.task w)
