-- ===== src/Swarmkit/Composition.antt =====
-- pkg/swarmkit: the controller of executor.go with the task translator of translator.go and the VM
-- manager of vmm.go in the place of its interfaces. The other managers act on a world `W`, which the
-- table of processes joins.
use swarm_cracker.Prelude.{
  ℕ, String, false, Option, none, some, Map, lookup, erase, lookup-erase, beq_refl, string_eq, ◌==◌,
  Result, ok, err, ◌≡◌, refl, ap, ◌∙◌,
}
use swarm_cracker.Image.Text.{Text}
use swarm_cracker.Types.{Task}
use swarm_cracker.Swarmkit.Convert.{convert_task, id-convert_task}
use swarm_cracker.Swarmkit.Controller.{
  GoError, Managers, VolumeManager, SecretManager, Controller, remove, discard, call_back,
}
use swarm_cracker.Swarmkit.Controller.Volumes.{sync_volumes-convert_task}
use swarm_cracker.Swarmkit.Translator.{TaskTranslator, TaskIdError, VmConfig, translate}
use swarm_cracker.Swarmkit.Vmm.{
  System, VmmError, VmStatus, complete, running, failed, start_direct, stop, wait_vm, remove_vm,
  is_vm_running, get_vm_pid, describe,
}

-- An operation that does not see the table.
abbrev beside : {P W A : Type 0} → (W → A × W) → P × W → A × (P × W)
beside f (procs, w) = let (a, w') = f w in (a, (procs, w'))

abbrev beside_world : {P W : Type 0} → (W → W) → P × W → P × W
beside_world f (procs, w) = (procs, f w)

abbrev map_error : (VmmError → GoError) → Option VmmError → Option GoError
map_error text none = none
map_error text (some e) = some (text e)

abbrev wait_result : VmStatus → Result GoError (Option GoError)
wait_result complete = ok none
wait_result running = ok none
wait_result (failed e) = ok (some e)

abbrev volumes_beside :
    {P W Volume : Type 0} → VolumeManager W Volume → VolumeManager (P × W) Volume
volumes_beside v = record {
  mount_rootfs = λ path. beside (v.mount_rootfs path);
  unmount_rootfs = λ dir. beside_world (v.unmount_rootfs dir);
  get_volume = λ name. beside (v.get_volume name);
  unmount_volume =
      λ volume dir target read_only. beside (v.unmount_volume volume dir target read_only);
}

abbrev secrets_beside : {P W : Type 0} → SecretManager W → SecretManager (P × W)
secrets_beside s = record {
  inject_secrets = λ id refs path. beside (s.inject_secrets id refs path);
  inject_configs = λ id refs path. beside (s.inject_configs id refs path);
}

abbrev map_option : {A B : Type 0} → (A → B) → Option A → Option B
map_option f none = none
map_option f (some a) = some (f a)

module _ {W Proc Volume : Type 0} (m : Managers W Volume VmConfig) (s : System W Proc)
    (t : TaskTranslator) (decimal : ℕ → Text) (hex_sha256 : Text → Text) (text : VmmError → GoError)
    (id_text : TaskIdError → GoError) where
  abbrev translate_text : Result TaskIdError VmConfig → Result GoError VmConfig
  translate_text (ok config) = ok config
  translate_text (err e) = err (id_text e)

  -- The interfaces of the controller, filled in.
  abbrev pub composed : Managers (Map String Proc × W) Volume VmConfig
  composed = record {
    prepare_image = λ task. beside (m.prepare_image task);
    prepare_network = λ task. beside (m.prepare_network task);
    cleanup_network = λ task. beside (m.cleanup_network task);
    translate = λ task. translate_text (translate decimal hex_sha256 t task);
    vm_start = λ task config (procs, w).
        let (e, procs', w') = start_direct s task.id procs w in (map_error text e, (procs', w'));
    vm_stop = λ task (procs, w).
        let (e, procs', w') = stop s task.id procs w in (map_error text e, (procs', w'));
    vm_wait = λ task (procs, w).
        let (status, w') = wait_vm s task.id procs w in (wait_result status, (procs, w'));
    vm_remove = λ task (procs, w). (none, remove_vm s task.id procs w);
    is_running = λ id (procs, w). is_vm_running s id procs w;
    get_pid = λ id (procs, w). get_vm_pid s id procs;
    volume_mgr = map_option volumes_beside m.volume_mgr;
    secret_mgr = map_option secrets_beside m.secret_mgr;
    remove_file = λ path. beside (m.remove_file path);
    on_remove = map_option beside_world m.on_remove;
    rootfs_dir = m.rootfs_dir;
    socket_dir = m.socket_dir;
  }

  table-call_back :
      (f : Option (W → W)) (pw : Map String Proc × W)
      → (call_back (map_option beside_world f) pw).0 ≡ pw.0
  table-call_back none pw = refl
  table-call_back (some f) pw = refl

  table-discard :
      (task : Task) (procs : Map String Proc) (w : W)
      → (discard composed task (procs, w)).0 ≡ erase task.id procs
  unfolding discard remove_vm
  table-discard task procs w = refl

  table-remove :
      (c : Controller) (procs : Map String Proc) (w : W)
      → (remove composed c (procs, w)).2.0 ≡ erase c.task.id procs
  unfolding remove
  table-remove c procs w =
      table-call_back m.on_remove _
      ∙ ap (λ pw. (discard composed (convert_task c.task) pw).0)
          (sync_volumes-convert_task composed.volume_mgr c.internal_task c.task (procs, w))
      ∙ table-discard (convert_task c.task) procs w
      ∙ ap (λ id. erase id procs) (id-convert_task c.task)

  -- When the agent removes a task through the controller, whatever the managers and the system answer,
  -- the VM manager describes the task as complete afterwards, and the processes of other tasks are in
  -- its table as before.
  pub remove-describe :
      (c : Controller) (procs : Map String Proc) (w : W)
      → let after = (remove composed c (procs, w)).2.0 in
        (describe c.task.id after ≡ complete)
        × ((other : String)
            → (c.task.id == other) ≡ false
            → lookup other after ≡ lookup other procs)
  unfolding describe
  remove-describe c procs w =
      let gone : lookup c.task.id (erase c.task.id procs) ≡ none =
        rw (lookup-erase, beq_refl c.task.id) refl in
      (
        rw (table-remove c procs w, describe, gone) refl,
        λ other differs. rw (table-remove c procs w, lookup-erase, differs) refl,
      )
