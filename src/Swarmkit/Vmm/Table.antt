-- ===== src/Swarmkit/Vmm/Table.antt =====
-- pkg/swarmkit/vmm.go, VMMManager: which processes the table has after a call.
use swarm_cracker.Prelude.{
  String, false, none, Map, lookup, insert, erase, lookup-insert, lookup-erase, string_eq, ◌==◌, ok,
  Option-cases, pos, ◌≡◌, inl, inr, refl, beq_refl,
}
use swarm_cracker.Swarmkit.Vmm.{
  System, complete, running, await_ready, start_direct, wait_vm, get_vm_pid, is_vm_running,
  remove_vm, describe,
}

module _ {W Proc : Type 0} (s : System W Proc) (id : String) (procs : Map String Proc) (w : W) where
  await_ready_keeps : (proc : Proc) → (await_ready s proc id procs w).1 ≡ procs
  unfolding await_ready
  await_ready_keeps proc = elim (Option-cases (s.wait_for_socket id w).0) [
    | inr (e, unready) ↦ rw (await_ready, unready) refl
    | inl ready ↦ elim (Option-cases (s.configure_vm id (s.wait_for_socket id w).1).0) [
      | inr (e, unset) ↦ rw (await_ready, ready, unset) refl
      | inl set ↦ rw (await_ready, ready, set) refl
    ]
  ]

module _ {W Proc : Type 0} (s : System W Proc) (id : String) (procs : Map String Proc) (w : W) where
  -- After Remove of a task, whatever the system answers, the manager describes it as complete, does
  -- not count it as running, reports no process id and waits for nothing; and each other task has the
  -- process that it had.
  pub remove_vm_forgets :
      let (after, w') = remove_vm s id procs w in
      (describe id after ≡ complete)
      × (is_vm_running s id after w' ≡ false)
      × (get_vm_pid s id after ≡ pos 0)
      × (wait_vm s id after w' ≡ (complete, w'))
      × ((other : String) → (id == other) ≡ false → lookup other after ≡ lookup other procs)
  unfolding remove_vm describe is_vm_running get_vm_pid wait_vm
  remove_vm_forgets =
      let gone : lookup id (erase id procs) ≡ none = rw (lookup-erase, beq_refl id) refl in
      (
        rw (describe, gone) refl,
        rw (is_vm_running, gone) refl,
        rw (get_vm_pid, gone) refl,
        rw (wait_vm, gone) refl,
        λ other differs. rw (lookup-erase, differs) refl,
      )

  -- Once its process is launched, the manager describes a task as running, also if Start then fails
  -- because the socket does not appear or the VM cannot be configured, and has killed the process.
  pub start_direct_tracks :
      (proc : Proc)
      → (s.make_socket_dir w).0 ≡ none
      → (s.launch id (s.make_socket_dir w).1).0 ≡ ok proc
      → describe id (start_direct s id procs w).1 ≡ running
  unfolding start_direct describe
  start_direct_tracks proc dir launched =
      rw (start_direct, dir, launched)
        (rw
          (
            await_ready_keeps s id (insert id proc procs) _ proc,
            describe,
            lookup-insert,
            beq_refl id,
          )
          refl)
