-- ===== src/Lifecycle/Calls/Wedged.antt =====
-- pkg/lifecycle/vmm.go: a VM whose stop did not end in the state "stopped", as after a forced kill.
use mathlib.Core.Path.{subst}
use swarm_cracker.Prelude.{
  String, List, [], ◌∷◌, false, none, some, lookup, lookup-insert, lookup-erase, insert, string_eq,
  ◌==◌, ◌≡◌, All, Bool-cases, inl, inr, Option-cases, beq_refl, eq_iff,
}
use swarm_cracker.Types.{Task}
use swarm_cracker.Swarmkit.Controller.{GoError}
use swarm_cracker.Lifecycle.{
  System, stopping, stopped, VmInstance, Vms, already_stopping, cannot_remove,
}
use swarm_cracker.Lifecycle.Shutdown.{stop, remove, graceful_shutdown, shut_down}
use swarm_cracker.Lifecycle.Queries.{describe_vm, describe}
use swarm_cracker.Lifecycle.Calls.{Call, starts, stops, removes, describes, elapses, perform, run}
use swarm_cracker.Lifecycle.Calls.Moves.{
  Moves, IsAtRest, stays, started, left_stopping, was_stopped, removed, start-Moves,
}
use swarm_cracker.Lifecycle.Calls.Steps.{stop-Moves, remove-Moves}

-- The call is not a Describe of that task.
abbrev pub LeavesAlone : {W : Type 0} → String → Call W → Type 0
LeavesAlone id (describes (some task)) = (task.id == id) ≡ false
LeavesAlone id (describes none) = Unit
LeavesAlone id (starts task config) = Unit
LeavesAlone id (stops task) = Unit
LeavesAlone id (removes task) = Unit
LeavesAlone id (elapses change) = Unit

module _ (id : String) (vm : VmInstance) (stuck : vm.state ≡ stopping) where
  abbrev not_at_rest : IsAtRest vm.state → ⊥
  not_at_rest rested = subst IsAtRest stuck rested

  insert-keeps :
      (j : String) (v : VmInstance) (vms : Vms)
      → (j == id) ≡ false
      → lookup id vms ≡ some vm
      → lookup id (insert j v vms) ≡ some vm
  insert-keeps j v vms other found = rw (lookup-insert j id v vms, other) found

  -- A VM that is at rest under a key is not the one that is stopping.
  apart :
      (vms : Vms) (j : String) (v : VmInstance)
      → lookup j vms ≡ some v
      → IsAtRest v.state
      → lookup id vms ≡ some vm
      → (j == id) ≡ false
  apart vms j v there rested found = elim (Bool-cases (j == id)) [
    | inr other ↦ other
    | inl same ↦
        let e : v ≡ vm = cc ((eq_iff j id).0 same) in
        absurd (not_at_rest (subst (λ (x : VmInstance). IsAtRest x.state) e rested))
  ]

  Moves-keeps :
      {vms vms' : Vms} → Moves vms vms' → lookup id vms ≡ some vm → lookup id vms' ≡ some vm
  Moves-keeps (stays vms) found = found
  Moves-keeps (started vms j v fresh e) found = elim (Bool-cases (j == id)) [
    | inr other ↦ insert-keeps j v vms other found
    | inl same ↦ cc ((eq_iff j id).0 same)
  ]
  Moves-keeps (left_stopping vms j v there rested) found =
      insert-keeps j _ vms (apart vms j v there rested found) found
  Moves-keeps (was_stopped vms j v there rested) found =
      let other = apart vms j v there rested found in
      insert-keeps j _ _ other (insert-keeps j _ vms other found)
  Moves-keeps (removed vms j v there rested) found =
      rw (lookup-erase j id vms, apart vms j v there rested found) found

  module _ {W : Type 0} (s : System W) where
    describe_no_task :
        (vms : Vms) (w : W)
        → lookup id vms ≡ some vm
        → lookup id (describe s none vms w).1 ≡ some vm
    unfolding describe
    describe_no_task vms w found = found

    describe_vm-keeps :
        (j : String) (v : VmInstance) (vms : Vms) (w : W)
        → (j == id) ≡ false
        → lookup id vms ≡ some vm
        → lookup id (describe_vm s j v vms w).1 ≡ some vm
    describe_vm-keeps j v vms w other found = elim (Option-cases (s.find_process v.pid w)) [
      | inr (e, bad) ↦ rw (describe_vm, bad) found
      | inl there ↦ elim (Bool-cases (s.alive v.pid w)) [
        | inl lives ↦ rw (describe_vm, there, lives) found
        | inr dead ↦ rw (describe_vm, there, dead) (insert-keeps j _ vms other found)
      ]
    ]

    describe-keeps :
        (task : Task) (vms : Vms) (w : W)
        → (task.id == id) ≡ false
        → lookup id vms ≡ some vm
        → lookup id (describe s (some task) vms w).1 ≡ some vm
    unfolding describe
    describe-keeps task vms w other found = elim (Option-cases (lookup task.id vms)) [
      | inl missing ↦ rw (describe, missing) found
      | inr (v, known) ↦ rw (describe, known) (describe_vm-keeps task.id v vms w other found)
    ]

    perform-keeps :
        (socket_dir : String) (call : Call W) (vms : Vms) (w : W)
        → LeavesAlone id call
        → lookup id vms ≡ some vm
        → lookup id (perform s socket_dir call (vms, w)).0 ≡ some vm
    unfolding perform
    perform-keeps socket_dir (starts task config) vms w alone found =
        Moves-keeps (start-Moves s socket_dir task config vms w) found
    perform-keeps socket_dir (stops task) vms w alone found =
        Moves-keeps (stop-Moves s task vms w) found
    perform-keeps socket_dir (removes task) vms w alone found =
        Moves-keeps (remove-Moves s task vms w) found
    perform-keeps socket_dir (describes (some task)) vms w alone found =
        describe-keeps task vms w alone found
    perform-keeps socket_dir (describes none) vms w alone found = describe_no_task vms w found
    perform-keeps socket_dir (elapses change) vms w alone found = found

    run-keeps :
        (socket_dir : String) (calls : List (Call W)) (vms : Vms) (w : W)
        → All (LeavesAlone id) calls
        → lookup id vms ≡ some vm
        → lookup id (run s socket_dir calls (vms, w)).0 ≡ some vm
    unfolding run
    run-keeps socket_dir [] vms w alone found = found
    run-keeps socket_dir (call ∷ calls) vms w (alone, rest) found =
        let next = perform s socket_dir call (vms, w) in
        run-keeps socket_dir calls next.0 next.1 rest
          (perform-keeps socket_dir call vms w alone found)

pub remove_refuses :
    {W : Type 0} (s : System W) (vms : Vms) (w : W) (task : Task) (vm : VmInstance)
    → lookup task.id vms ≡ some vm
    → vm.state ≡ stopping
    → remove s (some task) vms w ≡ (some (cannot_remove stopping), vms, w)
unfolding remove
remove_refuses s vms w task vm found stuck = simp (remove, found, stuck)

-- A VM that is stopping stays in that state, and Stop and Remove refuse it, after any calls among
-- which there is no Describe of its task, whatever happens to its process.
pub run_refuses :
    {W : Type 0} (s : System W) (socket_dir : String) (calls : List (Call W)) (vms : Vms) (w : W)
    (task : Task) (vm : VmInstance)
    → lookup task.id vms ≡ some vm
    → vm.state ≡ stopping
    → All (LeavesAlone task.id) calls
    → let (vms', w') = run s socket_dir calls (vms, w) in
      (lookup task.id vms' ≡ some vm)
      × (stop s (some task) vms' w' ≡ (some already_stopping, vms', w'))
      × (remove s (some task) vms' w' ≡ (some (cannot_remove stopping), vms', w'))
unfolding stop
run_refuses s socket_dir calls vms w task vm found stuck alone =
    let kept = run-keeps task.id vm stuck s socket_dir calls vms w alone found in
    (kept, simp (stop, kept, stuck), remove_refuses s _ _ task vm kept stuck)

-- Stop of a VM in no transition that has an init system and whose process cannot be signalled any
-- more, as after an earlier Stop, leaves the VM in the state "stopping".
pub stop_unsignalled :
    {W : Type 0} (s : System W) (vms : Vms) (w : W) (task : Task) (vm : VmInstance) (e : GoError)
    → lookup task.id vms ≡ some vm
    → vm.state ≡ stopped
    → (vm.init_system == "none") ≡ false
    → s.find_process vm.pid w ≡ none
    → (s.terminate vm.pid w).0 ≡ some e
    → lookup task.id (stop s (some task) vms w).1 ≡ some (record vm { state = stopping })
unfolding stop graceful_shutdown
stop_unsignalled s vms w task vm e found was init there gone =
    simp
      (stop, found, was, shut_down, init, graceful_shutdown, there, gone, lookup-insert, beq_refl)
