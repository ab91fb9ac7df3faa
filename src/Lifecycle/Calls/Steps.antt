-- ===== src/Lifecycle/Calls/Steps.antt =====
-- pkg/lifecycle/vmm.go: each call on the manager makes a move of the state machine.
use mathlib.Core.Path.{subst}
use swarm_cracker.Prelude.{
  String, Option, none, some, lookup, string_eq, ◌≡◌, ◌⊎◌, refl, sym, Bool-cases, Option-cases, inl,
  inr,
}
use swarm_cracker.Types.{Task}
use swarm_cracker.Lifecycle.{
  System, VmState, new, starting, running, stopping, stopped, crashed, VmInstance, Vms,
}
use swarm_cracker.Lifecycle.Shutdown.{begin_stop, stop, begin_remove, remove}
use swarm_cracker.Lifecycle.Queries.{describe_vm, describe}
use swarm_cracker.Lifecycle.Calls.{Call, starts, stops, removes, describes, elapses, perform}
use swarm_cracker.Lifecycle.Calls.Moves.{
  IsAtRest, Moves, FindsDead, stays, found_dead, removed, start-Moves, shut_down-Moves,
}

abbrev pub Changes : Vms → Vms → Type 0
Changes vms vms' = Moves vms vms' ⊎ FindsDead vms vms'

module _ {W : Type 0} (s : System W) where
  module _ (id : String) (vm : VmInstance) (vms : Vms) (found : lookup id vms ≡ some vm) where
    begin_stop-Moves :
        (state : VmState) (w : W) → vm.state ≡ state → Moves vms (begin_stop s id vm state vms w).1
    begin_stop-Moves stopping w e = stays vms
    begin_stop-Moves starting w e = stays vms
    begin_stop-Moves new w e = shut_down-Moves s id vm vms found (subst IsAtRest (sym e) tt) w
    begin_stop-Moves running w e = shut_down-Moves s id vm vms found (subst IsAtRest (sym e) tt) w
    begin_stop-Moves stopped w e = shut_down-Moves s id vm vms found (subst IsAtRest (sym e) tt) w
    begin_stop-Moves crashed w e = shut_down-Moves s id vm vms found (subst IsAtRest (sym e) tt) w

    begin_remove-Moves :
        (state : VmState) (w : W)
        → vm.state ≡ state
        → Moves vms (begin_remove s id vm state vms w).1
    begin_remove-Moves stopping w e = stays vms
    begin_remove-Moves starting w e = stays vms
    begin_remove-Moves new w e = removed vms id vm found (subst IsAtRest (sym e) tt)
    begin_remove-Moves running w e = removed vms id vm found (subst IsAtRest (sym e) tt)
    begin_remove-Moves stopped w e = removed vms id vm found (subst IsAtRest (sym e) tt)
    begin_remove-Moves crashed w e = removed vms id vm found (subst IsAtRest (sym e) tt)

    describe_vm-Changes : (w : W) → Changes vms (describe_vm s id vm vms w).1
    describe_vm-Changes w = elim (Option-cases (s.find_process vm.pid w)) [
      | inr (e, bad) ↦ rw (describe_vm, bad) (inl (stays vms))
      | inl there ↦ elim (Bool-cases (s.alive vm.pid w)) [
        | inl lives ↦ rw (describe_vm, there, lives) (inl (stays vms))
        | inr dead ↦ rw (describe_vm, there, dead) (inr (found_dead vms id vm found))
      ]
    ]

  pub stop-Moves : (task : Option Task) (vms : Vms) (w : W) → Moves vms (stop s task vms w).1
  unfolding stop
  stop-Moves none vms w = stays vms
  stop-Moves (some task) vms w = elim (Option-cases (lookup task.id vms)) [
    | inl missing ↦ rw (stop, missing) (stays vms)
    | inr (vm, found) ↦ rw (stop, found) (begin_stop-Moves task.id vm vms found vm.state w refl)
  ]

  pub remove-Moves : (task : Option Task) (vms : Vms) (w : W) → Moves vms (remove s task vms w).1
  unfolding remove
  remove-Moves none vms w = stays vms
  remove-Moves (some task) vms w = elim (Option-cases (lookup task.id vms)) [
    | inl missing ↦ rw (remove, missing) (stays vms)
    | inr (vm, found) ↦ rw (remove, found) (begin_remove-Moves task.id vm vms found vm.state w refl)
  ]

  describe-Changes :
      (task : Option Task) (vms : Vms) (w : W) → Changes vms (describe s task vms w).1
  unfolding describe
  describe-Changes none vms w = inl (stays vms)
  describe-Changes (some task) vms w = elim (Option-cases (lookup task.id vms)) [
    | inl missing ↦ rw (describe, missing) (inl (stays vms))
    | inr (vm, found) ↦ rw (describe, found) (describe_vm-Changes task.id vm vms found w)
  ]

  -- Each call on the manager, whatever the system answers, leaves the table alone or makes one move:
  -- a VM that was not known is running; a VM in no transition is stopping, or has been stopped, or is
  -- removed; a VM whose process is found dead is stopped. The other VMs stay as they are.
  pub perform-Changes :
      (socket_dir : String) (call : Call W) (vms : Vms) (w : W)
      → Changes vms (perform s socket_dir call (vms, w)).0
  unfolding perform
  perform-Changes socket_dir (starts task config) vms w =
      inl (start-Moves s socket_dir task config vms w)
  perform-Changes socket_dir (stops task) vms w = inl (stop-Moves task vms w)
  perform-Changes socket_dir (removes task) vms w = inl (remove-Moves task vms w)
  perform-Changes socket_dir (describes task) vms w = describe-Changes task vms w
  perform-Changes socket_dir (elapses change) vms w = inl (stays vms)
