-- ===== src/Lifecycle/Calls/Settled.antt =====
-- pkg/lifecycle/vmm.go: the states that a VM in the table can have.
use mathlib.Core.Path.{subst}
use swarm_cracker.Prelude.{
  String, List, [], ◌∷◌, some, lookup, lookup-insert, lookup-erase, insert, erase, string_eq, ◌==◌,
  ◌≡◌, sym, Bool-cases, inl, inr,
}
use swarm_cracker.Lifecycle.{
  System, VmState, new, starting, running, stopping, stopped, crashed, VmInstance, Vms,
}
use swarm_cracker.Lifecycle.Calls.{Call, perform, run}
use swarm_cracker.Lifecycle.Calls.Moves.{
  Moves, stays, started, left_stopping, was_stopped, found_dead, removed,
}
use swarm_cracker.Lifecycle.Calls.Steps.{Changes, perform-Changes}

abbrev pub IsSettled : VmState → Type 0
IsSettled running = Unit
IsSettled stopping = Unit
IsSettled stopped = Unit
IsSettled new = ⊥
IsSettled starting = ⊥
IsSettled crashed = ⊥

abbrev pub AllSettled : Vms → Type 0
AllSettled vms = (id : String) (vm : VmInstance) → lookup id vms ≡ some vm → IsSettled vm.state

insert-AllSettled :
    (id : String) (vm : VmInstance) (vms : Vms)
    → IsSettled vm.state
    → AllSettled vms
    → AllSettled (insert id vm vms)
insert-AllSettled id vm vms fine all j v found = elim (Bool-cases (id == j)) [
  | inl same ↦
      let e : vm ≡ v = cc (rw (lookup-insert id j vm vms, same) at found) in
      subst (λ (x : VmInstance). IsSettled x.state) e fine
  | inr other ↦ all j v (rw (lookup-insert id j vm vms, other) at found)
]

erase-AllSettled : (id : String) (vms : Vms) → AllSettled vms → AllSettled (erase id vms)
erase-AllSettled id vms all j v found = elim (Bool-cases (id == j)) [
  | inl same ↦ cc (rw (lookup-erase id j vms, same) at found)
  | inr other ↦ all j v (rw (lookup-erase id j vms, other) at found)
]

Moves-AllSettled : {vms vms' : Vms} → Moves vms vms' → AllSettled vms → AllSettled vms'
Moves-AllSettled (stays vms) all = all
Moves-AllSettled (started vms id vm fresh e) all =
    insert-AllSettled id vm vms (subst IsSettled (sym e) tt) all
Moves-AllSettled (left_stopping vms id vm found rested) all = insert-AllSettled id _ vms tt all
Moves-AllSettled (was_stopped vms id vm found rested) all =
    insert-AllSettled id _ _ tt (insert-AllSettled id _ vms tt all)
Moves-AllSettled (removed vms id vm found rested) all = erase-AllSettled id vms all

Changes-AllSettled : {vms vms' : Vms} → Changes vms vms' → AllSettled vms → AllSettled vms'
Changes-AllSettled (inl moves) all = Moves-AllSettled moves all
Changes-AllSettled (inr (found_dead vms id vm found)) all = insert-AllSettled id _ vms tt all

-- After any calls on a manager that begins with an empty table, each VM in the table is running,
-- stopping or stopped. So no caller meets a VM that is starting.
pub run-AllSettled :
    {W : Type 0} (s : System W) (socket_dir : String) (calls : List (Call W)) (vms : Vms) (w : W)
    → AllSettled vms
    → AllSettled (run s socket_dir calls (vms, w)).0
unfolding run
run-AllSettled s socket_dir [] vms w all = all
run-AllSettled s socket_dir (call ∷ calls) vms w all =
    let next = perform s socket_dir call (vms, w) in
    run-AllSettled s socket_dir calls next.0 next.1
      (Changes-AllSettled (perform-Changes s socket_dir call vms w) all)
