-- ===== src/Runtime/State/Stale.antt =====
-- What `Reconcile` and `ClearStale` leave, and what a failed `Add` and `Remove` do.
use swarm_cracker.Prelude.{
  ℕ, String, [], ◌∷◌, Bool, false, none, some, Option, Map, lookup, insert, lookup-insert, length,
  ◌+◌, lookup-erase, string_eq, ◌==◌, ◌≡◌, ◌≢◌, inl, inr, refl, ap, ◌∙◌, arith, ok, err, Bool-cases,
  if◌then◌else◌, ltb, eq_iff,
}
use swarm_cracker.Runtime.State.{
  VmState, Json, Fault, StateError, StateManager, save, settle_add, Outcome, stopped, add,
  reconcile, clear_stale, mark_lost, drop_stale, with_states, with_defaults, is_lost,
}
use swarm_cracker.Runtime.State.Persistence.{save_atomic}
use swarm_cracker.Runtime.State.Maps.{
  IsKeyed, lookup-mark_lost, lookup-drop_stale, reconciled, unless_stale,
}

-- `save` leaves the map alone.
pub states-save :
    (json : Json) (fault : Fault) (sm : StateManager) → (save json fault sm).1.states ≡ sm.states
states-save json fault sm = elim (save_atomic json fault sm) [
  | inl (done, saved) ↦ saved.1.1
  | inr (failed, kept) ↦ kept.1
]

reconciled-kept :
    (is_running : String → Bool) (now : ℕ) (id : String) (o : Option VmState) (state : VmState)
    → reconciled is_running now id o ≡ some state
    → is_lost is_running id state ≡ false
reconciled-kept is_running now id none state h = cc
reconciled-kept is_running now id (some old) state h =
    elim (Bool-cases (is_lost is_running id old)) [
      | inl lost ↦ let same : stopped now old ≡ state = cc (rw lost at h) in rw (← same) refl
      | inr kept ↦ let same : old ≡ state = cc (rw kept at h) in rw (← same) kept
    ]

-- After `Reconcile`, whether or not the file could be written, each VM that was marked as running
-- and is not running is marked as stopped, each other VM is as it was, and no VM is still marked
-- as running without running.
pub reconcile_lem :
    (json : Json) (fault : Fault) (now : ℕ) (sm : StateManager) (is_running : String → Bool)
    (id : String)
    → (lookup id (reconcile json fault now sm is_running).1.states
        ≡ reconciled is_running now id (lookup id sm.states))
      × ((state : VmState)
          → lookup id (reconcile json fault now sm is_running).1.states ≡ some state
          → is_lost is_running id state ≡ false)
unfolding reconcile
reconcile_lem json fault now sm is_running id =
    let marked = mark_lost is_running now sm.states in
    let states : (reconcile json fault now sm is_running).1.states ≡ marked.1 =
      elim (Bool-cases (ltb 0 marked.0)) [
        | inl some_lost ↦ rw some_lost (states-save json fault (with_states sm marked.1))
        | inr none_lost ↦ rw none_lost refl
      ] in
    let e = lookup-mark_lost is_running now id sm.states in
    rw (states, e) (refl, λ state h. reconciled-kept is_running now id _ state h)

-- After `ClearStale`, whether or not the file could be written, the VMs that are neither stopped nor
-- in error are as they were, and the others are gone, if each state stands under its own id once.
pub clear_stale_lem :
    (json : Json) (fault : Fault) (sm : StateManager) (id : String)
    → IsKeyed sm.states
    → lookup id (clear_stale json fault sm).1.states ≡ unless_stale (lookup id sm.states)
unfolding clear_stale
clear_stale_lem json fault sm id h = elim (Bool-cases (ltb 0 (drop_stale sm.states).0)) [
  | inl some_stale ↦ rw some_stale (
      ap (lookup id) (states-save json fault (with_states sm (drop_stale sm.states).1))
      ∙ lookup-drop_stale id sm.states h)
  | inr none_stale ↦ rw none_stale (lookup-drop_stale id sm.states h)
]

length-drop_stale : (m : Map String VmState) → (drop_stale m).0 + length (drop_stale m).1 ≡ length m
unfolding drop_stale
length-drop_stale [] = refl
length-drop_stale ((j, s) ∷ rest) = ground (arith, length-drop_stale rest)

settle_add-failed :
    (id j : String) (state : VmState) (m : Map String VmState) (r : Outcome Unit × StateManager)
    (e : StateError)
    → r.1.states ≡ insert id state m
    → (settle_add id r).0 ≡ err e
    → lookup j (settle_add id r).1.states ≡ (if id == j then none else lookup j m)
unfolding settle_add
settle_add-failed id j state m (ok u, sm) reason same failed = cc
settle_add-failed id j state m (err x, sm) reason same failed =
    rw (lookup-erase, same, lookup-insert) (ground arith)

-- `Add` of a named VM whose state cannot be saved leaves no state for that VM, also if there was
-- one before, and the states of all other VMs as they were.
pub add_failed :
    (json : Json) (fault : Fault) (now : ℕ) (sm : StateManager) (state : VmState) (id : String)
    (e : StateError)
    → state.id ≢ ""
    → (add json fault now sm state).0 ≡ err e
    → lookup id (add json fault now sm state).1.states
      ≡ (if state.id == id then none else lookup id sm.states)
unfolding add
add_failed json fault now sm state id e named failed =
    let m = insert state.id (with_defaults now state) sm.states in
    let saved = save json fault (with_states sm m) in
    elim (Bool-cases (state.id == "")) [
      | inl empty ↦ absurd (named ((eq_iff state.id "").0 empty))
      | inr nonempty ↦ rw nonempty (
          settle_add-failed state.id id (with_defaults now state) sm.states saved e
            (states-save json fault (with_states sm m)) (rw nonempty at failed))
    ]
