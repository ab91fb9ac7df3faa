-- ===== src/Runtime/State.antt =====
-- pkg/runtime/state.go: StateManager. Its state is the map, the state file and the temporary file
-- beside it. `now` is the clock at a call, and 0 is the zero time.
pub mod Maps
pub mod Persistence
pub mod Stale
use swarm_cracker.Prelude.{
  ℕ, suc, ◌+◌, String, List, [], ◌∷◌, map, Bool, true, false, not, ◌||◌, ◌&&◌, Option, none, some,
  Map, lookup, insert, erase, string_eq, nat_eq, ◌==◌, Result, ok, err, ltb, if◌then◌else◌,
}

pub record VmState : Type 0 where
  pub id : String
  pub pid : ℕ
  pub socket_path : String
  pub image : String
  pub status : String
  pub start_time : ℕ
  pub command : List String
  pub vcpus : ℕ
  pub memory_mb : ℕ
  pub kernel_path : String
  pub rootfs_path : String
  pub log_path : String
  pub network_id : String
  pub ip_addresses : List String
  pub last_error : String
  pub error_time : ℕ

-- `encoding/json` on lists of states. `none` is an error of the decoder.
pub record Json : Type 0 where
  pub encode : List VmState → List ℕ
  pub decode : List ℕ → Option (List VmState)

pub data StateError : Type 0 where
  empty_id marshal_failed write_failed rename_failed not_exist unmarshal_failed : StateError
  vm_not_found : String → StateError

abbrev pub Outcome : Type 0 → Type 0
Outcome = Result StateError

-- What goes wrong in one `save`: the encoding, the write of the temporary file, which then leaves what
-- is given here under its name, the renaming, and the removal of the temporary file.
pub record Fault : Type 0 where
  pub marshal_fails : Bool
  pub failed_write : Option (Option (List ℕ))
  pub rename_fails : Bool
  pub remove_fails : Bool

abbrev pub no_fault : Fault
no_fault = record {
  marshal_fails = false;
  failed_write = none;
  rename_fails = false;
  remove_fails = false;
}

pub record StateManager : Type 0 where
  pub states : Map String VmState
  pub state_file : Option (List ℕ)
  pub tmp_file : Option (List ℕ)

-- The values, in the order of the map; Go's order is not specified.
unfoldable pub list : StateManager → List VmState
list sm = map (λ entry. entry.1) sm.states

-- os.WriteFile to the temporary file
abbrev pub write_tmp : Fault → List ℕ → StateManager → Outcome Unit × StateManager
write_tmp fault bytes sm = elim fault.failed_write [
  | none ↦ (ok tt, record sm { tmp_file = some bytes })
  | some left ↦ (err write_failed, record sm { tmp_file = left })
]

-- os.Rename of the temporary file to the state file
abbrev pub rename_tmp : Fault → StateManager → Outcome Unit × StateManager
rename_tmp fault sm =
    if fault.rename_fails
    then (err rename_failed, sm)
    else (ok tt, record sm { state_file = sm.tmp_file; tmp_file = none })

-- os.Remove of the temporary file, whose error is ignored
abbrev pub remove_tmp : Fault → StateManager → StateManager
remove_tmp fault sm = if fault.remove_fails then sm else record sm { tmp_file = none }

abbrev pub put_in_place : Fault → StateManager → Outcome Unit × StateManager
put_in_place fault sm =
    let (result, sm') = rename_tmp fault sm in
    elim result [ ok _ ↦ (ok tt, sm') | err e ↦ (err e, remove_tmp fault sm') ]

unfoldable pub save : Json → Fault → StateManager → Outcome Unit × StateManager
unfolding list
save json fault sm =
    let (result, sm') = write_tmp fault (json.encode (list sm)) sm in
    if fault.marshal_fails
    then (err marshal_failed, sm)
    else elim result [ ok _ ↦ put_in_place fault sm' | err e ↦ (err e, sm') ]

abbrev pub with_defaults : ℕ → VmState → VmState
with_defaults now state = record state {
  start_time = if state.start_time == 0 then now else state.start_time;
  status = if state.status == "" then "running" else state.status;
}

abbrev pub with_states : StateManager → Map String VmState → StateManager
with_states sm states = record sm { states = states }

-- A failed save takes the state out of the map again.
unfoldable pub settle_add : String → Outcome Unit × StateManager → Outcome Unit × StateManager
settle_add id (ok _, saved) = (ok tt, saved)
settle_add id (err e, saved) = (err e, with_states saved (erase id saved.states))

unfoldable pub add : Json → Fault → ℕ → StateManager → VmState → Outcome Unit × StateManager
unfolding settle_add
add json fault now sm state =
    if state.id == ""
    then (err empty_id, sm)
    else settle_add state.id
        (save json fault (with_states sm (insert state.id (with_defaults now state) sm.states)))

unfoldable pub get : StateManager → String → Outcome VmState
get sm id = elim (lookup id sm.states) [ none ↦ err (vm_not_found id) | some state ↦ ok state ]

-- The state is changed before the file is written, and stays changed if that fails.
unfoldable pub update :
    Json → Fault → StateManager → String → (VmState → VmState) → Outcome Unit × StateManager
update json fault sm id change = elim (lookup id sm.states) [
  | none ↦ (err (vm_not_found id), sm)
  | some state ↦ save json fault (with_states sm (insert id (change state) sm.states))
]

unfoldable pub update_status :
    Json → Fault → StateManager → String → String → Outcome Unit × StateManager
unfolding update
update_status json fault sm id status =
    update json fault sm id (λ state. record state { status = status })

unfoldable pub update_error :
    Json → Fault → ℕ → StateManager → String → String → Outcome Unit × StateManager
unfolding update
update_error json fault now sm id message =
    update json fault sm id
      λ state. record state { last_error = message; error_time = now; status = "error" }

unfoldable pub remove : Json → Fault → StateManager → String → Outcome Unit × StateManager
remove json fault sm id = elim (lookup id sm.states) [
  | none ↦ (err (vm_not_found id), sm)
  | some state ↦ save json fault (with_states sm (erase id sm.states))
]

-- The map that `Load` rebuilds.
unfoldable pub rebuild : Map String VmState → List VmState → Map String VmState
rebuild states [] = states
rebuild states (state ∷ rest) = rebuild (insert state.id state states) rest

unfoldable pub load : Json → StateManager → Outcome Unit × StateManager
load json sm = elim sm.state_file [
  | none ↦ (err not_exist, sm)
  | some bytes ↦ elim bytes [
    | [] ↦ (ok tt, sm)
    | b ∷ rest ↦ elim (json.decode (b ∷ rest)) [
      | none ↦ (err unmarshal_failed, sm)
      | some states ↦ (ok tt, with_states sm (rebuild [] states))
    ]
  ]
]

-- `NewStateManager` on the files that it finds: a state file that is not there is no error.
unfoldable pub new_state_manager : Json → Option (List ℕ) → Option (List ℕ) → Outcome StateManager
unfolding load
new_state_manager json state_file tmp_file =
    let (result, sm) =
      load json (record { states = []; state_file = state_file; tmp_file = tmp_file }) in
    elim result [ ok _ ↦ ok sm | err e ↦ elim e [ not_exist ↦ ok sm | other ↦ err other ] ]

abbrev pub stopped : ℕ → VmState → VmState
stopped now state = record state {
  status = "stopped";
  last_error = "Process not found - VM was killed externally";
  error_time = now;
}

-- Marked as running, and not running.
abbrev pub is_lost : (String → Bool) → String → VmState → Bool
is_lost is_running id state = state.status == "running" && not (is_running id)

unfoldable pub mark_lost : (String → Bool) → ℕ → Map String VmState → ℕ × Map String VmState
mark_lost is_running now [] = (0, [])
mark_lost is_running now ((id, state) ∷ rest) =
    let (count, marked) = mark_lost is_running now rest in
    if is_lost is_running id state
    then (suc count, (id, stopped now state) ∷ marked)
    else (count, (id, state) ∷ marked)

-- An error of `save` is ignored.
unfoldable pub reconcile : Json → Fault → ℕ → StateManager → (String → Bool) → ℕ × StateManager
reconcile json fault now sm is_running =
    let (count, marked) = mark_lost is_running now sm.states in
    let reconciled = with_states sm marked in
    if ltb 0 count then (count, (save json fault reconciled).1) else (count, reconciled)

abbrev pub is_stale : VmState → Bool
is_stale state = state.status == "stopped" || state.status == "error"

unfoldable pub drop_stale : Map String VmState → ℕ × Map String VmState
drop_stale [] = (0, [])
drop_stale ((id, state) ∷ rest) =
    let (count, kept) = drop_stale rest in
    if is_stale state then (suc count, kept) else (count, (id, state) ∷ kept)

unfoldable pub clear_stale : Json → Fault → StateManager → ℕ × StateManager
clear_stale json fault sm =
    let (count, kept) = drop_stale sm.states in
    let cleared = with_states sm kept in
    if ltb 0 count then (count, (save json fault cleared).1) else (count, cleared)
