-- ===== src/Runtime/State/Persistence.antt =====
-- The state file against the map: what a restart finds.
use swarm_cracker.Prelude.{
  ℕ, String, List, [], ◌∷◌, Bool, true, false, ◌||◌, none, some, Map, lookup, insert, erase,
  string_eq, ◌==◌, ◌≡◌, ◌≢◌, ◌⊎◌, inl, inr, refl, sym, ◌∙◌, arith, ok, err, Option-cases,
  Bool-cases, ltb,
}
use swarm_cracker.Runtime.State.{
  VmState, Json, Fault, StateError, no_fault, StateManager, save, write_tmp, put_in_place,
  rename_tmp, remove_tmp, marshal_failed, write_failed, rename_failed, load, list, add, update,
  remove, update_status, update_error, reconcile, clear_stale, mark_lost, drop_stale, with_states,
  with_defaults, rebuild,
}
use swarm_cracker.Runtime.State.Maps.{
  IsKeyed, keyed-lookup, mark_lost-none, drop_stale-none, insert-IsKeyed, erase-IsKeyed,
  lookup-rebuild, mark_lost-IsKeyed, drop_stale-IsKeyed,
}

-- What is relied on of `encoding/json`: what it writes it reads back, and it never writes nothing.
pub record IsCodec (json : Json) : Type 0 where
  pub decode-encode : (states : List VmState) → json.decode (json.encode states) ≡ some states
  pub encode-ne_nil : (states : List VmState) → json.encode states ≢ []

remove_tmp_keeps :
    (fault : Fault) (sm : StateManager)
    → ((remove_tmp fault sm).state_file ≡ sm.state_file)
      × ((remove_tmp fault sm).states ≡ sm.states)
remove_tmp_keeps fault sm = elim (Bool-cases fault.remove_fails) [
  | inl left ↦ rw left (refl, refl)
  | inr gone ↦ rw gone (refl, refl)
]

-- `save` succeeds exactly if the encoding, the write and the renaming do; then the state file encodes the
-- states of the manager and there is no temporary file. Otherwise the state file is as it was, whichever
-- step failed. The states in memory are never changed.
pub save_atomic :
    (json : Json) (fault : Fault) (sm : StateManager)
    → ((((save json fault sm).0 ≡ ok tt)
          × ((fault.marshal_fails || fault.rename_fails ≡ false) × (fault.failed_write ≡ none)))
        × (((save json fault sm).1.state_file ≡ some (json.encode (list sm)))
            × (((save json fault sm).1.tmp_file ≡ none)
                × ((save json fault sm).1.states ≡ sm.states))))
      ⊎ ((((e : StateError) × ((save json fault sm).0 ≡ err e))
            × ((fault.marshal_fails || fault.rename_fails ≡ true) ⊎ (fault.failed_write ≢ none)))
          × (((save json fault sm).1.state_file ≡ sm.state_file)
              × ((save json fault sm).1.states ≡ sm.states)))
unfolding save
save_atomic json fault sm = elim (Bool-cases fault.marshal_fails) [
  | inl unencoded ↦
      let at : save json fault sm ≡ (err marshal_failed, sm) = simp (save, unencoded) in
      rw at (inr (((_, refl), inl (simp unencoded)), (refl, refl)))
  | inr encoded ↦ elim (Option-cases fault.failed_write) [
    | inr (left, unwritten) ↦
        let at : save json fault sm ≡ (err write_failed, record sm { tmp_file = left }) =
          simp (save, write_tmp, put_in_place, encoded, unwritten) in
        rw at (inr (((_, refl), inr (λ none_left. cc (unwritten, none_left))), (refl, refl)))
    | inl written ↦ elim (Bool-cases fault.rename_fails) [
      | inr renamed ↦
          let bytes = some (json.encode (list sm)) in
          let at : save json fault sm ≡ (ok tt, record sm { state_file = bytes; tmp_file = none }) =
            simp (save, write_tmp, put_in_place, rename_tmp, encoded, written, renamed) in
          rw at (inl ((refl, (simp (encoded, renamed), written)), (refl, (refl, refl))))
      | inl stuck ↦
          let tmp = record sm { tmp_file = some (json.encode (list sm)) } in
          let at : save json fault sm ≡ (err rename_failed, remove_tmp fault tmp) =
            simp (save, write_tmp, put_in_place, rename_tmp, encoded, written, stuck) in
          rw at (inr (((_, refl), inl (simp (encoded, stuck))), remove_tmp_keeps fault tmp))
    ]
  ]
]

-- A new process: an empty map over the files that are there.
abbrev pub restart : StateManager → StateManager
restart sm = with_states sm []

-- The states that a new process loads.
abbrev pub recovered : Json → StateManager → Map String VmState
recovered json sm = (load json (restart sm)).1.states

-- The map is keyed, and a new process would load the same states.
pub record IsSynced (json : Json) (sm : StateManager) : Type 0 where
  pub keyed : IsKeyed sm.states
  pub same : (id : String) → lookup id (recovered json sm) ≡ lookup id sm.states

module _ (json : Json) (codec : IsCodec json) where
  load-some :
      (bytes : List ℕ) (sm : StateManager) (states : List VmState)
      → sm.state_file ≡ some bytes
      → bytes ≢ []
      → json.decode bytes ≡ some states
      → (load json sm).1.states ≡ rebuild [] states
  unfolding load
  load-some [] sm states e nonempty d = absurd (nonempty refl)
  load-some (b ∷ rest) sm states e nonempty d = rw (e, d, load)

  -- A successful save leaves file and map in step.
  save-IsSynced : (sm : StateManager) → IsKeyed sm.states → IsSynced json (save json no_fault sm).1
  unfolding save
  save-IsSynced sm h =
      let saved = (save json no_fault sm).1 in
      record {
        keyed = h;
        same = λ id.
            rw
              (load-some (json.encode (list sm)) (restart saved) (list sm) refl
                (codec.encode-ne_nil (list sm)) (codec.decode-encode (list sm)))
              (lookup-rebuild id sm.states h);
      }

  add-IsSynced :
      (now : ℕ) (sm : StateManager) (state : VmState)
      → IsSynced json sm
      → IsSynced json (add json no_fault now sm state).1
  unfolding add
  add-IsSynced now sm state h = elim (Bool-cases (state.id == "")) [
    | inl empty ↦ rw empty h
    | inr named ↦
        let m = insert state.id (with_defaults now state) sm.states in
        let synced =
          save-IsSynced (with_states sm m)
            (insert-IsKeyed state.id (with_defaults now state) sm.states refl h.keyed) in
        rw named (unfold save in synced)
  ]

  update-IsSynced :
      (sm : StateManager) (id : String) (change : VmState → VmState)
      → ((state : VmState) → (change state).id ≡ state.id)
      → IsSynced json sm
      → IsSynced json (update json no_fault sm id change).1
  unfolding update
  update-IsSynced sm id change same_id h = elim (Option-cases (lookup id sm.states)) [
    | inl missing ↦ rw (missing, update) h
    | inr (state, found) ↦
        let key = keyed-lookup id state sm.states h.keyed found ∙ sym (same_id state) in
        rw (found, update)
          (save-IsSynced (with_states sm (insert id (change state) sm.states))
            (insert-IsKeyed id (change state) sm.states key h.keyed))
  ]

  remove-IsSynced :
      (sm : StateManager) (id : String)
      → IsSynced json sm
      → IsSynced json (remove json no_fault sm id).1
  unfolding remove
  remove-IsSynced sm id h = elim (Option-cases (lookup id sm.states)) [
    | inl missing ↦ rw (missing, remove) h
    | inr (state, found) ↦
        rw (found, remove)
          (save-IsSynced (with_states sm (erase id sm.states)) (erase-IsKeyed id sm.states h.keyed))
  ]

  reconcile-IsSynced :
      (now : ℕ) (sm : StateManager) (is_running : String → Bool)
      → IsSynced json sm
      → IsSynced json (reconcile json no_fault now sm is_running).1
  unfolding reconcile
  reconcile-IsSynced now sm is_running h =
      elim (Bool-cases (ltb 0 (mark_lost is_running now sm.states).0)) [
        | inl some_lost ↦ rw some_lost (
            save-IsSynced (with_states sm (mark_lost is_running now sm.states).1)
              (mark_lost-IsKeyed is_running now sm.states h.keyed))
        | inr none_lost ↦
            rw none_lost (rw (mark_lost-none is_running now sm.states (ground arith)) h)
      ]

  clear_stale-IsSynced :
      (sm : StateManager) → IsSynced json sm → IsSynced json (clear_stale json no_fault sm).1
  unfolding clear_stale
  clear_stale-IsSynced sm h = elim (Bool-cases (ltb 0 (drop_stale sm.states).0)) [
    | inl some_stale ↦ rw some_stale (
        save-IsSynced (with_states sm (drop_stale sm.states).1)
          (drop_stale-IsKeyed sm.states h.keyed))
    | inr none_stale ↦ rw none_stale (rw (drop_stale-none sm.states (ground arith)) h)
  ]

-- The calls that change the manager.
pub data Call : Type 0 where
  adds : ℕ → VmState → Call
  updates_status : String → String → Call
  updates_error : ℕ → String → String → Call
  removes : String → Call
  reconciles : ℕ → (String → Bool) → Call
  clears : Call

unfoldable pub step : Json → Fault → StateManager → Call → StateManager
step json fault sm (adds now state) = (add json fault now sm state).1
step json fault sm (updates_status id status) = (update_status json fault sm id status).1
step json fault sm (updates_error now id message) = (update_error json fault now sm id message).1
step json fault sm (removes id) = (remove json fault sm id).1
step json fault sm (reconciles now is_running) = (reconcile json fault now sm is_running).1
step json fault sm clears = (clear_stale json fault sm).1

step-IsSynced :
    (json : Json)
    → IsCodec json
    → (sm : StateManager) (call : Call) → IsSynced json sm
    → IsSynced json (step json no_fault sm call)
unfolding step update_status update_error
step-IsSynced json codec sm (adds now state) h = add-IsSynced json codec now sm state h
step-IsSynced json codec sm (updates_status id status) h =
    update-IsSynced json codec sm id _ (λ state. refl) h
step-IsSynced json codec sm (updates_error now id message) h =
    update-IsSynced json codec sm id _ (λ state. refl) h
step-IsSynced json codec sm (removes id) h = remove-IsSynced json codec sm id h
step-IsSynced json codec sm (reconciles now is_running) h =
    reconcile-IsSynced json codec now sm is_running h
step-IsSynced json codec sm clears h = clear_stale-IsSynced json codec sm h

unfoldable pub run : Json → StateManager → List Call → StateManager
run json sm [] = sm
run json sm (call ∷ calls) = run json (step json no_fault sm call) calls

-- If a new process would load the states that the manager has, then it would do so after any calls
-- of the manager in which the file system's writes succeed, if the decoder reads what the encoder
-- writes.
pub run-IsSynced :
    (json : Json)
    → IsCodec json
    → (sm : StateManager) (calls : List Call) → IsSynced json sm
    → IsSynced json (run json sm calls)
unfolding run
run-IsSynced json codec sm [] h = h
run-IsSynced json codec sm (call ∷ calls) h =
    run-IsSynced json codec (step json no_fault sm call) calls (step-IsSynced json codec sm call h)
