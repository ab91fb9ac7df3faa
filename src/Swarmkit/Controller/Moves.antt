-- ===== src/Swarmkit/Controller/Moves.antt =====
-- pkg/swarmkit/executor.go, Controller: the moves of its state that the calls make.
use swarm_cracker.Prelude.{
  Bool, true, false, none, some, ok, Result-cases, Option-cases, Bool-cases, ◌≡◌, ◌⊎◌, inl, inr,
  refl, sym, ap, arith, if◌then◌else◌,
}
use mathlib.Core.Path.{subst}
use swarm_cracker.Types.{Task}
use swarm_cracker.Swarmkit.Api.{ApiTask}
use swarm_cracker.Swarmkit.Convert.{convert_task}
use swarm_cracker.Swarmkit.Controller.{
  Managers, Controller, ControllerError, image_failed, network_failed, Outcome, update, inject,
  prepare_with, prepare, start_with, start, wait, shutdown, terminate, remove,
}

-- The methods that SwarmKit's agent calls, under the controller's lock.
pub data Call : Type 0 where
  updates : ApiTask → Call
  prepares starts waits shuts_down terminates removes : Call

-- The image and the network of this internal task were prepared, in this order, for some task of
-- SwarmKit.
pub record IsReady {W Volume VmConfig : Type 0} (m : Managers W Volume VmConfig) (t : Task)
    : Type 0 where
  pub given : ApiTask
  pub imaged : Task
  pub before : W
  pub between : W
  pub after : W
  pub image_ok : m.prepare_image (convert_task given) before ≡ (ok imaged, between)
  pub network_ok : m.prepare_network imaged between ≡ (ok t, after)

module _ {W Volume VmConfig : Type 0} (m : Managers W Volume VmConfig) where
  unfoldable pub call : Call → Controller → W → Outcome W
  call (updates t) c w = update t c w
  call prepares c w = prepare m c w
  call starts c w = start m c w
  call waits c w = wait m c w
  call shuts_down c w = shutdown m c w
  call terminates c w = terminate m c w
  call removes c w = remove m c w

  prepare_with_cases :
      (api : ApiTask) (c : Controller) (w : W)
      → ((e : ControllerError) × (w' : W) × (prepare_with m (convert_task api) c w
            ≡ (some e, c, w')))
        ⊎ ((t : Task) × (w' : W) × IsReady m t
            × (prepare_with m (convert_task api) c w
                ≡ (none, record c { internal_task = some t; prepared = true }, w')))
  unfolding prepare_with
  prepare_with_cases api c w =
      let (r₁, w₁) = m.prepare_image (convert_task api) w in
      elim (Result-cases r₁) [
        | inr (e, failed) ↦ inl (image_failed e, w₁, rw (failed, prepare_with))
        | inl (t₁, imaged) ↦
            let (r₂, w₂) = m.prepare_network t₁ w₁ in
            elim (Result-cases r₂) [
              | inr (e, failed) ↦ inl (network_failed e, w₂, rw (imaged, failed, prepare_with))
              | inl (t₂, connected) ↦ inr (
                t₂,
                inject m.secret_mgr c.task.id t₂ w₂,
                record {
                  given = api;
                  imaged = t₁;
                  before = w;
                  between = w₁;
                  after = w₂;
                  image_ok = ap (λ r. (r, w₁)) imaged;
                  network_ok = ap (λ r. (r, w₂)) connected;
                },
                rw (imaged, connected, prepare_with),
              )
            ]
      ]

  -- The moves of the state that the calls are meant to make.
  pub data Moves (c : Controller) : Controller → Type 0 where
    retasked : (t : ApiTask) → c.started ≡ false → Moves c (record c { task = t })
    readied :
        (t : Task)
        → c.prepared ≡ false
        → IsReady m t
        → Moves c (record c { internal_task = some t; prepared = true })
    launched : c.prepared ≡ true → c.started ≡ false → Moves c (record c { started = true })
    stopped : c.started ≡ true → Moves c (record c { started = false })
    cleared : Moves c (record c { started = false; prepared = false })

  abbrev pub Follows : Controller → Outcome W → Type 0
  Follows c r = (r.1 ≡ c) ⊎ ((r.0 ≡ none) × Moves c r.1)

  update-Follows : (t : ApiTask) (c : Controller) (w : W) → Follows c (update t c w)
  unfolding update
  update-Follows t c w = elim (Bool-cases c.started) [
    | inl on ↦ simp (update, on) (inl refl)
    | inr off ↦
        let moved : update t c w ≡ (none, record c { task = t }, w) =
          ap (λ (b : Bool). if b then (none, c, w) else (none, record c { task = t }, w)) off in
        subst (λ (r : Outcome W). Follows c r) (sym moved) (inr (refl, retasked t off))
  ]

  prepare-Follows : (c : Controller) (w : W) → Follows c (prepare m c w)
  unfolding prepare
  prepare-Follows c w = elim (Bool-cases c.prepared) [
    | inl on ↦ simp (prepare, on) (inl refl)
    | inr off ↦ elim (prepare_with_cases c.task c w) [
      | inl (e, w', r) ↦ simp (prepare, off, r) (inl refl)
      | inr (t, w', ready, r) ↦ simp (prepare, off, r) (inr (refl, readied t off ready))
    ]
  ]

  start_with-Follows :
      (t : Task) (c : Controller) (w : W)
      → c.prepared ≡ true
      → c.started ≡ false
      → Follows c (start_with m t c w)
  unfolding start_with
  start_with-Follows t c w on off = elim (Result-cases (m.translate t)) [
    | inr (e, failed) ↦ simp (start_with, failed) (inl refl)
    | inl (config, translated) ↦ elim (Option-cases (m.vm_start t config w).0) [
      | inr (e, failed) ↦ simp (start_with, translated, failed) (inl refl)
      | inl fine ↦ simp (start_with, translated, fine) (inr (refl, launched on off))
    ]
  ]

  start-Follows : (c : Controller) (w : W) → Follows c (start m c w)
  unfolding start
  start-Follows c w = elim (Bool-cases c.prepared) [
    | inr off ↦ simp (start, off) (inl refl)
    | inl on ↦ elim (Bool-cases c.started) [
      | inl running ↦ simp (start, on, running) (inl refl)
      | inr idle ↦ elim (Option-cases c.internal_task) [
        | inl missing ↦ simp (start, on, idle, missing) (inl refl)
        | inr (t, held) ↦ simp (start, on, idle, held) (start_with-Follows t c w on idle)
      ]
    ]
  ]

  wait-Follows : (c : Controller) (w : W) → Follows c (wait m c w)
  unfolding wait
  wait-Follows c w = inl (ground arith)

  shutdown-Follows : (c : Controller) (w : W) → Follows c (shutdown m c w)
  unfolding shutdown
  shutdown-Follows c w = elim (Bool-cases c.started) [
    | inr off ↦ simp (shutdown, off) (inl refl)
    | inl on ↦ elim (Option-cases (m.vm_stop (convert_task c.task) w).0) [
      | inr (e, failed) ↦ simp (shutdown, on, failed) (inl refl)
      | inl fine ↦ simp (shutdown, on, fine) (inr (refl, stopped on))
    ]
  ]

  terminate-Follows : (c : Controller) (w : W) → Follows c (terminate m c w)
  unfolding terminate
  terminate-Follows c w = elim (Bool-cases c.started) [
    | inr off ↦ simp (terminate, off) (inl refl)
    | inl on ↦ elim (Option-cases (m.vm_stop (convert_task c.task) w).0) [
      | inr (e, failed) ↦ simp (terminate, on, failed) (inl refl)
      | inl fine ↦ simp (terminate, on, fine) (inr (refl, stopped on))
    ]
  ]

  remove-Follows : (c : Controller) (w : W) → Follows c (remove m c w)
  unfolding remove
  remove-Follows c w = inr (refl, cleared)

  -- Each call leaves the controller as it is, or succeeds and makes one of the moves; so a call that
  -- fails changes nothing of it.
  pub call-Follows : (op : Call) (c : Controller) (w : W) → Follows c (call op c w)
  unfolding call
  call-Follows (updates t) c w = update-Follows t c w
  call-Follows prepares c w = prepare-Follows c w
  call-Follows starts c w = start-Follows c w
  call-Follows waits c w = wait-Follows c w
  call-Follows shuts_down c w = shutdown-Follows c w
  call-Follows terminates c w = terminate-Follows c w
  call-Follows removes c w = remove-Follows c w
