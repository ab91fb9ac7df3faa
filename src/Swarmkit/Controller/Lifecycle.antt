-- ===== src/Swarmkit/Controller/Lifecycle.antt =====
-- pkg/swarmkit/executor.go, Controller: the states it reaches, whatever the managers do.
use swarm_cracker.Prelude.{
  true, false, Option, none, some, Option-cases, Bool-cases, ◌≡◌, ◌≢◌, ◌⊎◌, inl, inr, refl, sym, ap,
  ◌∙◌,
}
use mathlib.Core.Path.{subst}
use swarm_cracker.Types.{Task}
use swarm_cracker.Swarmkit.Api.{ApiTask}
use swarm_cracker.Swarmkit.Controller.{
  Managers, Controller, ControllerError, not_prepared, new_controller, start_with, start,
}
use swarm_cracker.Swarmkit.Controller.Moves.{
  Call, IsReady, call, Moves, call-Follows, retasked, readied, launched, stopped, cleared,
}

pub record IsSound {W Volume VmConfig : Type 0} (m : Managers W Volume VmConfig) (c : Controller)
    : Type 0 where
  pub started-prepared : c.started ≡ true → c.prepared ≡ true
  pub prepared-task : c.prepared ≡ true → c.internal_task ≢ none
  pub task-IsReady : (t : Task) → c.internal_task ≡ some t → IsReady m t

module _ {W Volume VmConfig : Type 0} (m : Managers W Volume VmConfig) where
  Moves-IsSound : {c c' : Controller} → IsSound m c → Moves m c c' → IsSound m c'
  Moves-IsSound sound (retasked t off) = record {
    started-prepared = sound.started-prepared;
    prepared-task = sound.prepared-task;
    task-IsReady = sound.task-IsReady;
  }
  Moves-IsSound sound (readied t off ready) = record {
    started-prepared = λ on. refl;
    prepared-task = λ on. λ missing. cc missing;
    task-IsReady = λ u held. subst (IsReady m) (cc held) ready;
  }
  Moves-IsSound sound (launched on off) = record {
    started-prepared = λ started. on;
    prepared-task = sound.prepared-task;
    task-IsReady = sound.task-IsReady;
  }
  Moves-IsSound sound (stopped on) = record {
    started-prepared = λ started. cc started;
    prepared-task = sound.prepared-task;
    task-IsReady = sound.task-IsReady;
  }
  Moves-IsSound sound cleared = record {
    started-prepared = λ started. cc started;
    prepared-task = λ on. cc on;
    task-IsReady = sound.task-IsReady;
  }

  new_controller-IsSound : (t : ApiTask) → IsSound m (new_controller t)
  new_controller-IsSound t = record {
    started-prepared = λ started. cc started;
    prepared-task = λ on. cc on;
    task-IsReady = λ u held. cc held;
  }

  -- Where the calls lead, while the world also changes on its own.
  pub data Reaches : Controller → W → Type 0 where
    created : (t : ApiTask) (w : W) → Reaches (new_controller t) w
    called :
        {c c' : Controller} {w w' : W} {e : Option ControllerError} (op : Call)
        → Reaches c w
        → call m op c w ≡ (e, c', w')
        → Reaches c' w'
    elsewhere : {c : Controller} {w : W} (w' : W) → Reaches c w → Reaches c w'

  -- In every reached state a started controller is prepared, a prepared one has an internal task, and
  -- an internal task went through the preparation of its image and then of its network.
  pub Reaches-IsSound : {c : Controller} {w : W} → Reaches c w → IsSound m c
  Reaches-IsSound (created t w) = new_controller-IsSound t
  Reaches-IsSound (elsewhere w' h) = Reaches-IsSound h
  Reaches-IsSound (called {c} {c'} {w} op h r) =
      let sound = Reaches-IsSound h in
      let same : (call m op c w).1 ≡ c' = ap (λ p. p.1) r in
      elim (call-Follows m op c w) [
        | inl unchanged ↦ subst (IsSound m) (sym unchanged ∙ same) sound
        | inr (fine, move) ↦ subst (IsSound m) same (Moves-IsSound sound move)
      ]

  -- In every reached state Start refuses a task that is not prepared, does nothing for one that is
  -- started, and otherwise translates and launches an internal task whose image and then whose
  -- network were prepared; it never finds the internal task missing.
  pub start_lem :
      {c : Controller} {w : W}
      → Reaches c w
      → ((c.prepared ≡ false) × (start m c w ≡ (some not_prepared, c, w)))
        ⊎ ((c.started ≡ true) × (start m c w ≡ (none, c, w)))
        ⊎ ((t : Task) × IsReady m t × (c.started ≡ false) × (start m c w ≡ start_with m t c w))
  unfolding start
  start_lem {c} {w} h = elim (Bool-cases c.prepared) [
    | inr off ↦ inl (off, simp (start, off) refl)
    | inl on ↦ elim (Bool-cases c.started) [
      | inl running ↦ inr (inl (running, simp (start, on, running) refl))
      | inr idle ↦ elim (Option-cases c.internal_task) [
        | inl missing ↦ absurd ((Reaches-IsSound h).prepared-task on missing)
        | inr (t, held) ↦ inr (
            inr
              (t, (Reaches-IsSound h).task-IsReady t held, idle, simp (start, on, idle, held) refl))
      ]
    ]
  ]
