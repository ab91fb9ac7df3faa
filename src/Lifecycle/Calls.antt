-- ===== src/Lifecycle/Calls.antt =====
-- pkg/lifecycle/vmm.go: histories of calls on the manager. Between the calls the world goes on.
pub mod Moves
pub mod Steps
pub mod Settled
pub mod Wedged
use swarm_cracker.Prelude.{String, List, [], ◌∷◌, Option}
use swarm_cracker.Types.{Task}
use swarm_cracker.Lifecycle.{System, AnyConfig, Vms}
use swarm_cracker.Lifecycle.Start.{start}
use swarm_cracker.Lifecycle.Shutdown.{stop, remove}
use swarm_cracker.Lifecycle.Queries.{describe}

-- Wait changes nothing, and is no call here.
pub data Call (W : Type 0) : Type 0 where
  starts : Option Task → AnyConfig → Call W
  stops removes describes : Option Task → Call W
  elapses : (W → W) → Call W

module _ {W : Type 0} (s : System W) (socket_dir : String) where
  unfoldable pub perform : Call W → Vms × W → Vms × W
  perform (starts task config) (vms, w) =
      let (e, vms', w') = start s socket_dir task config vms w in (vms', w')
  perform (stops task) (vms, w) = let (e, vms', w') = stop s task vms w in (vms', w')
  perform (removes task) (vms, w) = let (e, vms', w') = remove s task vms w in (vms', w')
  perform (describes task) (vms, w) = let (status, vms') = describe s task vms w in (vms', w)
  perform (elapses change) (vms, w) = (vms, change w)

  unfoldable pub run : List (Call W) → Vms × W → Vms × W
  unfolding perform
  run [] state = state
  run (call ∷ calls) state = run calls (perform call state)
