-- ===== src/Executor/Events.antt =====
-- pkg/executor/executor.go: the channel of events, with the flag that says that it is closed. A
-- send on a closed channel panics.
use swarm_cracker.Prelude.{String, List, [], ◌∷◌, ◌++◌, Bool, true, false, if◌then◌else◌}
use swarm_cracker.Types.{Task}

-- Without the error, which is never set.
pub record Event : Type 0 where
  pub task : Task
  pub message : String

-- `is_closed` is the state of Go's channel, `flag` the field eventsClosed.
pub record Channel : Type 0 where
  pub waiting : List Event
  pub flag : Bool
  pub is_closed : Bool

abbrev pub empty_channel : Channel
empty_channel = record { waiting = []; flag = false; is_closed = false }

pub data Sent : Type 0 where
  sent dropped panicked : Sent

-- The select, which comes after the lock has been given back.
unfoldable pub deliver : Bool → Event → Channel → Sent × Channel
deliver room event c =
    if c.is_closed
    then (panicked, c)
    else if room
    then (sent, record c { waiting = c.waiting ++ event ∷ [] })
    else (dropped, c)

-- sendEvent that no other call interrupts.
unfoldable pub send_event : Bool → Event → Channel → Sent × Channel
send_event room event c = if c.flag then (dropped, c) else deliver room event c

-- What Close does the first time; a second time it changes nothing.
unfoldable pub close : Channel → Channel
close c = record c { flag = true; is_closed = true }
