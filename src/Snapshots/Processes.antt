-- ===== src/Snapshots/Processes.antt =====
-- pkg/snapshot/snapshot.go, Manager: the processes of the restored VMs. `kill` is os.Process's.
use swarm_cracker.Prelude.{String, Option, none, some, Map, lookup, insert, erase, string_eq}

unfoldable pub track_restored_process :
    {Proc : Type 0} → String → Proc → Map String Proc → Map String Proc
track_restored_process task proc processes = insert task proc processes

-- The error of the kill, if there is one, and the processes still tracked.
unfoldable pub stop_restored_process :
    {Proc Error : Type 0}
    → (Proc → Option Error)
    → String
    → Map String Proc
    → Option Error × Map String Proc
stop_restored_process kill task processes = elim (lookup task processes) [
  | none ↦ (none, processes)
  | some proc ↦ (kill proc, erase task processes)
]
