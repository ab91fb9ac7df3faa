-- ===== src/Cni/Allocator/Tasks.antt =====
-- pkg/cni/allocator.go: the addresses of tasks.
pub mod Ownership
use swarm_cracker.Prelude.{String, List, [], ◌∷◌, Bool, true, false, Option, none, some, ok, err}
use swarm_cracker.Cni.Errors.{Outcome, task_nil, network_not_allocated, allocate_task_ip_failed}
use swarm_cracker.Cni.Ipam.{allocate_ip, release_ip}
use swarm_cracker.Cni.Provider.{CniEnv}
use swarm_cracker.Cni.Allocator.{CniAllocator, network_of, with_ipam}

-- api.NetworkAttachment, with the id of its network.
pub record Attachment : Type 0 where
  pub network : String
  pub addresses : List String

-- api.Task
pub record SwarmTask : Type 0 where
  pub id : String
  pub networks : List Attachment

unfoldable pub all_addressed : List Attachment → Bool
all_addressed [] = true
all_addressed (t ∷ rest) =
    let later = all_addressed rest in elim t.addresses [ [] ↦ false | a ∷ more ↦ later ]

unfoldable pub is_task_allocated : Option SwarmTask → Bool
is_task_allocated none = false
is_task_allocated (some t) = all_addressed t.networks

-- One round of the loop: the attachment with its address.
unfoldable pub allocate_task_ip :
    CniEnv → CniAllocator → String → Attachment → Outcome Attachment × CniAllocator
allocate_task_ip env a task t = elim (network_of a t.network) [
  | none ↦ (err (network_not_allocated t.network), a)
  | some network ↦
      let (result, ipam) =
        allocate_ip env.net a.provider.ipam_mgr (env.net.net_string network.subnet) task in
      elim result [
        | err e ↦ (err (allocate_task_ip_failed e), with_ipam a ipam)
        | ok ip ↦ (ok (record t { addresses = env.net.ip_string ip ∷ [] }), with_ipam a ipam)
      ]
]

-- The loop. The attachments come back as they are left, also behind an error: those before it
-- keep their addresses.
unfoldable pub allocate_task_ips :
    CniEnv → CniAllocator → String → List Attachment → Outcome Unit × List Attachment × CniAllocator
allocate_task_ips env a task [] = (ok tt, [], a)
allocate_task_ips env a task (t ∷ rest) =
    let (result, b) = allocate_task_ip env a task t in
    let later = allocate_task_ips env b task rest in
    elim result [ err e ↦ (err e, t ∷ rest, b) | ok t' ↦ (later.0, t' ∷ later.1, later.2) ]

unfoldable pub allocate_task :
    CniEnv → CniAllocator → Option SwarmTask → Outcome Unit × Option SwarmTask × CniAllocator
allocate_task env a none = (err task_nil, none, a)
allocate_task env a (some t) =
    let (result, networks, b) = allocate_task_ips env a t.id t.networks in
    (result, some (record t { networks = networks }), b)

-- One round of `DeallocateTask`. The result of `ReleaseIP` is ignored.
unfoldable pub release_task_ip : CniEnv → CniAllocator → Attachment → Attachment × CniAllocator
release_task_ip env a t = elim (network_of a t.network) [
  | none ↦ (t, a)
  | some network ↦ elim t.addresses [
    | [] ↦ (t, a)
    | address ∷ more ↦ elim (env.net.parse_ip address) [
      | none ↦ (t, a)
      | some ip ↦
          let (result, ipam) =
            release_ip env.net a.provider.ipam_mgr ip (env.net.net_string network.subnet) in
          (record t { addresses = [] }, with_ipam a ipam)
    ]
  ]
]

unfoldable pub release_task_ips :
    CniEnv → CniAllocator → List Attachment → List Attachment × CniAllocator
release_task_ips env a [] = ([], a)
release_task_ips env a (t ∷ rest) =
    let (t', b) = release_task_ip env a t in
    let (rest', c) = release_task_ips env b rest in (t' ∷ rest', c)

unfoldable pub deallocate_task :
    CniEnv → CniAllocator → Option SwarmTask → Outcome Unit × Option SwarmTask × CniAllocator
deallocate_task env a none = (err task_nil, none, a)
deallocate_task env a (some t) =
    let (networks, b) = release_task_ips env a t.networks in
    (ok tt, some (record t { networks = networks }), b)
