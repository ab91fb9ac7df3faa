-- ===== src/Cni/Allocator/Tasks/Ownership.antt =====
-- pkg/cni/allocator.go, AllocateTask: the owners of the addresses of tasks.
use mathlib.Core.Path.{subst}
use swarm_cracker.Prelude.{
  String, ◌≡◌, sym, ap, beq_refl, string_eq, refl, List, [], ◌∷◌, true, some, All, ok, Option-cases,
  Result-cases, inl, inr,
}
use swarm_cracker.Cni.Net.{Ip}
use swarm_cracker.Cni.Errors.{Outcome}
use swarm_cracker.Cni.Ipam.{IpamManager}
use swarm_cracker.Cni.Ipam.Views.{ledger, Grants}
use swarm_cracker.Cni.Ipam.Allocation.{allocate_ip-result}
use swarm_cracker.Cni.Ipam.Histories.{grant_keeps}
use swarm_cracker.Cni.Network.{AllocatedNetwork}
use swarm_cracker.Cni.Provider.{CniEnv}
use swarm_cracker.Cni.Allocator.{CniAllocator, network_of, with_ipam}
use swarm_cracker.Cni.Allocator.Tasks.{
  Attachment, SwarmTask, allocate_task_ip, allocate_task_ips, allocate_task, all_addressed,
  is_task_allocated,
}

-- The attachment has one address, and the IPAM manager names the task as its owner.
pub record IsOwned (env : CniEnv) (a : CniAllocator) (task : String) (t : Attachment) : Type 0 where
  pub network : AllocatedNetwork
  pub address : String
  pub attached : network_of a t.network ≡ some network
  pub addressed : t.addresses ≡ address ∷ []
  pub owned : ledger a.provider.ipam_mgr (env.net.net_string network.subnet) address ≡ some task

-- What a successful round has done.
record Round (env : CniEnv) (a b : CniAllocator) (task : String) (t t' : Attachment) : Type 0 where
  ipam : IpamManager
  after : b ≡ with_ipam a ipam
  same : t'.network ≡ t.network
  network : AllocatedNetwork
  ip : Ip
  found : network_of a t.network ≡ some network
  addressed : t'.addresses ≡ env.net.ip_string ip ∷ []
  granted :
      Grants
        (ledger a.provider.ipam_mgr)
        (ledger ipam)
        (env.net.net_string network.subnet)
        (env.net.ip_string ip)
        task

module _ (env : CniEnv) (task : String) where
  allocate_task_ip-Round :
      (a b : CniAllocator) (t t' : Attachment)
      → allocate_task_ip env a task t ≡ (ok t', b)
      → Round env a b task t t'
  unfolding allocate_task_ip
  allocate_task_ip-Round a b t t' e = elim (Option-cases (network_of a t.network)) [
    | inl missing ↦ cc (rw (missing, allocate_task_ip) at e)
    | inr (network, found) ↦
        let cidr = env.net.net_string network.subnet in
        elim (allocate_ip-result env.net a.provider.ipam_mgr cidr task) [
          | inl (failure, r) ↦ cc (rw (found, r, allocate_task_ip) at e)
          | inr (ip, ipam, r, granted) ↦
              let both = rw r at (rw (found, r, allocate_task_ip) at e) in
              let same : record t { addresses = env.net.ip_string ip ∷ [] } ≡ t' = cc both in
              record {
                ipam = ipam;
                after = sym (ap (λ p. p.1) both);
                same = ap (λ u. u.network) (sym same);
                network = network;
                ip = ip;
                found = found;
                addressed = ap (λ u. u.addresses) (sym same);
                granted = granted;
              }
        ]
  ]

  -- Later rounds leave an attachment its address.
  IsOwned-after :
      (a b : CniAllocator) (t t' u : Attachment)
      → Round env a b task t t'
      → IsOwned env a task u
      → IsOwned env b task u
  unfolding network_of
  IsOwned-after a b t t' u r o = record {
    network = o.network;
    address = o.address;
    attached = rw r.after o.attached;
    addressed = o.addressed;
    owned = rw r.after (
        grant_keeps env.net a.provider.ipam_mgr _ o.address task o.owned _ task (ok r.ip, r.ipam)
          r.granted);
  }

  -- The attachment of the round itself.
  owns_after :
      (a b : CniAllocator) (t t' : Attachment) → Round env a b task t t' → IsOwned env b task t'
  unfolding network_of
  owns_after a b t t' r = record {
    network = r.network;
    address = env.net.ip_string r.ip;
    attached = rw (r.after, r.same) r.found;
    addressed = r.addressed;
    owned =
        rw
          (
            r.after,
            r.granted.entries,
            beq_refl (env.net.net_string r.network.subnet),
            beq_refl (env.net.ip_string r.ip),
          )
          refl;
  }

  rounds :
      (a b : CniAllocator) (ts ts' : List Attachment)
      → allocate_task_ips env a task ts ≡ (ok tt, ts', b)
      → All (IsOwned env b task) ts'
        × ((u : Attachment) → IsOwned env a task u → IsOwned env b task u)
  unfolding allocate_task_ips
  rounds a b [] ts' e =
      let none_left : [] ≡ ts' = ap (λ p. p.1) e in
      let unchanged : a ≡ b = ap (λ p. p.2) e in
      (subst (All (IsOwned env b task)) none_left tt, λ u o. rw (← unchanged) o)
  rounds a b (t ∷ rest) ts' e = elim (Result-cases (allocate_task_ip env a task t).0) [
    | inr (failure, r) ↦ cc (rw (r, allocate_task_ips) at e)
    | inl (t', r) ↦
        let a' = (allocate_task_ip env a task t).1 in
        let later = allocate_task_ips env a' task rest in
        let round = allocate_task_ip-Round a a' t t' (ap (λ (o : Outcome Attachment). (o, a')) r) in
        let both = rw (r, allocate_task_ips) at e in
        let all : t' ∷ later.1 ≡ ts' = ap (λ p. p.1) both in
        let done : later ≡ (ok tt, later.1, b) = λ i. ((both i).0, later.1, (both i).2) in
        let ih = rounds a' b rest later.1 done in
        (
          subst (All (IsOwned env b task)) all (ih.1 t' (owns_after a a' t t' round), ih.0),
          λ u o. ih.1 u (IsOwned-after a a' t t' u round o),
        )
  ]

  all_addressed-All :
      (b : CniAllocator) (ts : List Attachment)
      → All (IsOwned env b task) ts
      → all_addressed ts ≡ true
  unfolding all_addressed
  all_addressed-All b [] h = refl
  all_addressed-All b (t ∷ rest) h = rw h.0.addressed (all_addressed-All b rest h.1)

-- After `AllocateTask` succeeds each attachment of the task has one address, whose owner in the
-- pool of its network is the task, and the task counts as allocated.
pub allocate_task-IsOwned :
    (env : CniEnv) (a b : CniAllocator) (t t' : SwarmTask)
    → allocate_task env a (some t) ≡ (ok tt, some t', b)
    → All (IsOwned env b t.id) t'.networks × (is_task_allocated (some t') ≡ true)
unfolding allocate_task is_task_allocated
allocate_task-IsOwned env a b t t' e =
    let run = allocate_task_ips env a t.id t.networks in
    let same : record t { networks = run.1 } ≡ t' = cc e in
    let done : run ≡ (ok tt, run.1, b) = λ i. ((e i).0, run.1, (e i).2) in
    let owned = (rounds env t.id a b t.networks run.1 done).0 in
    rw (← same) (owned, all_addressed-All env t.id b run.1 owned)
