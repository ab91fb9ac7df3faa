-- ===== src/Tests/Allocator.antt =====
-- The theorems about the allocator, on one allocated network and one that is not yet allocated.
use swarm_cracker.Prelude.{
  ℕ, String, List, [], ◌∷◌, Bool, true, false, arith, refl, ◌≡◌, ok, err, some, none, Option, All,
  lookup, string_eq, ◌==◌, is_ok, Map,
}
use swarm_cracker.Cni.Config.{default_cni_config}
use swarm_cracker.Cni.Ipam.{new_pool}
use swarm_cracker.Cni.Network.{AllocatedNetwork}
use swarm_cracker.Cni.Allocator.{
  CniAllocator, SwarmNetwork, allocate, deallocate, is_allocated, network_of,
}
use swarm_cracker.Cni.Allocator.Networks.{allocate-is_allocated}
use swarm_cracker.Cni.Allocator.Tasks.{
  SwarmTask, allocate_task, is_task_allocated, allocate_task_ips, allocate_task_ip,
}
use swarm_cracker.Cni.Allocator.Tasks.Ownership.{IsOwned, allocate_task-IsOwned}
use swarm_cracker.Cni.Allocator.Services.{SwarmService, allocate_service, is_service_allocated}
use swarm_cracker.Cni.Allocator.Services.Allocated.{allocate_service_allocated}
use swarm_cracker.Cni.Allocator.Nodes.{
  NodeLink, allocate_attachment, deallocate_attachment, is_attachment_allocated,
}
use swarm_cracker.Tests.Net.{go_env, one_24}

abbrev frontend : AllocatedNetwork
frontend = record {
  id = "n1";
  name = "frontend";
  driver = "vxlan";
  subnet = one_24;
  gateway = 1 ∷ 0 ∷ 0 ∷ 1 ∷ [];
  vxlan_id = 7;
  bridge_name = [];
  ingress = false;
  attachments = [];
  services = [];
}

abbrev allocator : CniAllocator
allocator = record {
  provider = record {
    config = default_cni_config;
    ipam_mgr = record {
      pools =
          (
            "1.0.0.0/24",
            record {
              subnet = one_24;
              gateway = 1 ∷ 0 ∷ 0 ∷ 1 ∷ [];
              used_ips = [];
              reserved_ips = (1 ∷ 0 ∷ 0 ∷ 1 ∷ []) ∷ [];
              next_ip = 1 ∷ 0 ∷ 0 ∷ 2 ∷ [];
            },
          )
          ∷ [];
      config = default_cni_config;
    };
    vxlan_port = 4789;
    networks = ("net-1", 0) ∷ [];
    network_index = 1;
    store = (0, frontend) ∷ [];
    next_address = 1;
  };
  allocated_nets = ("n1", 0) ∷ [];
}

abbrev swarm_network : String → SwarmNetwork
swarm_network id = record {
  id = id;
  name = "frontend";
  driver_config = some "vxlan";
  ingress = false;
  driver_state = none;
  ipam = none;
}

allocate-is_allocated_example :
    (is_allocated
        (allocate go_env allocator (some (swarm_network "n2"))).1
        (some (swarm_network "n2"))
      ≡ is_ok (allocate go_env allocator (some (swarm_network "n2"))).0)
    × ((j : SwarmNetwork)
        → ("n2" == j.id) ≡ false
        → is_allocated (allocate go_env allocator (some (swarm_network "n2"))).1 (some j)
          ≡ is_allocated allocator (some j))
allocate-is_allocated_example = allocate-is_allocated go_env allocator (swarm_network "n2")

frontend_found : network_of allocator "n1" ≡ some frontend
unfolding network_of lookup
frontend_found = refl

abbrev task : SwarmTask
task = record { id = "t"; networks = record { network = "n1"; addresses = [] } ∷ [] }

abbrev task_after : SwarmTask
task_after = record {
  id = "t";
  networks = record { network = "n1"; addresses = "1.0.0.2" ∷ [] } ∷ [];
}

task_allocation :
    allocate_task go_env allocator (some task)
    ≡ (ok tt, some task_after, (allocate_task go_env allocator (some task)).2)
unfolding allocate_task allocate_task_ips allocate_task_ip network_of
    swarm_cracker.Cni.Ipam.allocate_ip swarm_cracker.Cni.Pool.take_ip swarm_cracker.Cni.Pool.find_ip
    swarm_cracker.Cni.Pool.is_free swarm_cracker.Cni.Pool.next_candidate
    swarm_cracker.Cni.Pool.is_reserved swarm_cracker.Cni.Ip.increment_ip
    swarm_cracker.Tests.Net.go_net lookup swarm_cracker.Prelude.insert
task_allocation = refl

allocate_task-IsOwned_example :
    All (IsOwned go_env (allocate_task go_env allocator (some task)).2 "t") task_after.networks
    × (is_task_allocated (some task_after) ≡ true)
allocate_task-IsOwned_example =
    allocate_task-IsOwned go_env allocator (allocate_task go_env allocator (some task)).2 task
      task_after task_allocation

abbrev web : SwarmService
web = record {
  id = "web";
  networks = "n1" ∷ [];
  endpoint = some (
      record { target_port = 80; published_port = 8080; protocol = "TCP"; publish_mode = "INGRESS" }
      ∷ []);
}

service_allocation :
    allocate_service go_env allocator (some web) []
    ≡ (ok tt, (allocate_service go_env allocator (some web) []).1)
unfolding allocate_service swarm_cracker.Cni.Allocator.Services.allocate_vips
    swarm_cracker.Cni.Allocator.Services.allocate_service_vip
    swarm_cracker.Cni.Allocator.Services.record_vip network_of swarm_cracker.Cni.Ipam.allocate_vip
    swarm_cracker.Cni.Pool.find_vip swarm_cracker.Cni.Pool.is_free
    swarm_cracker.Cni.Pool.is_reserved swarm_cracker.Cni.Ip.get_vip_range_start
    swarm_cracker.Tests.Net.go_net lookup
service_allocation = refl

allocate_service_allocated_example :
    is_service_allocated (allocate_service go_env allocator (some web) []).1 (some web) ≡ true
allocate_service_allocated_example =
    allocate_service_allocated go_env allocator (allocate_service go_env allocator (some web) []).1
      web [] service_allocation

abbrev link : NodeLink
link = record { network = "n1"; addresses = []; vxlan_vni = none }

abbrev link_after : NodeLink
link_after = record { network = "n1"; addresses = "1.0.0.2" ∷ []; vxlan_vni = some 7 }

node_attachment :
    allocate_attachment go_env allocator (some "node") (some link)
    ≡ (ok tt, some link_after, (allocate_attachment go_env allocator (some "node") (some link)).2)
unfolding allocate_attachment swarm_cracker.Cni.Allocator.Nodes.attach_node
    swarm_cracker.Cni.Allocator.Nodes.record_attachment network_of
    swarm_cracker.Cni.Ipam.allocate_ip swarm_cracker.Cni.Pool.take_ip swarm_cracker.Cni.Pool.find_ip
    swarm_cracker.Cni.Pool.is_free swarm_cracker.Cni.Pool.next_candidate
    swarm_cracker.Cni.Pool.is_reserved swarm_cracker.Cni.Ip.increment_ip
    swarm_cracker.Tests.Net.go_net lookup swarm_cracker.Prelude.insert
node_attachment = refl
