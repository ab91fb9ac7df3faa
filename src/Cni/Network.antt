-- ===== src/Cni/Network.antt =====
-- pkg/cni/types.go: an allocated network with what is attached to it. The times of creation are
-- written and never read, and are left out.
use swarm_cracker.Prelude.{ℕ, String, Bool, List, Map}
use swarm_cracker.Cni.Net.{Ip, IpNet}

pub record PublishedPort : Type 0 where
  pub port : ℕ
  pub published_port : ℕ
  pub protocol : String
  pub publish_mode : String

pub record ServiceVip : Type 0 where
  pub service_id : String
  pub network_id : String
  pub vip : Ip
  pub published_ports : List PublishedPort

pub record NodeAttachment : Type 0 where
  pub node_id : String
  pub network_id : String
  pub ip_address : Ip
  pub vxlan_vni : ℕ

pub record AllocatedNetwork : Type 0 where
  pub id : String
  pub name : String
  pub driver : String
  pub subnet : IpNet
  pub gateway : Ip
  pub vxlan_id : ℕ
  pub bridge_name : List ℕ
  pub ingress : Bool
  pub attachments : Map String NodeAttachment
  pub services : Map String ServiceVip
