-- ===== src/Tests/Taps.antt =====
-- The theorems about TAP devices, for a task with two networks without addresses.
use Prim.Native.String.{◌++◌ as text_append}
use swarm_cracker.Prelude.{
  ℕ, suc, String, ◌≢◌, [], ◌∷◌, true, none, some, lookup, insert, string_eq, ok, ◌≡◌, refl,
}
use swarm_cracker.Cni.Ip.{increment_ip}
use swarm_cracker.Cni.Ip.Value.{value}
use swarm_cracker.Types.{NetworkAttachment}
use swarm_cracker.Network.Addresses.{
  allocate, allocate_new, address_of, hash_to_ip, ipv4_candidate, probe, next_probe, inc_ip,
}
use swarm_cracker.Network.Taps.{
  TapDevice, TapConfig, TapLib, Links, NetState, default_network, create_tap_device, make_link,
  choose_address, local_address, bridge_for, is_tap_of, cleanup_network, tap_key, detach,
}
use swarm_cracker.Network.Taps.Cleanup.{take_down, lookup-cleanup_network}
use swarm_cracker.Tests.Net.{go_net}
use swarm_cracker.Tests.Network.{digest, empty, taken}
use swarm_cracker.Tests.Machines.{job}

abbrev lib : TapLib
lib = record {
  net = go_net;
  sha256 = digest;
  digest = λ id. "0000000000ab";
  decimal = λ n. "0";
  before_slash = λ t. none;
  first_part = λ t. t;
  first_twelve = λ t. none;
  mask_to_cidr = λ t. "24";
}

abbrev links : Links ℕ
links = record {
  delete_link = λ name w. (true, suc w);
  add_tap = λ name w. (true, suc w);
  set_up = λ name w. (true, suc w);
  set_down = λ name w. suc w;
  is_there = λ name w. true;
  set_master = λ name bridge w. (true, suc w);
}

abbrev config : TapConfig
config = record { bridge_name = "br0"; subnet = ""; bridge_ip = ""; ip_mode = "static" }

abbrev bare : NetworkAttachment
bare = default_network lib links config

abbrev tap : TapDevice
tap = record {
  name = "tap-0000000000ab-0";
  bridge = "br0";
  ip = "1.0.0.8";
  netmask = "";
  gateway = "";
  subnet = "";
}

first_device :
    create_tap_device lib links config bare 0 "vm1" (some empty) 0 ≡ (ok tap, some taken, 4)
unfolding create_tap_device choose_address local_address bridge_for make_link allocate allocate_new
    address_of hash_to_ip ipv4_candidate probe next_probe inc_ip increment_ip go_net value insert
    lookup
first_device = refl

second_device :
    (create_tap_device lib links config bare 1 "vm1"
      (create_tap_device lib links config bare 0 "vm1" (some empty) 0).1
      4).0
    ≡ ok tap
unfolding create_tap_device choose_address local_address bridge_for make_link allocate allocate_new
    address_of hash_to_ip ipv4_candidate probe next_probe inc_ip increment_ip go_net value insert
    lookup
second_device = refl

abbrev net_state : NetState
net_state = record { taps = ("t1-tap-a-0", tap) ∷ ("t2-tap-b-0", tap) ∷ []; allocator = some taken }

lookup-cleanup_network_example :
    let (st', w') = cleanup_network lib links config none (some job) net_state 0 in
    ((rest : String) → lookup (text_append "t1" (text_append "-" rest)) st'.taps ≡ none)
    × ((any : TapDevice) → lookup (tap_key lib links config "t1" any) st'.taps ≡ none)
    × ((key : String)
        → ((rest : String) → key ≢ text_append "t1" (text_append "-" rest))
        → lookup key st'.taps ≡ lookup key net_state.taps)
    × (w'
        ≡ detach lib links config none job
            (take_down lib links config (is_tap_of "t1") net_state.taps 0))
lookup-cleanup_network_example = lookup-cleanup_network lib links config none job net_state 0
