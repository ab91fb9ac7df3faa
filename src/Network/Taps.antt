-- ===== src/Network/Taps.antt =====
-- pkg/network/manager.go: the TAP devices that NetworkManager makes for a task and removes again,
-- PrepareNetwork for a manager without a CNI client. The commands that change the links of the host are operations on a
-- world `W`.
pub mod Keys
pub mod Cleanup
pub mod Sharing
use Prim.Native.String.{◌++◌ as text_append}
use swarm_cracker.Prelude.{
  ℕ, zero, suc, String, List, [], ◌∷◌, Bool, true, false, not, ◌&&◌, Option, none, some, Map,
  lookup, insert, string_eq, ◌==◌, Result, ok, err, if◌then◌else◌, code_points,
}
use swarm_cracker.Cni.Net.{NetLib}
use swarm_cracker.Storage.Volume.{has_prefix}
use swarm_cracker.Types.{Task, Network, NetworkSpec, NetworkAttachment, BridgeConfig, DriverConfig}
use swarm_cracker.Network.Addresses.{IpAllocator, AllocatorError, allocate, release}

pub record TapDevice : Type 0 where
  pub name : String
  pub bridge : String
  pub ip : String
  pub netmask : String
  pub gateway : String
  pub subnet : String

pub record TapConfig : Type 0 where
  pub bridge_name : String
  pub subnet : String
  pub bridge_ip : String
  pub ip_mode : String

-- Functions of Go's libraries on texts: `before_slash` cuts a text before a slash that is not its first
-- character, `first_part` before any, `first_twelve` is the first twelve bytes, if there are so many,
-- and `digest` the first twelve hexadecimal digits of the SHA-256.
pub record TapLib : Type 0 where
  pub net : NetLib
  pub sha256 : String → List ℕ
  pub digest : String → String
  pub decimal : ℕ → String
  pub before_slash : String → Option String
  pub first_part : String → String
  pub first_twelve : String → Option String
  pub mask_to_cidr : String → String

-- The commands `ip link` and `ip tuntap`, with whether they succeed.
pub record Links (W : Type 0) : Type 0 where
  pub delete_link : String → W → Bool × W
  pub add_tap : String → W → Bool × W
  pub set_up : String → W → Bool × W
  pub set_down : String → W → W
  pub is_there : String → W → Bool
  pub set_master : String → String → W → Bool × W

pub data TapError : Type 0 where
  tap_not_created tap_not_up bridge_not_found tap_not_attached bridge_failed : TapError

pub record NetState : Type 0 where
  pub taps : Map String TapDevice
  pub allocator : Option IpAllocator

-- Whether a key of the map belongs to the task, for the code: the identifier and a dash begin it.
abbrev pub is_tap_of : String → String → Bool
is_tap_of id key = has_prefix (code_points key) (code_points (text_append id "-"))

module _ {W : Type 0} (lib : TapLib) (links : Links W) (config : TapConfig) where
  abbrev pub tap_name : String → ℕ → String
  tap_name id i = text_append "tap-" (text_append (lib.digest id) (text_append "-" (lib.decimal i)))

  -- The address and the netmask of an address that SwarmKit has given.
  abbrev pub given_address : String → String × String
  given_address addr = elim (lib.before_slash addr) [
    | none ↦ (addr, "")
    | some ip ↦ elim (lib.net.parse_cidr addr) [
      | none ↦ (ip, "")
      | some (subnet, parsed) ↦ (ip, lib.net.ip_string subnet.mask)
    ]
  ]

  abbrev pub text_or_empty : Result AllocatorError String → String
  text_or_empty (ok ip) = ip
  text_or_empty (err e) = ""

  -- An address of the allocator, or the empty text.
  unfoldable pub local_address : String → Option IpAllocator → String × Option IpAllocator
  local_address id none = ("", none)
  local_address id (some a) =
      let (given, a') = allocate lib.net lib.sha256 a id in
      if config.ip_mode == "static" then (text_or_empty given, some a') else ("", some a)

  -- The address, the netmask, and the allocator after the choice.
  unfoldable pub choose_address :
      String → List String → Option IpAllocator → String × String × Option IpAllocator
  choose_address id [] allocator =
      let (ip, allocator') = local_address id allocator in (ip, "", allocator')
  choose_address id (addr ∷ addrs) allocator =
      let (ip, netmask) = given_address addr in (ip, netmask, allocator)

  abbrev overlay_bridge : Network → String
  overlay_bridge n =
      if n.spec.driver == "overlay"
      then elim (lib.first_twelve n.id) [
        | none ↦ config.bridge_name
        | some start ↦ text_append "br-" start
      ]
      else config.bridge_name

  unfoldable pub bridge_for : Network → String
  bridge_for n = elim n.spec.driver_config [
    | none ↦ overlay_bridge n
    | some d ↦ elim d.bridge [
      | none ↦ overlay_bridge n
      | some b ↦ if b.name == "" then overlay_bridge n else b.name
    ]
  ]

  -- The link of the device, removed again by a failure after it was added.
  unfoldable pub make_link : String → String → Bool → W → Option TapError × W
  make_link name bridge is_overlay w =
      let (added, w₁) = links.add_tap name (links.delete_link name w).1 in
      if not added
      then (some tap_not_created, w₁)
      else let (up, w₂) = links.set_up name w₁ in
        if not up
        then (some tap_not_up, (links.delete_link name w₂).1)
        else if not (links.is_there bridge w₂) && is_overlay
        then (some bridge_not_found, (links.delete_link name w₂).1)
        else let (attached, w₃) = links.set_master name bridge w₂ in
          if attached then (none, w₃) else (some tap_not_attached, (links.delete_link name w₃).1)

  abbrev pub subnet_mask : String
  subnet_mask = elim (lib.net.parse_cidr config.subnet) [
    | none ↦ ""
    | some (subnet, parsed) ↦ lib.net.ip_string subnet.mask
  ]

  abbrev pub netmask_or_default : String → String
  netmask_or_default given =
      if not (config.subnet == "") && (given == "") then subnet_mask else given

  -- The allocator keeps an address that it has given out also where the link cannot be made.
  unfoldable pub create_tap_device :
      NetworkAttachment
      → ℕ
      → String
      → Option IpAllocator
      → W
      → Result TapError TapDevice × Option IpAllocator × W
  create_tap_device n i id allocator w =
      let (ip, netmask, allocator') = choose_address id n.addresses allocator in
      let name = tap_name id i in
      let bridge = bridge_for n.network in
      let (failure, w') = make_link name bridge (n.network.spec.driver == "overlay") w in
      elim failure [
        | some e ↦ (err e, allocator', w')
        | none ↦ (
          ok (record {
            name = name;
            bridge = bridge;
            ip = ip;
            netmask = netmask_or_default netmask;
            gateway = if config.bridge_ip == "" then "" else lib.first_part config.bridge_ip;
            subnet = config.subnet;
          }),
          allocator',
          w',
        )
      ]

  abbrev pub tap_key : String → TapDevice → String
  tap_key id tap = text_append id (text_append "-" tap.name)

  abbrev pub with_mask : TapDevice → String
  with_mask tap = text_append tap.ip (text_append "/" (lib.mask_to_cidr tap.netmask))

  abbrev pub add_address : TapDevice → NetworkAttachment → NetworkAttachment
  add_address tap n = elim n.addresses [
    | addr ∷ addrs ↦ n
    | [] ↦ if tap.ip == "" then n else record n { addresses = with_mask tap ∷ [] }
  ]

  -- One device for each attachment, from the index on. A failure leaves the devices made before it.
  unfoldable pub make_taps :
      String
      → ℕ
      → List NetworkAttachment
      → NetState
      → W
      → Result TapError (List NetworkAttachment) × NetState × W
  make_taps id i [] st w = (ok [], st, w)
  make_taps id i (n ∷ ns) st w =
      let (made, allocator', w') = create_tap_device n i id st.allocator w in
      elim made [
        | err e ↦ (err e, record st { allocator = allocator' }, w')
        | ok tap ↦
            let st' : NetState = record {
              taps = insert (tap_key id tap) tap st.taps;
              allocator = allocator';
            } in
            let (later, st'', w'') = make_taps id (suc i) ns st' w' in
            elim later [
              | err e ↦ (err e, st'', w'')
              | ok others ↦ (ok (add_address tap n ∷ others), st'', w'')
            ]
      ]

  abbrev pub default_network : NetworkAttachment
  default_network = record {
    network = record {
      id = "default";
      spec = record {
        name = "default";
        driver = "bridge";
        driver_config = some (record { bridge = some (record { name = config.bridge_name }) });
      };
    };
    addresses = [];
  }

  -- A task without a network gets the default one, for which the loop then makes a device again.
  unfoldable pub attach_networks :
      Task → NetState → W → Result TapError (List NetworkAttachment) × NetState × W
  attach_networks task st w = elim task.networks [
    | n ∷ ns ↦ make_taps task.id 0 (n ∷ ns) st w
    | [] ↦
        let (made, st', w') = make_taps task.id 0 (default_network ∷ []) st w in
        elim made [ err e ↦ (err e, st', w') | ok networks ↦ make_taps task.id 0 networks st' w' ]
  ]

  -- `ensure_bridge` says whether the bridge is there; `set_up_host` is NAT and DHCP, whose failures are
  -- logged.
  unfoldable pub prepare_network :
      (W → Bool × W) → (W → W) → Task → NetState → W → Result TapError Task × NetState × W
  prepare_network ensure_bridge set_up_host task st w =
      let (there, w₁) = ensure_bridge w in
      if not there
      then (err bridge_failed, st, w₁)
      else let (made, st', w₂) = attach_networks task st (set_up_host w₁) in
        elim made [
          | err e ↦ (err e, st', w₂)
          | ok networks ↦ (ok (record task { networks = networks }), st', w₂)
        ]

  unfoldable pub remove_tap_device : TapDevice → W → W
  remove_tap_device tap w = (links.delete_link tap.name (links.set_down tap.name w)).1

  unfoldable pub release_ip_of : TapDevice → Option IpAllocator → Option IpAllocator
  release_ip_of tap none = none
  release_ip_of tap (some a) = if tap.ip == "" then some a else some (release a tap.ip)

  -- Over the entries of the map, in some order.
  unfoldable pub cleanup_taps :
      String → Map String TapDevice → Option IpAllocator → W → NetState × W
  cleanup_taps id [] allocator w = (record { taps = []; allocator = allocator }, w)
  cleanup_taps id ((key, tap) ∷ rest) allocator w =
      if is_tap_of id key
      then cleanup_taps id rest (release_ip_of tap allocator) (remove_tap_device tap w)
      else let (st, w') = cleanup_taps id rest allocator w in
        (record st { taps = (key, tap) ∷ st.taps }, w')

  -- The client of CNI takes the identifiers of the task and of the network; its errors are logged.
  unfoldable pub detach_networks :
      (String → String → W → W) → String → List NetworkAttachment → W → W
  detach_networks del_network id [] w = w
  detach_networks del_network id (n ∷ ns) w =
      detach_networks del_network id ns (del_network id n.network.id w)

  abbrev pub detach : Option (String → String → W → W) → Task → W → W
  detach none task w = w
  detach (some del_network) task w = detach_networks del_network task.id task.networks w

  unfoldable pub cleanup_network :
      Option (String → String → W → W) → Option Task → NetState → W → NetState × W
  cleanup_network cni none st w = (st, w)
  cleanup_network cni (some task) st w =
      let (st', w') = cleanup_taps task.id st.taps st.allocator w in (st', detach cni task w')

-- The address of the first device found; `none` is an error: no device, or one without an address.
unfoldable pub get_tap_ip : String → Map String TapDevice → Option String
get_tap_ip id [] = none
get_tap_ip id ((key, tap) ∷ rest) =
    let later = get_tap_ip id rest in
    if is_tap_of id key then (if tap.ip == "" then none else some tap.ip) else later
