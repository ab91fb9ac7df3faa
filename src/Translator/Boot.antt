-- ===== src/Translator/Boot.antt =====
-- pkg/translator/translator.go: the arguments of the kernel.
pub mod Words
use swarm_cracker.Prelude.{
  ℕ, String, List, [], ◌∷◌, ◌++◌, Bool, true, false, not, ◌&&◌, Option, none, some, map, nat_eq,
  string_eq, ◌==◌, Result, ok, err, if◌then◌else◌, code_points,
}
use swarm_cracker.Image.Text.{Text, is_empty, join}
use swarm_cracker.Types.{Task, Container, NetworkAttachment, get_container}
use swarm_cracker.Translator.Config.{TaskTranslator}

unfoldable pub build_init_args : TaskTranslator → List Text → List Text
build_init_args t command =
    if t.init_system == "tini"
    then code_points t.init_path ∷ code_points "--" ∷ command
    else if t.init_system == "dumb-init"
    then code_points t.init_path ∷ command
    else command

-- strings.Split at a single character.
abbrev extend_first : ℕ → List Text → List Text
extend_first c [] = (c ∷ []) ∷ []
extend_first c (t ∷ ts) = (c ∷ t) ∷ ts

unfoldable pub split : ℕ → Text → List Text
split sep [] = [] ∷ []
split sep (c ∷ cs) = let rest = split sep cs in if c == sep then [] ∷ rest else extend_first c rest

-- 46 is the point.
abbrev first_of_subnet : List Text → Text
first_of_subnet (a ∷ b ∷ c ∷ d ∷ []) = a ++ (46 ∷ (b ++ (46 ∷ (c ++ code_points ".1"))))
first_of_subnet parts = []

abbrev mtu_of : List NetworkAttachment → ℕ
mtu_of [] = 1500
mtu_of (n ∷ ns) = if n.network.spec.driver == "overlay" then 1450 else 1500

abbrev or_shell : List Text → List Text
or_shell [] = code_points "/bin/sh" ∷ []
or_shell (word ∷ words) = word ∷ words

abbrev pub container_command : Container → List Text
container_command container =
    or_shell (map code_points container.command ++ map code_points container.args)

abbrev pub wrapped_command : TaskTranslator → Container → List Text
wrapped_command t container =
    if not (t.init_system == "none") && not (t.init_path == "")
    then build_init_args t (container_command container)
    else container_command container

module _ (decimal : ℕ → Text) (parse_cidr : Text → Option (Text × List ℕ)) where
  -- A mask has four bytes or more.
  abbrev netmask_of : List ℕ → Text
  netmask_of (a ∷ b ∷ c ∷ d ∷ rest) =
      decimal a ++ (46 ∷ (decimal b ++ (46 ∷ (decimal c ++ (46 ∷ decimal d)))))
  netmask_of mask = []

  abbrev configured_gateway : Text → Text
  configured_gateway bridge_ip =
      if is_empty bridge_ip
      then []
      else elim (parse_cidr bridge_ip) [ none ↦ [] | some (gw_ip, mask) ↦ gw_ip ]

  abbrev gateway_for : Text → Text → Text
  gateway_for bridge_ip client_ip =
      let configured = configured_gateway bridge_ip in
      if is_empty configured then first_of_subnet (split 46 client_ip) else configured

  abbrev static_ip : Text → Text × List ℕ → Text
  static_ip bridge_ip (client_ip, mask) =
      code_points "ip="
      ++ (client_ip
          ++ (code_points "::"
              ++ (gateway_for bridge_ip client_ip
                  ++ (58 ∷ (netmask_of mask ++ code_points "::eth0:off")))))

  abbrev ip_for : Text → List NetworkAttachment → Text
  ip_for bridge_ip [] = code_points "ip=dhcp"
  ip_for bridge_ip (n ∷ ns) = elim n.addresses [
    | [] ↦ code_points "ip=dhcp"
    | cidr ∷ more ↦ elim (parse_cidr (code_points cidr)) [
      | none ↦ code_points "ip=dhcp"
      | some parsed ↦ static_ip bridge_ip parsed
    ]
  ]

  -- What stands before the command.
  abbrev pub kernel_args : TaskTranslator → Task → List Text
  kernel_args t task =
      code_points "console=ttyS0"
      ∷ code_points "reboot=k"
      ∷ code_points "panic=1"
      ∷ code_points "pci=off"
      ∷ code_points "random.trust_cpu=on"
      ∷ code_points "init=/init"
      ∷ ip_for t.bridge_ip task.networks
      ∷ (code_points "mtu=" ++ decimal (mtu_of task.networks))
      ∷ []

  abbrev pub boot_words : TaskTranslator → Task → Container → List Text
  boot_words t task container =
      kernel_args t task ++ (code_points "--" ∷ wrapped_command t container)

  -- 32 is the space.
  unfoldable pub build_boot_args : TaskTranslator → Task → Text
  build_boot_args t task = elim (get_container task.spec) [
    | err e ↦ code_points "console=ttyS0 reboot=k panic=1 pci=off init=/init"
    | ok container ↦ join (boot_words t task container) (32 ∷ [])
  ]
