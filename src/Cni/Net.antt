-- ===== src/Cni/Net.antt =====
-- What pkg/cni uses of Go's package `net`: a record of its functions, which are no code of this
-- repository. An address is its bytes, the most significant first; a nil address has no bytes.
use swarm_cracker.Prelude.{ℕ, String, Bool, Option, List}

abbrev pub Ip : Type 0
Ip = List ℕ

-- net.IPNet
pub record IpNet : Type 0 where
  pub ip : Ip
  pub mask : Ip

pub record NetLib : Type 0 where
  -- IP.String, IP.Equal, IP.To4 (`none` is nil), ParseIP
  pub ip_string : Ip → String
  pub ip_equal : Ip → Ip → Bool
  pub to4 : Ip → Option Ip
  pub parse_ip : String → Option Ip
  -- IPNet.Contains, IPNet.String, IPMask.Size (the ones and the bits), net.ParseCIDR
  pub contains : IpNet → Ip → Bool
  pub net_string : IpNet → String
  pub mask_ones : Ip → ℕ
  pub mask_bits : Ip → ℕ
  pub parse_cidr : String → Option (IpNet × Ip)
