-- ===== src/Tests/Net.antt =====
-- A concrete library of address functions, for IPv4 addresses.
use Prim.Native.String.{◌++◌ as text_append}
use swarm_cracker.Prelude.{
  ℕ, zero, suc, List, ◌+◌, ◌*◌, ◌-◌, ◌/◌, ◌%◌, ◌^◌, String, [], ◌∷◌, Bool, true, false, ◌&&◌,
  Option, none, some, ltb, leb, ◌==◌, nat_eq, string_eq, if◌then◌else◌, length,
}
use swarm_cracker.Cni.Net.{Ip, IpNet, NetLib}
use swarm_cracker.Cni.Ip.Value.{value}
use swarm_cracker.Cni.Provider.{CniEnv}

abbrev nth : List String → ℕ → String
nth [] n = ""
nth (x ∷ xs) zero = x
nth (x ∷ xs) (suc n) = nth xs n

abbrev digit : ℕ → String
digit = nth ("0" ∷ "1" ∷ "2" ∷ "3" ∷ "4" ∷ "5" ∷ "6" ∷ "7" ∷ "8" ∷ "9" ∷ [])

-- The decimal digits of a number below 1000.
abbrev pub decimal : ℕ → String
decimal n =
    if ltb n 10
    then digit n
    else if ltb n 100
    then text_append (digit (n / 10)) (digit (n % 10))
    else text_append (digit (n / 100)) (text_append (digit (n / 10 % 10)) (digit (n % 10)))

abbrev pub dotted : Ip → String
dotted [] = ""
dotted (b ∷ []) = decimal b
dotted (b ∷ c ∷ rest) = text_append (decimal b) (text_append "." (dotted (c ∷ rest)))

abbrev pub same_ip : Ip → Ip → Bool
same_ip [] [] = true
same_ip [] (b ∷ bs) = false
same_ip (a ∷ xs) [] = false
same_ip (a ∷ xs) (b ∷ bs) = (a == b) && same_ip xs bs

-- The bits of a byte that are set.
abbrev byte_ones : ℕ → ℕ
byte_ones b =
    b % 2 + b / 2 % 2 + b / 4 % 2 + b / 8 % 2 + b / 16 % 2 + b / 32 % 2 + b / 64 % 2 + b / 128 % 2

abbrev pub ones : Ip → ℕ
ones [] = 0
ones (b ∷ bs) = byte_ones b + ones bs

abbrev pub size_of : IpNet → ℕ
size_of subnet = 2 ^ (8 * length subnet.mask - ones subnet.mask)

abbrev pub four_bytes : Ip → Option Ip
four_bytes ip = if length ip == 4 then some ip else none

abbrev pub ten_eight : IpNet
ten_eight = record { ip = 10 ∷ 0 ∷ 0 ∷ 0 ∷ []; mask = 255 ∷ 0 ∷ 0 ∷ 0 ∷ [] }

abbrev pub one_24 : IpNet
one_24 = record { ip = 1 ∷ 0 ∷ 0 ∷ 0 ∷ []; mask = 255 ∷ 255 ∷ 255 ∷ 0 ∷ [] }

-- The texts that the examples parse.
abbrev pub parse : String → Option (IpNet × Ip)
parse cidr =
    if cidr == "10.0.0.0/8"
    then some (ten_eight, 10 ∷ 0 ∷ 0 ∷ 0 ∷ [])
    else if cidr == "1.0.0.0/24"
    then some (one_24, 1 ∷ 0 ∷ 0 ∷ 0 ∷ [])
    else none

unfoldable pub go_net : NetLib
unfolding value
go_net = record {
  ip_string = dotted;
  ip_equal = same_ip;
  to4 = four_bytes;
  parse_ip = λ text. if text == "1.0.0.1" then some (1 ∷ 0 ∷ 0 ∷ 1 ∷ []) else none;
  contains = λ subnet ip.
      leb (value subnet.ip) (value ip) && ltb (value ip) (value subnet.ip + size_of subnet);
  net_string =
      λ subnet. text_append (dotted subnet.ip) (text_append "/" (decimal (ones subnet.mask)));
  mask_ones = ones;
  mask_bits = λ mask. 8 * length mask;
  parse_cidr = parse;
}

abbrev pub go_env : CniEnv
go_env = record {
  net = go_net;
  decimal = decimal;
  to_lower = λ c. c;
  config_generated = λ name. true;
  config_written = λ name. true;
}
