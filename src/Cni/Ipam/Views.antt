-- ===== src/Cni/Ipam/Views.antt =====
-- The abstract view of the IPAM manager: a ledger that names the owner of each address of each
-- subnet, and its two transitions.
use swarm_cracker.Prelude.{
  String, ◌≡◌, Option, none, some, ◌&&◌, lookup, lookup-insert, string_eq, ◌==◌, arith, ok, err,
  if◌then◌else◌,
}
use swarm_cracker.Cni.Net.{Ip, NetLib}
use swarm_cracker.Cni.Errors.{Outcome}
use swarm_cracker.Cni.Pool.{IpPool}
use swarm_cracker.Cni.Ipam.{IpamManager, with_pool}

-- By the subnet's text and the address's.
abbrev pub Ledger : Type 0
Ledger = String → String → Option String

pub owner_in : Option IpPool → String → Option String
owner_in none text = none
owner_in (some pool) text = lookup text pool.used_ips

unfoldable pub ledger : IpamManager → Ledger
unfolding owner_in
ledger m cidr text = owner_in (lookup cidr m.pools) text

-- The address had no owner, it has this one now, and no other entry has changed.
pub record Grants (before after : Ledger) (cidr text owner : String) : Type 0 where
  pub was_free : before cidr text ≡ none
  pub entries :
      (j t : String) → after j t ≡ (if cidr == j && text == t then some owner else before j t)

-- The address had an owner, it has none now, and no other entry has changed.
pub record Frees (before after : Ledger) (cidr text : String) : Type 0 where
  pub owner : String
  pub was_owned : before cidr text ≡ some owner
  pub entries : (j t : String) → after j t ≡ (if cidr == j && text == t then none else before j t)

pub ledger-with_pool :
    (m : IpamManager) (cidr : String) (pool : IpPool) (j t : String)
    → ledger (with_pool m cidr pool) j t
      ≡ (if cidr == j then lookup t pool.used_ips else ledger m j t)
unfolding ledger
ledger-with_pool m cidr pool j t = ground (arith, lookup-insert cidr j pool m.pools)

-- What a call that hands out an address promises: a grant to the owner, or an error and no change.
abbrev pub GrantsOrFails :
    NetLib → IpamManager → String → String → Outcome Ip × IpamManager → Type 0
GrantsOrFails net m cidr owner (ok ip, m') =
    Grants (ledger m) (ledger m') cidr (net.ip_string ip) owner
GrantsOrFails net m cidr owner (err e, m') = m' ≡ m

-- And a call that takes one back.
abbrev pub FreesOrFails : IpamManager → String → String → Outcome Unit × IpamManager → Type 0
FreesOrFails m cidr text (ok _, m') = Frees (ledger m) (ledger m') cidr text
FreesOrFails m cidr text (err e, m') = m' ≡ m
