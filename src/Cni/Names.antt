-- ===== src/Cni/Names.antt =====
-- pkg/cni/config.go: VXLAN identifiers and CNI names, made from the names of networks. A name is
-- the list of its code points.
pub mod Vni
use swarm_cracker.Prelude.{
  ℕ, ◌+◌, ◌*◌, ◌%◌, ◌^◌, List, [], ◌∷◌, Bool, ◌&&◌, ◌||◌, map, ltb, leb, ◌==◌, nat_eq,
  if◌then◌else◌,
}

abbrev pub u32 : ℕ
u32 = 2 ^ 32

abbrev pub max_vni : ℕ
max_vni = 16777215

-- hash = hash*31 + uint32(c)
unfoldable pub name_hash : ℕ → List ℕ → ℕ
name_hash hash [] = hash
name_hash hash (c ∷ cs) = name_hash ((hash * 31 % u32 + c) % u32) cs

unfoldable pub generate_vxlan_id : List ℕ → ℕ → ℕ
generate_vxlan_id network_name base_id =
    let vxlan_id = (name_hash 0 network_name + base_id) % u32 % max_vni in
    if ltb vxlan_id 1 then 1 else vxlan_id

-- `strings.ReplaceAll(name, "-", "_")`
unfoldable pub replace_dash : ℕ → ℕ
replace_dash c = if c == b'-' then b'_' else c

unfoldable pub is_name_char : ℕ → Bool
is_name_char c = (leb b'a' c && leb c b'z') || (leb b'0' c && leb c b'9') || c == b'_'

unfoldable pub keep_name_chars : List ℕ → List ℕ
keep_name_chars [] = []
keep_name_chars (c ∷ cs) =
    let rest = keep_name_chars cs in if is_name_char c then c ∷ rest else rest

-- `to_lower` is `unicode.ToLower`, which `strings.ToLower` maps over the text.
unfoldable pub network_name_from_swarm_kit : (ℕ → ℕ) → List ℕ → List ℕ
network_name_from_swarm_kit to_lower name = keep_name_chars (map replace_dash (map to_lower name))
