-- ===== src/Cni/Names/Vni.antt =====
-- The range of the VXLAN identifiers, two networks that share one, and the alphabet of CNI names.
use swarm_cracker.Prelude.{
  ℕ, ◌+◌, ◌*◌, ◌%◌, ◌≤◌, ◌<◌, ◌≡◌, refl, ap, List, [], ◌∷◌, ◌++◌, true, arith, map, All, inl, inr,
  Bool-cases,
}
use swarm_cracker.Cni.Names.{
  u32, max_vni, name_hash, generate_vxlan_id, replace_dash, is_name_char, keep_name_chars,
  network_name_from_swarm_kit,
}

-- A VXLAN identifier is at least 1 and at most 16777214.
pub generate_vxlan_id_bounds :
    (name : List ℕ) (base : ℕ)
    → (1 ≤ generate_vxlan_id name base) × (generate_vxlan_id name base < max_vni)
unfolding generate_vxlan_id
generate_vxlan_id_bounds name base = ground arith

name_hash-append : (h : ℕ) (xs ys : List ℕ) → name_hash h (xs ++ ys) ≡ name_hash (name_hash h xs) ys
unfolding name_hash
name_hash-append h [] ys = refl
name_hash-append h (x ∷ xs) ys = name_hash-append ((h * 31 % u32 + x) % u32) xs ys

-- Two names that differ in their last characters alone, by one, get the same identifier if the base
-- of the lower one is greater by one.
pub generate_vxlan_id_shared :
    (prefix : List ℕ) (c base : ℕ)
    → generate_vxlan_id (prefix ++ c ∷ []) (base + 1)
      ≡ generate_vxlan_id (prefix ++ (c + 1) ∷ []) base
unfolding generate_vxlan_id name_hash
generate_vxlan_id_shared prefix c base =
    let shared : (h : ℕ)
        → ((h * 31 % u32 + c) % u32 + (base + 1)) % u32
          ≡ ((h * 31 % u32 + (c + 1)) % u32 + base) % u32 =
      λ h. omega arith in
    rw (
      name_hash-append 0 prefix (c ∷ []),
      name_hash-append 0 prefix ((c + 1) ∷ []),
      shared (name_hash 0 prefix),
    )

keep_name_chars-All : (cs : List ℕ) → All (λ c. is_name_char c ≡ true) (keep_name_chars cs)
unfolding keep_name_chars
keep_name_chars-All [] = tt
keep_name_chars-All (c ∷ cs) = elim (Bool-cases (is_name_char c)) [
  | inl kept ↦ rw kept (kept, keep_name_chars-All cs)
  | inr dropped ↦ rw dropped (keep_name_chars-All cs)
]

keep_name_chars-fixed :
    (f : ℕ → ℕ)
    → ((c : ℕ) → is_name_char c ≡ true → f c ≡ c)
    → (cs : List ℕ) → All (λ c. is_name_char c ≡ true) cs
    → keep_name_chars (map replace_dash (map f cs)) ≡ cs
unfolding keep_name_chars
keep_name_chars-fixed f fixed [] h = refl
keep_name_chars-fixed f fixed (c ∷ cs) h =
    let no_dash : replace_dash c ≡ c = unfold replace_dash is_name_char in ground (arith, h.0) in
    rw (fixed c h.0, no_dash, h.0) (ap (λ rest. c ∷ rest) (keep_name_chars-fixed f fixed cs h.1))

-- If lower-casing leaves the letters a to z, digits and underscores alone, then a CNI name consists
-- of these, and is its own CNI name.
pub network_name_normal :
    (to_lower : ℕ → ℕ)
    → ((c : ℕ) → is_name_char c ≡ true → to_lower c ≡ c)
    → (name : List ℕ)
    → All (λ c. is_name_char c ≡ true) (network_name_from_swarm_kit to_lower name)
      × (network_name_from_swarm_kit to_lower (network_name_from_swarm_kit to_lower name)
          ≡ network_name_from_swarm_kit to_lower name)
unfolding network_name_from_swarm_kit
network_name_normal to_lower fixed name =
    let normal = keep_name_chars-All (map replace_dash (map to_lower name)) in
    (normal, keep_name_chars-fixed to_lower fixed _ normal)
