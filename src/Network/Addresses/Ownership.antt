-- ===== src/Network/Addresses/Ownership.antt =====
-- pkg/network/manager.go: the map of the allocator as a relation between addresses and VMs.
use swarm_cracker.Prelude.{
  String, [], ◌∷◌, false, none, some, Map, lookup, insert, erase, lookup-insert, lookup-erase,
  string_eq, ◌==◌, ◌≡◌, ◌↔◌, refl, arith, eq_iff,
}
use swarm_cracker.Network.Addresses.{address_of}

-- Each address stands once in the map, and so does each VM.
abbrev pub IsOwnership : Map String String → Type 0
IsOwnership [] = Unit {0}
IsOwnership ((ip, id) ∷ rest) =
    (lookup ip rest ≡ none) × (address_of id rest ≡ none) × IsOwnership rest

-- Then the two directions of the map agree.
pub address_of_iff :
    (vm ip : String) (m : Map String String)
    → IsOwnership m
    → (address_of vm m ≡ some ip) ↔ (lookup ip m ≡ some vm)
unfolding address_of lookup
address_of_iff vm ip [] h = (λ e. cc, λ e. cc)
address_of_iff vm ip ((j, id) ∷ rest) h =
    let ih = address_of_iff vm ip rest h.2 in
    let ih' = address_of_iff id ip rest h.2 in
    let ih'' = address_of_iff vm j rest h.2 in
    (
      λ e. ground (arith, h.0, h.1, ih, ih', ih'', eq_iff id vm, eq_iff j ip),
      λ e. ground (arith, h.0, h.1, ih, ih', ih'', eq_iff id vm, eq_iff j ip),
    )

address_of-insert_fresh :
    (vm id ip : String) (m : Map String String)
    → lookup ip m ≡ none
    → address_of vm m ≡ none
    → (id == vm) ≡ false
    → address_of vm (insert ip id m) ≡ none
unfolding address_of insert lookup
address_of-insert_fresh vm id ip [] f e d = rw d refl
address_of-insert_fresh vm id ip ((j, i) ∷ rest) f e d =
    ground (arith, address_of-insert_fresh vm id ip rest)

pub insert-IsOwnership :
    (ip id : String) (m : Map String String)
    → lookup ip m ≡ none
    → address_of id m ≡ none
    → IsOwnership m
    → IsOwnership (insert ip id m)
unfolding address_of insert lookup
insert-IsOwnership ip id [] f e h = (refl, refl, tt)
insert-IsOwnership ip id ((j, i) ∷ rest) f e h = ground (
  arith,
  h.0,
  h.1,
  eq_iff j ip,
  eq_iff ip j,
  eq_iff i id,
  eq_iff id i,
  lookup-insert ip j id rest,
  address_of-insert_fresh i id ip rest,
  insert-IsOwnership ip id rest,
)

address_of-erase :
    (vm ip : String) (m : Map String String)
    → address_of vm m ≡ none
    → address_of vm (erase ip m) ≡ none
unfolding address_of erase
address_of-erase vm ip [] e = refl
address_of-erase vm ip ((j, i) ∷ rest) e = ground (arith, address_of-erase vm ip rest)

pub erase-IsOwnership :
    (ip : String) (m : Map String String) → IsOwnership m → IsOwnership (erase ip m)
unfolding erase
erase-IsOwnership ip [] h = tt
erase-IsOwnership ip ((j, i) ∷ rest) h = ground (
  arith,
  h.0,
  h.1,
  lookup-erase ip j rest,
  address_of-erase i ip rest,
  erase-IsOwnership ip rest h.2,
)
