-- ===== src/Runtime/State/Maps.antt =====
-- The maps of the state manager: each state stands under its id, and once.
use swarm_cracker.Prelude.{
  ℕ, String, [], ◌∷◌, map, Bool, none, some, Option, Map, lookup, insert, erase, lookup-insert,
  lookup-erase, string_eq, ◌≡◌, refl, arith, eq_iff, if◌then◌else◌,
}
use swarm_cracker.Runtime.State.{
  VmState, rebuild, mark_lost, drop_stale, is_lost, stopped, is_stale,
}

abbrev pub IsKeyed : Map String VmState → Type 0
IsKeyed [] = Unit {0}
IsKeyed ((id, state) ∷ rest) = (id ≡ state.id) × (lookup id rest ≡ none) × IsKeyed rest

pub insert-IsKeyed :
    (id : String) (state : VmState) (m : Map String VmState)
    → id ≡ state.id
    → IsKeyed m
    → IsKeyed (insert id state m)
unfolding insert lookup
insert-IsKeyed id state [] e h = (e, refl, tt)
insert-IsKeyed id state ((j, s) ∷ rest) e h = ground (
  arith,
  h.0,
  h.1,
  eq_iff j id,
  eq_iff id j,
  lookup-insert id j state rest,
  insert-IsKeyed id state rest e h.2,
)

pub erase-IsKeyed : (id : String) (m : Map String VmState) → IsKeyed m → IsKeyed (erase id m)
unfolding erase
erase-IsKeyed id [] h = tt
erase-IsKeyed id ((j, s) ∷ rest) h =
    ground (arith, h.0, h.1, lookup-erase id j rest, erase-IsKeyed id rest h.2)

abbrev or_else : Option VmState → Option VmState → Option VmState
or_else none other = other
or_else (some state) other = some state

lookup-rebuild_onto :
    (id : String) (acc m : Map String VmState)
    → IsKeyed m
    → lookup id (rebuild acc (map (λ entry. entry.1) m)) ≡ or_else (lookup id m) (lookup id acc)
unfolding rebuild lookup
lookup-rebuild_onto id acc [] h = refl
lookup-rebuild_onto id acc ((j, s) ∷ rest) h = ground (
  arith,
  h.0,
  h.1,
  eq_iff j id,
  eq_iff s.id id,
  lookup-insert s.id id s acc,
  lookup-rebuild_onto id (insert s.id s acc) rest h.2,
)

-- A map is rebuilt from its values.
pub lookup-rebuild :
    (id : String) (m : Map String VmState)
    → IsKeyed m
    → lookup id (rebuild [] (map (λ entry. entry.1) m)) ≡ lookup id m
unfolding lookup
lookup-rebuild id m h = ground (arith, lookup-rebuild_onto id [] m h)

abbrev pub reconciled : (String → Bool) → ℕ → String → Option VmState → Option VmState
reconciled is_running now id none = none
reconciled is_running now id (some state) =
    some (if is_lost is_running id state then stopped now state else state)

pub lookup-mark_lost :
    (is_running : String → Bool) (now : ℕ) (id : String) (m : Map String VmState)
    → lookup id (mark_lost is_running now m).1 ≡ reconciled is_running now id (lookup id m)
unfolding mark_lost lookup
lookup-mark_lost is_running now id [] = refl
lookup-mark_lost is_running now id ((j, s) ∷ rest) =
    ground (arith, eq_iff j id, lookup-mark_lost is_running now id rest)

abbrev pub unless_stale : Option VmState → Option VmState
unless_stale none = none
unless_stale (some state) = if is_stale state then none else some state

pub lookup-drop_stale :
    (id : String) (m : Map String VmState)
    → IsKeyed m
    → lookup id (drop_stale m).1 ≡ unless_stale (lookup id m)
unfolding drop_stale lookup
lookup-drop_stale id [] h = refl
lookup-drop_stale id ((j, s) ∷ rest) h =
    ground (arith, eq_iff j id, h.1, lookup-drop_stale id rest h.2)

pub mark_lost-IsKeyed :
    (is_running : String → Bool) (now : ℕ) (m : Map String VmState)
    → IsKeyed m
    → IsKeyed (mark_lost is_running now m).1
unfolding mark_lost
mark_lost-IsKeyed is_running now [] h = tt
mark_lost-IsKeyed is_running now ((j, s) ∷ rest) h = ground (
  arith,
  h.0,
  h.1,
  lookup-mark_lost is_running now j rest,
  mark_lost-IsKeyed is_running now rest h.2,
)

pub drop_stale-IsKeyed : (m : Map String VmState) → IsKeyed m → IsKeyed (drop_stale m).1
unfolding drop_stale
drop_stale-IsKeyed [] h = tt
drop_stale-IsKeyed ((j, s) ∷ rest) h =
    ground (arith, h.0, h.1, lookup-drop_stale j rest h.2, drop_stale-IsKeyed rest h.2)

pub keyed-lookup :
    (id : String) (state : VmState) (m : Map String VmState)
    → IsKeyed m
    → lookup id m ≡ some state
    → id ≡ state.id
unfolding lookup
keyed-lookup id state [] h e = cc
keyed-lookup id state ((j, s) ∷ rest) h e =
    ground (arith, h.0, eq_iff j id, e, keyed-lookup id state rest h.2)

-- Where nothing is counted nothing has changed.
pub mark_lost-none :
    (is_running : String → Bool) (now : ℕ) (m : Map String VmState)
    → (mark_lost is_running now m).0 ≡ 0
    → (mark_lost is_running now m).1 ≡ m
unfolding mark_lost
mark_lost-none is_running now [] h = refl
mark_lost-none is_running now ((j, s) ∷ rest) h = ground (arith, mark_lost-none is_running now rest)

pub drop_stale-none : (m : Map String VmState) → (drop_stale m).0 ≡ 0 → (drop_stale m).1 ≡ m
unfolding drop_stale
drop_stale-none [] h = refl
drop_stale-none ((j, s) ∷ rest) h = ground (arith, drop_stale-none rest)
