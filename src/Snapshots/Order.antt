-- ===== src/Snapshots/Order.antt =====
-- pkg/snapshot/snapshot.go: the order of a listing, the newest first, and its first entries.
use mathlib.Core.Path.{subst}
use swarm_cracker.Prelude.{
  ℕ, zero, suc, ◌≤◌, List, [], ◌∷◌, string_eq, length, take, drop, All, In, ◌⊎◌, ◌↔◌, inl, inr, sym,
  arith,
}
use swarm_cracker.Snapshots.{SnapshotInfo}

abbrev pub IsNewestFirst : List SnapshotInfo → Type 0
IsNewestFirst [] = Unit {0}
IsNewestFirst (x ∷ xs) =
    All (λ (y : SnapshotInfo). y.created_at ≤ x.created_at) xs × IsNewestFirst xs

-- What sort.Slice promises with the order of the code.
pub record IsSort (sort : List SnapshotInfo → List SnapshotInfo) : Type 0 where
  pub keeps : (x : SnapshotInfo) (xs : List SnapshotInfo) → In x (sort xs) ↔ In x xs
  pub orders : (xs : List SnapshotInfo) → IsNewestFirst (sort xs)

pub In-take_or_drop :
    (n : ℕ) (x : SnapshotInfo) (xs : List SnapshotInfo)
    → In x xs
    → In x (take n xs) ⊎ In x (drop n xs)
In-take_or_drop zero x xs m = inr m
In-take_or_drop (suc n) x [] m = absurd m
In-take_or_drop (suc n) x (y ∷ ys) (inl same) = inl (inl same)
In-take_or_drop (suc n) x (y ∷ ys) (inr later) = elim (In-take_or_drop n x ys later) [
  | inl early ↦ inl (inr early)
  | inr late ↦ inr late
]

pub In-drop : (n : ℕ) (x : SnapshotInfo) (xs : List SnapshotInfo) → In x (drop n xs) → In x xs
In-drop zero x xs m = m
In-drop (suc n) x [] m = m
In-drop (suc n) x (y ∷ ys) m = inr (In-drop n x ys m)

pub In-take_all :
    (n : ℕ) (x : SnapshotInfo) (xs : List SnapshotInfo) → length xs ≤ n → In x xs → In x (take n xs)
In-take_all n x [] short m = absurd m
In-take_all zero x (y ∷ ys) short m = absurd (omega (arith, short))
In-take_all (suc n) x (y ∷ ys) short (inl same) = inl same
In-take_all (suc n) x (y ∷ ys) short (inr later) =
    inr (In-take_all n x ys (omega (arith, short)) later)

pub all-in :
    (P : SnapshotInfo → Type 0) (x : SnapshotInfo) (xs : List SnapshotInfo)
    → All P xs
    → In x xs
    → P x
all-in P x [] h m = absurd m
all-in P x (y ∷ ys) h (inl same) = subst P (sym same) h.0
all-in P x (y ∷ ys) h (inr later) = all-in P x ys h.1 later

pub drop_older :
    (n : ℕ) (x : SnapshotInfo) (xs : List SnapshotInfo)
    → IsNewestFirst xs
    → In x (drop n xs)
    → All (λ (y : SnapshotInfo). x.created_at ≤ y.created_at) (take n xs)
drop_older zero x xs sorted m = tt
drop_older (suc n) x [] sorted m = tt
drop_older (suc n) x (y ∷ ys) sorted m = (
  all-in (λ z. z.created_at ≤ y.created_at) x ys sorted.0 (In-drop n x ys m),
  drop_older n x ys sorted.1 m,
)
