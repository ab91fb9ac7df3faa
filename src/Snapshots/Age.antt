-- ===== src/Snapshots/Age.antt =====
-- pkg/snapshot/snapshot.go, CleanupOldSnapshots: what the limit on age removes.
use swarm_cracker.Prelude.{
  ℕ, ◌-◌, ◌≤◌, ◌<◌, String, List, [], ◌∷◌, Bool, true, false, some, string_eq, ◌==◌, eq_iff, ltb,
  In, if◌then◌else◌, ◌≡◌, ◌⊎◌, ◌↔◌, inl, inr, refl, sym, ap, ◌∙◌, arith, ℤ, Bool-cases,
}
use swarm_cracker.Snapshots.{
  SnapshotInfo, SnapshotConfig, SnapshotEntry, Removed, listed, collect, exists, delete_snapshot,
  count_removal, cleanup_loop, cleanup_old_snapshots, effective_age, no_filter,
}
use swarm_cracker.Snapshots.Order.{IsSort}
use swarm_cracker.Snapshots.Store.{
  IsStore, has_id, has_id-In, In-has_id, In-without, collect-mem, listed_name, same_snapshot,
}

-- The snapshots created before the cutoff.
abbrev older : ℕ → List SnapshotInfo → List SnapshotInfo
older cutoff [] = []
older cutoff (info ∷ infos) =
    let rest = older cutoff infos in if ltb info.created_at cutoff then info ∷ rest else rest

In-without_missing :
    (name : String) (entry : SnapshotEntry) (entries : List SnapshotEntry)
    → exists name entries ≡ false
    → In entry entries
    → (entry.name == name) ≡ false
In-without_missing name entry [] none_there m = absurd m
In-without_missing name entry (f ∷ entries) none_there (inl same) =
    ap (λ (x : SnapshotEntry). x.name == name) same ∙ ground (arith, none_there)
In-without_missing name entry (f ∷ entries) none_there (inr later) =
    In-without_missing name entry entries (ground (arith, none_there)) later

-- Deleting leaves the entries of other names, whether the snapshot was there or not.
In-delete_snapshot :
    (removable : String → Bool) (id : String) (size : ℕ) (entry : SnapshotEntry) (r : Removed)
    → ((name : String) → removable name ≡ true)
    → In entry (count_removal size r (delete_snapshot removable id r.left)).left
      ↔ (In entry r.left × ((entry.name == id) ≡ false))
unfolding delete_snapshot
In-delete_snapshot removable id size entry r removes = elim (Bool-cases (exists id r.left)) [
  | inl there ↦ rw (delete_snapshot, there, removes id) (In-without id entry r.left)
  | inr missing ↦
      rw (delete_snapshot, missing)
        (λ m. (m, In-without_missing id entry r.left missing m), λ m. m.0)
]

In-cleanup_loop :
    (removable : String → Bool) (cutoff : ℕ) (entry : SnapshotEntry) (infos : List SnapshotInfo)
    (r : Removed)
    → ((name : String) → removable name ≡ true)
    → In entry (cleanup_loop removable cutoff infos r).left
      ↔ (In entry r.left × (has_id entry.name (older cutoff infos) ≡ false))
unfolding cleanup_loop
In-cleanup_loop removable cutoff entry [] r removes = (λ m. (m, refl), λ m. m.0)
In-cleanup_loop removable cutoff entry (info ∷ infos) r removes =
    elim (Bool-cases (ltb info.created_at cutoff)) [
      | inr young ↦
          rw (cleanup_loop, young) (In-cleanup_loop removable cutoff entry infos r removes)
      | inl old ↦
          let next = count_removal info.size_bytes r (delete_snapshot removable info.id r.left) in
          let later = In-cleanup_loop removable cutoff entry infos next removes in
          let here = In-delete_snapshot removable info.id info.size_bytes entry r removes in
          rw (cleanup_loop, old)
            (
              λ m.
                  let (inside, none_later) = later.0 m in
                  let (first, other) = here.0 inside in
                  (
                    first,
                    ground (
                      arith,
                      eq_iff info.id entry.name,
                      eq_iff entry.name info.id,
                      other,
                      none_later,
                    ),
                  ),
              λ (first, none_here). later.1 (
                here.1 (
                  first,
                  ground (arith, none_here, eq_iff info.id entry.name, eq_iff entry.name info.id),
                ),
                ground (arith, none_here),
              ),
            )
    ]

In-older :
    (cutoff : ℕ) (x : SnapshotInfo) (infos : List SnapshotInfo)
    → In x (older cutoff infos) ↔ (In x infos × (ltb x.created_at cutoff ≡ true))
In-older cutoff x [] = (λ m. absurd m, λ m. m.0)
In-older cutoff x (info ∷ infos) =
    let ih = In-older cutoff x infos in
    let age : SnapshotInfo → Bool = λ i. ltb i.created_at cutoff in
    elim (Bool-cases (ltb info.created_at cutoff)) [
      | inr young ↦ (
        λ m. let (inside, old) = ih.0 (rw young at m) in (inr inside, old),
        λ (found, old). rw young (elim found [
          | inl same ↦ cc (ap age same, old, young)
          | inr later ↦ ih.1 (later, old)
        ]),
      )
      | inl old ↦ (
        λ m. elim (rw old at m) [
          | inl same ↦ (inl same, ap age same ∙ old)
          | inr later ↦ let (inside, aged) = ih.0 later in (inr inside, aged)
        ],
        λ (found, aged).
            rw old (elim found [ inl same ↦ inl same | inr later ↦ inr (ih.1 (later, aged)) ]),
      )
    ]

-- Where the limit on age is a positive number of nanoseconds, each snapshot's directory is named by
-- its id, each name stands once, and every removal succeeds, CleanupOldSnapshots keeps each snapshot
-- that was not created before the cutoff, and removes each other one.
pub cleanup_old_snapshots_lem :
    (sort : List SnapshotInfo → List SnapshotInfo) (removable : String → Bool)
    (config : SnapshotConfig) (now age : ℕ) (max_age : ℤ) (entries : List SnapshotEntry)
    (entry : SnapshotEntry) (info : SnapshotInfo)
    → IsSort sort
    → IsStore entries
    → ((name : String) → removable name ≡ true)
    → effective_age max_age config.max_age ≡ some age
    → In entry entries
    → listed config.snapshot_dir no_filter entry ≡ some info
    → let after = (cleanup_old_snapshots sort removable config now max_age entries).left in
      (In entry after × (now - age ≤ info.created_at))
      ⊎ (¬ In entry after × (info.created_at < now - age))
unfolding cleanup_old_snapshots
cleanup_old_snapshots_lem sort removable config now age max_age entries entry info sorts store
      removes aged inside shown =
    let dir = config.snapshot_dir in
    let found = collect dir no_filter entries in
    let cutoff = now - age in
    let start : Removed = record { count = 0; freed = 0; left = entries } in
    let out = In-cleanup_loop removable cutoff entry (sort found) start removes in
    let among =
      (sorts.keeps info found).1 (collect-mem dir no_filter info entry entries inside shown) in
    let id = listed_name dir no_filter entries store entry info inside shown in
    rw (cleanup_old_snapshots, aged)
      (elim (Bool-cases (has_id entry.name (older cutoff (sort found)))) [
        | inr stays ↦ elim (Bool-cases (ltb info.created_at cutoff)) [
          | inr young ↦ inl (out.1 (inside, stays), ground (arith, young))
          | inl old ↦ absurd (
              cc (
                In-has_id entry.name info (older cutoff (sort found))
                    ((In-older cutoff info (sort found)).1 (among, old)) id,
                stays,
              ))
        ]
        | inl goes ↦
            let (other, there, is) = has_id-In entry.name (older cutoff (sort found)) goes in
            let (listed_too, old) = (In-older cutoff other (sort found)).0 there in
            let same =
              same_snapshot dir no_filter entries store entry info other inside shown
                ((sorts.keeps other found).0 listed_too) is in
            let old' : ltb info.created_at cutoff ≡ true =
              ap (λ (i : SnapshotInfo). ltb i.created_at cutoff) (sym same) ∙ old in
            inr (λ m. cc ((out.0 m).1, goes), ground (arith, old'))
      ])
