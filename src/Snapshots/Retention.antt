-- ===== src/Snapshots/Retention.antt =====
-- pkg/snapshot/snapshot.go: which snapshots the limits on number and age keep.
use mathlib.Core.Path.{subst}
use swarm_cracker.Prelude.{
  ℕ, zero, suc, ◌≤◌, String, List, Bool, true, none, some, string_eq, leb, length, take, drop, All,
  In, ◌≡◌, ◌⊎◌, inl, inr, refl, sym, ap, ◌∙◌, arith, ℤ, pos, negsuc, Bool-cases,
}
use swarm_cracker.Snapshots.{
  SnapshotInfo, SnapshotConfig, SnapshotEntry, listed, collect, remove_from_end, enforce_limit,
  enforce_max_snapshots, service_filter,
}
use swarm_cracker.Snapshots.Order.{IsSort, In-take_or_drop, In-drop, In-take_all, drop_older}
use swarm_cracker.Snapshots.Store.{
  IsStore, has_id, listed-id, mem-collect, collect-mem, has_id-In, In-has_id, In-remove_from_end,
  same_snapshot, listed_name,
}

-- The snapshots of the service, the newest first.
abbrev ranking :
    (List SnapshotInfo → List SnapshotInfo)
    → SnapshotConfig
    → String
    → List SnapshotEntry
    → List SnapshotInfo
ranking sort config service entries =
    sort (collect config.snapshot_dir (service_filter service) entries)

-- With a limit n above 0, a directory whose snapshots are named by their ids, each once, and where
-- every removal succeeds: each snapshot of the service is kept and is among the first n, the newest
-- first, or is gone, and is among the others and no newer than any of the first n.
pub enforce_max_snapshots_lem :
    (sort : List SnapshotInfo → List SnapshotInfo) (removable : String → Bool)
    (config : SnapshotConfig) (service : String) (n : ℕ) (entries : List SnapshotEntry)
    (entry : SnapshotEntry) (info : SnapshotInfo)
    → IsSort sort
    → IsStore entries
    → ((name : String) → removable name ≡ true)
    → config.max_snapshots ≡ pos (suc n)
    → In entry entries
    → listed config.snapshot_dir (service_filter service) entry ≡ some info
    → let all = sort (collect config.snapshot_dir (service_filter service) entries) in
      let after = enforce_max_snapshots sort removable config service entries in
      (In entry after × In info (take (suc n) all))
      ⊎ (¬ In entry after
          × In info (drop (suc n) all)
          × All (λ (x : SnapshotInfo). info.created_at ≤ x.created_at) (take (suc n) all))
unfolding enforce_max_snapshots enforce_limit
enforce_max_snapshots_lem sort removable config service n entries entry info sorts store removes
      limit inside shown =
    let filter = service_filter service in
    let all = ranking sort config service entries in
    let among : In info all =
      (sorts.keeps info (collect config.snapshot_dir filter entries)).1
        (collect-mem config.snapshot_dir filter info entry entries inside shown) in
    rw (enforce_max_snapshots, limit)
      (elim (Bool-cases (leb (length all) (suc n))) [
        | inl few ↦ rw few (inl (inside, In-take_all (suc n) info all (ground (arith, few)) among))
        | inr many ↦
            let out = In-remove_from_end removable entry (drop (suc n) all) entries removes in
            rw many (elim (Bool-cases (has_id entry.name (drop (suc n) all))) [
              | inr stays ↦ elim (In-take_or_drop (suc n) info all among) [
                | inl early ↦ inl (out.1 (inside, stays), early)
                | inr late ↦
                    let id =
                      listed_name config.snapshot_dir filter entries store entry info inside
                        shown in
                    absurd (cc (In-has_id entry.name info (drop (suc n) all) late id, stays))
              ]
              | inl goes ↦
                  let (other, there, is) = has_id-In entry.name (drop (suc n) all) goes in
                  let same =
                    same_snapshot config.snapshot_dir filter entries store entry info other inside
                      shown
                      ((sorts.keeps other (collect config.snapshot_dir filter entries)).0
                        (In-drop (suc n) other all there))
                      is in
                  let late : In info (drop (suc n) all) =
                    subst (λ (x : SnapshotInfo). In x (drop (suc n) all)) same there in
                  inr (
                    λ m. cc ((out.0 m).1, goes),
                    late,
                    drop_older (suc n) info all (sorts.orders _) late,
                  )
            ])
      ])

enforce_limit_cases :
    (removable : String → Bool) (limit : ℤ) (infos : List SnapshotInfo)
    (entries : List SnapshotEntry)
    → (enforce_limit removable limit infos entries ≡ entries)
      ⊎ ((k : ℕ) × (enforce_limit removable limit infos entries
            ≡ remove_from_end removable (drop k infos) entries))
unfolding enforce_limit
enforce_limit_cases removable (negsuc n) infos entries = inl refl
enforce_limit_cases removable (pos zero) infos entries = inl refl
enforce_limit_cases removable (pos (suc n)) infos entries =
    elim (Bool-cases (leb (length infos) (suc n))) [
      | inl few ↦ inl (rw (enforce_limit, few))
      | inr many ↦ inr (suc n, rw (enforce_limit, many))
    ]

-- Under the same conditions on the directory and the removals, and with any limit, an entry that is
-- not a snapshot of the service stays.
pub enforce_max_snapshots_keeps_others :
    (sort : List SnapshotInfo → List SnapshotInfo) (removable : String → Bool)
    (config : SnapshotConfig) (service : String) (entries : List SnapshotEntry)
    (entry : SnapshotEntry)
    → IsSort sort
    → IsStore entries
    → ((name : String) → removable name ≡ true)
    → In entry entries
    → listed config.snapshot_dir (service_filter service) entry ≡ none
    → In entry (enforce_max_snapshots sort removable config service entries)
unfolding enforce_max_snapshots enforce_limit
enforce_max_snapshots_keeps_others sort removable config service entries entry sorts store removes
      inside hidden =
    let filter = service_filter service in
    let found = collect config.snapshot_dir filter entries in
    let all = sort found in
    let kept : (k : ℕ) → In entry (remove_from_end removable (drop k all) entries) = λ k.
      (In-remove_from_end removable entry (drop k all) entries removes).1 (
        inside,
        elim (Bool-cases (has_id entry.name (drop k all))) [
          | inr stays ↦ stays
          | inl goes ↦
              let (other, there, is) = has_id-In entry.name (drop k all) goes in
              let (e, is_in, reads) =
                mem-collect config.snapshot_dir filter other entries
                  ((sorts.keeps other found).0 (In-drop k other all there)) in
              let (decoded, has, id) = listed-id config.snapshot_dir filter e other reads in
              let names : e.name ≡ entry.name =
                sym (store.named e decoded is_in has) ∙ sym id ∙ is in
              let same = store.once e entry is_in inside names in
              absurd (cc (ap (listed config.snapshot_dir filter) same, reads, hidden))
        ],
      ) in
    elim (enforce_limit_cases removable config.max_snapshots all entries) [
      | inl same ↦ rw (enforce_max_snapshots, same) inside
      | inr (k, cut) ↦ rw (enforce_max_snapshots, cut) (kept k)
    ]
