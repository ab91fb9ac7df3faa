-- ===== src/Snapshots/Creation.antt =====
-- pkg/snapshot/snapshot.go, CreateSnapshot. What Firecracker and the file system answer is an argument.
-- The staging directory, which has no metadata and is gone at the end, is left out.
use swarm_cracker.Prelude.{
  ℕ, suc, zero, ◌+◌, ◌%◌, ◌^◌, String, List, [], ◌∷◌, Bool, true, false, not, ◌&&◌, Option, none,
  some, Map, string_eq, ◌==◌, Result, ok, err, if◌then◌else◌, ℤ, pos, negsuc, ◌≡◌, refl, ap, ◌∙◌,
  arith, Bool-cases, Result-cases, inl, inr, eq_iff, ◌⊎◌,
}
use swarm_cracker.Snapshots.{
  SnapshotInfo, SnapshotConfig, SnapshotEntry, SnapshotError, socket_required, socket_not_found,
  staging_failed, api_failed, make_dir_failed, move_failed, stat_failed, checksum_failed,
  save_failed, exists, without, remove_all, enforce_max_snapshots,
}
use Prim.Native.String.{◌++◌ as text_append}

pub record CreateOptions : Type 0 where
  pub service_id : String
  pub node_id : String
  pub vcpu_count : ℤ
  pub memory_mb : ℤ
  pub rootfs_path : String
  pub metadata : Map String String

-- The answers of one call, and the identifier that it generates.
pub record Answers : Type 0 where
  pub socket_exists : Bool
  pub staging_made : Bool
  pub api_created : Bool
  pub snapshot_id : String
  pub dir_made : Bool
  pub state_moved : Bool
  pub memory_moved : Bool
  pub state_size : Option ℕ
  pub memory_size : Option ℕ
  pub checksum : Option String
  pub now : ℕ
  pub saved : Bool

-- os.MkdirAll, which leaves a directory that is there.
abbrev pub make_dir : String → List SnapshotEntry → List SnapshotEntry
make_dir id entries =
    if exists id entries
    then entries
    else record { name = id; is_dir = true; decoded = none } ∷ entries

abbrev pub save_metadata : String → SnapshotInfo → List SnapshotEntry → List SnapshotEntry
save_metadata id info [] = []
save_metadata id info (entry ∷ entries) =
    let rest = save_metadata id info entries in
    if entry.name == id then record entry { decoded = some info } ∷ rest else entry ∷ rest

-- The two files moved and measured: the sum of their sizes in 64 bits, and the checksum.
unfoldable pub move_files : Answers → Result SnapshotError (ℕ × String)
move_files a =
    if not a.state_moved
    then err move_failed
    else if not a.memory_moved
    then err move_failed
    else elim a.state_size [
      | none ↦ err stat_failed
      | some state ↦ elim a.memory_size [
        | none ↦ err stat_failed
        | some memory ↦ elim a.checksum [
          | none ↦ err checksum_failed
          | some sum ↦ ok ((state + memory) % 2 ^ 64, sum)
        ]
      ]
    ]

abbrev pub new_info : String → Answers → String → CreateOptions → ℕ × String → SnapshotInfo
new_info dir a task opts (size, sum) = record {
  id = a.snapshot_id;
  task_id = task;
  service_id = opts.service_id;
  node_id = opts.node_id;
  created_at = a.now;
  memory_path = text_append dir "/vm.mem";
  state_path = text_append dir "/vm.state";
  size_bytes = size;
  vcpu_count = opts.vcpu_count;
  memory_mb = opts.memory_mb;
  rootfs_path = opts.rootfs_path;
  checksum = sum;
  metadata = opts.metadata;
}

abbrev pub is_positive : ℤ → Bool
is_positive (pos (suc n)) = true
is_positive (pos zero) = false
is_positive (negsuc n) = false

abbrev pub snapshot_path : SnapshotConfig → String → String
snapshot_path config id = text_append config.snapshot_dir (text_append "/" id)

module _ (sort : List SnapshotInfo → List SnapshotInfo) (removable : String → Bool)
    (config : SnapshotConfig) (a : Answers) (task : String) (opts : CreateOptions) where
  -- From the new directory on; a failure removes it.
  unfoldable pub fill_dir :
      List SnapshotEntry → Result SnapshotError SnapshotInfo × List SnapshotEntry
  fill_dir made = elim (move_files a) [
    | err e ↦ (err e, remove_all removable a.snapshot_id made)
    | ok measured ↦
        let info = new_info (snapshot_path config a.snapshot_id) a task opts measured in
        if not a.saved
        then (err save_failed, remove_all removable a.snapshot_id made)
        else let stored = save_metadata a.snapshot_id info made in
          if is_positive config.max_snapshots && not (opts.service_id == "")
          then (ok info, enforce_max_snapshots sort removable config opts.service_id stored)
          else (ok info, stored)
  ]

  unfoldable pub create_snapshot :
      String → List SnapshotEntry → Result SnapshotError SnapshotInfo × List SnapshotEntry
  create_snapshot socket entries =
      if socket == ""
      then (err socket_required, entries)
      else if not a.socket_exists
      then (err socket_not_found, entries)
      else if not a.staging_made
      then (err staging_failed, entries)
      else if not a.api_created
      then (err api_failed, entries)
      else if not a.dir_made
      then (err make_dir_failed, entries)
      else fill_dir (make_dir a.snapshot_id entries)

  without_missing :
      (name : String) (entries : List SnapshotEntry)
      → exists name entries ≡ false
      → without name entries ≡ entries
  without_missing name [] fresh = refl
  without_missing name (entry ∷ entries) fresh =
      let ih = without_missing name entries in
      elim (Bool-cases (entry.name == name)) [
        | inl same ↦ absurd (ground (arith, same, fresh))
        | inr other ↦ rw other (ap (λ es. entry ∷ es) (ih (ground (arith, other, fresh))))
      ]

  remove_all-make_dir :
      (entries : List SnapshotEntry)
      → exists a.snapshot_id entries ≡ false
      → removable a.snapshot_id ≡ true
      → remove_all removable a.snapshot_id (make_dir a.snapshot_id entries) ≡ entries
  unfolding remove_all
  remove_all-make_dir entries fresh removes =
      rw (remove_all, removes, fresh)
        (ground
          (arith, eq_iff a.snapshot_id a.snapshot_id, without_missing a.snapshot_id entries fresh))

  -- The new directory is filled, or a failure removes it.
  fill_dir_cases :
      (made : List SnapshotEntry)
      → ((info : SnapshotInfo) × ((fill_dir made).0 ≡ ok info))
        ⊎ ((e : SnapshotError) × (fill_dir made ≡ (err e, remove_all removable a.snapshot_id made)))
  unfolding fill_dir
  fill_dir_cases made = elim (Result-cases (move_files a)) [
    | inr (e, failed) ↦ inr (e, rw (fill_dir, failed))
    | inl (measured, moved) ↦
        let info = new_info (snapshot_path config a.snapshot_id) a task opts measured in
        elim (Bool-cases a.saved) [
          | inr unsaved ↦ inr (save_failed, simp (fill_dir, moved, unsaved) refl)
          | inl saved ↦
              elim (Bool-cases (is_positive config.max_snapshots && not (opts.service_id == ""))) [
                | inl limited ↦ inl (info, simp (fill_dir, moved, saved, limited) refl)
                | inr free ↦ inl (info, simp (fill_dir, moved, saved, free) refl)
              ]
        ]
  ]

  fill_dir_failed :
      (entries : List SnapshotEntry) (e : SnapshotError)
      → exists a.snapshot_id entries ≡ false
      → removable a.snapshot_id ≡ true
      → (fill_dir (make_dir a.snapshot_id entries)).0 ≡ err e
      → (fill_dir (make_dir a.snapshot_id entries)).1 ≡ entries
  fill_dir_failed entries e fresh removes failed =
      elim (fill_dir_cases (make_dir a.snapshot_id entries)) [
        | inl (info, fine) ↦ cc (failed, fine)
        | inr (f, r) ↦ ap (λ p. p.1) r ∙ remove_all-make_dir entries fresh removes
      ]

  -- Where no directory has the new identifier and the new directory can be removed, a call that fails
  -- leaves the directory as it was.
  pub create_snapshot_failed :
      (socket : String) (entries : List SnapshotEntry) (e : SnapshotError)
      → exists a.snapshot_id entries ≡ false
      → removable a.snapshot_id ≡ true
      → (create_snapshot socket entries).0 ≡ err e
      → (create_snapshot socket entries).1 ≡ entries
  unfolding create_snapshot
  create_snapshot_failed socket entries e fresh removes failed =
      ground (arith, fill_dir_failed entries e fresh removes, failed)
