-- ===== src/Tests/Snapshots.antt =====
-- The theorems about snapshots, with an insertion sort in the place of sort.Slice, on a directory with
-- three snapshots of one service and a file.
use swarm_cracker.Prelude.{
  ℕ, ◌-◌, ◌≤◌, ◌<◌, String, List, [], ◌∷◌, true, false, none, some, err, pos, ◌≡◌, ◌⊎◌, ◌↔◌, inl,
  inr, refl, ap, sym, ◌∙◌, ◌≢◌, eq_iff, arith, ltb, take, drop, All, In, if◌then◌else◌, Bool-cases,
}
use swarm_cracker.Snapshots.{
  SnapshotInfo, SnapshotConfig, SnapshotEntry, move_failed, listed, collect, enforce_max_snapshots,
  service_filter, default_snapshot_config, cleanup_old_snapshots, effective_age, no_filter,
  load_metadata, matches_filter,
}
use swarm_cracker.Snapshots.Order.{IsSort, IsNewestFirst}
use swarm_cracker.Snapshots.Store.{IsStore}
use swarm_cracker.Snapshots.Retention.{enforce_max_snapshots_lem}
use swarm_cracker.Snapshots.Age.{cleanup_old_snapshots_lem}
use swarm_cracker.Snapshots.Creation.{Answers, CreateOptions, create_snapshot, fill_dir, move_files}

abbrev place : SnapshotInfo → List SnapshotInfo → List SnapshotInfo
place x [] = x ∷ []
place x (y ∷ ys) =
    let rest = place x ys in if ltb x.created_at y.created_at then y ∷ rest else x ∷ y ∷ ys

abbrev sorted : List SnapshotInfo → List SnapshotInfo
sorted [] = []
sorted (x ∷ xs) = place x (sorted xs)

In-place : (z x : SnapshotInfo) (ys : List SnapshotInfo) → In z (place x ys) ↔ ((z ≡ x) ⊎ In z ys)
In-place z x [] = (λ m. m, λ m. m)
In-place z x (y ∷ ys) =
    let ih = In-place z x ys in
    elim (Bool-cases (ltb x.created_at y.created_at)) [
      | inr young ↦ rw young (λ m. m, λ m. m)
      | inl old ↦ rw old (
        λ m. elim m [
          | inl same ↦ inr (inl same)
          | inr later ↦ elim (ih.0 later) [ inl new ↦ inl new | inr among ↦ inr (inr among) ]
        ],
        λ m. elim m [
          | inl new ↦ inr (ih.1 (inl new))
          | inr (inl same) ↦ inl same
          | inr (inr among) ↦ inr (ih.1 (inr among))
        ],
      )
    ]

All-place :
    (n : ℕ) (x : SnapshotInfo) (ys : List SnapshotInfo)
    → x.created_at ≤ n
    → All (λ (y : SnapshotInfo). y.created_at ≤ n) ys
    → All (λ (y : SnapshotInfo). y.created_at ≤ n) (place x ys)
All-place n x [] h hs = (h, tt)
All-place n x (y ∷ ys) h hs = elim (Bool-cases (ltb x.created_at y.created_at)) [
  | inr young ↦ rw young (h, hs)
  | inl old ↦ rw old (hs.0, All-place n x ys h hs.1)
]

All-trans :
    (m n : ℕ) (ys : List SnapshotInfo)
    → m ≤ n
    → All (λ (y : SnapshotInfo). y.created_at ≤ m) ys
    → All (λ (y : SnapshotInfo). y.created_at ≤ n) ys
All-trans m n [] h hs = tt
All-trans m n (y ∷ ys) h hs = (omega (arith, h, hs.0), All-trans m n ys h hs.1)

place-IsNewestFirst :
    (x : SnapshotInfo) (ys : List SnapshotInfo) → IsNewestFirst ys → IsNewestFirst (place x ys)
place-IsNewestFirst x [] h = (tt, tt)
place-IsNewestFirst x (y ∷ ys) h = elim (Bool-cases (ltb x.created_at y.created_at)) [
  | inl old ↦
      rw old (All-place y.created_at x ys (ground (arith, old)) h.0, place-IsNewestFirst x ys h.1)
  | inr young ↦
      let newer : y.created_at ≤ x.created_at = ground (arith, young) in
      rw young ((newer, All-trans y.created_at x.created_at ys newer h.0), h)
]

In-sorted : (x : SnapshotInfo) (xs : List SnapshotInfo) → In x (sorted xs) ↔ In x xs
In-sorted x [] = (λ m. m, λ m. m)
In-sorted x (y ∷ ys) =
    let put = In-place x y (sorted ys) in
    let ih = In-sorted x ys in
    (
      λ m. elim (put.0 m) [ inl same ↦ inl same | inr later ↦ inr (ih.0 later) ],
      λ m. elim m [ inl same ↦ put.1 (inl same) | inr later ↦ put.1 (inr (ih.1 later)) ],
    )

sorted-IsNewestFirst : (xs : List SnapshotInfo) → IsNewestFirst (sorted xs)
sorted-IsNewestFirst [] = tt
sorted-IsNewestFirst (x ∷ xs) = place-IsNewestFirst x (sorted xs) (sorted-IsNewestFirst xs)

sorted-IsSort : IsSort sorted
sorted-IsSort = record { keeps = In-sorted; orders = sorted-IsNewestFirst }

abbrev info : String → ℕ → SnapshotInfo
info id time = record {
  id = id;
  task_id = "t1";
  service_id = "web";
  node_id = "n1";
  created_at = time;
  memory_path = "/s/vm.mem";
  state_path = "/s/vm.state";
  size_bytes = 4096;
  vcpu_count = pos 1;
  memory_mb = pos 512;
  rootfs_path = "/r.ext4";
  checksum = "";
  metadata = [];
}

abbrev first : SnapshotEntry
first = record { name = "s1"; is_dir = true; decoded = some (info "s1" 10) }

abbrev second : SnapshotEntry
second = record { name = "s2"; is_dir = true; decoded = some (info "s2" 20) }

abbrev entries : List SnapshotEntry
entries = first ∷ second ∷ []

abbrev config : SnapshotConfig
config = record default_snapshot_config { max_snapshots = pos 1 }

entry-named :
    (id : String) (time : ℕ) (entry : SnapshotEntry) (i : SnapshotInfo)
    → entry ≡ record { name = id; is_dir = true; decoded = some (info id time) }
    → entry.decoded ≡ some i
    → i.id ≡ entry.name
entry-named id time entry i same has =
    let is : info id time ≡ i = cc (sym (ap (λ (e : SnapshotEntry). e.decoded) same) ∙ has) in
    ap (λ (x : SnapshotInfo). x.id) (sym is) ∙ sym (ap (λ (e : SnapshotEntry). e.name) same)

differ : (e f : SnapshotEntry) → e ≡ first → f ≡ second → e.name ≢ f.name
differ e f is_first is_second same =
    let name : SnapshotEntry → String = λ x. x.name in
    let clash : first.name ≡ second.name = sym (ap name is_first) ∙ same ∙ ap name is_second in
    cc ((eq_iff "s1" "s2").1 clash)

entries-IsStore : IsStore entries
entries-IsStore = record {
  named = λ entry i m has. elim m [
    | inl same ↦ entry-named "s1" 10 entry i same has
    | inr (inl same) ↦ entry-named "s2" 20 entry i same has
    | inr (inr none_left) ↦ absurd none_left
  ];
  once = λ e f m n same. elim m [
    | inl a ↦ elim n [
      | inl b ↦ a ∙ sym b
      | inr (inl b) ↦ absurd (differ e f a b same)
      | inr (inr none_left) ↦ absurd none_left
    ]
    | inr (inl a) ↦ elim n [
      | inl b ↦ absurd (differ f e b a (sym same))
      | inr (inl b) ↦ a ∙ sym b
      | inr (inr none_left) ↦ absurd none_left
    ]
    | inr (inr none_left) ↦ absurd none_left
  ];
}

first-listed : listed config.snapshot_dir (service_filter "web") first ≡ some (info "s1" 10)
unfolding listed load_metadata matches_filter
first-listed = refl

first-listed_at_all : listed config.snapshot_dir no_filter first ≡ some (info "s1" 10)
unfolding listed load_metadata matches_filter
first-listed_at_all = refl

enforce_max_snapshots_lem_example :
    let all = sorted (collect config.snapshot_dir (service_filter "web") entries) in
    let after = enforce_max_snapshots sorted (λ name. true) config "web" entries in
    (In first after × In (info "s1" 10) (take 1 all))
    ⊎ (¬ In first after
        × In (info "s1" 10) (drop 1 all)
        × All (λ (x : SnapshotInfo). 10 ≤ x.created_at) (take 1 all))
enforce_max_snapshots_lem_example =
    enforce_max_snapshots_lem sorted (λ name. true) config "web" 0 entries first (info "s1" 10)
      sorted-IsSort entries-IsStore (λ name. refl) refl (inl refl) first-listed

aged : effective_age (pos 15) config.max_age ≡ some 15
unfolding effective_age
aged = refl

cleanup_old_snapshots_lem_example :
    let after = (cleanup_old_snapshots sorted (λ name. true) config 30 (pos 15) entries).left in
    (In first after × (30 - 15 ≤ (info "s1" 10).created_at))
    ⊎ (¬ In first after × ((info "s1" 10).created_at < 30 - 15))
cleanup_old_snapshots_lem_example =
    cleanup_old_snapshots_lem sorted (λ name. true) config 30 15 (pos 15) entries first
      (info "s1" 10) sorted-IsSort entries-IsStore (λ name. refl) aged (inl refl)
      first-listed_at_all

abbrev answers : Answers
answers = record {
  socket_exists = true;
  staging_made = true;
  api_created = true;
  snapshot_id = "s3";
  dir_made = true;
  state_moved = true;
  memory_moved = false;
  state_size = none;
  memory_size = none;
  checksum = none;
  now = 30;
  saved = true;
}

abbrev options : CreateOptions
options = record {
  service_id = "web";
  node_id = "n1";
  vcpu_count = pos 1;
  memory_mb = pos 512;
  rootfs_path = "/r.ext4";
  metadata = [];
}

move_refused :
    (create_snapshot sorted (λ name. true) config answers "t1" options "/run/t1.sock" entries).0
    ≡ err move_failed
unfolding create_snapshot fill_dir move_files
move_refused = refl
