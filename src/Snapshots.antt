-- ===== src/Snapshots.antt =====
-- pkg/snapshot/snapshot.go: the snapshots of VMs, kept in the directories of one directory. A time is
-- the nanoseconds since Go's zero time. The calls to Firecracker, the clock and the file system are
-- arguments.
pub mod Order
pub mod Store
pub mod Retention
pub mod Age
pub mod Creation
pub mod Processes
use Prim.Native.String.{◌++◌ as text_append}
use swarm_cracker.Prelude.{
  ℕ, zero, suc, ◌+◌, ◌-◌, ◌*◌, ◌%◌, ◌^◌, String, List, [], ◌∷◌, ◌++◌, Bool, true, false, not, ◌&&◌,
  ◌||◌, Option, none, some, Map, nat_eq, string_eq, ◌==◌, Result, ok, err, ltb, leb, length, drop,
  if◌then◌else◌, ℤ, pos, negsuc, code_points,
}

pub record SnapshotInfo : Type 0 where
  pub id : String
  pub task_id : String
  pub service_id : String
  pub node_id : String
  pub created_at : ℕ
  pub memory_path : String
  pub state_path : String
  pub size_bytes : ℕ
  pub vcpu_count : ℤ
  pub memory_mb : ℤ
  pub rootfs_path : String
  pub checksum : String
  pub metadata : Map String String

-- A time of 0 does not filter.
pub record SnapshotFilter : Type 0 where
  pub task_id : String
  pub service_id : String
  pub node_id : String
  pub since : ℕ
  pub before : ℕ

abbrev pub no_filter : SnapshotFilter
no_filter = record { task_id = ""; service_id = ""; node_id = ""; since = 0; before = 0 }

pub record SnapshotConfig : Type 0 where
  pub enabled : Bool
  pub snapshot_dir : String
  pub max_snapshots : ℤ
  pub max_age : ℤ
  pub auto_snapshot : Bool
  pub compress : Bool

-- 168 hours
abbrev pub seven_days : ℕ
seven_days = 168 * 3600000000000

abbrev pub default_snapshot_config : SnapshotConfig
default_snapshot_config = record {
  enabled = false;
  snapshot_dir = "/var/lib/firecracker/snapshots";
  max_snapshots = pos 3;
  max_age = pos seven_days;
  auto_snapshot = false;
  compress = false;
}

abbrev default_int : ℤ → ℕ → ℤ
default_int (pos zero) n = pos n
default_int given n = given

unfoldable pub set_defaults : SnapshotConfig → SnapshotConfig
set_defaults c = record c {
  snapshot_dir = if c.snapshot_dir == "" then "/var/lib/firecracker/snapshots" else c.snapshot_dir;
  max_snapshots = default_int c.max_snapshots 3;
  max_age = default_int c.max_age seven_days;
}

-- A directory entry, with the metadata that its file holds, if that can be read and decoded.
pub record SnapshotEntry : Type 0 where
  pub name : String
  pub is_dir : Bool
  pub decoded : Option SnapshotInfo

abbrev is_abs_text : List ℕ → Bool
is_abs_text [] = false
is_abs_text (c ∷ cs) = c == 47

-- filepath.IsAbs, on Unix
abbrev is_abs : String → Bool
is_abs path = is_abs_text (code_points path)

abbrev under : String → String → String
under dir name = text_append dir (text_append "/" name)

-- The paths of the state and of the memory are found again from the directory.
unfoldable pub load_metadata : String → Option SnapshotInfo → Option SnapshotInfo
load_metadata dir none = none
load_metadata dir (some info) = some (record info {
  memory_path = if is_abs info.memory_path then info.memory_path else under dir "vm.mem";
  state_path = if is_abs info.state_path then info.state_path else under dir "vm.state";
})

abbrev is_other : String → String → Bool
is_other wanted given = not (wanted == "") && not (given == wanted)

unfoldable pub matches_filter : SnapshotInfo → SnapshotFilter → Bool
matches_filter info filter =
    if is_other filter.task_id info.task_id
    then false
    else if is_other filter.service_id info.service_id
    then false
    else if is_other filter.node_id info.node_id
    then false
    else if not (filter.since == 0) && ltb info.created_at filter.since
    then false
    else not (not (filter.before == 0) && ltb filter.before info.created_at)

-- What one entry adds to a listing.
unfoldable pub listed : String → SnapshotFilter → SnapshotEntry → Option SnapshotInfo
listed dir filter entry =
    if not entry.is_dir then none else elim (load_metadata (under dir entry.name) entry.decoded) [
      | none ↦ none
      | some info ↦ if matches_filter info filter then some info else none
    ]

unfoldable pub collect : String → SnapshotFilter → List SnapshotEntry → List SnapshotInfo
collect dir filter [] = []
collect dir filter (entry ∷ entries) =
    let rest = collect dir filter entries in
    elim (listed dir filter entry) [ none ↦ rest | some info ↦ info ∷ rest ]

-- What os.ReadDir finds.
pub data Directory : Type 0 where
  missing unreadable : Directory
  readable : List SnapshotEntry → Directory

pub data SnapshotError : Type 0 where
  read_dir_failed snapshot_not_found delete_failed : SnapshotError
  socket_required socket_not_found staging_failed api_failed make_dir_failed : SnapshotError
  move_failed stat_failed checksum_failed save_failed : SnapshotError

-- `sort` is sort.Slice by the time of creation, the newest first.
unfoldable pub list_snapshots :
    (List SnapshotInfo → List SnapshotInfo)
    → String
    → SnapshotFilter
    → Directory
    → Result SnapshotError (List SnapshotInfo)
list_snapshots sort dir filter missing = ok []
list_snapshots sort dir filter unreadable = err read_dir_failed
list_snapshots sort dir filter (readable entries) = ok (sort (collect dir filter entries))

abbrev pub without : String → List SnapshotEntry → List SnapshotEntry
without name [] = []
without name (entry ∷ entries) =
    let rest = without name entries in if entry.name == name then rest else entry ∷ rest

abbrev pub exists : String → List SnapshotEntry → Bool
exists name [] = false
exists name (entry ∷ entries) = (entry.name == name) || exists name entries

-- os.RemoveAll of a directory; where `removable` says so, it fails and leaves the entry.
unfoldable pub remove_all : (String → Bool) → String → List SnapshotEntry → List SnapshotEntry
remove_all removable name entries = if removable name then without name entries else entries

unfoldable pub delete_snapshot :
    (String → Bool) → String → List SnapshotEntry → Option SnapshotError × List SnapshotEntry
delete_snapshot removable id entries =
    if not (exists id entries)
    then (some snapshot_not_found, entries)
    else if removable id
    then (none, without id entries)
    else (some delete_failed, entries)

-- The number of snapshots removed and, in 64 bits, the bytes freed.
pub record Removed : Type 0 where
  pub count : ℕ
  pub freed : ℕ
  pub left : List SnapshotEntry

abbrev pub count_removal : ℕ → Removed → Option SnapshotError × List SnapshotEntry → Removed
count_removal size r (none, entries) = record {
  count = suc r.count;
  freed = (r.freed + size) % 2 ^ 64;
  left = entries;
}
count_removal size r (some e, entries) = record r { left = entries }

unfoldable pub cleanup_loop : (String → Bool) → ℕ → List SnapshotInfo → Removed → Removed
cleanup_loop removable cutoff [] r = r
cleanup_loop removable cutoff (info ∷ infos) r =
    if ltb info.created_at cutoff
    then cleanup_loop removable cutoff infos
        (count_removal info.size_bytes r (delete_snapshot removable info.id r.left))
    else cleanup_loop removable cutoff infos r

-- The age given, if it is positive, or else the configured one; `none` where neither is positive.
unfoldable pub effective_age : ℤ → ℤ → Option ℕ
effective_age (pos (suc n)) configured = some (suc n)
effective_age given (pos (suc n)) = some (suc n)
effective_age given configured = none

-- On a directory that can be read. The cutoff stops at the zero time, before which no snapshot was created.
unfoldable pub cleanup_old_snapshots :
    (List SnapshotInfo → List SnapshotInfo)
    → (String → Bool)
    → SnapshotConfig
    → ℕ
    → ℤ
    → List SnapshotEntry
    → Removed
cleanup_old_snapshots sort removable config now max_age entries =
    let r : Removed = record { count = 0; freed = 0; left = entries } in
    elim (effective_age max_age config.max_age) [
      | none ↦ r
      | some age ↦
          cleanup_loop removable (now - age) (sort (collect config.snapshot_dir no_filter entries))
            r
    ]

-- From the last of the list up: its oldest first. Failures are logged.
unfoldable pub remove_from_end :
    (String → Bool) → List SnapshotInfo → List SnapshotEntry → List SnapshotEntry
remove_from_end removable [] entries = entries
remove_from_end removable (info ∷ infos) entries =
    remove_all removable info.id (remove_from_end removable infos entries)

abbrev pub service_filter : String → SnapshotFilter
service_filter service = record no_filter { service_id = service }

unfoldable pub enforce_limit :
    (String → Bool) → ℤ → List SnapshotInfo → List SnapshotEntry → List SnapshotEntry
enforce_limit removable (negsuc n) snapshots entries = entries
enforce_limit removable (pos zero) snapshots entries = entries
enforce_limit removable (pos (suc n)) snapshots entries =
    if leb (length snapshots) (suc n)
    then entries
    else remove_from_end removable (drop (suc n) snapshots) entries

unfoldable pub enforce_max_snapshots :
    (List SnapshotInfo → List SnapshotInfo)
    → (String → Bool)
    → SnapshotConfig
    → String
    → List SnapshotEntry
    → List SnapshotEntry
enforce_max_snapshots sort removable config service entries =
    enforce_limit removable config.max_snapshots
      (sort (collect config.snapshot_dir (service_filter service) entries)) entries
