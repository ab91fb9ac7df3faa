-- ===== src/Tests/Storage.antt =====
-- The theorems about quotas, on a directory with a subdirectory and three files.
use swarm_cracker.Prelude.{
  ◌+◌, ◌*◌, ◌≤◌, ◌≡◌, ◌⊎◌, List, [], ◌∷◌, true, false, some, ok, arith, pos,
}
use swarm_cracker.Storage.Quota.{FileInfo, DirEntry, regular_files, enforce_dir_limit}
use swarm_cracker.Storage.Quota.Limits.{total, removable_files, enforce_dir_limit_lem}

abbrev entries : List DirEntry
entries =
    record { name = "sub"; is_dir = true; info = some 4096; removable = false }
    ∷ record { name = "a"; is_dir = false; info = some 300000; removable = true }
    ∷ record { name = "b"; is_dir = false; info = some 900000; removable = false }
    ∷ record { name = "c"; is_dir = false; info = some 800000; removable = true }
    ∷ []

enforce_dir_limit_lem_example :
    (removed : List FileInfo) × (enforce_dir_limit (some 2004096) (some entries) (pos 1)
      ≡ ok removed)
    × ((2004096 ≤ 1 * 1048576 + total removed)
        ⊎ (removed ≡ removable_files (regular_files entries)))
enforce_dir_limit_lem_example =
    enforce_dir_limit_lem 2004096 1 entries (omega arith) (omega arith) (omega arith)
