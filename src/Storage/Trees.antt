-- ===== src/Storage/Trees.antt =====
-- pkg/storage/volume.go, copyDirectory: directories as trees, and the copy of one into another. A copy
-- that fails leaves what it has done. Permissions are left out: what the trees allow can be read and
-- written.
pub mod Merged
use swarm_cracker.Prelude.{
  ℕ, String, List, Bool, true, false, Option, none, some, string_eq, ◌==◌, if◌then◌else◌,
}

mutual
  pub data Tree : Type 0 where
    file : List ℕ → Tree
    dir : Entries → Tree

  pub data Entries : Type 0 where
    nil : Entries
    entry : String → Tree → Entries → Entries

-- What stands under the name.
unfoldable pub get : String → Entries → Option Tree
get wanted nil = none
get wanted (entry name tree rest) = if name == wanted then some tree else get wanted rest

unfoldable pub put : String → Tree → Entries → Entries
put wanted new nil = entry wanted new nil
put wanted new (entry name tree rest) =
    if name == wanted then entry wanted new rest else entry name tree (put wanted new rest)

pub data CopyError : Type 0 where
  is_directory not_directory : CopyError

-- A file that is copied, and a directory whose entries have been copied.
abbrev place_file : String → List ℕ → Option Tree → Entries → Option CopyError × Entries
place_file name contents (some (dir es)) dst = (some is_directory, dst)
place_file name contents (some (file old)) dst = (none, put name (file contents) dst)
place_file name contents none dst = (none, put name (file contents) dst)

abbrev place_dir : String → Option CopyError × Entries → Entries → Option CopyError × Entries
place_dir name (failure, es) dst = (failure, put name (dir es) dst)

abbrev pub followed_by :
    Option CopyError × Entries → (Entries → Option CopyError × Entries) → Option CopyError × Entries
followed_by (some e, dst) next = (some e, dst)
followed_by (none, dst) next = next dst

-- The entries of the source in their order.
unfoldable mutual
  pub copy_entries : Entries → Entries → Option CopyError × Entries
  copy_entries nil dst = (none, dst)
  copy_entries (entry name tree rest) dst =
      followed_by (copy_tree name tree (get name dst) dst) (λ dst'. copy_entries rest dst')

  pub copy_tree : String → Tree → Option Tree → Entries → Option CopyError × Entries
  copy_tree name (file contents) there dst = place_file name contents there dst
  copy_tree name (dir es) none dst = place_dir name (copy_entries es nil) dst
  copy_tree name (dir es) (some (dir ds)) dst = place_dir name (copy_entries es ds) dst
  copy_tree name (dir es) (some (file old)) dst = (some not_directory, dst)
