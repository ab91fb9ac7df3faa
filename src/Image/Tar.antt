-- ===== src/Image/Tar.antt =====
-- pkg/image/preparer.go, extractTarStream: the entries of an archive as files under a directory. Paths
-- are absolute, and cleaned as Go's package filepath does. 47 is the slash and 46 the dot.
pub mod Cleaning
pub mod Confined
use swarm_cracker.Prelude.{
  ℕ, List, [], ◌∷◌, ◌++◌, Bool, true, false, ◌||◌, ◌%◌, Option, none, some, nat_eq, ◌==◌, Result,
  ok, err, if◌then◌else◌,
}
use swarm_cracker.Swarmkit.Controller.{GoError}
use swarm_cracker.Image.Text.{Text, is_empty, text_eq, join}
use swarm_cracker.Storage.Volume.{has_prefix}
use swarm_cracker.Translator.Boot.{split}

abbrev pub drop_last : List Text → List Text
drop_last [] = []
drop_last (t ∷ ts) = ts

-- The components in reverse order; a parent of the root is the root.
abbrev pub clean_step : List Text → Text → List Text
clean_step stack name =
    if is_empty name || text_eq name (46 ∷ [])
    then stack
    else if text_eq name (46 ∷ 46 ∷ [])
    then drop_last stack
    else name ∷ stack

unfoldable pub clean_components : List Text → List Text → List Text
clean_components stack [] = stack
clean_components stack (name ∷ names) = clean_components (clean_step stack name) names

abbrev pub turn : List Text → List Text → List Text
turn [] done = done
turn (t ∷ ts) done = turn ts (t ∷ done)

-- filepath.Clean
unfoldable pub clean : Text → Text
clean path = 47 ∷ join (turn (clean_components [] (split 47 path)) []) (47 ∷ [])

-- filepath.Join of two
unfoldable pub join_path : Text → Text → Text
join_path dir name = clean (dir ++ 47 ∷ name)

-- filepath.Dir
unfoldable pub parent : Text → Text
parent path = 47 ∷ join (turn (drop_last (clean_components [] (split 47 path))) []) (47 ∷ [])

pub data EntryType : Type 0 where
  directory regular symlink hard_link global_header other_type : EntryType

-- The low nine bits of the mode are the permissions.
pub record Entry : Type 0 where
  pub name : Text
  pub entry_type : EntryType
  pub link_name : Text
  pub mode : ℕ
  pub contents : List ℕ

-- What is done to the file system. The errors of links are logged.
pub record Files (W : Type 0) : Type 0 where
  pub make_dirs : Text → ℕ → W → Option GoError × W
  pub write_file : Text → ℕ → List ℕ → W → Option GoError × W
  pub make_symlink : Text → Text → W → W
  pub make_link : Text → Text → W → W

pub data TarError : Type 0 where
  unreadable directory_failed parent_failed file_failed : GoError → TarError

-- Where the entry goes, unless its path leads out of the directory.
unfoldable pub target_of : Text → Text → Option Text
target_of dest name =
    let target = join_path dest name in
    if has_prefix (clean target) (clean dest ++ 47 ∷ []) then some target else none

abbrev as_error : (GoError → TarError) → Option GoError → Option TarError
as_error reason none = none
as_error reason (some e) = some (reason e)

module _ {W : Type 0} (f : Files W) where
  abbrev pub write_regular : Text → Entry → W → Option TarError × W
  write_regular target e w =
      let (no_parent, w₁) = f.make_dirs (parent target) 493 w in
      elim no_parent [
        | some failure ↦ (some (parent_failed failure), w₁)
        | none ↦
            let (unwritten, w₂) = f.write_file target (e.mode % 512) e.contents w₁ in
            (as_error file_failed unwritten, w₂)
      ]

  abbrev pub extract_entry : Text → Text → Entry → EntryType → W → Option TarError × W
  extract_entry dest target e directory w =
      let (failure, w') = f.make_dirs target (e.mode % 512) w in
      (as_error directory_failed failure, w')
  extract_entry dest target e regular w = write_regular target e w
  extract_entry dest target e symlink w = (none, f.make_symlink e.link_name target w)
  extract_entry dest target e hard_link w =
      (none, f.make_link (join_path dest e.link_name) target w)
  extract_entry dest target e global_header w = (none, w)
  extract_entry dest target e other_type w = (none, w)

  abbrev pub extract_one : Text → Entry → W → Option TarError × W
  extract_one dest e w = elim (target_of dest e.name) [
    | none ↦ (none, w)
    | some target ↦ extract_entry dest target e e.entry_type w
  ]

  -- The entries as the reader gives them, up to the end or to an error of the reader.
  unfoldable pub extract_tar_stream : Text → List (Result GoError Entry) → W → Option TarError × W
  extract_tar_stream dest [] w = (none, w)
  extract_tar_stream dest (err e ∷ rest) w = (some (unreadable e), w)
  extract_tar_stream dest (ok e ∷ rest) w =
      let (failure, w') = extract_one dest e w in
      elim failure [ some reason ↦ (some reason, w') | none ↦ extract_tar_stream dest rest w' ]
