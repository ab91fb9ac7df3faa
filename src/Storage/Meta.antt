-- ===== src/Storage/Meta.antt =====
-- pkg/storage/volume_meta.go, MetaStore, with the directories of the volumes: each holds a metadata file
-- and data. Writing may fail, which `unwritable` says of a directory; reading a file that is there does
-- not. Both drivers have a store over one directory.
use swarm_cracker.Prelude.{
  ℕ, List, [], ◌∷◌, Option, none, some, Map, lookup, insert, erase, Result, ok, err, ℤ, String,
}
use swarm_cracker.Swarmkit.Controller.{GoError}
use swarm_cracker.Image.Text.{Text}
use swarm_cracker.Storage.Names.{sanitize_volume_name, text_keys}
use swarm_cracker.Storage.Trees.{Entries}

pub data VolumeType : Type 0 where
  default_type dir_type block_type other_type : VolumeType

pub record VolumeMeta : Type 0 where
  pub name : Text
  pub volume_type : VolumeType
  pub size_mb : ℤ
  pub created_at : ℕ
  pub last_used_at : ℕ
  pub task_id : String

-- The metadata file of a directory.
pub data MetaFile : Type 0 where
  no_file corrupt : MetaFile
  written : VolumeMeta → MetaFile

pub record VolumeDir : Type 0 where
  pub meta : MetaFile
  pub files : Option Entries

abbrev pub Volumes : Type 0
Volumes = Map Text VolumeDir

pub data MetaError : Type 0 where
  not_exist cannot_decode : MetaError
  cannot_write : GoError → MetaError

abbrev pub empty_dir : VolumeDir
empty_dir = record { meta = no_file; files = none }

abbrev pub dir_or_empty : Option VolumeDir → VolumeDir
dir_or_empty none = empty_dir
dir_or_empty (some d) = d

abbrev decoded : MetaFile → Result MetaError VolumeMeta
decoded no_file = err not_exist
decoded corrupt = err cannot_decode
decoded (written m) = ok m

unfoldable pub read : Text → Volumes → Result MetaError VolumeMeta
read name vs = elim (lookup (sanitize_volume_name name) vs) [
  | none ↦ err not_exist
  | some d ↦ decoded d.meta
]

module _ (unwritable : Text → Option GoError) where
  unfoldable pub write : VolumeMeta → Volumes → Option MetaError × Volumes
  write m vs =
      let key = sanitize_volume_name m.name in
      elim (unwritable key) [
        | some e ↦ (some (cannot_write e), vs)
        | none ↦
            let there = dir_or_empty (lookup key vs) in
            (none, insert key (record there { meta = written m }) vs)
      ]

  unfoldable pub touch_last_used : ℕ → Text → Volumes → Option MetaError × Volumes
  touch_last_used now name vs = elim (read name vs) [
    | err e ↦ (some e, vs)
    | ok m ↦ write (record m { last_used_at = now }) vs
  ]

  unfoldable pub update_task_id : Text → String → Volumes → Option MetaError × Volumes
  update_task_id name task_id vs = elim (read name vs) [
    | err e ↦ (some e, vs)
    | ok m ↦ write (record m { task_id = task_id }) vs
  ]

abbrev without_meta : VolumeDir → VolumeDir
without_meta d = record d { meta = no_file }

-- A file that is missing is no error.
unfoldable pub delete : Text → Volumes → Volumes
delete name vs = elim (lookup (sanitize_volume_name name) vs) [
  | none ↦ vs
  | some d ↦ insert (sanitize_volume_name name) (without_meta d) vs
]

-- Directories without metadata that can be read are passed over.
unfoldable pub list : Volumes → List VolumeMeta
list [] = []
list ((key, d) ∷ rest) =
    let others = list rest in elim (decoded d.meta) [ err e ↦ others | ok m ↦ m ∷ others ]

unfoldable pub remove_volume_dir : Text → Volumes → Volumes
remove_volume_dir name vs = erase (sanitize_volume_name name) vs
