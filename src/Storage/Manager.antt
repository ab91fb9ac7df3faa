-- ===== src/Storage/Manager.antt =====
-- pkg/storage/volume.go and volume_dir.go: VolumeManager over its two drivers, of which the one for
-- directories is modelled, and the one for block devices is an argument. A volume's data goes to and
-- from the directory at the target in the root file system. `unmakeable` says of a volume whether the
-- directory that a call needs for it cannot be made; what is there can be read and removed.
use swarm_cracker.Prelude.{
  ℕ, String, Bool, true, false, Option, none, some, lookup, insert, erase, Result, ok, err,
  if◌then◌else◌, ℤ,
}
use swarm_cracker.Swarmkit.Controller.{GoError}
use swarm_cracker.Image.Text.{Text, is_empty}
use swarm_cracker.Storage.Names.{sanitize_volume_name, text_keys}
use swarm_cracker.Storage.Trees.{Entries, nil, CopyError, copy_entries}
use swarm_cracker.Storage.Meta.{
  VolumeType, default_type, dir_type, block_type, other_type, VolumeMeta, VolumeDir, Volumes,
  MetaError, dir_or_empty, read, write, touch_last_used, update_task_id, remove_volume_dir,
}

pub data VolumeError : Type 0 where
  nil_volume empty_name no_driver not_found no_data : VolumeError
  meta_failed : MetaError → VolumeError
  mkdir_failed : GoError → VolumeError
  copy_failed : CopyError → VolumeError

pub record Volume : Type 0 where
  pub id : Text
  pub name : Text
  pub task_id : String

abbrev data_of : Option VolumeDir → Option Entries
data_of none = none
data_of (some d) = d.files

abbrev or_empty : Option Entries → Entries
or_empty none = nil
or_empty (some es) = es

abbrev set_files : Entries → VolumeDir → VolumeDir
set_files es d = record d { files = some es }

-- What a driver is asked for here. The tree is the one at the target.
pub record VolumeDriver : Type 0 where
  pub create : Text → ℤ → Volumes → Option VolumeError × Volumes
  pub has_volume : Text → Volumes → Bool
  pub mount : Text → Entries → Volumes → Option VolumeError × Entries × Volumes
  pub unmount : Text → Option Entries → Bool → Volumes → Option VolumeError × Volumes
  pub delete_volume : Text → Volumes → Option VolumeError × Volumes

module _ (unwritable unmakeable : Text → Option GoError) (now : ℕ) where
  abbrev meta_for : Text → ℤ → VolumeMeta
  meta_for name size_mb = record {
    name = name;
    volume_type = dir_type;
    size_mb = size_mb;
    created_at = now;
    last_used_at = 0;
    task_id = "";
  }

  -- A failing write of the metadata removes the directory.
  abbrev written_or_removed : Text → ℤ → Volumes → Option VolumeError × Volumes
  written_or_removed name size_mb made =
      let (failure, vs) = write unwritable (meta_for name size_mb) made in
      elim failure [
        | some e ↦ (some (meta_failed e), erase (sanitize_volume_name name) vs)
        | none ↦ (none, vs)
      ]

  unfoldable pub dir_create : Text → ℤ → Volumes → Option VolumeError × Volumes
  dir_create name size_mb vs =
      if is_empty name then (some empty_name, vs) else elim (unmakeable name) [
        | some e ↦ (some (mkdir_failed e), vs)
        | none ↦
            let key = sanitize_volume_name name in
            let there = dir_or_empty (lookup key vs) in
            written_or_removed name size_mb (insert key (set_files (or_empty there.files) there) vs)
      ]

  abbrev after_copy :
      Text → Volumes → Option CopyError × Entries → Option VolumeError × Entries × Volumes
  after_copy name vs (some e, target) = (some (copy_failed e), target, vs)
  after_copy name vs (none, target) = (none, target, (touch_last_used unwritable now name vs).1)

  unfoldable pub dir_mount : Text → Entries → Volumes → Option VolumeError × Entries × Volumes
  dir_mount name target vs = elim (data_of (lookup (sanitize_volume_name name) vs)) [
    | none ↦ (some no_data, target, vs)
    | some es ↦ elim (unmakeable name) [
      | some e ↦ (some (mkdir_failed e), target, vs)
      | none ↦ after_copy name vs (copy_entries es target)
    ]
  ]

  abbrev copied_back :
      Text → VolumeDir → Volumes → Option CopyError × Entries → Option VolumeError × Volumes
  copied_back key there vs (some e, es) = (some (copy_failed e), insert key (set_files es there) vs)
  copied_back key there vs (none, es) = (none, insert key (set_files es there) vs)

  unfoldable pub dir_unmount : Text → Option Entries → Bool → Volumes → Option VolumeError × Volumes
  dir_unmount name source read_only vs = if read_only then (none, vs) else elim source [
    | none ↦ (none, vs)
    | some es ↦ elim (unmakeable name) [
      | some e ↦ (some (mkdir_failed e), vs)
      | none ↦
          let key = sanitize_volume_name name in
          let there = dir_or_empty (lookup key vs) in
          copied_back key there vs (copy_entries es (or_empty there.files))
    ]
  ]

  abbrev is_read : Result MetaError VolumeMeta → Bool
  is_read (ok m) = true
  is_read (err e) = false

  abbrev pub directory_driver : VolumeDriver
  directory_driver = record {
    create = dir_create;
    has_volume = λ name vs. is_read (read name vs);
    mount = dir_mount;
    unmount = dir_unmount;
    delete_volume = λ name vs. (none, remove_volume_dir name vs);
  }

  -- The block driver is missing where it cannot be made.
  module _ (block : Option VolumeDriver) where
    unfoldable pub get_driver : VolumeType → Option VolumeDriver
    get_driver default_type = some directory_driver
    get_driver dir_type = some directory_driver
    get_driver block_type = block
    get_driver other_type = none

    -- The first of the two drivers that has the volume.
    unfoldable pub driver_of : Text → Volumes → Option VolumeDriver
    driver_of name vs =
        if directory_driver.has_volume name vs
        then some directory_driver
        else elim block [ none ↦ none | some d ↦ if d.has_volume name vs then some d else none ]

    unfoldable pub create_volume_with_options :
        Text → String → VolumeType → ℤ → Volumes → Result VolumeError Volume × Volumes
    create_volume_with_options name task_id volume_type size_mb vs =
        if is_empty name then (err empty_name, vs) else elim (get_driver volume_type) [
          | none ↦ (err no_driver, vs)
          | some d ↦
              let (failure, vs') = d.create name size_mb vs in
              elim failure [
                | some e ↦ (err e, vs')
                | none ↦ (
                  ok (record { id = sanitize_volume_name name; name = name; task_id = task_id }),
                  (update_task_id unwritable name task_id vs').1,
                )
              ]
        ]

    unfoldable pub create_volume : Text → String → ℤ → Volumes → Result VolumeError Volume × Volumes
    create_volume name task_id size_mb vs =
        create_volume_with_options name task_id dir_type size_mb vs

    unfoldable pub get_volume : Text → Volumes → Result VolumeError Volume
    get_volume name vs = elim (driver_of name vs) [
      | none ↦ err not_found
      | some d ↦ ok (record { id = sanitize_volume_name name; name = name; task_id = "" })
    ]

    unfoldable pub mount_volume :
        Option Volume → Entries → Volumes → Option VolumeError × Entries × Volumes
    mount_volume none target vs = (some nil_volume, target, vs)
    mount_volume (some vol) target vs = elim (driver_of vol.name vs) [
      | none ↦ (some not_found, target, vs)
      | some d ↦ d.mount vol.name target vs
    ]

    unfoldable pub unmount_volume :
        Option Volume → Option Entries → Bool → Volumes → Option VolumeError × Volumes
    unmount_volume none source read_only vs = (some nil_volume, vs)
    unmount_volume (some vol) source read_only vs = elim (driver_of vol.name vs) [
      | none ↦ (some not_found, vs)
      | some d ↦ d.unmount vol.name source read_only vs
    ]

    unfoldable pub delete_volume : Text → Volumes → Option VolumeError × Volumes
    delete_volume name vs = elim (driver_of name vs) [
      | none ↦ (some not_found, vs)
      | some d ↦ d.delete_volume name vs
    ]
