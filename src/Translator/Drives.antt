-- ===== src/Translator/Drives.antt =====
-- pkg/translator/translator.go, Translate: the drives of a translated task.
use swarm_cracker.Prelude.{
  ℕ, suc, String, List, [], ◌∷◌, Option, none, some, map, lookup, string_eq, Result, ok, err, false,
  true, nat_eq, ◌==◌, ◌≢◌, Bool-cases, ◌≡◌, refl, ap, sym, ◌∙◌, arith, code_points, All,
  Option-cases, Result-cases, inl, inr,
}
use swarm_cracker.Image.Text.{Text}
use swarm_cracker.Types.{Task, Container, Mount, get_container}
use swarm_cracker.Swarmkit.Translator.{has_dots}
use swarm_cracker.Swarmkit.Translator.Paths.{components, components_nonempty}
use swarm_cracker.Translator.Config.{TaskTranslator, Drive, VmmConfig}
use swarm_cracker.Translator.{
  TranslateError, validate_mount_path, root_drive, build_root_drive, build_volume_drive,
  volume_drives, build_config,
}

-- The path names no parent directory.
abbrev pub StaysBelow : Text → Type 0
StaysBelow path = All (λ name. name ≢ 46 ∷ 46 ∷ []) (components path)

no_dots-StaysBelow : (path : Text) → has_dots path ≡ false → StaysBelow path
no_dots-StaysBelow [] plain = ((λ h. cc), tt)
no_dots-StaysBelow (c ∷ []) plain = elim (Bool-cases (c == 47)) [
  | inl slash ↦ rw slash ((λ h. cc), ((λ h. cc), tt))
  | inr other ↦ rw other ((λ h. cc), tt)
]
no_dots-StaysBelow (c ∷ d ∷ rest) plain =
    let below = no_dots-StaysBelow (d ∷ rest) (ground (arith, plain)) in
    elim (Bool-cases (c == 47)) [
      | inl slash ↦ rw slash ((λ h. cc), below)
      | inr other ↦ elim (Bool-cases (d == 47)) [
        | inl next ↦ rw (other, next) ((λ h. cc), (rw next at below).1)
        | inr more ↦
            let (t, ts, e) = components_nonempty rest in
            rw (other, more, e) ((λ h. ground (arith, plain, h)), (rw (more, e) at below).1)
      ]
    ]

-- Both ends of the mount are accepted.
abbrev pub IsFine : Mount → Type 0
IsFine mount =
    (validate_mount_path mount.source ≡ none)
    × (validate_mount_path (code_points mount.target) ≡ none)

abbrev volumes_of : Result TranslateError (List Drive) → List Drive
volumes_of (ok ds) = ds
volumes_of (err e) = []

IsFine-StaysBelow : (path : Text) → validate_mount_path path ≡ none → (path ≢ []) × StaysBelow path
unfolding validate_mount_path
IsFine-StaysBelow path fine = (ground (arith, fine), no_dots-StaysBelow path (ground (arith, fine)))

volume_drives_lem :
    (i : ℕ) (mounts : List Mount) (drives : List Drive)
    → volume_drives i mounts ≡ ok drives
    → All IsFine mounts × (drives ≡ map build_volume_drive mounts)
unfolding volume_drives
volume_drives_lem i [] drives done = (tt, ap volumes_of (sym done))
volume_drives_lem i (m ∷ ms) drives done = elim (Option-cases (validate_mount_path m.source)) [
  | inr (e, bad) ↦ cc (rw (volume_drives, bad) at done)
  | inl source_fine ↦ elim (Option-cases (validate_mount_path (code_points m.target))) [
    | inr (e, bad) ↦ cc (rw (volume_drives, source_fine, bad) at done)
    | inl target_fine ↦ elim (Result-cases (volume_drives (suc i) ms)) [
      | inr (e, bad) ↦ cc (rw (volume_drives, source_fine, target_fine, bad) at done)
      | inl (ds, rest) ↦
          let (fine, same) = volume_drives_lem (suc i) ms ds rest in
          (
            ((source_fine, target_fine), fine),
            ap volumes_of (sym (rw (volume_drives, source_fine, target_fine, rest) at done))
                ∙ ap (λ y. build_volume_drive m ∷ y) same,
          )
    ]
  ]
]

volume_drives_fine :
    (i : ℕ) (mounts : List Mount)
    → All IsFine mounts
    → volume_drives i mounts ≡ ok (map build_volume_drive mounts)
unfolding volume_drives
volume_drives_fine i [] fine = refl
volume_drives_fine i (m ∷ ms) ((source_fine, target_fine), fine) =
    rw (volume_drives, source_fine, target_fine, volume_drives_fine (suc i) ms fine) refl

abbrev config_of : Result TranslateError VmmConfig → List Drive → List Drive
config_of (ok config) other = config.drives
config_of (err e) other = other

all_below :
    (mounts : List Mount)
    → All IsFine mounts
    → All
        (λ mount.
          ((mount.source ≢ []) × StaysBelow mount.source)
          × ((code_points mount.target ≢ []) × StaysBelow (code_points mount.target)))
        mounts
all_below [] fine = tt
all_below (m ∷ ms) (fine, rest) = (
  (IsFine-StaysBelow m.source fine.0, IsFine-StaysBelow (code_points m.target) fine.1),
  all_below ms rest,
)

-- The device that the VM boots from: the file of the root file system, writable.
abbrev pub IsRootDrive : String → Drive → Type 0
IsRootDrive path drive =
    (drive.is_root_device ≡ true)
    × ((drive.path_on_host ≡ code_points path) × (drive.is_read_only ≡ false))

-- A further device: the source of the mount, read-only if the mount is.
abbrev pub IsDriveOf : Mount → Drive → Type 0
IsDriveOf mount drive =
    (drive.is_root_device ≡ false)
    × ((drive.path_on_host ≡ mount.source) × (drive.is_read_only ≡ mount.read_only))

-- One drive for each mount, in their order.
abbrev pub AreDrivesOf : List Mount → List Drive → Type 0
AreDrivesOf [] [] = Unit
AreDrivesOf (mount ∷ mounts) (drive ∷ drives) = IsDriveOf mount drive × AreDrivesOf mounts drives
AreDrivesOf [] (drive ∷ drives) = ⊥
AreDrivesOf (mount ∷ mounts) [] = ⊥

volume_drives-AreDrivesOf :
    (mounts : List Mount) → AreDrivesOf mounts (map build_volume_drive mounts)
unfolding build_volume_drive
volume_drives-AreDrivesOf [] = tt
volume_drives-AreDrivesOf (m ∷ ms) = ((refl, (refl, refl)), volume_drives-AreDrivesOf ms)

-- A task that is translated has a container and a root file system. Its drives are the root file
-- system, writable and the only root device, and then the sources of the container's mounts in their
-- order, each read-only as asked; no mount names a parent directory or has an empty source or target.
pub build_config_drives :
    (decimal : ℕ → Text) (hex_sha256 : Text → Text) (parse_cidr : Text → Option (Text × List ℕ))
    (t : TaskTranslator) (task : Task) (config : VmmConfig)
    → build_config decimal hex_sha256 parse_cidr t task ≡ ok config
    → (container : Container) × (path : String) × (root : Drive) × (drives : List Drive)
      × (get_container task.spec ≡ ok container)
      × (lookup "rootfs" task.annotations ≡ some path)
      × (config.drives ≡ root ∷ drives)
      × IsRootDrive path root
      × AreDrivesOf container.mounts drives
      × All
          (λ mount.
            ((mount.source ≢ []) × StaysBelow mount.source)
            × ((code_points mount.target ≢ []) × StaysBelow (code_points mount.target)))
          container.mounts
unfolding build_config build_root_drive
build_config_drives decimal hex_sha256 parse_cidr t task config done =
    elim (Result-cases (get_container task.spec)) [
      | inr (e, bad) ↦ cc (rw (build_config, bad) at done)
      | inl (container, found) ↦ elim (Option-cases (lookup "rootfs" task.annotations)) [
        | inl missing ↦ cc (rw (build_config, found, missing) at done)
        | inr (path, rooted) ↦ elim (Result-cases (volume_drives 0 container.mounts)) [
          | inr (e, bad) ↦ cc (rw (build_config, found, rooted, bad) at done)
          | inl (ds, volumes) ↦
              let (fine, same) = volume_drives_lem 0 container.mounts ds volumes in
              (
                container,
                path,
                root_drive (code_points path),
                map build_volume_drive container.mounts,
                found,
                rooted,
                sym (ap (λ r. config_of r []) (rw (build_config, found, rooted, volumes) at done))
                    ∙ ap (λ y. root_drive (code_points path) ∷ y) same,
                (refl, (refl, refl)),
                volume_drives-AreDrivesOf container.mounts,
                all_below container.mounts fine,
              )
        ]
      ]
    ]
