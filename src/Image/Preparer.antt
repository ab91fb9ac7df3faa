-- ===== src/Image/Preparer.antt =====
-- pkg/image/preparer.go: the preparation of an image, over what the file system, the registry and the
-- tools do to a world `W`; `view` is what is found below a directory. The preparer keeps the OCI information of the image it extracted last.
pub mod Prepare
pub mod Shared
pub mod Scratch
use swarm_cracker.Prelude.{
  ℕ, zero, suc, String, List, [], ◌∷◌, ◌++◌, Bool, true, false, not, ◌&&◌, ◌||◌, Option, none, some,
  insert, string_eq, nat_eq, ◌==◌, Result, ok, err, if◌then◌else◌, ℤ, pos, negsuc, code_points,
}
use swarm_cracker.Types.{SecretRef, ConfigRef, Mount, Task, ContainerError, get_container}
use swarm_cracker.Swarmkit.Controller.{GoError}
use swarm_cracker.Image.Text.{Text, is_empty}
use swarm_cracker.Image.Oci.{OciImageInfo, ConfigFile, parse_oci_image_config}
use swarm_cracker.Image.Detector.{Root, SymlinkError, validate_critical_symlinks}
use swarm_cracker.Image.Reference.{ManifestError, generate_image_id, full_reference}

-- The fields that are read here.
pub record PreparerConfig : Type 0 where
  pub rootfs_dir : Text
  pub init_system : String
  pub init_grace_period : ℤ
  pub max_image_age_days : ℤ

pub record ImagePreparer : Type 0 where
  pub config : PreparerConfig
  pub has_volume_manager : Bool
  pub has_secret_manager : Bool
  pub oci_info : Option OciImageInfo

abbrev number_or : ℕ → ℤ → ℤ
number_or default (pos zero) = pos default
number_or default (pos (suc n)) = pos (suc n)
number_or default (negsuc n) = negsuc n

abbrev fill_in : PreparerConfig → PreparerConfig
fill_in c = record c {
  init_system = if c.init_system == "" then "tini" else c.init_system;
  init_grace_period = number_or 10 c.init_grace_period;
  max_image_age_days = number_or 7 c.max_image_age_days;
}

abbrev default_config : PreparerConfig
default_config = record {
  rootfs_dir = code_points "/var/lib/firecracker/rootfs";
  init_system = "tini";
  init_grace_period = pos 10;
  max_image_age_days = pos 0;
}

-- `has_volumes` says whether the volume manager can be created; `none` is a configuration of another
-- type.
unfoldable pub new_image_preparer : Bool → Option PreparerConfig → ImagePreparer
new_image_preparer has_volumes config = record {
  config = fill_in (elim config [ none ↦ default_config | some c ↦ c ]);
  has_volume_manager = has_volumes;
  has_secret_manager = true;
  oci_info = none;
}

abbrev pub is_enabled : ImagePreparer → Bool
is_enabled ip = not (ip.config.init_system == "none")

unfoldable pub get_init_path : String → String
get_init_path init_system =
    if init_system == "tini"
    then "/sbin/tini"
    else if init_system == "dumb-init"
    then "/sbin/dumb-init"
    else if init_system == "none"
    then ""
    else "/sbin/init"

-- What pulling an image gives: an error before or after the configuration has been read, and the
-- configuration, if there is one.
pub data Pulled : Type 0 where
  unparsed unpulled : GoError → Pulled
  pulled : Option ConfigFile → Option GoError → Pulled

pub record System (W : Type 0) : Type 0 where
  pub goarch : String
  pub join_path : Text → Text → Text
  pub spell : Text → String
  pub exists : Text → W → Bool
  pub has_tool : String → W → Bool
  pub debugfs_finds_init : Text → W → Bool
  pub make_parent : Text → W → Option GoError × W
  pub open_lock : Text → W → Option GoError × W
  pub flock : Text → W → Option GoError × W
  pub unlock : Text → W → W
  pub make_temp : W → Result GoError Text × W
  pub remove_all : Text → W → W
  pub check_manifest : Text → W → Option ManifestError
  -- from the reference to the extracted layers
  pub pull : Text → Text → W → Pulled × W
  pub extract_with_docker_cli : Text → Text → W → Option GoError × W
  pub view : Text → W → Root
  pub inject_into_dir : Text → Option OciImageInfo → W → Option GoError × W
  pub inject_essentials : Text → Text → W → Option GoError × W
  pub inject_network_config : Text → W → W
  pub create_ext4 : Text → Text → W → Option GoError × W
  pub handle_mounts : Task → Text → List Mount → W → W
  pub inject_secrets : String → List SecretRef → Text → W → Option GoError × W
  pub inject_configs : String → List ConfigRef → Text → W → Option GoError × W

pub data PrepareError : Type 0 where
  nil_task unsupported_architecture empty_reference no_method : PrepareError
  invalid_runtime : ContainerError → PrepareError
  manifest_invalid : ManifestError → PrepareError
  lock_directory lock_file lock_failed no_temp_dir : GoError → PrepareError
  extraction_failed init_failed essentials_failed ext4_failed : GoError → PrepareError
  secrets_failed configs_failed : GoError → PrepareError
  symlinks_invalid : SymlinkError → PrepareError

-- What an operation of the preparer does: its error, the preparer and the world after it.
abbrev pub Outcome : Type 0 → Type 0
Outcome W = Option PrepareError × ImagePreparer × W

module _ {W : Type 0} (s : System W) where
  unfoldable pub verify_cached_rootfs : Text → W → Bool
  verify_cached_rootfs path w =
      s.exists path w && (not (s.has_tool "debugfs" w) || s.debugfs_finds_init path w)

  abbrev keep_info : Option ConfigFile → Text → ImagePreparer → ImagePreparer
  keep_info none full_ref ip = ip
  keep_info (some cfg) full_ref ip = record ip {
    oci_info = some (parse_oci_image_config (some cfg) full_ref);
  }

  -- The destination is never empty in the one call.
  unfoldable pub extract_with_ggcr : Text → Text → ImagePreparer → W → Bool × ImagePreparer × W
  extract_with_ggcr image_ref dest ip w =
      if is_empty image_ref
      then (false, ip, w)
      else let (result, w') = s.pull (full_reference image_ref) dest w in
        elim result [
          | unparsed e ↦ (false, ip, w')
          | unpulled e ↦ (false, ip, w')
          | pulled cfg failure ↦
              let ip' = keep_info cfg (full_reference image_ref) ip in
              elim failure [ some e ↦ (false, ip', w') | none ↦ (true, ip', w') ]
        ]

  -- A method that is not there is passed over, and so is one that fails.
  abbrev try_cli : String → Text → Text → W → Bool × W
  try_cli name image_ref dest w =
      if s.has_tool name w
      then (let (failure, w') = s.extract_with_docker_cli image_ref dest w in
          elim failure [ some e ↦ (false, w') | none ↦ (true, w') ])
      else (false, w)

  unfoldable pub extract_oci_image : Text → Text → ImagePreparer → W → Outcome W
  extract_oci_image image_ref dest ip w =
      let (done₁, ip', w₁) = extract_with_ggcr image_ref dest ip w in
      let (done₂, w₂) = try_cli "docker" image_ref dest w₁ in
      let (done₃, w₃) = try_cli "podman" image_ref dest w₂ in
      if done₁
      then (none, ip', w₁)
      else if done₂
      then (none, ip', w₂)
      else if done₃
      then (none, ip', w₃)
      else (some no_method, ip', w₃)

  -- Does the next step unless this one fails.
  abbrev and_then :
      (GoError → PrepareError) → Option GoError × W → ImagePreparer → (W → Outcome W) → Outcome W
  and_then reason (some e, w) ip next = (some (reason e), ip, w)
  and_then reason (none, w) ip next = next w

  abbrev inject_init : Text → ImagePreparer → W → Option GoError × W
  inject_init dir ip w = if is_enabled ip then s.inject_into_dir dir ip.oci_info w else (none, w)

  -- From the extracted image to the file of its root file system.
  abbrev pub build_rootfs : Text → Text → Text → ImagePreparer → W → Outcome W
  build_rootfs image_id dir output ip w = elim (validate_critical_symlinks (s.view dir w)) [
    | some e ↦ (some (symlinks_invalid e), ip, w)
    | none ↦ and_then init_failed (inject_init dir ip w) ip λ w₁.
        and_then essentials_failed (s.inject_essentials dir image_id w₁) ip λ w₂.
          and_then ext4_failed (s.create_ext4 dir output (s.inject_network_config dir w₂)) ip
            λ w₃. (none, ip, w₃)
  ]

  abbrev pub fill_dir : Text → Text → Text → Text → ImagePreparer → W → Outcome W
  fill_dir image_ref image_id output dir ip w = elim (s.check_manifest image_ref w) [
    | some e ↦ (some (manifest_invalid e), ip, w)
    | none ↦
        let (failure, ip', w') = extract_oci_image image_ref dir ip w in
        elim failure [ some e ↦ (some e, ip', w') | none ↦ build_rootfs image_id dir output ip' w' ]
  ]

  -- The temporary directory is removed in any case.
  unfoldable pub prepare_image : Text → Text → Text → ImagePreparer → W → Outcome W
  prepare_image image_ref image_id output ip w =
      let (made, w₁) = s.make_temp w in
      elim made [
        | err e ↦ (some (no_temp_dir e), ip, w₁)
        | ok dir ↦
            let (failure, ip', w₂) = fill_dir image_ref image_id output dir ip w₁ in
            (failure, ip', s.remove_all dir w₂)
      ]

  abbrev locked : Text → Text → Text → ImagePreparer → W → Outcome W
  locked image_ref image_id path ip w =
      if verify_cached_rootfs path w
      then (none, ip, w)
      else prepare_image image_ref image_id path ip w

  unfoldable pub prepare_with_lock : Text → Text → Text → ImagePreparer → W → Outcome W
  prepare_with_lock image_ref image_id path ip w =
      let lock = path ++ code_points ".lock" in
      and_then lock_directory (s.make_parent lock w) ip λ w₁.
        and_then lock_file (s.open_lock lock w₁) ip λ w₂.
          and_then lock_failed (s.flock lock w₂) ip λ w₃.
            let (failure, ip', w₄) = locked image_ref image_id path ip w₃ in
            (failure, ip', s.unlock lock w₄)
