-- ===== src/Tests/Images.antt =====
-- The theorems about the extraction and preparation of images, and about the older translator.
use swarm_cracker.Prelude.{
  false, Bool, Bool-cases, inl, inr, nat_eq, ◌==◌, if◌then◌else◌, ℕ, ◌+◌, String, List, [], ◌∷◌,
  ◌++◌, true, false, Option, none, some, lookup, map, string_eq, Result, ok, pos, ◌≡◌, ◌≢◌, refl,
  All, code_points,
}
use swarm_cracker.Types.{
  Task, Container, container_runtime, no_restart, no_placement, no_status, get_container,
}
use swarm_cracker.Swarmkit.Controller.{GoError}
use swarm_cracker.Image.Text.{Text, replace_all, join}
use swarm_cracker.Image.Tar.{
  Files, Entry, regular, extract_tar_stream, clean, clean_components, parent,
}
use swarm_cracker.Translator.Boot.{split}
use swarm_cracker.Translator.Boot.Words.{split_nonempty}
use swarm_cracker.Image.Tar.Confined.{Agree, IsInside, IsAllowed, extract_tar_stream_confined}
use swarm_cracker.Image.Detector.{Root, missing, scratch, sh_missing, detect_init_type, is_scratch}
use swarm_cracker.Image.Detector.Scratch.{IsTree}
use swarm_cracker.Image.Init.{Disk, InitSystemConfig, inject_into_dir, get_init_path}
use swarm_cracker.Image.Init.Kinds.{inject_into_dir_kinds}
use swarm_cracker.Image.Reference.{generate_image_id, cut_last}
use swarm_cracker.Image.Preparer.{
  System, ImagePreparer, pulled, symlinks_invalid, verify_cached_rootfs, new_image_preparer,
  extract_oci_image, extract_with_ggcr, prepare_image,
}
use swarm_cracker.Image.Preparer.Scratch.{prepare_image_scratch}
use swarm_cracker.Image.Preparer.Prepare.{prepare, annotate, rootfs_path}
use swarm_cracker.Image.Preparer.Shared.{prepare_shares}
use swarm_cracker.Translator.Config.{default_translator, VmmConfig, Drive}
use swarm_cracker.Translator.{
  root_drive, build_volume_drive, config_for, build_config, build_root_drive, volume_drives,
  validate_mount_path,
}
use swarm_cracker.Translator.Drives.{IsRootDrive, AreDrivesOf, StaysBelow, build_config_drives}
use swarm_cracker.Tests.Machines.{print, digest}

abbrev counting : Files ℕ
counting = record {
  make_dirs = λ path mode w. (none, w + 1);
  write_file = λ path mode contents w. (none, w + 1);
  make_symlink = λ link path w. w + 1;
  make_link = λ link path w. w + 1;
}

abbrev is_absolute : Text → Bool
is_absolute [] = false
is_absolute (c ∷ cs) = c == 47

-- It does the same at absolute paths, and something else at the others.
abbrev elsewhere : Files ℕ
elsewhere = record {
  make_dirs = λ path mode w. if is_absolute path then (none, w + 1) else (some "relative", w);
  write_file = λ path mode contents w. if is_absolute path then (none, w + 1) else (none, w + 100);
  make_symlink = λ link path w. if is_absolute path then w + 1 else w;
  make_link = λ link path w. if is_absolute path then w + 1 else w;
}

inside-is_absolute : (path : Text) → IsInside (code_points "/x") path → is_absolute path ≡ true
unfolding split clean clean_components join
inside-is_absolute [] inside = cc inside.1
inside-is_absolute (c ∷ cs) inside = elim (Bool-cases (c == 47)) [
  | inl slash ↦ slash
  | inr other ↦ let (t, ts, e) = split_nonempty 47 cs in cc (rw (split, other, e) at inside.1)
]

allowed-is_absolute : (path : Text) → IsAllowed (code_points "/x") path → is_absolute path ≡ true
unfolding parent
allowed-is_absolute path (inl inside) = inside-is_absolute path inside
allowed-is_absolute path (inr (below, inside, e)) = rw e refl

elsewhere-Agree : Agree (code_points "/x") counting elsewhere
elsewhere-Agree = record {
  dirs = λ path mode w allowed. rw (allowed-is_absolute path allowed) refl;
  files = λ path mode contents w allowed. rw (allowed-is_absolute path allowed) refl;
  symlinks = λ link path w allowed. rw (allowed-is_absolute path allowed) refl;
  links = λ link path w allowed. rw (allowed-is_absolute path allowed) refl;
}

abbrev file_named : String → Entry
file_named name = record {
  name = code_points name;
  entry_type = regular;
  link_name = [];
  mode = 420;
  contents = 1 ∷ [];
}

abbrev archive : List (Result GoError Entry)
archive = ok (file_named "etc/hosts") ∷ ok (file_named "../etc/passwd") ∷ []

extract_tar_stream_confined_example :
    extract_tar_stream counting (code_points "/x") archive 0
    ≡ extract_tar_stream elsewhere (code_points "/x") archive 0
extract_tar_stream_confined_example =
    extract_tar_stream_confined (code_points "/x") counting elsewhere archive 0 elsewhere-Agree

abbrev empty_root : Root
empty_root = record {
  stat = λ path. missing;
  lstat = λ path. missing;
  read_link = λ path. none;
  read_dir = some [];
  resolves = λ path. none;
}

empty_root-IsTree : IsTree empty_root
empty_root-IsTree = record {
  bin_there = λ h. cc;
  bin_listed = λ entries h read. cc;
  sh_readable = λ e h. cc;
}

detected : detect_init_type empty_root ≡ scratch
unfolding detect_init_type is_scratch
detected = refl

abbrev disk : Disk ℕ
disk = record {
  view = λ t. empty_root;
  make_dirs = λ path t. (none, t + 1);
  write_file = λ path contents mode t. (none, t + 1);
  remove = λ path t. t;
  symlink = λ target path t. (none, t + 1);
  tini_binary = [];
  busybox_binary = [];
}

abbrev of_kind : String → InitSystemConfig
of_kind kind = record { kind = kind; grace_period_sec = pos 10 }

inject_into_dir_kinds_example :
    (inject_into_dir disk print (of_kind "dumb-init") none 0
      ≡ inject_into_dir disk print (of_kind "tini") none 0)
    × (get_init_path (of_kind "dumb-init") ≢ get_init_path (of_kind "tini"))
inject_into_dir_kinds_example = inject_into_dir_kinds disk print none (pos 10) 0

abbrev container_of : String → Container
container_of image = record {
  image = image;
  command = "serve" ∷ [];
  args = [];
  env = [];
  mounts = record { target = "/data"; source = code_points "/srv"; read_only = true } ∷ [];
}

abbrev job : String → Task
job image = record {
  id = "t1";
  service_id = "s";
  node_id = "n";
  spec = record {
    runtime = container_runtime (container_of image);
    runtime_type = "container";
    resources = record { limits = none; reservations = none };
    restart = no_restart;
    placement = no_placement;
  };
  status = no_status;
  networks = [];
  secrets = record { id = "k"; name = "key"; target = "/key"; contents = [] } ∷ [];
  configs = [];
  annotations = ("rootfs", "/r.ext4") ∷ [];
}

abbrev machine : System ℕ
machine = record {
  goarch = "amd64";
  join_path = λ dir name. dir ++ 47 ∷ name;
  spell = λ path. "/r/a-b-1.ext4";
  exists = λ path w. true;
  has_tool = λ name w. false;
  debugfs_finds_init = λ path w. true;
  make_parent = λ path w. (none, w);
  open_lock = λ path w. (none, w);
  flock = λ path w. (none, w);
  unlock = λ path w. w;
  make_temp = λ w. (ok [], w);
  remove_all = λ path w. w;
  check_manifest = λ image w. none;
  pull = λ image dir w. (pulled none none, w + 1);
  extract_with_docker_cli = λ image dir w. (none, w);
  view = λ dir w. empty_root;
  inject_into_dir = λ dir info w. (none, w);
  inject_essentials = λ dir id w. (none, w);
  inject_network_config = λ dir w. w;
  create_ext4 = λ dir output w. (none, w);
  handle_mounts = λ task path mounts w. w;
  inject_secrets = λ id refs path w. (none, w);
  inject_configs = λ id refs path w. (none, w);
}

abbrev preparer : ImagePreparer
preparer = record {
  config = record {
    rootfs_dir = code_points "/r";
    init_system = "tini";
    init_grace_period = pos 10;
    max_image_age_days = pos 7;
  };
  has_volume_manager = true;
  has_secret_manager = true;
  oci_info = none;
}

known : (image : String) → get_container (job image).spec ≡ ok (container_of image)
unfolding get_container
known image = refl

prepared : (prepare machine preparer (job "a/b:1") 0).0 ≡ none
unfolding prepare get_container verify_cached_rootfs
prepared = refl

one_id : generate_image_id (code_points "a/b:1") ≡ generate_image_id (code_points "a-b:1")
unfolding generate_image_id replace_all cut_last
one_id = refl

cached : verify_cached_rootfs machine (rootfs_path machine preparer (container_of "a/b:1")) 0 ≡ true
unfolding verify_cached_rootfs
cached = refl

prepare_shares_example :
    (lookup "rootfs" (prepare machine preparer (job "a/b:1") 0).1.annotations
      ≡ some "/r/a-b-1.ext4")
    × (prepare machine preparer (job "a-b:1") 0
        ≡ (none, annotate "rootfs" "/r/a-b-1.ext4" (job "a-b:1"), preparer, 0))
prepare_shares_example =
    prepare_shares machine preparer (job "a/b:1") (job "a-b:1") (container_of "a/b:1")
      (container_of "a-b:1") 0 0 (known "a/b:1") (known "a-b:1") prepared one_id cached refl

abbrev no_cidr : Text → Option (Text × List ℕ)
no_cidr t = none

abbrev translated : VmmConfig
translated =
    config_for print digest no_cidr default_translator (job "web")
      (root_drive (code_points "/r.ext4") ∷ map build_volume_drive (container_of "web").mounts)

built : build_config print digest no_cidr default_translator (job "web") ≡ ok translated
unfolding build_config get_container build_root_drive volume_drives validate_mount_path lookup
built = refl

build_config_drives_example :
    (container : Container) × (path : String) × (root : Drive) × (drives : List Drive)
    × (get_container (job "web").spec ≡ ok container)
    × (lookup "rootfs" (job "web").annotations ≡ some path)
    × (translated.drives ≡ root ∷ drives)
    × IsRootDrive path root
    × AreDrivesOf container.mounts drives
    × All
        (λ mount.
          ((mount.source ≢ []) × StaysBelow mount.source)
          × ((code_points mount.target ≢ []) × StaysBelow (code_points mount.target)))
        container.mounts
build_config_drives_example =
    build_config_drives print digest no_cidr default_translator (job "web") translated built

abbrev new_preparer : ImagePreparer
new_preparer = new_image_preparer false none

extracted :
    extract_oci_image machine (code_points "a:1") [] new_preparer 0 ≡ (none, new_preparer, 1)
unfolding extract_oci_image extract_with_ggcr
extracted = refl

prepare_image_scratch_example :
    prepare_image machine (code_points "a:1") (code_points "a-1") (code_points "/r") new_preparer 0
    ≡ (some (symlinks_invalid sh_missing), new_preparer, 1)
prepare_image_scratch_example =
    prepare_image_scratch machine (code_points "a:1") (code_points "a-1") (code_points "/r") []
      new_preparer new_preparer 0 0 1 refl refl extracted empty_root-IsTree detected
