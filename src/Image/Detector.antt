-- ===== src/Image/Detector.antt =====
-- pkg/image/detector.go: the init system of an extracted image. A path is written below the directory
-- of the image, and what the file system says of it is an argument.
pub mod Scratch
use swarm_cracker.Prelude.{
  ℕ, zero, suc, ◌+◌, String, List, [], ◌∷◌, ◌++◌, Bool, true, false, not, ◌&&◌, ◌||◌, Option, none,
  some, string_eq, ◌==◌, Result, ok, err, leb, if◌then◌else◌, code_points, map,
}
use swarm_cracker.Swarmkit.Controller.{GoError}
use swarm_cracker.Image.Text.{Text, text_eq}
use swarm_cracker.Storage.Volume.{has_prefix}

pub record FileInfo : Type 0 where
  pub is_regular : Bool
  pub is_symlink : Bool
  pub is_dir : Bool
  -- one of the three permissions to execute
  pub is_executable : Bool

pub data Found : Type 0 where
  found : FileInfo → Found
  missing : Found
  failed : GoError → Found

-- `resolves` is filepath.EvalSymlinks followed by os.Stat of the result.
pub record Root : Type 0 where
  pub stat : String → Found
  pub lstat : String → Found
  pub read_link : String → Option Text
  pub read_dir : Option (List String)
  pub resolves : String → Option GoError

pub data InitType : Type 0 where
  init_none tini dumb_init openrc sysvinit scratch incompatible : InitType

abbrev pub is_found : Found → Bool
is_found (found info) = true
is_found missing = false
is_found (failed e) = false

abbrev pub is_missing : Found → Bool
is_missing (found info) = false
is_missing missing = true
is_missing (failed e) = false

abbrev test : (FileInfo → Bool) → Found → Bool
test p (found info) = p info
test p missing = false
test p (failed e) = false

abbrev any : {A : Type 0} → (A → Bool) → List A → Bool
any p [] = false
any p (x ∷ xs) = p x || any p xs

abbrev is_artifact : String → Bool
is_artifact name = (name == "lost+found") || (name == ".") || (name == "..")

abbrev pub all_artifacts : List String → Bool
all_artifacts [] = true
all_artifacts (name ∷ names) = is_artifact name && all_artifacts names

unfoldable pub is_scratch : Root → Bool
is_scratch r = elim r.read_dir [
  | none ↦ false
  | some entries ↦
      all_artifacts entries
      || (is_missing (r.stat "bin/sh")
          && (is_missing (r.stat "bin") && is_missing (r.stat "usr/bin")))
]

abbrev systemd : Text
systemd = code_points "systemd"

abbrev pub str_contains : Text → Text → Bool
str_contains [] sub = has_prefix [] sub
str_contains (c ∷ cs) sub = has_prefix (c ∷ cs) sub || str_contains cs sub

abbrev pub has_suffix : Text → Text → Bool
has_suffix [] suffix = text_eq [] suffix
has_suffix (c ∷ cs) suffix = text_eq (c ∷ cs) suffix || has_suffix cs suffix

-- The tests of the length, which guard the slices, follow from the others.
unfoldable pub contains_systemd : Text → Bool
contains_systemd path =
    text_eq path systemd
    || (has_prefix path systemd
        || (has_suffix path systemd
            || (str_contains path (47 ∷ systemd) || str_contains path (systemd ++ 47 ∷ systemd))))

abbrev systemd_paths : List String
systemd_paths = "lib/systemd/systemd" ∷ "usr/lib/systemd/systemd" ∷ "lib64/systemd/systemd" ∷ []

abbrev links_to_systemd : Option Text → Bool
links_to_systemd none = false
links_to_systemd (some target) = contains_systemd target

unfoldable pub is_systemd : Root → Bool
is_systemd r =
    any (λ p. test (λ i. i.is_regular || i.is_symlink) (r.stat p)) systemd_paths
    || (links_to_systemd (r.read_link "sbin/init")
        || (test (λ i. i.is_dir) (r.stat "etc/systemd")
            && any (λ p. is_found (r.stat p)) systemd_paths))

abbrev executable_at : Root → List String → Bool
executable_at r = any (λ p. test (λ i. i.is_executable) (r.stat p))

unfoldable pub has_tini : Root → Bool
has_tini r = executable_at r ("sbin/tini" ∷ "usr/bin/tini" ∷ "bin/tini" ∷ [])

unfoldable pub has_dumb_init : Root → Bool
has_dumb_init r = executable_at r ("sbin/dumb-init" ∷ "usr/bin/dumb-init" ∷ "bin/dumb-init" ∷ [])

abbrev openrc_paths : List String
openrc_paths = "sbin/openrc" ∷ "sbin/rc" ∷ []

unfoldable pub has_openrc : Root → Bool
has_openrc r =
    executable_at r openrc_paths
    || (any (λ p. test (λ i. i.is_dir) (r.stat p)) ("etc/init.d" ∷ "etc/runlevels" ∷ [])
        && (is_found (r.stat "sbin/rc-status") || any (λ p. is_found (r.stat p)) openrc_paths))

abbrev links_elsewhere : Option Text → Bool
links_elsewhere none = false
links_elsewhere (some target) = not (contains_systemd target)

unfoldable pub has_sysvinit : Root → Bool
has_sysvinit r =
    if is_systemd r
    then false
    else if test (λ i. i.is_regular || (i.is_symlink && links_elsewhere (r.read_link "sbin/init")))
        (r.stat "sbin/init")
    then true
    else test (λ i. i.is_dir) (r.stat "etc/init.d")
      && (is_missing (r.stat "etc/runlevels") && is_missing (r.stat "sbin/rc"))

unfoldable pub detect_init_type : Root → InitType
detect_init_type r =
    if is_scratch r
    then scratch
    else if is_systemd r
    then incompatible
    else if has_tini r
    then tini
    else if has_dumb_init r
    then dumb_init
    else if has_openrc r
    then openrc
    else if has_sysvinit r
    then sysvinit
    else init_none

pub data SymlinkError : Type 0 where
  sh_missing sh_not_executable : SymlinkError
  sh_failed sh_dangling : GoError → SymlinkError

abbrev check_executable : Found → Option SymlinkError
check_executable (found info) = if info.is_executable then none else some sh_not_executable
check_executable missing = none
check_executable (failed e) = none

unfoldable pub validate_critical_symlinks : Root → Option SymlinkError
validate_critical_symlinks r = elim (r.lstat "bin/sh") [
  | missing ↦ some sh_missing
  | failed e ↦ some (sh_failed e)
  | found info ↦
      if info.is_symlink
      then elim (r.resolves "bin/sh") [
        | some e ↦ some (sh_dangling e)
        | none ↦ check_executable (r.stat "bin/sh")
      ]
      else check_executable (r.stat "bin/sh")
]

abbrev pub non_critical : List String
non_critical = "bin/sh" ∷ "bin/bash" ∷ "usr/bin/env" ∷ []

-- The dangling links among the paths.
unfoldable pub warnings_for : Root → List String → List String
warnings_for r [] = []
warnings_for r (p ∷ ps) =
    let rest = warnings_for r ps in
    if test (λ i. i.is_symlink) (r.lstat p)
    then elim (r.resolves p) [ none ↦ rest | some e ↦ p ∷ rest ]
    else rest

unfoldable pub validate_non_critical_symlinks : Root → List String
validate_non_critical_symlinks r = warnings_for r non_critical

unfoldable pub is_glibc : Root → Bool
is_glibc r =
    any (λ p. is_found (r.stat p))
      ("lib/x86_64-linux-gnu/libc.so.6" ∷ "lib64/libc.so.6" ∷ "lib/libc.so.6"
        ∷ "usr/lib/x86_64-linux-gnu/libc.so.6" ∷ "usr/lib64/libc.so.6"
        ∷ "lib64/ld-linux-x86-64.so.2" ∷ "lib/x86_64-linux-gnu/ld-linux-x86-64.so.2"
        ∷ "lib/ld-linux-x86-64.so.2" ∷ [])
