-- ===== src/Image/Reference.antt =====
-- pkg/image/preparer.go and validator.go: references of images, the names of their root file systems,
-- and whether an image fits the host.
pub mod Collisions
use swarm_cracker.Prelude.{
  ℕ, String, List, [], ◌∷◌, ◌++◌, Bool, true, false, Option, none, some, Map, lookup, string_eq,
  nat_eq, ◌==◌, ◌||◌, Result, ok, err, if◌then◌else◌, code_points,
}
use swarm_cracker.Image.Text.{Text, is_empty, replace_all}
use swarm_cracker.Storage.Volume.{contains_char}

-- What stands before and after the last colon, which is 58.
unfoldable pub cut_last : Text → ℕ → Option (Text × Text)
cut_last [] sep = none
cut_last (c ∷ cs) sep = elim (cut_last cs sep) [
  | some (before, after) ↦ some (c ∷ before, after)
  | none ↦ if c == sep then some ([], cs) else none
]

abbrev id_of : Text → Text → Text
id_of name tag = replace_all name 47 (45 ∷ []) ++ 45 ∷ tag

-- A colon in front of all else does not count.
abbrev id_of_parts : Text → Text × Text → Text
id_of_parts image_ref ([], tag) = id_of image_ref (code_points "latest")
id_of_parts image_ref (c ∷ name, tag) = id_of (c ∷ name) tag

unfoldable pub generate_image_id : Text → Text
generate_image_id image_ref = elim (cut_last image_ref 58) [
  | none ↦ id_of image_ref (code_points "latest")
  | some parts ↦ id_of_parts image_ref parts
]

-- 46 is the point.
unfoldable pub full_reference : Text → Text
full_reference image_ref =
    if contains_char image_ref 47
    then (if contains_char image_ref 46 then image_ref else code_points "docker.io/" ++ image_ref)
    else code_points "docker.io/library/" ++ image_ref

abbrev arch_aliases : Map String String
arch_aliases =
    ("x86_64", "amd64")
    ∷ ("amd64", "amd64")
    ∷ ("aarch64", "arm64")
    ∷ ("arm64", "arm64")
    ∷ ("armhf", "arm")
    ∷ ("armv7l", "arm")
    ∷ ("arm", "arm")
    ∷ ("i386", "386")
    ∷ ("i686", "386")
    ∷ ("x86", "386")
    ∷ ("386", "386")
    ∷ []

-- `lowered` is strings.ToLower of strings.TrimSpace.
unfoldable pub normalize_arch : (String → String) → String → String
normalize_arch lowered arch = elim (lookup (lowered arch) arch_aliases) [
  | none ↦ lowered arch
  | some normalized ↦ normalized
]

pub data ManifestError : Type 0 where
  empty_reference bad_reference : ManifestError
  not_linux wrong_architecture : String → ManifestError

-- Of the image's configuration, the system and the architecture.
pub record Platform : Type 0 where
  pub os : String
  pub architecture : String

abbrev check_platform : (String → String) → String → Platform → Option ManifestError
check_platform lowered goarch p =
    if p.architecture == ""
    then none
    else if lowered p.os == "linux"
    then (if normalize_arch lowered p.architecture == normalize_arch lowered goarch
        then none
        else some (wrong_architecture p.architecture))
    else some (not_linux (lowered p.os))

-- `parses` is name.ParseReference, and `platform` what the registry tells, if it does.
unfoldable pub validate_image_manifest :
    (String → String)
    → String
    → (Text → Bool)
    → (Text → Option Platform)
    → Text
    → Option ManifestError
validate_image_manifest lowered goarch parses platform image_ref =
    if is_empty image_ref
    then some empty_reference
    else if parses (full_reference image_ref)
    then elim (platform (full_reference image_ref)) [
      | none ↦ none
      | some p ↦ check_platform lowered goarch p
    ]
    else some bad_reference
