-- ===== src/Image/Oci.antt =====
-- pkg/image/oci_info.go: the OCI configuration of an image. A nil information is `none`.
use swarm_cracker.Prelude.{
  List, [], ◌∷◌, ◌++◌, Bool, true, false, not, ◌&&◌, Option, none, some, if◌then◌else◌, code_points,
}
use swarm_cracker.Image.Text.{Text, is_empty}

pub record OciImageInfo : Type 0 where
  pub entrypoint : List Text
  pub cmd : List Text
  pub env : List Text
  pub user : Text
  pub work_dir : Text
  pub stop_signal : Text
  pub os : Text
  pub architecture : Text
  pub image_ref : Text

abbrev pub default_stop_signal : Text
default_stop_signal = code_points "SIGTERM"

-- v1.ConfigFile of go-containerregistry, as far as it is read.
pub record ConfigFile : Type 0 where
  pub entrypoint : List Text
  pub cmd : List Text
  pub env : List Text
  pub user : Text
  pub working_dir : Text
  pub stop_signal : Text
  pub os : Text
  pub architecture : Text

unfoldable pub parse_oci_image_config : Option ConfigFile → Text → OciImageInfo
parse_oci_image_config none image_ref = record {
  entrypoint = [];
  cmd = [];
  env = [];
  user = [];
  work_dir = [];
  stop_signal = default_stop_signal;
  os = [];
  architecture = [];
  image_ref = image_ref;
}
parse_oci_image_config (some cfg) image_ref = record {
  entrypoint = cfg.entrypoint;
  cmd = cfg.cmd;
  env = cfg.env;
  user = cfg.user;
  work_dir = cfg.working_dir;
  stop_signal = if is_empty cfg.stop_signal then default_stop_signal else cfg.stop_signal;
  os = cfg.os;
  architecture = cfg.architecture;
  image_ref = image_ref;
}

abbrev pub has_any : List Text → Bool
has_any [] = false
has_any (t ∷ rest) = true

unfoldable pub full_command : Option OciImageInfo → List Text
full_command none = code_points "/bin/sh" ∷ []
full_command (some info) =
    if has_any info.entrypoint && has_any info.cmd
    then info.entrypoint ++ info.cmd
    else if has_any info.entrypoint
    then info.entrypoint
    else if has_any info.cmd
    then info.cmd
    else code_points "/bin/sh" ∷ []

pub has_entrypoint : Option OciImageInfo → Bool
has_entrypoint none = false
has_entrypoint (some info) = has_any info.entrypoint

pub has_cmd : Option OciImageInfo → Bool
has_cmd none = false
has_cmd (some info) = has_any info.cmd

pub is_empty_info : Option OciImageInfo → Bool
is_empty_info none = true
is_empty_info (some info) =
    not (has_any info.entrypoint) && not (has_any info.cmd) && not (has_any info.env)
