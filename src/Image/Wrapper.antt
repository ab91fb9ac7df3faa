-- ===== src/Image/Wrapper.antt =====
-- pkg/image/wrapper.go: the init script that runs an image's command under tini.
pub mod Command
use swarm_cracker.Prelude.{
  ℕ, List, [], ◌∷◌, ◌++◌, Bool, true, false, not, ◌&&◌, Option, none, some, map, ltb, ℤ, pos,
  negsuc, String, if◌then◌else◌, code_points,
}
use swarm_cracker.Image.Text.{Text, is_empty, text_eq, join, trim_prefix}
use swarm_cracker.Image.Shell.{
  shell_escape, shell_escape_value, parse_env_var, build_command_string,
}
use swarm_cracker.Image.Oci.{OciImageInfo, default_stop_signal, full_command, has_any}

-- The header, which names the image.
unfoldable pub header_lines : Option OciImageInfo → List Text
header_lines info =
    let unknown = code_points "unknown" in
    let image_ref = elim info as (λ _. Text) [
      | none ↦ unknown
      | some i ↦ if is_empty i.image_ref then unknown else i.image_ref
    ] in
    code_points "#!/bin/sh"
    ∷ code_points "# SwarmCracker init wrapper — auto-generated"
    ∷ (code_points "# Image: " ++ image_ref)
    ∷ []
    ∷ []

abbrev pub mount_lines : List Text
mount_lines = map code_points (
    "# Mount essential filesystems" ∷ "mount -t proc proc /proc 2>/dev/null || true"
    ∷ "mount -t sysfs sysfs /sys 2>/dev/null || true"
    ∷ "mount -t devpts devpts /dev/pts 2>/dev/null || true"
    ∷ "mount -t tmpfs tmpfs /dev/shm 2>/dev/null || true" ∷ "if [ ! -d /tmp ]; then"
    ∷ "    mount -t tmpfs tmpfs /tmp 2>/dev/null || mkdir -p /tmp" ∷ "fi" ∷ ""
    ∷ "# Fallback device nodes if devtmpfs failed" ∷ "if [ ! -e /dev/urandom ]; then"
    ∷ "    mknod /dev/urandom c 1 9 2>/dev/null || true" ∷ "fi" ∷ "" ∷ [])

abbrev pub export_line : Text × Text → List Text → List Text
export_line (key, value) rest =
    if is_empty key
    then rest
    else (code_points "export "
        ++ (shell_escape key ++ (code_points "=" ++ shell_escape_value value)))
      ∷ rest

unfoldable pub export_lines : List Text → List Text
export_lines [] = []
export_lines (env ∷ rest) = let later = export_lines rest in export_line (parse_env_var env) later

unfoldable pub env_lines : Option OciImageInfo → List Text
unfolding export_lines
env_lines none = []
env_lines (some info) =
    if has_any info.env
    then code_points "# Environment" ∷ (export_lines info.env ++ [] ∷ [])
    else []

unfoldable pub work_dir_lines : Option OciImageInfo → List Text
work_dir_lines none = []
work_dir_lines (some info) =
    if is_empty info.work_dir
    then []
    else let work_dir = shell_escape_value info.work_dir in
      code_points "# Working directory"
      ∷ (code_points "mkdir -p " ++ (work_dir ++ code_points " 2>/dev/null || true"))
      ∷ (code_points "cd " ++ (work_dir ++ code_points " || true"))
      ∷ []
      ∷ []

abbrev pub quoted_user : String → Text → Text
quoted_user command user = code_points command ++ (shell_escape user ++ code_points "\"")

-- The lines, and the command that they set.
unfoldable pub user_lines : Option OciImageInfo → List Text × Text
user_lines none = ([], [])
user_lines (some info) = if is_empty info.user then ([], []) else (
  code_points "# User directive"
      ∷ code_points "if command -v su-exec >/dev/null 2>&1; then"
      ∷ quoted_user "    USER_CMD=\"su-exec " info.user
      ∷ code_points "elif command -v gosu >/dev/null 2>&1; then"
      ∷ quoted_user "    USER_CMD=\"gosu " info.user
      ∷ code_points "else"
      ∷ code_points
          "    echo \"Warning: USER directive set but no su-exec/gosu available, running as root\""
      ∷ code_points "    USER_CMD=\"\""
      ∷ code_points "fi"
      ∷ []
      ∷ [],
  code_points "$USER_CMD ",
)

-- "-s", and the grace period if it is above 0.
unfoldable pub tini_args : (ℕ → Text) → ℤ → Text
tini_args decimal (pos n) = if ltb 0 n then code_points "-s -g " ++ decimal n else code_points "-s"
tini_args decimal (negsuc n) = code_points "-s"

abbrev pub bare_signal : Text → Text
bare_signal signal = elim (trim_prefix signal (code_points "SIG")) [
  | none ↦ signal
  | some name ↦ name
]

unfoldable pub tini_cmd : Option OciImageInfo → Text
tini_cmd none = code_points "/sbin/tini"
tini_cmd (some info) =
    if not (is_empty info.stop_signal) && not (text_eq info.stop_signal default_stop_signal)
    then code_points "/sbin/tini -e " ++ bare_signal info.stop_signal
    else code_points "/sbin/tini"

-- What stands before the command on the last line.
unfoldable pub exec_prefix : (ℕ → Text) → Option OciImageInfo → ℤ → Text
exec_prefix decimal info grace_period =
    code_points "exec "
    ++ ((user_lines info).1
        ++ (code_points " "
            ++ (tini_cmd info
                ++ (code_points " " ++ (tini_args decimal grace_period ++ code_points " -- ")))))

unfoldable pub script_lines : (ℕ → Text) → Option OciImageInfo → ℤ → List Text
script_lines decimal info grace_period =
    header_lines info
    ++ (mount_lines
        ++ (env_lines info
            ++ (work_dir_lines info
                ++ ((user_lines info).0
                    ++ code_points "# Execute"
                      ∷ (exec_prefix decimal info grace_period
                          ++ build_command_string (full_command info))
                      ∷ []))))

unfoldable pub generate_wrapper_script : (ℕ → Text) → Option OciImageInfo → ℤ → Text
generate_wrapper_script decimal info grace_period =
    join (script_lines decimal info grace_period) (10 ∷ [])
