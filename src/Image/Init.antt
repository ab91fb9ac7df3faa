-- ===== src/Image/Init.antt =====
-- pkg/image/init.go and busybox.go: the init system that is put into an extracted image. Paths are
-- below the directory of the image; `T` is the state of its files.
pub mod Kinds
use swarm_cracker.Prelude.{
  ℕ, zero, suc, String, List, [], ◌∷◌, ◌++◌, Bool, true, false, not, Option, none, some, string_eq,
  ◌==◌, if◌then◌else◌, ℤ, pos, negsuc, code_points,
}
use Prim.Native.String.{◌++◌ as text_append}
use swarm_cracker.Swarmkit.Controller.{GoError}
use swarm_cracker.Image.Text.{Text}
use swarm_cracker.Image.Oci.{OciImageInfo}
use swarm_cracker.Image.Wrapper.{generate_wrapper_script}
use swarm_cracker.Image.Detector.{
  Root, InitType, init_none, tini, dumb_init, openrc, sysvinit, scratch, incompatible,
  detect_init_type,
}

pub record InitSystemConfig : Type 0 where
  pub kind : String
  pub grace_period_sec : ℤ

abbrev default_init : InitSystemConfig
default_init = record { kind = "tini"; grace_period_sec = pos 10 }

abbrev ten_if_zero : String → ℤ → ℤ
ten_if_zero kind (pos zero) = if kind == "none" then pos 0 else pos 10
ten_if_zero kind (pos (suc n)) = pos (suc n)
ten_if_zero kind (negsuc n) = negsuc n

unfoldable pub new_init_injector : Option InitSystemConfig → InitSystemConfig
new_init_injector none = default_init
new_init_injector (some c) = record c { grace_period_sec = ten_if_zero c.kind c.grace_period_sec }

unfoldable pub is_enabled : InitSystemConfig → Bool
is_enabled c = not (c.kind == "none")

unfoldable pub get_init_path : InitSystemConfig → String
get_init_path c =
    if c.kind == "tini"
    then "/sbin/tini"
    else if c.kind == "dumb-init"
    then "/sbin/dumb-init"
    else if c.kind == "none"
    then ""
    else "/sbin/init"

unfoldable pub get_init_args : InitSystemConfig → List String → List String
get_init_args c args =
    if c.kind == "tini"
    then "/sbin/tini" ∷ "--" ∷ args
    else if c.kind == "dumb-init"
    then "/sbin/dumb-init" ∷ args
    else args

-- The binaries that are built into the program are `tini_binary` and `busybox_binary`.
pub record Disk (T : Type 0) : Type 0 where
  pub view : T → Root
  pub make_dirs : String → T → Option GoError × T
  pub write_file : String → Text → ℕ → T → Option GoError × T
  pub remove : String → T → T
  pub symlink : String → String → T → Option GoError × T
  pub tini_binary : Text
  pub busybox_binary : Text

pub data InitError : Type 0 where
  incompatible_image : InitError
  sbin_failed tini_failed wrapper_failed link_failed bin_failed busybox_failed : GoError → InitError

-- os.FileMode 0755 and 0644
abbrev executable : ℕ
executable = 493

abbrev readable : ℕ
readable = 420

module _ {T : Type 0} (d : Disk T) where
  abbrev and_then :
      (GoError → InitError) → Option GoError × T → (T → Option InitError × T) → Option InitError × T
  and_then reason (some e, t) next = (some (reason e), t)
  and_then reason (none, t) next = next t

  abbrev finish : (GoError → InitError) → Option GoError × T → Option InitError × T
  finish reason (some e, t) = (some (reason e), t)
  finish reason (none, t) = (none, t)

  abbrev pub link_init : T → Option InitError × T
  link_init t = finish link_failed (d.symlink "/sbin/init" "init" (d.remove "init" t))

  unfoldable pub create_generic_init_wrapper :
      (ℕ → Text) → Option OciImageInfo → ℤ → T → Option InitError × T
  create_generic_init_wrapper decimal info grace_period t =
      and_then sbin_failed (d.make_dirs "sbin" t) λ t₁.
        finish wrapper_failed (
          d.write_file "sbin/init" (generate_wrapper_script decimal info grace_period) executable
            t₁)

  abbrev after_wrapper : Option InitError × T → Option InitError × T
  after_wrapper (some e, t) = (some e, t)
  after_wrapper (none, t) = link_init t

  unfoldable pub inject_tini_into_dir :
      (ℕ → Text) → InitSystemConfig → Option OciImageInfo → T → Option InitError × T
  inject_tini_into_dir decimal c info t = and_then sbin_failed (d.make_dirs "sbin" t) λ t₁.
      and_then tini_failed (d.write_file "sbin/tini" d.tini_binary executable t₁)
        λ t₂. after_wrapper (create_generic_init_wrapper decimal info c.grace_period_sec t₂)

  -- The errors of these are ignored.
  abbrev link_applets : List String → T → T
  link_applets [] t = t
  link_applets (a ∷ applets) t =
      link_applets applets (d.symlink "busybox" (text_append "bin/" a) t).1

  abbrev make_all : List String → T → T
  make_all [] t = t
  make_all (dir ∷ dirs) t = make_all dirs (d.make_dirs dir t).1

  abbrev applets : List String
  applets =
      "sh" ∷ "ash" ∷ "ls" ∷ "cat" ∷ "mkdir" ∷ "rmdir" ∷ "rm" ∷ "cp" ∷ "mv" ∷ "ln" ∷ "chmod"
      ∷ "chown" ∷ "echo" ∷ "printf" ∷ "pwd" ∷ "cd" ∷ "env" ∷ "sleep" ∷ "true" ∷ "false" ∷ "test"
      ∷ "[" ∷ "ps" ∷ "kill" ∷ "top" ∷ "mount" ∷ "umount" ∷ "grep" ∷ "sed" ∷ "awk" ∷ "head" ∷ "tail"
      ∷ "wc" ∷ "tr" ∷ "tar" ∷ "gzip" ∷ "gunzip" ∷ "ip" ∷ "ifconfig" ∷ "netstat" ∷ "ping" ∷ "df"
      ∷ "du" ∷ "free" ∷ "date" ∷ "uname" ∷ "hostname" ∷ "id" ∷ "whoami" ∷ "clear" ∷ "reset" ∷ "vi"
      ∷ "ed" ∷ []

  abbrev essential_dirs : List String
  essential_dirs = "proc" ∷ "sys" ∷ "dev" ∷ "tmp" ∷ "run" ∷ "var" ∷ "etc" ∷ []

  abbrev write_accounts : T → T
  write_accounts t =
      let t₁ = (d.make_dirs "etc" t).1 in
      let t₂ =
        (d.write_file "etc/passwd" (code_points "root:x:0:0:root:/root:/bin/sh" ++ 10 ∷ []) readable
          t₁).1 in
      (d.write_file "etc/group" (code_points "root:x:0:" ++ 10 ∷ []) readable t₂).1

  unfoldable pub inject_busybox : T → Option InitError × T
  inject_busybox t = and_then bin_failed (d.make_dirs "bin" t) λ t₁.
      and_then busybox_failed (d.write_file "bin/busybox" d.busybox_binary executable t₁)
        λ t₂. (none, write_accounts (make_all essential_dirs (link_applets applets t₂)))

  abbrev pub after_busybox :
      (ℕ → Text)
      → InitSystemConfig
      → Option OciImageInfo
      → Option InitError × T
      → Option InitError × T
  after_busybox decimal c info (some e, t) = (some e, t)
  after_busybox decimal c info (none, t) = inject_tini_into_dir decimal c info t

  abbrev pub inject_for :
      (ℕ → Text) → InitSystemConfig → Option OciImageInfo → InitType → T → Option InitError × T
  inject_for decimal c info incompatible t = (some incompatible_image, t)
  inject_for decimal c info scratch t = after_busybox decimal c info (inject_busybox t)
  inject_for decimal c info init_none t = inject_tini_into_dir decimal c info t
  inject_for decimal c info tini t = link_init t
  inject_for decimal c info dumb_init t = link_init t
  inject_for decimal c info openrc t = link_init t
  inject_for decimal c info sysvinit t = link_init t

  unfoldable pub inject_into_dir :
      (ℕ → Text) → InitSystemConfig → Option OciImageInfo → T → Option InitError × T
  inject_into_dir decimal c info t =
      if is_enabled c then inject_for decimal c info (detect_init_type (d.view t)) t else (none, t)
