-- ===== src/Image/Init/Kinds.antt =====
-- pkg/image/init.go, InjectIntoDir: what the kind of the init system changes.
use swarm_cracker.Prelude.{ℕ, String, Option, none, some, string_eq, ℤ, ◌≡◌, ◌≢◌, refl, eq_iff}
use swarm_cracker.Image.Text.{Text}
use swarm_cracker.Image.Oci.{OciImageInfo}
use swarm_cracker.Image.Detector.{
  InitType, init_none, tini, dumb_init, openrc, sysvinit, scratch, incompatible, detect_init_type,
}
use swarm_cracker.Image.Init.{
  InitSystemConfig, Disk, is_enabled, get_init_path, inject_for, inject_tini_into_dir,
  inject_into_dir, InitError, after_busybox, inject_busybox,
}

after_busybox_kinds :
    {T : Type 0} (d : Disk T) (decimal : ℕ → Text) (info : Option OciImageInfo) (grace : ℤ)
    (kind other : String) (done : Option InitError × T)
    → after_busybox d decimal (record { kind = kind; grace_period_sec = grace }) info done
      ≡ after_busybox d decimal (record { kind = other; grace_period_sec = grace }) info done
unfolding inject_tini_into_dir
after_busybox_kinds d decimal info grace kind other (some e, t) = refl
after_busybox_kinds d decimal info grace kind other (none, t) = refl

inject_for_kinds :
    {T : Type 0} (d : Disk T) (decimal : ℕ → Text) (info : Option OciImageInfo) (grace : ℤ)
    (kind other : String) (found : InitType) (t : T)
    → inject_for d decimal (record { kind = kind; grace_period_sec = grace }) info found t
      ≡ inject_for d decimal (record { kind = other; grace_period_sec = grace }) info found t
unfolding inject_tini_into_dir
inject_for_kinds d decimal info grace kind other incompatible t = refl
inject_for_kinds d decimal info grace kind other scratch t =
    after_busybox_kinds d decimal info grace kind other (inject_busybox d t)
inject_for_kinds d decimal info grace kind other init_none t = refl
inject_for_kinds d decimal info grace kind other tini t = refl
inject_for_kinds d decimal info grace kind other dumb_init t = refl
inject_for_kinds d decimal info grace kind other openrc t = refl
inject_for_kinds d decimal info grace kind other sysvinit t = refl

-- An injector of the kind "dumb-init" does to an image exactly what one of the kind "tini" does, while
-- the path that it reports for its init is another.
pub inject_into_dir_kinds :
    {T : Type 0} (d : Disk T) (decimal : ℕ → Text) (info : Option OciImageInfo) (grace : ℤ) (t : T)
    → let with_kind : String → InitSystemConfig =
        λ kind. record { kind = kind; grace_period_sec = grace } in
      (inject_into_dir d decimal (with_kind "dumb-init") info t
        ≡ inject_into_dir d decimal (with_kind "tini") info t)
      × (get_init_path (with_kind "dumb-init") ≢ get_init_path (with_kind "tini"))
unfolding inject_into_dir is_enabled get_init_path
inject_into_dir_kinds d decimal info grace t = (
  inject_for_kinds d decimal info grace "dumb-init" "tini" (detect_init_type (d.view t)) t,
  λ h. cc ((eq_iff "/sbin/dumb-init" "/sbin/tini").1 h),
)
