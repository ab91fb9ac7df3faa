-- ===== src/Image/Preparer/Shared.antt =====
-- pkg/image/preparer.go: tasks that share the file of a root file system.
use swarm_cracker.Prelude.{
  String, ◌++◌, true, ◌||◌, none, some, lookup, lookup-insert, string_eq, ◌==◌, ok, code_points,
  ◌≡◌, refl, sym, ap, ◌∙◌, Bool-cases, Option-cases, inl, inr,
}
use swarm_cracker.Types.{Container, Task, get_container}
use swarm_cracker.Image.Text.{Text}
use swarm_cracker.Image.Reference.{generate_image_id}
use swarm_cracker.Image.Preparer.{ImagePreparer, System, verify_cached_rootfs, prepare_with_lock}
use swarm_cracker.Image.Preparer.Prepare.{
  annotate, rootfs_path, mark_init, apply_mounts, apply_secrets, apply_configs, fill_rootfs,
  make_rootfs, prepare,
}

annotated :
    (path : String) (task : Task)
    → lookup "rootfs" (annotate "rootfs" path task).annotations ≡ some path
annotated path task = rw (lookup-insert "rootfs" "rootfs" path task.annotations) refl

module _ {W : Type 0} (s : System W) where
  fill_rootfs_annotates :
      (ip : ImagePreparer) (task : Task) (container : Container) (path : Text) (w : W)
      → (fill_rootfs s ip task container path w).0 ≡ none
      → lookup "rootfs" (fill_rootfs s ip task container path w).1.annotations ≡ some (s.spell path)
  unfolding fill_rootfs
  fill_rootfs_annotates ip task container path w done =
      let secrets =
        apply_secrets s ip task path task.secrets
          (apply_mounts s ip task path container.mounts w) in
      elim (Option-cases secrets.0) [
        | inr (e, bad) ↦ cc (rw (fill_rootfs, bad) at done)
        | inl hidden ↦ elim (Option-cases (apply_configs s ip task path task.configs secrets.1).0) [
          | inr (e, bad) ↦ cc (rw (fill_rootfs, hidden, bad) at done)
          | inl set ↦ rw (fill_rootfs, hidden, set) (annotated (s.spell path) (mark_init ip task))
        ]
      ]

  make_rootfs_annotates :
      (ip : ImagePreparer) (task : Task) (container : Container) (path : Text) (w : W)
      → (make_rootfs s ip task container path w).0 ≡ none
      → lookup "rootfs" (make_rootfs s ip task container path w).1.annotations ≡ some (s.spell path)
  unfolding make_rootfs
  make_rootfs_annotates ip task container path w done =
      let image = code_points container.image in
      let made = prepare_with_lock s image (generate_image_id image) path ip w in
      elim (Option-cases made.0) [
        | inr (e, bad) ↦ cc (rw (make_rootfs, bad) at done)
        | inl fine ↦
            rw (make_rootfs, fine)
              (fill_rootfs_annotates made.1 task container path made.2
                (rw (make_rootfs, fine) at done))
      ]

  -- A task that is prepared has the path of the file for its image in its annotations.
  pub prepare_annotates :
      (ip : ImagePreparer) (task : Task) (container : Container) (w : W)
      → get_container task.spec ≡ ok container
      → (prepare s ip task w).0 ≡ none
      → lookup "rootfs" (prepare s ip task w).1.annotations
        ≡ some (s.spell (rootfs_path s ip container))
  unfolding prepare
  prepare_annotates ip task container w found done =
      elim (Bool-cases ((s.goarch == "amd64") || (s.goarch == "arm64"))) [
        | inr other ↦ cc (rw (prepare, found, other) at done)
        | inl fits ↦
            let path = rootfs_path s ip container in
            elim (Bool-cases (verify_cached_rootfs s path w)) [
              | inl cached ↦ rw (prepare, found, fits, cached) (annotated (s.spell path) task)
              | inr absent ↦
                  rw (prepare, found, fits, absent)
                    (make_rootfs_annotates ip task container path w
                      (rw (prepare, found, fits, absent) at done))
            ]
      ]

  -- If a task has been prepared, and another one's image gets the same identifier, and the file is
  -- there and passes the check, then the other task is given the file of the first, and nothing is
  -- done: neither its mounts nor its secrets and configs are applied.
  pub prepare_shares :
      (ip : ImagePreparer) (task other : Task) (container other_container : Container) (w w' : W)
      → get_container task.spec ≡ ok container
      → get_container other.spec ≡ ok other_container
      → (prepare s ip task w).0 ≡ none
      → generate_image_id (code_points container.image)
        ≡ generate_image_id (code_points other_container.image)
      → verify_cached_rootfs s (rootfs_path s ip container) w' ≡ true
      → (s.goarch == "amd64") || (s.goarch == "arm64") ≡ true
      → let rootfs = s.spell (rootfs_path s ip container) in
        (lookup "rootfs" (prepare s ip task w).1.annotations ≡ some rootfs)
        × (prepare s ip other w' ≡ (none, annotate "rootfs" rootfs other, ip, w'))
  unfolding prepare
  prepare_shares ip task other container other_container w w' found known done same cached fits =
      let one_path : rootfs_path s ip other_container ≡ rootfs_path s ip container =
        ap (λ (id : Text). s.join_path ip.config.rootfs_dir (id ++ code_points ".ext4"))
          (sym same) in
      let there : verify_cached_rootfs s (rootfs_path s ip other_container) w' ≡ true =
        ap (λ (path : Text). verify_cached_rootfs s path w') one_path ∙ cached in
      (
        prepare_annotates ip task container w found done,
        rw (prepare, known, fits, there) (rw one_path refl),
      )
