-- ===== src/Image/Preparer/Scratch.antt =====
-- pkg/image/preparer.go, prepareImage: images without a shell.
use swarm_cracker.Prelude.{none, some, ok, ◌≡◌}
use swarm_cracker.Image.Text.{Text}
use swarm_cracker.Image.Detector.{detect_init_type, scratch, sh_missing}
use swarm_cracker.Image.Detector.Scratch.{IsTree, scratch_refused}
use swarm_cracker.Image.Preparer.{
  ImagePreparer, System, symlinks_invalid, extract_oci_image, fill_dir, build_rootfs, prepare_image,
}

-- An image whose extracted directory is detected as "scratch" is not prepared: after the extraction the
-- directory is removed, and nothing else is done, so that the shell and the init system that such an
-- image lacks are never injected.
pub prepare_image_scratch :
    {W : Type 0} (s : System W) (image_ref image_id output dir : Text) (ip ip' : ImagePreparer)
    (w w₁ w₂ : W)
    → s.make_temp w ≡ (ok dir, w₁)
    → s.check_manifest image_ref w₁ ≡ none
    → extract_oci_image s image_ref dir ip w₁ ≡ (none, ip', w₂)
    → IsTree (s.view dir w₂)
    → detect_init_type (s.view dir w₂) ≡ scratch
    → prepare_image s image_ref image_id output ip w
      ≡ (some (symlinks_invalid sh_missing), ip', s.remove_all dir w₂)
unfolding prepare_image
prepare_image_scratch s image_ref image_id output dir ip ip' w w₁ w₂ made fits extracted tree
      detected =
    let refused = scratch_refused (s.view dir w₂) tree detected in
    simp (prepare_image, fill_dir, build_rootfs, made, fits, extracted, refused)
