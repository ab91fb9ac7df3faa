-- ===== src/Cni/Files/Removal.antt =====
-- pkg/cni/files.go: what `RemoveConfigFile` leaves in the directory.
use swarm_cracker.Prelude.{
  List, [], ◌∷◌, Bool, false, ◌≡◌, refl, none, some, ok, arith, Bool-cases, inl, inr, Option,
}
use swarm_cracker.Cni.Files.{
  FileName, is_in, delete, remove_matching, conf_name, conflist_name, remove_config_file,
}

is_in-delete :
    (f g : FileName) (dir : List FileName) → is_in f dir ≡ false → is_in f (delete g dir) ≡ false
unfolding is_in delete
is_in-delete f g [] h = refl
is_in-delete f g (x ∷ dir) h = ground (arith, is_in-delete f g dir)

is_in-delete_self : (f : FileName) (dir : List FileName) → is_in f (delete f dir) ≡ false
unfolding is_in delete
is_in-delete_self f [] = refl
is_in-delete_self f (x ∷ dir) = ground (arith, is_in-delete_self f dir)

is_in-remove_matching :
    (removable : FileName → Bool) (name f : FileName) (dir : List FileName)
    → is_in f dir ≡ false
    → is_in f (remove_matching removable name dir).1 ≡ false
unfolding is_in remove_matching
is_in-remove_matching removable name f [] h = refl
is_in-remove_matching removable name f (x ∷ dir) h =
    ground (arith, is_in-remove_matching removable name f dir)

abbrev pub files : Option (List FileName) → List FileName
files none = []
files (some dir) = dir

-- If `RemoveConfigFile` succeeds the `.conf` file of the network is not in the directory, and a file
-- that was not in the directory still is not.
pub remove_config_file_lem :
    (removable : FileName → Bool) (readable : Bool) (dir : List FileName) (name : FileName)
    → (remove_config_file removable readable (some dir) name).0 ≡ ok tt
    → (is_in (conf_name name) (files (remove_config_file removable readable (some dir) name).1)
        ≡ false)
      × ((f : FileName)
          → is_in f dir ≡ false
          → is_in f (files (remove_config_file removable readable (some dir) name).1) ≡ false)
unfolding remove_config_file
remove_config_file_lem removable readable dir name done =
    elim (Bool-cases (is_in (conf_name name) dir)) [
      | inl conf ↦ elim (Bool-cases (removable (conf_name name))) [
        | inl free ↦
            rw (remove_config_file, conf, free)
              (is_in-delete_self (conf_name name) dir, λ f. is_in-delete f (conf_name name) dir)
        | inr held ↦ cc (rw (remove_config_file, conf, held) at done)
      ]
      | inr no_conf ↦ elim (Bool-cases (is_in (conflist_name name) dir)) [
        | inl conflist ↦ elim (Bool-cases (removable (conflist_name name))) [
          | inl free ↦
              let kept = λ (f : FileName). is_in-delete f (conflist_name name) dir in
              rw (remove_config_file, no_conf, conflist, free) (kept (conf_name name) no_conf, kept)
          | inr held ↦ cc (rw (remove_config_file, no_conf, conflist, held) at done)
        ]
        | inr no_conflist ↦ elim (Bool-cases readable) [
          | inl read ↦
              let kept = λ (f : FileName). is_in-remove_matching removable name f dir in
              rw (remove_config_file, no_conf, no_conflist, read)
                (kept (conf_name name) no_conf, kept)
          | inr unread ↦ cc (rw (remove_config_file, no_conf, no_conflist, unread) at done)
        ]
      ]
    ]
