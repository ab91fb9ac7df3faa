-- ===== src/Image/Tar/Confined.antt =====
-- pkg/image/preparer.go, extractTarStream: which paths the extraction writes to.
use mathlib.Core.Path.{subst}
use mathlib.Core.List.{append_assoc}
use swarm_cracker.Prelude.{
  ℕ, List, [], ◌∷◌, ◌++◌, true, false, some, nat_eq, ◌==◌, Result, ok, err, ◌≡◌, ◌⊎◌, refl, ap, ◌∙◌,
  ◌%◌, arith, All, Bool-cases, Option-cases, inl, inr,
}
use swarm_cracker.Swarmkit.Controller.{GoError}
use swarm_cracker.Image.Text.{Text, text_eq}
use swarm_cracker.Storage.Volume.{has_prefix}
use swarm_cracker.Translator.Boot.{split}
use swarm_cracker.Translator.Boot.Words.{split-append}
use swarm_cracker.Image.Tar.{
  clean, join_path, parent, target_of, Files, Entry, EntryType, directory, regular, symlink,
  hard_link, global_header, other_type, write_regular, extract_entry, extract_one,
  extract_tar_stream,
}
use swarm_cracker.Image.Tar.Cleaning.{clean-clean, split-clean}

-- The path has the components of the cleaned directory, then others, and no parent directory.
abbrev pub IsInside : Text → Text → Type 0
IsInside dest path =
    (rest : Text) × (split 47 path ≡ split 47 (clean dest) ++ split 47 rest)
    × All (λ t. text_eq t (46 ∷ 46 ∷ []) ≡ false) (split 47 path)

trim_prefix_lem :
    (s prefix : Text) → has_prefix s prefix ≡ true → (rest : Text) × (s ≡ prefix ++ rest)
trim_prefix_lem s [] h = (s, refl)
trim_prefix_lem [] (p ∷ ps) h = cc
trim_prefix_lem (c ∷ cs) (p ∷ ps) h = elim (Bool-cases (c == p)) [
  | inr other ↦ cc (rw (has_prefix, other) at h)
  | inl same ↦
      let (rest, e) = trim_prefix_lem cs ps (rw (has_prefix, same) at h) in
      (rest, ground (arith, same, e))
]

within :
    (dest path : Text)
    → has_prefix (clean path) (clean dest ++ 47 ∷ []) ≡ true
    → IsInside dest (clean path)
within dest path inside =
    let (rest, e) = trim_prefix_lem (clean path) (clean dest ++ 47 ∷ []) inside in
    (
      rest,
      ap (split 47) (e ∙ append_assoc (clean dest) (47 ∷ []) rest)
          ∙ split-append 47 (clean dest) rest,
      split-clean path,
    )

target_of-IsInside :
    (dest name target : Text) → target_of dest name ≡ some target → IsInside dest target
unfolding target_of join_path
target_of-IsInside dest name target found =
    let whole = dest ++ 47 ∷ name in
    elim (Bool-cases (has_prefix (clean (clean whole)) (clean dest ++ 47 ∷ []))) [
      | inr outside ↦ cc (rw (target_of, outside) at found)
      | inl inside ↦
          let e : clean whole ≡ target = cc (rw (target_of, inside) at found) in
          subst (IsInside dest) e (within dest whole (rw (clean-clean whole) at inside))
    ]

-- A path that the extraction may write to: one inside the directory, or the directory of one.
abbrev pub IsAllowed : Text → Text → Type 0
IsAllowed dest path =
    IsInside dest path ⊎ ((below : Text) × IsInside dest below × (path ≡ parent below))

-- The two file systems do the same at the paths that are allowed. What a link points to is free.
pub record Agree {W : Type 0} (dest : Text) (f g : Files W) : Type 0 where
  pub dirs :
      (path : Text) (mode : ℕ) (w : W)
      → IsAllowed dest path
      → f.make_dirs path mode w ≡ g.make_dirs path mode w
  pub files :
      (path : Text) (mode : ℕ) (contents : List ℕ) (w : W)
      → IsAllowed dest path
      → f.write_file path mode contents w ≡ g.write_file path mode contents w
  pub symlinks :
      (link path : Text) (w : W)
      → IsAllowed dest path
      → f.make_symlink link path w ≡ g.make_symlink link path w
  pub links :
      (link path : Text) (w : W)
      → IsAllowed dest path
      → f.make_link link path w ≡ g.make_link link path w

module _ {W : Type 0} (dest : Text) (f g : Files W) (agree : Agree dest f g) where
  extract_entry_agrees :
      (target : Text) (e : Entry) (kind : EntryType) (w : W)
      → IsInside dest target
      → extract_entry f dest target e kind w ≡ extract_entry g dest target e kind w
  extract_entry_agrees target e directory w inside =
      rw (agree.dirs target (e.mode % 512) w (inl inside)) refl
  extract_entry_agrees target e regular w inside =
      let holder : f.make_dirs (parent target) 493 w ≡ g.make_dirs (parent target) 493 w =
        agree.dirs (parent target) 493 w (inr (target, inside, refl)) in
      elim (Option-cases (g.make_dirs (parent target) 493 w).0) [
        | inr (failure, bad) ↦ rw (write_regular, holder, bad) (rw holder refl)
        | inl made ↦
            rw (write_regular, holder, made)
              (rw
                (
                  holder,
                  agree.files target (e.mode % 512) e.contents (g.make_dirs (parent target) 493 w).1
                      (inl inside),
                )
                refl)
      ]
  extract_entry_agrees target e symlink w inside =
      rw (agree.symlinks e.link_name target w (inl inside)) refl
  extract_entry_agrees target e hard_link w inside =
      rw (agree.links (join_path dest e.link_name) target w (inl inside)) refl
  extract_entry_agrees target e global_header w inside = refl
  extract_entry_agrees target e other_type w inside = refl

  extract_one_agrees : (e : Entry) (w : W) → extract_one f dest e w ≡ extract_one g dest e w
  extract_one_agrees e w = elim (Option-cases (target_of dest e.name)) [
    | inl none_there ↦ rw (extract_one, none_there) refl
    | inr (target, found) ↦
        rw (extract_one, found)
          (extract_entry_agrees target e e.entry_type w
            (target_of-IsInside dest e.name target found))
  ]

  extract_tar_stream_agrees :
      (entries : List (Result GoError Entry)) (w : W)
      → extract_tar_stream f dest entries w ≡ extract_tar_stream g dest entries w
  unfolding extract_tar_stream
  extract_tar_stream_agrees [] w = refl
  extract_tar_stream_agrees (err e ∷ rest) w = refl
  extract_tar_stream_agrees (ok e ∷ rest) w = elim (Option-cases (extract_one g dest e w).0) [
    | inr (reason, bad) ↦
        rw (extract_tar_stream, extract_one_agrees e w, bad) (rw (extract_one_agrees e w) refl)
    | inl fine ↦
        rw (extract_tar_stream, extract_one_agrees e w, fine)
          (rw (extract_one_agrees e w) (extract_tar_stream_agrees rest (extract_one g dest e w).1))
  ]

-- On two file systems that do the same at the paths inside the destination, and at the directories of
-- such paths, the extraction of any archive gives the same error and the same result. So no path outside
-- is made or written by its name; what links point to is not restricted.
pub extract_tar_stream_confined :
    {W : Type 0} (dest : Text) (f g : Files W) (entries : List (Result GoError Entry)) (w : W)
    → Agree dest f g
    → extract_tar_stream f dest entries w ≡ extract_tar_stream g dest entries w
extract_tar_stream_confined dest f g entries w agree =
    extract_tar_stream_agrees dest f g agree entries w
