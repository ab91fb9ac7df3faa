-- ===== src/Swarmkit/Translator/Paths.antt =====
-- pkg/swarmkit/translator.go, validateTaskID: where the path of an accepted task lies.
use mathlib.Core.Path.{subst}
use swarm_cracker.Prelude.{
  ℕ, List, [], ◌∷◌, ◌++◌, false, none, lookup, string_eq, nat_eq, ◌==◌, ok, if◌then◌else◌, ◌≡◌,
  Option, some, Option-cases, String, refl, ap, ◌∙◌, arith, code_points, Bool-cases, inl, inr,
}
use swarm_cracker.Image.Text.{Text}
use swarm_cracker.Storage.Volume.{contains_char}
use swarm_cracker.Types.{Task}
use swarm_cracker.Swarmkit.Translator.{
  validate_task_id, get_rootfs_path, default_rootfs_dir, TaskTranslator, VmConfig, translate,
  translate-config_for,
}

abbrev push : ℕ → List Text → List Text
push c [] = (c ∷ []) ∷ []
push c (t ∷ ts) = (c ∷ t) ∷ ts

-- The components of a path, between its slashes.
abbrev pub components : Text → List Text
components [] = [] ∷ []
components (c ∷ cs) = let rest = components cs in if c == 47 then [] ∷ rest else push c rest

pub components_nonempty : (s : Text) → (t : Text) × (ts : List Text) × (components s ≡ t ∷ ts)
components_nonempty [] = ([], [], refl)
components_nonempty (c ∷ cs) =
    let (t, ts, e) = components_nonempty cs in
    elim (Bool-cases (c == 47)) [
      | inl slash ↦ ([], components cs, rw slash refl)
      | inr other ↦ (c ∷ t, ts, rw (other, e) refl)
    ]

components_join :
    (dir name : Text) → components (dir ++ 47 ∷ name) ≡ components dir ++ components name
components_join [] name = refl
components_join (c ∷ cs) name =
    let ih = components_join cs name in
    let (t, ts, e) = components_nonempty cs in
    elim (Bool-cases (c == 47)) [
      | inl slash ↦ rw slash (ap (λ x. [] ∷ x) ih)
      | inr other ↦ rw (other, ih, e) refl
    ]

components_plain : (name : Text) → contains_char name 47 ≡ false → components name ≡ name ∷ []
components_plain [] plain = refl
components_plain (c ∷ cs) plain = elim (Bool-cases (c == 47)) [
  | inl slash ↦ absurd (ground (arith, slash, plain))
  | inr other ↦ rw (other, components_plain cs (ground (arith, other, plain))) refl
]

contains_char-append :
    (a b : Text) (c : ℕ)
    → contains_char a c ≡ false
    → contains_char b c ≡ false
    → contains_char (a ++ b) c ≡ false
contains_char-append [] b c ha hb = hb
contains_char-append (x ∷ xs) b c ha hb = ground (arith, contains_char-append xs b c)

accepted_plain : (id : Text) → validate_task_id id ≡ none → contains_char id 47 ≡ false
unfolding validate_task_id
accepted_plain id fine = ground arith

-- The path of the drive, if the task brings one: the same; otherwise the components of the default
-- directory and then one more, which is the identifier of the task with the suffix `.ext4`.
abbrev pub IsPathOf : Task → Option String → Text → Type 0
IsPathOf task (some given) path = path ≡ code_points given
IsPathOf task none path =
    components path
    ≡ components default_rootfs_dir ++ (code_points task.id ++ code_points ".ext4") ∷ []

default_inside :
    (task : Task)
    → validate_task_id (code_points task.id) ≡ none
    → IsPathOf task (lookup "rootfs" task.annotations) (get_rootfs_path task)
unfolding get_rootfs_path
default_inside task fine = elim (Option-cases (lookup "rootfs" task.annotations)) [
  | inr (given, found) ↦ rw (get_rootfs_path, found) refl
  | inl missing ↦
      let name = code_points task.id ++ code_points ".ext4" in
      let plain =
        contains_char-append (code_points task.id) (code_points ".ext4") 47
          (accepted_plain (code_points task.id) fine) refl in
      rw (get_rootfs_path, missing)
        (components_join default_rootfs_dir name
          ∙ ap (λ x. components default_rootfs_dir ++ x) (components_plain name plain))
]

-- The drive of a translated task is at the path that its annotations give, as it stands, or, for a task
-- that has none, at a path with the components of the default directory and exactly one more, which is
-- the identifier of the task with the suffix `.ext4`.
pub translate_inside :
    (decimal : ℕ → Text) (hex_sha256 : Text → Text) (t : TaskTranslator) (task : Task)
    (config : VmConfig)
    → translate decimal hex_sha256 t task ≡ ok config
    → IsPathOf task (lookup "rootfs" task.annotations) config.path_on_host
translate_inside decimal hex_sha256 t task config done =
    let (fine, same) = translate-config_for decimal hex_sha256 t task config done in
    subst (λ (c : VmConfig). IsPathOf task (lookup "rootfs" task.annotations) c.path_on_host) same
      (default_inside task fine)
