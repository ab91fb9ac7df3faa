-- ===== src/Image/Detector/Scratch.antt =====
-- pkg/image: images without a shell.
use swarm_cracker.Prelude.{
  String, List, [], ◌∷◌, Bool, true, false, none, some, string_eq, ◌≡◌, ◌≢◌, refl, arith,
  Option-cases, inl, inr, In, ◌⊎◌,
}
use swarm_cracker.Image.Detector.{
  Root, Found, found, missing, failed, is_missing, is_found, all_artifacts, is_scratch,
  detect_init_type, scratch, sh_missing, validate_critical_symlinks,
}

-- What is relied on of the file system: where a shell is found, the directory that holds it is found
-- and listed, and what is not found is missing.
pub record IsTree (r : Root) : Type 0 where
  pub bin_there : is_found (r.lstat "bin/sh") ≡ true → is_missing (r.stat "bin") ≡ false
  pub bin_listed :
      (entries : List String)
      → is_found (r.lstat "bin/sh") ≡ true
      → r.read_dir ≡ some entries
      → In "bin" entries
  pub sh_readable : (e : String) → r.lstat "bin/sh" ≢ failed e

bin_no_artifact : (entries : List String) → In "bin" entries → all_artifacts entries ≡ false
bin_no_artifact [] h = absurd h
bin_no_artifact (name ∷ names) (inl same) = rw (← same) refl
bin_no_artifact (name ∷ names) (inr later) = ground (arith, bin_no_artifact names later)

abbrev all_artifacts_or_none : Root → Bool
all_artifacts_or_none r = elim r.read_dir [ none ↦ false | some entries ↦ all_artifacts entries ]

detected_scratch : (r : Root) → is_scratch r ≡ false → detect_init_type r ≢ scratch
unfolding detect_init_type
detected_scratch r full = rw (detect_init_type, full) (ground arith)

not_scratch :
    (r : Root)
    → all_artifacts_or_none r ≡ false
    → is_missing (r.stat "bin") ≡ false
    → is_scratch r ≡ false
unfolding is_scratch
not_scratch r listed there = elim (Option-cases r.read_dir) [
  | inl unread ↦ rw (is_scratch, unread) refl
  | inr (entries, read) ↦ rw (is_scratch, read) (rw ((rw read at listed), there) (ground arith))
]

Found-cases : (x : Found) → (x ≡ missing) ⊎ (((e : String) × (x ≡ failed e)) ⊎ (is_found x ≡ true))
Found-cases missing = inl refl
Found-cases (failed e) = inr (inl (e, refl))
Found-cases (found info) = inr (inr refl)

listed_lem :
    (r : Root) → IsTree r → is_found (r.lstat "bin/sh") ≡ true → all_artifacts_or_none r ≡ false
listed_lem r tree there = elim (Option-cases r.read_dir) [
  | inl unread ↦ rw unread refl
  | inr (entries, read) ↦ rw read (bin_no_artifact entries (tree.bin_listed entries there read))
]

-- A tree that is detected as "scratch" has no shell, so that the check of the critical links refuses it.
pub scratch_refused :
    (r : Root)
    → IsTree r
    → detect_init_type r ≡ scratch
    → validate_critical_symlinks r ≡ some sh_missing
unfolding validate_critical_symlinks
scratch_refused r tree detected = elim (Found-cases (r.lstat "bin/sh")) [
  | inl gone ↦ rw (validate_critical_symlinks, gone) refl
  | inr (inl (e, bad)) ↦ absurd (tree.sh_readable e bad)
  | inr (inr there) ↦
      let full = not_scratch r (listed_lem r tree there) (tree.bin_there there) in
      absurd (detected_scratch r full detected)
]
