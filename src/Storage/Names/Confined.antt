-- ===== src/Storage/Names/Confined.antt =====
-- pkg/storage/volume.go, sanitizeVolumeName: where the directory of a volume lies.
use swarm_cracker.Prelude.{
  ℕ, [], ◌∷◌, Bool, true, false, not, nat_eq, ◌==◌, ◌≡◌, ◌≢◌, refl, arith, Bool-cases, inl, inr,
}
use swarm_cracker.Image.Text.{Text, is_empty, replace_all}
use swarm_cracker.Storage.Volume.{contains_char}
use swarm_cracker.Storage.Names.{
  replace_dots, is_trimmed, trim_left, trim_right, trim_step, replaced, sanitize_volume_name,
}

-- A replaced character is gone, and no other one comes in but the underscore.
replace_all_gone :
    (s : Text) (old : ℕ)
    → (old == 95) ≡ false
    → contains_char (replace_all s old (95 ∷ [])) old ≡ false
unfolding replace_all
replace_all_gone [] old h = refl
replace_all_gone (c ∷ cs) old h = ground (arith, h, replace_all_gone cs old h)

replace_all_kept :
    (s : Text) (old c : ℕ)
    → (c == 95) ≡ false
    → contains_char s c ≡ false
    → contains_char (replace_all s old (95 ∷ [])) c ≡ false
unfolding replace_all
replace_all_kept [] old c h plain = refl
replace_all_kept (d ∷ ds) old c h plain = ground (arith, h, plain, replace_all_kept ds old c h)

replace_dots_kept :
    (s : Text) → contains_char s 47 ≡ false → contains_char (replace_dots s) 47 ≡ false
unfolding replace_dots
replace_dots_kept [] plain = refl
replace_dots_kept (c ∷ []) plain = plain
replace_dots_kept (c ∷ d ∷ rest) plain =
    ground (arith, plain, replace_dots_kept rest, replace_dots_kept (d ∷ rest))

trim_left_kept : (s : Text) → contains_char s 47 ≡ false → contains_char (trim_left s) 47 ≡ false
unfolding trim_left
trim_left_kept [] plain = refl
trim_left_kept (c ∷ cs) plain = ground (arith, plain, trim_left_kept cs)

trim_step_kept :
    (c : ℕ) (r : Text)
    → (c == 47) ≡ false
    → contains_char r 47 ≡ false
    → contains_char (trim_step c r) 47 ≡ false
trim_step_kept c [] h plain = ground (arith, h)
trim_step_kept c (d ∷ ds) h plain = ground (arith, h, plain)

trim_right_kept : (s : Text) → contains_char s 47 ≡ false → contains_char (trim_right s) 47 ≡ false
unfolding trim_right
trim_right_kept [] plain = refl
trim_right_kept (c ∷ cs) plain =
    trim_step_kept c (trim_right cs) (ground (arith, plain))
      (trim_right_kept cs (ground (arith, plain)))

-- A trimmed text does not end in a dot.
abbrev ends_well : Text → Bool
ends_well [] = true
ends_well (c ∷ []) = not (is_trimmed c)
ends_well (c ∷ d ∷ rest) = ends_well (d ∷ rest)

trim_step_ends : (c : ℕ) (r : Text) → ends_well r ≡ true → ends_well (trim_step c r) ≡ true
trim_step_ends c [] h = ground arith
trim_step_ends c (d ∷ ds) h = h

trim_right_ends : (s : Text) → ends_well (trim_right s) ≡ true
unfolding trim_right
trim_right_ends [] = refl
trim_right_ends (c ∷ cs) = trim_step_ends c (trim_right cs) (trim_right_ends cs)

replaced_plain : (name : Text) → contains_char (replaced name) 47 ≡ false
replaced_plain name = replace_all_kept _ 58 47 refl (
    replace_dots_kept _
      (replace_all_kept (replace_all name 47 (95 ∷ [])) 92 47 refl (replace_all_gone name 47 refl)))

ends_apart : (s t : Text) → ends_well s ≡ true → ends_well t ≡ false → s ≢ t
ends_apart s t good bad same = cc (rw same at good)

-- The directory of a volume is one component below the volumes' directory, whatever its name: it is
-- not empty, has no slash in it, and is neither the directory itself nor its parent.
pub sanitize_volume_name_component :
    (name : Text)
    → (is_empty (sanitize_volume_name name) ≡ false)
      × (contains_char (sanitize_volume_name name) 47 ≡ false)
      × (sanitize_volume_name name ≢ 46 ∷ [])
      × (sanitize_volume_name name ≢ 46 ∷ 46 ∷ [])
unfolding sanitize_volume_name
sanitize_volume_name_component name =
    let trimmed = trim_right (trim_left (replaced name)) in
    elim (Bool-cases (is_empty trimmed)) [
      | inl gone ↦ rw (sanitize_volume_name, gone) (refl, refl, (λ h. cc), (λ h. cc))
      | inr kept ↦
          rw (sanitize_volume_name, kept)
            (
              kept,
              trim_right_kept _ (trim_left_kept _ (replaced_plain name)),
              ends_apart trimmed (46 ∷ []) (trim_right_ends _) refl,
              ends_apart trimmed (46 ∷ 46 ∷ []) (trim_right_ends _) refl,
            )
    ]
