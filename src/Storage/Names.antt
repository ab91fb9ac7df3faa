-- ===== src/Storage/Names.antt =====
-- pkg/storage/volume.go, sanitizeVolumeName: the directory of a volume. 47 is the slash, 92 the backslash,
-- 46 the dot, 58 the colon, 95 the underscore and 32 the space.
pub mod Confined
use swarm_cracker.Prelude.{
  ℕ, List, [], ◌∷◌, ◌++◌, Bool, true, false, not, ◌&&◌, ◌||◌, nat_eq, ◌==◌, if◌then◌else◌,
  code_points, Eq, ◌≡◌, ◌↔◌, refl, arith,
}
use swarm_cracker.Image.Text.{Text, text_eq, is_empty, replace_all}

pub text_eq_iff : (s t : Text) → (text_eq s t ≡ true) ↔ (s ≡ t)
text_eq_iff [] [] = ground arith
text_eq_iff [] (d ∷ ds) = ground arith
text_eq_iff (c ∷ cs) [] = ground arith
text_eq_iff (c ∷ cs) (d ∷ ds) = ground (arith, text_eq_iff cs ds)

instance abbrev pub text_keys : Eq Text
text_keys = record { same = text_eq; same_iff = text_eq_iff }

-- strings.ReplaceAll of two dots; a dot that is left over stays.
unfoldable pub replace_dots : Text → Text
replace_dots [] = []
replace_dots (c ∷ []) = c ∷ []
replace_dots (c ∷ d ∷ rest) =
    let after = replace_dots rest in
    let next = replace_dots (d ∷ rest) in if (c == 46) && (d == 46) then 95 ∷ after else c ∷ next

abbrev pub is_trimmed : ℕ → Bool
is_trimmed c = (c == 46) || (c == 32)

-- The two ends of strings.Trim.
unfoldable pub trim_left : Text → Text
trim_left [] = []
trim_left (c ∷ cs) = let rest = trim_left cs in if is_trimmed c then rest else c ∷ cs

abbrev pub trim_step : ℕ → Text → Text
trim_step c [] = if is_trimmed c then [] else c ∷ []
trim_step c (d ∷ ds) = c ∷ d ∷ ds

unfoldable pub trim_right : Text → Text
trim_right [] = []
trim_right (c ∷ cs) = trim_step c (trim_right cs)

abbrev pub replaced : Text → Text
replaced name =
    replace_all (replace_dots (replace_all (replace_all name 47 (95 ∷ [])) 92 (95 ∷ []))) 58
      (95 ∷ [])

unfoldable pub sanitize_volume_name : Text → Text
sanitize_volume_name name =
    let trimmed = trim_right (trim_left (replaced name)) in
    if is_empty trimmed then code_points "unnamed" else trimmed
