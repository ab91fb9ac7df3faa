-- ===== src/Storage/Volume.antt =====
-- pkg/storage/volume.go: which mounts name a volume.
use swarm_cracker.Prelude.{
  ℕ, [], ◌∷◌, Bool, true, false, not, ◌&&◌, ◌||◌, none, some, ◌==◌, nat_eq, code_points,
}
use swarm_cracker.Image.Text.{Text, trim_prefix}

abbrev pub has_prefix : Text → Text → Bool
has_prefix s prefix = elim (trim_prefix s prefix) [ none ↦ false | some rest ↦ true ]

abbrev pub contains_char : Text → ℕ → Bool
contains_char [] wanted = false
contains_char (c ∷ cs) wanted = (c == wanted) || contains_char cs wanted

abbrev pub volume_scheme : Text
volume_scheme = code_points "volume://"

-- 47 is the slash and 46 the dot.
unfoldable pub is_volume_reference : Text → Bool
is_volume_reference source =
    has_prefix source volume_scheme
    || (not (contains_char source 47) && not (has_prefix source (46 ∷ [])))

unfoldable pub extract_volume_name : Text → Text
extract_volume_name source = elim (trim_prefix source volume_scheme) [
  | none ↦ source
  | some name ↦ name
]
