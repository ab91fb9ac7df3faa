-- ===== src/Tests/Volumes.antt =====
-- The theorems about the names, trees and drivers of volumes.
use swarm_cracker.Prelude.{[], ◌∷◌, false, none, ◌≡◌, ◌≢◌, refl, code_points}
use swarm_cracker.Image.Text.{is_empty, replace_all}
use swarm_cracker.Storage.Volume.{contains_char}
use swarm_cracker.Storage.Names.{
  sanitize_volume_name, text_keys, trim_right, trim_left, replace_dots,
}
use swarm_cracker.Storage.Names.Confined.{sanitize_volume_name_component}
use swarm_cracker.Storage.Trees.{Entries, nil, entry, file, dir, get, copy_entries}
use swarm_cracker.Storage.Trees.Merged.{HasDistinctNames, file_at, or_else, copy_entries_merges}
use swarm_cracker.Image.Text.{Text}

abbrev upwards : Text
upwards = code_points "../../etc"

sanitize_volume_name_component_example :
    (is_empty (sanitize_volume_name upwards) ≡ false)
    × (contains_char (sanitize_volume_name upwards) 47 ≡ false)
    × (sanitize_volume_name upwards ≢ 46 ∷ [])
    × (sanitize_volume_name upwards ≢ 46 ∷ 46 ∷ [])
sanitize_volume_name_component_example = sanitize_volume_name_component upwards

sanitize_upwards : sanitize_volume_name upwards ≡ code_points "____etc"
unfolding sanitize_volume_name trim_right trim_left replace_all replace_dots
sanitize_upwards = refl

abbrev from_vm : Entries
from_vm = entry "log" (dir (entry "today" (file (1 ∷ 2 ∷ [])) nil)) nil

abbrev in_volume : Entries
in_volume =
    entry "old" (file (3 ∷ []))
      (entry "log" (dir (entry "before" (file (4 ∷ [])) (entry "today" (file (1 ∷ [])) nil))) nil)

copied : (copy_entries from_vm in_volume).0 ≡ none
unfolding copy_entries get
copied = refl

from_vm-distinct : HasDistinctNames from_vm
unfolding HasDistinctNames get
from_vm-distinct = ((refl, ((refl, tt), tt)), tt)

copy_entries_merges_example :
    file_at ("log" ∷ "today" ∷ []) (copy_entries from_vm in_volume).1
    ≡ or_else (file_at ("log" ∷ "today" ∷ []) from_vm) (file_at ("log" ∷ "today" ∷ []) in_volume)
copy_entries_merges_example =
    copy_entries_merges from_vm in_volume ("log" ∷ "today" ∷ []) from_vm-distinct copied
