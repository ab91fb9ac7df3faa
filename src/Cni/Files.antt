-- ===== src/Cni/Files.antt =====
-- pkg/cni/files.go: the removal of a network's configuration. A file name is its bytes, and a
-- directory the names in it; `none` is a directory that does not exist.
pub mod Removal
use swarm_cracker.Prelude.{
  ℕ, zero, suc, ◌+◌, ◌-◌, List, [], ◌∷◌, ◌++◌, Bool, true, false, ◌&&◌, Option, none, some, Result,
  ok, err, ltb, leb, ◌==◌, nat_eq, if◌then◌else◌, length, take, drop, code_points,
}

abbrev pub FileName : Type 0
FileName = List ℕ

pub data FileError : Type 0 where
  remove_conf_failed remove_conflist_failed read_config_dir_failed : FileError
  remove_failed : FileName → FileError

abbrev pub same_name : FileName → FileName → Bool
same_name [] [] = true
same_name [] (d ∷ ds) = false
same_name (c ∷ cs) [] = false
same_name (c ∷ cs) (d ∷ ds) = (c == d) && same_name cs ds

-- The second test compares the last ten bytes with a text of nine.
unfoldable pub base_name : FileName → FileName
base_name filename =
    let n = length filename in
    if ltb 5 n && same_name (drop (n - 5) filename) (code_points ".conf")
    then take (n - 5) filename
    else if ltb 10 n && same_name (drop (n - 10) filename) (code_points ".conflist")
    then take (n - 10) filename
    else filename

-- The index of the first byte that is no digit, counted from `i`.
unfoldable pub prefix_end_from : ℕ → FileName → ℕ
prefix_end_from i [] = 0
prefix_end_from i (c ∷ cs) =
    let later = prefix_end_from (i + 1) cs in
    if ltb c b'0' then i else if ltb b'9' c then i else later

unfoldable pub find_prefix_end : FileName → ℕ
unfolding prefix_end_from
find_prefix_end s = prefix_end_from 0 s

unfoldable pub contains_network_name : FileName → FileName → Bool
contains_network_name filename network_name =
    let base = base_name filename in
    let idx = find_prefix_end base in
    same_name (if ltb 0 idx && ltb idx 4 then drop (idx + 1) base else base) network_name

unfoldable pub is_in : FileName → List FileName → Bool
is_in name [] = false
is_in name (f ∷ rest) = let later = is_in name rest in if same_name f name then true else later

-- `os.Remove`, where it succeeds.
unfoldable pub delete : FileName → List FileName → List FileName
delete name [] = []
delete name (f ∷ rest) =
    let others = delete name rest in if same_name f name then others else f ∷ others

-- The loop. An error ends it.
unfoldable pub remove_matching :
    (FileName → Bool) → FileName → List FileName → Result FileError Unit × List FileName
remove_matching removable name [] = (ok tt, [])
remove_matching removable name (f ∷ rest) =
    let later = remove_matching removable name rest in
    if contains_network_name f name
    then (if removable f then later else (err (remove_failed f), f ∷ rest))
    else (later.0, f ∷ later.1)

abbrev pub conf_name : FileName → FileName
conf_name name = name ++ code_points ".conf"

abbrev pub conflist_name : FileName → FileName
conflist_name name = name ++ code_points ".conflist"

-- Which files can be removed, and whether the directory can be read, is the file system's.
unfoldable pub remove_config_file :
    (FileName → Bool)
    → Bool
    → Option (List FileName)
    → FileName
    → Result FileError Unit × Option (List FileName)
remove_config_file removable readable none name = (ok tt, none)
remove_config_file removable readable (some dir) name =
    if is_in (conf_name name) dir
    then (if removable (conf_name name)
        then (ok tt, some (delete (conf_name name) dir))
        else (err remove_conf_failed, some dir))
    else if is_in (conflist_name name) dir
    then (if removable (conflist_name name)
        then (ok tt, some (delete (conflist_name name) dir))
        else (err remove_conflist_failed, some dir))
    else if readable
    then ((remove_matching removable name dir).0, some (remove_matching removable name dir).1)
    else (err read_config_dir_failed, some dir)
