-- ===== src/Storage/Quota.antt =====
-- pkg/storage/volume_quota.go: QuotaEnforcer, which has no state. `int` and `int64` are 64 bits
-- wide. What the file system measures is an argument; `none` is a failed measurement.
pub mod Limits
use swarm_cracker.Prelude.{
  ℕ, suc, ◌+◌, ◌-◌, ◌*◌, ◌/◌, ◌%◌, ◌^◌, String, List, [], ◌∷◌, Bool, true, false, Option, none,
  some, Result, ok, err, ltb, leb, if◌then◌else◌, ℤ, pos, negsuc, to_int64,
}

pub record QuotaError : Type 0 where
  pub volume : String
  pub limit_mb : ℤ
  pub current_mb : ℕ

pub data CreateError : Type 0 where
  size_negative size_too_large : CreateError

pub data EnforceError : Type 0 where
  measure_failed read_dir_failed : EnforceError

abbrev pub mega : ℕ
mega = 1024 * 1024

unfoldable pub check_create : ℤ → Result CreateError Unit
check_create (negsuc n) = err size_negative
check_create (pos n) = if ltb mega n then err size_too_large else ok tt

-- A limit of at most 0, and data that cannot be measured, are not checked.
unfoldable pub check_sync : String → Option ℕ → ℤ → Result QuotaError Unit
check_sync volume measured (negsuc n) = ok tt
check_sync volume measured (pos limit) =
    if ltb 0 limit
    then elim measured [
      | none ↦ ok tt
      | some used ↦
          if ltb limit (used / mega)
          then err (record { volume = volume; limit_mb = pos limit; current_mb = used / mega })
          else ok tt
    ]
    else ok tt

-- The source repeats the test, with the default text for the message.
unfoldable pub check_capacity : String → Option ℕ → ℤ → Result QuotaError Unit
unfolding check_sync
check_capacity volume measured limit = check_sync volume measured limit

-- An entry of the directory, with the size that `Info` returns, and whether it can be removed.
pub record DirEntry : Type 0 where
  pub name : String
  pub is_dir : Bool
  pub info : Option ℕ
  pub removable : Bool

pub record FileInfo : Type 0 where
  pub name : String
  pub size : ℕ
  pub removable : Bool

abbrev pub with_size : String → Bool → Option ℕ → List FileInfo → List FileInfo
with_size name removable none rest = rest
with_size name removable (some size) rest =
    record { name = name; size = size; removable = removable } ∷ rest

unfoldable pub regular_files : List DirEntry → List FileInfo
regular_files [] = []
regular_files (e ∷ rest) =
    let files = regular_files rest in
    if e.is_dir then files else with_size e.name e.removable e.info files

-- `usedBytes <= limitBytes`
abbrev pub within : ℕ → ℤ → Bool
within used (pos limit) = leb used limit
within used (negsuc n) = false

-- The loop: the files removed and those left. Below 0 and at 0 `usedBytes` ends it alike.
unfoldable pub trim : ℤ → ℕ → List FileInfo → List FileInfo × List FileInfo
trim limit used [] = ([], [])
trim limit used (f ∷ rest) =
    let removed = trim limit (used - f.size) rest in
    let kept = trim limit used rest in
    if within used limit
    then ([], f ∷ rest)
    else if f.removable
    then (f ∷ removed.0, removed.1)
    else (kept.0, f ∷ kept.1)

-- The files removed, whose number the source returns. The entries are `none` where the directory
-- cannot be read.
unfoldable pub enforce_dir_limit :
    Option ℕ → Option (List DirEntry) → ℤ → Result EnforceError (List FileInfo)
enforce_dir_limit measured entries (negsuc n) = ok []
enforce_dir_limit measured entries (pos limit_mb) =
    if ltb 0 limit_mb
    then elim measured [
      | none ↦ err measure_failed
      | some used ↦
          let limit = to_int64 (limit_mb * 1024 * 1024) in
          if within used limit then ok [] else elim entries [
            | none ↦ err read_dir_failed
            | some all ↦ ok (trim limit used (regular_files all)).0
          ]
    ]
    else ok []
