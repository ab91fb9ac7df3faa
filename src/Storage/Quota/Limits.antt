-- ===== src/Storage/Quota/Limits.antt =====
-- What the quota checks accept, and what trimming a directory leaves.
use swarm_cracker.Prelude.{
  ℕ, ◌+◌, ◌-◌, ◌*◌, ◌^◌, ◌≤◌, ◌<◌, ◌≡◌, ◌↔◌, ◌⊎◌, inl, inr, refl, ap, List, [], ◌∷◌, true, false,
  some, ok, ltb, leb, arith, is_ok, Bool-cases, ℤ, pos, to_int64, if◌then◌else◌, String,
}
use swarm_cracker.Storage.Quota.{
  FileInfo, DirEntry, check_sync, regular_files, within, trim, enforce_dir_limit,
}

-- Measured data is accepted under a positive limit exactly if it is less than one megabyte above
-- the limit.
pub check_sync-is_ok :
    (volume : String) (used limit : ℕ)
    → 0 < limit
    → (is_ok (check_sync volume (some used) (pos limit)) ≡ true) ↔ (used < (limit + 1) * 1048576)
unfolding check_sync
check_sync-is_ok volume used limit h = ground arith

abbrev pub total : List FileInfo → ℕ
total [] = 0
total (f ∷ rest) = f.size + total rest

-- The files that can be removed.
unfoldable pub removable_files : List FileInfo → List FileInfo
removable_files [] = []
removable_files (f ∷ rest) =
    let others = removable_files rest in if f.removable then f ∷ others else others

-- Trimming stops at the limit, or removes each file that can be removed.
trim_lem :
    (limit : ℤ) (used : ℕ) (files : List FileInfo)
    → (within (used - total (trim limit used files).0) limit ≡ true)
      ⊎ ((trim limit used files).0 ≡ removable_files files)
unfolding trim removable_files
trim_lem limit used [] = inr refl
trim_lem limit used (f ∷ rest) = elim (Bool-cases (within used limit)) [
  | inl enough ↦
      let nothing : used - 0 ≡ used = omega arith in rw (trim, enough) (inl (rw nothing enough))
  | inr over ↦ elim (Bool-cases f.removable) [
    | inl gone ↦
        let minus : (b c : ℕ) → used - (b + c) ≡ used - b - c = λ b c. omega arith in
        rw (trim, over, gone, minus)
          (elim (trim_lem limit (used - f.size) rest) [
            | inl e ↦ inl e
            | inr e ↦ inr (ap (λ fs. record f { removable = true } ∷ fs) e)
          ])
    | inr stays ↦
        rw (trim, over, stays) (elim (trim_lem limit used rest) [ inl e ↦ inl e | inr e ↦ inr e ])
  ]
]

-- On a directory that can be read, over a positive limit below 2 ^ 43 megabytes, the call succeeds,
-- and what it has removed brings the use down to the limit, or is each regular file that can be
-- removed.
pub enforce_dir_limit_lem :
    (used limit_mb : ℕ) (entries : List DirEntry)
    → 0 < limit_mb
    → limit_mb < 2 ^ 43
    → limit_mb * 1048576 < used
    → (removed : List FileInfo) × (enforce_dir_limit (some used) (some entries) (pos limit_mb)
        ≡ ok removed)
      × ((used ≤ limit_mb * 1048576 + total removed)
          ⊎ (removed ≡ removable_files (regular_files entries)))
unfolding enforce_dir_limit
enforce_dir_limit_lem used limit_mb entries positive fits over =
    let size : limit_mb * 1024 * 1024 ≡ limit_mb * 1048576 = omega arith in
    let exact : to_int64 (limit_mb * 1024 * 1024) ≡ pos (limit_mb * 1048576) =
      rw size (ground (arith, fits)) in
    let positive' : ltb 0 limit_mb ≡ true = ground arith in
    let over' : leb used (limit_mb * 1048576) ≡ false = ground arith in
    let removed = (trim (pos (limit_mb * 1048576)) used (regular_files entries)).0 in
    (
      removed,
      rw (enforce_dir_limit, positive', exact, over') refl,
      elim (trim_lem (pos (limit_mb * 1048576)) used (regular_files entries)) [
        | inl e ↦ inl (ground (arith, e))
        | inr e ↦ inr e
      ],
    )
