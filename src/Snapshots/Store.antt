-- ===== src/Snapshots/Store.antt =====
-- pkg/snapshot/snapshot.go: a directory of snapshots, and what listing and removing do to it.

use swarm_cracker.Prelude.{
  String, List, [], ◌∷◌, Bool, true, false, ◌||◌, some, string_eq, ◌==◌, eq_iff, In, ◌≡◌, ◌↔◌, inl,
  inr, refl, sym, ap, ◌∙◌, arith, Bool-cases, Option-cases,
}
use swarm_cracker.Snapshots.{
  load_metadata, SnapshotInfo, SnapshotFilter, SnapshotEntry, listed, collect, without, remove_all,
  remove_from_end,
}

-- The directory of a snapshot is named by its id, and each name stands once.
pub record IsStore (entries : List SnapshotEntry) : Type 0 where
  pub named :
      (entry : SnapshotEntry) (info : SnapshotInfo)
      → In entry entries
      → entry.decoded ≡ some info
      → info.id ≡ entry.name
  pub once : (e f : SnapshotEntry) → In e entries → In f entries → e.name ≡ f.name → e ≡ f

-- A listed snapshot has the id of its metadata.
pub listed-id :
    (dir : String) (filter : SnapshotFilter) (entry : SnapshotEntry) (info : SnapshotInfo)
    → listed dir filter entry ≡ some info
    → (decoded : SnapshotInfo) × (entry.decoded ≡ some decoded) × (info.id ≡ decoded.id)
unfolding listed load_metadata
listed-id dir filter entry info e = elim (Option-cases entry.decoded) [
  | inl missing ↦ absurd (ground (arith, missing, e))
  | inr (decoded, found) ↦ (decoded, found, ground arith)
]

pub mem-collect :
    (dir : String) (filter : SnapshotFilter) (info : SnapshotInfo) (entries : List SnapshotEntry)
    → In info (collect dir filter entries)
    → (entry : SnapshotEntry) × In entry entries × (listed dir filter entry ≡ some info)
unfolding collect
mem-collect dir filter info [] m = absurd m
mem-collect dir filter info (entry ∷ entries) m = elim (Option-cases (listed dir filter entry)) [
  | inl skipped ↦
      let (found, inside, is) = mem-collect dir filter info entries (rw (collect, skipped) at m) in
      (found, inr inside, is)
  | inr (first, shown) ↦ elim (rw (collect, shown) at m) [
    | inl same ↦ (entry, inl refl, shown ∙ ap some (sym same))
    | inr later ↦
        let (found, inside, is) = mem-collect dir filter info entries later in
        (found, inr inside, is)
  ]
]

pub collect-mem :
    (dir : String) (filter : SnapshotFilter) (info : SnapshotInfo) (entry : SnapshotEntry)
    (entries : List SnapshotEntry)
    → In entry entries
    → listed dir filter entry ≡ some info
    → In info (collect dir filter entries)
unfolding collect
collect-mem dir filter info entry [] m e = absurd m
collect-mem dir filter info entry (f ∷ entries) (inl same) e =
    rw (collect, ap (listed dir filter) (sym same) ∙ e) (inl refl)
collect-mem dir filter info entry (f ∷ entries) (inr later) e =
    elim (Option-cases (listed dir filter f)) [
      | inl skipped ↦ rw (collect, skipped) (collect-mem dir filter info entry entries later e)
      | inr (first, shown) ↦
          rw (collect, shown) (inr (collect-mem dir filter info entry entries later e))
    ]

pub In-without :
    (name : String) (entry : SnapshotEntry) (entries : List SnapshotEntry)
    → In entry (without name entries) ↔ (In entry entries × ((entry.name == name) ≡ false))
In-without name entry [] = (λ m. absurd m, λ m. m.0)
In-without name entry (f ∷ entries) =
    let ih = In-without name entry entries in
    elim (Bool-cases (f.name == name)) [
      | inl gone ↦ (
        λ m. let (inside, other) = ih.0 (rw gone at m) in (inr inside, other),
        λ (found, other). rw gone (elim found [
          | inl same ↦ absurd (ground (arith, gone, other, ap (λ (x : SnapshotEntry). x.name) same))
          | inr later ↦ ih.1 (later, other)
        ]),
      )
      | inr stays ↦ (
        λ m. elim (rw stays at m) [
          | inl same ↦ (inl same, ap (λ (x : SnapshotEntry). x.name == name) same ∙ stays)
          | inr later ↦ let (inside, other) = ih.0 later in (inr inside, other)
        ],
        λ (found, other).
            rw stays (elim found [ inl same ↦ inl same | inr later ↦ inr (ih.1 (later, other)) ]),
      )
    ]

-- Whether one of the snapshots has the id.
abbrev pub has_id : String → List SnapshotInfo → Bool
has_id name [] = false
has_id name (info ∷ infos) = (info.id == name) || has_id name infos

pub has_id-In :
    (name : String) (infos : List SnapshotInfo)
    → has_id name infos ≡ true
    → (info : SnapshotInfo) × In info infos × (info.id ≡ name)
has_id-In name [] e = cc
has_id-In name (info ∷ infos) e = elim (Bool-cases (info.id == name)) [
  | inl is ↦ (info, inl refl, (eq_iff info.id name).0 is)
  | inr other ↦
      let (found, inside, is) = has_id-In name infos (ground (arith, other, e)) in
      (found, inr inside, is)
]

pub In-has_id :
    (name : String) (info : SnapshotInfo) (infos : List SnapshotInfo)
    → In info infos
    → info.id ≡ name
    → has_id name infos ≡ true
In-has_id name info [] m is = absurd m
In-has_id name info (first ∷ infos) (inl same) is =
    rw ((eq_iff first.id name).1 (ap (λ (x : SnapshotInfo). x.id) (sym same) ∙ is)) refl
In-has_id name info (first ∷ infos) (inr later) is =
    ground (arith, In-has_id name info infos later is)

pub In-remove_from_end :
    (removable : String → Bool) (entry : SnapshotEntry) (infos : List SnapshotInfo)
    (entries : List SnapshotEntry)
    → ((name : String) → removable name ≡ true)
    → In entry (remove_from_end removable infos entries)
      ↔ (In entry entries × (has_id entry.name infos ≡ false))
unfolding remove_from_end remove_all
In-remove_from_end removable entry [] entries all = (λ m. (m, refl), λ m. m.0)
In-remove_from_end removable entry (info ∷ infos) entries all =
    let ih = In-remove_from_end removable entry infos entries all in
    let out = In-without info.id entry (remove_from_end removable infos entries) in
    rw (all info.id) (
      λ m.
          let (inside, other) = out.0 m in
          let (first, none_later) = ih.0 inside in
          (first, ground (arith, eq_iff info.id entry.name, eq_iff entry.name info.id)),
      λ (inside, none_here). out.1 (
        ih.1 (inside, ground (arith, none_here)),
        ground (arith, none_here, eq_iff info.id entry.name, eq_iff entry.name info.id),
      ),
    )

module _ (dir : String) (filter : SnapshotFilter) (entries : List SnapshotEntry)
    (store : IsStore entries) where
  -- In such a directory the listed snapshots with the name of an entry are the entry's own.
  pub same_snapshot :
      (entry : SnapshotEntry) (info other : SnapshotInfo)
      → In entry entries
      → listed dir filter entry ≡ some info
      → In other (collect dir filter entries)
      → other.id ≡ entry.name
      → other ≡ info
  same_snapshot entry info other inside shown among is =
      let (found, there, reads) = mem-collect dir filter other entries among in
      let (decoded, has, id) = listed-id dir filter found other reads in
      let names : found.name ≡ entry.name =
        sym (store.named found decoded there has) ∙ sym id ∙ is in
      let same = store.once found entry there inside names in
      cc (ap (listed dir filter) same, reads, shown)

  pub listed_name :
      (entry : SnapshotEntry) (info : SnapshotInfo)
      → In entry entries
      → listed dir filter entry ≡ some info
      → info.id ≡ entry.name
  listed_name entry info inside shown =
      let (decoded, has, id) = listed-id dir filter entry info shown in
      id ∙ store.named entry decoded inside has
