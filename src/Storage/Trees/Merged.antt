-- ===== src/Storage/Trees/Merged.antt =====
-- pkg/storage/volume.go, copyDirectory: what is in the directory after a copy into it.
use mathlib.Core.Path.{subst}
use swarm_cracker.Prelude.{
  ℕ, String, List, [], ◌∷◌, false, ap, Option, none, some, string_eq, ◌==◌, if◌then◌else◌, ◌≡◌,
  refl, arith, eq_iff, beq_refl, ◌∙◌, Bool-cases, inl, inr,
}
use swarm_cracker.Storage.Trees.{
  Tree, file, dir, Entries, nil, entry, get, put, CopyError, followed_by, copy_entries, copy_tree,
}

get-put :
    (written read : String) (tree : Tree) (es : Entries)
    → get read (put written tree es) ≡ (if written == read then some tree else get read es)
unfolding get put
get-put written read tree nil = refl
get-put written read tree (entry name old rest) = ground (
  arith,
  eq_iff written read,
  eq_iff name written,
  eq_iff name read,
  get-put written read tree rest,
)

copy_tree_other :
    (name other : String) (tree : Tree) (there : Option Tree) (dst : Entries)
    → (name == other) ≡ false
    → get other (copy_tree name tree there dst).1 ≡ get other dst
unfolding copy_tree
copy_tree_other name other (file contents) none dst apart = rw (get-put, apart) refl
copy_tree_other name other (file contents) (some (file old)) dst apart = rw (get-put, apart) refl
copy_tree_other name other (file contents) (some (dir es)) dst apart = refl
copy_tree_other name other (dir es) none dst apart = rw (get-put, apart) refl
copy_tree_other name other (dir es) (some (dir ds)) dst apart = rw (get-put, apart) refl
copy_tree_other name other (dir es) (some (file old)) dst apart = refl

followed_by_keeps :
    (other : String) (there : Option Tree) (first : Option CopyError × Entries)
    (next : Entries → Option CopyError × Entries)
    → get other first.1 ≡ there
    → ((dst : Entries) → get other dst ≡ there → get other (next dst).1 ≡ there)
    → get other (followed_by first next).1 ≡ there
followed_by_keeps other there (some e, dst) next kept more = kept
followed_by_keeps other there (none, dst) next kept more = more dst kept

copy_entries_other :
    (src dst : Entries) (other : String)
    → get other src ≡ none
    → get other (copy_entries src dst).1 ≡ get other dst
unfolding copy_entries get
copy_entries_other nil dst other gone = refl
copy_entries_other (entry name tree rest) dst other gone = elim (Bool-cases (name == other)) [
  | inl same ↦ cc (rw (get, same) at gone)
  | inr apart ↦
      let gone' : get other rest ≡ none = rw (get, apart) at gone in
      followed_by_keeps other (get other dst) (copy_tree name tree (get name dst) dst)
        (copy_entries rest) (copy_tree_other name other tree (get name dst) dst apart)
        (λ d kept. copy_entries_other rest d other gone' ∙ kept)
]

-- No name stands twice in the directory, or in one below it.
unfoldable mutual
  pub HasDistinctNames : Entries → Type 0
  HasDistinctNames nil = Unit
  HasDistinctNames (entry name tree rest) =
      ((get name rest ≡ none) × IsDistinctTree tree) × HasDistinctNames rest

  pub IsDistinctTree : Tree → Type 0
  IsDistinctTree (file contents) = Unit
  IsDistinctTree (dir es) = HasDistinctNames es

-- The contents of the file that a path leads to.
unfoldable pub file_in : List String → Option Tree → Option (List ℕ)
file_in path none = none
file_in [] (some (file contents)) = some contents
file_in [] (some (dir es)) = none
file_in (name ∷ path) (some (file contents)) = none
file_in (name ∷ path) (some (dir es)) = file_in path (get name es)

abbrev pub file_at : List String → Entries → Option (List ℕ)
file_at path es = file_in path (some (dir es))

abbrev pub or_else : Option (List ℕ) → Option (List ℕ) → Option (List ℕ)
or_else (some contents) other = some contents
or_else none other = other

followed_by_done :
    (first : Option CopyError × Entries) (next : Entries → Option CopyError × Entries)
    → (followed_by first next).0 ≡ none
    → (first.0 ≡ none) × (followed_by first next ≡ next first.1)
followed_by_done (some e, dst) next done = cc
followed_by_done (none, dst) next done = (refl, refl)

or_else-none : (x : Option (List ℕ)) → or_else x none ≡ x
or_else-none none = refl
or_else-none (some contents) = refl

file_merges :
    (name : String) (contents : List ℕ) (there : Option Tree) (dst : Entries)
    → (copy_tree name (file contents) there dst).0 ≡ none
    → (path : List String)
    → file_in path (get name (copy_tree name (file contents) there dst).1)
      ≡ or_else (file_in path (some (file contents))) (file_in path there)
unfolding copy_tree file_in
file_merges name contents none dst done [] = rw (get-put, beq_refl name) refl
file_merges name contents none dst done (n ∷ path) = rw (get-put, beq_refl name) refl
file_merges name contents (some (file old)) dst done [] = rw (get-put, beq_refl name) refl
file_merges name contents (some (file old)) dst done (n ∷ path) = rw (get-put, beq_refl name) refl
file_merges name contents (some (dir es)) dst done path = cc

mutual
  unfolding copy_tree copy_entries get file_in IsDistinctTree HasDistinctNames

  tree_merges :
      (name : String) (tree : Tree) (there : Option Tree) (dst : Entries)
      → IsDistinctTree tree
      → (copy_tree name tree there dst).0 ≡ none
      → (path : List String)
      → file_in path (get name (copy_tree name tree there dst).1)
        ≡ or_else (file_in path (some tree)) (file_in path there)
  tree_merges name (file contents) there dst distinct done path =
      file_merges name contents there dst done path
  tree_merges name (dir es) none dst distinct done [] = rw (get-put, beq_refl name) refl
  tree_merges name (dir es) none dst distinct done (n ∷ path) =
      rw (get-put, beq_refl name) (entries_merge es nil distinct done n path)
  tree_merges name (dir es) (some (dir ds)) dst distinct done [] = rw (get-put, beq_refl name) refl
  tree_merges name (dir es) (some (dir ds)) dst distinct done (n ∷ path) =
      rw (get-put, beq_refl name) (entries_merge es ds distinct done n path)
  tree_merges name (dir es) (some (file old)) dst distinct done path = cc

  entries_merge :
      (src dst : Entries)
      → HasDistinctNames src
      → (copy_entries src dst).0 ≡ none
      → (name : String) (path : List String)
      → file_in path (get name (copy_entries src dst).1)
        ≡ or_else (file_in path (get name src)) (file_in path (get name dst))
  entries_merge nil dst distinct done name path = refl
  entries_merge (entry n tree rest) dst distinct done name path =
      let first = copy_tree n tree (get n dst) dst in
      let (first_done, after) = followed_by_done first (copy_entries rest) done in
      elim (Bool-cases (n == name)) [
        | inr apart ↦
            rw (after, get, apart)
              (entries_merge rest first.1 distinct.1 (rw after at done) name path
                ∙ ap (λ t. or_else (file_in path (get name rest)) (file_in path t))
                    (copy_tree_other n name tree (get n dst) dst apart))
        | inl same ↦
            let here =
              ap (file_in path) (copy_entries_other rest first.1 n distinct.0.0)
              ∙ tree_merges n tree (get n dst) dst distinct.0.1 first_done path in
            rw (after, get, same)
              (subst
                (λ (m : String).
                  file_in path (get m (copy_entries rest first.1).1)
                  ≡ or_else (file_in path (some tree)) (file_in path (get m dst)))
                ((eq_iff n name).0 same) here)
      ]

-- After a copy that succeeds, if no directory of the source has a name twice, each path leads to the
-- file that it leads to in the source, or, where the source has no file there, to the one that it led
-- to in the destination: what was deleted in a VM is still in the volume after the copy back.
pub copy_entries_merges :
    (src dst : Entries) (path : List String)
    → HasDistinctNames src
    → (copy_entries src dst).0 ≡ none
    → file_at path (copy_entries src dst).1 ≡ or_else (file_at path src) (file_at path dst)
unfolding file_in
copy_entries_merges src dst [] distinct done = refl
copy_entries_merges src dst (name ∷ path) distinct done =
    entries_merge src dst distinct done name path
