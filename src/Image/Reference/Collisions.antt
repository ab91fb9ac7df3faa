-- ===== src/Image/Reference/Collisions.antt =====
-- pkg/image/preparer.go, generateImageID: images whose root file systems have one name.
use swarm_cracker.Prelude.{
  ℕ, [], ◌∷◌, ◌++◌, false, none, some, nat_eq, ◌≡◌, ◌≢◌, refl, ap, arith, beq_refl,
}
use swarm_cracker.Image.Text.{Text, replace_all}
use swarm_cracker.Storage.Volume.{contains_char}
use swarm_cracker.Image.Reference.{cut_last, generate_image_id}

cut_last_plain : (tag : Text) (sep : ℕ) → contains_char tag sep ≡ false → cut_last tag sep ≡ none
unfolding cut_last
cut_last_plain [] sep plain = refl
cut_last_plain (c ∷ cs) sep plain =
    rw (cut_last, cut_last_plain cs sep (ground (arith, plain))) (ground (arith, plain))

cut_last-append :
    (name tag : Text) (sep : ℕ)
    → contains_char tag sep ≡ false
    → cut_last (name ++ sep ∷ tag) sep ≡ some (name, tag)
unfolding cut_last
cut_last-append [] tag sep plain = rw (cut_last, cut_last_plain tag sep plain, beq_refl) refl
cut_last-append (c ∷ cs) tag sep plain = rw (cut_last, cut_last-append cs tag sep plain) refl

-- Two references that are not empty before their tags, and differ there only in that one has slashes
-- where the other has hyphens, get the same identifier.
pub generate_image_id_collides :
    (name other tag : Text)
    → name ≢ []
    → other ≢ []
    → contains_char tag 58 ≡ false
    → replace_all name 47 (45 ∷ []) ≡ replace_all other 47 (45 ∷ [])
    → generate_image_id (name ++ 58 ∷ tag) ≡ generate_image_id (other ++ 58 ∷ tag)
unfolding generate_image_id
generate_image_id_collides [] other tag some_name some_other plain same = absurd (some_name refl)
generate_image_id_collides (c ∷ cs) [] tag some_name some_other plain same =
    absurd (some_other refl)
generate_image_id_collides (c ∷ cs) (d ∷ ds) tag some_name some_other plain same =
    rw
      (
        generate_image_id,
        cut_last-append (c ∷ cs) tag 58 plain,
        cut_last-append (d ∷ ds) tag 58 plain,
      )
      (ap (λ x. x ++ 45 ∷ tag) same)
