-- ===== src/Webchat/Checks/UniqueIds.antt =====
-- methods.go: which attachment ids `uniqueNonEmpty` keeps.
use buat_postingan.Base.{
  String, ◌≡◌, refl, false, not, ◌&&◌, ◌||◌, List, [], ◌∷◌, map, is_empty, trim_space, eq_iff,
  eq_refl, Bool-cases, inl, inr, arith,
}
use buat_postingan.Config.Effort.{one_of}
use buat_postingan.Webchat.Checks.{unique_from, unique_non_empty}

-- No id stands twice in the list, or is empty.
unfoldable pub Distinct : List String → Type 0
Distinct [] = Unit
Distinct (id ∷ ids) = (is_empty id ≡ false) × (one_of ids id ≡ false) × Distinct ids

-- An id is kept when it is one of the ids, trimmed, is not empty and was not seen before.
one_of-unique_from :
    (seen ids : List String) (x : String)
    → one_of (unique_from seen ids) x
      ≡ (one_of (map trim_space ids) x && not (is_empty x) && not (one_of seen x))
unfolding one_of unique_from
one_of-unique_from seen [] x = refl
one_of-unique_from seen (raw ∷ ids) x = ground (
  arith,
  one_of-unique_from seen ids x,
  one_of-unique_from (trim_space raw ∷ seen) ids x,
  eq_iff x (trim_space raw),
)

unique_from-Distinct : (seen ids : List String) → Distinct (unique_from seen ids)
unfolding unique_from Distinct one_of
unique_from-Distinct seen [] = tt
unique_from-Distinct seen (raw ∷ ids) =
    elim (Bool-cases (is_empty (trim_space raw) || one_of seen (trim_space raw))) [
      | inl skip ↦ rw skip (unique_from-Distinct seen ids)
      | inr keep ↦ rw keep (
        ground arith,
        ground (
          arith,
          one_of-unique_from (trim_space raw ∷ seen) ids (trim_space raw),
          eq_refl (trim_space raw),
        ),
        unique_from-Distinct (trim_space raw ∷ seen) ids,
      )
    ]

module _ (ids : List String) where
  -- `uniqueNonEmpty` keeps exactly the ids that some given id trims to, but the empty one.
  pub one_of-unique_non_empty :
      (x : String)
      → one_of (unique_non_empty ids) x ≡ (one_of (map trim_space ids) x && not (is_empty x))
  unfolding unique_non_empty one_of
  one_of-unique_non_empty x = ground (arith, one_of-unique_from [] ids x)

  -- No id that `uniqueNonEmpty` keeps is empty or kept twice.
  pub unique_non_empty-Distinct : Distinct (unique_non_empty ids)
  unfolding unique_non_empty
  unique_non_empty-Distinct = unique_from-Distinct [] ids
