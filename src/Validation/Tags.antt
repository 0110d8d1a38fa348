-- ===== src/Validation/Tags.antt =====
-- What `singleTag` returns, in terms of the tags that have the name.
use sentinelmesh.Common.{
  String, List, [], ◌∷◌, Option, none, some, ◌≡◌, ◌↔◌, inl, inr, get_elem?, filter, map, arith,
  Bool-cases, Option-cases,
}
use sentinelmesh.Validation.{NostrEvent, is_named, single_tag_from, single_tag}

-- The values of the tags of a name, `none` for a tag that has no second entry.
abbrev pub values_of : String → List (List String) → List (Option String)
values_of name tags = map (λ tag. get_elem? tag 1) (filter (is_named name) tags)

-- The last tag has the value `v`, and those before it have none.
abbrev pub IsLone : String → List (Option String) → Type 0
IsLone v [] = ⊥
IsLone v (none ∷ os) = IsLone v os
IsLone v (some w ∷ os) = (w ≡ v) × (os ≡ [])

-- After a value was found, the loop returns it exactly if no tag of the name follows.
found-once :
    (w v name : String) (tags : List (List String))
    → (single_tag_from (some w) tags name ≡ some v) ↔ ((w ≡ v) × (values_of name tags ≡ []))
unfolding single_tag_from
found-once w v name [] = ground arith
found-once w v name (tag ∷ tags) = elim (Bool-cases (is_named name tag)) [
  | inl y ↦ rw y (ground arith)
  | inr n ↦ rw n (found-once w v name tags)
]

single_tag_from-IsLone :
    (v name : String) (tags : List (List String))
    → (single_tag_from none tags name ≡ some v) ↔ IsLone v (values_of name tags)
unfolding single_tag_from
single_tag_from-IsLone v name [] = ground arith
single_tag_from-IsLone v name (tag ∷ tags) = elim (Bool-cases (is_named name tag)) [
  | inl y ↦ elim (Option-cases (get_elem? tag 1)) [
    | inl e ↦ rw (y, e) (single_tag_from-IsLone v name tags)
    | inr (w, e) ↦ rw (y, e) (found-once w v name tags)
  ]
  | inr n ↦ rw n (single_tag_from-IsLone v name tags)
]

-- `single_tag event name` returns `v` exactly if `v` is the value of the last tag of that name and no earlier tag of that name has a value: an earlier tag without a value does not count as a duplicate.
pub single_tag-IsLone :
    (event : NostrEvent) (v name : String)
    → (single_tag event name ≡ some v) ↔ IsLone v (values_of name event.tags)
unfolding single_tag
single_tag-IsLone event v name = single_tag_from-IsLone v name event.tags
