-- ===== src/Events/Merge.antt =====
-- `mergeEvent` of eventsSlice.ts as an algebra: merging is associative and idempotent.
use sentinelmesh.Common.{Option, none, some, ◌≡◌, refl}
use sentinelmesh.Types.{Field, undefined, null, value, SafetyEvent}
use sentinelmesh.Events.{over_field, over, merge_fields}

over_field_assoc {ℓ} :
    {A : Type ℓ} (a b c : Field A) → over_field (over_field a b) c ≡ over_field a (over_field b c)
over_field_assoc a b undefined = refl
over_field_assoc a b null = refl
over_field_assoc a b (value v) = refl

over_assoc {ℓ} : {A : Type ℓ} (a b c : Option A) → over (over a b) c ≡ over a (over b c)
over_assoc a b none = refl
over_assoc a b (some v) = refl

over_field_idem {ℓ} : {A : Type ℓ} (a : Field A) → over_field a a ≡ a
over_field_idem undefined = refl
over_field_idem null = refl
over_field_idem (value v) = refl

over_idem {ℓ} : {A : Type ℓ} (a : Option A) → over a a ≡ a
over_idem none = refl
over_idem (some v) = refl

-- Merging three versions of an event gives the same event in either grouping.
pub merge_fields_assoc :
    (a b c : SafetyEvent) → merge_fields (merge_fields a b) c ≡ merge_fields a (merge_fields b c)
unfolding merge_fields
merge_fields_assoc a b c = simp (over_field_assoc, over_assoc)

pub merge_fields_idem : (a : SafetyEvent) → merge_fields a a ≡ a
unfolding merge_fields
merge_fields_idem a = simp (over_field_idem, over_idem)

-- `d` holds every field that `c` defines, with the value that `c` gives it.
abbrev pub Extends : SafetyEvent → SafetyEvent → Type 0
Extends c d = merge_fields d c ≡ d
