-- ===== src/Circles/Tests.antt =====
-- Runs of the slice of circlesSlice.ts, and its theorems at concrete inputs.
use sentinelmesh.Common.{
  String, true, false, List, [], ◌∷◌, none, some, ◌≡◌, refl, arith, foldl, eq_iff, ◌==◌,
  if◌then◌else◌, ◌≢◌,
}
use sentinelmesh.Types.{
  double, undefined, value, Circle, CircleMember, Severity, ProximityAlert, MembershipState,
}
use sentinelmesh.Circles.{
  DecryptedLocation, CircleEpoch, CirclesState, CirclesAction, member_status_updated, offline,
  loaded, located, removed, pruned, alert_added, decrypt_error, initial_state, locations_pruned,
  expired_at, reducer,
}
use sentinelmesh.Circles.Validity.{IsValid}
use sentinelmesh.Circles.Invariant.{reachable_circles-IsValid}
use sentinelmesh.Circles.Privacy.{removed-stays_unlocated}
use sentinelmesh.Circles.Tokens.{token_on_roster, removed_by_token-keeps_location}

abbrev family : Circle
family = record {
  circle_id = "c1";
  name = undefined;
  name_ciphertext = undefined;
  name_version = none;
  key_epoch = some 1;
  location_protocol_version = none;
  rekey_required = none;
  membership_revision = none;
  self_token = none;
  created_at = "2026-01-01";
  is_owner = some true;
}

abbrev ada : CircleMember
ada = record {
  circle_id = "c1";
  member_token = value "t1";
  alert_radius_km = double 5;
  alert_severity = Severity.medium;
  joined_at = "2026-01-01";
  member_label_ciphertext = undefined;
  membership_state = some MembershipState.active;
  accepted_at = undefined;
  key_wrap_epoch = undefined;
  pubkey = some "ada";
  label = none;
}

abbrev place : DecryptedLocation
place = record {
  lat = double 1;
  lng = double 2;
  ts = "2026-01-01";
  event_id = none;
  expires_at = some 100;
  accuracy_m = none;
  precision = none;
}

abbrev alert : ProximityAlert
alert = record {
  id = "a1";
  member_pubkey = "ada";
  zone_name = "Flood";
  event_id = some "e1";
  severity = Severity.high;
  triggered_at = "2026-01-01";
}

abbrev here : CirclesState
here = record initial_state {
  circles = family ∷ [];
  members = λ k. if k == "c1" then some (ada ∷ []) else none;
  decrypted_locations = λ k. if k == "ada" then some place else none;
}

abbrev actions : List CirclesAction
actions =
    loaded family (ada ∷ []) ∷ located "ada" place ∷ alert_added alert ∷ decrypt_error "x" ∷ []

reachable_circles-IsValid_example : IsValid (foldl reducer initial_state actions)
reachable_circles-IsValid_example = reachable_circles-IsValid actions

ada_named : ◌≢◌ {A = String} "ada" ""
ada_named = ground (arith, eq_iff "ada" "")

abbrev later_actions : List CirclesAction
later_actions = pruned 5 ∷ member_status_updated "ada" offline ∷ loaded family [] ∷ []

removed_by_token-keeps_location_example :
    (token_on_roster "t1" ((reducer here (removed "c1" none (some "t1"))).members "c1") ≡ false)
    × ((foldl reducer
            (reducer here (removed "c1" none (some "t1")))
            later_actions).decrypted_locations
          "ada"
        ≡ some place)
unfolding expired_at
removed_by_token-keeps_location_example =
    removed_by_token-keeps_location here "c1" "t1" "ada" place later_actions refl
      (refl, (tt, (tt, tt)))

abbrev afterwards : CirclesState
afterwards =
    foldl reducer (reducer here (removed "c1" (some "ada") none)) (pruned 5 ∷ loaded family [] ∷ [])

removed-stays_unlocated_example : afterwards.decrypted_locations "ada" ≡ none
removed-stays_unlocated_example =
    removed-stays_unlocated here "c1" "ada" none (pruned 5 ∷ loaded family [] ∷ []) ada_named
      (tt, (tt, tt))

program : Unit {0}
unfolding reducer locations_pruned expired_at
program = tt

kept_location : (reducer here (pruned 50)).decrypted_locations "ada" ≡ some place
unfolding program
kept_location = refl

abbrev epoch : CircleEpoch
epoch = record { key_epoch = 2; rekey_required = true }
