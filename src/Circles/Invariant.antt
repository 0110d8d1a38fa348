-- ===== src/Circles/Invariant.antt =====
-- What every reachable state of circlesSlice.ts satisfies.
use sentinelmesh.Common.{
  ℕ, String, List, [], ◌∷◌, foldl, Option, none, some, ◌≡◌, ◌≢◌, arith, sym, ◌∙◌, ◌==◌, eq_refl,
  Bool-cases, Option-cases, inl, inr, includes_of_not_any, length-take-le, any, drop_if-some, Dict,
}
use sentinelmesh.Types.{MemberStatus, ProximityAlert}
use sentinelmesh.Circles.{
  DecryptedLocation, CirclesState, CirclesAction, loaded, epoch_changed, member_status_updated,
  located, removed, accepted, pruned, alert_added, active_alert_dismissed, decrypt_error,
  circle_left, truthy, delete_for, member_removed, member_accepted, is_expired, locations_pruned,
  proximity_alert_added, circle_decrypt_error, reducer, initial_state,
}
use sentinelmesh.Circles.Validity.{
  IsValid, initial-IsValid, circle_loaded-IsValid, circle_epoch_changed-IsValid,
  location_received-IsValid,
}

abbrev StatusOfLocated : Dict DecryptedLocation → Dict MemberStatus → Type 0
StatusOfLocated locations statuses =
    (pubkey : String) (l : DecryptedLocation) → locations pubkey ≡ some l → statuses pubkey ≢ none

delete_for-status :
    (o : Option String) (locations : Dict DecryptedLocation) (statuses : Dict MemberStatus)
    → StatusOfLocated locations statuses
    → StatusOfLocated (delete_for o locations) (delete_for o statuses)
delete_for-status none locations statuses h k m e = h k m e
delete_for-status (some p) locations statuses h k m e = elim (Bool-cases (p == k)) [
  | inl y ↦ absurd (ground arith)
  | inr n ↦ rw n (h k m (rw n at e))
]

member_removed-IsValid :
    (s : CirclesState) (id : String) (pubkey token : Option String)
    → IsValid s
    → IsValid (member_removed s id pubkey token)
unfolding member_removed
member_removed-IsValid s id pubkey token v = record {
  distinct_circles = v.distinct_circles;
  distinct_alerts = v.distinct_alerts;
  few_errors = v.few_errors;
  active_loaded = v.active_loaded;
  alert_listed = v.alert_listed;
  status_of_located =
      delete_for-status (truthy pubkey) s.decrypted_locations s.member_statuses v.status_of_located;
}

member_accepted-IsValid :
    (s : CirclesState) (id pubkey : String) → IsValid s → IsValid (member_accepted s id pubkey)
unfolding member_accepted
member_accepted-IsValid s id pubkey v = elim (Option-cases (s.members id)) [
  | inl e ↦ rw (e, member_accepted) v
  | inr (members, e) ↦
      rw (e, member_accepted)
        (record {
          distinct_circles = v.distinct_circles;
          distinct_alerts = v.distinct_alerts;
          few_errors = v.few_errors;
          active_loaded = v.active_loaded;
          alert_listed = v.alert_listed;
          status_of_located = v.status_of_located;
        })
]

locations_pruned-IsValid :
    (s : CirclesState) (now : ℕ) → IsValid s → IsValid (locations_pruned s now)
unfolding locations_pruned
locations_pruned-IsValid s now v = record {
  distinct_circles = v.distinct_circles;
  distinct_alerts = v.distinct_alerts;
  few_errors = v.few_errors;
  active_loaded = v.active_loaded;
  alert_listed = v.alert_listed;
  status_of_located = λ k m h.
      v.status_of_located k m (drop_if-some (is_expired now) (s.decrypted_locations k) h).0;
}

proximity_alert_added-IsValid :
    (s : CirclesState) (alert : ProximityAlert)
    → IsValid s
    → IsValid (proximity_alert_added s alert)
unfolding proximity_alert_added
proximity_alert_added-IsValid s alert v =
    elim (Bool-cases (any (λ a. a.id == alert.id) s.proximity_alerts)) [
      | inl e ↦ rw (e, proximity_alert_added) v
      | inr e ↦
          rw (e, proximity_alert_added)
            (record {
              distinct_circles = v.distinct_circles;
              distinct_alerts = (
                sym (includes_of_not_any (λ a. a.id) alert.id s.proximity_alerts) ∙ e,
                v.distinct_alerts,
              );
              few_errors = v.few_errors;
              active_loaded = v.active_loaded;
              alert_listed = ground (arith, eq_refl alert.id);
              status_of_located = v.status_of_located;
            })
    ]

-- The other reducers write fields that the invariant ties to nothing.
pub reducer-IsValid : (s : CirclesState) (a : CirclesAction) → IsValid s → IsValid (reducer s a)
unfolding reducer circle_decrypt_error
reducer-IsValid s (loaded circle members) v = circle_loaded-IsValid s circle members v
reducer-IsValid s (epoch_changed id epoch) v = circle_epoch_changed-IsValid s id epoch v
reducer-IsValid s (member_status_updated pubkey status) v = record {
  distinct_circles = v.distinct_circles;
  distinct_alerts = v.distinct_alerts;
  few_errors = v.few_errors;
  active_loaded = v.active_loaded;
  alert_listed = v.alert_listed;
  status_of_located = λ k l h. elim (Bool-cases (pubkey == k)) [
    | inl y ↦ rw y (ground arith)
    | inr n ↦ rw n (v.status_of_located k l h)
  ];
}
reducer-IsValid s (located pubkey location) v = location_received-IsValid s pubkey location v
reducer-IsValid s (removed id pubkey token) v = member_removed-IsValid s id pubkey token v
reducer-IsValid s (accepted id pubkey) v = member_accepted-IsValid s id pubkey v
reducer-IsValid s (pruned now) v = locations_pruned-IsValid s now v
reducer-IsValid s (alert_added alert) v = proximity_alert_added-IsValid s alert v
reducer-IsValid s active_alert_dismissed v = record {
  distinct_circles = v.distinct_circles;
  distinct_alerts = v.distinct_alerts;
  few_errors = v.few_errors;
  active_loaded = v.active_loaded;
  alert_listed = tt;
  status_of_located = v.status_of_located;
}
reducer-IsValid s (decrypt_error message) v = record {
  distinct_circles = v.distinct_circles;
  distinct_alerts = v.distinct_alerts;
  few_errors = length-take-le 3 (message ∷ s.decrypt_errors);
  active_loaded = v.active_loaded;
  alert_listed = v.alert_listed;
  status_of_located = v.status_of_located;
}
reducer-IsValid s circle_left v = initial-IsValid

run-IsValid :
    (actions : List CirclesAction) (s : CirclesState)
    → IsValid s
    → IsValid (foldl reducer s actions)
run-IsValid [] s v = v
run-IsValid (a ∷ actions) s v = run-IsValid actions (reducer s a) (reducer-IsValid s a v)

-- Whatever actions are dispatched to the initial state: circles and alerts have distinct ids, at
-- most three decryption errors are kept, the active circle is loaded, the active alert is listed,
-- and every member with a known location has a status.
pub reachable_circles-IsValid :
    (actions : List CirclesAction) → IsValid (foldl reducer initial_state actions)
reachable_circles-IsValid actions = run-IsValid actions initial_state initial-IsValid
