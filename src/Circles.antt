-- ===== src/Circles.antt =====
-- The Redux slice of family circles (apps/pwa/src/store/circlesSlice.ts): circles, rosters, key
-- epochs, decrypted member locations and proximity alerts. All of it is held in memory only.
mod Validity
mod Invariant
mod Privacy
mod Tokens
mod Alerts
mod Tests
use sentinelmesh.Common.{
  ℕ, String, Bool, true, false, not, List, [], ◌∷◌, ◌++◌, map, Option, none, some, ◌==◌, leb,
  if◌then◌else◌, get_elem?, set, filter, any, take, index_by, Dict, empty, put, delete, delete_if,
  to_lower,
}
use sentinelmesh.Types.{
  Double, Field, undefined, null, value, Circle, CircleMember, MemberStatus, online, offline,
  MembershipState, ProximityAlert,
}

pub data Precision : Type 0 where
  exact approximate : Precision

pub record DecryptedLocation : Type 0 where
  pub lat : Double
  pub lng : Double
  pub ts : String
  pub event_id : Option String
  pub expires_at : Option ℕ
  pub accuracy_m : Option Double
  pub precision : Option Precision

pub record CircleEpoch : Type 0 where
  pub key_epoch : ℕ
  pub rekey_required : Bool

pub record CirclesState : Type 0 where
  pub circles : List Circle
  pub active_circle_id : Option String
  pub members : Dict (List CircleMember)
  pub epochs : Dict CircleEpoch
  pub member_statuses : Dict MemberStatus
  pub decrypted_locations : Dict DecryptedLocation
  pub proximity_alerts : List ProximityAlert
  pub active_alert : Option ProximityAlert
  pub decrypt_errors : List String

abbrev pub initial_state : CirclesState
initial_state = record {
  circles = [];
  active_circle_id = none;
  members = empty;
  epochs = empty;
  member_statuses = empty;
  decrypted_locations = empty;
  proximity_alerts = [];
  active_alert = none;
  decrypt_errors = [];
}

-- `m.pubkey` in a condition: present and not the empty text.
abbrev pub truthy : Option String → Option String
truthy none = none
truthy (some p) = if p == "" then none else some p

-- The loop over the members that marks those with no status as offline.
unfoldable pub mark_offline : Dict MemberStatus → CircleMember → Dict MemberStatus
mark_offline statuses m = elim (truthy m.pubkey) [
  | none ↦ statuses
  | some p ↦ elim (statuses p) [ none ↦ put p offline statuses | some status ↦ statuses ]
]

pub mark_all : Dict MemberStatus → List CircleMember → Dict MemberStatus
mark_all statuses [] = statuses
mark_all statuses (m ∷ ms) = mark_all (mark_offline statuses m) ms

unfoldable pub circle_loaded : CirclesState → Circle → List CircleMember → CirclesState
circle_loaded s circle members = record s {
  circles = elim (index_by (λ c. c.circle_id) circle.circle_id s.circles) [
    | some existing ↦ set s.circles existing circle
    | none ↦ s.circles ++ (circle ∷ [])
  ];
  members = put circle.circle_id members s.members;
  active_circle_id = some circle.circle_id;
  member_statuses = mark_all s.member_statuses members;
}

-- `find` and a write through the reference that it returns.
unfoldable pub set_epoch : List Circle → String → CircleEpoch → List Circle
set_epoch circles id epoch = elim (index_by (λ c. c.circle_id) id circles) [
  | none ↦ circles
  | some i ↦ elim (get_elem? circles i) [
    | none ↦ circles
    | some circle ↦ set circles i (record circle {
      key_epoch = some epoch.key_epoch;
      rekey_required = some epoch.rekey_required;
    })
  ]
]

unfoldable pub circle_epoch_changed : CirclesState → String → CircleEpoch → CirclesState
circle_epoch_changed s id epoch = record s {
  epochs = put id epoch s.epochs;
  circles = set_epoch s.circles id epoch;
}

unfoldable pub location_received : CirclesState → String → DecryptedLocation → CirclesState
location_received s pubkey location = record s {
  decrypted_locations = put pubkey location s.decrypted_locations;
  member_statuses = put pubkey online s.member_statuses;
}

-- `m.pubkey === pubkey` and `m.member_token === token`, where either side may be undefined.
abbrev pub same_pubkey : CircleMember → String → Bool
same_pubkey m pubkey = elim m.pubkey [ none ↦ false | some p ↦ p == pubkey ]

abbrev pub same_token : Field String → Option String → Bool
same_token undefined none = true
same_token (value t) (some token) = t == token
same_token undefined (some token) = false
same_token null _ = false
same_token (value t) none = false

-- Whether `memberRemoved` filters a member out: by public key if the payload has one, else by token.
unfoldable pub is_removed : Option String → Option String → CircleMember → Bool
is_removed (some pubkey) token m = same_pubkey m pubkey
is_removed none token m = same_token m.member_token token

unfoldable pub without :
    Option String → Option String → Option (List CircleMember) → Option (List CircleMember)
unfolding is_removed
without pubkey token none = none
without pubkey token (some members) = some (filter (λ m. not (is_removed pubkey token m)) members)

abbrev pub assign {ℓ} : {V : Type ℓ} → String → Option V → Dict V → Dict V
assign k none m = m
assign k (some v) m = put k v m

-- `if (pubkey) delete m[pubkey]`
abbrev pub delete_for {ℓ} : {V : Type ℓ} → Option String → Dict V → Dict V
delete_for none m = m
delete_for (some p) m = delete p m

unfoldable pub member_removed : CirclesState → String → Option String → Option String → CirclesState
unfolding without
member_removed s circle_id pubkey token = record s {
  members = assign circle_id (without pubkey token (s.members circle_id)) s.members;
  decrypted_locations = delete_for (truthy pubkey) s.decrypted_locations;
  member_statuses = delete_for (truthy pubkey) s.member_statuses;
}

unfoldable pub accept : String → CircleMember → CircleMember
accept pubkey m = elim (truthy m.pubkey) [
  | none ↦ m
  | some p ↦
      if to_lower p == to_lower pubkey
      then record m { membership_state = some MembershipState.active }
      else m
]

unfoldable pub member_accepted : CirclesState → String → String → CirclesState
member_accepted s circle_id pubkey = elim (s.members circle_id) [
  | none ↦ s
  | some members ↦ record s { members = put circle_id (map (accept pubkey) members) s.members }
]

-- `expires_at !== undefined && expires_at <= now`
unfoldable pub expired_at : Option ℕ → ℕ → Bool
expired_at none now = false
expired_at (some t) now = leb t now

abbrev pub is_expired : ℕ → DecryptedLocation → Bool
is_expired now loc = expired_at loc.expires_at now

unfoldable pub locations_pruned : CirclesState → ℕ → CirclesState
locations_pruned s now = record s {
  decrypted_locations = delete_if (is_expired now) s.decrypted_locations;
}

unfoldable pub proximity_alert_added : CirclesState → ProximityAlert → CirclesState
proximity_alert_added s alert =
    if any (λ a. a.id == alert.id) s.proximity_alerts
    then s
    else record s { proximity_alerts = alert ∷ s.proximity_alerts; active_alert = some alert }

unfoldable pub circle_decrypt_error : CirclesState → String → CirclesState
circle_decrypt_error s message = record s { decrypt_errors = take 3 (message ∷ s.decrypt_errors) }

pub data CirclesAction : Type 0 where
  loaded : Circle → List CircleMember → CirclesAction
  epoch_changed : String → CircleEpoch → CirclesAction
  member_status_updated : String → MemberStatus → CirclesAction
  located : String → DecryptedLocation → CirclesAction
  removed : String → Option String → Option String → CirclesAction
  accepted : String → String → CirclesAction
  pruned : ℕ → CirclesAction
  alert_added : ProximityAlert → CirclesAction
  active_alert_dismissed : CirclesAction
  decrypt_error : String → CirclesAction
  circle_left : CirclesAction

unfoldable pub reducer : CirclesState → CirclesAction → CirclesState
reducer s (loaded circle members) = circle_loaded s circle members
reducer s (epoch_changed id epoch) = circle_epoch_changed s id epoch
reducer s (member_status_updated pubkey status) = record s {
  member_statuses = put pubkey status s.member_statuses;
}
reducer s (located pubkey location) = location_received s pubkey location
reducer s (removed circle_id pubkey token) = member_removed s circle_id pubkey token
reducer s (accepted circle_id pubkey) = member_accepted s circle_id pubkey
reducer s (pruned now) = locations_pruned s now
reducer s (alert_added alert) = proximity_alert_added s alert
reducer s active_alert_dismissed = record s { active_alert = none }
reducer s (decrypt_error message) = circle_decrypt_error s message
reducer s circle_left = initial_state
