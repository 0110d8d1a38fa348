-- ===== src/Circles/Validity.antt =====
-- What it is for a state of the circles slice to be valid, and the reducers that load a circle, change
-- an epoch and locate a member.
use sentinelmesh.Common.{
  String, true, List, [], ◌∷◌, map, Option, none, some, ◌≡◌, ◌≢◌, refl, arith, ◌==◌, ◌≤◌, eq_refl,
  locate, map-key-set, includes_of_index_none, includes_of_index_some, map-append, Distinct,
  Bool-cases, Option-cases, inl, inr, includes, length, Dict,
}
use sentinelmesh.Common.Sets
use sentinelmesh.Types.{Circle, CircleMember, MemberStatus, ProximityAlert}
use sentinelmesh.Circles.{
  DecryptedLocation, CircleEpoch, CirclesState, truthy, mark_offline, mark_all, circle_loaded,
  set_epoch, circle_epoch_changed, location_received, initial_state,
}

abbrev pub circle_ids : List Circle → List String
circle_ids = map (λ c. c.circle_id)

abbrev pub alert_ids : List ProximityAlert → List String
alert_ids = map (λ a. a.id)

-- An id that is set is one of those listed.
abbrev pub IsAmong : List String → Option String → Type 0
IsAmong ids none = Unit
IsAmong ids (some id) = includes id ids ≡ true

abbrev pub id_of : Option ProximityAlert → Option String
id_of none = none
id_of (some alert) = some alert.id

-- The active circle is one of the loaded circles, and the active alert one of the listed alerts.
pub record IsValid (s : CirclesState) : Type 0 where
  pub distinct_circles : Distinct (circle_ids s.circles)
  pub distinct_alerts : Distinct (alert_ids s.proximity_alerts)
  pub few_errors : length s.decrypt_errors ≤ 3
  pub active_loaded : IsAmong (circle_ids s.circles) s.active_circle_id
  pub alert_listed : IsAmong (alert_ids s.proximity_alerts) (id_of s.active_alert)
  -- Who has a location has a status.
  pub status_of_located :
      (pubkey : String) (l : DecryptedLocation)
      → s.decrypted_locations pubkey ≡ some l
      → s.member_statuses pubkey ≢ none

none-ne-some {ℓ} : {A : Type ℓ} {a : A} → none ≢ some a
none-ne-some h = cc

pub initial-IsValid : IsValid initial_state
initial-IsValid = record {
  distinct_circles = tt;
  distinct_alerts = tt;
  few_errors = omega arith;
  active_loaded = tt;
  alert_listed = tt;
  status_of_located = λ k l h. absurd (none-ne-some h);
}

-- Marking as offline only adds statuses.
mark_offline-keeps :
    (statuses : Dict MemberStatus) (m : CircleMember) (k : String)
    → statuses k ≢ none
    → mark_offline statuses m k ≢ none
unfolding mark_offline
mark_offline-keeps statuses m k h = elim (Option-cases (truthy m.pubkey)) [
  | inl e ↦ rw (e, mark_offline) h
  | inr (p, e) ↦ elim (Option-cases (statuses p)) [
    | inl f ↦ rw (e, mark_offline) (rw f (ground arith))
    | inr (status, f) ↦ rw (e, mark_offline) (rw f h)
  ]
]

mark_all-keeps :
    (members : List CircleMember) (statuses : Dict MemberStatus) (k : String)
    → statuses k ≢ none
    → mark_all statuses members k ≢ none
unfolding mark_all
mark_all-keeps [] statuses k h = h
mark_all-keeps (m ∷ members) statuses k h =
    mark_all-keeps members (mark_offline statuses m) k (mark_offline-keeps statuses m k h)

circle_ids-set_epoch :
    (circles : List Circle) (id : String) (epoch : CircleEpoch)
    → circle_ids (set_epoch circles id epoch) ≡ circle_ids circles
unfolding set_epoch
circle_ids-set_epoch circles id epoch = elim (locate (λ c. c.circle_id) id circles) [
  | inl (e, f) ↦ rw (e, set_epoch)
  | inr (i, c, e, g, f, k) ↦
      rw (e, g, set_epoch)
        (map-key-set (λ c. c.circle_id) id circles i
          (record c {
            key_epoch = some epoch.key_epoch;
            rekey_required = some epoch.rekey_required;
          })
          e k)
]

pub circle_loaded-IsValid :
    (s : CirclesState) (circle : Circle) (members : List CircleMember)
    → IsValid s
    → IsValid (circle_loaded s circle members)
unfolding circle_loaded
circle_loaded-IsValid s circle members v =
    elim (locate (λ c. c.circle_id) circle.circle_id s.circles) [
      | inl (e, f) ↦
          rw (e, circle_loaded)
            (record {
              distinct_circles = rw map-append (
                  Sets.Distinct-append (circle_ids s.circles) circle.circle_id v.distinct_circles
                    (includes_of_index_none (λ c. c.circle_id) circle.circle_id s.circles e));
              distinct_alerts = v.distinct_alerts;
              few_errors = v.few_errors;
              active_loaded =
                  rw (map-append, Sets.includes-append) (ground (arith, eq_refl circle.circle_id));
              alert_listed = v.alert_listed;
              status_of_located =
                  λ k l h. mark_all-keeps members s.member_statuses k (v.status_of_located k l h);
            })
      | inr (i, c, e, g, f, k) ↦
          rw (e, circle_loaded)
            (record {
              distinct_circles =
                  rw (map-key-set (λ c. c.circle_id) circle.circle_id s.circles i circle e refl)
                    v.distinct_circles;
              distinct_alerts = v.distinct_alerts;
              few_errors = v.few_errors;
              active_loaded =
                  rw (map-key-set (λ c. c.circle_id) circle.circle_id s.circles i circle e refl)
                    (includes_of_index_some (λ c. c.circle_id) circle.circle_id s.circles i e);
              alert_listed = v.alert_listed;
              status_of_located =
                  λ k l h. mark_all-keeps members s.member_statuses k (v.status_of_located k l h);
            })
    ]

pub circle_epoch_changed-IsValid :
    (s : CirclesState) (id : String) (epoch : CircleEpoch)
    → IsValid s
    → IsValid (circle_epoch_changed s id epoch)
unfolding circle_epoch_changed
circle_epoch_changed-IsValid s id epoch v = record {
  distinct_circles = rw (circle_ids-set_epoch s.circles id epoch) v.distinct_circles;
  distinct_alerts = v.distinct_alerts;
  few_errors = v.few_errors;
  active_loaded = rw (circle_ids-set_epoch s.circles id epoch) v.active_loaded;
  alert_listed = v.alert_listed;
  status_of_located = v.status_of_located;
}

pub location_received-IsValid :
    (s : CirclesState) (pubkey : String) (l : DecryptedLocation)
    → IsValid s
    → IsValid (location_received s pubkey l)
unfolding location_received
location_received-IsValid s pubkey l v = record {
  distinct_circles = v.distinct_circles;
  distinct_alerts = v.distinct_alerts;
  few_errors = v.few_errors;
  active_loaded = v.active_loaded;
  alert_listed = v.alert_listed;
  status_of_located = λ k m h. elim (Bool-cases (pubkey == k)) [
    | inl y ↦ rw y (ground arith)
    | inr n ↦ rw n (v.status_of_located k m (rw n at h))
  ];
}
