-- ===== src/Circles/Alerts.antt =====
-- Proximity alerts, key epochs and rosters of circlesSlice.ts.
use sentinelmesh.Common.{
  ℕ, String, List, any, Option, none, some, ◌≡◌, refl, arith, ◌==◌, eq_iff, eq_refl, if◌then◌else◌,
  Bool-cases, inl, inr, locate, find_by, find_by-set,
}
use sentinelmesh.Types.{Circle, ProximityAlert}
use sentinelmesh.Circles.{
  CircleEpoch, CirclesState, alert_added, epoch_changed, circle_epoch_changed, set_epoch,
  proximity_alert_added, reducer,
}

-- An alert whose id is listed already changes nothing: to dispatch an alert twice is to dispatch
-- it once, also where the active alert was dismissed in between.
alert_added_twice :
    (s : CirclesState) (alert : ProximityAlert)
    → reducer (reducer s (alert_added alert)) (alert_added alert) ≡ reducer s (alert_added alert)
unfolding reducer proximity_alert_added
alert_added_twice s alert = elim (Bool-cases (any (λ a. a.id == alert.id) s.proximity_alerts)) [
  | inl e ↦ rw (e, proximity_alert_added) (rw (e, proximity_alert_added))
  | inr e ↦ rw (e, proximity_alert_added) (rw (eq_refl alert.id))
]

-- The epoch of a circle as `useCircleWsConnection` selects it: the recorded one, else the one in
-- the circle, else 1.
abbrev pub circle_epoch : Option Circle → Option ℕ
circle_epoch none = none
circle_epoch (some c) = c.key_epoch

unfoldable pub with_epoch : CircleEpoch → Option Circle → Option Circle
with_epoch epoch none = none
with_epoch epoch (some c) =
    some (record c { key_epoch = some epoch.key_epoch; rekey_required = some epoch.rekey_required })

find_by-set_epoch :
    (circles : List Circle) (id j : String) (epoch : CircleEpoch)
    → find_by (λ c. c.circle_id) j (set_epoch circles id epoch) ≡ (
        if id == j
        then with_epoch epoch (find_by (λ c. c.circle_id) j circles)
        else find_by (λ c. c.circle_id) j circles)
unfolding set_epoch with_epoch
find_by-set_epoch circles id j epoch = elim (locate (λ c. c.circle_id) id circles) [
  | inl (e, f) ↦ rw (e, set_epoch) (ground (arith, eq_iff id j))
  | inr (i, c, e, g, f, k) ↦
      rw (e, g, set_epoch)
        (ground (
          arith,
          eq_iff id j,
          find_by-set (λ x. x.circle_id) id j circles i
              (record c {
                key_epoch = some epoch.key_epoch;
                rekey_required = some epoch.rekey_required;
              })
              e k,
        ))
]

-- After `circleEpochChanged` for a circle, its recorded epoch and the epoch in the loaded circle
-- are both the new one; the records and the epochs of all other circles stay as they were.
epoch_changed-agrees :
    (s : CirclesState) (id j : String) (epoch : CircleEpoch)
    → ((reducer s (epoch_changed id epoch)).epochs j ≡ (if id == j then some epoch else s.epochs j))
      × (find_by (λ c. c.circle_id) j (reducer s (epoch_changed id epoch)).circles ≡ (
          if id == j
          then with_epoch epoch (find_by (λ c. c.circle_id) j s.circles)
          else find_by (λ c. c.circle_id) j s.circles))
unfolding reducer circle_epoch_changed
epoch_changed-agrees s id j epoch = (refl, find_by-set_epoch s.circles id j epoch)
