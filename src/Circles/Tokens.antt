-- ===== src/Circles/Tokens.antt =====
-- Members that are removed by token (apps/pwa/src/store/circlesSlice.ts).
use sentinelmesh.Common.{
  String, Bool, false, not, List, [], ◌∷◌, foldl, filter, any, Option, none, some, ◌≡◌, ◌≢◌, refl,
  ◌∙◌, arith, ◌==◌, eq_iff, eq_refl, Bool-cases, Option-cases, inl, inr, Dict, drop_if,
}
use sentinelmesh.Types.{Field, undefined, null, value, CircleMember}
use sentinelmesh.Circles.{
  DecryptedLocation, CirclesState, CirclesAction, loaded, epoch_changed, member_status_updated,
  located, removed, accepted, pruned, alert_added, active_alert_dismissed, decrypt_error,
  circle_left, circle_loaded, circle_epoch_changed, location_received, is_removed, without,
  same_token, truthy, delete_for, member_removed, is_expired, locations_pruned,
  circle_decrypt_error, reducer,
}
use sentinelmesh.Circles.Privacy.{member_accepted-locations, proximity_alert_added-locations}

abbrev pub has_token : String → CircleMember → Bool
has_token token m = elim m.member_token [ undefined ↦ false | null ↦ false | value t ↦ t == token ]

-- Some row of the roster carries the token.
abbrev pub token_on_roster : String → Option (List CircleMember) → Bool
token_on_roster token none = false
token_on_roster token (some members) = any (has_token token) members

has_token-same :
    (token : String) (m : CircleMember) → has_token token m ≡ same_token m.member_token (some token)
has_token-same token m = go m.member_token
  where
    go :
        (f : Field String)
        → elim f [ undefined ↦ false | null ↦ false | value t ↦ t == token ]
          ≡ same_token f (some token)
    go undefined = refl
    go null = refl
    go (value t) = refl

any_token-filter :
    (token : String) (ms : List CircleMember)
    → any (has_token token) (filter (λ m. not (is_removed none (some token) m)) ms) ≡ false
unfolding is_removed
any_token-filter token [] = refl
any_token-filter token (m ∷ ms) = ground (arith, any_token-filter token ms, has_token-same token m)

token_on_roster-removed :
    (s : CirclesState) (id token : String)
    → token_on_roster token ((reducer s (removed id none (some token))).members id) ≡ false
unfolding reducer member_removed without
token_on_roster-removed s id token = elim (Option-cases (s.members id)) [
  | inl e ↦ rw (e, without) (rw e)
  | inr (ms, e) ↦ rw (e, without) (rw (eq_refl id) (any_token-filter token ms))
]

-- The actions that leave the location of this member: it is not located again nor removed by its key,
-- the location has not expired when it is pruned, and the circle is not left.
abbrev pub LeavesLocation : String → DecryptedLocation → CirclesAction → Type 0
LeavesLocation pubkey l (located k location) = k ≢ pubkey
LeavesLocation pubkey l (removed id (some k) token) = k ≢ pubkey
LeavesLocation pubkey l (pruned now) = is_expired now l ≡ false
LeavesLocation pubkey l circle_left = ⊥
LeavesLocation pubkey l _ = Unit

abbrev pub AllLeave : String → DecryptedLocation → List CirclesAction → Type 0
AllLeave pubkey l [] = Unit
AllLeave pubkey l (a ∷ actions) = LeavesLocation pubkey l a × AllLeave pubkey l actions

delete_for-other :
    (k pubkey : String) (m : Dict DecryptedLocation)
    → k ≢ pubkey
    → delete_for (truthy (some k)) m pubkey ≡ m pubkey
delete_for-other k pubkey m h = elim (Bool-cases (k == "")) [
  | inl e ↦ rw e refl
  | inr e ↦ rw e (ground (arith, eq_iff k pubkey))
]

drop_if-kept :
    (p : DecryptedLocation → Bool) (o : Option DecryptedLocation) (l : DecryptedLocation)
    → o ≡ some l
    → p l ≡ false
    → drop_if p o ≡ some l
drop_if-kept p o l e h = rw e (rw h refl)

step-located :
    (s : CirclesState) (a : CirclesAction) (pubkey : String) (l : DecryptedLocation)
    → LeavesLocation pubkey l a
    → s.decrypted_locations pubkey ≡ some l
    → (reducer s a).decrypted_locations pubkey ≡ some l
unfolding reducer circle_loaded circle_epoch_changed location_received member_removed
    locations_pruned circle_decrypt_error
step-located s (loaded circle members) pubkey l n h = h
step-located s (epoch_changed id epoch) pubkey l n h = h
step-located s (member_status_updated k status) pubkey l n h = h
step-located s (located k location) pubkey l n h = ground (arith, eq_iff k pubkey)
step-located s (removed id none token) pubkey l n h = h
step-located s (removed id (some k) token) pubkey l n h =
    delete_for-other k pubkey s.decrypted_locations n ∙ h
step-located s (accepted id k) pubkey l n h = rw member_accepted-locations h
step-located s (pruned now) pubkey l n h =
    drop_if-kept (is_expired now) (s.decrypted_locations pubkey) l h n
step-located s (alert_added alert) pubkey l n h = rw proximity_alert_added-locations h
step-located s active_alert_dismissed pubkey l n h = h
step-located s (decrypt_error message) pubkey l n h = h
step-located s circle_left pubkey l n h = elim n [ ]

run-located :
    (actions : List CirclesAction) (s : CirclesState) (pubkey : String) (l : DecryptedLocation)
    → AllLeave pubkey l actions
    → s.decrypted_locations pubkey ≡ some l
    → (foldl reducer s actions).decrypted_locations pubkey ≡ some l
run-located [] s pubkey l n h = h
run-located (a ∷ actions) s pubkey l n h =
    run-located actions (reducer s a) pubkey l n.1 (step-located s a pubkey l n.0 h)

-- Removing a member by token takes every row with the token off the circle's roster, but whatever location is held then stays, the removed member's too: it is still held after any later actions, unless one of them locates the member, removes it by public key, prunes at a time at which the location has expired, or leaves the circle.
pub removed_by_token-keeps_location :
    (s : CirclesState) (id token pubkey : String) (l : DecryptedLocation)
    (actions : List CirclesAction)
    → s.decrypted_locations pubkey ≡ some l
    → AllLeave pubkey l actions
    → (token_on_roster token ((reducer s (removed id none (some token))).members id) ≡ false)
      × ((foldl reducer (reducer s (removed id none (some token))) actions).decrypted_locations
            pubkey
          ≡ some l)
removed_by_token-keeps_location s id token pubkey l actions h n = (
  token_on_roster-removed s id token,
  run-located actions (reducer s (removed id none (some token))) pubkey l n
      (step-located s (removed id none (some token)) pubkey l tt h),
)
