-- ===== src/Circles/Privacy.antt =====
-- Whose location the slice of circlesSlice.ts holds, and for how long.
use sentinelmesh.Common.{
  ℕ, String, Bool, true, false, not, List, [], ◌∷◌, foldl, filter, any, Option, none, some, ◌≡◌,
  ◌≢◌, refl, arith, ap, fun_ext, ◌==◌, ◌≤◌, eq_iff, eq_refl, Bool-cases, Option-cases, inl, inr,
  Dict, drop_if, drop_if-some, ◌<◌,
}
use sentinelmesh.Types.{CircleMember, ProximityAlert}
use sentinelmesh.Circles.{
  DecryptedLocation, CirclesState, CirclesAction, loaded, epoch_changed, member_status_updated,
  located, removed, accepted, pruned, alert_added, active_alert_dismissed, decrypt_error,
  circle_left, circle_loaded, circle_epoch_changed, location_received, is_removed, without,
  same_pubkey, truthy, assign, delete_for, member_removed, member_accepted, is_expired, expired_at,
  locations_pruned, proximity_alert_added, circle_decrypt_error, reducer,
}

-- The number of rows of the roster that carry the key.
abbrev pub on_roster : String → Option (List CircleMember) → Bool
on_roster pubkey none = false
on_roster pubkey (some members) = any (λ m. same_pubkey m pubkey) members

any-filter-not {ℓ} :
    {A : Type ℓ} (p : A → Bool) (xs : List A) → any p (filter (λ x. not (p x)) xs) ≡ false
any-filter-not p [] = refl
any-filter-not p (x ∷ xs) = ground (arith, any-filter-not p xs)

on_roster-without :
    (id pubkey : String) (token : Option String) (members : Dict (List CircleMember))
    → on_roster pubkey (assign id (without (some pubkey) token (members id)) members id) ≡ false
unfolding without is_removed
on_roster-without id pubkey token members = elim (Option-cases (members id)) [
  | inl e ↦ rw (e, without) (rw e)
  | inr (ms, e) ↦ rw (e, without) (rw (eq_refl id) (any-filter-not (λ m. same_pubkey m pubkey) ms))
]

truthy_of_ne : (p : String) → p ≢ "" → truthy (some p) ≡ some p
truthy_of_ne p h = ground (arith, eq_iff p "")

-- `memberRemoved` with a public key leaves no trace of the member: it is on the circle's roster no
-- more, and neither its location nor its status is held.
removed-forgets :
    (s : CirclesState) (id pubkey : String) (token : Option String)
    → pubkey ≢ ""
    → (on_roster pubkey ((reducer s (removed id (some pubkey) token)).members id) ≡ false)
      × ((reducer s (removed id (some pubkey) token)).decrypted_locations pubkey ≡ none)
      × ((reducer s (removed id (some pubkey) token)).member_statuses pubkey ≡ none)
unfolding reducer member_removed
removed-forgets s id pubkey token h = (
  on_roster-without id pubkey token s.members,
  rw (truthy_of_ne pubkey h) (rw (eq_refl pubkey)),
  rw (truthy_of_ne pubkey h) (rw (eq_refl pubkey)),
)

-- The actions that do not locate a member.
abbrev pub NoLocation : String → CirclesAction → Type 0
NoLocation pubkey (located k location) = k ≢ pubkey
NoLocation pubkey _ = Unit

abbrev pub NoLocations : String → List CirclesAction → Type 0
NoLocations pubkey [] = Unit
NoLocations pubkey (a ∷ actions) = NoLocation pubkey a × NoLocations pubkey actions

delete_for-none :
    (o : Option String) (m : Dict DecryptedLocation) (k : String)
    → m k ≡ none
    → delete_for o m k ≡ none
delete_for-none none m k h = h
delete_for-none (some p) m k h = ground arith

drop_if-none :
    (p : DecryptedLocation → Bool) (o : Option DecryptedLocation) → o ≡ none → drop_if p o ≡ none
drop_if-none p none h = refl
drop_if-none p (some v) h = cc

pub member_accepted-locations :
    (s : CirclesState) (id pubkey : String)
    → (member_accepted s id pubkey).decrypted_locations ≡ s.decrypted_locations
unfolding member_accepted
member_accepted-locations s id pubkey = elim (Option-cases (s.members id)) [
  | inl e ↦ rw (e, member_accepted)
  | inr (ms, e) ↦ rw (e, member_accepted)
]

pub proximity_alert_added-locations :
    (s : CirclesState) (alert : ProximityAlert)
    → (proximity_alert_added s alert).decrypted_locations ≡ s.decrypted_locations
unfolding proximity_alert_added
proximity_alert_added-locations s alert =
    elim (Bool-cases (any (λ a. a.id == alert.id) s.proximity_alerts)) [
      | inl e ↦ rw (e, proximity_alert_added)
      | inr e ↦ rw (e, proximity_alert_added)
    ]

step-unlocated :
    (s : CirclesState) (a : CirclesAction) (pubkey : String)
    → NoLocation pubkey a
    → s.decrypted_locations pubkey ≡ none
    → (reducer s a).decrypted_locations pubkey ≡ none
unfolding reducer circle_loaded circle_epoch_changed location_received member_removed
    locations_pruned circle_decrypt_error
step-unlocated s (loaded circle members) pubkey n h = h
step-unlocated s (epoch_changed id epoch) pubkey n h = h
step-unlocated s (member_status_updated k status) pubkey n h = h
step-unlocated s (located k location) pubkey n h = ground (arith, eq_iff k pubkey)
step-unlocated s (removed id k token) pubkey n h =
    delete_for-none (truthy k) s.decrypted_locations pubkey h
step-unlocated s (accepted id k) pubkey n h = rw member_accepted-locations h
step-unlocated s (pruned now) pubkey n h =
    drop_if-none (is_expired now) (s.decrypted_locations pubkey) h
step-unlocated s (alert_added alert) pubkey n h = rw proximity_alert_added-locations h
step-unlocated s active_alert_dismissed pubkey n h = h
step-unlocated s (decrypt_error message) pubkey n h = h
step-unlocated s circle_left pubkey n h = refl

run-unlocated :
    (actions : List CirclesAction) (s : CirclesState) (pubkey : String)
    → NoLocations pubkey actions
    → s.decrypted_locations pubkey ≡ none
    → (foldl reducer s actions).decrypted_locations pubkey ≡ none
run-unlocated [] s pubkey n h = h
run-unlocated (a ∷ actions) s pubkey n h =
    run-unlocated actions (reducer s a) pubkey n.1 (step-unlocated s a pubkey n.0 h)

-- Once a member is removed by public key, no sequence of later actions brings its location back,
-- unless one of them is a received location of that member.
pub removed-stays_unlocated :
    (s : CirclesState) (id pubkey : String) (token : Option String) (actions : List CirclesAction)
    → pubkey ≢ ""
    → NoLocations pubkey actions
    → (foldl reducer (reducer s (removed id (some pubkey) token)) actions).decrypted_locations
        pubkey
      ≡ none
removed-stays_unlocated s id pubkey token actions h n =
    run-unlocated actions (reducer s (removed id (some pubkey) token)) pubkey n
      (removed-forgets s id pubkey token h).1

expired_at_mono :
    (o : Option ℕ) (now later : ℕ)
    → now ≤ later
    → expired_at o now ≡ true
    → expired_at o later ≡ true
unfolding expired_at
expired_at_mono none now later h e = e
expired_at_mono (some t) now later h e = ground arith

drop_if_twice :
    (now later : ℕ) (o : Option DecryptedLocation)
    → now ≤ later
    → drop_if (is_expired later) (drop_if (is_expired now) o) ≡ drop_if (is_expired later) o
drop_if_twice now later none h = refl
drop_if_twice now later (some l) h = ground (arith, expired_at_mono l.expires_at now later h)

-- Pruning at one time and again later leaves the same state as pruning at the later time alone.
pruned-pruned :
    (s : CirclesState) (now later : ℕ)
    → now ≤ later
    → reducer (reducer s (pruned now)) (pruned later) ≡ reducer s (pruned later)
unfolding reducer locations_pruned
pruned-pruned s now later h =
    ap (λ m. record s { decrypted_locations = m })
      (fun_ext λ k. drop_if_twice now later (s.decrypted_locations k) h)

-- After pruning, every location that is held expires later than the time of pruning, or never.
pruned-unexpired :
    (s : CirclesState) (now : ℕ) (pubkey : String) (l : DecryptedLocation) (t : ℕ)
    → (reducer s (pruned now)).decrypted_locations pubkey ≡ some l
    → l.expires_at ≡ some t
    → (s.decrypted_locations pubkey ≡ some l) × (now < t)
unfolding reducer locations_pruned expired_at
pruned-unexpired s now pubkey l t h e =
    let (held, fresh) = drop_if-some (is_expired now) (s.decrypted_locations pubkey) h in
    (held, ground (arith, rw e at fresh))
