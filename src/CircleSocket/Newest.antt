-- ===== src/CircleSocket/Newest.antt =====
-- Of each member, the newest location that arrived is the one that is shown.
use sentinelmesh.Common.{
  ℕ, ◌≤◌, String, Bool, true, false, ◌&&◌, List, [], ◌∷◌, Option, none, some, ◌⊎◌, inl, inr, ◌≡◌,
  refl, sym, ap, subst, ◌∙◌, ◌==◌, ltb, arith, eq_iff, Bool-cases, to_lower, any,
}
use sentinelmesh.Circles.{reducer, location_received, DecryptedLocation}
use sentinelmesh.CircleLocation.{VerifiedCircleLocation}
use sentinelmesh.CircleSocket.{LastSeen, Live, is_duplicate, shown_location, receive}

-- Whether a location is one of this member.
abbrev pub is_of : String → VerifiedCircleLocation → Bool
is_of p loc = to_lower loc.pubkey == p

abbrev pub is_newer_of : String → ℕ → VerifiedCircleLocation → Bool
is_newer_of p t loc = to_lower loc.pubkey == p && ltb t loc.content.captured_at

abbrev pub IsAmong : VerifiedCircleLocation → List VerifiedCircleLocation → Type 0
IsAmong v [] = ⊥
IsAmong v (x ∷ xs) = (v ≡ x) ⊎ IsAmong v xs

-- The id of an event determines its time.
abbrev pub AreTimed : (String → ℕ) → List VerifiedCircleLocation → Type 0
AreTimed time_of [] = Unit
AreTimed time_of (x ∷ xs) = (x.content.captured_at ≡ time_of x.event_id) × AreTimed time_of xs

is_newer-weaken :
    (p : String) (t t' : ℕ) (xs : List VerifiedCircleLocation)
    → t ≤ t'
    → any (is_newer_of p t) xs ≡ false
    → any (is_newer_of p t') xs ≡ false
is_newer-weaken p t t' [] l h = refl
is_newer-weaken p t t' (x ∷ xs) l h = ground (arith, is_newer-weaken p t t' xs)

is_newer-none :
    (p : String) (t : ℕ) (xs : List VerifiedCircleLocation)
    → any (is_of p) xs ≡ false
    → any (is_newer_of p t) xs ≡ false
is_newer-none p t [] h = refl
is_newer-none p t (x ∷ xs) h = ground (arith, is_newer-none p t xs)

abbrev pub seen_of : VerifiedCircleLocation → LastSeen
seen_of v = record { event_id = v.event_id; captured_at = v.content.captured_at }

module _ (iso_time : ℕ → String) where
  -- The arrivals, latest first.
  abbrev pub receive_all : Live → List VerifiedCircleLocation → Live
  receive_all s [] = s
  receive_all s (x ∷ earlier) = receive iso_time (receive_all s earlier) x

  -- What is shown of a member and kept in `seenRef`: the newest arrival, if there is any.
  abbrev pub ShowsNewest :
      Option LastSeen
      → Option DecryptedLocation
      → Option DecryptedLocation
      → String
      → List VerifiedCircleLocation
      → Type 0
  ShowsNewest seen shown before p xs =
      ((any (is_of p) xs ≡ false) × (seen ≡ none) × (shown ≡ before))
      ⊎ ((v : VerifiedCircleLocation) × IsAmong v xs
          × (to_lower v.pubkey ≡ p)
          × (seen ≡ some (seen_of v))
          × (shown ≡ some (shown_location iso_time v))
          × (any (is_newer_of p v.content.captured_at) xs ≡ false))

  abbrev IsNewestIn : Live → Live → String → List VerifiedCircleLocation → Type 0
  IsNewestIn s s' p xs =
      ShowsNewest (s'.seen p) (s'.circles.decrypted_locations p) (s.circles.decrypted_locations p) p
        xs

  -- What an arrival that is no duplicate leaves, and what the arrival of another member does.
  replaced :
      (s : Live) (x : VerifiedCircleLocation) (p : String)
      → to_lower x.pubkey ≡ p
      → is_duplicate (s.seen p) x ≡ false
      → ((receive iso_time s x).seen p ≡ some (seen_of x))
        × ((receive iso_time s x).circles.decrypted_locations p ≡ some (shown_location iso_time x))
  unfolding receive reducer location_received
  replaced s x p mine e = (
    ground (arith, ap s.seen mine, eq_iff (to_lower x.pubkey) p, e),
    ground (arith, ap s.seen mine, eq_iff (to_lower x.pubkey) p, e),
  )

  ignored :
      (s : Live) (x : VerifiedCircleLocation) (p : String)
      → to_lower x.pubkey ≡ p
      → is_duplicate (s.seen p) x ≡ true
      → receive iso_time s x ≡ s
  unfolding receive
  ignored s x p mine e = ground (arith, ap s.seen mine, e)

  untouched :
      (s : Live) (x : VerifiedCircleLocation) (p : String)
      → (to_lower x.pubkey == p) ≡ false
      → ((receive iso_time s x).seen p ≡ s.seen p)
        × ((receive iso_time s x).circles.decrypted_locations p ≡ s.circles.decrypted_locations p)
  unfolding receive reducer location_received
  untouched s x p other = elim (Bool-cases (is_duplicate (s.seen (to_lower x.pubkey)) x)) [
    | inl e ↦ rw (e, receive) (refl, refl)
    | inr e ↦ rw (e, receive) (rw other refl, rw other refl)
  ]

  of_another :
      (s s' : Live) (p : String) (x : VerifiedCircleLocation) (xs : List VerifiedCircleLocation)
      → (to_lower x.pubkey == p) ≡ false
      → IsNewestIn s s' p xs
      → IsNewestIn s (receive iso_time s' x) p (x ∷ xs)
  of_another s s' p x xs other (inl (without, seen, shown)) =
      let (same_seen, same_shown) = untouched s' x p other in
      inl (ground (arith, other, without), same_seen ∙ seen, same_shown ∙ shown)
  of_another s s' p x xs other (inr (v, among, mine, seen, shown, newest)) =
      let (same_seen, same_shown) = untouched s' x p other in
      inr (v, inr among, mine, same_seen ∙ seen, same_shown ∙ shown, ground (arith, other, newest))

  -- The location that is shown has the time of its event.
  time_of_among :
      (time_of : String → ℕ) (v : VerifiedCircleLocation) (xs : List VerifiedCircleLocation)
      → AreTimed time_of xs
      → IsAmong v xs
      → v.content.captured_at ≡ time_of v.event_id
  time_of_among time_of v [] timed among = absurd among
  time_of_among time_of v (x ∷ xs) timed (inl e) =
      subst (λ y. y.content.captured_at ≡ time_of y.event_id) (sym e) timed.0
  time_of_among time_of v (x ∷ xs) timed (inr among) = time_of_among time_of v xs timed.1 among

  not_newer :
      (time_of : String → ℕ) (v x : VerifiedCircleLocation)
      → v.content.captured_at ≡ time_of v.event_id
      → x.content.captured_at ≡ time_of x.event_id
      → is_duplicate (some (seen_of v)) x ≡ true
      → x.content.captured_at ≤ v.content.captured_at
  not_newer time_of v x e f h = elim (Bool-cases (v.event_id == x.event_id)) [
    | inl same ↦ let ids = ap time_of ((eq_iff v.event_id x.event_id).0 same) in ground (arith, ids)
    | inr other ↦ ground (arith, h, other)
  ]

  of_member :
      (time_of : String → ℕ) (s s' : Live) (p : String) (x : VerifiedCircleLocation)
      (xs : List VerifiedCircleLocation)
      → to_lower x.pubkey ≡ p
      → AreTimed time_of (x ∷ xs)
      → IsNewestIn s s' p xs
      → IsNewestIn s (receive iso_time s' x) p (x ∷ xs)
  of_member time_of s s' p x xs mine timed (inl (without, seen, shown)) =
      let (now_seen, now_shown) = replaced s' x p mine (ap (λ o. is_duplicate o x) seen) in
      inr (
        x,
        inl refl,
        mine,
        now_seen,
        now_shown,
        ground (arith, is_newer-none p x.content.captured_at xs without),
      )
  of_member time_of s s' p x xs mine timed (inr (v, among, its, seen, shown, newest)) =
      elim (Bool-cases (is_duplicate (some (seen_of v)) x)) [
        | inl old ↦
            let late =
              not_newer time_of v x (time_of_among time_of v xs timed.1 among) timed.0 old in
            let same = ignored s' x p mine (ap (λ o. is_duplicate o x) seen ∙ old) in
            inr (
              v,
              inr among,
              its,
              ap (λ t. t.seen p) same ∙ seen,
              ap (λ t. t.circles.decrypted_locations p) same ∙ shown,
              ground (arith, late, newest),
            )
        | inr new ↦
            let (now_seen, now_shown) =
              replaced s' x p mine (ap (λ o. is_duplicate o x) seen ∙ new) in
            inr (
              x,
              inl refl,
              mine,
              now_seen,
              now_shown,
              ground (
                arith,
                new,
                newest,
                is_newer-weaken p v.content.captured_at x.content.captured_at xs,
              ),
            )
      ]

  -- Whatever verified locations arrive, in whatever order and however often, the one that is then shown of a member is one of that member's that no other of the same member is newer than; if none arrived, what was shown stays. No location of the member may have been accepted before, and an event's id must determine its time.
  pub receive_all-newest :
      (time_of : String → ℕ) (s : Live) (p : String) (xs : List VerifiedCircleLocation)
      → s.seen p ≡ none
      → AreTimed time_of xs
      → ShowsNewest
          ((receive_all s xs).seen p)
          ((receive_all s xs).circles.decrypted_locations p)
          (s.circles.decrypted_locations p)
          p
          xs
  receive_all-newest time_of s p [] h timed = inl (refl, h, refl)
  receive_all-newest time_of s p (x ∷ xs) h timed =
      let before = receive_all-newest time_of s p xs h timed.1 in
      elim (Bool-cases (to_lower x.pubkey == p)) [
        | inl mine ↦
            of_member time_of s (receive_all s xs) p x xs ((eq_iff (to_lower x.pubkey) p).0 mine)
              timed before
        | inr other ↦ of_another s (receive_all s xs) p x xs other before
      ]
