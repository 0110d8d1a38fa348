-- ===== src/CircleSocket/Shown.antt =====
-- Which locations of members are shown: authentic ones, and of each member the newest.
use sentinelmesh.Common.{
  ℕ, String, true, Option, none, some, ◌⊎◌, inl, inr, ◌≡◌, refl, ◌==◌, eqb, arith, eq_iff,
  Bool-cases, Option-cases, to_lower,
}
use sentinelmesh.Validation.{NostrEvent}
use sentinelmesh.Circles.{reducer, location_received, circle_decrypt_error}
use sentinelmesh.Vault.{Random, CryptoKey}
use sentinelmesh.CircleKeys.{KeyStore, KeyBrowser, load_circle_key}
use sentinelmesh.CircleLocation.{LocationServices, VerifiedCircleLocation, decrypt_circle_location}
use sentinelmesh.CircleLocation.Accepted.{IsAuthentic, decrypt_circle_location-IsAuthentic}
use sentinelmesh.CircleSocket.{
  Roster, CircleLocationEnvelope, Live, is_duplicate, shown_location, receive, handle_envelope,
}

module _ (iso_time : ℕ → String) where
  receive_cases :
      (s : Live) (loc : VerifiedCircleLocation) (p : String)
      → ((receive iso_time s loc).circles.decrypted_locations p ≡ s.circles.decrypted_locations p)
        ⊎ ((to_lower loc.pubkey ≡ p)
            × ((receive iso_time s loc).circles.decrypted_locations p
                ≡ some (shown_location iso_time loc)))
  unfolding receive reducer location_received
  receive_cases s loc p = elim (Bool-cases (is_duplicate (s.seen (to_lower loc.pubkey)) loc)) [
    | inl e ↦ inl (rw (e, receive) refl)
    | inr e ↦ elim (Bool-cases (to_lower loc.pubkey == p)) [
      | inl same ↦ inr ((eq_iff (to_lower loc.pubkey) p).0 same, rw (e, receive) (rw same refl))
      | inr other ↦ inl (rw (e, receive) (rw other refl))
    ]
  ]

  -- A location that a step shows of a member: it comes from an event of a member for this circle.
  abbrev pub IsShownBy :
      LocationServices → Roster → ℕ → CircleLocationEnvelope → Live → String → Type 0
  IsShownBy services roster now env s p =
      (v : VerifiedCircleLocation) × (event : NostrEvent) × (to_lower v.pubkey ≡ p)
      × (s.circles.decrypted_locations p ≡ some (shown_location iso_time v))
      × (env.key_epoch ≡ roster.epoch)
      × IsAuthentic services env.circle_id env.key_epoch roster.pubkeys now event v

  -- What a step may change of the location shown of a member.
  abbrev pub IsStep :
      LocationServices → Roster → ℕ → CircleLocationEnvelope → Live → Live → String → Type 0
  IsStep services roster now env s s' p =
      (s'.circles.decrypted_locations p ≡ s.circles.decrypted_locations p)
      ⊎ IsShownBy services roster now env s' p

  received-IsStep :
      (services : LocationServices) (roster : Roster) (now : ℕ) (env : CircleLocationEnvelope)
      (s : Live) (key : CryptoKey) (loc : VerifiedCircleLocation) (p : String)
      → env.key_epoch ≡ roster.epoch
      → decrypt_circle_location services key env.ciphertext env.circle_id env.key_epoch
          roster.pubkeys now
        ≡ some loc
      → IsStep services roster now env s (receive iso_time s loc) p
  received-IsStep services roster now env s key loc p epoch e =
      let (iv, sealed, plaintext, event, a, b, c, authentic) =
        decrypt_circle_location-IsAuthentic services key env.ciphertext env.circle_id env.key_epoch
          roster.pubkeys now loc e in
      elim (receive_cases s loc p) [
        | inl same ↦ inl same
        | inr (mine, shown) ↦ inr (loc, event, mine, shown, epoch, authentic)
      ]

  -- Handling an envelope leaves the location shown of a member as it was or shows one that comes from a signed event of that member, who is in the roster, for the envelope's circle and the roster's epoch, which is current and in range; whatever the envelope holds and whether or not there is a key.
  pub handle_envelope-IsStep :
      (b : KeyBrowser) (services : LocationServices) (random : Random) (roster : Roster) (now : ℕ)
      (s : Live) (env : CircleLocationEnvelope) (p : String)
      → IsStep services roster now env s
          (handle_envelope iso_time b services random roster now s env)
          p
  unfolding handle_envelope reducer circle_decrypt_error
  handle_envelope-IsStep b services random roster now s env p =
      elim (Bool-cases (eqb env.key_epoch roster.epoch)) [
        | inr other ↦ inl (rw (other, handle_envelope) refl)
        | inl same ↦
            loaded (ground (arith, same)) same
              (load_circle_key b random env.circle_id env.key_epoch s.keys) refl
      ]
    where
      loaded :
          env.key_epoch ≡ roster.epoch
          → eqb env.key_epoch roster.epoch ≡ true
          → (l : (String ⊎ Option CryptoKey) × KeyStore)
          → load_circle_key b random env.circle_id env.key_epoch s.keys ≡ l
          → IsStep services roster now env s
              (handle_envelope iso_time b services random roster now s env)
              p
      loaded epoch same (inl message, keys) e = inl (rw (same, e, handle_envelope) refl)
      loaded epoch same (inr none, keys) e = inl (rw (same, e, handle_envelope) refl)
      loaded epoch same (inr (some key), keys) e =
          elim (Option-cases (
            decrypt_circle_location services key env.ciphertext env.circle_id env.key_epoch
              roster.pubkeys now)) [
                | inl none' ↦ inl (rw (same, e, none', handle_envelope) refl)
                | inr (loc, got) ↦
                    rw (same, e, got, handle_envelope)
                      (received-IsStep services roster now env
                        (record s {
                          keys = (load_circle_key b random env.circle_id env.key_epoch s.keys).1;
                        })
                        key loc p epoch got)
              ]
