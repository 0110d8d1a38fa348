-- ===== src/Moderation/Laws.antt =====
-- What blocking and muting change.
use sentinelmesh.Common.{
  String, Bool, true, false, not, ◌==◌, ◌≡◌, arith, to_lower, if◌then◌else◌, eq_iff,
}
use sentinelmesh.Common.Sets
use sentinelmesh.Moderation.{
  Preferences, is_blocked, is_muted, blocked_pubkeys, muted_pubkeys, block_pubkey, unblock_pubkey,
  mute_pubkey, unmute_pubkey,
}

-- The four writes: each is a flag that it sets for one key, whatever the case of its letters.
pub data Write : Type 0 where
  block unblock mute unmute : Write

abbrev pub write : Write → Preferences → String → Preferences
write block prefs p = block_pubkey prefs p
write unblock prefs p = unblock_pubkey prefs p
write mute prefs p = mute_pubkey prefs p
write unmute prefs p = unmute_pubkey prefs p

abbrev pub blocked_after : Write → Bool → Bool
blocked_after block old = true
blocked_after unblock old = false
blocked_after mute old = old
blocked_after unmute old = old

abbrev pub muted_after : Write → Bool → Bool
muted_after block old = old
muted_after unblock old = old
muted_after mute old = true
muted_after unmute old = false

-- After a write for the key `p`, the key `q` is blocked, or muted, as before, except that the write's own flag is set or cleared where the two keys are the same up to the case of their letters: blocking changes no mute, nor muting a block, nor either another key.
write-flags :
    (w : Write) (prefs : Preferences) (p q : String)
    → let same = to_lower p == to_lower q in
      (is_blocked (write w prefs p) q
        ≡ (if same then blocked_after w (is_blocked prefs q) else is_blocked prefs q))
      × (is_muted (write w prefs p) q
          ≡ (if same then muted_after w (is_muted prefs q) else is_muted prefs q))
unfolding is_blocked is_muted blocked_pubkeys muted_pubkeys block_pubkey unblock_pubkey mute_pubkey
    unmute_pubkey
write-flags block prefs p q = ground (
  arith,
  Sets.includes-add (to_lower q) (Sets.of_list (blocked_pubkeys prefs)) (to_lower p),
  Sets.includes-of_list (to_lower q) (blocked_pubkeys prefs),
)
write-flags unblock prefs p q = ground (
  arith,
  Sets.includes-filter (to_lower q) (λ x. not (x == to_lower p)) (blocked_pubkeys prefs),
  eq_iff (to_lower p) (to_lower q),
  eq_iff (to_lower q) (to_lower p),
)
write-flags mute prefs p q = ground (
  arith,
  Sets.includes-add (to_lower q) (Sets.of_list (muted_pubkeys prefs)) (to_lower p),
  Sets.includes-of_list (to_lower q) (muted_pubkeys prefs),
)
write-flags unmute prefs p q = ground (
  arith,
  Sets.includes-filter (to_lower q) (λ x. not (x == to_lower p)) (muted_pubkeys prefs),
  eq_iff (to_lower p) (to_lower q),
  eq_iff (to_lower q) (to_lower p),
)
