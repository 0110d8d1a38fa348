-- ===== src/Moderation.antt =====
-- Block and mute lists (apps/pwa/src/services/chat/moderation.ts) over the preference rows of
-- chatStore.ts: `getPreference` returns null for a row that was never written.
pub mod Laws
mod Tests
use sentinelmesh.Common.{
  String, Bool, true, false, ◌||◌, not, List, [], Option, none, some, filter, includes, get_or,
  ◌==◌, to_lower, Dict, put, if◌then◌else◌,
}
use sentinelmesh.Common.Sets

-- The rows of the object store that hold lists of keys.
abbrev pub Preferences : Type 0
Preferences = Dict (List String)

abbrev pub blocked_key : String
blocked_key = "moderation:blocked_pubkeys"

abbrev pub muted_key : String
muted_key = "moderation:muted_pubkeys"

pub data QuarantineDecision : Type 0 where
  accept quarantine block : QuarantineDecision

unfoldable pub blocked_pubkeys : Preferences → List String
blocked_pubkeys prefs = get_or [] (prefs blocked_key)

unfoldable pub muted_pubkeys : Preferences → List String
muted_pubkeys prefs = get_or [] (prefs muted_key)

unfoldable pub is_blocked : Preferences → String → Bool
is_blocked prefs pubkey = includes (to_lower pubkey) (blocked_pubkeys prefs)

unfoldable pub is_muted : Preferences → String → Bool
is_muted prefs pubkey = includes (to_lower pubkey) (muted_pubkeys prefs)

unfoldable pub block_pubkey : Preferences → String → Preferences
block_pubkey prefs pubkey =
    put blocked_key (Sets.add (Sets.of_list (blocked_pubkeys prefs)) (to_lower pubkey)) prefs

unfoldable pub unblock_pubkey : Preferences → String → Preferences
unblock_pubkey prefs pubkey =
    put blocked_key (filter (λ p. not (p == to_lower pubkey)) (blocked_pubkeys prefs)) prefs

unfoldable pub mute_pubkey : Preferences → String → Preferences
mute_pubkey prefs pubkey =
    put muted_key (Sets.add (Sets.of_list (muted_pubkeys prefs)) (to_lower pubkey)) prefs

unfoldable pub unmute_pubkey : Preferences → String → Preferences
unmute_pubkey prefs pubkey =
    put muted_key (filter (λ p. not (p == to_lower pubkey)) (muted_pubkeys prefs)) prefs

-- The flags are `isContact`, `isCircleMember` and `isBlocked`.
unfoldable pub quarantine_decision : Bool → Bool → Bool → QuarantineDecision
quarantine_decision contact circle_member blocked =
    if blocked then block else if contact || circle_member then accept else quarantine
