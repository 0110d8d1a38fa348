-- ===== src/CircleSocket.antt =====
-- Messages on a circle's socket: apps/pwa/src/services/circleWebSocket.ts, with the key store, the
-- envelopes and the circles slice that it connects. `handleEnvelope` is cut where it awaits: what
-- follows the decryption is `receive`, and `handle_envelope` is a run with nothing in between. The
-- roster is the one of the last rendering. The connection itself, its timer and its
-- authentication, is not here.
pub mod Shown
pub mod Newest
mod Tests
use sentinelmesh.Common.{
  ℕ, String, Bool, true, false, ◌&&◌, ◌||◌, not, List, [], ◌∷◌, map, filter, foldl, find, Option,
  none, some, ◌⊎◌, inl, inr, ◌==◌, eqb, ltb, if◌then◌else◌, Dict, put, get_or, or_else, to_lower,
}
use sentinelmesh.Common.Sets
use sentinelmesh.Types.{Circle, CircleMember, MembershipState, pending, active}
use sentinelmesh.Circles
use sentinelmesh.Circles.{CirclesState, CircleEpoch, DecryptedLocation, CirclesAction, reducer}
use sentinelmesh.Vault.{Random}
use sentinelmesh.CircleKeys.{KeyStore, KeyBrowser, load_circle_key}
use sentinelmesh.CircleLocation.{LocationServices, VerifiedCircleLocation, decrypt_circle_location}

pub record Roster : Type 0 where
  pub pubkeys : List String
  pub epoch : ℕ
  pub self_token : Option String

pub record LastSeen : Type 0 where
  pub event_id : String
  pub captured_at : ℕ

-- What the code reads of an envelope.
pub record CircleLocationEnvelope : Type 0 where
  pub circle_id : String
  pub key_epoch : ℕ
  pub ciphertext : String

pub data CircleWsMessage : Type 0 where
  location_snapshot : List CircleLocationEnvelope → CircleWsMessage
  location_envelope : CircleLocationEnvelope → CircleWsMessage
  epoch_changed : String → CircleEpoch → CircleWsMessage
  member_removed : String → String → CircleWsMessage

-- The slice, the key store, the map `seenRef`, and the code with which the socket was closed.
pub record Live : Type 0 where
  pub circles : CirclesState
  pub keys : KeyStore
  pub seen : Dict LastSeen
  pub closed : Option ℕ

-- `members.filter(m => m.pubkey && m.membership_state !== 'PENDING').map(m => m.pubkey.toLowerCase())`
unfoldable pub active_pubkeys : List CircleMember → List String
active_pubkeys [] = []
active_pubkeys (m ∷ ms) =
    let rest = active_pubkeys ms in
    elim (Circles.truthy m.pubkey) [
      | none ↦ rest
      | some pubkey ↦ elim m.membership_state [ some pending ↦ rest | _ ↦ to_lower pubkey ∷ rest ]
    ]

abbrev pub find_circle : String → CirclesState → Option Circle
find_circle circle_id s = find (λ c. c.circle_id == circle_id) s.circles

-- The selectors and `rosterRef`.
unfoldable pub roster_of : String → CirclesState → Roster
roster_of circle_id s = record {
  pubkeys = Sets.of_list (active_pubkeys (get_or [] (s.members circle_id)));
  epoch = elim (s.epochs circle_id) [
    | some e ↦ e.key_epoch
    | none ↦ elim (find_circle circle_id s) [ none ↦ 1 | some c ↦ get_or 1 c.key_epoch ]
  ];
  self_token = elim (find_circle circle_id s) [ none ↦ none | some c ↦ c.self_token ];
}

abbrev pub is_duplicate : Option LastSeen → VerifiedCircleLocation → Bool
is_duplicate none loc = false
is_duplicate (some last) loc =
    last.event_id == loc.event_id || ltb loc.content.captured_at last.captured_at

module _ (iso_time : ℕ → String) where
  -- The payload of `locationReceived`.
  abbrev pub shown_location : VerifiedCircleLocation → DecryptedLocation
  shown_location loc = record {
    lat = loc.content.lat;
    lng = loc.content.lng;
    ts = iso_time loc.content.captured_at;
    event_id = some loc.event_id;
    expires_at = some loc.expires_at;
    accuracy_m = some loc.content.accuracy_m;
    precision = some loc.content.precision;
  }

  -- `handleEnvelope` after the decryption.
  unfoldable pub receive : Live → VerifiedCircleLocation → Live
  receive s loc =
      let pubkey = to_lower loc.pubkey in
      if is_duplicate (s.seen pubkey) loc then s else record s {
        seen =
            put pubkey (record { event_id = loc.event_id; captured_at = loc.content.captured_at })
              s.seen;
        circles = reducer s.circles (Circles.located pubkey (shown_location loc));
      }

  abbrev pub decrypt_failed : Live → Live
  decrypt_failed s = record s {
    circles = reducer s.circles (Circles.decrypt_error "circle key unavailable");
  }

  -- Where loading the key throws, the promise is rejected and nothing follows.
  unfoldable pub handle_envelope :
      KeyBrowser → LocationServices → Random → Roster → ℕ → Live → CircleLocationEnvelope → Live
  handle_envelope b services random roster now s env =
      if not (eqb env.key_epoch roster.epoch)
      then s
      else let (result, keys) = load_circle_key b random env.circle_id env.key_epoch s.keys in
        elim result [
          | inl message ↦ record s { keys = keys }
          | inr none ↦ decrypt_failed (record s { keys = keys })
          | inr (some key) ↦
              elim (decrypt_circle_location services key env.ciphertext env.circle_id env.key_epoch
                roster.pubkeys now) [
                  | none ↦ record s { keys = keys }
                  | some loc ↦ receive (record s { keys = keys }) loc
                ]
        ]

  -- Both are texts, or the own token is unknown.
  abbrev is_self : String → Roster → Bool
  is_self token roster = elim roster.self_token [ none ↦ false | some own ↦ token == own ]

  unfoldable pub on_message :
      KeyBrowser → LocationServices → Random → Roster → ℕ → Live → CircleWsMessage → Live
  on_message b services random roster now s (location_snapshot envs) =
      foldl (handle_envelope b services random roster now) s envs
  on_message b services random roster now s (location_envelope env) =
      handle_envelope b services random roster now s env
  on_message b services random roster now s (epoch_changed circle_id epoch) = record s {
    circles = reducer s.circles (Circles.epoch_changed circle_id epoch);
  }
  on_message b services random roster now s (member_removed circle_id token) =
      if is_self token roster
      then record s { circles = reducer s.circles Circles.circle_left; closed = some 4003 }
      else record s { circles = reducer s.circles (Circles.removed circle_id none (some token)) }
