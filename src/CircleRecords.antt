-- ===== src/CircleRecords.antt =====
-- The records of circles as they are loaded from the gateway: toCircleAndMembers
-- (apps/pwa/src/hooks/useCircles.ts), decryptString (services/e2eeService.ts) and the owners' keys
-- (services/circleIdStore.ts), over the keys of CircleKeys and KeyEvents. The gateway's answer is an
-- argument, with the event of a key wrap as it is parsed; `parse_label` stands for the `JSON.parse`
-- of a label, `none` where it throws or gives no object. The requests of the hook are not modelled.
pub mod Locked
mod Tests
use sentinelmesh.Common.{
  ℕ, String, Bool, true, false, ◌&&◌, not, List, map, [], Option, none, some, ◌==◌, eqb, and_then,
  only_if, if◌then◌else◌, get_or, Dict, put, to_lower, ◌⊎◌, inl, inr,
}
use sentinelmesh.Types.{
  Double, double, Field, undefined, null, value, Circle, CircleMember, Severity, medium,
  MembershipState,
}
use sentinelmesh.Validation.{NostrEvent, is_lowercase_hex64}
use sentinelmesh.Vault.{CryptoKey, Random, Browser}
use sentinelmesh.CircleKeys.{KeyStore, load_circle_key}
use sentinelmesh.CircleLocation.{decode_b64}
use sentinelmesh.KeyEvents.{KeyServices, unwrap_nip44_circle_key, unwrap_legacy_circle_key}
use sentinelmesh.Backup.{NostrKeypair}

pub record RawMember : Type 0 where
  pub circle_id : String
  pub member_token : Option String
  pub member_label_ciphertext : Field String
  pub alert_radius_km : Option Double
  pub alert_severity : Option Severity
  pub membership_state : Option MembershipState
  pub accepted_at : Option String
  pub key_wrap_epoch : Option ℕ
  pub joined_at : String

pub record KeyWrap : Type 0 where
  pub version : Option ℕ
  pub event : Option NostrEvent
  pub ciphertext : Option String

pub record RawCircleDetail : Type 0 where
  pub id : String
  pub name : Option String
  pub name_ciphertext : Field String
  pub name_version : Option ℕ
  pub key_epoch : Option ℕ
  pub location_protocol_version : Option ℕ
  pub rekey_required : Option Bool
  pub membership_revision : Option ℕ
  pub self_token : Option String
  pub created_at : String
  pub is_owner : Option Bool
  pub members : List RawMember
  pub my_key_wrap : Option KeyWrap

-- What a member's label says, as far as it is there.
pub record Label : Type 0 where
  pub pubkey : Option String
  pub name : Option String

pub record RecordServices : Type 0 where
  pub keys : KeyServices
  pub keypair : NostrKeypair
  pub owner_keys : Dict String
  pub parse_label : String → Option Label

-- The random values of the three steps that may write the vault.
pub record RecordRandom : Type 0 where
  pub first : Random
  pub unwrap : Random
  pub second : Random

unfoldable pub save_circle_owner_key : String → String → Dict String → Dict String
save_circle_owner_key id owner_pubkey values = put id (to_lower owner_pubkey) values

unfoldable pub get_circle_owner_key : String → Dict String → Option String
get_circle_owner_key id values =
    and_then (values id) (λ value. only_if (is_lowercase_hex64 value) (some value))

unfoldable pub decrypt_string : Browser → CryptoKey → String → Option String
decrypt_string browser key text = and_then (decode_b64 browser text) (λ (iv, sent).
    and_then (browser.decrypt key iv [] sent) (λ plain. some (browser.decode_text plain)))

-- A text in a condition: present and not empty.
abbrev pub given : Option String → Option String
given none = none
given (some t) = if t == "" then none else some t

abbrev pub field_text : Field String → Option String
field_text undefined = none
field_text null = none
field_text (value t) = given (some t)

-- `value ?? null`
abbrev pub or_null {ℓ} : {A : Type ℓ} → Option A → Field A
or_null none = null
or_null (some a) = value a

abbrev pub unwrap_old :
    RecordServices → Random → String → String → Option String → KeyStore → KeyStore
unwrap_old services random id owner none s = s
unwrap_old services random id owner (some ciphertext) s =
    (unwrap_legacy_circle_key services.keys services.keypair random id owner ciphertext s).1

-- What is thrown while unwrapping is caught.
unfoldable pub unwrap_key :
    RecordServices → Random → String → String → KeyWrap → KeyStore → KeyStore
unwrap_key services random id owner wrap s = elim wrap.event [
  | some event ↦
      if eqb (get_or 0 wrap.version) 2
      then (unwrap_nip44_circle_key services.keys services.keypair random id owner event s).1
      else unwrap_old services random id owner (given wrap.ciphertext) s
  | none ↦ unwrap_old services random id owner (given wrap.ciphertext) s
]

abbrev pub LoadedKey : Type 0
LoadedKey = (String ⊎ Option CryptoKey) × KeyStore

-- The key is loaded again where there was none and the owner is known.
unfoldable pub retry_key :
    RecordServices → RecordRandom → RawCircleDetail → ℕ → LoadedKey → LoadedKey
retry_key services random detail epoch (inr none, s) = elim detail.my_key_wrap [
  | none ↦ (inr none, s)
  | some wrap ↦ elim (get_circle_owner_key detail.id services.owner_keys) [
    | none ↦ (inr none, s)
    | some owner ↦
        load_circle_key services.keys.keys random.second detail.id epoch
          (unwrap_key services random.unwrap detail.id owner wrap s)
  ]
]
retry_key services random detail epoch (inr (some key), s) = (inr (some key), s)
retry_key services random detail epoch (inl error, s) = (inl error, s)

unfoldable pub circle_key : RecordServices → RecordRandom → RawCircleDetail → KeyStore → LoadedKey
circle_key services random detail s =
    let epoch = get_or 1 detail.key_epoch in
    retry_key services random detail epoch
      (load_circle_key services.keys.keys random.first detail.id epoch s)

unfoldable pub display_name : RecordServices → RawCircleDetail → Option CryptoKey → String
display_name services detail none = get_or "(unnamed)" detail.name
display_name services detail (some key) = elim (field_text detail.name_ciphertext) [
  | none ↦ get_or "(unnamed)" detail.name
  | some text ↦
      if eqb (get_or 0 detail.name_version) 1
      then get_or "(locked)" (decrypt_string services.keys.keys.browser key text)
      else get_or "(unnamed)" detail.name
]

unfoldable pub label_of : RecordServices → Option CryptoKey → RawMember → Option Label
label_of services none m = none
label_of services (some key) m = and_then (field_text m.member_label_ciphertext) (λ text.
    and_then (decrypt_string services.keys.keys.browser key text)
      (λ decoded. and_then (given (some decoded)) services.parse_label))

-- Five kilometres, as a bit pattern, stand for a missing radius.
unfoldable pub member_of : RecordServices → Option CryptoKey → RawMember → CircleMember
member_of services key m = record {
  circle_id = m.circle_id;
  member_token = or_null m.member_token;
  alert_radius_km = get_or (double 4617315517961601024) m.alert_radius_km;
  alert_severity = get_or medium m.alert_severity;
  joined_at = m.joined_at;
  member_label_ciphertext = m.member_label_ciphertext;
  membership_state = some (get_or MembershipState.active m.membership_state);
  accepted_at = or_null m.accepted_at;
  key_wrap_epoch = or_null m.key_wrap_epoch;
  pubkey = and_then (label_of services key m) (λ l. l.pubkey);
  label = and_then (label_of services key m) (λ l. l.name);
}

unfoldable pub circle_of : RecordServices → RawCircleDetail → Option CryptoKey → Circle
circle_of services detail key = record {
  circle_id = detail.id;
  name = value (display_name services detail key);
  name_ciphertext = detail.name_ciphertext;
  name_version = detail.name_version;
  key_epoch = some (get_or 1 detail.key_epoch);
  location_protocol_version = detail.location_protocol_version;
  rekey_required = detail.rekey_required;
  membership_revision = detail.membership_revision;
  self_token = detail.self_token;
  created_at = detail.created_at;
  is_owner = some (get_or false detail.is_owner);
}

abbrev pub records_with :
    RecordServices
    → RawCircleDetail
    → LoadedKey
    → (String ⊎ (Circle × List CircleMember)) × KeyStore
records_with services detail (inl error, s) = (inl error, s)
records_with services detail (inr key, s) =
    (inr (circle_of services detail key, map (member_of services key) detail.members), s)

-- The error that is thrown or the records, and the store.
unfoldable pub to_circle_and_members :
    RecordServices
    → RecordRandom
    → RawCircleDetail
    → KeyStore
    → (String ⊎ (Circle × List CircleMember)) × KeyStore
to_circle_and_members services random detail s =
    records_with services detail (circle_key services random detail s)
