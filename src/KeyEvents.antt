-- ===== src/KeyEvents.antt =====
-- Circle keys that an owner sends to members: createNip44CircleKeyEvent, unwrapNip44CircleKey and
-- unwrapLegacyCircleKey (apps/pwa/src/services/e2eeService.ts), over the stores of CircleKeys. NIP-44,
-- the signature and JSON are parameters; the device's key pair, which getCachedKeypair gives, is an
-- argument. A number in a package or a tag is a natural number, compared exactly. Filling buffers
-- with zeros after use is not modelled.
pub mod Bound
pub mod Outcomes
pub mod Exchange
mod Tests
use sentinelmesh.Common.{
  ℕ, String, Bool, true, false, ◌&&◌, not, List, [], ◌∷◌, filter, Option, none, some, ◌==◌, eqb,
  leb, if◌then◌else◌, length, get_elem?, and_then, only_if, try_then, require, or_throw, decimal,
  is_number, number_from, to_lower, ◌⊎◌, inl, inr,
}
use sentinelmesh.Validation.{NostrEvent, is_named, is_lowercase_hex64}
use sentinelmesh.Nip29.{EventTemplate}
use sentinelmesh.Vault.{Random}
use sentinelmesh.Vault.Circles.{load_vault_circle_key}
use sentinelmesh.CircleKeys.{KeyStore, KeyBrowser, save_circle_key_with_backup}
use sentinelmesh.Backup.{NostrKeypair}

abbrev pub circle_key_event_kind : ℕ
circle_key_event_kind = 30079

abbrev pub circle_key_event_type : String
circle_key_event_type = "sentinelmesh-circle-key-v2"

pub record CircleKeyPackage : Type 0 where
  pub version : ℕ
  pub package_type : String
  pub circle_id : String
  pub key_epoch : ℕ
  pub algorithm : String
  pub key : String
  pub issued_at : ℕ

-- What `JSON.parse` gives for a package: the fields that are there with their type.
pub record PackageJson : Type 0 where
  pub version : Option ℕ
  pub package_type : Option String
  pub circle_id : Option String
  pub key_epoch : Option ℕ
  pub algorithm : Option String
  pub key : Option String

-- A function that may throw gives an option; `conversation_key` takes the own secret key and the
-- other side's public key, and gives the message that it throws.
pub record KeyServices : Type 0 where
  pub keys : KeyBrowser
  pub verify : NostrEvent → Bool
  pub finalize : EventTemplate → List ℕ → NostrEvent
  pub conversation_key : List ℕ → String → String ⊎ List ℕ
  pub nip44_encrypt : String → List ℕ → String
  pub nip44_decrypt : String → List ℕ → Option String
  pub stringify_package : CircleKeyPackage → String
  pub parse_package : String → Option PackageJson

-- The bytes of base64 text, if there are 32.
unfoldable pub decode_raw_b64 : KeyServices → String → Option (List ℕ)
decode_raw_b64 services text =
    and_then (services.keys.browser.atob text) (λ raw. only_if (eqb (length raw) 32) (some raw))

-- The value of the one tag of a name.
unfoldable pub lone_tag : NostrEvent → String → Option String
lone_tag event name =
    let matches = filter (is_named name) event.tags in
    only_if (eqb (length matches) 1) (and_then (get_elem? matches 0) (λ tag. get_elem? tag 1))

abbrev pub is_text : Option String → String → Bool
is_text none s = false
is_text (some t) s = t == s

abbrev pub is_value : Option ℕ → ℕ → Bool
is_value none n = false
is_value (some m) n = eqb m n

-- With the time in seconds.
abbrev pub key_package : KeyServices → ℕ → String → ℕ → List ℕ → CircleKeyPackage
key_package services now circle_id key_epoch raw_key = record {
  version = 2;
  package_type = circle_key_event_type;
  circle_id = circle_id;
  key_epoch = key_epoch;
  algorithm = "AES-256-GCM";
  key = services.keys.browser.btoa raw_key;
  issued_at = now;
}

abbrev pub key_template : ℕ → String → String → ℕ → String → EventTemplate
key_template now circle_id recipient_pubkey key_epoch content = record {
  kind = circle_key_event_kind;
  created_at = now;
  tags =
      ("d" ∷ circle_key_event_type ∷ [])
      ∷ ("circle" ∷ circle_id ∷ [])
      ∷ ("epoch" ∷ decimal key_epoch ∷ [])
      ∷ ("p" ∷ to_lower recipient_pubkey ∷ [])
      ∷ [];
  content = content;
}

-- The error that is thrown, or the event.
unfoldable pub create_nip44_circle_key_event :
    KeyServices → NostrKeypair → ℕ → String → String → ℕ → KeyStore → String ⊎ NostrEvent
create_nip44_circle_key_event services keypair now circle_id recipient_pubkey key_epoch s =
    require (is_lowercase_hex64 (to_lower recipient_pubkey)) "Invalid recipient public key" (
      require (leb key_epoch 9007199254740991 && leb 1 key_epoch) "Invalid key epoch" (
        try_then
          (or_throw
            (load_vault_circle_key services.keys.browser circle_id (some key_epoch) s.identity)
            "Circle key is not available in the encrypted vault")
          (λ raw_key.
            try_then (services.conversation_key keypair.secret_key recipient_pubkey) (λ shared.
              inr (
                services.finalize
                  (key_template now circle_id recipient_pubkey key_epoch (
                    services.nip44_encrypt
                      (services.stringify_package
                        (key_package services now circle_id key_epoch raw_key))
                      shared))
                  keypair.secret_key)))))

abbrev pub is_bound : NostrKeypair → String → NostrEvent → Bool
is_bound keypair circle_id event =
    is_text (lone_tag event "d") circle_key_event_type
    && (is_text (lone_tag event "circle") circle_id
        && is_text (lone_tag event "p") (to_lower keypair.public_key))

-- The checks before decryption, and the epoch that the event names.
unfoldable pub key_epoch_of : KeyServices → NostrKeypair → String → String → NostrEvent → String ⊎ ℕ
key_epoch_of services keypair circle_id owner_pubkey event =
    require (is_lowercase_hex64 owner_pubkey) "Circle owner key is unavailable" (
      require (services.verify event && eqb event.kind circle_key_event_kind)
        "Invalid circle key envelope"
        (require (event.pubkey == to_lower owner_pubkey)
          "Circle key envelope is not signed by the trusted owner"
          (require (is_bound keypair circle_id event)
            "Circle key envelope is not bound to this circle and recipient"
            (try_then (or_throw (lone_tag event "epoch") "Circle key envelope has no valid epoch")
              (λ epoch.
                require (is_number epoch) "Circle key envelope has no valid epoch"
                  (inr (number_from 0 epoch)))))))

abbrev pub is_package : String → ℕ → PackageJson → Bool
is_package circle_id key_epoch v =
    is_value v.version 2
    && (is_text v.package_type circle_key_event_type
        && (is_text v.circle_id circle_id
            && (is_value v.key_epoch key_epoch && is_text v.algorithm "AES-256-GCM")))

-- The key in the package, if all is well.
unfoldable pub open_package : KeyServices → List ℕ → String → ℕ → String → Option (List ℕ)
open_package services shared circle_id key_epoch content =
    and_then (services.nip44_decrypt content shared) (λ plaintext.
      and_then (services.parse_package plaintext) (λ v.
        only_if (is_package circle_id key_epoch v)
          (and_then v.key (λ key. decode_raw_b64 services key))))

-- What is thrown while the key is saved is replaced.
abbrev pub saved_as : ℕ → Option String × KeyStore → (String ⊎ ℕ) × KeyStore
saved_as key_epoch (none, s) = (inr key_epoch, s)
saved_as key_epoch (some message, s) = (inl "Invalid circle key envelope", s)

unfoldable pub save_opened :
    KeyServices → Random → String → ℕ → Option (List ℕ) → KeyStore → (String ⊎ ℕ) × KeyStore
save_opened services random circle_id key_epoch none s = (inl "Invalid circle key envelope", s)
save_opened services random circle_id key_epoch (some raw_key) s =
    saved_as key_epoch
      (save_circle_key_with_backup services.keys random circle_id raw_key key_epoch s)

-- The error that is thrown or the epoch, and the store.
unfoldable pub unwrap_nip44_circle_key :
    KeyServices
    → NostrKeypair
    → Random
    → String
    → String
    → NostrEvent
    → KeyStore
    → (String ⊎ ℕ) × KeyStore
unwrap_nip44_circle_key services keypair random circle_id owner_pubkey event s =
    elim (key_epoch_of services keypair circle_id owner_pubkey event) [
      | inl error ↦ (inl error, s)
      | inr key_epoch ↦ elim (services.conversation_key keypair.secret_key owner_pubkey) [
        | inl error ↦ (inl error, s)
        | inr shared ↦
            save_opened services random circle_id key_epoch
              (open_package services shared circle_id key_epoch event.content) s
      ]
    ]

abbrev pub is_legacy_package : String → PackageJson → Bool
is_legacy_package circle_id v =
    is_value v.version 1 && (is_text v.circle_id circle_id && is_text v.algorithm "AES-256-GCM")

unfoldable pub open_legacy_package : KeyServices → List ℕ → String → String → Option (List ℕ)
open_legacy_package services shared circle_id ciphertext =
    and_then (services.nip44_decrypt ciphertext shared) (λ plaintext.
      and_then (services.parse_package plaintext) (λ v.
        only_if (is_legacy_package circle_id v)
          (and_then v.key (λ key. decode_raw_b64 services key))))

-- The result of a success is the epoch 1, under which the key is saved.
unfoldable pub unwrap_legacy_circle_key :
    KeyServices
    → NostrKeypair
    → Random
    → String
    → String
    → String
    → KeyStore
    → (String ⊎ ℕ) × KeyStore
unwrap_legacy_circle_key services keypair random circle_id owner_pubkey ciphertext s =
    elim (is_lowercase_hex64 owner_pubkey) [
      | false ↦ (inl "Circle owner key is unavailable", s)
      | true ↦ elim (services.conversation_key keypair.secret_key owner_pubkey) [
        | inl error ↦ (inl error, s)
        | inr shared ↦
            save_opened services random circle_id 1
              (open_legacy_package services shared circle_id ciphertext) s
      ]
    ]
