-- ===== src/Vault.antt =====
-- The encrypted vault of the device: apps/pwa/src/services/identityStore.ts. The IndexedDB database
-- is a record of its rows; that it can be opened and written is taken for granted. The functions that
-- write run under a lock, and are functions of the database here; a generated key and a random vector
-- are arguments. Web Crypto, TextEncoder, base64 and JSON are parameters. Bytes are numbers.
pub mod Circles
pub mod Keys
pub mod Newest
pub mod RoundTrip
pub mod Identity
pub mod Fingerprint
mod Tests
use sentinelmesh.Common.{
  ℕ, suc, String, Bool, true, false, ◌&&◌, ◌||◌, not, List, [], ◌∷◌, ◌++◌, map, filter, find,
  Option, none, some, ◌==◌, eqb, leb, ltb, if◌then◌else◌, length, take, drop, get_elem?, and_then,
  only_if, get_or,
}

pub record CryptoKey : Type 0 where
  pub raw : List ℕ
  pub extractable : Bool

pub record VaultCircle : Type 0 where
  pub id : String
  pub key : List ℕ
  pub epoch : Option ℕ

pub record VaultPayload : Type 0 where
  pub identity_sk : List ℕ
  pub circles : List VaultCircle

pub record VaultRecord : Type 0 where
  pub version : ℕ
  pub blob : List ℕ

pub record VaultMeta : Type 0 where
  pub last_exported_fingerprint : String

-- The rows, by the names under which they are stored.
pub record IdentityDb : Type 0 where
  pub identity_wrap_key : Option CryptoKey
  pub nostr_sk : Option VaultRecord
  pub vault_meta : Option VaultMeta
  pub scoped_home_location : Option VaultRecord

-- The object whose JSON is stored; `circles` and an epoch may be missing.
pub record StoredCircle : Type 0 where
  pub id : String
  pub key : String
  pub epoch : Option ℕ

pub record StoredPayload : Type 0 where
  pub identity_sk : String
  pub circles : Option (List StoredCircle)

-- What the browser provides. A function that may throw gives an option; `additional_data` is empty
-- where the code gives none.
pub record Browser : Type 0 where
  pub btoa : List ℕ → String
  pub atob : String → Option (List ℕ)
  pub stringify : StoredPayload → String
  pub parse : String → Option StoredPayload
  pub encode_text : String → List ℕ
  pub decode_text : List ℕ → String
  pub encrypt : CryptoKey → List ℕ → List ℕ → List ℕ → List ℕ
  pub decrypt : CryptoKey → List ℕ → List ℕ → List ℕ → Option (List ℕ)
  pub sha256 : List ℕ → List ℕ
  pub public_key : List ℕ → String

-- A key that `generateKey` makes if one is needed, and the bytes that `getRandomValues` gives.
pub record Random : Type 0 where
  pub wrap_key : CryptoKey
  pub iv : List ℕ

abbrev pub vault_version : ℕ
vault_version = 2

abbrev pub epoch_of : VaultCircle → ℕ
epoch_of c = get_or 1 c.epoch

unfoldable pub get_or_create_wrap_key : Random → IdentityDb → CryptoKey × IdentityDb
get_or_create_wrap_key random db = elim db.identity_wrap_key [
  | some existing ↦ (existing, db)
  | none ↦ (random.wrap_key, record db { identity_wrap_key = some random.wrap_key })
]

abbrev pub stored_circle : Browser → VaultCircle → StoredCircle
stored_circle browser c = record { id = c.id; key = browser.btoa c.key; epoch = some (epoch_of c) }

unfoldable pub encode_vault_payload : Browser → VaultPayload → String
encode_vault_payload browser p = browser.stringify (record {
  identity_sk = browser.btoa p.identity_sk;
  circles = some (map (stored_circle browser) p.circles);
})

unfoldable pub decode_circles : Browser → List StoredCircle → Option (List VaultCircle)
decode_circles browser [] = some []
decode_circles browser (c ∷ cs) =
    let rest = decode_circles browser cs in
    and_then (browser.atob c.key) (λ key. and_then rest (λ decoded.
      some ((record { id = c.id; key = key; epoch = some (get_or 1 c.epoch) }) ∷ decoded)))

unfoldable pub decode_vault_payload : Browser → String → Option VaultPayload
decode_vault_payload browser json = and_then (browser.parse json) (λ o.
    and_then (browser.atob o.identity_sk) (λ sk.
      and_then (decode_circles browser (get_or [] o.circles))
        (λ circles. some (record { identity_sk = sk; circles = circles }))))

-- IV and ciphertext in one array.
abbrev pub sealed : Browser → CryptoKey → List ℕ → List ℕ → List ℕ → List ℕ
sealed browser key iv additional_data plaintext =
    iv ++ browser.encrypt key iv additional_data plaintext

unfoldable pub save_vault_unlocked : Browser → Random → VaultPayload → IdentityDb → IdentityDb
save_vault_unlocked browser random payload db =
    let (wrap_key, db') = get_or_create_wrap_key random db in
    record db' {
      nostr_sk = some (record {
        version = vault_version;
        blob =
            sealed browser wrap_key random.iv []
              (browser.encode_text (encode_vault_payload browser payload));
      });
    }

-- The end of `loadVault`, after decryption.
unfoldable pub read_plain : Browser → ℕ → List ℕ → Option VaultPayload
read_plain browser version plain =
    if eqb version 1
    then some (record { identity_sk = plain; circles = [] })
    else if eqb version vault_version
    then decode_vault_payload browser (browser.decode_text plain)
    else none

unfoldable pub open_record : Browser → CryptoKey → VaultRecord → Option VaultPayload
open_record browser wrap_key rec = only_if (not (ltb (length rec.blob) 28)) (
    and_then (browser.decrypt wrap_key (take 12 rec.blob) [] (drop 12 rec.blob))
      (λ plain. read_plain browser rec.version plain))

unfoldable pub load_vault : Browser → IdentityDb → Option VaultPayload
load_vault browser db =
    and_then db.identity_wrap_key
      (λ wrap_key. and_then db.nostr_sk (λ rec. open_record browser wrap_key rec))

abbrev pub save_vault : Browser → Random → VaultPayload → IdentityDb → IdentityDb
save_vault browser random payload db = save_vault_unlocked browser random payload db

abbrev pub circles_of : Option VaultPayload → List VaultCircle
circles_of none = []
circles_of (some v) = v.circles

unfoldable pub save_secret_key : Browser → Random → List ℕ → IdentityDb → IdentityDb
save_secret_key browser random sk db =
    save_vault_unlocked browser random
      (record { identity_sk = sk; circles = circles_of (load_vault browser db) }) db

unfoldable pub load_secret_key : Browser → IdentityDb → Option (List ℕ)
load_secret_key browser db = elim (load_vault browser db) [
  | none ↦ none
  | some v ↦ some v.identity_sk
]

-- With the key that `generate` would give.
unfoldable pub load_or_create_secret_key :
    Browser → Random → List ℕ → IdentityDb → List ℕ × IdentityDb
load_or_create_secret_key browser random sk db = elim (load_vault browser db) [
  | some existing ↦ (existing.identity_sk, db)
  | none ↦
      let db' = save_secret_key browser random sk db in
      (get_or sk (load_secret_key browser db'), db')
]

unfoldable pub clear_secret_key : IdentityDb → IdentityDb
clear_secret_key db = record db { nostr_sk = none; vault_meta = none }
