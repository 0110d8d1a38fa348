-- ===== src/CircleKeys.antt =====
-- The circle keys on the device: the first half of apps/pwa/src/services/e2eeService.ts. The rows of
-- its IndexedDB database are a function of a circle and an epoch, and the older rows one of a circle:
-- the code joins circle and epoch by a colon, which a circle's id, a UUID, does not have. That the
-- database can be opened and written is taken for granted, and so is that nothing else runs while one
-- of these functions awaits. A call that makes several random vectors takes a sequence.
pub mod Custody
pub mod Epochs
pub mod Loading
mod Tests
use sentinelmesh.Common.{
  ℕ, zero, suc, ◌+◌, ◌-◌, max, String, Bool, true, false, ◌&&◌, List, Option, none, some, ◌⊎◌, inl,
  inr, ◌==◌, eqb, if◌then◌else◌,
}
use sentinelmesh.Vault.{CryptoKey, IdentityDb, Browser, Random}
use sentinelmesh.Vault.Circles.{upsert_circle_key, remove_vault_circle}

pub record KeyStore : Type 0 where
  pub circle_keys : String → ℕ → Option CryptoKey
  -- Keys from before there were epochs, under the circle's id.
  pub bare_keys : String → Option CryptoKey
  -- Still older ones, as base64 text under `LEGACY_KEY_PREFIX + circleId`.
  pub local_storage : String → Option String
  pub identity : IdentityDb

-- The browser, with the `importKey` of Web Crypto for raw bytes and the flag `extractable`; it throws
-- on bytes that are no AES key.
pub record KeyBrowser : Type 0 where
  pub browser : Browser
  pub import_key : List ℕ → Bool → String ⊎ CryptoKey

abbrev pub idb_put : String → ℕ → CryptoKey → KeyStore → KeyStore
idb_put circle_id epoch key s = record s {
  circle_keys = λ c e. if c == circle_id && eqb e epoch then some key else s.circle_keys c e;
}

abbrev pub idb_delete : String → ℕ → KeyStore → KeyStore
idb_delete circle_id epoch s = record s {
  circle_keys = λ c e. if c == circle_id && eqb e epoch then none else s.circle_keys c e;
}

abbrev pub delete_bare : String → KeyStore → KeyStore
delete_bare circle_id s = record s {
  bare_keys = λ c. if c == circle_id then none else s.bare_keys c;
}

abbrev pub remove_item : String → KeyStore → KeyStore
remove_item circle_id s = record s {
  local_storage = λ c. if c == circle_id then none else s.local_storage c;
}

unfoldable pub to_non_extractable : CryptoKey → CryptoKey
to_non_extractable key =
    if key.extractable then record { raw = key.raw; extractable = false } else key

unfoldable pub save_circle_key : String → CryptoKey → ℕ → KeyStore → KeyStore
save_circle_key circle_id key epoch s =
    remove_item circle_id (idb_put circle_id epoch (to_non_extractable key) s)

-- The error that is thrown, if any, and the store.
unfoldable pub save_circle_key_with_backup :
    KeyBrowser → Random → String → List ℕ → ℕ → KeyStore → Option String × KeyStore
save_circle_key_with_backup b random circle_id raw_key epoch s = elim (b.import_key raw_key false) [
  | inl message ↦ (some message, s)
  | inr live_key ↦
      let s' = remove_item circle_id (idb_put circle_id epoch live_key s) in
      (
        none,
        record s' {
          identity = upsert_circle_key b.browser random circle_id raw_key epoch s'.identity;
        },
      )
]

-- The migration of a key from localStorage, once its bytes are decoded.
unfoldable pub migrate :
    KeyBrowser → Random → String → List ℕ → KeyStore → (String ⊎ Option CryptoKey) × KeyStore
migrate b random circle_id raw s = elim (b.import_key raw false) [
  | inl message ↦ (inl message, s)
  | inr key ↦
      let s' = idb_put circle_id 1 key s in
      (
        inr (some key),
        remove_item circle_id (record s' {
          identity = upsert_circle_key b.browser random circle_id raw 1 s'.identity;
        }),
      )
]

-- The rest of `loadCircleKey`, where there is no key under the epoch nor under the bare id; an empty
-- item of localStorage counts as none.
unfoldable pub load_from_local_storage :
    KeyBrowser → Random → String → ℕ → KeyStore → (String ⊎ Option CryptoKey) × KeyStore
load_from_local_storage b random circle_id epoch s = elim (s.local_storage circle_id) [
  | none ↦ (inr none, s)
  | some b64 ↦
      if b64 == ""
      then (inr none, s)
      else if eqb epoch 1
      then elim (b.browser.atob b64) [
        | none ↦ (inl "InvalidCharacterError", s)
        | some raw ↦ migrate b random circle_id raw s
      ]
      else (inr none, s)
]

-- The error that is thrown or the key, and the store.
unfoldable pub load_circle_key :
    KeyBrowser → Random → String → ℕ → KeyStore → (String ⊎ Option CryptoKey) × KeyStore
load_circle_key b random circle_id epoch s = elim (s.circle_keys circle_id epoch) [
  | some existing ↦ (inr (some existing), s)
  | none ↦
      if eqb epoch 1
      then elim (s.bare_keys circle_id) [
        | some legacy ↦ (inr (some legacy), delete_bare circle_id (idb_put circle_id 1 legacy s))
        | none ↦ load_from_local_storage b random circle_id epoch s
      ]
      else load_from_local_storage b random circle_id epoch s
]

abbrev pub remove_backup : KeyBrowser → Random → String → Option ℕ → KeyStore → KeyStore
remove_backup b random circle_id epoch s = record s {
  identity = remove_vault_circle b.browser random circle_id epoch s.identity;
}

-- The loop that deletes the epochs from 1 to n.
unfoldable pub delete_epochs : String → ℕ → KeyStore → KeyStore
delete_epochs circle_id zero s = s
delete_epochs circle_id (suc n) s = idb_delete circle_id (suc n) (delete_epochs circle_id n s)

unfoldable pub clear_circle_key : KeyBrowser → Random → String → Option ℕ → KeyStore → KeyStore
clear_circle_key b random circle_id none s =
    remove_backup b random circle_id none
      (remove_item circle_id (delete_bare circle_id (delete_epochs circle_id 64 s)))
clear_circle_key b random circle_id (some epoch) s =
    remove_backup b random circle_id (some epoch)
      (remove_item circle_id (idb_delete circle_id epoch s))

-- With the bytes of the fresh key; the key that is returned is extractable.
unfoldable pub rotate_circle_key :
    KeyBrowser → Random → List ℕ → String → ℕ → KeyStore → (String ⊎ CryptoKey) × KeyStore
rotate_circle_key b random fresh circle_id next_epoch s =
    let (error, s') = save_circle_key_with_backup b random circle_id fresh next_epoch s in
    (
      elim error [
        | none ↦ inr (record { raw = fresh; extractable = true })
        | some message ↦ inl message
      ],
      s',
    )

-- The loop over the epochs from 1 to n, each with its random vector.
unfoldable pub purge_epochs : KeyBrowser → (ℕ → Random) → String → ℕ → KeyStore → KeyStore
purge_epochs b randoms circle_id zero s = s
purge_epochs b randoms circle_id (suc n) s =
    remove_backup b (randoms (suc n)) circle_id (some (suc n))
      (idb_delete circle_id (suc n) (purge_epochs b randoms circle_id n s))

-- The loop runs while `e < floor`, to the epoch before it.
unfoldable pub purge_circle_key_epochs :
    KeyBrowser → (ℕ → Random) → String → ℕ → KeyStore → KeyStore
purge_circle_key_epochs b randoms circle_id current_epoch s =
    let floor = max 1 (current_epoch - 1) in purge_epochs b randoms circle_id (floor - 1) s
