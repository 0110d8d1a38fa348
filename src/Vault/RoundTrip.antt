-- ===== src/Vault/RoundTrip.antt =====
-- What is saved in the vault is what is loaded from it.
use sentinelmesh.Common.{
  ℕ, ◌≤◌, String, get_or, false, List, [], ◌∷◌, ◌++◌, map, some, ◌≡◌, refl, ap, ◌∙◌, ltb, length,
  take, drop, take-append, drop-append, length-append, and_then, arith, Option-cases, inl, inr,
  subst,
}
use sentinelmesh.Vault.{
  CryptoKey, VaultCircle, VaultPayload, VaultRecord, IdentityDb, StoredPayload, Browser, Random,
  vault_version, epoch_of, get_or_create_wrap_key, encode_vault_payload, stored_circle,
  decode_circles, decode_vault_payload, sealed, save_vault_unlocked, save_vault, read_plain,
  open_record, load_vault,
}

-- The object that is to be stored for a payload, its text and its bytes.
abbrev pub stored_payload : Browser → VaultPayload → StoredPayload
stored_payload browser p = record {
  identity_sk = browser.btoa p.identity_sk;
  circles = some (
      map (λ c. record { id = c.id; key = browser.btoa c.key; epoch = some (get_or 1 c.epoch) })
        p.circles);
}

abbrev pub stored_text : Browser → VaultPayload → String
stored_text browser p = browser.stringify (stored_payload browser p)

abbrev pub plaintext : Browser → VaultPayload → List ℕ
plaintext browser p = browser.encode_text (stored_text browser p)

-- Base64 gives the keys of these circles back.
abbrev pub AreBase64 : Browser → List VaultCircle → Type 0
AreBase64 browser [] = Unit
AreBase64 browser (c ∷ cs) = (browser.atob (browser.btoa c.key) ≡ some c.key) × AreBase64 browser cs

-- The browser's encodings give the object that is to be stored and its parts back, and its cipher
-- the object's bytes; a random
-- vector has 12 bytes, and a ciphertext a tag of 16.
pub record IsCarried (browser : Browser) (key : CryptoKey) (iv : List ℕ) (p : VaultPayload)
    : Type 0 where
  pub vector : length iv ≡ 12
  pub tagged : 16 ≤ length (browser.encrypt key iv [] (plaintext browser p))
  pub decrypts :
      browser.decrypt key iv [] (browser.encrypt key iv [] (plaintext browser p))
      ≡ some (plaintext browser p)
  pub decodes : browser.decode_text (plaintext browser p) ≡ stored_text browser p
  pub parses : browser.parse (stored_text browser p) ≡ some (stored_payload browser p)
  pub secret : browser.atob (browser.btoa p.identity_sk) ≡ some p.identity_sk
  pub keys : AreBase64 browser p.circles

-- A circle without an epoch is one of epoch 1.
abbrev pub with_epoch : VaultCircle → VaultCircle
with_epoch c = record c { epoch = some (epoch_of c) }

abbrev pub with_epochs : VaultPayload → VaultPayload
with_epochs p = record p { circles = map with_epoch p.circles }

pub decode_circles-stored :
    (browser : Browser) (cs : List VaultCircle)
    → AreBase64 browser cs
    → decode_circles browser (map (stored_circle browser) cs) ≡ some (map with_epoch cs)
unfolding decode_circles
decode_circles-stored browser [] h = refl
decode_circles-stored browser (c ∷ cs) h = rw (h.0, decode_circles-stored browser cs h.1) refl

decode-encode :
    (browser : Browser) (key : CryptoKey) (iv : List ℕ) (p : VaultPayload)
    → IsCarried browser key iv p
    → decode_vault_payload browser (stored_text browser p) ≡ some (with_epochs p)
unfolding decode_vault_payload
decode-encode browser key iv p h =
    rw (h.parses, h.secret, decode_circles-stored browser p.circles h.keys) refl

-- The two parts of a blob.
pub take-vector : (iv sent : List ℕ) → length iv ≡ 12 → take 12 (iv ++ sent) ≡ iv
take-vector iv sent e = subst (λ n. take n (iv ++ sent) ≡ iv) e (take-append iv sent)

pub drop-vector : (iv sent : List ℕ) → length iv ≡ 12 → drop 12 (iv ++ sent) ≡ sent
drop-vector iv sent e = subst (λ n. drop n (iv ++ sent) ≡ sent) e (drop-append iv sent)

pub long_enough :
    (iv sent : List ℕ) → length iv ≡ 12 → 16 ≤ length sent → ltb (length (iv ++ sent)) 28 ≡ false
long_enough iv sent e h = ground (arith, length-append iv sent)

open_record-sealed :
    (browser : Browser) (key : CryptoKey) (iv : List ℕ) (p : VaultPayload)
    → IsCarried browser key iv p
    → open_record browser key
        (record { version = vault_version; blob = sealed browser key iv [] (plaintext browser p) })
      ≡ some (with_epochs p)
unfolding open_record read_plain
open_record-sealed browser key iv p h =
    rw
      (
        long_enough iv (browser.encrypt key iv [] (plaintext browser p)) h.vector h.tagged,
        take-vector iv (browser.encrypt key iv [] (plaintext browser p)) h.vector,
        drop-vector iv (browser.encrypt key iv [] (plaintext browser p)) h.vector,
        h.decrypts,
        open_record,
        read_plain,
        h.decodes,
      )
      (decode-encode browser key iv p h)

pub created :
    (random : Random) (db : IdentityDb)
    → (get_or_create_wrap_key random db).1.identity_wrap_key
      ≡ some (get_or_create_wrap_key random db).0
unfolding get_or_create_wrap_key
created random db = elim (Option-cases db.identity_wrap_key) [
  | inl e ↦ ground (arith, e)
  | inr (key, e) ↦ ground (arith, e)
]

abbrev saved_record : Browser → Random → VaultPayload → IdentityDb → VaultRecord
saved_record browser random p db = record {
  version = vault_version;
  blob = sealed browser (get_or_create_wrap_key random db).0 random.iv [] (plaintext browser p);
}

-- A payload that is saved is the one that is loaded, each circle with its epoch written out, whatever was stored before, if the browser's encodings and cipher give back this payload and its bytes under the device's key, which is the one that is stored or, where there is none, the new one.
pub load_vault-saved :
    (browser : Browser) (random : Random) (p : VaultPayload) (db : IdentityDb)
    → IsCarried browser (get_or_create_wrap_key random db).0 random.iv p
    → load_vault browser (save_vault browser random p db) ≡ some (with_epochs p)
unfolding load_vault save_vault_unlocked encode_vault_payload
load_vault-saved browser random p db h =
    ap (λ o. and_then o (λ key. open_record browser key (saved_record browser random p db)))
      (created random db)
    ∙ open_record-sealed browser (get_or_create_wrap_key random db).0 random.iv p h
