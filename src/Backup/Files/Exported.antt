-- ===== src/Backup/Files/Exported.antt =====
-- A backup that is exported is decrypted with the same passphrase, to the vault that it was made of.
use Prim.Native.String.{◌++◌}
use sentinelmesh.Common.{String, List, [], ◌∷◌, map, some, ◌≡◌, refl, ap, inr}
use sentinelmesh.Participants.{sort_texts}
use sentinelmesh.Vault.{
  CryptoKey, VaultCircle, VaultPayload, IdentityDb, Browser, load_vault, encode_vault_payload,
  decode_vault_payload,
}
use sentinelmesh.Vault.Circles.{save_vault_meta}
use sentinelmesh.Vault.RoundTrip.{
  AreBase64, stored_payload, stored_text, with_epoch, with_epochs, decode_circles-stored, plaintext,
}
use sentinelmesh.Vault.Fingerprint.{
  circle_line, join_lines, sha256_hex, fingerprint_payload, vault_fingerprint,
}
use sentinelmesh.Backup.Files.{
  BackupFile, FileJson, FileServices, FileRandom, open_file, export_backup, decrypt_backup,
  current_vault_id,
}

-- What is parsed of a file's text.
abbrev pub parsed_file : BackupFile → FileJson
parsed_file f = record {
  format = some f.format;
  version = some f.version;
  iterations = some f.kdf.iterations;
  salt = some f.kdf.salt;
  iv = some f.iv;
  ciphertext = some f.ciphertext;
}

-- The file that is to be written: the payload's text, encrypted under the derived key and the random
-- vector, with what is needed to derive the key again.
abbrev pub file_of : FileServices → FileRandom → CryptoKey → VaultPayload → BackupFile
file_of services random key p = record {
  format = "sentinelmesh-vault-backup";
  version = 1;
  kdf = record {
    name = "PBKDF2";
    hash = "SHA-256";
    iterations = 600000;
    salt = services.browser.btoa random.salt;
  };
  iv = services.browser.btoa random.iv;
  ciphertext =
      services.browser.btoa
        (services.browser.encrypt key random.iv [] (plaintext services.browser p));
}

-- PBKDF2 derives this key, and the cipher, the encodings and JSON give this file and this payload
-- back.
pub record IsReadable (services : FileServices) (random : FileRandom) (passphrase : String)
    (key : CryptoKey) (p : VaultPayload) : Type 0 where
  pub derives : services.derive_key passphrase random.salt 600000 ≡ some key
  pub parses_file :
      services.parse_file (services.stringify_file (file_of services random key p))
      ≡ some (parsed_file (file_of services random key p))
  pub salt : services.browser.atob (services.browser.btoa random.salt) ≡ some random.salt
  pub iv : services.browser.atob (services.browser.btoa random.iv) ≡ some random.iv
  pub ciphertext :
      services.browser.atob (
        services.browser.btoa
          (services.browser.encrypt key random.iv [] (plaintext services.browser p)))
      ≡ some (services.browser.encrypt key random.iv [] (plaintext services.browser p))
  pub decrypts :
      services.browser.decrypt key random.iv []
        (services.browser.encrypt key random.iv [] (plaintext services.browser p))
      ≡ some (plaintext services.browser p)
  pub decodes :
      services.browser.decode_text (plaintext services.browser p) ≡ stored_text services.browser p
  pub parses :
      services.browser.parse (stored_text services.browser p)
      ≡ some (stored_payload services.browser p)
  pub secret : services.browser.atob (services.browser.btoa p.identity_sk) ≡ some p.identity_sk
  pub keys : AreBase64 services.browser p.circles

opened :
    (services : FileServices) (random : FileRandom) (passphrase : String) (key : CryptoKey)
    (p : VaultPayload)
    → IsReadable services random passphrase key p
    → open_file services (parsed_file (file_of services random key p)) passphrase
      ≡ some (with_epochs p)
unfolding open_file decode_vault_payload
opened services random passphrase key p h =
    rw
      (
        h.salt,
        h.derives,
        h.iv,
        h.ciphertext,
        h.decrypts,
        h.decodes,
        h.parses,
        h.secret,
        decode_circles-stored services.browser p.circles h.keys,
      )
      refl

-- Epochs are not part of a fingerprint.
lines-with_epoch :
    (browser : Browser) (cs : List VaultCircle)
    → map (circle_line browser) (map with_epoch cs) ≡ map (circle_line browser) cs
unfolding circle_line
lines-with_epoch browser [] = refl
lines-with_epoch browser (c ∷ cs) =
    ap (λ t. circle_line browser c ∷ t) (lines-with_epoch browser cs)

fingerprint-with_epochs :
    (browser : Browser) (p : VaultPayload)
    → fingerprint_payload browser (with_epochs p) ≡ fingerprint_payload browser p
unfolding fingerprint_payload
fingerprint-with_epochs browser p =
    ap
      (λ lines. sha256_hex browser (
        browser.encode_text
          (browser.public_key p.identity_sk ++ ("\n" ++ join_lines (sort_texts lines)))))
      (lines-with_epoch browser p.circles)

current :
    (browser : Browser) (p : VaultPayload) (db : IdentityDb)
    → load_vault browser db ≡ some p
    → fingerprint_payload browser p ≡ vault_fingerprint browser db
unfolding vault_fingerprint
current browser p db e = rw (e, vault_fingerprint) refl

-- A backup of the stored vault is written without an error and changes only the note of the last export, which becomes the vault's fingerprint. With the same passphrase it decrypts to the vault's payload, each circle with its epoch written out, and the id that is shown for it is the current id of the vault. PBKDF2 derives a key, and the cipher, base64, JSON and the text encoding give back what is written.
pub decrypt_backup-exported :
    (services : FileServices) (random : FileRandom) (passphrase : String) (key : CryptoKey)
    (p : VaultPayload) (db : IdentityDb)
    → load_vault services.browser db ≡ some p
    → IsReadable services random passphrase key p
    → (text : String) × (export_backup services random passphrase db
        ≡ inr (
          text,
          save_vault_meta
              (record { last_exported_fingerprint = vault_fingerprint services.browser db })
              db,
        ))
      × (decrypt_backup services text passphrase
          ≡ inr (with_epochs p, current_vault_id services db))
unfolding export_backup decrypt_backup current_vault_id encode_vault_payload
decrypt_backup-exported services random passphrase key p db e h = (
  services.stringify_file (file_of services random key p),
  rw (e, h.derives) refl,
  rw
      (
        h.parses_file,
        opened services random passphrase key p h,
        fingerprint-with_epochs services.browser p,
        current services.browser p db e,
      )
      refl,
)
