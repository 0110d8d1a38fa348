-- ===== src/Backup/Files.antt =====
-- Backup files: exportBackup, decryptBackup and currentVaultId
-- (apps/pwa/src/services/backupService.ts), with formatVaultId of identityStore.ts.
-- PBKDF2 and the JSON of a file are parameters; the text of a blob stands for the blob.
pub mod Exported
use Prim.Native.Char.{Char, code}
use Prim.Native.String.{[], ◌∷◌, ◌++◌}
use sentinelmesh.Common.{
  ℕ, zero, suc, String, Bool, false, List, Option, none, some, ◌==◌, eqb, if◌then◌else◌, and_then,
  try_then, require, or_throw, ◌⊎◌, inl, inr, text_prefix,
}
use sentinelmesh.Vault.{
  CryptoKey, VaultPayload, IdentityDb, Browser, load_vault, encode_vault_payload,
  decode_vault_payload,
}
use sentinelmesh.Vault.Circles.{save_vault_meta}
use sentinelmesh.Vault.Fingerprint.{fingerprint_payload, vault_fingerprint}

abbrev pub backup_format : String
backup_format = "sentinelmesh-vault-backup"

abbrev pub pbkdf2_iterations : ℕ
pbkdf2_iterations = 600000

pub record Kdf : Type 0 where
  pub name : String
  pub hash : String
  pub iterations : ℕ
  pub salt : String

pub record BackupFile : Type 0 where
  pub format : String
  pub version : ℕ
  pub kdf : Kdf
  pub iv : String
  pub ciphertext : String

-- What `JSON.parse` gives for a file: the fields that are there with their type.
pub record FileJson : Type 0 where
  pub format : Option String
  pub version : Option ℕ
  pub iterations : Option ℕ
  pub salt : Option String
  pub iv : Option String
  pub ciphertext : Option String

-- `derive_key` takes the passphrase, the salt and the number of iterations; `none` where it throws.
pub record FileServices : Type 0 where
  pub browser : Browser
  pub derive_key : String → List ℕ → ℕ → Option CryptoKey
  pub stringify_file : BackupFile → String
  pub parse_file : String → Option FileJson

pub record FileRandom : Type 0 where
  pub salt : List ℕ
  pub iv : List ℕ

-- `toUpperCase` on hexadecimal digits.
abbrev pub upper_digit : Char → String
upper_digit c =
    if eqb (code c) b'a'
    then "A"
    else if eqb (code c) b'b'
    then "B"
    else if eqb (code c) b'c'
    then "C"
    else if eqb (code c) b'd'
    then "D"
    else if eqb (code c) b'e'
    then "E"
    else if eqb (code c) b'f'
    then "F"
    else c ∷ []

unfoldable pub upper_hex : String → String
upper_hex [] = []
upper_hex (c ∷ s) = upper_digit c ++ upper_hex s

-- `s.slice(n)`
unfoldable pub text_rest : ℕ → String → String
text_rest zero s = s
text_rest (suc n) [] = []
text_rest (suc n) (c ∷ s) = text_rest n s

unfoldable pub format_vault_id : String → String
format_vault_id fingerprint =
    let h = upper_hex (text_prefix 12 fingerprint) in
    text_prefix 4 h
    ++ ("-" ++ (text_prefix 4 (text_rest 4 h) ++ ("-" ++ text_prefix 4 (text_rest 8 h))))

abbrev pub backup_file : FileServices → FileRandom → CryptoKey → VaultPayload → BackupFile
backup_file services random key payload = record {
  format = backup_format;
  version = 1;
  kdf = record {
    name = "PBKDF2";
    hash = "SHA-256";
    iterations = pbkdf2_iterations;
    salt = services.browser.btoa random.salt;
  };
  iv = services.browser.btoa random.iv;
  ciphertext = services.browser.btoa (
      services.browser.encrypt key random.iv List.[]
        (services.browser.encode_text (encode_vault_payload services.browser payload)));
}

-- The error that is thrown, or the text of the file and the database.
unfoldable pub export_backup :
    FileServices → FileRandom → String → IdentityDb → String ⊎ (String × IdentityDb)
export_backup services random passphrase db =
    try_then (or_throw (load_vault services.browser db) "No identity to back up") (λ payload.
      try_then
        (or_throw (services.derive_key passphrase random.salt pbkdf2_iterations) "OperationError")
        (λ key. inr (
          services.stringify_file (backup_file services random key payload),
          save_vault_meta
              (record { last_exported_fingerprint = vault_fingerprint services.browser db }) db,
        )))

unfoldable pub current_vault_id : FileServices → IdentityDb → String
current_vault_id services db = format_vault_id (vault_fingerprint services.browser db)

abbrev pub is_backup : FileJson → Bool
is_backup file = elim file.format [
  | none ↦ false
  | some format ↦
      if format == backup_format
      then elim file.version [ none ↦ false | some version ↦ eqb version 1 ]
      else false
]

-- The payload in the file, if nothing throws.
unfoldable pub open_file : FileServices → FileJson → String → Option VaultPayload
open_file services file passphrase =
    let browser = services.browser in
    and_then file.salt (λ salt. and_then (browser.atob salt) (λ salt_bytes.
      and_then file.iterations (λ iterations.
        and_then (services.derive_key passphrase salt_bytes iterations) (λ key.
          and_then file.iv (λ iv. and_then (browser.atob iv) (λ iv_bytes.
            and_then file.ciphertext (λ text. and_then (browser.atob text) (λ sent.
              and_then (browser.decrypt key iv_bytes List.[] sent)
                (λ plain. decode_vault_payload browser (browser.decode_text plain))))))))))

-- The error that is thrown, or the payload with its vault id.
unfoldable pub decrypt_backup : FileServices → String → String → String ⊎ (VaultPayload × String)
decrypt_backup services text passphrase =
    try_then (or_throw (services.parse_file text) "Not a valid backup file") (λ file.
      require (is_backup file) "Unrecognized or unsupported backup file format" (
        try_then
          (or_throw (open_file services file passphrase)
            "Incorrect passphrase or corrupted backup file")
          (λ payload.
            inr (payload, format_vault_id (fingerprint_payload services.browser payload)))))
