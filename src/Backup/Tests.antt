-- ===== src/Backup/Tests.antt =====
-- Restoring a backup of which one circle fails.
use sentinelmesh.Common.{
  ℕ, String, List, [], ◌∷◌, ◌++◌, ◌==◌, text_prefix, length, none, some, ◌≡◌, refl, inl, inr, false,
  eqb, if◌then◌else◌,
}
use sentinelmesh.Vault.{
  CryptoKey, IdentityDb, Browser, VaultPayload, Random, load_vault, open_record, read_plain,
  decode_vault_payload, decode_circles,
}
use sentinelmesh.Vault.Fingerprint.{vault_fingerprint, fingerprint_payload, sha256_hex, hex_of}
use sentinelmesh.Vault.Circles.{save_vault_meta}
use sentinelmesh.Vault.RoundTrip.{with_epochs}
use sentinelmesh.Backup.Files.{
  FileServices, FileRandom, export_backup, decrypt_backup, current_vault_id, format_vault_id,
  upper_hex, text_rest,
}
use sentinelmesh.Backup.Files.Exported.{IsReadable, decrypt_backup-exported}
use sentinelmesh.CircleKeys.{KeyBrowser, save_circle_key_with_backup}
use sentinelmesh.Backup.{Device, apply_restore, restore_circles, restore_circle}
use sentinelmesh.Backup.Restored.{count, AllAccounted, apply_restore-AllAccounted}

-- A key has one byte here.
abbrev browser : KeyBrowser
browser = record {
  browser = record {
    btoa = λ bs. "";
    atob = λ s. none;
    stringify = λ p. "";
    parse = λ s. none;
    encode_text = λ s. [];
    decode_text = λ bs. "";
    encrypt = λ k i a p. p;
    decrypt = λ k i a c. none;
    sha256 = λ bs. bs;
    public_key = λ sk. "ada";
  };
  import_key = λ raw extractable.
      if eqb (length raw) 1
      then inr (record { raw = raw; extractable = extractable })
      else inl "DataError";
}

abbrev random : Random
random = record { wrap_key = record { raw = []; extractable = false }; iv = [] }

abbrev payload : VaultPayload
payload = record {
  identity_sk = 5 ∷ [];
  circles =
      (record { id = "home"; key = 7 ∷ []; epoch = some 2 })
      ∷ (record { id = "work"; key = []; epoch = none })
      ∷ [];
}

abbrev device : Device
device = record {
  keys = record {
    circle_keys = λ c e. none;
    bare_keys = λ c. none;
    local_storage = λ c. none;
    identity = record {
      identity_wrap_key = none;
      nostr_sk = none;
      vault_meta = none;
      scoped_home_location = none;
    };
  };
  circle_ids = [];
  keypair = none;
}

one_failed :
    (apply_restore browser random (λ n. random) payload device).1.circles_failed ≡ "work" ∷ []
unfolding apply_restore restore_circles restore_circle save_circle_key_with_backup
one_failed = refl

apply_restore-AllAccounted_example :
    (count (apply_restore browser random (λ n. random) payload device).1 ≡ 2)
    × AllAccounted browser payload.circles payload.circles
        (apply_restore browser random (λ n. random) payload device).0
        (apply_restore browser random (λ n. random) payload device).1
    × ((apply_restore browser random (λ n. random) payload device).0.keypair
        ≡ some (record { public_key = "ada"; secret_key = 5 ∷ [] }))
apply_restore-AllAccounted_example =
    apply_restore-AllAccounted browser random (λ n. random) payload device

-- A device whose vault has the circle "home", and encodings of its backup.
abbrev stored_home : VaultPayload
stored_home = record {
  identity_sk = 7 ∷ [];
  circles = (record { id = "home"; key = 7 ∷ []; epoch = some 1 }) ∷ [];
}

abbrev aes : CryptoKey
aes = record { raw = 1 ∷ []; extractable = false }

abbrev sixteen : List ℕ
sixteen = 2 ∷ 2 ∷ 2 ∷ 2 ∷ 2 ∷ 2 ∷ 2 ∷ 2 ∷ 2 ∷ 2 ∷ 2 ∷ 2 ∷ 2 ∷ 2 ∷ 2 ∷ 2 ∷ []

abbrev file_random : FileRandom
file_random = record { salt = 7 ∷ []; iv = 7 ∷ [] }

abbrev vault_browser : Browser
vault_browser = record {
  btoa = λ bs. if eqb (length bs) 1 then "Bw==" else "AgIC";
  atob = λ s. if s == "Bw==" then some (7 ∷ []) else some (7 ∷ sixteen);
  stringify = λ p. "json";
  parse = λ s. some (record {
    identity_sk = "Bw==";
    circles = some ((record { id = "home"; key = "Bw=="; epoch = some 1 }) ∷ []);
  });
  encode_text = λ s. 3 ∷ [];
  decode_text = λ bs. "json";
  encrypt = λ k i a p. 7 ∷ sixteen;
  decrypt = λ k i a c. some (3 ∷ []);
  sha256 = λ bs. 171 ∷ 205 ∷ 239 ∷ 1 ∷ 35 ∷ 69 ∷ [];
  public_key = λ sk. "ada";
}

abbrev file_services : FileServices
file_services = record {
  browser = vault_browser;
  derive_key = λ p salt n. some aes;
  stringify_file = λ f. "file";
  parse_file = λ s. some (record {
    format = some "sentinelmesh-vault-backup";
    version = some 1;
    iterations = some 600000;
    salt = some "Bw==";
    iv = some "Bw==";
    ciphertext = some "AgIC";
  });
}

abbrev home_db : IdentityDb
home_db = record {
  identity_wrap_key = some aes;
  nostr_sk = some (record { version = 2; blob = sixteen ++ sixteen });
  vault_meta = none;
  scoped_home_location = none;
}

home_loads : load_vault vault_browser home_db ≡ some stored_home
unfolding load_vault open_record read_plain decode_vault_payload decode_circles
home_loads = refl

home_id : current_vault_id file_services home_db ≡ "ABCD-EF01-2345"
unfolding current_vault_id format_vault_id vault_fingerprint load_vault open_record read_plain
    decode_vault_payload decode_circles fingerprint_payload sha256_hex hex_of upper_hex text_rest
    text_prefix
home_id = refl

home-IsReadable : IsReadable file_services file_random "secret" aes stored_home
home-IsReadable = record {
  derives = refl;
  parses_file = refl;
  salt = refl;
  iv = refl;
  ciphertext = refl;
  decrypts = refl;
  decodes = refl;
  parses = refl;
  secret = refl;
  keys = (refl, tt);
}

decrypt_backup-exported_example :
    (text : String) × (export_backup file_services file_random "secret" home_db
      ≡ inr (
        text,
        save_vault_meta
            (record { last_exported_fingerprint = vault_fingerprint vault_browser home_db })
            home_db,
      ))
    × (decrypt_backup file_services text "secret"
        ≡ inr (with_epochs stored_home, current_vault_id file_services home_db))
decrypt_backup-exported_example =
    decrypt_backup-exported file_services file_random "secret" aes stored_home home_db home_loads
      home-IsReadable
