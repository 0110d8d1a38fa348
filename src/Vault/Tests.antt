-- ===== src/Vault/Tests.antt =====
-- A small browser, runs of the vault on it, and instances of its theorems.
use sentinelmesh.Common.{
  ℕ, String, Bool, true, false, List, [], ◌∷◌, ◌++◌, none, some, ◌≡◌, refl, ◌==◌, eqb, ◌&&◌,
  if◌then◌else◌, arith, length, drop,
}
use sentinelmesh.Vault.{
  CryptoKey, VaultCircle, VaultPayload, IdentityDb, StoredPayload, Browser, Random,
  get_or_create_wrap_key, save_vault, load_vault, encode_vault_payload, load_secret_key,
  load_or_create_secret_key, open_record, read_plain,
}
use sentinelmesh.Vault.Circles.{
  with_key, without_keys, upsert_circle_key, load_vault_circle_key, remove_vault_circle, find_key,
  newest_first, insert_newest,
}
use sentinelmesh.Vault.RoundTrip.{IsCarried, with_epochs, load_vault-saved}
use sentinelmesh.Vault.Identity.{load_or_create-agrees}
use sentinelmesh.Vault.Keys.{is_removed, writes-find}

abbrev key : CryptoKey
key = record { raw = 9 ∷ []; extractable = false }

abbrev iv : List ℕ
iv = 1 ∷ 1 ∷ 1 ∷ 1 ∷ 1 ∷ 1 ∷ 1 ∷ 1 ∷ 1 ∷ 1 ∷ 1 ∷ 1 ∷ []

abbrev tag : List ℕ
tag = 2 ∷ 2 ∷ 2 ∷ 2 ∷ 2 ∷ 2 ∷ 2 ∷ 2 ∷ 2 ∷ 2 ∷ 2 ∷ 2 ∷ 2 ∷ 2 ∷ 2 ∷ 2 ∷ []

abbrev home : VaultCircle
home = record { id = "home"; key = 7 ∷ []; epoch = none }

abbrev payload : VaultPayload
payload = record { identity_sk = 5 ∷ []; circles = home ∷ [] }

-- A browser whose every encoding is of the one payload that it is given.
abbrev browser_of : StoredPayload → Browser
browser_of o = record {
  btoa = λ bs. if eqb (length bs) 0 then "" else "Bw==";
  atob = λ s. if s == "Bw==" then some (7 ∷ []) else some [];
  stringify = λ p. "json";
  parse = λ s. some o;
  encode_text = λ s. 3 ∷ [];
  decode_text = λ bs. "json";
  encrypt = λ k i a p. tag ++ p;
  decrypt = λ k i a c. some (3 ∷ []);
  sha256 = λ bs. bs;
  public_key = λ sk. "aa";
}

abbrev sevens : VaultPayload
sevens = record { identity_sk = 7 ∷ []; circles = home ∷ [] }

abbrev stored : StoredPayload
stored = record {
  identity_sk = "Bw==";
  circles = some ((record { id = "home"; key = "Bw=="; epoch = some 1 }) ∷ []);
}

abbrev empty_db : IdentityDb
empty_db = record {
  identity_wrap_key = none;
  nostr_sk = none;
  vault_meta = none;
  scoped_home_location = none;
}

abbrev random : Random
random = record { wrap_key = key; iv = iv }

sevens-IsCarried : IsCarried (browser_of stored) key iv sevens
unfolding encode_vault_payload
sevens-IsCarried = record {
  vector = refl;
  tagged = omega arith;
  decrypts = refl;
  decodes = refl;
  parses = refl;
  secret = refl;
  keys = (refl, tt);
}

load_vault-saved_example :
    load_vault (browser_of stored) (save_vault (browser_of stored) random sevens empty_db)
    ≡ some (with_epochs sevens)
unfolding get_or_create_wrap_key
load_vault-saved_example =
    load_vault-saved (browser_of stored) random sevens empty_db sevens-IsCarried

-- Without a stored key, the new one is stored.
abbrev alone : StoredPayload
alone = record { identity_sk = "Bw=="; circles = some [] }

abbrev created_payload : VaultPayload
created_payload = record { identity_sk = 7 ∷ []; circles = [] }

created-IsCarried : IsCarried (browser_of alone) key iv created_payload
unfolding encode_vault_payload
created-IsCarried = record {
  vector = refl;
  tagged = omega arith;
  decrypts = refl;
  decodes = refl;
  parses = refl;
  secret = refl;
  keys = tt;
}

load_or_create-agrees_example :
    (load_secret_key
        (browser_of alone)
        (load_or_create_secret_key (browser_of alone) random (7 ∷ []) empty_db).1
      ≡ some (load_or_create_secret_key (browser_of alone) random (7 ∷ []) empty_db).0)
    × (load_or_create_secret_key
          (browser_of alone)
          random
          (8 ∷ [])
          (load_or_create_secret_key (browser_of alone) random (7 ∷ []) empty_db).1
        ≡ load_or_create_secret_key (browser_of alone) random (7 ∷ []) empty_db)
unfolding get_or_create_wrap_key load_vault
load_or_create-agrees_example =
    load_or_create-agrees (browser_of alone) random random (7 ∷ []) (8 ∷ []) empty_db
      created-IsCarried

-- A browser for two payloads, one without circles and one with a circle's key, and a database with a
-- record of the first version, the secret key alone.
abbrev one : StoredPayload
one = record {
  identity_sk = "Bw==";
  circles = some ((record { id = "home"; key = "Bw=="; epoch = some 2 }) ∷ []);
}

abbrev has_circles : StoredPayload → Bool
has_circles p = elim p.circles [
  | none ↦ false
  | some cs ↦ if eqb (length cs) 0 then false else true
]

abbrev browser : Browser
browser = record {
  btoa = λ bs. "Bw==";
  atob = λ s. some (7 ∷ []);
  stringify = λ p. if has_circles p then "one" else "none";
  parse = λ s. some (if s == "one" then one else alone);
  encode_text = λ s. if s == "one" then 1 ∷ [] else [];
  decode_text = λ bs. if eqb (length bs) 1 then "one" else "none";
  encrypt = λ k i a p. tag ++ p;
  decrypt = λ k i a c. some (drop 16 c);
  sha256 = λ bs. bs;
  public_key = λ sk. "aa";
}

abbrev old_db : IdentityDb
old_db = record empty_db {
  identity_wrap_key = some key;
  nostr_sk = some (record { version = 1; blob = iv ++ tag ++ (7 ∷ []) });
}

one-IsCarried :
    IsCarried browser key iv (record created_payload { circles = with_key "home" (7 ∷ []) 2 [] })
unfolding encode_vault_payload
one-IsCarried = record {
  vector = refl;
  tagged = omega arith;
  decrypts = refl;
  decodes = refl;
  parses = refl;
  secret = refl;
  keys = (refl, tt);
}

none-IsCarried :
    IsCarried browser key iv (record created_payload { circles = without_keys "home" none [] })
unfolding encode_vault_payload
none-IsCarried = record {
  vector = refl;
  tagged = omega arith;
  decrypts = refl;
  decodes = refl;
  parses = refl;
  secret = refl;
  keys = tt;
}

writes-find_example :
    ((j : String) (e : ℕ)
      → (load_vault_circle_key browser j
            (some e)
            (upsert_circle_key browser random "home" (7 ∷ []) 2 old_db)
          ≡ (if "home" == j && eqb 2 e
              then some (7 ∷ [])
              else load_vault_circle_key browser j (some e) old_db))
        × (load_vault_circle_key browser j
              (some e)
              (remove_vault_circle browser random "home" none old_db)
            ≡ (if is_removed "home" none j e
                then none
                else load_vault_circle_key browser j (some e) old_db)))
    × (load_secret_key browser (upsert_circle_key browser random "home" (7 ∷ []) 2 old_db)
        ≡ load_secret_key browser old_db)
    × (load_secret_key browser (remove_vault_circle browser random "home" none old_db)
        ≡ load_secret_key browser old_db)
unfolding load_vault open_record read_plain get_or_create_wrap_key
writes-find_example =
    writes-find browser random old_db created_payload "home" (7 ∷ []) 2 none refl one-IsCarried
      none-IsCarried

-- Of three keys of a circle, the one of the newest epoch is found.
newest :
    find_key "home" none (
      home
      ∷ (record { id = "home"; key = 8 ∷ []; epoch = some 3 })
      ∷ (record { id = "work"; key = 6 ∷ []; epoch = some 4 })
      ∷ (record { id = "home"; key = 9 ∷ []; epoch = some 2 })
      ∷ [])
    ≡ some (8 ∷ [])
unfolding find_key newest_first insert_newest
newest = refl

abbrev work : VaultCircle
work = record { id = "work"; key = 6 ∷ []; epoch = none }
