-- ===== src/Vault/Circles.antt =====
-- The circle keys in the vault, and the other rows of its database
-- (apps/pwa/src/services/identityStore.ts).
use sentinelmesh.Common.{
  ℕ, String, Bool, ◌&&◌, not, List, [], ◌∷◌, ◌++◌, filter, find, Option, none, some, ◌==◌, eqb, leb,
  ltb, if◌then◌else◌, length, take, drop, get_elem?, and_then, only_if,
}
use sentinelmesh.Vault.{
  VaultCircle, VaultMeta, IdentityDb, Browser, Random, epoch_of, get_or_create_wrap_key, sealed,
  save_vault_unlocked, load_vault, circles_of,
}

abbrev pub is_entry : String → ℕ → VaultCircle → Bool
is_entry circle_id epoch c = c.id == circle_id && eqb (epoch_of c) epoch

abbrev pub with_key : String → List ℕ → ℕ → List VaultCircle → List VaultCircle
with_key circle_id raw_key epoch cs =
    filter (λ c. not (is_entry circle_id epoch c)) cs
    ++ (record { id = circle_id; key = raw_key; epoch = some epoch }) ∷ []

unfoldable pub upsert_circle_key : Browser → Random → String → List ℕ → ℕ → IdentityDb → IdentityDb
upsert_circle_key browser random circle_id raw_key epoch db = elim (load_vault browser db) [
  | none ↦ db
  | some v ↦
      save_vault_unlocked browser random
        (record v { circles = with_key circle_id raw_key epoch v.circles }) db
]

-- `entries.sort((a, b) => (b.epoch ?? 1) - (a.epoch ?? 1))`, which keeps the order of equals.
unfoldable pub insert_newest : VaultCircle → List VaultCircle → List VaultCircle
insert_newest c [] = c ∷ []
insert_newest c (d ∷ ds) =
    let rest = insert_newest c ds in if leb (epoch_of d) (epoch_of c) then c ∷ d ∷ ds else d ∷ rest

unfoldable pub newest_first : List VaultCircle → List VaultCircle
newest_first [] = []
newest_first (c ∷ cs) = insert_newest c (newest_first cs)

abbrev pub key_of : Option VaultCircle → Option (List ℕ)
key_of none = none
key_of (some c) = some c.key

unfoldable pub find_key : String → Option ℕ → List VaultCircle → Option (List ℕ)
find_key circle_id none cs =
    key_of (get_elem? (newest_first (filter (λ c. c.id == circle_id) cs)) 0)
find_key circle_id (some epoch) cs =
    key_of (find (λ c. eqb (epoch_of c) epoch) (filter (λ c. c.id == circle_id) cs))

unfoldable pub load_vault_circle_key : Browser → String → Option ℕ → IdentityDb → Option (List ℕ)
load_vault_circle_key browser circle_id epoch db =
    find_key circle_id epoch (circles_of (load_vault browser db))

abbrev pub without_keys : String → Option ℕ → List VaultCircle → List VaultCircle
without_keys circle_id none cs = filter (λ c. not (c.id == circle_id)) cs
without_keys circle_id (some epoch) cs = filter (λ c. not (is_entry circle_id epoch c)) cs

unfoldable pub remove_vault_circle : Browser → Random → String → Option ℕ → IdentityDb → IdentityDb
remove_vault_circle browser random circle_id epoch db = elim (load_vault browser db) [
  | none ↦ db
  | some v ↦
      save_vault_unlocked browser random
        (record v { circles = without_keys circle_id epoch v.circles }) db
]

abbrev pub load_vault_meta : IdentityDb → Option VaultMeta
load_vault_meta db = db.vault_meta

abbrev pub save_vault_meta : VaultMeta → IdentityDb → IdentityDb
save_vault_meta meta db = record db { vault_meta = some meta }

abbrev pub home_location : String
home_location = "home-location"

unfoldable pub save_scoped_device_record : Browser → Random → List ℕ → IdentityDb → IdentityDb
save_scoped_device_record browser random plaintext db =
    let (key, db') = get_or_create_wrap_key random db in
    record db' {
      scoped_home_location = some (record {
        version = 1;
        blob = sealed browser key random.iv (browser.encode_text home_location) plaintext;
      });
    }

-- `none` where there is no record, and where the decryption throws.
unfoldable pub load_scoped_device_record : Browser → IdentityDb → Option (List ℕ)
load_scoped_device_record browser db = and_then db.identity_wrap_key (λ key.
    and_then db.scoped_home_location (λ rec.
      only_if (eqb rec.version 1 && not (ltb (length rec.blob) 29)) (
        browser.decrypt key (take 12 rec.blob) (browser.encode_text home_location)
          (drop 12 rec.blob))))

unfoldable pub clear_scoped_device_record : IdentityDb → IdentityDb
clear_scoped_device_record db = record db { scoped_home_location = none }
