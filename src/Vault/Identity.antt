-- ===== src/Vault/Identity.antt =====
-- The secret key of the device: it is created once, and every later start of the app gets it.
use sentinelmesh.Common.{ℕ, List, none, some, ◌≡◌, refl, Option-cases, inl, inr}
use sentinelmesh.Vault.{
  VaultPayload, IdentityDb, Browser, Random, get_or_create_wrap_key, load_vault, circles_of,
  save_secret_key, load_secret_key, load_or_create_secret_key,
}
use sentinelmesh.Vault.RoundTrip.{IsCarried, with_epochs, load_vault-saved}

-- The payload that `saveSecretKey` writes.
abbrev pub with_secret : Browser → List ℕ → IdentityDb → VaultPayload
with_secret browser sk db = record {
  identity_sk = sk;
  circles = circles_of (load_vault browser db);
}

load_vault-save_secret :
    (browser : Browser) (random : Random) (sk : List ℕ) (db : IdentityDb)
    → IsCarried browser (get_or_create_wrap_key random db).0 random.iv (with_secret browser sk db)
    → load_vault browser (save_secret_key browser random sk db)
      ≡ some (with_epochs (with_secret browser sk db))
unfolding save_secret_key
load_vault-save_secret browser random sk db h =
    load_vault-saved browser random (with_secret browser sk db) db h

pub loaded_secret :
    (browser : Browser) (db : IdentityDb) (v : VaultPayload)
    → load_vault browser db ≡ some v
    → load_secret_key browser db ≡ some v.identity_sk
unfolding load_secret_key
loaded_secret browser db v e = rw (e, load_secret_key) refl

-- Once a key is stored, a call that would create one returns it and changes nothing.
settled :
    (browser : Browser) (random : Random) (sk : List ℕ) (db : IdentityDb) (v : VaultPayload)
    → load_vault browser db ≡ some v
    → (load_or_create_secret_key browser random sk db ≡ (v.identity_sk, db))
      × (load_secret_key browser db ≡ some v.identity_sk)
unfolding load_or_create_secret_key load_secret_key
settled browser random sk db v e =
    (rw (e, load_or_create_secret_key) refl, loaded_secret browser db v e)

creates :
    (browser : Browser) (random : Random) (sk : List ℕ) (db : IdentityDb)
    → load_vault browser db ≡ none
    → IsCarried browser (get_or_create_wrap_key random db).0 random.iv (with_secret browser sk db)
    → load_or_create_secret_key browser random sk db ≡ (sk, save_secret_key browser random sk db)
unfolding load_or_create_secret_key load_secret_key
creates browser random sk db e h =
    rw
      (
        e,
        load_or_create_secret_key,
        loaded_secret browser (save_secret_key browser random sk db) _
            (load_vault-save_secret browser random sk db h),
      )
      refl

-- Whatever is stored, the key that a call returns is the one that is then stored, and every later call, whatever key it would have created, returns the same key and changes nothing: calls that run one after the other, as the lock makes those of two tabs, agree on one identity. Where a key has to be created, the browser must give back the payload that is written.
pub load_or_create-agrees :
    (browser : Browser) (random random' : Random) (sk sk' : List ℕ) (db : IdentityDb)
    → IsCarried browser (get_or_create_wrap_key random db).0 random.iv (with_secret browser sk db)
    → (load_secret_key browser (load_or_create_secret_key browser random sk db).1
        ≡ some (load_or_create_secret_key browser random sk db).0)
      × (load_or_create_secret_key browser random' sk'
            (load_or_create_secret_key browser random sk db).1
          ≡ load_or_create_secret_key browser random sk db)
load_or_create-agrees browser random random' sk sk' db h =
    elim (Option-cases (load_vault browser db)) [
      | inr (v, e) ↦
          let (same, loaded) = settled browser random sk db v e in
          let (again, loaded') = settled browser random' sk' db v e in rw same (loaded, again)
      | inl e ↦
          let stored = load_vault-save_secret browser random sk db h in
          let (again, loaded) =
            settled browser random' sk' (save_secret_key browser random sk db) _ stored in
          rw (creates browser random sk db e h) (loaded, again)
    ]
