-- ===== src/Vault/Keys.antt =====
-- The circle keys of the vault as a map from a circle and an epoch to a key.
use sentinelmesh.Common.{
  ℕ, String, Bool, ◌&&◌, List, [], ◌∷◌, map, Option, none, some, ◌≡◌, refl, sym, ap, ◌∙◌, ◌==◌, eqb,
  if◌then◌else◌, arith, eq_iff,
}
use sentinelmesh.Vault.{
  VaultCircle, VaultPayload, IdentityDb, Browser, Random, get_or_create_wrap_key, load_vault,
  circles_of, load_secret_key, save_vault,
}
use sentinelmesh.Vault.Circles.{
  with_key, upsert_circle_key, find_key, load_vault_circle_key, without_keys, remove_vault_circle,
}
use sentinelmesh.Vault.RoundTrip.{IsCarried, with_epoch, load_vault-saved}
use sentinelmesh.Vault.Identity.{loaded_secret}

find_key-with_key :
    (circle_id : String) (raw_key : List ℕ) (epoch : ℕ) (j : String) (e : ℕ) (cs : List VaultCircle)
    → find_key j (some e) (with_key circle_id raw_key epoch cs)
      ≡ (if circle_id == j && eqb epoch e then some raw_key else find_key j (some e) cs)
unfolding find_key
find_key-with_key circle_id raw_key epoch j e [] = ground arith
find_key-with_key circle_id raw_key epoch j e (c ∷ cs) = ground (
  arith,
  find_key-with_key circle_id raw_key epoch j e cs,
  eq_iff c.id circle_id,
  eq_iff c.id j,
  eq_iff circle_id j,
)

find_key-without_epoch :
    (circle_id : String) (epoch : ℕ) (j : String) (e : ℕ) (cs : List VaultCircle)
    → find_key j (some e) (without_keys circle_id (some epoch) cs)
      ≡ (if circle_id == j && eqb epoch e then none else find_key j (some e) cs)
unfolding find_key
find_key-without_epoch circle_id epoch j e [] = ground arith
find_key-without_epoch circle_id epoch j e (c ∷ cs) = ground (
  arith,
  find_key-without_epoch circle_id epoch j e cs,
  eq_iff c.id circle_id,
  eq_iff c.id j,
  eq_iff circle_id j,
)

find_key-without_circle :
    (circle_id j : String) (e : ℕ) (cs : List VaultCircle)
    → find_key j (some e) (without_keys circle_id none cs)
      ≡ (if circle_id == j then none else find_key j (some e) cs)
unfolding find_key
find_key-without_circle circle_id j e [] = ground arith
find_key-without_circle circle_id j e (c ∷ cs) = ground (
  arith,
  find_key-without_circle circle_id j e cs,
  eq_iff c.id circle_id,
  eq_iff c.id j,
  eq_iff circle_id j,
)

find_key-epochs :
    (j : String) (e : ℕ) (cs : List VaultCircle)
    → find_key j (some e) (map with_epoch cs) ≡ find_key j (some e) cs
unfolding find_key
find_key-epochs j e [] = refl
find_key-epochs j e (c ∷ cs) = ground (arith, find_key-epochs j e cs)

-- What a removal without an epoch, or with one, removes.
abbrev pub is_removed : String → Option ℕ → String → ℕ → Bool
is_removed circle_id none j e = circle_id == j
is_removed circle_id (some epoch) j e = circle_id == j && eqb epoch e

find_key-without_keys :
    (circle_id : String) (epoch : Option ℕ) (j : String) (e : ℕ) (cs : List VaultCircle)
    → find_key j (some e) (without_keys circle_id epoch cs)
      ≡ (if is_removed circle_id epoch j e then none else find_key j (some e) cs)
find_key-without_keys circle_id none j e cs = find_key-without_circle circle_id j e cs
find_key-without_keys circle_id (some epoch) j e cs = find_key-without_epoch circle_id epoch j e cs

-- What is found in the vault after its circles were replaced.
replaced :
    (browser : Browser) (random : Random) (db : IdentityDb) (v : VaultPayload)
    (cs : List VaultCircle)
    → load_vault browser db ≡ some v
    → IsCarried browser (get_or_create_wrap_key random db).0 random.iv (record v { circles = cs })
    → (load_secret_key browser (save_vault browser random (record v { circles = cs }) db)
        ≡ load_secret_key browser db)
      × ((j : String) (e : ℕ)
          → load_vault_circle_key browser j
              (some e)
              (save_vault browser random (record v { circles = cs }) db)
            ≡ find_key j (some e) cs)
unfolding load_vault_circle_key
replaced browser random db v cs e h =
    let saved = load_vault-saved browser random (record v { circles = cs }) db h in
    (
      loaded_secret browser _ _ saved ∙ sym (loaded_secret browser db v e),
      λ j n. ap (λ o. find_key j (some n) (circles_of o)) saved ∙ find_key-epochs j n cs,
    )

pub find-upsert :
    (browser : Browser) (random : Random) (db : IdentityDb) (v : VaultPayload) (circle_id : String)
    (raw_key : List ℕ) (epoch : ℕ)
    → load_vault browser db ≡ some v
    → IsCarried browser
        (get_or_create_wrap_key random db).0
        random.iv
        (record v { circles = with_key circle_id raw_key epoch v.circles })
    → (j : String) (e : ℕ)
    → load_vault_circle_key browser j
        (some e)
        (upsert_circle_key browser random circle_id raw_key epoch db)
      ≡ (if circle_id == j && eqb epoch e
          then some raw_key
          else load_vault_circle_key browser j (some e) db)
unfolding load_vault_circle_key upsert_circle_key
find-upsert browser random db v circle_id raw_key epoch e h j n =
    rw (e, upsert_circle_key, load_vault_circle_key)
      ((replaced browser random db v (with_key circle_id raw_key epoch v.circles) e h).1 j n
        ∙ find_key-with_key circle_id raw_key epoch j n v.circles)

-- Where a vault is stored, `upsertCircleKey` sets the key of one circle and epoch, `removeVaultCircle` removes one or, without an epoch, those of all epochs of a circle; every other key and the secret key stay as they were. The browser must give back the two payloads that are written.
pub writes-find :
    (browser : Browser) (random : Random) (db : IdentityDb) (v : VaultPayload) (circle_id : String)
    (raw_key : List ℕ) (epoch : ℕ) (removed : Option ℕ)
    → load_vault browser db ≡ some v
    → IsCarried browser
        (get_or_create_wrap_key random db).0
        random.iv
        (record v { circles = with_key circle_id raw_key epoch v.circles })
    → IsCarried browser
        (get_or_create_wrap_key random db).0
        random.iv
        (record v { circles = without_keys circle_id removed v.circles })
    → ((j : String) (e : ℕ)
        → (load_vault_circle_key browser j
              (some e)
              (upsert_circle_key browser random circle_id raw_key epoch db)
            ≡ (if circle_id == j && eqb epoch e
                then some raw_key
                else load_vault_circle_key browser j (some e) db))
          × (load_vault_circle_key browser j
                (some e)
                (remove_vault_circle browser random circle_id removed db)
              ≡ (if is_removed circle_id removed j e
                  then none
                  else load_vault_circle_key browser j (some e) db)))
      × (load_secret_key browser (upsert_circle_key browser random circle_id raw_key epoch db)
          ≡ load_secret_key browser db)
      × (load_secret_key browser (remove_vault_circle browser random circle_id removed db)
          ≡ load_secret_key browser db)
unfolding load_vault_circle_key upsert_circle_key remove_vault_circle
writes-find browser random db v circle_id raw_key epoch removed e h k =
    let (sk, found) =
      replaced browser random db v (with_key circle_id raw_key epoch v.circles) e h in
    let (sk', found') =
      replaced browser random db v (without_keys circle_id removed v.circles) e k in
    rw (e, upsert_circle_key, remove_vault_circle, load_vault_circle_key)
      (
        (λ j n. (
          found j n ∙ find_key-with_key circle_id raw_key epoch j n v.circles,
          found' j n ∙ find_key-without_keys circle_id removed j n v.circles,
        )),
        sk,
        sk',
      )
