-- ===== src/KeyEvents/Outcomes.antt =====
-- What unwrapping an event comes to: an error and nothing else, or a key that is stored.
use sentinelmesh.Common.{
  false, ℕ, String, ◌&&◌, List, [], ◌∷◌, ◌++◌, not, get_or, filter, none, some, ◌≡◌, refl, sym,
  subst, ◌⊎◌, inl, inr, ◌==◌, eqb, if◌then◌else◌, Option-cases,
}
use sentinelmesh.Validation.{NostrEvent}
use sentinelmesh.Vault.{CryptoKey, Random, load_vault, save_vault_unlocked}
use sentinelmesh.Vault.Circles.{upsert_circle_key}
use sentinelmesh.CircleKeys.{KeyStore, idb_put, remove_item, save_circle_key_with_backup}
use sentinelmesh.Backup.{NostrKeypair}
use sentinelmesh.KeyEvents.{
  KeyServices, key_epoch_of, open_package, save_opened, unwrap_nip44_circle_key,
}
use sentinelmesh.KeyEvents.Bound.{
  IsEnvelope, IsPackage, key_epoch-IsEnvelope, open_package-IsPackage,
}

-- The key store has the imported key for one circle and epoch and is else as it was, but for the circle's
-- old key in localStorage, which is gone. Where a vault is stored it is saved with the bytes in place of
-- the entry of this circle and epoch, and its other entries; where there is none, none is made.
pub record IsSaved (services : KeyServices) (random : Random) (circle_id : String) (key_epoch : ℕ)
    (raw_key : List ℕ) (s s' : KeyStore) : Type 0 where
  pub live : CryptoKey
  pub imported : services.keys.import_key raw_key false ≡ inr live
  pub rows :
      (c : String) (e : ℕ)
      → s'.circle_keys c e
        ≡ (if c == circle_id && eqb e key_epoch then some live else s.circle_keys c e)
  pub bare : (c : String) → s'.bare_keys c ≡ s.bare_keys c
  pub legacy :
      (c : String) → s'.local_storage c ≡ (if c == circle_id then none else s.local_storage c)
  pub vault : s'.identity ≡ elim (load_vault services.keys.browser s.identity) [
    | none ↦ s.identity
    | some v ↦
        save_vault_unlocked services.keys.browser random
          (record v {
            circles =
                filter (λ c. not (c.id == circle_id && eqb (get_or 1 c.epoch) key_epoch)) v.circles
                ++ (record { id = circle_id; key = raw_key; epoch = some key_epoch }) ∷ [];
          })
          s.identity
  ]

-- The result is an error and nothing has changed, or the key was in a package and is saved.
abbrev pub SaveOutcome :
    KeyServices → Random → String → ℕ → List ℕ → KeyStore → (String ⊎ ℕ) × KeyStore → Type 0
SaveOutcome services random circle_id key_epoch raw_key s r =
    ((message : String) × (r ≡ (inl message, s)))
    ⊎ ((r.0 ≡ inr key_epoch) × IsSaved services random circle_id key_epoch raw_key s r.1)

-- The store with the key in both places.
abbrev pub with_backup :
    KeyServices → Random → String → ℕ → List ℕ → KeyStore → CryptoKey → KeyStore
with_backup services random circle_id key_epoch raw_key s key =
    record (remove_item circle_id (idb_put circle_id key_epoch key s)) {
      identity =
          upsert_circle_key services.keys.browser random circle_id raw_key key_epoch s.identity;
    }

not_imported :
    (services : KeyServices) (random : Random) (circle_id : String) (key_epoch : ℕ)
    (raw_key : List ℕ) (s : KeyStore) (message : String)
    → services.keys.import_key raw_key false ≡ inl message
    → save_circle_key_with_backup services.keys random circle_id raw_key key_epoch s
      ≡ (some message, s)
unfolding save_circle_key_with_backup
not_imported services random circle_id key_epoch raw_key s message e =
    rw (e, save_circle_key_with_backup) refl

pub imported :
    (services : KeyServices) (random : Random) (circle_id : String) (key_epoch : ℕ)
    (raw_key : List ℕ) (s : KeyStore) (key : CryptoKey)
    → services.keys.import_key raw_key false ≡ inr key
    → save_circle_key_with_backup services.keys random circle_id raw_key key_epoch s
      ≡ (none, with_backup services random circle_id key_epoch raw_key s key)
unfolding save_circle_key_with_backup
imported services random circle_id key_epoch raw_key s key e =
    rw (e, save_circle_key_with_backup) refl

pub save_opened-SaveOutcome :
    (services : KeyServices) (random : Random) (circle_id : String) (key_epoch : ℕ)
    (raw_key : List ℕ) (s : KeyStore)
    → SaveOutcome services random circle_id key_epoch raw_key s
        (save_opened services random circle_id key_epoch (some raw_key) s)
unfolding save_opened upsert_circle_key
save_opened-SaveOutcome services random circle_id key_epoch raw_key s =
    go (services.keys.import_key raw_key false) refl
  where
    go :
        (r : String ⊎ CryptoKey)
        → services.keys.import_key raw_key false ≡ r
        → SaveOutcome services random circle_id key_epoch raw_key s
            (save_opened services random circle_id key_epoch (some raw_key) s)
    go (inl message) e =
        rw (not_imported services random circle_id key_epoch raw_key s message e, save_opened)
          (inl ("Invalid circle key envelope", refl))
    go (inr key) e =
        rw (imported services random circle_id key_epoch raw_key s key e, save_opened)
          (inr (
            refl,
            record {
              live = key;
              imported = e;
              rows = λ c n. refl;
              bare = λ c. refl;
              legacy = λ c. refl;
              vault = refl;
            },
          ))

nothing_opened :
    (services : KeyServices) (random : Random) (circle_id : String) (key_epoch : ℕ) (s : KeyStore)
    → save_opened services random circle_id key_epoch none s
      ≡ (inl "Invalid circle key envelope", s)
unfolding save_opened
nothing_opened services random circle_id key_epoch s = refl

pub unwrapped :
    (services : KeyServices) (keypair : NostrKeypair) (random : Random)
    (circle_id owner_pubkey : String) (event : NostrEvent) (s : KeyStore) (n : ℕ) (shared : List ℕ)
    → key_epoch_of services keypair circle_id owner_pubkey event ≡ inr n
    → services.conversation_key keypair.secret_key owner_pubkey ≡ inr shared
    → unwrap_nip44_circle_key services keypair random circle_id owner_pubkey event s
      ≡ save_opened services random circle_id n
          (open_package services shared circle_id n event.content)
          s
unfolding unwrap_nip44_circle_key
unwrapped services keypair random circle_id owner_pubkey event s n shared e f =
    rw (e, f, unwrap_nip44_circle_key) refl

-- A circle key event is refused with an error, and then no key and nothing of the vault has changed; or its epoch is returned, and then the event was signed by the trusted owner, its tags name the type, this circle, this recipient and the epoch once each, its content is a package for the same circle and epoch under the key that owner and recipient share, the package holds 32 bytes, and these are then the key of this circle and epoch in the key store, where every other key is as it was; the circle's old key in localStorage is deleted and no other; and the vault, where one is stored, is saved with these bytes in place of the entry of this circle and epoch, its other entries and its secret key kept.
pub unwrap_nip44_circle_key_cases :
    (services : KeyServices) (keypair : NostrKeypair) (random : Random)
    (circle_id owner_pubkey : String) (event : NostrEvent) (s : KeyStore)
    → let r = unwrap_nip44_circle_key services keypair random circle_id owner_pubkey event s in
      ((message : String) × (r ≡ (inl message, s)))
      ⊎ ((key_epoch : ℕ) × (shared raw_key : List ℕ) × (r.0 ≡ inr key_epoch)
          × IsEnvelope services keypair circle_id owner_pubkey event key_epoch
          × (services.conversation_key keypair.secret_key owner_pubkey ≡ inr shared)
          × IsPackage services shared circle_id event.content key_epoch raw_key
          × IsSaved services random circle_id key_epoch raw_key s r.1)
unfolding unwrap_nip44_circle_key
unwrap_nip44_circle_key_cases services keypair random circle_id owner_pubkey event s =
    checked (key_epoch_of services keypair circle_id owner_pubkey event) refl
  where
    Outcome : (String ⊎ ℕ) × KeyStore → Type 0
    Outcome r =
        ((message : String) × (r ≡ (inl message, s)))
        ⊎ ((key_epoch : ℕ) × (shared raw_key : List ℕ) × (r.0 ≡ inr key_epoch)
            × IsEnvelope services keypair circle_id owner_pubkey event key_epoch
            × (services.conversation_key keypair.secret_key owner_pubkey ≡ inr shared)
            × IsPackage services shared circle_id event.content key_epoch raw_key
            × IsSaved services random circle_id key_epoch raw_key s r.1)

    saved :
        (n : ℕ) (shared raw_key : List ℕ)
        → key_epoch_of services keypair circle_id owner_pubkey event ≡ inr n
        → services.conversation_key keypair.secret_key owner_pubkey ≡ inr shared
        → open_package services shared circle_id n event.content ≡ some raw_key
        → SaveOutcome services random circle_id n raw_key s
            (save_opened services random circle_id n (some raw_key) s)
        → Outcome (save_opened services random circle_id n (some raw_key) s)
    saved n shared raw_key e f g (inl failed) = inl failed
    saved n shared raw_key e f g (inr (done, stored)) = inr (
      n,
      shared,
      raw_key,
      done,
      key_epoch-IsEnvelope services keypair circle_id owner_pubkey event n e,
      f,
      open_package-IsPackage services shared circle_id event.content n raw_key g,
      stored,
    )

    opened :
        (n : ℕ) (shared : List ℕ)
        → key_epoch_of services keypair circle_id owner_pubkey event ≡ inr n
        → services.conversation_key keypair.secret_key owner_pubkey ≡ inr shared
        → Outcome (
            save_opened services random circle_id n
              (open_package services shared circle_id n event.content)
              s)
    opened n shared e f =
        elim (Option-cases (open_package services shared circle_id n event.content)) [
          | inl g ↦
              rw g
                (inl ("Invalid circle key envelope", nothing_opened services random circle_id n s))
          | inr (raw_key, g) ↦ rw g (
              saved n shared raw_key e f g
                (save_opened-SaveOutcome services random circle_id n raw_key s))
        ]

    shared_key :
        (n : ℕ) (r : String ⊎ List ℕ)
        → key_epoch_of services keypair circle_id owner_pubkey event ≡ inr n
        → services.conversation_key keypair.secret_key owner_pubkey ≡ r
        → Outcome (unwrap_nip44_circle_key services keypair random circle_id owner_pubkey event s)
    shared_key n (inl message) e f = rw (e, f, unwrap_nip44_circle_key) (inl (message, refl))
    shared_key n (inr shared) e f =
        subst Outcome
          (sym (unwrapped services keypair random circle_id owner_pubkey event s n shared e f))
          (opened n shared e f)

    checked :
        (r : String ⊎ ℕ)
        → key_epoch_of services keypair circle_id owner_pubkey event ≡ r
        → Outcome (unwrap_nip44_circle_key services keypair random circle_id owner_pubkey event s)
    checked (inl message) e = rw (e, unwrap_nip44_circle_key) (inl (message, refl))
    checked (inr n) e =
        shared_key n (services.conversation_key keypair.secret_key owner_pubkey) e refl
