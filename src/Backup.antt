-- ===== src/Backup.antt =====
-- Restoring a backup: applyRestore (apps/pwa/src/services/backupService.ts) with
-- restoreIdentityFromSecretKey (nostrService.ts) and the circle ids (circleIdStore.ts), over the vault
-- and the key store. The ids are the array that localStorage holds as JSON; that it can be written is
-- taken for granted. Each save has its random values. A circle fails where its key cannot be imported.
pub mod Restored
pub mod Files
mod Tests
use sentinelmesh.Common.{
  ℕ, ◌+◌, suc, String, Bool, true, List, [], ◌∷◌, ◌++◌, filter, not, ◌==◌, Option, none, some,
}
use sentinelmesh.Common.Sets
use sentinelmesh.Vault.{VaultCircle, VaultPayload, Random, epoch_of, save_secret_key}
use sentinelmesh.CircleKeys.{KeyStore, KeyBrowser, save_circle_key_with_backup}

pub record NostrKeypair : Type 0 where
  pub public_key : String
  pub secret_key : List ℕ

pub record Device : Type 0 where
  pub keys : KeyStore
  pub circle_ids : List String
  pub keypair : Option NostrKeypair

pub record RestoreResult : Type 0 where
  pub identity_restored : Bool
  pub circles_restored : ℕ
  pub circles_failed : List String

unfoldable pub add_circle_id : String → Device → Device
add_circle_id id d = record d { circle_ids = Sets.add d.circle_ids id }

unfoldable pub remove_circle_id : String → Device → Device
remove_circle_id id d = record d { circle_ids = filter (λ x. not (x == id)) d.circle_ids }

unfoldable pub restore_identity_from_secret_key : KeyBrowser → Random → List ℕ → Device → Device
restore_identity_from_secret_key b random sk d = record d {
  keys = record (d.keys) { identity = save_secret_key b.browser random sk d.keys.identity };
  keypair = some (record { public_key = b.browser.public_key sk; secret_key = sk });
}

-- The body of the loop.
unfoldable pub restore_circle :
    KeyBrowser → Random → VaultCircle → Device × RestoreResult → Device × RestoreResult
restore_circle b random c (d, r) =
    let (error, keys) = save_circle_key_with_backup b random c.id c.key (epoch_of c) d.keys in
    elim error [
      | none ↦ (
        add_circle_id c.id (record d { keys = keys }),
        record r { circles_restored = r.circles_restored + 1 },
      )
      | some message ↦
          (record d { keys = keys }, record r { circles_failed = r.circles_failed ++ (c.id ∷ []) })
    ]

-- The loop, with a number that counts its rounds.
unfoldable pub restore_circles :
    KeyBrowser
    → (ℕ → Random)
    → ℕ
    → List VaultCircle
    → Device × RestoreResult
    → Device × RestoreResult
restore_circles b randoms n [] p = p
restore_circles b randoms n (c ∷ cs) p =
    restore_circles b randoms (suc n) cs (restore_circle b (randoms n) c p)

unfoldable pub apply_restore :
    KeyBrowser → Random → (ℕ → Random) → VaultPayload → Device → Device × RestoreResult
apply_restore b random randoms payload d = restore_circles b randoms 0 payload.circles (
  restore_identity_from_secret_key b random payload.identity_sk d,
  record { identity_restored = true; circles_restored = 0; circles_failed = [] },
)
