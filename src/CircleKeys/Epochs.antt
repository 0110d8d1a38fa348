-- ===== src/CircleKeys/Epochs.antt =====
-- Which circle keys are there after a purge, after a removal and after a load.
use sentinelmesh.Common.{
  ℕ, zero, suc, ◌+◌, ◌-◌, max, String, ◌&&◌, Option, none, some, ◌≡◌, refl, ◌∙◌, ◌==◌, eqb, ltb, ap,
  leb, if◌then◌else◌, arith,
}
use sentinelmesh.Vault.{Random}
use sentinelmesh.CircleKeys.{
  KeyStore, KeyBrowser, delete_epochs, clear_circle_key, purge_epochs, purge_circle_key_epochs,
}

keys-purge_epochs :
    (b : KeyBrowser) (randoms : ℕ → Random) (circle_id : String) (n : ℕ) (s : KeyStore) (c : String)
    (e : ℕ)
    → (purge_epochs b randoms circle_id n s).circle_keys c e
      ≡ (if c == circle_id && (leb 1 e && leb e n) then none else s.circle_keys c e)
unfolding purge_epochs
keys-purge_epochs b randoms circle_id zero s c e = ground arith
keys-purge_epochs b randoms circle_id (suc n) s c e =
    ground (arith, keys-purge_epochs b randoms circle_id n s c e)

keys-delete_epochs :
    (circle_id : String) (n : ℕ) (s : KeyStore) (c : String) (e : ℕ)
    → (delete_epochs circle_id n s).circle_keys c e
      ≡ (if c == circle_id && (leb 1 e && leb e n) then none else s.circle_keys c e)
unfolding delete_epochs
keys-delete_epochs circle_id zero s c e = ground arith
keys-delete_epochs circle_id (suc n) s c e = ground (arith, keys-delete_epochs circle_id n s c e)

bare_keys-delete_epochs :
    (circle_id : String) (n : ℕ) (s : KeyStore) (c : String)
    → (delete_epochs circle_id n s).bare_keys c ≡ s.bare_keys c
unfolding delete_epochs
bare_keys-delete_epochs circle_id zero s c = refl
bare_keys-delete_epochs circle_id (suc n) s c = bare_keys-delete_epochs circle_id n s c

local_storage-delete_epochs :
    (circle_id : String) (n : ℕ) (s : KeyStore) (c : String)
    → (delete_epochs circle_id n s).local_storage c ≡ s.local_storage c
unfolding delete_epochs
local_storage-delete_epochs circle_id zero s c = refl
local_storage-delete_epochs circle_id (suc n) s c = local_storage-delete_epochs circle_id n s c

-- A purge deletes exactly the keys of the circle whose epoch is at least 1 and more than one below the current epoch; the current key, the previous one, and the keys of other circles stay.
pub keys-purge :
    (b : KeyBrowser) (randoms : ℕ → Random) (circle_id : String) (current_epoch : ℕ) (s : KeyStore)
    (c : String) (e : ℕ)
    → (purge_circle_key_epochs b randoms circle_id current_epoch s).circle_keys c e ≡ (
        if c == circle_id && (leb 1 e && ltb (e + 1) current_epoch)
        then none
        else s.circle_keys c e)
unfolding purge_circle_key_epochs
keys-purge b randoms circle_id current_epoch s c e =
    keys-purge_epochs b randoms circle_id (max 1 (current_epoch - 1) - 1) s c e ∙ ground arith

-- Clearing a circle without an epoch deletes, of the keys in the key store, those of its epochs 1 to 64 and the one without an epoch, and no other; clearing it with an epoch deletes exactly the key of that epoch. In both cases the circle's old key in localStorage is deleted too, and that of every other circle stays.
pub keys-clear :
    (b : KeyBrowser) (random : Random) (circle_id : String) (epoch : Option ℕ) (s : KeyStore)
    (c : String) (e : ℕ)
    → ((clear_circle_key b random circle_id epoch s).circle_keys c e ≡ (
        if c == circle_id && elim epoch [ none ↦ leb 1 e && leb e 64 | some n ↦ eqb e n ]
        then none
        else s.circle_keys c e))
      × ((clear_circle_key b random circle_id epoch s).bare_keys c ≡ elim epoch [
        | none ↦ if c == circle_id then none else s.bare_keys c
        | some n ↦ s.bare_keys c
      ])
      × ((clear_circle_key b random circle_id epoch s).local_storage c
          ≡ (if c == circle_id then none else s.local_storage c))
unfolding clear_circle_key
keys-clear b random circle_id none s c e = (
  keys-delete_epochs circle_id 64 s c e,
  ap (λ o. if c == circle_id then none else o) (bare_keys-delete_epochs circle_id 64 s c),
  ap (λ o. if c == circle_id then none else o) (local_storage-delete_epochs circle_id 64 s c),
)
keys-clear b random circle_id (some n) s c e = (refl, refl, refl)
