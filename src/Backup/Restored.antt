-- ===== src/Backup/Restored.antt =====
-- Every circle of a backup is restored or reported.
use sentinelmesh.Common.{
  ℕ, ◌+◌, suc, String, true, false, ◌&&◌, List, [], ◌∷◌, includes, length, length-append, Option,
  none, some, ◌⊎◌, inl, inr, ◌≡◌, refl, ap, sym, subst, ◌++◌, ◌∙◌, arith, eq_refl, eq_iff, eqb,
  ◌==◌, if◌then◌else◌, Bool-cases,
}
use sentinelmesh.Common.Sets
use sentinelmesh.Vault.{VaultCircle, VaultPayload, CryptoKey, Random, epoch_of}
use sentinelmesh.Vault.Circles.{upsert_circle_key}
use sentinelmesh.CircleKeys.{
  KeyBrowser, KeyStore, idb_put, remove_item, save_circle_key_with_backup,
}
use sentinelmesh.Backup.{
  Device, RestoreResult, add_circle_id, restore_identity_from_secret_key, restore_circle,
  restore_circles, apply_restore,
}

abbrev pub IsIn : VaultCircle → List VaultCircle → Type 0
IsIn k [] = ⊥
IsIn k (c ∷ cs) = (k ≡ c) ⊎ IsIn k cs

-- The live key at the circle's id and epoch is imported of the bytes of this circle or, where the
-- backup has several of one id and epoch, of one of these.
abbrev pub IsHeld : KeyBrowser → List VaultCircle → VaultCircle → Device → Type 0
IsHeld b all c d =
    (k : VaultCircle) × (key : CryptoKey) × IsIn k all
    × (k.id ≡ c.id)
    × (epoch_of k ≡ epoch_of c)
    × (b.import_key k.key false ≡ inr key)
    × (d.keys.circle_keys c.id (epoch_of c) ≡ some key)

-- The circle is reported as failed, or its id and its key are on the device.
abbrev pub IsAccounted :
    KeyBrowser → List VaultCircle → VaultCircle → Device → RestoreResult → Type 0
IsAccounted b all c d r =
    (includes c.id r.circles_failed ≡ true)
    ⊎ ((includes c.id d.circle_ids ≡ true) × IsHeld b all c d)

abbrev pub count : RestoreResult → ℕ
count r = r.circles_restored + length r.circles_failed

-- A round counts one circle more, accounts for it, and for those accounted for before.
abbrev IsRound :
    KeyBrowser
    → List VaultCircle
    → VaultCircle
    → Device × RestoreResult
    → Device × RestoreResult
    → Type 0
IsRound b all c (d, r) (d', r') =
    (count r' ≡ count r + 1)
    × IsAccounted b all c d' r'
    × ((k : VaultCircle) → IsAccounted b all k d r → IsAccounted b all k d' r')
    × (d'.keypair ≡ d.keypair)

-- The keys once this circle's is stored, in both places.
abbrev with_backup : KeyBrowser → Random → VaultCircle → KeyStore → CryptoKey → KeyStore
with_backup b random c s key = record (remove_item c.id (idb_put c.id (epoch_of c) key s)) {
  identity = upsert_circle_key b.browser random c.id c.key (epoch_of c) s.identity;
}

unsaved :
    (b : KeyBrowser) (random : Random) (c : VaultCircle) (s : KeyStore) (message : String)
    → b.import_key c.key false ≡ inl message
    → save_circle_key_with_backup b random c.id c.key (epoch_of c) s ≡ (some message, s)
unfolding save_circle_key_with_backup
unsaved b random c s message i = rw (i, save_circle_key_with_backup) refl

saved :
    (b : KeyBrowser) (random : Random) (c : VaultCircle) (s : KeyStore) (key : CryptoKey)
    → b.import_key c.key false ≡ inr key
    → save_circle_key_with_backup b random c.id c.key (epoch_of c) s
      ≡ (none, with_backup b random c s key)
unfolding save_circle_key_with_backup
saved b random c s key i = rw (i, save_circle_key_with_backup) refl

-- What a round comes to once the key is saved or not.
abbrev after_save :
    VaultCircle → Device → RestoreResult → Option String × KeyStore → Device × RestoreResult
after_save c d r (error, keys) = elim error [
  | none ↦ (
    add_circle_id c.id (record d { keys = keys }),
    record r { circles_restored = r.circles_restored + 1 },
  )
  | some message ↦
      (record d { keys = keys }, record r { circles_failed = r.circles_failed ++ (c.id ∷ []) })
]

not_restored :
    (b : KeyBrowser) (random : Random) (c : VaultCircle) (d : Device) (r : RestoreResult)
    (message : String)
    → b.import_key c.key false ≡ inl message
    → restore_circle b random c (d, r)
      ≡ (d, record r { circles_failed = r.circles_failed ++ (c.id ∷ []) })
unfolding restore_circle
not_restored b random c d r message i = ap (after_save c d r) (unsaved b random c d.keys message i)

restored :
    (b : KeyBrowser) (random : Random) (c : VaultCircle) (d : Device) (r : RestoreResult)
    (key : CryptoKey)
    → b.import_key c.key false ≡ inr key
    → restore_circle b random c (d, r) ≡ (
      add_circle_id c.id (record d { keys = with_backup b random c d.keys key }),
      record r { circles_restored = r.circles_restored + 1 },
    )
unfolding restore_circle
restored b random c d r key i = ap (after_save c d r) (saved b random c d.keys key i)

restore_circle-IsRound :
    (b : KeyBrowser) (all : List VaultCircle) (random : Random) (c : VaultCircle) (d : Device)
    (r : RestoreResult)
    → IsIn c all
    → IsRound b all c (d, r) (restore_circle b random c (d, r))
unfolding add_circle_id
restore_circle-IsRound b all random c d r m = imported (b.import_key c.key false) refl
  where
    -- The keys once this circle's is stored.
    stored : CryptoKey → String → ℕ → Option CryptoKey
    stored key i e = if i == c.id && eqb e (epoch_of c) then some key else d.keys.circle_keys i e

    held :
        (key : CryptoKey) (k : VaultCircle) (d' : Device)
        → b.import_key c.key false ≡ inr key
        → d'.keys.circle_keys k.id (epoch_of k) ≡ stored key k.id (epoch_of k)
        → IsHeld b all k d
        → IsHeld b all k d'
    held key k d' i q (j, other, n, e, f, g, h) =
        elim (Bool-cases (k.id == c.id && eqb (epoch_of k) (epoch_of c))) [
          | inl y ↦
              (c, key, m, ground (arith, y, eq_iff k.id c.id), ground (arith, y), i, q ∙ rw y refl)
          | inr y ↦ (j, other, n, e, f, g, q ∙ rw y h)
        ]

    imported :
        (i : String ⊎ CryptoKey)
        → b.import_key c.key false ≡ i
        → IsRound b all c (d, r) (restore_circle b random c (d, r))
    imported (inl message) i =
        subst (IsRound b all c (d, r)) (sym (not_restored b random c d r message i)) (
          ground (arith, length-append r.circles_failed (c.id ∷ [])),
          inl (
              ground (arith, Sets.includes-append c.id r.circles_failed (c.id ∷ []), eq_refl c.id)),
          (λ k h. elim h [
            | inl e ↦
                inl (ground (arith, e, Sets.includes-append k.id r.circles_failed (c.id ∷ [])))
            | inr e ↦ inr e
          ]),
          refl,
        )
    imported (inr key) i = subst (IsRound b all c (d, r)) (sym (restored b random c d r key i)) (
      ground arith,
      inr (
        ground (arith, Sets.includes-add c.id d.circle_ids c.id, eq_refl c.id),
        (c, key, m, refl, refl, i, ground (arith, eq_refl c.id)),
      ),
      (λ k h. elim h [
        | inl e ↦ inl e
        | inr e ↦ inr (
          ground (arith, e.0, Sets.includes-add k.id d.circle_ids c.id),
          held key k (record d { keys = with_backup b random c d.keys key }) i refl e.1,
        )
      ]),
      refl,
    )

abbrev pub AllAccounted :
    KeyBrowser → List VaultCircle → List VaultCircle → Device → RestoreResult → Type 0
AllAccounted b all [] d r = Unit
AllAccounted b all (c ∷ cs) d r = IsAccounted b all c d r × AllAccounted b all cs d r

-- What the loop does from a device and a result.
abbrev IsLoop :
    KeyBrowser
    → List VaultCircle
    → List VaultCircle
    → Device × RestoreResult
    → Device × RestoreResult
    → Type 0
IsLoop b all cs (d, r) (d', r') =
    (count r' ≡ count r + length cs)
    × AllAccounted b all cs d' r'
    × ((k : VaultCircle) → IsAccounted b all k d r → IsAccounted b all k d' r')
    × (d'.keypair ≡ d.keypair)

restore_circles-IsLoop :
    (b : KeyBrowser) (all : List VaultCircle) (randoms : ℕ → Random) (n : ℕ) (cs : List VaultCircle)
    (d : Device) (r : RestoreResult)
    → ((k : VaultCircle) → IsIn k cs → IsIn k all)
    → IsLoop b all cs (d, r) (restore_circles b randoms n cs (d, r))
unfolding restore_circles
restore_circles-IsLoop b all randoms n [] d r m = (ground arith, tt, (λ k h. h), refl)
restore_circles-IsLoop b all randoms n (c ∷ cs) d r m =
    let p = restore_circle b (randoms n) c (d, r) in
    let (one, here, kept, same) = restore_circle-IsRound b all (randoms n) c d r (m c (inl refl)) in
    let (more, rest, kept', same') =
      restore_circles-IsLoop b all randoms (suc n) cs p.0 p.1 (λ k i. m k (inr i)) in
    (ground (arith, one, more), (kept' c here, rest), (λ k h. kept' k (kept k h)), same' ∙ same)

-- Restoring a backup makes its secret key the device's, and each of its circles is either reported as failed, or its id is on the device afterwards and the key stored for it at its epoch is imported of the backup's bytes for this id and epoch; the number restored and the number reported add up to the number of circles.
pub apply_restore-AllAccounted :
    (b : KeyBrowser) (random : Random) (randoms : ℕ → Random) (payload : VaultPayload) (d : Device)
    → (count (apply_restore b random randoms payload d).1 ≡ length payload.circles)
      × AllAccounted b payload.circles payload.circles
          (apply_restore b random randoms payload d).0
          (apply_restore b random randoms payload d).1
      × ((apply_restore b random randoms payload d).0.keypair
          ≡ some (record {
            public_key = b.browser.public_key payload.identity_sk;
            secret_key = payload.identity_sk;
          }))
unfolding apply_restore restore_identity_from_secret_key
apply_restore-AllAccounted b random randoms payload d =
    let (total, all, kept, same) =
      restore_circles-IsLoop b payload.circles randoms 0 payload.circles
        (restore_identity_from_secret_key b random payload.identity_sk d)
        (record { identity_restored = true; circles_restored = 0; circles_failed = [] })
        (λ k i. i) in
    (total ∙ ground arith, all, same)
