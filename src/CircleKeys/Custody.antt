-- ===== src/CircleKeys/Custody.antt =====
-- No key that can be exported is ever stored.
use sentinelmesh.Common.{
  ℕ, zero, suc, String, Bool, true, false, not, List, [], ◌∷◌, Option, none, some, ◌⊎◌, inl, inr,
  ◌≡◌, refl, subst, ◌==◌, eqb, foldl, arith, Option-cases, Bool-cases,
}
use sentinelmesh.Vault.{CryptoKey, Random}
use sentinelmesh.CircleKeys.{
  KeyStore, KeyBrowser, idb_put, idb_delete, delete_bare, to_non_extractable, save_circle_key,
  save_circle_key_with_backup, migrate, load_from_local_storage, load_circle_key, delete_epochs,
  clear_circle_key, rotate_circle_key, purge_epochs, purge_circle_key_epochs,
}

abbrev pub is_safe : Option CryptoKey → Bool
is_safe none = true
is_safe (some key) = not key.extractable

-- No row of the database holds an extractable key.
abbrev pub IsCustody : KeyStore → Type 0
IsCustody s =
    ((c : String) (e : ℕ) → is_safe (s.circle_keys c e) ≡ true)
    × ((c : String) → is_safe (s.bare_keys c) ≡ true)

-- `importKey` makes keys that can be exported or not, as it is asked to.
abbrev pub ImportsAsAsked : KeyBrowser → Type 0
ImportsAsAsked b =
    (raw : List ℕ) (extractable : Bool) (key : CryptoKey)
    → b.import_key raw extractable ≡ inr key
    → key.extractable ≡ extractable

idb_put-IsCustody :
    (c : String) (e : ℕ) (key : CryptoKey) (s : KeyStore)
    → key.extractable ≡ false
    → IsCustody s
    → IsCustody (idb_put c e key s)
idb_put-IsCustody c e key s k h = (λ d n. ground (arith, k, h.0 d n), h.1)

idb_delete-IsCustody :
    (c : String) (e : ℕ) (s : KeyStore) → IsCustody s → IsCustody (idb_delete c e s)
idb_delete-IsCustody c e s h = (λ d n. ground (arith, h.0 d n), h.1)

delete_bare-IsCustody : (c : String) (s : KeyStore) → IsCustody s → IsCustody (delete_bare c s)
delete_bare-IsCustody c s h = (h.0, λ d. ground (arith, h.1 d))

non_extractable : (key : CryptoKey) → (to_non_extractable key).extractable ≡ false
unfolding to_non_extractable
non_extractable key = elim (Bool-cases key.extractable) [
  | inl e ↦ rw (e, to_non_extractable) refl
  | inr e ↦ rw (e, to_non_extractable) refl
]

save_with_backup-IsCustody :
    (b : KeyBrowser) (random : Random) (c : String) (raw : List ℕ) (e : ℕ) (s : KeyStore)
    → ImportsAsAsked b
    → IsCustody s
    → IsCustody (save_circle_key_with_backup b random c raw e s).1
unfolding save_circle_key_with_backup
save_with_backup-IsCustody b random c raw e s safe h = imported (b.import_key raw false) refl
  where
    imported :
        (r : String ⊎ CryptoKey)
        → b.import_key raw false ≡ r
        → IsCustody (save_circle_key_with_backup b random c raw e s).1
    imported (inl message) i = rw (i, save_circle_key_with_backup) h
    imported (inr key) i =
        rw (i, save_circle_key_with_backup) (idb_put-IsCustody c e key s (safe raw false key i) h)

migrate-IsCustody :
    (b : KeyBrowser) (random : Random) (c : String) (raw : List ℕ) (s : KeyStore)
    → ImportsAsAsked b
    → IsCustody s
    → IsCustody (migrate b random c raw s).1
unfolding migrate
migrate-IsCustody b random c raw s safe h = imported (b.import_key raw false) refl
  where
    imported :
        (r : String ⊎ CryptoKey)
        → b.import_key raw false ≡ r
        → IsCustody (migrate b random c raw s).1
    imported (inl message) i = rw (i, migrate) h
    imported (inr key) i = rw (i, migrate) (idb_put-IsCustody c 1 key s (safe raw false key i) h)

load_from_local_storage-IsCustody :
    (b : KeyBrowser) (random : Random) (c : String) (e : ℕ) (s : KeyStore)
    → ImportsAsAsked b
    → IsCustody s
    → IsCustody (load_from_local_storage b random c e s).1
unfolding load_from_local_storage
load_from_local_storage-IsCustody b random c e s safe h = elim (Option-cases (s.local_storage c)) [
  | inl i ↦ rw (i, load_from_local_storage) h
  | inr (b64, i) ↦ elim (Bool-cases (b64 == "")) [
    | inl z ↦ rw (i, z, load_from_local_storage) h
    | inr z ↦ elim (Bool-cases (eqb e 1)) [
      | inr o ↦ rw (i, z, o, load_from_local_storage) h
      | inl o ↦ elim (Option-cases (b.browser.atob b64)) [
        | inl bad ↦ rw (i, z, o, bad, load_from_local_storage) h
        | inr (raw, good) ↦
            rw (i, z, o, good, load_from_local_storage) (migrate-IsCustody b random c raw s safe h)
      ]
    ]
  ]
]

legacy_safe : (key : CryptoKey) → is_safe (some key) ≡ true → key.extractable ≡ false
legacy_safe key h = ground (arith, h)

load_circle_key-IsCustody :
    (b : KeyBrowser) (random : Random) (c : String) (e : ℕ) (s : KeyStore)
    → ImportsAsAsked b
    → IsCustody s
    → IsCustody (load_circle_key b random c e s).1
unfolding load_circle_key
load_circle_key-IsCustody b random c e s safe h = elim (Option-cases (s.circle_keys c e)) [
  | inr (key, i) ↦ rw (i, load_circle_key) h
  | inl i ↦ elim (Bool-cases (eqb e 1)) [
    | inr o ↦ rw (i, o, load_circle_key) (load_from_local_storage-IsCustody b random c e s safe h)
    | inl o ↦ elim (Option-cases (s.bare_keys c)) [
      | inl z ↦
          rw (i, o, z, load_circle_key) (load_from_local_storage-IsCustody b random c e s safe h)
      | inr (key, z) ↦
          rw (i, o, z, load_circle_key)
            (delete_bare-IsCustody c (idb_put c 1 key s) (
              idb_put-IsCustody c 1 key s
                (legacy_safe key (subst (λ k. is_safe k ≡ true) z (h.1 c))) h))
    ]
  ]
]

delete_epochs-IsCustody :
    (c : String) (n : ℕ) (s : KeyStore) → IsCustody s → IsCustody (delete_epochs c n s)
unfolding delete_epochs
delete_epochs-IsCustody c zero s h = h
delete_epochs-IsCustody c (suc n) s h =
    idb_delete-IsCustody c (suc n) (delete_epochs c n s) (delete_epochs-IsCustody c n s h)

purge_epochs-IsCustody :
    (b : KeyBrowser) (randoms : ℕ → Random) (c : String) (n : ℕ) (s : KeyStore)
    → IsCustody s
    → IsCustody (purge_epochs b randoms c n s)
unfolding purge_epochs
purge_epochs-IsCustody b randoms c zero s h = h
purge_epochs-IsCustody b randoms c (suc n) s h =
    idb_delete-IsCustody c (suc n) (purge_epochs b randoms c n s)
      (purge_epochs-IsCustody b randoms c n s h)

-- A call, with the random values it uses.
pub data KeyCall : Type 0 where
  save : String → CryptoKey → ℕ → KeyCall
  save_with_backup : Random → String → List ℕ → ℕ → KeyCall
  load : Random → String → ℕ → KeyCall
  clear : Random → String → Option ℕ → KeyCall
  rotate : Random → List ℕ → String → ℕ → KeyCall
  purge : (ℕ → Random) → String → ℕ → KeyCall

unfoldable pub run_call : KeyBrowser → KeyStore → KeyCall → KeyStore
run_call b s (save c key e) = save_circle_key c key e s
run_call b s (save_with_backup random c raw e) = (save_circle_key_with_backup b random c raw e s).1
run_call b s (load random c e) = (load_circle_key b random c e s).1
run_call b s (clear random c e) = clear_circle_key b random c e s
run_call b s (rotate random raw c e) = (rotate_circle_key b random raw c e s).1
run_call b s (purge randoms c e) = purge_circle_key_epochs b randoms c e s

run_call-IsCustody :
    (b : KeyBrowser) (s : KeyStore) (call : KeyCall)
    → ImportsAsAsked b
    → IsCustody s
    → IsCustody (run_call b s call)
unfolding run_call save_circle_key clear_circle_key rotate_circle_key purge_circle_key_epochs
run_call-IsCustody b s (save c key e) safe h =
    idb_put-IsCustody c e (to_non_extractable key) s (non_extractable key) h
run_call-IsCustody b s (save_with_backup random c raw e) safe h =
    save_with_backup-IsCustody b random c raw e s safe h
run_call-IsCustody b s (load random c e) safe h = load_circle_key-IsCustody b random c e s safe h
run_call-IsCustody b s (clear random c none) safe h =
    delete_bare-IsCustody c (delete_epochs c 64 s) (delete_epochs-IsCustody c 64 s h)
run_call-IsCustody b s (clear random c (some e)) safe h = idb_delete-IsCustody c e s h
run_call-IsCustody b s (rotate random raw c e) safe h =
    save_with_backup-IsCustody b random c raw e s safe h
run_call-IsCustody b s (purge randoms c e) safe h = purge_epochs-IsCustody b randoms c _ s h

-- If no stored circle key can be exported, then none can after any calls: saving, saving with a backup, loading with its migrations, clearing, rotating and purging. `importKey` must make keys that can be exported exactly where it is asked to.
pub reachable_keys-IsCustody :
    (b : KeyBrowser) (s : KeyStore) (calls : List KeyCall)
    → ImportsAsAsked b
    → IsCustody s
    → IsCustody (foldl (run_call b) s calls)
reachable_keys-IsCustody b s [] safe h = h
reachable_keys-IsCustody b s (call ∷ calls) safe h =
    reachable_keys-IsCustody b (run_call b s call) calls safe (run_call-IsCustody b s call safe h)
