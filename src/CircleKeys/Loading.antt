-- ===== src/CircleKeys/Loading.antt =====
-- Loading a circle key, with the migration of older ones.
use sentinelmesh.Common.{
  false, ℕ, String, true, Option, none, some, ◌⊎◌, inl, inr, ◌≡◌, refl, ◌==◌, eqb, arith, eq_refl,
  subst, List, Option-cases, Bool-cases,
}
use sentinelmesh.Vault.{CryptoKey, Random}
use sentinelmesh.CircleKeys.{
  KeyStore, KeyBrowser, load_circle_key, load_from_local_storage, migrate,
}

abbrev pub Loaded : Type 0
Loaded = (String ⊎ Option CryptoKey) × KeyStore

-- Where there is a key in the result, it is in the store.
abbrev pub HasRow : String → ℕ → Loaded → Type 0
HasRow c e (inr (some key), s) = s.circle_keys c e ≡ some key
HasRow c e (inr none, s) = Unit
HasRow c e (inl message, s) = Unit

migrate-HasRow :
    (b : KeyBrowser) (random : Random) (c : String) (raw : List ℕ) (s : KeyStore)
    → HasRow c 1 (migrate b random c raw s)
unfolding migrate
migrate-HasRow b random c raw s = imported (b.import_key raw false) refl
  where
    imported :
        (r : String ⊎ CryptoKey)
        → b.import_key raw false ≡ r
        → HasRow c 1 (migrate b random c raw s)
    imported (inl message) i = rw (i, migrate) tt
    imported (inr key) i = rw (i, migrate) (ground (arith, eq_refl c))

local-HasRow :
    (b : KeyBrowser) (random : Random) (c : String) (e : ℕ) (s : KeyStore)
    → HasRow c e (load_from_local_storage b random c e s)
unfolding load_from_local_storage
local-HasRow b random c e s = elim (Option-cases (s.local_storage c)) [
  | inl i ↦ rw (i, load_from_local_storage) tt
  | inr (b64, i) ↦ elim (Bool-cases (b64 == "")) [
    | inl z ↦ rw (i, z, load_from_local_storage) tt
    | inr z ↦ elim (Bool-cases (eqb e 1)) [
      | inr o ↦ rw (i, z, o, load_from_local_storage) tt
      | inl o ↦ elim (Option-cases (b.browser.atob b64)) [
        | inl bad ↦ rw (i, z, o, bad, load_from_local_storage) tt
        | inr (raw, good) ↦
            rw (i, z, o, good, load_from_local_storage)
              (subst (λ n. HasRow c n (migrate b random c raw s)) (first o)
                (migrate-HasRow b random c raw s))
      ]
    ]
  ]
]
  where
    first : eqb e 1 ≡ true → 1 ≡ e
    first o = ground (arith, o)

pub load-HasRow :
    (b : KeyBrowser) (random : Random) (c : String) (e : ℕ) (s : KeyStore)
    → HasRow c e (load_circle_key b random c e s)
unfolding load_circle_key
load-HasRow b random c e s = elim (Option-cases (s.circle_keys c e)) [
  | inr (key, i) ↦ rw (i, load_circle_key) i
  | inl i ↦ elim (Bool-cases (eqb e 1)) [
    | inr o ↦ rw (i, o, load_circle_key) (local-HasRow b random c e s)
    | inl o ↦ elim (Option-cases (s.bare_keys c)) [
      | inl z ↦ rw (i, o, z, load_circle_key) (local-HasRow b random c e s)
      | inr (key, z) ↦ rw (i, o, z, load_circle_key) (ground (arith, eq_refl c, o))
    ]
  ]
]

again :
    (b : KeyBrowser) (random : Random) (c : String) (e : ℕ) (key : CryptoKey) (l : Loaded)
    → l.0 ≡ inr (some key)
    → HasRow c e l
    → load_circle_key b random c e l.1 ≡ l
unfolding load_circle_key
again b random c e key (inr (some k), s) h row = rw (row, load_circle_key) refl
again b random c e key (inr none, s) h row = absurd (ground (arith, h))
again b random c e key (inl message, s) h row = absurd (ground (arith, h))

-- Once a call has given a circle's key at an epoch, loading it again gives the same key and changes nothing: an older key is migrated once.
load_circle_key_twice :
    (b : KeyBrowser) (random random' : Random) (c : String) (e : ℕ) (s : KeyStore) (key : CryptoKey)
    → (load_circle_key b random c e s).0 ≡ inr (some key)
    → load_circle_key b random' c e (load_circle_key b random c e s).1
      ≡ load_circle_key b random c e s
load_circle_key_twice b random random' c e s key h =
    again b random' c e key (load_circle_key b random c e s) h (load-HasRow b random c e s)
