-- ===== src/CircleKeys/Tests.antt =====
-- Runs of the circle keys' store, and instances of its theorems.
use sentinelmesh.Common.{
  ◌+◌, true, false, ◌&&◌, List, [], ◌∷◌, none, some, inr, ◌≡◌, refl, ◌==◌, eqb, leb, ltb,
  if◌then◌else◌, foldl, arith,
}
use sentinelmesh.Vault.{CryptoKey, Random}
use sentinelmesh.CircleKeys.{KeyStore, KeyBrowser, clear_circle_key, purge_circle_key_epochs}
use sentinelmesh.CircleKeys.Custody
use sentinelmesh.CircleKeys.Custody.{KeyCall, IsCustody, reachable_keys-IsCustody, run_call}
use sentinelmesh.CircleKeys.Epochs.{keys-purge, keys-clear}

abbrev key : CryptoKey
key = record { raw = 9 ∷ []; extractable = false }

abbrev exportable : CryptoKey
exportable = record { raw = 9 ∷ []; extractable = true }

abbrev browser : KeyBrowser
browser = record {
  browser = record {
    btoa = λ bs. "Bw==";
    atob = λ s. some (7 ∷ []);
    stringify = λ p. "";
    parse = λ s. none;
    encode_text = λ s. [];
    decode_text = λ bs. "";
    encrypt = λ k i a p. p;
    decrypt = λ k i a c. none;
    sha256 = λ bs. bs;
    public_key = λ sk. "";
  };
  import_key = λ raw extractable. inr (record { raw = raw; extractable = extractable });
}

abbrev random : Random
random = record { wrap_key = key; iv = [] }

-- Keys of all epochs, and an old one of the circle "home" in localStorage.
abbrev store : KeyStore
store = record {
  circle_keys = λ c e. if eqb e 0 then none else if c == "home" then none else some key;
  bare_keys = λ c. none;
  local_storage = λ c. if c == "home" then some "Bw==" else none;
  identity = record {
    identity_wrap_key = none;
    nostr_sk = none;
    vault_meta = none;
    scoped_home_location = none;
  };
}

abbrev empty : KeyStore
empty = record store { circle_keys = λ c e. none }

abbrev calls : List KeyCall
calls =
    Custody.save "home" exportable 1
    ∷ Custody.rotate random (8 ∷ []) "home" 2
    ∷ Custody.load random "work" 1
    ∷ Custody.purge (λ n. random) "home" 4
    ∷ []

reachable_keys-IsCustody_example : IsCustody (foldl (run_call browser) empty calls)
reachable_keys-IsCustody_example =
    reachable_keys-IsCustody browser empty calls (λ raw extractable k e. ground (arith, e))
      ((λ c e. refl), (λ c. refl))

keys-purge_example :
    (purge_circle_key_epochs browser (λ n. random) "work" 5 store).circle_keys "work" 3
    ≡ (if "work" == "work" && (leb 1 3 && ltb (3 + 1) 5) then none else some key)
keys-purge_example = keys-purge browser (λ n. random) "work" 5 store "work" 3

keys-clear_example :
    ((clear_circle_key browser random "work" none store).circle_keys "work" 65
      ≡ (if "work" == "work" && (leb 1 65 && leb 65 64) then none else some key))
    × ((clear_circle_key browser random "work" none store).bare_keys "work" ≡ none)
    × ((clear_circle_key browser random "work" none store).local_storage "work" ≡ none)
keys-clear_example = keys-clear browser random "work" none store "work" 65
