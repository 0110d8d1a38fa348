-- ===== src/ChatStore/KeyCalls/Race.antt =====
-- A stored key is the key of every call; without one, two calls may return different keys.
use sentinelmesh.Common.{ℕ, zero, suc, List, [], ◌∷◌, some, ◌≡◌}
use sentinelmesh.Vault.{CryptoKey}
use sentinelmesh.ChatStore.KeyCalls.{CallState, KeyWorld, reading, writing, returned}

-- Each call still has to read the key, or has returned this one.
abbrev pub UseKey : CryptoKey → List CallState → Type 0
UseKey key [] = Unit
UseKey key (reading ∷ calls) = UseKey key calls
UseKey key (returned k ∷ calls) = (k ≡ key) × UseKey key calls
UseKey key (_ ∷ calls) = ⊥

abbrev pub IsSettled : CryptoKey → KeyWorld → Type 0
IsSettled key w = (w.stored ≡ some key) × UseKey key w.calls

-- A call that is still to store this key, or has returned it.
abbrev pub Own : CryptoKey → CallState → Type 0
Own a (writing k) = k ≡ a
Own a (returned k) = k ≡ a
Own a _ = ⊥

abbrev pub OwnAt : CryptoKey → ℕ → List CallState → Type 0
OwnAt a i [] = ⊥
OwnAt a zero (c ∷ cs) = Own a c
OwnAt a (suc i) (c ∷ cs) = OwnAt a i cs
