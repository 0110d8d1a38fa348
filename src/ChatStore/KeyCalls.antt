-- ===== src/ChatStore/KeyCalls.antt =====
-- Calls of getOrCreateEncryptionKey (apps/pwa/src/services/chat/chatStore.ts) that run at the same
-- time: each goes from one await to the next, and nothing locks the row of the key.
pub mod Race
use sentinelmesh.Common.{ℕ, List, [], ◌∷◌, ◌++◌, Option, none, some, get_elem?, set, foldl}
use sentinelmesh.Vault.{CryptoKey}

-- What a call awaits, or the key that it has returned.
pub data CallState : Type 0 where
  reading generating : CallState
  writing : CryptoKey → CallState
  returned : CryptoKey → CallState

pub record KeyWorld : Type 0 where
  pub stored : Option CryptoKey
  pub calls : List CallState

pub data KeyStep : Type 0 where
  call : KeyStep
  -- A call goes on; with the key that would be generated.
  continued : ℕ → CryptoKey → KeyStep

unfoldable pub resume_call : ℕ → CryptoKey → CallState → KeyWorld → KeyWorld
resume_call i generated reading w = elim w.stored [
  | some key ↦ record w { calls = set w.calls i (returned key) }
  | none ↦ record w { calls = set w.calls i generating }
]
resume_call i generated generating w = record w { calls = set w.calls i (writing generated) }
resume_call i generated (writing key) w = record {
  stored = some key;
  calls = set w.calls i (returned key);
}
resume_call i generated (returned key) w = w

unfoldable pub key_step : KeyWorld → KeyStep → KeyWorld
key_step w call = record w { calls = w.calls ++ (reading ∷ []) }
key_step w (continued i generated) = elim (get_elem? w.calls i) [
  | none ↦ w
  | some c ↦ resume_call i generated c w
]

abbrev pub run_calls : KeyWorld → List KeyStep → KeyWorld
run_calls w steps = foldl key_step w steps
