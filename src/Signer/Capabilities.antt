-- ===== src/Signer/Capabilities.antt =====
-- The signer that the chat uses: getNostrSigner and what it returns
-- (apps/pwa/src/services/signerService.ts, its second part). A promise is a value or an error's
-- message. nostr-tools, the extension and the remote sessions are parameters.
pub mod Laws
use sentinelmesh.Common.{
  ℕ, String, Bool, true, false, List, Option, none, some, ◌⊎◌, inl, inr, ◌≡◌, refl, arith, require,
  Bool-cases, subst, sym, Option-cases, try_then, or_throw,
}
use sentinelmesh.Validation.{NostrEvent}
use sentinelmesh.Nip29.{EventTemplate}
use sentinelmesh.Signer
use sentinelmesh.Signer.{
  SignerMode, SignerStatus, World, Remote, ready, connecting, offline, authorization_required,
  error, bunker, nip07, local,
}

pub record NostrSigner : Type 0 where
  pub mode : SignerMode
  pub pubkey : String ⊎ String
  pub sign_event : EventTemplate → String ⊎ NostrEvent
  pub nip44_encrypt : String → String → String ⊎ String
  pub nip44_decrypt : String → String → String ⊎ String

pub record Nip44 : Type 0 where
  pub encrypt : String → String → String ⊎ String
  pub decrypt : String → String → String ⊎ String

-- `window.nostr`, if it has the two functions that make it usable.
pub record Nostr07Extension : Type 0 where
  pub get_public_key : String ⊎ String
  pub sign_event : EventTemplate → String ⊎ NostrEvent
  pub nip44 : Option Nip44

-- A `BunkerSigner`.
pub record BunkerSession : Type 0 where
  pub get_public_key : String ⊎ String
  pub sign_event : EventTemplate → String ⊎ NostrEvent
  pub nip44 : Nip44

-- nostr-tools, with the secret key; a conversation key may fail to be derived.
pub record NostrTools : Type 0 where
  pub get_public_key : List ℕ → String
  pub finalize_event : EventTemplate → List ℕ → NostrEvent
  pub conversation_key : List ℕ → String → String ⊎ List ℕ
  pub encrypt : String → List ℕ → String ⊎ String
  pub decrypt : String → List ℕ → String ⊎ String

unfoldable pub create_local_nostr_signer : NostrTools → List ℕ → Option String → NostrSigner
create_local_nostr_signer tools secret_key public_key = record {
  mode = Signer.local;
  pubkey = inr (elim public_key [ some p ↦ p | none ↦ tools.get_public_key secret_key ]);
  sign_event = λ template. inr (tools.finalize_event template secret_key);
  nip44_encrypt = λ peer plaintext.
      try_then (tools.conversation_key secret_key peer) (λ key. tools.encrypt plaintext key);
  nip44_decrypt = λ peer ciphertext.
      try_then (tools.conversation_key secret_key peer) (λ key. tools.decrypt ciphertext key);
}

unfoldable pub nip07_encrypt : Nostr07Extension → String → String → String ⊎ String
nip07_encrypt ext peer plaintext =
    try_then (or_throw ext.nip44 "NIP-07 extension does not support NIP-44")
      (λ nip44. nip44.encrypt peer plaintext)

unfoldable pub nip07_decrypt : Nostr07Extension → String → String → String ⊎ String
nip07_decrypt ext peer ciphertext =
    try_then (or_throw ext.nip44 "NIP-07 extension does not support NIP-44")
      (λ nip44. nip44.decrypt peer ciphertext)

unfoldable pub nip07_nostr_signer : Nostr07Extension → NostrSigner
nip07_nostr_signer ext = record {
  mode = Signer.nip07;
  pubkey = ext.get_public_key;
  sign_event = ext.sign_event;
  nip44_encrypt = nip07_encrypt ext;
  nip44_decrypt = nip07_decrypt ext;
}

abbrev pub bunker_signer_of : BunkerSession → NostrSigner
bunker_signer_of session = record {
  mode = Signer.bunker;
  pubkey = session.get_public_key;
  sign_event = session.sign_event;
  nip44_encrypt = session.nip44.encrypt;
  nip44_decrypt = session.nip44.decrypt;
}

-- The session's object, by its number.
abbrev pub is_ready : SignerStatus → Bool
is_ready ready = true
is_ready connecting = false
is_ready offline = false
is_ready authorization_required = false
is_ready error = false

unfoldable pub bunker_nostr_signer : (ℕ → BunkerSession) → World → String ⊎ NostrSigner
bunker_nostr_signer sessions w = require (is_ready w.identity.status) "Remote signer is offline" (
    try_then (or_throw w.remote "Remote signer is offline")
      (λ remote. inr (bunker_signer_of (sessions remote.session))))

-- The cached key pair.
pub record Keypair : Type 0 where
  pub secret_key : List ℕ
  pub public_key : String

unfoldable pub local_nostr_signer : NostrTools → Keypair → NostrSigner
local_nostr_signer tools keypair =
    create_local_nostr_signer tools keypair.secret_key (some keypair.public_key)

unfoldable pub nip07_encryption_available : Option Nostr07Extension → Bool
nip07_encryption_available none = false
nip07_encryption_available (some ext) = elim ext.nip44 [ none ↦ false | some nip44 ↦ true ]

unfoldable pub get_nip07_nostr_signer : Option Nostr07Extension → Option NostrSigner
get_nip07_nostr_signer none = none
get_nip07_nostr_signer (some ext) = some (nip07_nostr_signer ext)

-- What the environment offers.
pub record Environment : Type 0 where
  pub tools : NostrTools
  pub keypair : Keypair
  pub extension : Option Nostr07Extension
  pub sessions : ℕ → BunkerSession

unfoldable pub signer_for : Environment → World → SignerMode → String ⊎ NostrSigner
signer_for env w bunker = bunker_nostr_signer env.sessions w
signer_for env w nip07 =
    try_then (or_throw env.extension "NIP-07 extension is unavailable")
      (λ ext. inr (nip07_nostr_signer ext))
signer_for env w local = inr (local_nostr_signer env.tools env.keypair)

unfoldable pub get_nostr_signer : Environment → World → String ⊎ NostrSigner
get_nostr_signer env w = signer_for env w w.identity.mode

-- The signer signs with the device's key.
abbrev pub IsLocal : Environment → NostrSigner → Type 0
IsLocal env s =
    ((t : EventTemplate) → s.sign_event t ≡ inr (env.tools.finalize_event t env.keypair.secret_key))
    × (s.pubkey ≡ inr env.keypair.public_key)

-- The signer is the extension's; without NIP-44 it signs and its two encryption functions throw.
abbrev pub IsNip07 : Environment → NostrSigner → Type 0
IsNip07 env s =
    (ext : Nostr07Extension) × (env.extension ≡ some ext)
    × (s.pubkey ≡ ext.get_public_key)
    × ((t : EventTemplate) → s.sign_event t ≡ ext.sign_event t)
    × ((nip07_encryption_available (some ext) ≡ true)
        ⊎ ((peer text : String)
            → (s.nip44_encrypt peer text ≡ inl "NIP-07 extension does not support NIP-44")
              × (s.nip44_decrypt peer text ≡ inl "NIP-07 extension does not support NIP-44")))

-- The signer is that of the session that is open, and the session is ready.
abbrev pub IsBunker : Environment → World → NostrSigner → Type 0
IsBunker env w s =
    (r : Remote) × (w.remote ≡ some r)
    × (w.identity.status ≡ ready)
    × (s ≡ bunker_signer_of (env.sessions r.session))

abbrev pub IsSignerOf : Environment → World → NostrSigner → SignerMode → Type 0
IsSignerOf env w s local = IsLocal env s
IsSignerOf env w s nip07 = IsNip07 env s
IsSignerOf env w s bunker = IsBunker env w s
