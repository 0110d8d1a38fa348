-- ===== src/Signer.antt =====
-- The active signer (apps/pwa/src/services/signerService.ts): the local key, a NIP-07 extension or a
-- remote signer, and the sessions with the latter. An async function is cut at its awaits: a call runs
-- to the first one, and what is left of it is a task with its local variables, which runs on when the
-- scheduler resumes it with an outcome. Between `connect`, `getPublicKey` and `ping` the code reads
-- no shared state, so these three awaits are one. nostr-tools, the extension and the remote signer
-- answer as the schedule says. Listeners are told every identity, and change none.
pub mod Pointer
pub mod Genuine
pub mod Schedule
pub mod Capabilities
pub mod Sessions
mod Tests
mod Examples
use sentinelmesh.Common.{
  ℕ, ◌+◌, zero, suc, String, Bool, true, false, ◌&&◌, ◌||◌, not, List, [], ◌∷◌, ◌++◌, Option, none,
  some, ◌==◌, eqb, if◌then◌else◌, get_elem?,
}
use sentinelmesh.Validation.{NostrEvent, is_lowercase_hex64}
use sentinelmesh.Nip29.{EventTemplate}

pub data SignerMode : Type 0 where
  local bunker nip07 : SignerMode

pub data SignerStatus : Type 0 where
  ready connecting offline authorization_required error : SignerStatus

pub record ActiveIdentity : Type 0 where
  pub mode : SignerMode
  pub pubkey : String
  pub status : SignerStatus
  pub approval_url : Option String
  pub error_message : Option String

-- bunkerStore.ts; a secret key is its bytes.
pub record StoredBunkerConnection : Type 0 where
  pub client_secret_key : List ℕ
  pub bunker_pubkey : String
  pub relays : List String
  pub secret : Option String
  pub expected_pubkey : String

-- The object `remote`; `session` tells one such object from another.
pub record Remote : Type 0 where
  pub session : ℕ
  pub generation : ℕ

-- The local variables of `open` after its first await.
pub record Opening : Type 0 where
  pub stored : StoredBunkerConnection
  pub persist : Bool
  pub session : ℕ
  pub session_generation : ℕ

-- What is left of a call, by the await at which it is.
pub data Task : Type 0 where
  initializing : Option StoredBunkerConnection → Task
  reconnecting : Option StoredBunkerConnection → Task
  opening : StoredBunkerConnection → Bool → Task
  connecting_to : Opening → Task
  saving : Opening → String → Task
  failing : Opening → String → Task
  disconnecting : Task
  clearing : Task
  signing_nip07 : ActiveIdentity → EventTemplate → Task
  signing_remote : ActiveIdentity → EventTemplate → Remote → Task
  sign_failing : ActiveIdentity → String → Task

-- How an awaited promise ends.
pub data Outcome : Type 0 where
  fulfilled : Outcome
  connected : String → Outcome
  signed : NostrEvent → Outcome
  rejected : String → Outcome

-- An event that a signing call returned, with the identity that was active when it was called.
pub record Signed : Type 0 where
  pub active : ActiveIdentity
  pub template : EventTemplate
  pub event : NostrEvent

pub record World : Type 0 where
  pub identity : ActiveIdentity
  pub remote : Option Remote
  pub generation : ℕ
  pub stored : Option StoredBunkerConnection
  pub next_session : ℕ
  -- The variable `approvalUrl` of each session.
  pub approvals : ℕ → Option String
  pub tasks : List Task
  pub returned : List Signed
  pub thrown : List String

-- The device's key pair, and nostr-tools.
pub record Keys : Type 0 where
  pub public_key : String
  pub finalize : EventTemplate → NostrEvent
  pub verify : NostrEvent → Bool

abbrev pub identity_of : SignerMode → String → SignerStatus → ActiveIdentity
identity_of mode pubkey status = record {
  mode = mode;
  pubkey = pubkey;
  status = status;
  approval_url = none;
  error_message = none;
}

abbrev pub failed_identity : String → Option String → String → ActiveIdentity
failed_identity pubkey approval_url message = record {
  mode = bunker;
  pubkey = pubkey;
  status = error;
  approval_url = approval_url;
  error_message = some message;
}

abbrev pub publish : World → ActiveIdentity → World
publish w next = record w { identity = next }

abbrev pub later : World → Task → World
later w task = record w { tasks = w.tasks ++ (task ∷ []) }

abbrev pub throw : World → String → World
throw w message = record w { thrown = message ∷ w.thrown }

abbrev pub return : World → ActiveIdentity → EventTemplate → NostrEvent → World
return w active template event = record w {
  returned = (record { active = active; template = template; event = event }) ∷ w.returned;
}

-- `closeRemote` up to its await; closing the signer and its pool afterwards changes no shared state.
abbrev pub close_remote : World → World
close_remote w = record w { remote = none; generation = w.generation + 1 }

abbrev pub same_list : List String → List String → Bool
same_list [] [] = true
same_list [] (y ∷ ys) = false
same_list (x ∷ xs) [] = false
same_list (x ∷ xs) (y ∷ ys) = x == y && same_list xs ys

-- Arrays of texts have the same JSON exactly if they are the same.
abbrev pub same_tags : List (List String) → List (List String) → Bool
same_tags [] [] = true
same_tags [] (y ∷ ys) = false
same_tags (x ∷ xs) [] = false
same_tags (x ∷ xs) (y ∷ ys) = same_list x y && same_tags xs ys

unfoldable pub same_template : EventTemplate → NostrEvent → Bool
same_template template event =
    eqb event.kind template.kind
    && (eqb event.created_at template.created_at
        && (event.content == template.content && same_tags event.tags template.tags))

-- The check that ends both signing branches.
unfoldable pub is_genuine : Keys → ActiveIdentity → EventTemplate → NostrEvent → Bool
is_genuine keys active template event =
    keys.verify event && (event.pubkey == active.pubkey && same_template template event)

-- `remote && remote.generation === sessionGeneration`
abbrev pub is_current : World → ℕ → Bool
is_current w generation = elim w.remote [ none ↦ false | some r ↦ eqb r.generation generation ]
