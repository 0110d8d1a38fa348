-- ===== src/Signer/Schedule.antt =====
-- The functions of apps/pwa/src/services/signerService.ts between their awaits, and a step of the
-- scheduler.
use sentinelmesh.Common.{
  ℕ, ◌+◌, zero, suc, String, Bool, true, false, ◌&&◌, not, List, [], ◌∷◌, Option, none, some, ◌==◌,
  eqb, if◌then◌else◌, get_elem?,
}
use sentinelmesh.Validation.{NostrEvent, is_lowercase_hex64}
use sentinelmesh.Nip29.{EventTemplate}
use sentinelmesh.Signer.{
  SignerMode, local, bunker, nip07, ready, connecting, offline, authorization_required,
  ActiveIdentity, StoredBunkerConnection, Remote, Opening, Task, opening, connecting_to, saving,
  failing, disconnecting, clearing, signing_nip07, signing_remote, sign_failing, initializing,
  reconnecting, Outcome, connected, signed, rejected, World, Keys, identity_of, failed_identity,
  publish, later, throw, return, close_remote, is_genuine, is_current,
}

-- The `catch` of `open`.
unfoldable pub fail_open : World → Opening → String → World
fail_open w o message = later (close_remote w) (failing o message)

abbrev pub finish_open : World → Opening → String → World
finish_open w o pubkey = publish w (record {
  mode = bunker;
  pubkey = pubkey;
  status = ready;
  approval_url = w.approvals o.session;
  error_message = none;
})

unfoldable pub check_connected : World → Opening → String → World
check_connected w o pubkey =
    if not (is_lowercase_hex64 pubkey)
    then fail_open w o "Remote signer returned an invalid identity"
    else if not (o.stored.expected_pubkey == "") && not (o.stored.expected_pubkey == pubkey)
    then fail_open w o "Remote signer identity changed"
    else if not (is_current w o.session_generation)
    then fail_open w o "Remote signer session changed"
    else if o.persist
    then later w (saving o pubkey)
    else finish_open w o pubkey

abbrev pub opened : World → StoredBunkerConnection → Bool → Opening
opened w stored persist = record {
  stored = stored;
  persist = persist;
  session = w.next_session;
  session_generation = w.generation;
}

-- `open` from its first await to its second.
unfoldable pub start_session : World → StoredBunkerConnection → Bool → World
start_session w stored persist =
    later
      (record w {
        identity = identity_of bunker stored.expected_pubkey connecting;
        remote = some (record { session = w.next_session; generation = w.generation });
        next_session = w.next_session + 1;
      })
      (connecting_to (opened w stored persist))

-- The `catch` of the remote branch of `signWithActiveIdentity`.
unfoldable pub fail_signing : World → ActiveIdentity → String → World
fail_signing w active message = later (close_remote w) (sign_failing active message)

-- `remote !== current || current.generation !== generation`, negated.
abbrev pub is_same_session : World → Remote → Bool
is_same_session w current = elim w.remote [
  | none ↦ false
  | some r ↦ eqb r.session current.session && eqb current.generation w.generation
]

unfoldable pub check_signed :
    Keys → World → ActiveIdentity → EventTemplate → Remote → NostrEvent → World
check_signed keys w active template current event =
    if not (is_same_session w current)
    then fail_signing w active "Remote signer session changed"
    else if is_genuine keys active template event
    then return w active template event
    else fail_signing w active "Remote signer altered the requested event"

-- `initializeActiveSigner` with what it loaded.
unfoldable pub initialized : Keys → World → Option StoredBunkerConnection → World
initialized keys w (some stored) = publish w (identity_of bunker stored.expected_pubkey offline)
initialized keys w none = publish w (identity_of local keys.public_key ready)

-- `open` up to its first await.
abbrev pub start_open : World → StoredBunkerConnection → Bool → World
start_open w stored persist = later (close_remote w) (opening stored persist)

unfoldable pub reconnected : World → Option StoredBunkerConnection → World
reconnected w none = throw w "No remote signer connection is stored"
reconnected w (some stored) = start_open w stored false

unfoldable pub resume : Keys → World → Task → Outcome → World
resume keys w (initializing stored) outcome = initialized keys w stored
resume keys w (reconnecting stored) outcome = reconnected w stored
resume keys w (opening stored persist) outcome = start_session w stored persist
resume keys w (connecting_to o) (connected pubkey) = check_connected w o pubkey
resume keys w (connecting_to o) (rejected message) = fail_open w o message
resume keys w (connecting_to o) other = w
resume keys w (saving o pubkey) (rejected message) = fail_open w o message
resume keys w (saving o pubkey) other =
    finish_open (record w { stored = some (record (o.stored) { expected_pubkey = pubkey }) }) o
      pubkey
resume keys w (failing o message) outcome =
    throw (publish w (failed_identity o.stored.expected_pubkey (w.approvals o.session) message))
      message
resume keys w disconnecting outcome = later w clearing
resume keys w clearing (rejected message) = throw w message
resume keys w clearing other =
    publish (record w { stored = none }) (identity_of local keys.public_key ready)
resume keys w (signing_nip07 active template) (signed event) =
    if is_genuine keys active template event
    then return w active template event
    else throw w "NIP-07 extension altered the requested event"
resume keys w (signing_nip07 active template) (rejected message) = throw w message
resume keys w (signing_nip07 active template) other = w
resume keys w (signing_remote active template current) (signed event) =
    check_signed keys w active template current event
resume keys w (signing_remote active template current) (rejected message) =
    fail_signing w active message
resume keys w (signing_remote active template current) other = w
resume keys w (sign_failing active message) outcome =
    throw (publish w (failed_identity active.pubkey none message)) message

abbrev pub remove_at : ℕ → List Task → List Task
remove_at i [] = []
remove_at zero (t ∷ ts) = ts
remove_at (suc i) (t ∷ ts) = t ∷ remove_at i ts

-- Calls, events of the environment, and the resumption of a task.
pub data Step : Type 0 where
  initialize : Step
  refresh_local : Step
  -- What the extension answers, if there is one.
  activate_nip07 : Option String → Step
  -- With the connection that `connectBunker` made from a pointer.
  connect_bunker : StoredBunkerConnection → Step
  reconnect_bunker : Step
  disconnect_bunker : Step
  -- Whether there is an extension.
  sign : Bool → EventTemplate → Step
  -- A session asks for authorization, with the address if it is a proper https one.
  authorize : Opening → Option String → Step
  resume_task : ℕ → Outcome → Step

-- `signWithActiveIdentity` up to its first await.
unfoldable pub start_signing : Keys → World → SignerMode → Bool → EventTemplate → World
start_signing keys w local extension template =
    return w w.identity template (keys.finalize template)
start_signing keys w nip07 extension template =
    if extension
    then later w (signing_nip07 w.identity template)
    else throw w "NIP-07 extension is unavailable"
start_signing keys w bunker extension template = elim w.identity.status [
  | ready ↦ elim w.remote [
    | none ↦ throw w "Remote signer is offline"
    | some current ↦ later w (signing_remote w.identity template current)
  ]
  | _ ↦ throw w "Remote signer is offline"
]

abbrev pub is_local : SignerMode → Bool
is_local local = true
is_local bunker = false
is_local nip07 = false

unfoldable pub step : Keys → World → Step → World
step keys w initialize = later w (initializing w.stored)
step keys w refresh_local =
    if is_local w.identity.mode then publish w (identity_of local keys.public_key ready) else w
step keys w (activate_nip07 none) = throw w "NIP-07 extension is not available"
step keys w (activate_nip07 (some pubkey)) =
    if is_lowercase_hex64 pubkey
    then publish w (identity_of nip07 pubkey ready)
    else throw w "NIP-07 extension returned an invalid identity"
step keys w (connect_bunker stored) = start_open w stored true
step keys w reconnect_bunker = later w (reconnecting w.stored)
step keys w disconnect_bunker = later (close_remote w) disconnecting
step keys w (sign extension template) = start_signing keys w w.identity.mode extension template
step keys w (authorize o none) = w
step keys w (authorize o (some url)) =
    if is_current w o.session_generation
    then record w {
      approvals = λ s. if eqb s o.session then some url else w.approvals s;
      identity = record {
        mode = bunker;
        pubkey = o.stored.expected_pubkey;
        status = authorization_required;
        approval_url = some url;
        error_message = none;
      };
    }
    else w
step keys w (resume_task i outcome) = elim (get_elem? w.tasks i) [
  | none ↦ w
  | some task ↦ resume keys (record w { tasks = remove_at i w.tasks }) task outcome
]
