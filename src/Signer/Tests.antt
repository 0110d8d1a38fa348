-- ===== src/Signer/Tests.antt =====
-- Runs of the signer, and instances of its theorems.
use sentinelmesh.Common.{
  List, [], ◌∷◌, none, some, ◌≡◌, refl, true, false, foldl, String, all_lowercase_hex, utf16_length,
}
use sentinelmesh.Validation.{NostrEvent, is_lowercase_hex64}
use sentinelmesh.Nip29.{EventTemplate}
use sentinelmesh.Signer
use sentinelmesh.Signer.{
  World, Keys, StoredBunkerConnection, Opening, Task, Outcome, later, close_remote, failed_identity,
  return, identity_of, is_genuine, same_template,
}
use sentinelmesh.Signer.Schedule.{
  Step, step, resume, start_signing, reconnected, start_session, check_connected, check_signed,
  fail_signing, fail_open,
}
use sentinelmesh.Signer.Genuine.{IsSafe, reachable_signed-IsSafe}
use sentinelmesh.Signer.Sessions.{
  connected_world, reconnection, is_open, late_rejection, reconnection-signs, superseded_attempt,
}

abbrev key : String
key = "aaaaaaaaaaaaaaaaaaaaaaaaaaaaaaaaaaaaaaaaaaaaaaaaaaaaaaaaaaaaaaaa"

abbrev event_of : EventTemplate → NostrEvent
event_of t = record {
  id = "id";
  pubkey = key;
  created_at = t.created_at;
  kind = t.kind;
  tags = t.tags;
  content = t.content;
}

abbrev keys : Keys
keys = record { public_key = key; finalize = event_of; verify = λ event. true }

abbrev stored : StoredBunkerConnection
stored = record {
  client_secret_key = 1 ∷ 2 ∷ [];
  bunker_pubkey = key;
  relays = "wss://relay.example/" ∷ [];
  secret = none;
  expected_pubkey = key;
}

abbrev world : World
world = record {
  identity = identity_of Signer.local "" Signer.ready;
  remote = none;
  generation = 0;
  stored = some stored;
  next_session = 0;
  approvals = λ s. none;
  tasks = [];
  returned = [];
  thrown = [];
}

abbrev template : EventTemplate
template = record { kind = 1; created_at = 7; tags = ("t" ∷ []) ∷ []; content = "hi" }

abbrev run : List Step
run =
    Step.reconnect_bunker
    ∷ Step.resume_task 0 Outcome.fulfilled
    ∷ Step.resume_task 0 Outcome.fulfilled
    ∷ Step.resume_task 0 (Outcome.connected key)
    ∷ Step.sign false template
    ∷ Step.resume_task 0 (Outcome.signed (event_of template))
    ∷ []

-- A remote signer that changes the content is found out.
altered :
    (foldl (step keys) world (
      Step.reconnect_bunker
      ∷ Step.resume_task 0 Outcome.fulfilled
      ∷ Step.resume_task 0 Outcome.fulfilled
      ∷ Step.resume_task 0 (Outcome.connected key)
      ∷ Step.sign false template
      ∷ Step.resume_task 0 (Outcome.signed (event_of (record template { content = "ho" })))
      ∷ Step.resume_task 0 Outcome.fulfilled
      ∷ [])).thrown
    ≡ "Remote signer altered the requested event" ∷ []
unfolding step start_signing resume reconnected start_session check_connected is_lowercase_hex64
    all_lowercase_hex utf16_length check_signed is_genuine same_template fail_signing
altered = refl

-- A pending attempt to connect that fails after a disconnection makes the signer a remote one again.
disconnected_again :
    (foldl (step keys) world (
      Step.connect_bunker stored
      ∷ Step.resume_task 0 Outcome.fulfilled
      ∷ Step.disconnect_bunker
      ∷ Step.resume_task 1 Outcome.fulfilled
      ∷ Step.resume_task 1 Outcome.fulfilled
      ∷ Step.resume_task 0 (Outcome.rejected "closed")
      ∷ Step.resume_task 0 Outcome.fulfilled
      ∷ [])).identity
    ≡ failed_identity key none "closed"
unfolding step resume start_session fail_open
disconnected_again = refl

reachable_signed-IsSafe_example : IsSafe keys (foldl (step keys) world run).returned
reachable_signed-IsSafe_example = reachable_signed-IsSafe keys world run tt

reconnection-signs_example :
    foldl (step keys) world run
    ≡ return
        (connected_world world stored)
        (connected_world world stored).identity
        template
        (event_of template)
unfolding is_lowercase_hex64 all_lowercase_hex utf16_length is_genuine same_template
reconnection-signs_example =
    reconnection-signs keys world stored false template (event_of template) refl refl refl

abbrev old : Opening
old = record { stored = stored; persist = true; session = 0; session_generation = 5 }

abbrev waiting : World
waiting = record world { tasks = Task.connecting_to old ∷ [] }

superseded_attempt_example :
    let renewed = foldl (step keys) waiting (reconnection 1 key) in
    let final = foldl (step keys) renewed (late_rejection waiting 0 "timed out") in
    (renewed.identity.status ≡ Signer.ready)
    × (is_open renewed ≡ true)
    × (is_open final ≡ false)
    × (final.identity.status ≡ Signer.error)
    × (final.identity.pubkey ≡ key)
    × (final.identity.error_message ≡ some "timed out")
    × (final.stored ≡ waiting.stored)
unfolding is_lowercase_hex64 all_lowercase_hex utf16_length
superseded_attempt_example = superseded_attempt keys waiting stored 0 old "timed out" refl refl refl
