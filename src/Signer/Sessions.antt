-- ===== src/Signer/Sessions.antt =====
-- Sessions with a remote signer: how a stored connection comes back to work, and what an attempt to
-- connect does once another one, or a disconnection, has overtaken it.
use sentinelmesh.Common.{
  ℕ, ◌+◌, String, Bool, true, false, List, [], ◌∷◌, ◌++◌, none, some, ◌≡◌, refl, ap, eq_refl, foldl,
  ◌∙◌, arith, length, get_elem?,
}
use sentinelmesh.Validation.{NostrEvent, is_lowercase_hex64}
use sentinelmesh.Nip29.{EventTemplate}
use sentinelmesh.Signer
use sentinelmesh.Signer.{
  ActiveIdentity, StoredBunkerConnection, Opening, Remote, World, Keys, Task, Outcome, later,
  close_remote, failed_identity, identity_of, is_current, is_genuine, return,
}
use sentinelmesh.Signer.Schedule.{
  Step, fail_open, check_connected, check_signed, start_session, resume, reconnected, remove_at,
  step, opened, start_signing,
}

get_elem-last : {A : Type 0} (ts : List A) (t : A) → get_elem? (ts ++ (t ∷ [])) (length ts) ≡ some t
get_elem-last [] t = refl
get_elem-last (x ∷ ts) t = get_elem-last ts t

remove_at-last : (ts : List Task) (t : Task) → remove_at (length ts) (ts ++ (t ∷ [])) ≡ ts
remove_at-last [] t = refl
remove_at-last (x ∷ ts) t = ap (λ us. x ∷ us) (remove_at-last ts t)

-- The task that a call leaves is the last one.
resume_latest :
    (keys : Keys) (w : World) (task : Task) (outcome : Outcome)
    → step keys (later w task) (Step.resume_task (length w.tasks) outcome)
      ≡ resume keys w task outcome
unfolding step
resume_latest keys w task outcome =
    rw (get_elem-last w.tasks task, remove_at-last w.tasks task, step) refl

-- The world in which the connection attempt with session number `session` succeeded.
abbrev pub connected_world : World → StoredBunkerConnection → World
connected_world w stored = record w {
  identity = record {
    mode = Signer.bunker;
    pubkey = stored.expected_pubkey;
    status = Signer.ready;
    approval_url = w.approvals w.next_session;
    error_message = none;
  };
  remote = some (record { session = w.next_session; generation = w.generation + 1 });
  generation = w.generation + 1;
  next_session = w.next_session + 1;
}

connected :
    (keys : Keys) (w : World) (stored : StoredBunkerConnection)
    → is_lowercase_hex64 stored.expected_pubkey ≡ true
    → check_connected
        (record (connected_world w stored) {
          identity = identity_of Signer.bunker stored.expected_pubkey Signer.connecting;
        })
        (record {
          stored = stored;
          persist = false;
          session = w.next_session;
          session_generation = w.generation + 1;
        })
        stored.expected_pubkey
      ≡ connected_world w stored
unfolding check_connected
connected keys w stored h = ground (arith, h, eq_refl stored.expected_pubkey)

-- `reconnectBunker`, whose awaits are fulfilled with no other call in between.
abbrev pub reconnection : ℕ → String → List Step
reconnection n pubkey =
    Step.reconnect_bunker
    ∷ Step.resume_task n Outcome.fulfilled
    ∷ Step.resume_task n Outcome.fulfilled
    ∷ Step.resume_task n (Outcome.connected pubkey)
    ∷ []

reconnects :
    (keys : Keys) (w : World) (stored : StoredBunkerConnection)
    → w.stored ≡ some stored
    → is_lowercase_hex64 stored.expected_pubkey ≡ true
    → foldl (step keys) w (reconnection (length w.tasks) stored.expected_pubkey)
      ≡ connected_world w stored
unfolding step resume reconnected start_session
reconnects keys w stored e h =
    ap (λ v. resumed (Outcome.connected stored.expected_pubkey) (resumed Outcome.fulfilled v))
      (resume_latest keys w (Task.reconnecting w.stored) Outcome.fulfilled ∙ ap (reconnected w) e)
    ∙ ap (resumed (Outcome.connected stored.expected_pubkey))
        (resume_latest keys (close_remote w) (Task.opening stored false) Outcome.fulfilled)
    ∙ resume_latest keys _ (Task.connecting_to (opened (close_remote w) stored false))
        (Outcome.connected stored.expected_pubkey)
    ∙ connected keys w stored h
  where
    resumed : Outcome → World → World
    resumed outcome v = step keys v (Step.resume_task (length w.tasks) outcome)

started :
    (keys : Keys) (w : World) (r : Remote) (extension : Bool) (template : EventTemplate)
    → w.identity.status ≡ Signer.ready
    → w.remote ≡ some r
    → start_signing keys w Signer.bunker extension template
      ≡ later w (Task.signing_remote w.identity template r)
unfolding start_signing
started keys w r extension template status e = ground (arith, status, e)

checked :
    (keys : Keys) (w : World) (r : Remote) (template : EventTemplate) (event : NostrEvent)
    → w.remote ≡ some r
    → r.generation ≡ w.generation
    → is_genuine keys w.identity template event ≡ true
    → check_signed keys w w.identity template r event ≡ return w w.identity template event
unfolding check_signed
checked keys w r template event e current genuine = ground (arith, e, current, genuine)

signs :
    (keys : Keys) (w : World) (r : Remote) (extension : Bool) (template : EventTemplate)
    (event : NostrEvent)
    → w.identity.mode ≡ Signer.bunker
    → w.identity.status ≡ Signer.ready
    → w.remote ≡ some r
    → r.generation ≡ w.generation
    → is_genuine keys w.identity template event ≡ true
    → foldl (step keys) w (
        Step.sign extension template
        ∷ Step.resume_task (length w.tasks) (Outcome.signed event)
        ∷ [])
      ≡ return w w.identity template event
unfolding step resume
signs keys w r extension template event mode status e current genuine =
    ap (λ v. step keys v (Step.resume_task (length w.tasks) (Outcome.signed event)))
      (ap (λ m. start_signing keys w m extension template) mode
        ∙ started keys w r extension template status e)
    ∙ resume_latest keys w (Task.signing_remote w.identity template r) (Outcome.signed event)
    ∙ checked keys w r template event e current genuine

-- While a proper connection is stored, whatever state the signer is in and whatever calls are under way, `reconnectBunker` makes it ready for that connection's key and a signing call then returns an event, if the awaits of the two calls are fulfilled in turn, the remote signer gives the stored key, and it signs the event that is asked for; the calls under way and what is stored stay as they were.
pub reconnection-signs :
    (keys : Keys) (w : World) (stored : StoredBunkerConnection) (extension : Bool)
    (template : EventTemplate) (event : NostrEvent)
    → w.stored ≡ some stored
    → is_lowercase_hex64 stored.expected_pubkey ≡ true
    → is_genuine keys (connected_world w stored).identity template event ≡ true
    → foldl (step keys) w (
        reconnection (length w.tasks) stored.expected_pubkey
        ++ (Step.sign extension template
            ∷ Step.resume_task (length w.tasks) (Outcome.signed event)
            ∷ []))
      ≡ return (connected_world w stored) (connected_world w stored).identity template event
reconnection-signs keys w stored extension template event e hex genuine =
    ap
      (λ v. foldl (step keys) v (
        Step.sign extension template
        ∷ Step.resume_task (length w.tasks) (Outcome.signed event)
        ∷ []))
      (reconnects keys w stored e hex)
    ∙ signs keys (connected_world w stored)
        (record { session = w.next_session; generation = w.generation + 1 }) extension template
        event refl refl refl refl genuine

-- Whether a session is open.
abbrev pub is_open : World → Bool
is_open w = elim w.remote [ none ↦ false | some r ↦ true ]

-- An attempt to connect that waits is rejected, and its clean-up ends.
abbrev pub late_rejection : World → ℕ → String → List Step
late_rejection w i message =
    Step.resume_task i (Outcome.rejected message)
    ∷ Step.resume_task (length (remove_at i w.tasks)) Outcome.fulfilled
    ∷ []

rejects :
    (keys : Keys) (w : World) (i : ℕ) (o : Opening) (message : String)
    → get_elem? w.tasks i ≡ some (Task.connecting_to o)
    → foldl (step keys) w (late_rejection w i message)
      ≡ resume keys
          (close_remote (record w { tasks = remove_at i w.tasks }))
          (Task.failing o message)
          Outcome.fulfilled
unfolding step resume fail_open
rejects keys w i o message e =
    ap (λ v. step keys v (Step.resume_task (length (remove_at i w.tasks)) Outcome.fulfilled))
      (rejected_step e)
    ∙ resume_latest keys (close_remote (record w { tasks = remove_at i w.tasks }))
        (Task.failing o message) Outcome.fulfilled
  where
    rejected_step :
        get_elem? w.tasks i ≡ some (Task.connecting_to o)
        → step keys w (Step.resume_task i (Outcome.rejected message))
          ≡ later (close_remote (record w { tasks = remove_at i w.tasks })) (Task.failing o message)
    rejected_step h = rw (h, step) refl

-- An attempt to connect that still waits while a newer one succeeds does not leave the newer session alone: after `reconnectBunker` has made the signer ready, with an open session, the rejection of the old attempt closes that session, and the signer's state becomes an error with the message and the expected key of the old attempt; what is stored stays as it was.
pub superseded_attempt :
    (keys : Keys) (w : World) (stored : StoredBunkerConnection) (i : ℕ) (o : Opening)
    (message : String)
    → w.stored ≡ some stored
    → is_lowercase_hex64 stored.expected_pubkey ≡ true
    → get_elem? w.tasks i ≡ some (Task.connecting_to o)
    → let again = reconnection (length w.tasks) stored.expected_pubkey in
      let renewed = foldl (step keys) w again in
      let final = foldl (step keys) renewed (late_rejection w i message) in
      (renewed.identity.status ≡ Signer.ready)
      × (is_open renewed ≡ true)
      × (is_open final ≡ false)
      × (final.identity.status ≡ Signer.error)
      × (final.identity.pubkey ≡ o.stored.expected_pubkey)
      × (final.identity.error_message ≡ some message)
      × (final.stored ≡ w.stored)
unfolding resume
superseded_attempt keys w stored i o message e hex waits =
    let r = reconnects keys w stored e hex in
    let f =
      ap (λ v. foldl (step keys) v (late_rejection w i message)) r
      ∙ rejects keys (connected_world w stored) i o message waits in
    (
      ap (λ v. v.identity.status) r,
      ap is_open r,
      ap is_open f,
      ap (λ v. v.identity.status) f,
      ap (λ v. v.identity.pubkey) f,
      ap (λ v. v.identity.error_message) f,
      ap (λ v. v.stored) f,
    )
