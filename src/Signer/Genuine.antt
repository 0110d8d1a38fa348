-- ===== src/Signer/Genuine.antt =====
-- Every event that a signing call returns is the one that was asked for.
use sentinelmesh.Common.{
  String, Bool, true, false, List, [], ◌∷◌, none, some, ◌≡◌, refl, eq_iff, foldl, subst, sym, arith,
  Bool-cases, Option-cases, inl, inr, get_elem?, ◌⊎◌,
}
use sentinelmesh.Validation.{NostrEvent}
use sentinelmesh.Nip29.{EventTemplate}
use sentinelmesh.Signer.{
  SignerMode, ActiveIdentity, Signed, World, Keys, Task, Outcome, same_list, same_tags,
  same_template, is_genuine, Remote, Opening,
}
use sentinelmesh.Signer.Schedule.{
  Step, resume, step, start_signing, check_signed, check_connected, fail_open, fail_signing,
  start_session, remove_at, is_same_session, initialized, reconnected,
}

-- A call in local mode returns the template, finished with the device's key; any other an event with
-- a valid signature by the active identity and the template's fields.
abbrev pub IsSignedFor : Keys → Signed → Type 0
IsSignedFor keys s =
    ((s.active.mode ≡ SignerMode.local) × (s.event ≡ keys.finalize s.template))
    ⊎ ((keys.verify s.event ≡ true)
        × (s.event.pubkey ≡ s.active.pubkey)
        × (s.event.kind ≡ s.template.kind)
        × (s.event.created_at ≡ s.template.created_at)
        × (s.event.content ≡ s.template.content)
        × (s.event.tags ≡ s.template.tags))

same_list-eq : (xs ys : List String) → same_list xs ys ≡ true → xs ≡ ys
same_list-eq [] [] h = refl
same_list-eq [] (y ∷ ys) h = absurd (ground arith)
same_list-eq (x ∷ xs) [] h = absurd (ground arith)
same_list-eq (x ∷ xs) (y ∷ ys) h = ground (arith, eq_iff x y, same_list-eq xs ys)

same_tags-eq : (xs ys : List (List String)) → same_tags xs ys ≡ true → xs ≡ ys
same_tags-eq [] [] h = refl
same_tags-eq [] (y ∷ ys) h = absurd (ground arith)
same_tags-eq (x ∷ xs) [] h = absurd (ground arith)
same_tags-eq (x ∷ xs) (y ∷ ys) h = ground (arith, same_list-eq x y, same_tags-eq xs ys)

genuine :
    (keys : Keys) (active : ActiveIdentity) (template : EventTemplate) (event : NostrEvent)
    → is_genuine keys active template event ≡ true
    → IsSignedFor keys (record { active = active; template = template; event = event })
unfolding is_genuine same_template
genuine keys active template event h = inr (
    ground (
      arith,
      h,
      eq_iff event.pubkey active.pubkey,
      eq_iff event.content template.content,
      same_tags-eq event.tags template.tags,
    ))

abbrev pub IsSafe : Keys → List Signed → Type 0
IsSafe keys [] = Unit
IsSafe keys (s ∷ ss) = IsSignedFor keys s × IsSafe keys ss

returned-check_connected :
    (w : World) (o : Opening) (pubkey : String) → (check_connected w o pubkey).returned ≡ w.returned
unfolding check_connected fail_open
returned-check_connected w o pubkey = ground arith

check_signed-IsSafe :
    (keys : Keys) (w : World) (active : ActiveIdentity) (template : EventTemplate) (r : Remote)
    (event : NostrEvent)
    → IsSafe keys w.returned
    → IsSafe keys (check_signed keys w active template r event).returned
unfolding check_signed fail_signing
check_signed-IsSafe keys w active template r event h = elim (Bool-cases (is_same_session w r)) [
  | inr other ↦ rw (other) h
  | inl same ↦ elim (Bool-cases (is_genuine keys active template event)) [
    | inl e ↦ rw (same, e) (genuine keys active template event e, h)
    | inr e ↦ rw (same, e) h
  ]
]

resume-IsSafe :
    (keys : Keys) (w : World) (task : Task) (outcome : Outcome)
    → IsSafe keys w.returned
    → IsSafe keys (resume keys w task outcome).returned
unfolding resume initialized reconnected fail_open fail_signing start_session
resume-IsSafe keys w (Task.initializing none) outcome h = h
resume-IsSafe keys w (Task.initializing (some stored)) outcome h = h
resume-IsSafe keys w (Task.reconnecting none) outcome h = h
resume-IsSafe keys w (Task.reconnecting (some stored)) outcome h = h
resume-IsSafe keys w (Task.opening stored persist) outcome h = h
resume-IsSafe keys w (Task.connecting_to o) Outcome.fulfilled h = h
resume-IsSafe keys w (Task.connecting_to o) (Outcome.connected pubkey) h =
    subst (IsSafe keys) (sym (returned-check_connected w o pubkey)) h
resume-IsSafe keys w (Task.connecting_to o) (Outcome.signed event) h = h
resume-IsSafe keys w (Task.connecting_to o) (Outcome.rejected message) h = h
resume-IsSafe keys w (Task.saving o pubkey) Outcome.fulfilled h = h
resume-IsSafe keys w (Task.saving o pubkey) (Outcome.connected p) h = h
resume-IsSafe keys w (Task.saving o pubkey) (Outcome.signed event) h = h
resume-IsSafe keys w (Task.saving o pubkey) (Outcome.rejected message) h = h
resume-IsSafe keys w (Task.failing o message) outcome h = h
resume-IsSafe keys w Task.disconnecting outcome h = h
resume-IsSafe keys w Task.clearing Outcome.fulfilled h = h
resume-IsSafe keys w Task.clearing (Outcome.connected p) h = h
resume-IsSafe keys w Task.clearing (Outcome.signed event) h = h
resume-IsSafe keys w Task.clearing (Outcome.rejected message) h = h
resume-IsSafe keys w (Task.signing_nip07 active template) Outcome.fulfilled h = h
resume-IsSafe keys w (Task.signing_nip07 active template) (Outcome.connected p) h = h
resume-IsSafe keys w (Task.signing_nip07 active template) (Outcome.signed event) h =
    elim (Bool-cases (is_genuine keys active template event)) [
      | inl e ↦ rw (e, resume) (genuine keys active template event e, h)
      | inr e ↦ rw (e, resume) h
    ]
resume-IsSafe keys w (Task.signing_nip07 active template) (Outcome.rejected message) h = h
resume-IsSafe keys w (Task.signing_remote active template r) Outcome.fulfilled h = h
resume-IsSafe keys w (Task.signing_remote active template r) (Outcome.connected p) h = h
resume-IsSafe keys w (Task.signing_remote active template r) (Outcome.signed event) h =
    check_signed-IsSafe keys w active template r event h
resume-IsSafe keys w (Task.signing_remote active template r) (Outcome.rejected message) h = h
resume-IsSafe keys w (Task.sign_failing active message) outcome h = h

start_signing-IsSafe :
    (keys : Keys) (w : World) (mode : SignerMode) (extension : Bool) (template : EventTemplate)
    → w.identity.mode ≡ mode
    → IsSafe keys w.returned
    → IsSafe keys (start_signing keys w mode extension template).returned
unfolding start_signing
start_signing-IsSafe keys w SignerMode.local extension template e h = (inl (e, refl), h)
start_signing-IsSafe keys w SignerMode.nip07 true template e h = h
start_signing-IsSafe keys w SignerMode.nip07 false template e h = h
start_signing-IsSafe keys w SignerMode.bunker extension template e h =
    subst (IsSafe keys) (ground arith) h

step-IsSafe :
    (keys : Keys) (w : World) (s : Step)
    → IsSafe keys w.returned
    → IsSafe keys (step keys w s).returned
unfolding step
step-IsSafe keys w Step.initialize h = h
step-IsSafe keys w Step.refresh_local h = subst (IsSafe keys) (ground arith) h
step-IsSafe keys w (Step.activate_nip07 none) h = h
step-IsSafe keys w (Step.activate_nip07 (some pubkey)) h = subst (IsSafe keys) (ground arith) h
step-IsSafe keys w (Step.connect_bunker stored) h = h
step-IsSafe keys w Step.reconnect_bunker h = h
step-IsSafe keys w Step.disconnect_bunker h = h
step-IsSafe keys w (Step.sign extension template) h =
    start_signing-IsSafe keys w w.identity.mode extension template refl h
step-IsSafe keys w (Step.authorize o none) h = h
step-IsSafe keys w (Step.authorize o (some url)) h = subst (IsSafe keys) (ground arith) h
step-IsSafe keys w (Step.resume_task i outcome) h = elim (Option-cases (get_elem? w.tasks i)) [
  | inl e ↦ rw (e, step) h
  | inr (task, e) ↦
      rw (e, step) (resume-IsSafe keys (record w { tasks = remove_at i w.tasks }) task outcome h)
]

-- However calls, answers and awaits interleave, if every event that signing calls have returned so far is the requested one then so it stays: each is, in local mode, the template finished with the device's key, and else an event with a valid signature by the identity that was active when the call began and with the template's kind, time, content and tags.
pub reachable_signed-IsSafe :
    (keys : Keys) (w : World) (steps : List Step)
    → IsSafe keys w.returned
    → IsSafe keys (foldl (step keys) w steps).returned
reachable_signed-IsSafe keys w [] h = h
reachable_signed-IsSafe keys w (s ∷ ss) h =
    reachable_signed-IsSafe keys (step keys w s) ss (step-IsSafe keys w s h)
