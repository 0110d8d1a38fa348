-- ===== src/Inbox/Laws.antt =====
-- What a processed gift wrap guarantees.
use sentinelmesh.Common.{
  and_then, and_then-some, only_if-some, String, true, false, List, ◌==◌, ◌≡◌, refl, sym, includes,
  Option, none, some, arith, eq_iff, Option-cases, eqb, eq_refl, subst, ◌⊎◌, Bool-cases, inl, inr,
  ap, ◌∙◌,
}
use sentinelmesh.Common.Sets
use sentinelmesh.Validation.{NostrEvent, valid_message_content, is_lowercase_hex64}
use sentinelmesh.Inbox.{
  Rumor, Services, UnwrappedMessage, ProcessedInboxMessage, is_for, processed, is_seal, open_seal,
  unwrap_gift_wrap, participant_set, unwrap_message, process_gift_wrap,
}

hashed_pubkey :
    (o : Option String) (inner rumor : Rumor)
    → and_then o (λ id. some (record inner { id = id })) ≡ some rumor
    → inner.pubkey ≡ rumor.pubkey
hashed_pubkey none inner rumor h = absurd (ground arith)
hashed_pubkey (some id) inner rumor h =
    ap (λ o. elim o [ none ↦ inner.pubkey | some r ↦ r.pubkey ]) h

verified :
    (services : Services) (seal : NostrEvent)
    → is_seal services seal ≡ true
    → services.verify seal ≡ true
verified services seal h = ground (arith, h)

-- The key of the rumor that a valid seal contains is the key that signed the seal.
open_seal-some :
    (services : Services) (seal : NostrEvent) (rumor : Rumor)
    → open_seal services seal ≡ some rumor
    → (services.verify seal ≡ true) × (seal.pubkey ≡ rumor.pubkey)
unfolding open_seal
open_seal-some services seal rumor h =
    let (sealed, a) = only_if-some (is_seal services seal) _ h in
    let (raw, d, b) = and_then-some (services.decrypt seal.pubkey seal.content) _ a in
    let (inner, p, c) = and_then-some (services.parse_rumor raw) _ b in
    let (hex, e) = only_if-some (is_lowercase_hex64 inner.pubkey) _ c in
    let (same, f) = only_if-some (inner.pubkey == seal.pubkey) _ e in
    (
      verified services seal sealed,
      sym ((eq_iff inner.pubkey seal.pubkey).0 same)
          ∙ hashed_pubkey (services.event_hash inner) inner rumor f,
    )

-- The wrap holds, encrypted for this user, a seal with a valid signature by the sender.
abbrev pub IsFrom : Services → NostrEvent → String → Type 0
IsFrom services wrap sender =
    (raw : String) × (seal : NostrEvent) × (services.decrypt wrap.pubkey wrap.content ≡ some raw)
    × (services.parse_seal raw ≡ some seal)
    × (services.verify seal ≡ true)
    × (seal.pubkey ≡ sender)

unwrap_gift_wrap-some :
    (services : Services) (wrap : NostrEvent) (rumor : Rumor)
    → unwrap_gift_wrap services wrap ≡ some rumor
    → (services.verify wrap ≡ true) × IsFrom services wrap rumor.pubkey
unfolding unwrap_gift_wrap
unwrap_gift_wrap-some services wrap rumor h =
    let (signed, a) = only_if-some (services.verify wrap) _ h in
    let (kind, b) = only_if-some (eqb wrap.kind 1059) _ a in
    let (mine, c) = only_if-some (is_for services.my_pubkey wrap) _ b in
    let (raw, d, e) = and_then-some (services.decrypt wrap.pubkey wrap.content) _ c in
    let (seal, p, f) = and_then-some (services.parse_seal raw) _ e in
    let (valid, same) = open_seal-some services seal rumor f in
    (signed, (raw, seal, d, p, valid, same))

-- What holds of a wrap that is unwrapped to a message.
abbrev pub IsGenuine : Services → NostrEvent → String → String → List String → Type 0
IsGenuine services wrap sender content participants =
    (services.verify wrap ≡ true)
    × IsFrom services wrap sender
    × (valid_message_content content ≡ true)
    × (includes services.my_pubkey participants ≡ true)

unwrap_message-some :
    (services : Services) (wrap : NostrEvent) (m : UnwrappedMessage)
    → unwrap_message services wrap ≡ some m
    → IsGenuine services wrap m.rumor.pubkey m.rumor.content m.participants
unfolding unwrap_message
unwrap_message-some services wrap m h =
    let (rumor, u, a) = and_then-some (unwrap_gift_wrap services wrap) _ h in
    let (valid, b) = only_if-some (valid_message_content rumor.content) _ a in
    let (ps, p, c) = and_then-some (participant_set rumor) _ b in
    let (mine, e) = only_if-some (includes services.my_pubkey ps) _ c in
    let (signed, from) = unwrap_gift_wrap-some services wrap rumor u in
    subst
      (λ o. elim o [
        | none ↦ Unit
        | some n ↦ IsGenuine services wrap n.rumor.pubkey n.rumor.content n.participants
      ])
      e (signed, from, valid, mine)

-- Whatever wrap arrives, one of two things happens. Either it is no gift wrap, was seen before or does not unwrap: then it gives no message and the ids seen stay as they were, so a wrap that does not unwrap is tried again when it next arrives. Or it gives a message and is marked as seen: then the wrap has a valid signature and holds, encrypted for this user, a seal with a valid signature by the message's sender, the content is valid, this user is a participant, and a second arrival gives nothing.
pub process_gift_wrap_cases :
    (services : Services) (seen : List String) (wrap : NostrEvent)
    → (((eqb wrap.kind 1059 ≡ false)
          ⊎ ((includes wrap.id seen ≡ true) ⊎ (unwrap_message services wrap ≡ none)))
        × (process_gift_wrap services seen wrap ≡ (none, seen)))
      ⊎ ((m : ProcessedInboxMessage) × (process_gift_wrap services seen wrap
            ≡ (some m, Sets.add seen wrap.id))
          × IsGenuine services wrap m.sender_pubkey m.content m.participants
          × (process_gift_wrap services (Sets.add seen wrap.id) wrap
              ≡ (none, Sets.add seen wrap.id)))
unfolding process_gift_wrap
process_gift_wrap_cases services seen wrap = elim (Bool-cases (eqb wrap.kind 1059)) [
  | inr other ↦ inl (inl other, rw other refl)
  | inl gift ↦ elim (Bool-cases (includes wrap.id seen)) [
    | inl old ↦ inl (inr (inl old), rw (gift, old) refl)
    | inr new ↦ elim (Option-cases (unwrap_message services wrap)) [
      | inl e ↦ inl (inr (inr e), rw (gift, new, e) refl)
      | inr (m, e) ↦ inr (
        processed services wrap m,
        rw (gift, new, e, process_gift_wrap) refl,
        unwrap_message-some services wrap m e,
        rw (gift, Sets.includes-add, eq_refl wrap.id, process_gift_wrap) refl,
      )
    ]
  ]
]
