-- ===== src/Send/Recipients.antt =====
-- Which wraps a group message is sent as.
use sentinelmesh.Common.{
  String, not, ◌&&◌, List, [], ◌∷◌, map, includes, none, some, ◌==◌, ◌≡◌, refl, if◌then◌else◌,
  length, arith, ap, ◌∙◌, Dict, put, eq_iff, inl, inr, ltb, ◌≤◌, sym, empty, all_lowercase_hex,
  utf16_length, Bool-cases,
}
use sentinelmesh.Validation.{NostrEvent, is_lowercase_hex64, valid_message_content}
use sentinelmesh.Participants.{normalize_participants}
use sentinelmesh.Participants.Laws.{is_member, includes-normalize}
use sentinelmesh.Nip29.{EventTemplate}
use sentinelmesh.Inbox.{Rumor}
use sentinelmesh.Send.{
  Sender, create_rumor, create_seal, create_wrap, wrap_rumor, create_group_message, add_wraps,
  wraps_by_recipient, recipient_of,
}

module _ (sender : Sender) (tagged : (t : EventTemplate) → (sender.finalize t).tags ≡ t.tags) where
  recipient_of-create_wrap :
      (seal : NostrEvent) (p : String)
      → recipient_of (create_wrap sender seal p) ≡ (if p == "" then none else some p)
  unfolding create_wrap recipient_of
  recipient_of-create_wrap seal p = rw (tagged _, create_wrap, recipient_of) refl

  abbrev pub wrap_for : Rumor → String → NostrEvent
  wrap_for rumor k = create_wrap sender (create_seal sender rumor k) k

  put-wrap :
      (rumor : Rumor) (k p : String) (m : Dict NostrEvent)
      → put p (wrap_for rumor p) m k ≡ (if p == k then some (wrap_for rumor k) else m k)
  put-wrap rumor k p m = elim (Bool-cases (p == k)) [
    | inl y ↦ rw ((eq_iff p k).0 y) (ground arith)
    | inr n ↦ rw n refl
  ]

  add_wraps-wrap_rumor :
      (rumor : Rumor) (k : String) (ps : List String) (m : Dict NostrEvent)
      → add_wraps m (wrap_rumor sender rumor ps) k
        ≡ (if includes k ps && not (k == "") then some (wrap_for rumor k) else m k)
  unfolding add_wraps wrap_rumor
  add_wraps-wrap_rumor rumor k [] m = refl
  add_wraps-wrap_rumor rumor k (p ∷ ps) m = elim (Bool-cases (p == "")) [
    | inl y ↦
        rw (recipient_of-create_wrap (create_seal sender rumor p) p, y, add_wraps)
          (add_wraps-wrap_rumor rumor k ps m ∙ ground (arith, eq_iff p k, eq_iff p "", eq_iff k ""))
    | inr n ↦
        rw (recipient_of-create_wrap (create_seal sender rumor p) p, n, add_wraps)
          (add_wraps-wrap_rumor rumor k ps (put p (wrap_for rumor p) m)
            ∙ ground (arith, put-wrap rumor k p m, eq_iff p k, eq_iff p "", eq_iff k ""))
  ]

  abbrev pub group_rumor : List String → String → Rumor
  group_rumor recipients content =
      create_rumor sender sender.pubkey 14
        (map (λ p. "p" ∷ p ∷ []) (normalize_participants (sender.pubkey ∷ recipients))) content

  created-wraps :
      (recipients : List String) (content : String) (wraps : List NostrEvent)
      → create_group_message sender recipients content ≡ inr wraps
      → let ps = normalize_participants (sender.pubkey ∷ recipients) in
        (2 ≤ length ps)
        × (length ps ≤ 10)
        × (wrap_rumor sender (group_rumor recipients content) ps ≡ wraps)
  unfolding create_group_message
  created-wraps recipients content wraps h =
      let ps = normalize_participants (sender.pubkey ∷ recipients) in
      elim (Bool-cases (valid_message_content content)) [
        | inr invalid ↦ absurd (ground (arith, invalid))
        | inl valid ↦ elim (Bool-cases (ltb 10 (length ps))) [
          | inl many ↦ absurd (ground (arith, valid, many))
          | inr few ↦ elim (Bool-cases (ltb (length ps) 2)) [
            | inl alone ↦ absurd (ground (arith, valid, few, alone))
            | inr more ↦ (ground arith, ground arith, ground (arith, valid, few, more))
          ]
        ]
      ]

  is_member-nonempty :
      (k : String) (xs : List String) → (is_member k xs && not (k == "")) ≡ is_member k xs
  unfolding is_lowercase_hex64 all_lowercase_hex utf16_length
  is_member-nonempty k xs = elim (Bool-cases (k == "")) [
    | inl y ↦ rw ((eq_iff k "").0 y) refl
    | inr n ↦ rw n (ground arith)
  ]

  -- For a one-time signature that keeps the template's tags: a group message that is created has two to ten participants, and its wraps are routed so that each of them, the sender included, gets one wrap, made of the same rumor for that recipient's key, and nobody else gets any.
  pub group_message-routed :
      (recipients : List String) (content : String) (wraps : List NostrEvent)
      → create_group_message sender recipients content ≡ inr wraps
      → let ps = normalize_participants (sender.pubkey ∷ recipients) in
        (2 ≤ length ps)
        × (length ps ≤ 10)
        × ((k : String)
            → wraps_by_recipient wraps k ≡ (
                if is_member k (sender.pubkey ∷ recipients)
                then some (wrap_for (group_rumor recipients content) k)
                else none))
  unfolding wraps_by_recipient
  group_message-routed recipients content wraps h =
      let ps = normalize_participants (sender.pubkey ∷ recipients) in
      let rumor = group_rumor recipients content in
      let (more, few, e) = created-wraps recipients content wraps h in
      (
        more,
        few,
        λ k.
            ap (λ ws. add_wraps empty ws k) (sym e)
            ∙ add_wraps-wrap_rumor rumor k ps empty
            ∙ ap (λ b. if b then some (wrap_for rumor k) else none)
                (ap (λ b. b && not (k == "")) (includes-normalize k (sender.pubkey ∷ recipients))
                  ∙ is_member-nonempty k (sender.pubkey ∷ recipients)),
      )
