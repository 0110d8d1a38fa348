-- ===== src/KeyEvents/Exchange.antt =====
-- A key that an owner sends is the key that the member stores.
use sentinelmesh.Common.{
  false, ℕ, ◌≤◌, ◌==◌, eqb, if◌then◌else◌, String, true, ◌&&◌, List, some, ◌≡◌, refl, sym, subst,
  ap, ◌∙◌, inr, leb, arith, eq_refl, length, to_lower, number_from-decimal,
}
use sentinelmesh.Validation.{NostrEvent, is_lowercase_hex64}
use sentinelmesh.Nip29.{EventTemplate}
use sentinelmesh.Vault.{CryptoKey, VaultPayload, Random, load_vault, get_or_create_wrap_key}
use sentinelmesh.Vault.Circles.{with_key, upsert_circle_key, load_vault_circle_key}
use sentinelmesh.Vault.RoundTrip.{IsCarried}
use sentinelmesh.Vault.Keys.{find-upsert}
use sentinelmesh.CircleKeys.{KeyStore}
use sentinelmesh.Backup.{NostrKeypair}
use sentinelmesh.KeyEvents.{
  KeyServices, PackageJson, CircleKeyPackage, key_package, key_template, decode_raw_b64, lone_tag,
  key_epoch_of, open_package, save_opened, create_nip44_circle_key_event, unwrap_nip44_circle_key,
}
use sentinelmesh.KeyEvents.Outcomes.{IsSaved, unwrapped, imported}

-- What is parsed of a package's text.
abbrev pub parsed_package : CircleKeyPackage → PackageJson
parsed_package p = record {
  version = some p.version;
  package_type = some p.package_type;
  circle_id = some p.circle_id;
  key_epoch = some p.key_epoch;
  algorithm = some p.algorithm;
  key = some p.key;
}

-- The event that `finalizeEvent` makes of a template.
abbrev pub finalized : String → String → EventTemplate → NostrEvent
finalized id pubkey t = record {
  id = id;
  pubkey = pubkey;
  created_at = t.created_at;
  kind = t.kind;
  tags = t.tags;
  content = t.content;
}

module _ (services : KeyServices) (owner member : NostrKeypair) (now : ℕ) (circle_id : String)
    (key_epoch : ℕ) (raw_key shared : List ℕ) where
  abbrev pub sent_text : String
  sent_text = services.stringify_package (key_package services now circle_id key_epoch raw_key)

  abbrev pub sent_template : EventTemplate
  sent_template =
      key_template now circle_id member.public_key key_epoch
        (services.nip44_encrypt sent_text shared)

  -- Both sides derive one conversation key; NIP-44, JSON and base64 give this package back; the
  -- signed event has the template's fields and the owner's key, and is valid; the key is an AES key.
  pub record IsExchange : Type 0 where
    pub event_id : String
    pub owner_hex : is_lowercase_hex64 owner.public_key ≡ true
    pub owner_lower : to_lower owner.public_key ≡ owner.public_key
    pub member_hex : is_lowercase_hex64 (to_lower member.public_key) ≡ true
    pub safe : key_epoch ≤ 9007199254740991
    pub positive : 1 ≤ key_epoch
    pub derived : services.conversation_key owner.secret_key member.public_key ≡ inr shared
    pub derived_back : services.conversation_key member.secret_key owner.public_key ≡ inr shared
    pub decrypts :
        services.nip44_decrypt (services.nip44_encrypt sent_text shared) shared ≡ some sent_text
    pub parses :
        services.parse_package sent_text
        ≡ some (parsed_package (key_package services now circle_id key_epoch raw_key))
    pub decodes : services.keys.browser.atob (services.keys.browser.btoa raw_key) ≡ some raw_key
    pub long : length raw_key ≡ 32
    pub live : CryptoKey
    pub is_key : services.keys.import_key raw_key false ≡ inr live
    pub signs :
        services.finalize sent_template owner.secret_key
        ≡ finalized event_id owner.public_key sent_template
    pub verifies : services.verify (finalized event_id owner.public_key sent_template) ≡ true

  module _ (h : IsExchange) where
    abbrev pub sent_event : NostrEvent
    sent_event = finalized h.event_id owner.public_key sent_template

    created :
        (s : KeyStore)
        → load_vault_circle_key services.keys.browser circle_id (some key_epoch) s.identity
          ≡ some raw_key
        → create_nip44_circle_key_event services owner now circle_id member.public_key key_epoch s
          ≡ inr sent_event
    unfolding create_nip44_circle_key_event
    created s e =
        let fits : leb key_epoch 9007199254740991 && leb 1 key_epoch ≡ true =
          ground (arith, h.safe, h.positive) in
        rw (h.member_hex, fits, e, h.derived, h.signs) refl

    epoch_read : key_epoch_of services member circle_id owner.public_key sent_event ≡ inr key_epoch
    unfolding key_epoch_of lone_tag
    epoch_read =
        let (a, b) = number_from-decimal key_epoch in
        rw
          (
            h.owner_hex,
            h.verifies,
            h.owner_lower,
            eq_refl owner.public_key,
            eq_refl circle_id,
            eq_refl (to_lower member.public_key),
            b,
            a,
          )
          refl

    opened : open_package services shared circle_id key_epoch sent_event.content ≡ some raw_key
    unfolding open_package decode_raw_b64
    opened = rw (h.decrypts, h.parses, eq_refl circle_id, h.decodes, h.long) (ground arith)

saved :
    (services : KeyServices) (random : Random) (circle_id : String) (key_epoch : ℕ)
    (raw_key : List ℕ) (s : KeyStore) (live : CryptoKey)
    → services.keys.import_key raw_key false ≡ inr live
    → let r = save_opened services random circle_id key_epoch (some raw_key) s in
      (r.0 ≡ inr key_epoch) × IsSaved services random circle_id key_epoch raw_key s r.1
unfolding save_opened upsert_circle_key
saved services random circle_id key_epoch raw_key s live e =
    rw (imported services random circle_id key_epoch raw_key s live e, save_opened)
      (
        refl,
        record {
          live = live;
          imported = e;
          rows = λ c n. refl;
          bare = λ c. refl;
          legacy = λ c. refl;
          vault = refl;
        },
      )

-- What the vault gives after a save.
found :
    (services : KeyServices) (random : Random) (circle_id : String) (key_epoch : ℕ)
    (raw_key : List ℕ) (v : VaultPayload) (s s' : KeyStore)
    → load_vault services.keys.browser s.identity ≡ some v
    → IsCarried services.keys.browser
        (get_or_create_wrap_key random s.identity).0
        random.iv
        (record v { circles = with_key circle_id raw_key key_epoch v.circles })
    → IsSaved services random circle_id key_epoch raw_key s s'
    → (j : String) (e : ℕ)
    → load_vault_circle_key services.keys.browser j (some e) s'.identity ≡ (
        if circle_id == j && eqb key_epoch e
        then some raw_key
        else load_vault_circle_key services.keys.browser j (some e) s.identity)
unfolding upsert_circle_key
found services random circle_id key_epoch raw_key v s s' e h saved j n =
    ap (load_vault_circle_key services.keys.browser j (some n)) saved.vault
    ∙ find-upsert services.keys.browser random s.identity v circle_id raw_key key_epoch e h j n

-- The key that the owner's vault holds for a circle and epoch is the key that the member has after unwrapping the event that the owner creates: the event is created without an error, unwrapping it gives its epoch and no error, and then the member's key store has the key that is imported of the owner's bytes for this circle and epoch, the member's vault gives these bytes for them, and both give every other key as before. The epoch is a positive safe integer, both public keys are hexadecimal, the key is an AES key of 32 bytes, the member has a vault, and NIP-44, the signature, JSON, base64 and the cipher do on this key and on the vault that is written what they are documented to do.
pub unwrap_nip44_circle_key-created :
    (services : KeyServices) (owner member : NostrKeypair) (now : ℕ) (circle_id : String)
    (key_epoch : ℕ) (raw_key shared : List ℕ) (random : Random) (v : VaultPayload) (s s' : KeyStore)
    → IsExchange services owner member now circle_id key_epoch raw_key shared
    → load_vault_circle_key services.keys.browser circle_id (some key_epoch) s.identity
      ≡ some raw_key
    → load_vault services.keys.browser s'.identity ≡ some v
    → IsCarried services.keys.browser
        (get_or_create_wrap_key random s'.identity).0
        random.iv
        (record v { circles = with_key circle_id raw_key key_epoch v.circles })
    → (event : NostrEvent) × (create_nip44_circle_key_event services owner now circle_id
          member.public_key key_epoch s
        ≡ inr event)
      × (let r =
            unwrap_nip44_circle_key services member random circle_id owner.public_key event s' in
          (r.0 ≡ inr key_epoch)
          × IsSaved services random circle_id key_epoch raw_key s' r.1
          × ((j : String) (e : ℕ)
              → load_vault_circle_key services.keys.browser j (some e) r.1.identity ≡ (
                  if circle_id == j && eqb key_epoch e
                  then some raw_key
                  else load_vault_circle_key services.keys.browser j (some e) s'.identity)))
unwrap_nip44_circle_key-created services owner member now circle_id key_epoch raw_key shared random
      v s s' h e loads carried =
    let event = sent_event services owner member now circle_id key_epoch raw_key shared h in
    let (done, kept) =
      subst
        (λ r. (r.0 ≡ inr key_epoch) × IsSaved services random circle_id key_epoch raw_key s' r.1)
        (sym (
          unwrapped services member random circle_id owner.public_key event s' key_epoch shared
            (epoch_read services owner member now circle_id key_epoch raw_key shared h)
            h.derived_back
          ∙ ap (λ o. save_opened services random circle_id key_epoch o s')
              (opened services owner member now circle_id key_epoch raw_key shared h)))
        (saved services random circle_id key_epoch raw_key s' h.live h.is_key) in
    (
      event,
      created services owner member now circle_id key_epoch raw_key shared h s e,
      (done, kept, found services random circle_id key_epoch raw_key v s' _ loads carried kept),
    )
