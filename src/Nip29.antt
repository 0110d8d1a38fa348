-- ===== src/Nip29.antt =====
-- Messages and state of public channels (apps/pwa/src/services/chat/nip29.ts). `verify` stands for
-- `verifyEvent` of nostr-tools, `sign_event` for the signer, `now` for the clock in seconds. The
-- random group id of `newGroupId` is not modelled.
pub mod RoundTrip
mod Tests
use sentinelmesh.Common.{
  ℕ, String, Bool, true, false, ◌&&◌, not, List, [], ◌∷◌, Option, none, some, ◌==◌, eqb,
  if◌then◌else◌, ◌⊎◌, inl, inr, to_lower,
}
use sentinelmesh.Validation.{NostrEvent, within_event_bounds, single_tag, valid_message_content}

abbrev pub kind_message : ℕ
kind_message = 9

abbrev pub kind_metadata : ℕ
kind_metadata = 39000

abbrev pub kind_admins : ℕ
kind_admins = 39001

abbrev pub kind_members : ℕ
kind_members = 39002

abbrev pub kind_roles : ℕ
kind_roles = 39003

abbrev pub is_state_kind : ℕ → Bool
is_state_kind kind =
    if eqb kind kind_metadata
    then true
    else if eqb kind kind_admins
    then true
    else if eqb kind kind_members
    then true
    else eqb kind kind_roles

pub record EventTemplate : Type 0 where
  pub kind : ℕ
  pub created_at : ℕ
  pub tags : List (List String)
  pub content : String

unfoldable pub build_management_template :
    ℕ → ℕ → String → List (List String) → String → EventTemplate
build_management_template now kind group_id tags content = record {
  kind = kind;
  created_at = now;
  tags = ("h" ∷ group_id ∷ []) ∷ tags;
  content = content;
}

unfoldable pub create_group_template : ℕ → String → EventTemplate
create_group_template now group_id = build_management_template now 9007 group_id [] ""

unfoldable pub delete_message_template : ℕ → String → String → EventTemplate
delete_message_template now group_id event_id =
    build_management_template now 9005 group_id (("e" ∷ event_id ∷ []) ∷ []) ""

unfoldable pub remove_user_template : ℕ → String → String → EventTemplate
remove_user_template now group_id pubkey =
    build_management_template now 9001 group_id (("p" ∷ to_lower pubkey ∷ []) ∷ []) ""

-- The metadata as the text that `JSON.stringify` makes of it.
unfoldable pub set_metadata_template : ℕ → String → String → EventTemplate
set_metadata_template now group_id metadata =
    build_management_template now 9002 group_id [] metadata

unfoldable pub pin_message_template : ℕ → String → String → EventTemplate
pin_message_template now group_id event_id =
    build_management_template now 9010 group_id (("e" ∷ event_id ∷ []) ∷ []) ""

pub record ChannelMessage : Type 0 where
  pub group_id : String
  pub template : EventTemplate

-- The error that is thrown, or the message.
unfoldable pub create_channel_message : ℕ → String → String → String ⊎ ChannelMessage
create_channel_message now group_id content =
    if not (valid_message_content content)
    then inl "invalid message content"
    else if group_id == ""
    then inl "missing group id"
    else inr (record {
      group_id = group_id;
      template = record {
        kind = kind_message;
        created_at = now;
        tags = ("h" ∷ group_id ∷ []) ∷ [];
        content = content;
      };
    })

-- `singleTag(event, name) === value`
abbrev pub has_tag : NostrEvent → String → String → Bool
has_tag event name v = elim (single_tag event name) [ none ↦ false | some found ↦ found == v ]

unfoldable pub validate_channel_message : (NostrEvent → Bool) → NostrEvent → String → ℕ → Bool
validate_channel_message verify event group_id now =
    if not (eqb event.kind kind_message)
    then false
    else if not (within_event_bounds event now)
    then false
    else if not (verify event)
    then false
    else if not (has_tag event "h" group_id)
    then false
    else valid_message_content event.content

-- `relaySelfPubkey && event.pubkey !== relaySelfPubkey`
abbrev pub is_foreign : Option String → NostrEvent → Bool
is_foreign none event = false
is_foreign (some self) event = not (self == "") && not (event.pubkey == self)

unfoldable pub validate_group_state_event :
    (NostrEvent → Bool) → NostrEvent → String → Option String → ℕ → Bool
validate_group_state_event verify event group_id relay_self_pubkey now =
    if not (is_state_kind event.kind)
    then false
    else if not (within_event_bounds event now)
    then false
    else if not (verify event)
    then false
    else if not (has_tag event "d" group_id) && not (has_tag event "h" group_id)
    then false
    else if is_foreign relay_self_pubkey event
    then false
    else true

unfoldable pub sign_channel_message : (EventTemplate → NostrEvent) → ChannelMessage → NostrEvent
sign_channel_message sign_event message = sign_event message.template
