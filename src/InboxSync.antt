-- ===== src/InboxSync.antt =====
-- The inbox as the user interface runs it (apps/pwa/src/hooks/useInboxSync.ts): each gift wrap that
-- the relay delivers is handled by a task that runs from one await to the next, interleaved with the
-- others and with the clean-up of the effect. The code that a task runs is that of Inbox, ChatStore
-- and Dm. The relay connection is not modelled: its events arrive in any order, and none after the
-- clean-up, which closes the subscription.
pub mod Pending
pub mod Storing
pub mod Kept
pub mod Lost
mod Tests
use sentinelmesh.Common.{
  ℕ, String, Bool, true, false, not, List, [], ◌∷◌, ◌++◌, Option, none, some, ◌==◌, eqb,
  if◌then◌else◌, length, get_elem?, set, take, drop, suc, includes, foldl, text_prefix,
}
use sentinelmesh.Common.Sets
use sentinelmesh.Validation.{NostrEvent}
use sentinelmesh.Vault.{CryptoKey}
use sentinelmesh.Inbox.{Services, ProcessedInboxMessage, processed, unwrap_message}
use sentinelmesh.ChatStore.{
  ChatDb, Cipher, has_gift_wrap, mark_gift_wrap_seen, encrypt_local_plaintext, put_message,
}
use sentinelmesh.ChatStore.Cursors.{StoredMessage, ChatDeliveryState}
use sentinelmesh.Dm.{
  DmState, DmConversation, DmConversationKind, DmMessage, DmAction, added, received, reducer,
}

-- What a task waits for: the look-up of the wrap's id, the unwrapping, the mark, the encryption and
-- the writing of the message.
pub data WrapTask : Type 0 where
  asking : NostrEvent → WrapTask
  opening : NostrEvent → WrapTask
  marking : ProcessedInboxMessage → WrapTask
  sealing : ProcessedInboxMessage → WrapTask
  saving : ProcessedInboxMessage → String → WrapTask

pub record InboxWorld : Type 0 where
  -- The ids that this run of the effect has marked.
  pub seen : List String
  pub db : ChatDb
  pub dm : DmState
  pub disposed : Bool
  pub tasks : List WrapTask

-- The key that would be generated, a random vector, and the time in milliseconds.
pub record Draw : Type 0 where
  pub generated : CryptoKey
  pub iv : List ℕ
  pub now : ℕ

pub data InboxStep : Type 0 where
  arrive : NostrEvent → InboxStep
  -- The task at an index goes on.
  advance : ℕ → Draw → InboxStep
  dispose : InboxStep

abbrev pub finish : ℕ → InboxWorld → InboxWorld
finish i w = record w { tasks = take i w.tasks ++ drop (suc i) w.tasks }

abbrev pub go_on : ℕ → WrapTask → InboxWorld → InboxWorld
go_on i task w = record w { tasks = set w.tasks i task }

abbrev pub conversation_of : ProcessedInboxMessage → DmConversation
conversation_of m = record {
  id = m.conversation_id;
  kind = if eqb (length m.participants) 2 then DmConversationKind.dm else DmConversationKind.circle;
  title = text_prefix 12 m.sender_pubkey;
  participants = m.participants;
}

abbrev pub message_of : ProcessedInboxMessage → DmMessage
message_of m = record {
  id = m.rumor_id;
  conversation_id = m.conversation_id;
  sender_pubkey = m.sender_pubkey;
  created_at = m.created_at;
  content = m.content;
}

abbrev pub row_of : ProcessedInboxMessage → String → StoredMessage
row_of m ciphertext = record {
  id = m.rumor_id;
  conversation_id = m.conversation_id;
  sender_pubkey = m.sender_pubkey;
  created_at = m.created_at;
  kind = 14;
  ciphertext = ciphertext;
  delivery_state = ChatDeliveryState.delivered;
}

module _ (services : Services) (cipher : Cipher) where
  -- `onEvent`, up to its first await.
  unfoldable pub on_wrap : NostrEvent → InboxWorld → InboxWorld
  on_wrap wrap w =
      if w.disposed
      then w
      else if not (eqb wrap.kind 1059)
      then w
      else if includes wrap.id w.seen
      then w
      else record w { tasks = w.tasks ++ (asking wrap ∷ []) }

  -- A task's code between two awaits; what it awaited has taken effect.
  unfoldable pub resume_wrap : ℕ → WrapTask → Draw → InboxWorld → InboxWorld
  resume_wrap i (asking wrap) draw w =
      if has_gift_wrap wrap.id w.db then finish i w else go_on i (opening wrap) w
  resume_wrap i (opening wrap) draw w = elim (unwrap_message services wrap) [
    | none ↦ finish i w
    | some unwrapped ↦
        go_on i (marking (processed services wrap unwrapped))
          (record w { seen = Sets.add w.seen wrap.id })
  ]
  resume_wrap i (marking m) draw w =
      let marked = record w { db = (mark_gift_wrap_seen draw.now m.wrap_id w.db).1 } in
      if w.disposed then finish i marked else go_on i (sealing m) marked
  resume_wrap i (sealing m) draw w =
      let (ciphertext, db) = encrypt_local_plaintext cipher draw.generated draw.iv m.content w.db in
      go_on i (saving m ciphertext) (record w { db = db })
  resume_wrap i (saving m ciphertext) draw w = finish i (record w {
    db = put_message (row_of m ciphertext) w.db;
    dm =
        reducer (reducer w.dm (added (conversation_of m)))
          (received m.conversation_id (message_of m));
  })

  unfoldable pub inbox_step : InboxWorld → InboxStep → InboxWorld
  inbox_step w (arrive wrap) = on_wrap wrap w
  inbox_step w (advance i draw) = elim (get_elem? w.tasks i) [
    | none ↦ w
    | some task ↦ resume_wrap i task draw w
  ]
  inbox_step w dispose = record w { disposed = true }

  abbrev pub run : InboxWorld → List InboxStep → InboxWorld
  run w steps = foldl inbox_step w steps
