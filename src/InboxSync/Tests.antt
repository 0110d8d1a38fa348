-- ===== src/InboxSync/Tests.antt =====
-- A wrap that is handled to the end, one that is lost, and instances of the theorems.
use sentinelmesh.Common.{
  String, Bool, true, false, List, [], ◌∷◌, map, none, some, ◌≡◌, refl, str_lt, to_lower,
  all_lowercase_hex, utf16_length,
}
use sentinelmesh.Common.Sets
use sentinelmesh.Timeline.{sort, place, is_after}
use sentinelmesh.Validation.{
  NostrEvent, single_tag, single_tag_from, is_lowercase_hex64, valid_message_content,
}
use sentinelmesh.Participants.{normalize_participants}
use sentinelmesh.Vault.{CryptoKey}
use sentinelmesh.Inbox.{
  Services, ProcessedInboxMessage, unwrap_message, unwrap_gift_wrap, open_seal, participant_set,
  proper_keys,
}
use sentinelmesh.ChatStore.{
  ChatDb, Cipher, has_gift_wrap, mark_gift_wrap_seen, encrypt_local_plaintext,
  get_or_create_encryption_key, encode, put_message,
}
use sentinelmesh.ChatStore.Tables.{put_row}
use sentinelmesh.Dm
use sentinelmesh.InboxSync.{
  marking, InboxWorld, Draw, InboxStep, arrive, advance, row_of, on_wrap, resume_wrap, inbox_step,
  run,
}
use sentinelmesh.InboxSync.Kept.{mounted}
use sentinelmesh.InboxSync.Lost.{IsIgnored, disposed_mark-lost}

abbrev key : CryptoKey
key = record { raw = 9 ∷ []; extractable = false }

abbrev draw : Draw
draw = record { generated = key; iv = 1 ∷ []; now = 5 }

abbrev services : Services
services = record {
  my_pubkey = "alice";
  verify = λ event. true;
  decrypt = λ key text. none;
  parse_seal = λ text. none;
  parse_rumor = λ text. none;
  event_hash = λ r. none;
  sha256 = λ text. "digest";
}

abbrev cipher : Cipher
cipher = record {
  btoa = λ bs. "sealed";
  atob = λ s. none;
  encode_text = λ s. [];
  decode_text = λ bs. "";
  encrypt = λ k i p. p;
  decrypt = λ k i s. none;
}

abbrev db : ChatDb
db = record {
  conversations = [];
  messages = [];
  gift_wraps = [];
  sync_state = [];
  read_state = [];
  preferences = [];
  encryption_key = none;
}

abbrev hello : ProcessedInboxMessage
hello = record {
  conversation_id = "room";
  participants = "alice" ∷ "bob" ∷ [];
  sender_pubkey = "bob";
  content = "hello";
  created_at = 7;
  rumor_id = "r";
  wrap_id = "w";
}

-- A world where the wrap of this message is unwrapped.
abbrev unwrapped : Bool → InboxWorld
unwrapped disposed = record {
  seen = "w" ∷ [];
  db = db;
  dm = Dm.initial_state;
  disposed = disposed;
  tasks = marking hello ∷ [];
}

abbrev three : List InboxStep
three = advance 0 draw ∷ advance 0 draw ∷ advance 0 draw ∷ []

stored : (run services cipher (unwrapped false) three).db.messages ≡ row_of hello "sealed" ∷ []
unfolding inbox_step resume_wrap mark_gift_wrap_seen put_row encrypt_local_plaintext
    get_or_create_encryption_key encode put_message
stored = refl

marked : has_gift_wrap "w" (run services cipher (unwrapped false) (advance 0 draw ∷ [])).db ≡ true
unfolding inbox_step resume_wrap mark_gift_wrap_seen put_row has_gift_wrap
marked = refl

-- A wrap that is unwrapped to a message of bob's.
abbrev alice : String
alice = "00000000000000000000000000000000000000000000000000000000000000aa"

abbrev bob : String
bob = "00000000000000000000000000000000000000000000000000000000000000bb"

abbrev wrap : NostrEvent
wrap = record {
  id = "w1";
  pubkey = "one-time key";
  created_at = 800;
  kind = 1059;
  tags = ("p" ∷ alice ∷ []) ∷ [];
  content = "seal";
}

abbrev open_services : Services
open_services = record {
  my_pubkey = alice;
  verify = λ event. true;
  decrypt = λ key text. some text;
  parse_seal = λ text. some (record {
    id = "s1";
    pubkey = bob;
    created_at = 900;
    kind = 13;
    tags = [];
    content = "rumor";
  });
  parse_rumor = λ text. some (record {
    pubkey = bob;
    id = "";
    kind = 14;
    created_at = 1000;
    tags = ("p" ∷ alice ∷ []) ∷ [];
    content = "hello";
  });
  event_hash = λ r. some "r1";
  sha256 = λ text. "digest";
}

abbrev handling : List InboxStep
handling = arrive wrap ∷ advance 0 draw ∷ advance 0 draw ∷ three

handled :
    let w = run open_services cipher (mounted db Dm.initial_state) handling in
    (has_gift_wrap "w1" w.db ≡ true) × (map (λ r. r.id) w.db.messages ≡ "r1" ∷ []) × (w.tasks ≡ [])
unfolding inbox_step on_wrap resume_wrap mark_gift_wrap_seen has_gift_wrap put_row put_message
    encrypt_local_plaintext get_or_create_encryption_key unwrap_message unwrap_gift_wrap open_seal
    participant_set proper_keys single_tag single_tag_from is_lowercase_hex64 valid_message_content
    normalize_participants to_lower all_lowercase_hex utf16_length Sets.of_list sort place is_after
    str_lt
handled = (refl, refl, refl)

abbrev again : List InboxStep
again =
    arrive (record {
      id = "w";
      pubkey = "one-time key";
      created_at = 3;
      kind = 1059;
      tags = [];
      content = "seal";
    })
    ∷ three

disposed_mark-lost_example :
    let w' = inbox_step services cipher (unwrapped true) (advance 0 draw) in
    (w'.db.messages ≡ [])
    × (w'.dm ≡ Dm.initial_state)
    × (w'.tasks ≡ [])
    × IsIgnored "w" (
        run services cipher
          (record { seen = []; db = w'.db; dm = Dm.initial_state; disposed = false; tasks = [] })
          again)
disposed_mark-lost_example =
    disposed_mark-lost services cipher (unwrapped true) 0 hello draw Dm.initial_state again refl
      refl
