-- ===== src/ChatStore/Tests.antt =====
-- Runs of the chat storage, and instances of its theorems.
use sentinelmesh.Common.{
  ℕ, ◌≤◌, String, true, false, List, [], ◌∷◌, ◌++◌, map, none, some, ◌≡◌, refl, ◌⊎◌, arith, length,
  find_by, keep_if, str_lt,
}
use sentinelmesh.Vault.{CryptoKey}
use sentinelmesh.ChatStore.{
  ChatDb, Cipher, PublicChannelMessage, stored_message, channel_message, put_message,
  put_channel_message, list_channel_messages, has_gift_wrap, mark_gift_wrap_seen,
  encrypt_local_plaintext, decrypt_local_plaintext, get_or_create_encryption_key,
  delete_conversation,
}
use sentinelmesh.ChatStore.Tables.{put_row, Ascending}
use sentinelmesh.ChatStore.Cursors.{
  StoredMessage, list_messages, read_on, greatest, in_range, is_before, greatest_time,
}
use sentinelmesh.ChatStore.Newest.{
  IsPaged, NewestFirst, IsOlder, AreIds, is_listed, list_messages-newest,
}
use sentinelmesh.ChatStore.Channels.{put_channel_message-listed}
use sentinelmesh.ChatStore.KeyCalls.{
  KeyWorld, KeyStep, call, continued, writing, returned, resume_call, key_step, run_calls,
}
use sentinelmesh.ChatStore.Sealing.{IsSent, decrypt_local_plaintext-encrypted}

abbrev said : String → ℕ → PublicChannelMessage
said id time = record {
  id = id;
  channel_id = "room";
  sender_pubkey = "p";
  created_at = time;
  content = "hello";
}

abbrev rows : List StoredMessage
rows =
    stored_message (said "a" 7)
    ∷ (record (stored_message (said "b" 8)) { conversation_id = "other" })
    ∷ stored_message (said "c" 9)
    ∷ stored_message (said "d" 9)
    ∷ []

abbrev db : ChatDb
db = record {
  conversations = [];
  messages = rows;
  gift_wraps = [];
  sync_state = [];
  read_state = [];
  preferences = [];
  encryption_key = none;
}

newest_two :
    list_messages 5 rows "room" (some 2) none
    ≡ some (stored_message (said "d" 9) ∷ stored_message (said "c" 9) ∷ [])
unfolding list_messages read_on greatest in_range is_before str_lt
newest_two = refl

earlier : list_messages 5 rows "room" none (some 8) ≡ some (stored_message (said "a" 7) ∷ [])
unfolding list_messages read_on greatest in_range is_before str_lt
earlier = refl

replaced :
    (put_message (stored_message (said "c" 1)) db).messages
    ≡ stored_message (said "a" 7)
      ∷ (record (stored_message (said "b" 8)) { conversation_id = "other" })
      ∷ stored_message (said "c" 1)
      ∷ stored_message (said "d" 9)
      ∷ []
unfolding put_message put_row str_lt
replaced = refl

seen_once :
    mark_gift_wrap_seen 6 "w" (mark_gift_wrap_seen 5 "w" db).1
    ≡ (false, (mark_gift_wrap_seen 5 "w" db).1)
unfolding mark_gift_wrap_seen put_row
seen_once = refl

was_seen : has_gift_wrap "w" (mark_gift_wrap_seen 5 "w" db).1 ≡ true
unfolding mark_gift_wrap_seen has_gift_wrap put_row
was_seen = refl

-- The messages of a deleted conversation stay.
messages_stay :
    list_messages 5 (delete_conversation "other" db).messages "other" none none
    ≡ some ((record (stored_message (said "b" 8)) { conversation_id = "other" }) ∷ [])
unfolding delete_conversation list_messages read_on greatest in_range is_before str_lt
messages_stay = refl

rows-Ascending : Ascending (λ m. m.id) rows
unfolding str_lt
rows-Ascending = ((refl, (refl, (refl, tt))), ((refl, (refl, tt)), ((refl, tt), (tt, tt))))

rows-AreIds : AreIds rows
unfolding str_lt
rows-AreIds = (refl, (refl, (refl, (refl, tt))))

list_messages-newest_example :
    (page : List StoredMessage) × (list_messages 5 rows "room" (some 2) none ≡ some page)
    × NewestFirst page
    × (length page ≤ 2)
    × ((k : String)
        → IsPaged 2 page k (keep_if (is_listed "room" greatest_time) (find_by (λ m. m.id) k rows)))
list_messages-newest_example =
    list_messages-newest 5 rows "room" (some 2) none rows-Ascending rows-AreIds (omega arith)

put_channel_message-listed_example :
    (page : List StoredMessage) × (list_channel_messages 6 "room"
        (put_channel_message (said "e" 4) db)
      ≡ some (map channel_message page))
    × NewestFirst page
    × ((find_by (λ m. m.id) "e" (map channel_message page) ≡ some (said "e" 4))
        ⊎ ((length page ≡ 200) × IsOlder (stored_message (said "e" 4)) page))
unfolding str_lt
put_channel_message-listed_example =
    put_channel_message-listed 6 (said "e" 4) db rows-Ascending rows-AreIds refl (omega arith)
      (omega arith)

abbrev key : CryptoKey
key = record { raw = 9 ∷ []; extractable = false }

abbrev other_key : CryptoKey
other_key = record { raw = 8 ∷ []; extractable = false }

abbrev iv : List ℕ
iv = 1 ∷ 1 ∷ 1 ∷ 1 ∷ 1 ∷ 1 ∷ 1 ∷ 1 ∷ 1 ∷ 1 ∷ 1 ∷ 1 ∷ []

abbrev ciphertext : List ℕ
ciphertext = 2 ∷ 2 ∷ 2 ∷ 2 ∷ 2 ∷ 2 ∷ 2 ∷ 2 ∷ 2 ∷ 2 ∷ 2 ∷ 2 ∷ 2 ∷ 2 ∷ 2 ∷ 2 ∷ []

-- A cipher for the one text "hi".
abbrev cipher : Cipher
cipher = record {
  btoa = λ bs. "AQ==";
  atob = λ s. some (iv ++ ciphertext);
  encode_text = λ s. 3 ∷ [];
  decode_text = λ bs. "hi";
  encrypt = λ k i p. ciphertext;
  decrypt = λ k i s. some (3 ∷ []);
}

hi-IsSent : IsSent cipher key iv "hi"
hi-IsSent = record {
  vector = refl;
  tagged = omega arith;
  carried = refl;
  decrypts = refl;
  decodes = refl;
}

decrypt_local_plaintext-encrypted_example :
    decrypt_local_plaintext cipher other_key
      (encrypt_local_plaintext cipher key iv "hi" db).0
      (encrypt_local_plaintext cipher key iv "hi" db).1
    ≡ (some "hi", (encrypt_local_plaintext cipher key iv "hi" db).1)
unfolding get_or_create_encryption_key
decrypt_local_plaintext-encrypted_example =
    decrypt_local_plaintext-encrypted cipher key other_key iv "hi" db hi-IsSent

abbrev steps : List KeyStep
steps = call ∷ call ∷ continued 1 key ∷ continued 0 other_key ∷ []

-- Two calls that both read before either writes: each returns its own key, and the second stays.
abbrev two_calls : List KeyStep
two_calls =
    call
    ∷ call
    ∷ continued 0 key
    ∷ continued 1 key
    ∷ continued 0 key
    ∷ continued 1 other_key
    ∷ continued 0 key
    ∷ continued 1 key
    ∷ []

two_keys :
    run_calls (record { stored = none; calls = [] }) two_calls
    ≡ record { stored = some other_key; calls = returned key ∷ returned other_key ∷ [] }
unfolding key_step resume_call
two_keys = refl

abbrev late : KeyWorld
late = record { stored = some key; calls = returned key ∷ writing other_key ∷ [] }
