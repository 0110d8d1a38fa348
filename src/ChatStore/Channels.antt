-- ===== src/ChatStore/Channels.antt =====
-- A message of a public channel that is stored, and the messages that are read back.
use sentinelmesh.Common.{
  ℕ, suc, ◌≤◌, ◌<◌, String, false, List, [], ◌∷◌, map, none, some, ◌≡◌, refl, ap, subst, ◌∙◌, ◌⊎◌,
  inl, inr, str_lt, arith, eq_iff, length, find_by, and_then, keep_if,
}
use mathlib.Core.Option
use sentinelmesh.ChatStore.{
  ChatDb, PublicChannelMessage, stored_message, channel_message, put_message, put_channel_message,
  list_channel_messages,
}
use sentinelmesh.ChatStore.Tables.{put_row, Ascending, put_row-Ascending, find_by-put_row}
use sentinelmesh.ChatStore.Cursors.{StoredMessage, greatest_time}
use sentinelmesh.ChatStore.Newest.{
  IsOlder, IsPaged, NewestFirst, AreIds, is_listed, list_messages-newest,
}

put_row-AreIds :
    (m : StoredMessage) (rows : List StoredMessage)
    → str_lt "\u{ffff}" m.id ≡ false
    → AreIds rows
    → AreIds (put_row (λ m. m.id) m rows)
unfolding put_row
put_row-AreIds m [] h a = (h, tt)
put_row-AreIds m (x ∷ xs) h a = ground (arith, h, put_row-AreIds m xs h a.1)

length-put_row :
    (m : StoredMessage) (rows : List StoredMessage)
    → length (put_row (λ m. m.id) m rows) ≤ suc (length rows)
unfolding put_row
length-put_row m [] = omega arith
length-put_row m (x ∷ xs) = ground (arith, length-put_row m xs)

find_by-channel_message :
    (k : String) (page : List StoredMessage)
    → find_by (λ m. m.id) k (map channel_message page)
      ≡ Option.map channel_message (find_by (λ m. m.id) k page)
find_by-channel_message k [] = refl
find_by-channel_message k (x ∷ xs) = ground (arith, find_by-channel_message k xs)

put_found :
    (message : PublicChannelMessage) (rows : List StoredMessage)
    → message.created_at ≤ greatest_time
    → keep_if
        (is_listed message.channel_id greatest_time)
        (find_by (λ m. m.id) message.id (put_row (λ m. m.id) (stored_message message) rows))
      ≡ some (stored_message message)
put_found message rows h =
    rw (find_by-put_row (λ m. m.id) message.id (stored_message message) rows)
      (ground (arith, eq_iff message.id message.id, eq_iff message.channel_id message.channel_id))

outcome :
    (message : PublicChannelMessage) (page : List StoredMessage)
    → IsPaged 200 page message.id (some (stored_message message))
    → (find_by (λ m. m.id) message.id (map channel_message page) ≡ some message)
      ⊎ ((length page ≡ 200) × IsOlder (stored_message message) page)
outcome message page (inl f) =
    inl (find_by-channel_message message.id page ∙ ap (Option.map channel_message) f)
outcome message page (inr (e, f, older)) = inr (e, older)

-- A channel message that is stored, over one with the same id or beside the others, is read back as it was by the next listing of its channel, which returns within two steps more than there were rows and one; or that listing is one of 200 messages, all of which are newer. The conditions are that the rows stand in the order of their ids, that no id lies beyond U+FFFF and that the time is a safe integer.
pub put_channel_message-listed :
    (fuel : ℕ) (message : PublicChannelMessage) (db : ChatDb)
    → Ascending (λ m. m.id) db.messages
    → AreIds db.messages
    → str_lt "\u{ffff}" message.id ≡ false
    → message.created_at ≤ greatest_time
    → suc (length db.messages) < fuel
    → (page : List StoredMessage) × (list_channel_messages fuel message.channel_id
          (put_channel_message message db)
        ≡ some (map channel_message page))
      × NewestFirst page
      × ((find_by (λ m. m.id) message.id (map channel_message page) ≡ some message)
          ⊎ ((length page ≡ 200) × IsOlder (stored_message message) page))
unfolding list_channel_messages put_channel_message put_message
put_channel_message-listed fuel message db a ids h t enough =
    let rows = put_row (λ m. m.id) (stored_message message) db.messages in
    let (page, read, order, short, paged) =
      list_messages-newest fuel rows message.channel_id none none
        (put_row-Ascending (λ m. m.id) (stored_message message) db.messages a)
        (put_row-AreIds (stored_message message) db.messages h ids)
        (omega (arith, enough, length-put_row (stored_message message) db.messages)) in
    (
      page,
      ap (λ o. and_then o (λ stored. some (map channel_message stored))) read,
      order,
      outcome message page (
          subst (λ o. IsPaged 200 page message.id o) (put_found message db.messages t)
            (paged message.id)),
    )
