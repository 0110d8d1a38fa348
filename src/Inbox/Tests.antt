-- ===== src/Inbox/Tests.antt =====
-- A run of the inbox, and the theorem at a concrete wrap.
use sentinelmesh.Common.{
  false, eqb, includes, String, true, [], ◌∷◌, none, some, ◌≡◌, ◌⊎◌, refl, str_lt, to_lower,
  all_lowercase_hex, utf16_length,
}
use sentinelmesh.Common.Sets
use sentinelmesh.Timeline.{sort, place, is_after}
use sentinelmesh.Validation.{
  NostrEvent, single_tag, single_tag_from, is_lowercase_hex64, valid_message_content,
}
use sentinelmesh.Participants.{normalize_participants}
use sentinelmesh.Inbox.{
  Rumor, Services, ProcessedInboxMessage, process_gift_wrap, unwrap_message, unwrap_gift_wrap,
  open_seal, participant_set, proper_keys,
}
use sentinelmesh.Inbox.Laws.{IsGenuine, process_gift_wrap_cases}

abbrev alice : String
alice = "00000000000000000000000000000000000000000000000000000000000000aa"

abbrev bob : String
bob = "00000000000000000000000000000000000000000000000000000000000000bb"

abbrev seal : NostrEvent
seal = record { id = "s1"; pubkey = bob; created_at = 900; kind = 13; tags = []; content = "rumor" }

abbrev rumor : Rumor
rumor = record {
  pubkey = bob;
  id = "";
  kind = 14;
  created_at = 1000;
  tags = ("p" ∷ alice ∷ []) ∷ [];
  content = "hello";
}

abbrev wrap : NostrEvent
wrap = record {
  id = "w1";
  pubkey = "one-time key";
  created_at = 800;
  kind = 1059;
  tags = ("p" ∷ alice ∷ []) ∷ [];
  content = "seal";
}

abbrev services : Services
services = record {
  my_pubkey = alice;
  verify = λ event. true;
  decrypt = λ key text. some text;
  parse_seal = λ text. some seal;
  parse_rumor = λ text. some rumor;
  event_hash = λ r. some "r1";
  sha256 = λ text. "digest";
}

unwrapped :
    unwrap_message services wrap
    ≡ some (record { rumor = record rumor { id = "r1" }; participants = alice ∷ bob ∷ [] })
unfolding unwrap_message unwrap_gift_wrap open_seal participant_set proper_keys single_tag
    single_tag_from is_lowercase_hex64 valid_message_content normalize_participants to_lower
    all_lowercase_hex utf16_length Sets.of_list sort place is_after str_lt
unwrapped = refl

process_gift_wrap_cases_example :
    (((eqb 1059 1059 ≡ false) ⊎ ((includes "w1" [] ≡ true) ⊎ (unwrap_message services wrap ≡ none)))
      × (process_gift_wrap services [] wrap ≡ (none, [])))
    ⊎ ((m : ProcessedInboxMessage) × (process_gift_wrap services [] wrap
          ≡ (some m, Sets.add [] "w1"))
        × IsGenuine services wrap m.sender_pubkey m.content m.participants
        × (process_gift_wrap services (Sets.add [] "w1") wrap ≡ (none, Sets.add [] "w1")))
process_gift_wrap_cases_example = process_gift_wrap_cases services [] wrap
