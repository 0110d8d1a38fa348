-- ===== src/Participants/Tests.antt =====
-- Runs of the participant lists, and the theorems at concrete keys.
use sentinelmesh.Common.{
  String, List, [], ◌∷◌, some, ◌≡◌, refl, to_lower, all_lowercase_hex, utf16_length, str_lt,
}
use sentinelmesh.Common.Sets
use sentinelmesh.Timeline.{sort, place, is_after}
use sentinelmesh.Types.{MembershipState}
use sentinelmesh.Validation.{is_lowercase_hex64}
use sentinelmesh.Participants.{normalize_participants, join, CircleChatMember}

abbrev alice : String
alice = "00000000000000000000000000000000000000000000000000000000000000aa"

abbrev alice_upper : String
alice_upper = "00000000000000000000000000000000000000000000000000000000000000AA"

abbrev bob : String
bob = "00000000000000000000000000000000000000000000000000000000000000bb"

normalized : normalize_participants (bob ∷ alice_upper ∷ "x" ∷ alice ∷ []) ≡ alice ∷ bob ∷ []
unfolding normalize_participants to_lower is_lowercase_hex64 all_lowercase_hex utf16_length
    Sets.of_list sort place is_after str_lt
normalized = refl

joined : join ("a" ∷ "b" ∷ []) ≡ "a,b"
unfolding join
joined = refl

abbrev roster : List CircleChatMember
roster =
    (record { pubkey = bob; membership_state = some MembershipState.active })
    ∷ (record { pubkey = alice; membership_state = some MembershipState.pending })
    ∷ []
