-- ===== src/Participants/Laws.antt =====
-- Participants as a set of people: order, repetition, the case of letters and malformed keys do not
-- matter.
use sentinelmesh.Common.{
  String, Bool, ◌&&◌, ◌||◌, not, List, [], ◌∷◌, map, filter, includes, any, ◌==◌, ◌≡◌, refl, sym,
  ◌∙◌, ap, ◌↔◌, find_by, none, some, arith, to_lower, to_lower_idem, if◌then◌else◌, eq_iff,
  Bool-cases, inl, inr,
}
use sentinelmesh.Common.Sets
use sentinelmesh.Timeline.Order.{IsTimeline, sort-IsTimeline, includes-sort}
use sentinelmesh.Timeline.Arrivals.{timeline_ext}
use sentinelmesh.Validation.{is_lowercase_hex64}
use sentinelmesh.Participants.{
  normalize_participants, sort_texts, CircleChatMember, is_pending, circle_chat_participants,
}

map_self : (xs : List String) → map (λ x. x) xs ≡ xs
map_self [] = refl
map_self (x ∷ xs) = ap (λ t. x ∷ t) (map_self xs)

find_by_self :
    (k : String) (xs : List String)
    → find_by (λ x. x) k xs ≡ (if includes k xs then some k else none)
find_by_self k [] = refl
find_by_self k (x ∷ xs) = ground (arith, find_by_self k xs, eq_iff x k)

-- Whether a key belongs to the people that a list of keys names.
abbrev pub is_member : String → List String → Bool
is_member k pubkeys = is_lowercase_hex64 k && any (λ p. to_lower p == k) pubkeys

includes-lowered :
    (k : String) (xs : List String) → includes k (map to_lower xs) ≡ any (λ p. to_lower p == k) xs
includes-lowered k [] = refl
includes-lowered k (x ∷ xs) = ground (arith, includes-lowered k xs)

IsTimeline-normalize : (xs : List String) → IsTimeline (λ x. x) (λ x. 0) (normalize_participants xs)
unfolding normalize_participants
IsTimeline-normalize xs =
    sort-IsTimeline (λ x. x) (λ x. 0) _
      (rw (map_self (Sets.of_list (filter is_lowercase_hex64 (map to_lower xs))))
        (Sets.Distinct-of_list _))

pub includes-normalize :
    (k : String) (xs : List String) → includes k (normalize_participants xs) ≡ is_member k xs
unfolding normalize_participants
includes-normalize k xs =
    let named = filter is_lowercase_hex64 (map to_lower xs) in
    let plain = ap (includes k) (map_self (Sets.of_list named)) in
    sym (ap (includes k) (map_self (sort_texts (Sets.of_list named))))
    ∙ includes-sort (λ x. x) (λ x. 0) k (Sets.of_list named)
    ∙ plain
    ∙ Sets.includes-of_list k named
    ∙ Sets.includes-filter k is_lowercase_hex64 (map to_lower xs)
    ∙ ap (λ b. is_lowercase_hex64 k && b) (includes-lowered k xs)

-- Two lists of keys have the same normalized participants exactly if they name the same people: each well-formed key that stands in one of them, up to the case of its letters, stands in the other.
normalize_participants_iff :
    (xs ys : List String)
    → (normalize_participants xs ≡ normalize_participants ys)
      ↔ ((k : String) → is_member k xs ≡ is_member k ys)
normalize_participants_iff xs ys = (
  λ e k. sym (includes-normalize k xs) ∙ ap (includes k) e ∙ includes-normalize k ys,
  λ h.
      timeline_ext (λ x. x) (λ x. 0) _ _ (IsTimeline-normalize xs) (IsTimeline-normalize ys)
        (λ k.
          find_by_self k (normalize_participants xs)
          ∙ ap (λ b. if b then some k else none)
              (includes-normalize k xs ∙ h k ∙ sym (includes-normalize k ys))
          ∙ sym (find_by_self k (normalize_participants ys))),
)

-- Whether a key is that of a member who is not pending.
abbrev pub is_joined : String → List CircleChatMember → Bool
is_joined k members = any (λ m. not (is_pending m) && to_lower m.pubkey == k) members

includes-joined :
    (k owner : String) (members : List CircleChatMember)
    → any
        (λ p. to_lower p == k)
        (filter
          (λ p. not (p == owner))
          (map (λ m. to_lower m.pubkey) (filter (λ m. not (is_pending m)) members)))
      ≡ (not (k == owner) && is_joined k members)
includes-joined k owner [] = ground arith
includes-joined k owner (m ∷ members) = elim (Bool-cases (is_pending m)) [
  | inl y ↦ rw y (includes-joined k owner members)
  | inr n ↦ rw n (
      ground (
        arith,
        includes-joined k owner members,
        to_lower_idem m.pubkey,
        eq_iff (to_lower m.pubkey) k,
        eq_iff (to_lower m.pubkey) owner,
        eq_iff k owner,
      ))
]

-- A key takes part in a circle's chat exactly if it is well formed and, up to the case of letters, the owner's or that of a member who is not pending; the participants are in order and none stands twice.
includes-circle_chat_participants :
    (k owner : String) (members : List CircleChatMember)
    → (includes k (circle_chat_participants owner members)
        ≡ (is_lowercase_hex64 k && (k == to_lower owner || is_joined k members)))
      × IsTimeline (λ x. x) (λ x. 0) (circle_chat_participants owner members)
unfolding circle_chat_participants
includes-circle_chat_participants k owner members = (
  includes-normalize k _
      ∙ ground (
        arith,
        includes-joined k (to_lower owner) members,
        to_lower_idem owner,
        eq_iff (to_lower owner) k,
        eq_iff k (to_lower owner),
      ),
  IsTimeline-normalize _,
)
