-- ===== src/CircleRecords/Locked.antt =====
-- Who is known of a circle's members, and what is shown of a circle without a key.
use sentinelmesh.Common.{
  ℕ, String, List, [], ◌∷◌, map, none, some, ◌≡◌, refl, sym, ap, subst, ◌⊎◌, inl, inr, arith,
  and_then, and_then-some, get_or, Option-cases,
}
use sentinelmesh.Types.{value, Circle, CircleMember}
use sentinelmesh.Vault.{CryptoKey}
use sentinelmesh.CircleKeys.{KeyStore}
use sentinelmesh.CircleKeys.Loading.{HasRow, load-HasRow}
use sentinelmesh.CircleRecords.{
  RawMember, RawCircleDetail, Label, RecordServices, RecordRandom, LoadedKey, get_circle_owner_key,
  decrypt_string, given, field_text, unwrap_key, retry_key, circle_key, display_name, label_of,
  member_of, circle_of, records_with, to_circle_and_members,
}

retry-HasRow :
    (services : RecordServices) (random : RecordRandom) (detail : RawCircleDetail) (epoch : ℕ)
    (l : LoadedKey)
    → HasRow detail.id epoch l
    → HasRow detail.id epoch (retry_key services random detail epoch l)
unfolding retry_key
retry-HasRow services random detail epoch (inr (some key), s) h = h
retry-HasRow services random detail epoch (inl error, s) h = h
retry-HasRow services random detail epoch (inr none, s) h = elim (Option-cases detail.my_key_wrap) [
  | inl n ↦ rw (n, retry_key) tt
  | inr (wrap, e) ↦ elim (Option-cases (get_circle_owner_key detail.id services.owner_keys)) [
    | inl n ↦ rw (e, n, retry_key) tt
    | inr (owner, f) ↦
        rw (e, f, retry_key)
          (load-HasRow services.keys.keys random.second detail.id epoch
            (unwrap_key services random.unwrap detail.id owner wrap s))
  ]
]

circle_key-HasRow :
    (services : RecordServices) (random : RecordRandom) (detail : RawCircleDetail) (s : KeyStore)
    → HasRow detail.id (get_or 1 detail.key_epoch) (circle_key services random detail s)
unfolding circle_key
circle_key-HasRow services random detail s =
    retry-HasRow services random detail (get_or 1 detail.key_epoch) _
      (load-HasRow services.keys.keys random.first detail.id (get_or 1 detail.key_epoch) s)

-- The name and key of a member come from a label that this key decrypts.
abbrev pub IsKnown : RecordServices → CryptoKey → RawMember → CircleMember → Type 0
IsKnown services key m c =
    ((c.pubkey ≡ none) × (c.label ≡ none))
    ⊎ ((text decoded : String) × (l : Label) × (field_text m.member_label_ciphertext ≡ some text)
        × (decrypt_string services.keys.keys.browser key text ≡ some decoded)
        × (services.parse_label decoded ≡ some l)
        × (c.pubkey ≡ l.pubkey)
        × (c.label ≡ l.name))

abbrev pub AreKnown : RecordServices → CryptoKey → List RawMember → List CircleMember → Type 0
AreKnown services key [] [] = Unit
AreKnown services key (m ∷ ms) (c ∷ cs) = IsKnown services key m c × AreKnown services key ms cs
AreKnown services key _ _ = ⊥

abbrev pub AreUnknown : List CircleMember → Type 0
AreUnknown [] = Unit
AreUnknown (c ∷ cs) = (c.pubkey ≡ none) × (c.label ≡ none) × AreUnknown cs

given-some : (t u : String) → given (some t) ≡ some u → t ≡ u
given-some t u h = ground (arith, h)

member-IsKnown :
    (services : RecordServices) (key : CryptoKey) (m : RawMember)
    → IsKnown services key m (member_of services (some key) m)
unfolding member_of label_of
member-IsKnown services key m = elim (Option-cases (label_of services (some key) m)) [
  | inl n ↦ inl (ap (λ o. and_then o (λ l. l.pubkey)) n, ap (λ o. and_then o (λ l. l.name)) n)
  | inr (l, e) ↦
      let (text, f, a) = and_then-some (field_text m.member_label_ciphertext) _ e in
      let (decoded, g, b) =
        and_then-some (decrypt_string services.keys.keys.browser key text) _ a in
      let (same, i, c) = and_then-some (given (some decoded)) _ b in
      inr (
        text,
        decoded,
        l,
        f,
        g,
        subst (λ t. services.parse_label t ≡ some l) (sym (given-some decoded same i)) c,
        ap (λ o. and_then o (λ x. x.pubkey)) e,
        ap (λ o. and_then o (λ x. x.name)) e,
      )
]

members-AreKnown :
    (services : RecordServices) (key : CryptoKey) (ms : List RawMember)
    → AreKnown services key ms (map (member_of services (some key)) ms)
members-AreKnown services key [] = tt
members-AreKnown services key (m ∷ ms) =
    (member-IsKnown services key m, members-AreKnown services key ms)

members-AreUnknown :
    (services : RecordServices) (ms : List RawMember)
    → AreUnknown (map (member_of services none) ms)
unfolding member_of label_of
members-AreUnknown services [] = tt
members-AreUnknown services (m ∷ ms) = (refl, refl, members-AreUnknown services ms)

unnamed :
    (services : RecordServices) (detail : RawCircleDetail)
    → (circle_of services detail none).name ≡ value (get_or "(unnamed)" detail.name)
unfolding circle_of display_name
unnamed services detail = refl

-- What is known with a key of the circle at its epoch, or without one.
abbrev pub IsRead :
    RecordServices → RawCircleDetail → KeyStore → Circle → List CircleMember → Type 0
IsRead services detail s circle members =
    ((circle.name ≡ value (get_or "(unnamed)" detail.name)) × AreUnknown members)
    ⊎ ((key : CryptoKey) × (s.circle_keys detail.id (get_or 1 detail.key_epoch) ≡ some key)
        × AreKnown services key detail.members members)

-- Where the records of a circle are made, one of two things holds. Without a key, no member has a public key or a name, and the circle is shown by its plain name or as "(unnamed)", also where it has an encrypted name: never as locked. With a key, it is the one that the store then has for the circle at the circle's epoch, and the public key and the name of each member are those in a label that this key decrypts, or there are none.
pub records-IsRead :
    (services : RecordServices) (random : RecordRandom) (detail : RawCircleDetail) (s : KeyStore)
    → let r = to_circle_and_members services random detail s in
      ((error : String) × (r.0 ≡ inl error))
      ⊎ ((circle : Circle) × (members : List CircleMember) × (r.0 ≡ inr (circle, members))
          × IsRead services detail r.1 circle members)
unfolding to_circle_and_members
records-IsRead services random detail s =
    by_key (circle_key services random detail s) (circle_key-HasRow services random detail s)
  where
    by_key :
        (l : LoadedKey)
        → HasRow detail.id (get_or 1 detail.key_epoch) l
        → let r = records_with services detail l in
          ((error : String) × (r.0 ≡ inl error))
          ⊎ ((circle : Circle) × (members : List CircleMember) × (r.0 ≡ inr (circle, members))
              × IsRead services detail r.1 circle members)
    by_key (inl error, s') h = inl (error, refl)
    by_key (inr none, s') h = inr (
      circle_of services detail none,
      map (member_of services none) detail.members,
      refl,
      inl (unnamed services detail, members-AreUnknown services detail.members),
    )
    by_key (inr (some key), s') h = inr (
      circle_of services detail (some key),
      map (member_of services (some key)) detail.members,
      refl,
      inr (key, h, members-AreKnown services key detail.members),
    )
