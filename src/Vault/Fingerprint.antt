-- ===== src/Vault/Fingerprint.antt =====
-- Fingerprints of a vault (apps/pwa/src/services/identityStore.ts), and that they do not depend on
-- the order in which the circles are stored.
use Prim.Native.String.{◌++◌}
use mathlib.Core.List.{Permᴰ}
use sentinelmesh.Common.{
  ℕ, String, List, [], ◌∷◌, map, none, some, ◌≡◌, refl, ap, ap₂, ◌∙◌, ◌/◌, ◌-◌, ◌*◌, get_elem?,
  get_or, arith, str_lt_irrefl, str_lt_trans, str_lt_total, str_lt_asymm,
}
use sentinelmesh.Timeline.{place, sort, is_after}
use sentinelmesh.Participants.{sort_texts}
use sentinelmesh.Vault.{VaultCircle, VaultPayload, Browser, IdentityDb, load_vault}

place_text-place :
    (x y : String) (s : List String)
    → place (λ t. t) (λ t. 0) x (place (λ t. t) (λ t. 0) y s)
      ≡ place (λ t. t) (λ t. 0) y (place (λ t. t) (λ t. 0) x s)
unfolding place is_after
place_text-place x y [] = ground (arith, str_lt_total x y, str_lt_asymm x y, str_lt_asymm y x)
place_text-place x y (z ∷ s) = ground (
  arith,
  place_text-place x y s,
  str_lt_total x y,
  str_lt_total x z,
  str_lt_total y z,
  str_lt_trans x y z,
  str_lt_trans y x z,
  str_lt_asymm x y,
  str_lt_trans x z y,
  str_lt_trans y z x,
  str_lt_irrefl x,
  str_lt_irrefl y,
)

abbrev hex_digits : List String
hex_digits =
    "0" ∷ "1" ∷ "2" ∷ "3" ∷ "4" ∷ "5" ∷ "6" ∷ "7" ∷ "8" ∷ "9" ∷ "a" ∷ "b" ∷ "c" ∷ "d" ∷ "e" ∷ "f"
    ∷ []

abbrev hex_digit : ℕ → String
hex_digit n = get_or "" (get_elem? hex_digits n)

-- `b.toString(16).padStart(2, '0')` of bytes, joined.
unfoldable pub hex_of : List ℕ → String
hex_of [] = ""
hex_of (b ∷ bs) = hex_digit (b / 16) ++ (hex_digit (b - 16 * (b / 16)) ++ hex_of bs)

unfoldable pub sha256_hex : Browser → List ℕ → String
sha256_hex browser bytes = hex_of (browser.sha256 bytes)

unfoldable pub circle_line : Browser → VaultCircle → String
circle_line browser c = c.id ++ (":" ++ sha256_hex browser c.key)

-- `xs.join('\n')`
unfoldable pub join_lines : List String → String
join_lines [] = ""
join_lines (x ∷ []) = x
join_lines (x ∷ y ∷ ys) = x ++ ("\n" ++ join_lines (y ∷ ys))

unfoldable pub fingerprint_payload : Browser → VaultPayload → String
fingerprint_payload browser p =
    let pubkey = browser.public_key p.identity_sk in
    let lines = sort_texts (map (circle_line browser) p.circles) in
    sha256_hex browser (browser.encode_text (pubkey ++ ("\n" ++ join_lines lines)))

unfoldable pub vault_fingerprint : Browser → IdentityDb → String
vault_fingerprint browser db = elim (load_vault browser db) [
  | none ↦ ""
  | some v ↦ fingerprint_payload browser v
]

sort_texts-rearranged :
    (f : VaultCircle → String) {cs ds : List VaultCircle}
    → Permᴰ cs ds
    → sort_texts (map f cs) ≡ sort_texts (map f ds)
unfolding sort
sort_texts-rearranged f Permᴰ.nil = refl
sort_texts-rearranged f (Permᴰ.cons e d) =
    ap₂ (place (λ t. t) (λ t. 0)) (ap f e) (sort_texts-rearranged f d)
sort_texts-rearranged f (Permᴰ.swap {a} {b} {l = l} e e') =
    place_text-place (f a) (f b) (sort_texts (map f l))
    ∙ ap₂ (λ x y. place (λ t. t) (λ t. 0) x (place (λ t. t) (λ t. 0) y (sort_texts (map f l))))
        (ap f e') (ap f e)
sort_texts-rearranged f (Permᴰ.trans d d') = sort_texts-rearranged f d ∙ sort_texts-rearranged f d'

-- Payloads that hold the same secret key, and the same circles in whatever order, have the same fingerprint.
fingerprint-rearranged :
    (browser : Browser) (p : VaultPayload) (cs : List VaultCircle)
    → Permᴰ p.circles cs
    → fingerprint_payload browser p ≡ fingerprint_payload browser (record p { circles = cs })
unfolding fingerprint_payload
fingerprint-rearranged browser p cs h =
    ap
      (λ lines.
        sha256_hex browser
          (browser.encode_text (browser.public_key p.identity_sk ++ ("\n" ++ join_lines lines))))
      (sort_texts-rearranged (circle_line browser) h)
