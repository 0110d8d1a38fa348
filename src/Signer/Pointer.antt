-- ===== src/Signer/Pointer.antt =====
-- The connection address of a remote signer: parsePointer and connectBunker
-- (apps/pwa/src/services/signerService.ts). `new URL`, which gives a parsed address or an error's
-- message, is a parameter.
use sentinelmesh.Common.{
  ℕ, ◌≤◌, String, Bool, true, ◌&&◌, ◌||◌, not, List, [], ◌∷◌, map, Option, none, some, ◌==◌, eqb,
  ltb, length, utf16_length, starts_with, to_lower, filter, Distinct, ◌⊎◌, inl, inr, ◌≡◌, subst,
  arith, try_then, try_then-inr, require, require-inr,
}
use sentinelmesh.Common.Sets
use Prim.Native.String.{◌++◌}
use sentinelmesh.Validation.{is_lowercase_hex64}
use sentinelmesh.Signer.{StoredBunkerConnection}

-- What the code reads of a `URL`; the parameters are in the order of the address.
pub record Url : Type 0 where
  pub href : String
  pub protocol : String
  pub username : String
  pub password : String
  pub hostname : String
  pub port : String
  pub pathname : String
  pub hash : String
  pub parameters : List (String × String)

pub record BunkerPointer : Type 0 where
  pub pubkey : String
  pub relays : List String
  pub secret : Option String

abbrev is_empty : String → Bool
is_empty s = s == ""

-- `url.searchParams.getAll(name)`
abbrev get_all : String → List (String × String) → List String
get_all name ps = map (λ p. p.1) (filter (λ p. p.0 == name) ps)

abbrev pub first : List String → Option String
first [] = none
first (x ∷ xs) = some x

-- The parts of an address that a pointer may not have.
unfoldable pub has_unsupported : Url → Bool
has_unsupported url =
    not (is_empty url.username)
    || (not (is_empty url.password)
        || (not (is_empty url.port)
            || (not (is_empty url.pathname) && not (url.pathname == "/")
                || not (is_empty url.hash))))

unfoldable pub check_parameters : List (String × String) → ◌⊎◌ {0, 0} String Unit
check_parameters [] = inr tt
check_parameters ((key, value) ∷ ps) =
    require (key == "relay" || key == "secret")
      ("Bunker URI contains unsupported parameter: " ++ key) (check_parameters ps)

module _ (parse_url : String → String ⊎ Url) where
  -- `values.map(value => new URL(value).toString())`
  unfoldable pub hrefs : List String → String ⊎ List String
  hrefs [] = inr []
  hrefs (value ∷ values) =
      let rest = hrefs values in
      try_then (parse_url value) (λ url. try_then rest (λ hs. inr (url.href ∷ hs)))

  abbrev pub is_relay_url : Url → Bool
  is_relay_url url = url.protocol == "wss:" && (is_empty url.username && is_empty url.password)

  unfoldable pub check_relays : List String → ◌⊎◌ {0, 0} String Unit
  check_relays [] = inr tt
  check_relays (relay ∷ relays) = try_then (parse_url relay) (λ url.
      require (is_relay_url url) "Bunker relays must use wss:// without credentials"
        (check_relays relays))

  abbrev short_secret : Option String → Bool
  short_secret none = true
  short_secret (some secret) = not (ltb 512 (utf16_length secret))

  -- The checks of `parsePointer` on the relays and the secret.
  unfoldable pub with_relays : Url → List String → String ⊎ BunkerPointer
  with_relays url relays =
      let secret = first (get_all "secret" url.parameters) in
      require (not (eqb (length relays) 0) && not (ltb 3 (length relays)))
        "Bunker URI must contain one to three relays"
        (try_then (check_relays relays) (λ checked.
          require (short_secret secret) "Bunker secret is too long"
            (inr (record { pubkey = to_lower url.hostname; relays = relays; secret = secret }))))

  unfoldable pub pointer_of : Url → String ⊎ BunkerPointer
  pointer_of url =
      require (not (has_unsupported url)) "Bunker URI contains unsupported components" (
        try_then (check_parameters url.parameters) (λ checked.
          require (not (ltb 1 (length (get_all "secret" url.parameters))))
            "Bunker URI contains multiple secrets"
            (require (is_lowercase_hex64 (to_lower url.hostname)) "Bunker transport key is invalid"
              (try_then (hrefs (get_all "relay" url.parameters))
                (λ hs. with_relays url (Sets.of_list hs))))))

  abbrev has_scheme : String → Bool
  has_scheme input = not (ltb 2048 (utf16_length input)) && starts_with input "bunker://"

  unfoldable pub parse_pointer : String → String ⊎ BunkerPointer
  parse_pointer input =
      require (has_scheme input) "Enter a bunker:// connection URI"
        (try_then (parse_url input) pointer_of)

  -- What `connectBunker` opens, with a new key, for an address without white space around it.
  unfoldable pub bunker_connection : List ℕ → String → String ⊎ StoredBunkerConnection
  bunker_connection client_secret_key input = try_then (parse_pointer input) (λ pointer.
      inr (record {
        client_secret_key = client_secret_key;
        bunker_pubkey = pointer.pubkey;
        relays = pointer.relays;
        secret = pointer.secret;
        expected_pubkey = "";
      }))

  -- An address that parses to one of a relay, reached by wss and without credentials.
  abbrev pub IsRelay : String → Type 0
  IsRelay relay = (url : Url) × (parse_url relay ≡ inr url) × (is_relay_url url ≡ true)

  abbrev pub AllRelays : List String → Type 0
  AllRelays [] = Unit
  AllRelays (relay ∷ relays) = IsRelay relay × AllRelays relays

  check_relays-AllRelays :
      (relays : List String) {u : Unit} → check_relays relays ≡ inr u → AllRelays relays
  unfolding check_relays
  check_relays-AllRelays [] h = tt
  check_relays-AllRelays (relay ∷ relays) h =
      let (url, parsed, a) = try_then-inr (parse_url relay) _ h in
      let (proper, b) = require-inr (is_relay_url url) _ _ a in
      ((url, parsed, proper), check_relays-AllRelays relays b)

  -- What an accepted connection address guarantees.
  pub record IsProper (p : BunkerPointer) : Type 0 where
    pub hex : is_lowercase_hex64 p.pubkey ≡ true
    pub some_relay : 1 ≤ length p.relays
    pub few_relays : length p.relays ≤ 3
    pub distinct : Distinct p.relays
    pub all_relays : AllRelays p.relays
    pub bounded_secret : short_secret p.secret ≡ true

  with_relays-IsProper :
      (url : Url) (relays : List String) (p : BunkerPointer)
      → is_lowercase_hex64 (to_lower url.hostname) ≡ true
      → Distinct relays
      → with_relays url relays ≡ inr p
      → IsProper p
  unfolding with_relays
  with_relays-IsProper url relays p hex distinct h =
      let (count, a) =
        require-inr (not (eqb (length relays) 0) && not (ltb 3 (length relays))) _ _ h in
      let (u, all, b) = try_then-inr (check_relays relays) _ a in
      let (short, c) = require-inr (short_secret (first (get_all "secret" url.parameters))) _ _ b in
      subst (λ r. elim r [ inl message ↦ Unit | inr q ↦ IsProper q ]) c
        (record {
          hex = hex;
          some_relay = ground (arith, count);
          few_relays = ground (arith, count);
          distinct = distinct;
          all_relays = check_relays-AllRelays relays all;
          bounded_secret = short;
        })

  pointer_of-IsProper : (url : Url) (p : BunkerPointer) → pointer_of url ≡ inr p → IsProper p
  unfolding pointer_of
  pointer_of-IsProper url p h =
      let (plain, a) = require-inr (not (has_unsupported url)) _ _ h in
      let (u, known, b) = try_then-inr (check_parameters url.parameters) _ a in
      let (one, c) = require-inr (not (ltb 1 (length (get_all "secret" url.parameters)))) _ _ b in
      let (hex, d) = require-inr (is_lowercase_hex64 (to_lower url.hostname)) _ _ c in
      let (hs, listed, e) = try_then-inr (hrefs (get_all "relay" url.parameters)) _ d in
      with_relays-IsProper url (Sets.of_list hs) p hex (Sets.Distinct-of_list hs) e

  -- An address that is accepted as that of a remote signer has at most 2048 characters, begins with bunker:// and gives a hexadecimal key, one to three different relays, each with an address that parses to a wss one without credentials, and a secret of at most 512 characters or none.
  parse_pointer-IsProper :
      (input : String) (p : BunkerPointer)
      → parse_pointer input ≡ inr p
      → (utf16_length input ≤ 2048) × (starts_with input "bunker://" ≡ true) × IsProper p
  unfolding parse_pointer
  parse_pointer-IsProper input p h =
      let (scheme, a) = require-inr (has_scheme input) _ _ h in
      let (url, parsed, b) = try_then-inr (parse_url input) _ a in
      (ground (arith, scheme), ground (arith, scheme), pointer_of-IsProper url p b)
