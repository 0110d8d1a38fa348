-- ===== src/LocationPublisher/Envelopes.antt =====
-- What a request of the publisher should carry, and what a call does on its way to it.
use Prim.Native.String.{◌++◌ as ◌<>◌}
use sentinelmesh.Common.{
  get_or, ℕ, zero, suc, ◌+◌, ◌*◌, String, Bool, true, false, List, [], ◌∷◌, ◌++◌, Option, none,
  some, ◌⊎◌, inl, inr, ◌≡◌, refl, subst, arith, leb, ltb, eqb, ◌||◌, ◌&&◌, if◌then◌else◌, get_elem?,
  set,
}
use sentinelmesh.Validation.{NostrEvent}
use sentinelmesh.Vault.{CryptoKey, Random}
use sentinelmesh.Vault.Fingerprint.{sha256_hex}
use sentinelmesh.CircleKeys.{KeyStore, load_circle_key}
use sentinelmesh.CircleLocation.Encryption.{Location, encrypt_circle_location}
use sentinelmesh.LocationPublisher.{
  PublisherOptions, PublishServices, PublishCall, loading, locating, encrypting, signing, posting,
  published, failed, PublishAnswer, Progress, Request, after_load, after_position, after_encryption,
  after_signing, after_response, auth_template, relative_url, build_location_envelope_body,
  progress, PublisherStep, goes_on,
}

abbrev pub Every {ℓ} : {A : Type ℓ} → (A → Type 0) → List A → Type 0
Every P [] = Unit
Every P (x ∷ xs) = P x × Every P xs

module _ {ℓ} {A : Type ℓ} (P : A → Type 0) where
  pub Every-append : (xs ys : List A) → Every P xs → Every P ys → Every P (xs ++ ys)
  Every-append [] ys h k = k
  Every-append (x ∷ xs) ys (p, h) k = (p, Every-append xs ys h k)

  pub Every-set : (xs : List A) (i : ℕ) (y : A) → P y → Every P xs → Every P (set xs i y)
  Every-set [] i y q h = h
  Every-set (x ∷ xs) zero y q h = (q, h.1)
  Every-set (x ∷ xs) (suc i) y q h = (h.0, Every-set xs i y q h.1)

  pub Every-get_elem? : (xs : List A) (i : ℕ) (y : A) → get_elem? xs i ≡ some y → Every P xs → P y
  Every-get_elem? [] i y e h = absurd (ground (arith, e))
  Every-get_elem? (x ∷ xs) zero y e h = subst (λ o. elim o [ none ↦ Unit | some z ↦ P z ]) e h.0
  Every-get_elem? (x ∷ xs) (suc i) y e h = Every-get_elem? xs i y e h.1

-- The key stores that loads of the circle's key lead to.
pub data IsReached (services : PublishServices) (options : PublisherOptions) (start : KeyStore)
    : KeyStore → Type 0 where
  at_start : IsReached services options start start
  loaded :
      (random : Random) (s : KeyStore)
      → IsReached services options start s
      → IsReached services options start
          (load_circle_key services.keys random options.circle_id options.key_epoch s).1

-- An answer with which some step lets a call go on.
abbrev pub IsGiven : PublishAnswer → List PublisherStep → Type 0
IsGiven a [] = ⊥
IsGiven a (goes_on i b ∷ steps) = (a ≡ b) ⊎ IsGiven a steps
IsGiven a (_ ∷ steps) = IsGiven a steps

module _ (services : PublishServices) (options : PublisherOptions) (start : KeyStore)
    (all : List PublisherStep) where
  -- The key of the circle and epoch, as the device's store gives it.
  abbrev pub IsCircleKey : CryptoKey → Type 0
  IsCircleKey key =
      (random : Random) × (s : KeyStore) × IsReached services options start s
      × ((load_circle_key services.keys random options.circle_id options.key_epoch s).0
          ≡ inr (some key))

  -- The position and the time that one answer gave.
  abbrev pub IsPosition : Location → ℕ → Type 0
  IsPosition position captured_at =
      (a : PublishAnswer) × IsGiven a all × (a.position ≡ some position) × (a.now ≡ captured_at)

  -- The body holds an envelope for the circle and epoch of the publisher: it is sealed with their key,
  -- of a position and time that were given, has the publisher's precision, and expires five minutes
  -- later.
  pub record IsEnvelope (body : String) : Type 0 where
    pub sealing : PublishAnswer
    pub given : IsGiven sealing all
    pub key : CryptoKey
    pub circle_key : IsCircleKey key
    pub position : Location
    pub captured_at : ℕ
    pub captured : IsPosition position captured_at
    pub ciphertext : String
    pub encrypts :
        encrypt_circle_location services.sending sealing.envelope_random sealing.now key
          options.circle_id options.key_epoch
          (record position { captured_at = some captured_at })
          options.precision
          (captured_at + 300)
        ≡ inr ciphertext
    pub written :
        body
        ≡ services.stringify_body (record {
          version = 1;
          key_epoch = options.key_epoch;
          ciphertext = ciphertext;
          expires_at = services.iso_time ((captured_at + 300) * 1000);
        })

  abbrev pub IsReady : PublishCall → Type 0
  IsReady (locating key) = IsCircleKey key
  IsReady (encrypting key position now) = IsCircleKey key × IsPosition position now
  IsReady (signing body) = IsEnvelope body
  IsReady _ = Unit

  abbrev hash_of : String → String
  hash_of body = sha256_hex services.keys.browser (services.keys.browser.encode_text body)

  -- The request goes to the circle's address with an envelope, and was authorized by an event that
  -- the signer signed over this address and over the hash of this body.
  pub record IsAuthorized (request : Request) : Type 0 where
    pub addressed :
        request.url
        ≡ get_or ("/api/circles/" <> (options.circle_id <> "/location")) options.endpoint
    pub envelope : IsEnvelope request.body
    pub uuid : String
    pub now : ℕ
    pub signs :
        services.sending.sign (record {
          kind = 27235;
          created_at = now;
          tags =
              ("u" ∷ services.absolute_url request.url ∷ [])
              ∷ ("method" ∷ "POST" ∷ [])
              ∷ ("nonce" ∷ uuid ∷ [])
              ∷ ("payload" ∷ hash_of request.body ∷ [])
              ∷ [];
          content = "";
        })
        ≡ inr request.auth

  abbrev pub IsSound : Progress → Type 0
  IsSound p = IsReady p.next × Every IsAuthorized p.sends

  IsSound-load :
      (random : Random) (s : KeyStore) (o : String ⊎ Option CryptoKey)
      → IsReached services options start s
      → (load_circle_key services.keys random options.circle_id options.key_epoch s).0 ≡ o
      → IsSound (after_load o)
  IsSound-load random s (inl message) h e = (tt, tt)
  IsSound-load random s (inr none) h e = (tt, tt)
  IsSound-load random s (inr (some key)) h e = ((random, s, h, e), tt)

  IsSound-position :
      (answer : PublishAnswer) (key : CryptoKey) (o : Option Location)
      → IsGiven answer all
      → IsCircleKey key
      → answer.position ≡ o
      → IsSound (after_position key answer.now o)
  IsSound-position answer key none g k e = (tt, tt)
  IsSound-position answer key (some position) g k e = ((k, (answer, g, e, refl)), tt)

  IsSound-encryption :
      (answer : PublishAnswer) (key : CryptoKey) (position : Location) (captured_at : ℕ)
      (r : String ⊎ String)
      → IsGiven answer all
      → IsCircleKey key
      → IsPosition position captured_at
      → encrypt_circle_location services.sending answer.envelope_random answer.now key
          options.circle_id options.key_epoch
          (record position { captured_at = some captured_at })
          options.precision
          (captured_at + 300)
        ≡ r
      → IsSound (after_encryption services options (captured_at + 300) r)
  unfolding build_location_envelope_body
  IsSound-encryption answer key position captured_at (inl message) g k c e = (tt, tt)
  IsSound-encryption answer key position captured_at (inr ciphertext) g k c e = (
    record {
      sealing = answer;
      given = g;
      key = key;
      circle_key = k;
      position = position;
      captured_at = captured_at;
      captured = c;
      ciphertext = ciphertext;
      encrypts = e;
      written = refl;
    },
    tt,
  )

  IsSound-signing :
      (answer : PublishAnswer) (body : String) (r : String ⊎ NostrEvent)
      → services.sending.sign (
          auth_template answer.envelope_random.uuid answer.now
            (services.absolute_url (relative_url options))
            "POST"
            (hash_of body))
        ≡ r
      → IsEnvelope body
      → IsSound (after_signing options body r)
  IsSound-signing answer body (inl message) e h = (tt, tt)
  IsSound-signing answer body (inr auth) e h = (
    tt,
    (
      record {
        addressed = refl;
        envelope = h;
        uuid = answer.envelope_random.uuid;
        now = answer.now;
        signs = e;
      },
      tt,
    ),
  )

  IsSound-if : (b : Bool) (p q : Progress) → IsSound p → IsSound q → IsSound (if b then p else q)
  IsSound-if true p q h k = h
  IsSound-if false p q h k = k

  IsSound-response : (r : String ⊎ ℕ) → IsSound (after_response r)
  IsSound-response (inl message) = (tt, tt)
  IsSound-response (inr status) =
      IsSound-if (eqb status 409 || (eqb status 422 || eqb status 503)) _ _ (tt, tt)
        (IsSound-if (leb 200 status && ltb status 300) _ _ (tt, tt) (tt, tt))

  pub progress-IsSound :
      (answer : PublishAnswer) (keys : KeyStore) (c : PublishCall)
      → IsGiven answer all
      → IsReached services options start keys
      → IsReady c
      → IsSound (progress services options answer keys c)
  unfolding progress
  progress-IsSound answer keys loading g s h =
      IsSound-load answer.random keys
        (load_circle_key services.keys answer.random options.circle_id options.key_epoch keys).0 s
        refl
  progress-IsSound answer keys (locating key) g s h =
      IsSound-position answer key answer.position g h refl
  progress-IsSound answer keys (encrypting key position now) g s h =
      IsSound-encryption answer key position now
        (encrypt_circle_location services.sending answer.envelope_random answer.now key
          options.circle_id options.key_epoch (record position { captured_at = some now })
          options.precision (now + 300))
        g h.0 h.1 refl
  progress-IsSound answer keys (signing body) g s h =
      IsSound-signing answer body
        (services.sending.sign (
          auth_template answer.envelope_random.uuid answer.now
            (services.absolute_url (relative_url options)) "POST" (hash_of body)))
        refl h
  progress-IsSound answer keys posting g s h = IsSound-response answer.response
  progress-IsSound answer keys published g s h = (tt, tt)
  progress-IsSound answer keys (failed message) g s h = (tt, tt)
