-- ===== src/LocationPublisher/Stopped.antt =====
-- One call at a time, and what a stopped publisher still sends.
use sentinelmesh.Common.{
  ℕ, zero, suc, ◌+◌, ◌*◌, ◌≤◌, String, Bool, true, false, ◌&&◌, ◌||◌, not, List, [], ◌∷◌, ◌++◌,
  Option, none, some, ◌⊎◌, inl, inr, ◌≡◌, refl, ap, arith, get_elem?, set, length, length-append,
  Option-cases,
}
use sentinelmesh.Validation.{NostrEvent}
use sentinelmesh.Vault.{CryptoKey}
use sentinelmesh.Vault.Fingerprint.{sha256_hex}
use sentinelmesh.CircleKeys.{KeyStore, load_circle_key}
use sentinelmesh.CircleLocation.Encryption.{Location, encrypt_circle_location}
use sentinelmesh.LocationPublisher.{
  PublisherOptions, PublishServices, PublishCall, loading, locating, encrypting, signing, posting,
  published, failed, PublisherWorld, PublishAnswer, Progress, after_load, after_position,
  after_encryption, after_signing, after_response, auth_template, relative_url, progress,
  is_running, resume_publish, publish, PublisherStep, publishes, stops, goes_on, publisher_step,
  create_location_publisher, run_publisher,
}

abbrev pub flag : Bool → ℕ
flag true = 1
flag false = 0

abbrev pub running : PublishCall → ℕ
running c = flag (is_running c)

-- Whether a call may still send its request.
abbrev pub unsent : PublishCall → ℕ
unsent posting = 0
unsent published = 0
unsent (failed message) = 0
unsent _ = 1

abbrev pub total : (PublishCall → ℕ) → List PublishCall → ℕ
total f [] = 0
total f (c ∷ cs) = f c + total f cs

total-append :
    (f : PublishCall → ℕ) (cs : List PublishCall) (c : PublishCall)
    → total f (cs ++ (c ∷ [])) ≡ total f cs + f c
total-append f [] c = omega arith
total-append f (x ∷ cs) c = omega (arith, total-append f cs c)

total-set :
    (f : PublishCall → ℕ) (cs : List PublishCall) (i : ℕ) (c d : PublishCall)
    → get_elem? cs i ≡ some c
    → total f (set cs i d) + f c ≡ total f cs + f d
total-set f [] i c d e = absurd (ground (arith, e))
total-set f (x ∷ cs) zero c d e =
    omega (arith, ap {B = ℕ} (λ o. elim o [ none ↦ 0 | some y ↦ f y ]) e)
total-set f (x ∷ cs) (suc i) c d e = omega (arith, total-set f cs i c d e)

total-le : (cs : List PublishCall) → total unsent cs ≤ total running cs
total-le [] = omega arith
total-le (loading ∷ cs) = omega (arith, total-le cs)
total-le (locating key ∷ cs) = omega (arith, total-le cs)
total-le (encrypting key position now ∷ cs) = omega (arith, total-le cs)
total-le (signing body ∷ cs) = omega (arith, total-le cs)
total-le (posting ∷ cs) = omega (arith, total-le cs)
total-le (published ∷ cs) = omega (arith, total-le cs)
total-le (failed message ∷ cs) = omega (arith, total-le cs)

-- A call that goes on sends at most the request that it may send, and does not begin again.
abbrev IsSparing : PublishCall → Progress → Type 0
IsSparing c p = (length p.sends + unsent p.next ≤ unsent c) × (running p.next ≤ running c)

IsSparing-load : (o : String ⊎ Option CryptoKey) → IsSparing loading (after_load o)
IsSparing-load (inl message) = (omega arith, omega arith)
IsSparing-load (inr none) = (omega arith, omega arith)
IsSparing-load (inr (some key)) = (omega arith, omega arith)

IsSparing-response : (r : String ⊎ ℕ) → IsSparing posting (after_response r)
IsSparing-response (inl message) = (omega arith, omega arith)
IsSparing-response (inr status) = (ground arith, ground arith)

flag_after :
    (a b c : Bool) (m n : ℕ)
    → m + flag c ≡ n + flag b
    → n ≡ flag a
    → flag b ≤ flag c
    → m ≡ flag (a && (b || not c))
flag_after true true true m n e h l = omega arith
flag_after true true false m n e h l = omega arith
flag_after true false true m n e h l = omega arith
flag_after true false false m n e h l = omega arith
flag_after false true true m n e h l = omega arith
flag_after false true false m n e h l = omega arith
flag_after false false true m n e h l = omega arith
flag_after false false false m n e h l = omega arith

module _ (services : PublishServices) (options : PublisherOptions) where
  IsSparing-position :
      (key : CryptoKey) (now : ℕ) (o : Option Location)
      → IsSparing (locating key) (after_position key now o)
  IsSparing-position key now none = (omega arith, omega arith)
  IsSparing-position key now (some position) = (omega arith, omega arith)

  IsSparing-encryption :
      (key : CryptoKey) (position : Location) (now expires_at : ℕ) (r : String ⊎ String)
      → IsSparing (encrypting key position now) (after_encryption services options expires_at r)
  IsSparing-encryption key position now expires_at (inl message) = (omega arith, omega arith)
  IsSparing-encryption key position now expires_at (inr ciphertext) = (omega arith, omega arith)

  IsSparing-signing :
      (body : String) (r : String ⊎ NostrEvent)
      → IsSparing (signing body) (after_signing options body r)
  IsSparing-signing body (inl message) = (omega arith, omega arith)
  IsSparing-signing body (inr auth) = (omega arith, omega arith)

  progress-IsSparing :
      (answer : PublishAnswer) (keys : KeyStore) (c : PublishCall)
      → IsSparing c (progress services options answer keys c)
  unfolding progress
  progress-IsSparing answer keys loading =
      IsSparing-load
        (load_circle_key services.keys answer.random options.circle_id options.key_epoch keys).0
  progress-IsSparing answer keys (locating key) = IsSparing-position key answer.now answer.position
  progress-IsSparing answer keys (encrypting key position now) =
      IsSparing-encryption key position now (now + 5 * 60) (
        encrypt_circle_location services.sending answer.envelope_random answer.now key
          options.circle_id options.key_epoch (record position { captured_at = some now })
          options.precision (now + 5 * 60))
  progress-IsSparing answer keys (signing body) = IsSparing-signing body (
      services.sending.sign (
        auth_template answer.envelope_random.uuid answer.now
          (services.absolute_url (relative_url options)) "POST"
          (sha256_hex services.keys.browser (services.keys.browser.encode_text body))))
  progress-IsSparing answer keys posting = IsSparing-response answer.response
  progress-IsSparing answer keys published = (omega arith, omega arith)
  progress-IsSparing answer keys (failed message) = (omega arith, omega arith)

  -- The flag tells whether a call runs, and at most one does.
  abbrev pub IsSingle : PublisherWorld → Type 0
  IsSingle w = total running w.calls ≡ flag w.in_flight

  IsSingle-resume :
      (i : ℕ) (answer : PublishAnswer) (c : PublishCall) (w : PublisherWorld)
      → get_elem? w.calls i ≡ some c
      → IsSingle w
      → IsSingle (resume_publish services options i answer c w)
  unfolding resume_publish
  IsSingle-resume i answer c w e h =
      let p = progress services options answer w.keys c in
      flag_after w.in_flight (is_running p.next) (is_running c)
        (total running (set w.calls i p.next)) (total running w.calls)
        (total-set running w.calls i c p.next e) h (progress-IsSparing answer w.keys c).1

  -- What has been sent, and what calls may still send.
  abbrev pub reach : PublisherWorld → ℕ
  reach w = length w.requests + total unsent w.calls

  reach-resume :
      (i : ℕ) (answer : PublishAnswer) (c : PublishCall) (w : PublisherWorld)
      → get_elem? w.calls i ≡ some c
      → reach (resume_publish services options i answer c w) ≤ reach w
  unfolding resume_publish
  reach-resume i answer c w e =
      let p = progress services options answer w.keys c in
      omega (
        arith,
        length-append w.requests p.sends,
        total-set unsent w.calls i c p.next e,
        (progress-IsSparing answer w.keys c).0,
      )

  IsSingle-publish : (w : PublisherWorld) → IsSingle w → IsSingle (publish options w)
  unfolding publish
  IsSingle-publish w h = ground (
    arith,
    h,
    total-append running w.calls loading,
    refused "Location publisher is stopped",
    refused "Safe circle location is disabled",
    refused "Location publish already in progress",
    refused "Circle epoch is unavailable",
  )
    where
      refused :
          (message : String)
          → total running (w.calls ++ (failed message ∷ [])) ≡ total running w.calls
      refused message = omega (arith, total-append running w.calls (failed message))

  IsSingle-step :
      (w : PublisherWorld) (step : PublisherStep)
      → IsSingle w
      → IsSingle (publisher_step services options w step)
  unfolding publisher_step
  IsSingle-step w publishes h = IsSingle-publish w h
  IsSingle-step w stops h = h
  IsSingle-step w (goes_on i answer) h = elim (Option-cases (get_elem? w.calls i)) [
    | inl n ↦ rw (n, publisher_step) h
    | inr (c, y) ↦ rw (y, publisher_step) (IsSingle-resume i answer c w y h)
  ]

  IsSingle-run :
      (steps : List PublisherStep) (w : PublisherWorld)
      → IsSingle w
      → IsSingle (run_publisher services options w steps)
  IsSingle-run [] w h = h
  IsSingle-run (step ∷ steps) w h =
      IsSingle-run steps (publisher_step services options w step) (IsSingle-step w step h)

  -- A stopped publisher stays so, and nothing that it does widens its reach.
  abbrev IsNarrower : PublisherWorld → PublisherWorld → Type 0
  IsNarrower w v = (v.stopped ≡ true) × (reach v ≤ reach w)

  reach-step :
      (w : PublisherWorld) (step : PublisherStep)
      → w.stopped ≡ true
      → IsNarrower w (publisher_step services options w step)
  unfolding publisher_step publish resume_publish
  reach-step w publishes s =
      rw s
        (refl, omega (arith, total-append unsent w.calls (failed "Location publisher is stopped")))
  reach-step w stops s = (refl, omega arith)
  reach-step w (goes_on i answer) s = elim (Option-cases (get_elem? w.calls i)) [
    | inl n ↦ rw (n, publisher_step) (s, omega arith)
    | inr (c, y) ↦ rw (y, publisher_step) (ground (arith, s), reach-resume i answer c w y)
  ]

  reach-run :
      (steps : List PublisherStep) (w : PublisherWorld)
      → w.stopped ≡ true
      → IsNarrower w (run_publisher services options w steps)
  reach-run [] w s = (s, omega arith)
  reach-run (step ∷ steps) w s =
      let here = reach-step w step s in
      let rest = reach-run steps (publisher_step services options w step) here.0 in
      (rest.0, omega (arith, here.1, rest.1))

  -- A publisher that has stopped sends nothing more where no call of `publish` is in flight, and at most one request where one is, whatever calls and answers follow.
  pub requests-run_stopped :
      (keys : KeyStore) (before after : List PublisherStep)
      → (run_publisher services options (create_location_publisher keys) before).stopped ≡ true
      → length
          (run_publisher services options
            (run_publisher services options (create_location_publisher keys) before)
            after).requests
        ≤ length (run_publisher services options (create_location_publisher keys) before).requests
          + flag (run_publisher services options (create_location_publisher keys) before).in_flight
  requests-run_stopped keys before after s =
      let w = run_publisher services options (create_location_publisher keys) before in
      omega (
        arith,
        (reach-run after w s).1,
        total-le w.calls,
        IsSingle-run before (create_location_publisher keys) refl,
      )
