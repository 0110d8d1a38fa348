-- ===== src/LocationPublisher/Requests.antt =====
-- What a request of the publisher carries.
use sentinelmesh.Common.{
  ℕ, Bool, true, false, List, [], ◌∷◌, ◌++◌, some, inl, inr, ◌≡◌, refl, leb, ◌&&◌, not,
  if◌then◌else◌, get_elem?, Option-cases,
}
use sentinelmesh.CircleKeys.{KeyStore}
use sentinelmesh.CircleLocation.{max_safe_integer}
use sentinelmesh.LocationPublisher.{
  PublisherOptions, PublishServices, PublishCall, loading, locating, encrypting, signing, posting,
  published, failed, PublisherWorld, PublishAnswer, progress, resume_publish, publish,
  PublisherStep, publishes, stops, goes_on, keys_after, publisher_step, create_location_publisher,
  run_publisher,
}
use sentinelmesh.LocationPublisher.Envelopes.{
  Every, Every-append, Every-set, Every-get_elem?, IsReached, at_start, loaded, IsGiven, IsReady,
  IsAuthorized, progress-IsSound,
}

module _ (services : PublishServices) (options : PublisherOptions) (start : KeyStore)
    (all : List PublisherStep) where
  IsReached-after :
      (answer : PublishAnswer) (keys : KeyStore) (c : PublishCall)
      → IsReached services options start keys
      → IsReached services options start (keys_after services options answer keys c)
  IsReached-after answer keys loading h = loaded answer.random keys h
  IsReached-after answer keys (locating key) h = h
  IsReached-after answer keys (encrypting key position now) h = h
  IsReached-after answer keys (signing body) h = h
  IsReached-after answer keys posting h = h
  IsReached-after answer keys published h = h
  IsReached-after answer keys (failed message) h = h

  abbrev IsFair : PublisherWorld → Type 0
  IsFair w =
      Every (IsReady services options start all) w.calls
      × Every (IsAuthorized services options start all) w.requests
      × IsReached services options start w.keys

  IsFair-resume :
      (i : ℕ) (answer : PublishAnswer) (c : PublishCall) (w : PublisherWorld)
      → IsGiven answer all
      → get_elem? w.calls i ≡ some c
      → IsFair w
      → IsFair (resume_publish services options i answer c w)
  unfolding resume_publish
  IsFair-resume i answer c w g e (h, k, s) =
      let p = progress services options answer w.keys c in
      let sound =
        progress-IsSound services options start all answer w.keys c g s
          (Every-get_elem? (IsReady services options start all) w.calls i c e h) in
      (
        Every-set (IsReady services options start all) w.calls i p.next sound.0 h,
        Every-append (IsAuthorized services options start all) w.requests p.sends k sound.1,
        IsReached-after answer w.keys c s,
      )

  IsFair-if : (b : Bool) (v w : PublisherWorld) → IsFair v → IsFair w → IsFair (if b then v else w)
  IsFair-if true v w h k = h
  IsFair-if false v w h k = k

  IsFair-publish : (w : PublisherWorld) → IsFair w → IsFair (publish options w)
  unfolding publish
  IsFair-publish w (h, k, s) =
      IsFair-if w.stopped _ _ (more (failed "Location publisher is stopped") tt) (
        IsFair-if (not options.enabled) _ _ (more (failed "Safe circle location is disabled") tt) (
          IsFair-if w.in_flight _ _ (more (failed "Location publish already in progress") tt) (
            IsFair-if (not (leb options.key_epoch max_safe_integer && leb 1 options.key_epoch)) _ _
              (more (failed "Circle epoch is unavailable") tt) (more loading tt))))
    where
      more :
          (c : PublishCall)
          → (IsReady services options start all) c
          → Every (IsReady services options start all) (w.calls ++ (c ∷ []))
            × Every (IsAuthorized services options start all) w.requests
            × IsReached services options start w.keys
      more c r =
          (Every-append (IsReady services options start all) w.calls (c ∷ []) h (r, tt), k, s)

  IsFair-step :
      (w : PublisherWorld) (step : PublisherStep)
      → ((a : PublishAnswer) → IsGiven a (step ∷ []) → IsGiven a all)
      → IsFair w
      → IsFair (publisher_step services options w step)
  unfolding publisher_step
  IsFair-step w publishes m h = IsFair-publish w h
  IsFair-step w stops m h = h
  IsFair-step w (goes_on i answer) m h = elim (Option-cases (get_elem? w.calls i)) [
    | inl n ↦ rw (n, publisher_step) h
    | inr (c, y) ↦ rw (y, publisher_step) (IsFair-resume i answer c w (m answer (inl refl)) y h)
  ]

  first_given :
      (a : PublishAnswer) (step : PublisherStep) (steps : List PublisherStep)
      → IsGiven a (step ∷ [])
      → IsGiven a (step ∷ steps)
  first_given a publishes steps h = elim h [ ]
  first_given a stops steps h = elim h [ ]
  first_given a (goes_on i b) steps (inl e) = inl e
  first_given a (goes_on i b) steps (inr h) = elim h [ ]

  later_given :
      (a : PublishAnswer) (step : PublisherStep) (steps : List PublisherStep)
      → IsGiven a steps
      → IsGiven a (step ∷ steps)
  later_given a publishes steps h = h
  later_given a stops steps h = h
  later_given a (goes_on i b) steps h = inr h

  IsFair-run :
      (steps : List PublisherStep) (w : PublisherWorld)
      → ((a : PublishAnswer) → IsGiven a steps → IsGiven a all)
      → IsFair w
      → IsFair (run_publisher services options w steps)
  IsFair-run [] w m h = h
  IsFair-run (step ∷ steps) w m h =
      IsFair-run steps (publisher_step services options w step)
        (λ a g. m a (later_given a step steps g))
        (IsFair-step w step (λ a g. m a (first_given a step steps g)) h)

-- Each request that a publisher sends, whatever calls, stops and answers follow one another, goes to the endpoint that was given or else to that of the circle's location. It carries an envelope of a position and of the time at which it was given, sealed with the key that the device's store gives for the circle and epoch, which expires five minutes after that time; and it is authorized by an event that the signer signed over the request's address and the hash of its body.
pub requests-IsAuthorized :
    (services : PublishServices) (options : PublisherOptions) (keys : KeyStore)
    (steps : List PublisherStep)
    → Every
        (IsAuthorized services options keys steps)
        (run_publisher services options (create_location_publisher keys) steps).requests
requests-IsAuthorized services options keys steps =
    (IsFair-run services options keys steps steps (create_location_publisher keys) (λ a g. g)
      (tt, tt, at_start)).1
