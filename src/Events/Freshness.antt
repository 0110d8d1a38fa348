-- ===== src/Events/Freshness.antt =====
-- What survives the reducers of eventsSlice.ts: timestamps never go back, and a fetch never
-- overwrites what a live message brought.
use sentinelmesh.Common.{
  String, Bool, true, false, not, List, [], ◌∷◌, ◌++◌, Option, none, some, ◌≡◌, ◌≢◌, refl, arith,
  ap, ◌==◌, eq_iff, ◌∙◌, sym, Bool-cases, inl, inr, str_lt_trans, str_lt_irrefl, str_lt_total,
  find_by, put,
}
use sentinelmesh.Types.{SafetyEvent}
use sentinelmesh.Events.{
  EventsState, EventsAction, event_received, events_hydrated, events_hydration_failed,
  viewport_events_set, viewport_events_batch_apply, event_resolved, set_connected, reducer,
  merge_fields, is_stale, is_older, over,
}
use sentinelmesh.Events.Merge.{Extends, merge_fields_assoc, merge_fields_idem}
use sentinelmesh.Events.Refinement.{
  EventMap, view, stored, receive, fill, hydrate, receive_all, hydrate_each, switch_off, deactivate,
  step, reducer-step,
}

-- A timestamp that counts in the staleness test: present and not empty.
abbrev pub is_dated : Option String → Bool
is_dated none = false
is_dated (some t) = not (t == "")

-- `b` may replace `a`: it is not older, and it is dated where `a` is.
abbrev pub Follows : Option String → Option String → Type 0
Follows a b = (is_older a b ≡ false) × (is_dated a ≡ true → is_dated b ≡ true)

Follows-refl : (a : Option String) → Follows a a
unfolding is_older
Follows-refl none = (refl, λ h. h)
Follows-refl (some t) = ground (arith, str_lt_irrefl t)

Follows-trans : (a b c : Option String) → Follows a b → Follows b c → Follows a c
unfolding is_older
Follows-trans none b c h k = ground arith
Follows-trans (some a) none c h k = ground arith
Follows-trans (some a) (some b) none h k = ground arith
Follows-trans (some a) (some b) (some c) h k =
    ground (arith, str_lt_trans c a b, str_lt_total a b, str_lt_total b a)

-- An update whose timestamp, if it is given, is not the empty text.
abbrev pub IsDated : SafetyEvent → Type 0
IsDated e = e.updated_at ≢ some ""

Follows-over : (a b : Option String) → is_older a b ≡ false → b ≢ some "" → Follows a (over a b)
unfolding is_older
Follows-over a none h k = Follows-refl a
Follows-over a (some t) h k = ground (arith, eq_iff t "")

-- The actions whose events are all dated so; a fetch may bring any.
abbrev pub AllDated : List SafetyEvent → Type 0
AllDated [] = Unit
AllDated (e ∷ es) = IsDated e × AllDated es

abbrev pub HasDates : EventsAction → Type 0
HasDates (event_received event) = IsDated event
HasDates (events_hydrated events) = Unit
HasDates (events_hydration_failed message) = Unit
HasDates (viewport_events_set events) = AllDated events
HasDates (viewport_events_batch_apply added removed updated) = AllDated (added ++ updated)
HasDates (event_resolved id) = Unit
HasDates (set_connected connected) = Unit

-- The event under `j` is there, and its timestamp follows `t`.
abbrev pub Keeps : EventMap → String → Option String → Type 0
Keeps m j t = (c : SafetyEvent) × (m j ≡ some c) × Follows t c.updated_at

stored-Follows :
    (c e : SafetyEvent) → IsDated e → Follows c.updated_at (stored (some c) e).updated_at
unfolding stored merge_fields
stored-Follows c e d = elim (Bool-cases (is_stale c e)) [
  | inl old ↦ rw (old, stored) (Follows-refl c.updated_at)
  | inr new ↦ rw (new, stored) (Follows-over c.updated_at e.updated_at new d)
]

Follows-filled : (a b : Option String) → Follows a (over a (over b a))
unfolding is_older
Follows-filled none b = ground arith
Follows-filled (some t) b = Follows-refl (some t)

filled-Follows :
    (c e : SafetyEvent) → Follows c.updated_at (stored (some c) (fill (some c) e)).updated_at
unfolding stored fill merge_fields
filled-Follows c e = elim (Bool-cases (is_stale c (merge_fields e c))) [
  | inl old ↦ rw (old, stored, fill) (Follows-refl c.updated_at)
  | inr new ↦ rw (new, stored, fill) (Follows-filled c.updated_at e.updated_at)
]

-- What is stored under `j` after an event is stored at the key `k`.
put-Keeps :
    (m : EventMap) (c d : SafetyEvent) (k j : String) (t : Option String)
    → m j ≡ some c
    → Follows t c.updated_at
    → (k ≡ j → Follows c.updated_at d.updated_at)
    → Keeps (put k d m) j t
put-Keeps m c d k j t h f g = elim (Bool-cases (k == j)) [
  | inl y ↦ (d, rw y, Follows-trans t c.updated_at d.updated_at f (g ((eq_iff k j).0 y)))
  | inr n ↦ (c, rw n h, f)
]

receive-Keeps :
    (m : EventMap) (e : SafetyEvent) (j : String) (t : Option String)
    → IsDated e
    → Keeps m j t
    → Keeps (receive m e) j t
receive-Keeps m e j t d (c, h, f) =
    put-Keeps m c (stored (m e.id) e) e.id j t h f (λ p. rw (ap m p ∙ h) (stored-Follows c e d))

hydrate-Keeps :
    (m : EventMap) (e : SafetyEvent) (j : String) (t : Option String)
    → Keeps m j t
    → Keeps (hydrate m e) j t
hydrate-Keeps m e j t (c, h, f) =
    put-Keeps m c (stored (m e.id) (fill (m e.id) e)) e.id j t h f
      (λ p. rw (ap m p ∙ h) (filled-Follows c e))

receive_all-Keeps :
    (es : List SafetyEvent) (m : EventMap) (j : String) (t : Option String)
    → AllDated es
    → Keeps m j t
    → Keeps (receive_all m es) j t
receive_all-Keeps [] m j t d k = k
receive_all-Keeps (e ∷ es) m j t d k =
    receive_all-Keeps es (receive m e) j t d.1 (receive-Keeps m e j t d.0 k)

hydrate_each-Keeps :
    (es : List SafetyEvent) (m : EventMap) (j : String) (t : Option String)
    → Keeps m j t
    → Keeps (hydrate_each m es) j t
hydrate_each-Keeps [] m j t k = k
hydrate_each-Keeps (e ∷ es) m j t k =
    hydrate_each-Keeps es (hydrate m e) j t (hydrate-Keeps m e j t k)

switch_off-Keeps :
    (m : EventMap) (id j : String) (t : Option String) → Keeps m j t → Keeps (deactivate m id) j t
unfolding switch_off
switch_off-Keeps m id j t (c, h, f) = elim (Bool-cases (id == j)) [
  | inl y ↦ (record c { is_active = false }, rw (y, h, switch_off), f)
  | inr n ↦ (c, rw n h, f)
]

step-Keeps :
    (m : EventMap) (a : EventsAction) (j : String) (t : Option String)
    → HasDates a
    → Keeps m j t
    → Keeps (step m a) j t
step-Keeps m (event_received event) j t d k = receive-Keeps m event j t d k
step-Keeps m (events_hydrated events) j t d k = hydrate_each-Keeps events m j t k
step-Keeps m (events_hydration_failed message) j t d k = k
step-Keeps m (viewport_events_set events) j t d k = receive_all-Keeps events m j t d k
step-Keeps m (viewport_events_batch_apply added removed updated) j t d k =
    receive_all-Keeps (added ++ updated) m j t d k
step-Keeps m (event_resolved id) j t d k = switch_off-Keeps m id j t k
step-Keeps m (set_connected connected) j t d k = k

-- No reducer drops a stored event, and the timestamp of the event under an id is never replaced by
-- an older one or lost, if no received event has the empty text for its timestamp.
pub reducer-Keeps :
    (s : EventsState) (a : EventsAction) (j : String) (c : SafetyEvent)
    → HasDates a
    → find_by (λ e. e.id) j s.items ≡ some c
    → (c' : SafetyEvent) × (find_by (λ e. e.id) j (reducer s a).items ≡ some c')
      × Follows c.updated_at c'.updated_at
reducer-Keeps s a j c d h =
    let (c', k, f) = step-Keeps (view s) a j c.updated_at d (c, h, Follows-refl c.updated_at) in
    (c', ap (λ (m : EventMap). m j) (reducer-step s a) ∙ k, f)

-- Live data and a fetch.
Extends-trans : (a b c : SafetyEvent) → Extends a b → Extends b c → Extends a c
Extends-trans a b c h k =
    ap (λ x. merge_fields x a) (sym k) ∙ merge_fields_assoc c b a ∙ ap (merge_fields c) h ∙ k

filled-Extends : (c e : SafetyEvent) → Extends c (stored (some c) (fill (some c) e))
unfolding stored fill
filled-Extends c e = elim (Bool-cases (is_stale c (merge_fields e c))) [
  | inl old ↦ rw (old, stored, fill) (merge_fields_idem c)
  | inr new ↦
      rw (new, stored, fill)
        (merge_fields_assoc c (merge_fields e c) c
          ∙ ap (merge_fields c)
              (merge_fields_assoc e c c ∙ ap (merge_fields e) (merge_fields_idem c)))
]

hydrate_each-Extends :
    (es : List SafetyEvent) (m : EventMap) (j : String) (c d : SafetyEvent)
    → m j ≡ some d
    → Extends c d
    → (c' : SafetyEvent) × (hydrate_each m es j ≡ some c') × Extends c c'
hydrate_each-Extends [] m j c d h x = (d, h, x)
hydrate_each-Extends (e ∷ es) m j c d h x = elim (Bool-cases (e.id == j)) [
  | inl y ↦
      let p : m e.id ≡ some d = ap m ((eq_iff e.id j).0 y) ∙ h in
      let d' = stored (some d) (fill (some d) e) in
      hydrate_each-Extends es (hydrate m e) j c d' (rw (y, p))
        (Extends-trans c d d' x (filled-Extends d e))
  | inr n ↦ hydrate_each-Extends es (hydrate m e) j c d (rw n h) x
]

-- A fetch never overwrites live data: after `eventsHydrated` with any events, an event that was
-- stored before is stored still, and every field that it defined has the value that it had.
hydrated-Extends :
    (s : EventsState) (events : List SafetyEvent) (j : String) (c : SafetyEvent)
    → find_by (λ e. e.id) j s.items ≡ some c
    → (c' : SafetyEvent) × (find_by (λ e. e.id) j (reducer s (events_hydrated events)).items
        ≡ some c')
      × Extends c c'
hydrated-Extends s events j c h =
    let (c', k, x) = hydrate_each-Extends events (view s) j c c h (merge_fields_idem c) in
    (c', ap (λ (m : EventMap). m j) (reducer-step s (events_hydrated events)) ∙ k, x)
