-- ===== src/Outbox.antt =====
-- The durable outbox of gift wraps (apps/pwa/src/services/chat/outbox.ts) and its object store
-- (chatStore.ts: putOutboxItem, listPendingOutbox). The store is the list of its rows in the order
-- that `getAll` returns them; `put` replaces the row with the same id or adds one. `parse` stands for
-- `JSON.parse`, `none` where it throws, and `publish` for the relay client: one flag for each relay,
-- `none` where the call rejects. Storage itself does not fail.
pub mod Delivery
mod Tests
use sentinelmesh.Common.{
  ℕ, ◌+◌, ◌*◌, ◌^◌, min, String, Bool, true, false, ◌&&◌, not, List, [], ◌∷◌, ◌++◌, Option, none,
  some, leb, if◌then◌else◌, any, set, filter, index_by,
}

pub record StoredOutboxItem : Type 0 where
  pub id : String
  pub recipient_pubkey : String
  pub relays : List String
  pub wrap : String
  pub attempts : ℕ
  pub next_retry_at : ℕ
  pub delivered : Bool

abbrev pub max_backoff_ms : ℕ
max_backoff_ms = 1800000

-- `putOutboxItem`
unfoldable pub put_outbox_item : List StoredOutboxItem → StoredOutboxItem → List StoredOutboxItem
put_outbox_item rows item = elim (index_by (λ i. i.id) item.id rows) [
  | none ↦ rows ++ (item ∷ [])
  | some n ↦ set rows n item
]

abbrev pub is_pending : ℕ → StoredOutboxItem → Bool
is_pending now i = not i.delivered && leb i.next_retry_at now

unfoldable pub list_pending_outbox : List StoredOutboxItem → ℕ → List StoredOutboxItem
list_pending_outbox rows now = filter (is_pending now) rows

-- The wrap is given with its id and as the text that `JSON.stringify` makes of it.
unfoldable pub enqueue_outbox :
    List StoredOutboxItem → String → List String → String → String → List StoredOutboxItem
enqueue_outbox rows recipient_pubkey relays wrap_id wrap = put_outbox_item rows (record {
  id = wrap_id;
  recipient_pubkey = recipient_pubkey;
  relays = relays;
  wrap = wrap;
  attempts = 0;
  next_retry_at = 0;
  delivered = false;
})

unfoldable pub backoff_of : ℕ → ℕ
backoff_of attempts = min max_backoff_ms (1000 * 2 ^ attempts)

-- The row that an attempt leaves, given whether some relay accepted the wrap.
unfoldable pub attempted : ℕ → StoredOutboxItem → Bool → StoredOutboxItem
attempted now item true = record item { delivered = true }
attempted now item false = record item {
  attempts = item.attempts + 1;
  next_retry_at = now + backoff_of (item.attempts + 1);
}

pub record Tally : Type 0 where
  pub rows : List StoredOutboxItem
  pub delivered : ℕ
  pub failed : ℕ
  -- Whether the loop was left by an exception: the counts are then not returned.
  pub thrown : Bool

abbrev pub count : Tally → Bool → Tally
count t true = record t { delivered = t.delivered + 1 }
count t false = record t { failed = t.failed + 1 }

module _ {W : Type 0} (parse : String → Option W)
    (publish : List String → W → Option (List Bool)) where
  -- Whether some relay accepts the item's wrap; `none` for an exception.
  unfoldable pub try_publish : StoredOutboxItem → Option Bool
  try_publish item = elim (parse item.wrap) [
    | none ↦ none
    | some wrap ↦ elim (publish item.relays wrap) [
      | none ↦ none
      | some results ↦ some (any (λ ok. ok) results)
    ]
  ]

  -- The loop over the pending items.
  unfoldable pub deliver_all : ℕ → List StoredOutboxItem → Tally → Tally
  deliver_all now [] t = t
  deliver_all now (item ∷ items) t = elim (try_publish item) [
    | none ↦ record t { thrown = true }
    | some ok ↦
        deliver_all now items
          (count (record t { rows = put_outbox_item t.rows (attempted now item ok) }) ok)
  ]

  unfoldable pub deliver_pending_outbox : List StoredOutboxItem → ℕ → Tally
  deliver_pending_outbox rows now =
      deliver_all now (list_pending_outbox rows now)
        (record { rows = rows; delivered = 0; failed = 0; thrown = false })
