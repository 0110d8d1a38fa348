-- ===== src/Outbox/Tests.antt =====
-- Runs of the outbox, and the theorems at a concrete relay client.
use sentinelmesh.Common.{
  String, Bool, true, false, List, [], ◌∷◌, Option, some, inl, ◌==◌, ◌≡◌, refl, any, map, find_by,
}
use mathlib.Core.Option
use sentinelmesh.Outbox.{
  StoredOutboxItem, try_publish, deliver_pending_outbox, deliver_all, list_pending_outbox,
  put_outbox_item, attempted, backoff_of, enqueue_outbox,
}
use sentinelmesh.Outbox.Delivery.{delivered-not_pending}

abbrev item_at : String → String → Bool → StoredOutboxItem
item_at id relay delivered = record {
  id = id;
  recipient_pubkey = "p";
  relays = relay ∷ [];
  wrap = "w";
  attempts = 0;
  next_retry_at = 0;
  delivered = delivered;
}

abbrev rows : List StoredOutboxItem
rows = item_at "a" "up" false ∷ item_at "b" "down" false ∷ item_at "c" "up" true ∷ []

-- A client for which the relay `up` accepts everything and all others nothing.
abbrev parse : String → Option String
parse wrap = some wrap

abbrev publish : List String → String → Option (List Bool)
publish relays wrap = some (map (λ url. url == "up") relays)

abbrev is_accepted : StoredOutboxItem → Bool
is_accepted item = any (λ ok. ok) (map (λ url. url == "up") item.relays)

one_run : deliver_pending_outbox parse publish rows 5 ≡ record {
  rows =
      item_at "a" "up" true
      ∷ (record (item_at "b" "down" false) { attempts = 1; next_retry_at = 2005 })
      ∷ item_at "c" "up" true
      ∷ [];
  delivered = 1;
  failed = 1;
  thrown = false;
}
unfolding deliver_pending_outbox deliver_all list_pending_outbox try_publish put_outbox_item
    attempted backoff_of
one_run = refl

enqueued : enqueue_outbox [] "p" ("up" ∷ []) "a" "w" ≡ item_at "a" "up" false ∷ []
unfolding enqueue_outbox put_outbox_item
enqueued = refl

delivered-not_pending_example :
    find_by (λ i. i.id) "c" (deliver_pending_outbox parse publish rows 5).rows
    ≡ some (item_at "c" "up" true)
delivered-not_pending_example =
    delivered-not_pending parse publish rows 5 "c" (item_at "c" "up" true)
      (refl, (refl, (refl, tt))) refl (inl refl)
