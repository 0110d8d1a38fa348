-- ===== src/Outbox/Delivery.antt =====
-- What a delivery run does to the outbox.
use sentinelmesh.Common.{
  ℕ, ◌+◌, ◌*◌, min, leb, not, ◌&&◌, ◌⊎◌, String, Bool, true, false, List, [], ◌∷◌, Option, none,
  some, ◌==◌, ◌≡◌, refl, if◌then◌else◌, map, find_by, Distinct, arith, inl, inr, ◌∙◌, eq_iff,
  locate, find_by-set, find_by-append, or_else-none, Option-cases, find_by-filter, zero, suc, ◌^◌,
  ◌≤◌, ◌<◌,
}
use Prim.Native.Nat.pow
use mathlib.Core.Option
use sentinelmesh.Outbox.{
  StoredOutboxItem, Tally, count, put_outbox_item, is_pending, list_pending_outbox, attempted,
  backoff_of, try_publish, deliver_all, deliver_pending_outbox,
}

find_by-put_outbox_item :
    (k : String) (rows : List StoredOutboxItem) (item : StoredOutboxItem)
    → find_by (λ i. i.id) k (put_outbox_item rows item)
      ≡ (if item.id == k then some item else find_by (λ i. i.id) k rows)
unfolding put_outbox_item
find_by-put_outbox_item k rows item = elim (locate (λ i. i.id) item.id rows) [
  | inl (i, f) ↦
      rw (i, put_outbox_item, find_by-append (λ i. i.id) k rows (item ∷ []))
        (ground (arith, eq_iff item.id k, or_else-none (find_by (λ i. i.id) k rows)))
  | inr (n, x, i, g, f, j) ↦
      rw (i, put_outbox_item) (find_by-set (λ i. i.id) item.id k rows n item i refl)
]

id-attempted :
    (now : ℕ) (item : StoredOutboxItem) (ok : Bool) → (attempted now item ok).id ≡ item.id
unfolding attempted
id-attempted now item true = refl
id-attempted now item false = refl

power_pos : (n : ℕ) → 1 ≤ 2 ^ n
power_pos zero = ground (arith, pow.zero 2)
power_pos (suc n) = ground (arith, pow.suc 2 n, power_pos n)

abbrev start : List StoredOutboxItem → Tally
start rows = record { rows = rows; delivered = 0; failed = 0; thrown = false }

-- Not delivered, and due.
abbrev pub is_due : ℕ → StoredOutboxItem → Bool
is_due now item = not item.delivered && leb item.next_retry_at now

-- The row that one run leaves in place of a row, for wraps that some relay accepts or none as `ok`
-- says: a row that is due is delivered, or due again after a second, doubled with each attempt up to
-- thirty minutes.
abbrev pub visited : ℕ → (StoredOutboxItem → Bool) → StoredOutboxItem → StoredOutboxItem
visited now ok item =
    if is_due now item
    then if ok item then record item { delivered = true } else record item {
      attempts = item.attempts + 1;
      next_retry_at = now + min 1800000 (1000 * 2 ^ (item.attempts + 1));
    }
    else item

rows-count :
    (t : Tally) (ok : Bool) (k : String)
    → find_by (λ i. i.id) k (count t ok).rows ≡ find_by (λ i. i.id) k t.rows
rows-count t true k = refl
rows-count t false k = refl

module _ {W : Type 0} (parse : String → Option W)
    (publish : List String → W → Option (List Bool)) where
  idle_row :
      (now : ℕ) (item : StoredOutboxItem)
      → (item.delivered ≡ true) ⊎ (now < item.next_retry_at)
      → is_pending now item ≡ false
  idle_row now item (inl done) = ground (arith, done)
  idle_row now item (inr early) = ground (arith, early)

  -- Rows of items that the loop does not visit are left, also by a loop that throws.
  deliver_all-others :
      (now : ℕ) (k : String) (items : List StoredOutboxItem) (t : Tally)
      → find_by (λ i. i.id) k items ≡ none
      → find_by (λ i. i.id) k (deliver_all parse publish now items t).rows
        ≡ find_by (λ i. i.id) k t.rows
  unfolding deliver_all
  deliver_all-others now k [] t h = refl
  deliver_all-others now k (item ∷ items) t h =
      elim (Option-cases (try_publish parse publish item)) [
        | inl e ↦ rw (e, deliver_all) refl
        | inr (ok, e) ↦
            rw (e, deliver_all)
              (deliver_all-others now k items _ (ground arith)
                ∙ rows-count _ _ k
                ∙ find_by-put_outbox_item k t.rows (attempted now item ok)
                ∙ ground (arith, id-attempted now item ok))
      ]

  -- For rows with distinct ids, and whatever the relay client does, exceptions included, a run leaves the row of a delivered item, and that of one whose retry time is still to come, as it was: neither is sent again.
  pub delivered-not_pending :
      (rows : List StoredOutboxItem) (now : ℕ) (k : String) (item : StoredOutboxItem)
      → Distinct (map (λ i. i.id) rows)
      → find_by (λ i. i.id) k rows ≡ some item
      → (item.delivered ≡ true) ⊎ (now < item.next_retry_at)
      → find_by (λ i. i.id) k (deliver_pending_outbox parse publish rows now).rows ≡ some item
  unfolding deliver_pending_outbox list_pending_outbox
  delivered-not_pending rows now k item d f idle =
      deliver_all-others now k (list_pending_outbox rows now) (start rows) (
        find_by-filter (λ i. i.id) (is_pending now) k rows d
        ∙ rw f (rw (idle_row now item idle) refl))
      ∙ f

-- A wrap that no relay accepted is due again after one second at the earliest and after thirty minutes at the latest, however often it was tried: it stays out of earlier runs and is never given up.
retry_due :
    (now : ℕ) (item : StoredOutboxItem) (later : ℕ)
    → item.delivered ≡ false
    → ((later < now + 1000) → is_pending later (attempted now item false) ≡ false)
      × ((now + 1800000 ≤ later) → is_pending later (attempted now item false) ≡ true)
unfolding attempted backoff_of
retry_due now item later h =
    (λ early. ground (arith, h, power_pos (item.attempts + 1)), λ late. ground (arith, h))
