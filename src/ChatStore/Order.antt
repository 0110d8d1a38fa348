-- ===== src/ChatStore/Order.antt =====
-- The order of messages in the index, and the greatest row of a list.
use sentinelmesh.Common.{
  ◌<◌, String, Bool, true, false, List, [], ◌∷◌, map, none, some, ◌==◌, ◌≡◌, refl, ◌⊎◌, inl, inr,
  arith, eq_iff, filter, length, find_by, Distinct, Option-cases, str_lt_trans, str_lt_irrefl,
  str_lt_total, length-filter-le, find_by_of_not_included,
}
use sentinelmesh.ChatStore.Cursors.{StoredMessage, is_before, greatest}

pub is_before_irrefl : (a : StoredMessage) → is_before a a ≡ false
unfolding is_before
is_before_irrefl a = ground (arith, str_lt_irrefl a.id, eq_iff a.conversation_id a.conversation_id)

is_before_trans :
    (a b c : StoredMessage) → is_before a b ≡ true → is_before b c ≡ true → is_before a c ≡ true
unfolding is_before
is_before_trans a b c h k = ground (
  arith,
  eq_iff a.conversation_id b.conversation_id,
  eq_iff b.conversation_id c.conversation_id,
  eq_iff a.conversation_id c.conversation_id,
  str_lt_trans a.conversation_id b.conversation_id c.conversation_id,
  str_lt_trans a.id b.id c.id,
  str_lt_trans a.conversation_id b.conversation_id a.conversation_id,
  str_lt_irrefl a.conversation_id,
)

is_before_total :
    (a b : StoredMessage) → is_before a b ≡ false → (b.id == a.id) ≡ false → is_before b a ≡ true
unfolding is_before
is_before_total a b h d = ground (
  arith,
  eq_iff a.conversation_id b.conversation_id,
  eq_iff b.conversation_id a.conversation_id,
  eq_iff b.id a.id,
  str_lt_total a.conversation_id b.conversation_id,
  str_lt_total a.id b.id,
)

pub greatest_found :
    (xs : List StoredMessage) (m : StoredMessage)
    → Distinct (map (λ x. x.id) xs)
    → greatest xs ≡ some m
    → find_by (λ x. x.id) m.id xs ≡ some m
unfolding greatest
greatest_found [] m d h = absurd (ground arith)
greatest_found (x ∷ xs) m d h = elim (Option-cases (greatest xs)) [
  | inl e ↦ ground (arith, e, eq_iff x.id m.id)
  | inr (n, e) ↦ ground (
    arith,
    e,
    greatest_found xs n d.1 e,
    eq_iff x.id m.id,
    find_by_of_not_included (λ y. y.id) x.id xs d.0,
  )
]

pub nothing_greatest : (xs : List StoredMessage) → greatest xs ≡ none → xs ≡ []
unfolding greatest
nothing_greatest [] h = refl
nothing_greatest (x ∷ xs) h = elim (Option-cases (greatest xs)) [
  | inl e ↦ ground (arith, e)
  | inr (n, e) ↦ ground (arith, e)
]

-- Every other row is older than the greatest.
pub greatest_max :
    (xs : List StoredMessage) (m : StoredMessage) (k : String) (x : StoredMessage)
    → Distinct (map (λ x. x.id) xs)
    → greatest xs ≡ some m
    → find_by (λ x. x.id) k xs ≡ some x
    → ((m.id == k) ≡ true) ⊎ (is_before x m ≡ true)
unfolding greatest
greatest_max [] m k x d h f = absurd (ground arith)
greatest_max (y ∷ ys) m k x d h f = elim (Option-cases (greatest ys)) [
  | inl e ↦ let n = nothing_greatest ys e in ground (arith, e, n)
  | inr (n, e) ↦ ground (
    arith,
    e,
    greatest_found ys n d.1 e,
    greatest_max ys n k x d.1 e,
    is_before_total y n,
    is_before_trans x n y,
    eq_iff y.id n.id,
    eq_iff n.id y.id,
    eq_iff n.id k,
    eq_iff y.id k,
    find_by_of_not_included (λ z. z.id) y.id ys d.0,
  )
]

pub shorter :
    (p : StoredMessage → Bool) (k : String) (xs : List StoredMessage) (x : StoredMessage)
    → find_by (λ x. x.id) k xs ≡ some x
    → p x ≡ false
    → length (filter p xs) < length xs
shorter p k [] x f h = absurd (ground arith)
shorter p k (y ∷ ys) x f h = ground (arith, shorter p k ys x, length-filter-le p ys)
