-- ===== src/InboxSync/Pending.antt =====
-- Which messages of marked wraps are still on their way, and what a change of the tasks does to them.
use sentinelmesh.Common.{
  ℕ, zero, suc, String, Bool, true, false, List, [], ◌∷◌, ◌++◌, none, some, ◌≡◌, refl, ◌∙◌, subst,
  ◌⊎◌, inl, inr, arith, get_elem?, set, take, drop, find_by,
}
use sentinelmesh.Validation.{NostrEvent}
use sentinelmesh.Inbox.{
  Services, UnwrappedMessage, ProcessedInboxMessage, processed, unwrap_message,
}
use sentinelmesh.ChatStore.{ChatDb, Cipher, has_gift_wrap, encrypt_local_plaintext}
use sentinelmesh.InboxSync.{WrapTask, marking, sealing, saving, InboxWorld, Draw, row_of}

-- A task that has a marked message still to store.
abbrev pub Holds : ProcessedInboxMessage → WrapTask → Type 0
Holds m (sealing n) = m ≡ n
Holds m (saving n ciphertext) = m ≡ n
Holds m _ = ⊥

abbrev pub IsPending : ProcessedInboxMessage → List WrapTask → Type 0
IsPending m [] = ⊥
IsPending m (t ∷ ts) = Holds m t ⊎ IsPending m ts

pub IsPending-append :
    (m : ProcessedInboxMessage) (ts : List WrapTask) (t : WrapTask)
    → IsPending m ts
    → IsPending m (ts ++ (t ∷ []))
IsPending-append m [] t h = elim h [ ]
IsPending-append m (x ∷ ts) t (inl h) = inl h
IsPending-append m (x ∷ ts) t (inr h) = inr (IsPending-append m ts t h)

-- Another task at an index: what the old one did not hold stays pending.
pub IsPending-set :
    (m : ProcessedInboxMessage) (ts : List WrapTask) (i : ℕ) (t u : WrapTask)
    → get_elem? ts i ≡ some t
    → IsPending m ts
    → Holds m t ⊎ IsPending m (set ts i u)
IsPending-set m [] i t u e h = elim h [ ]
IsPending-set m (x ∷ ts) zero t u e (inl h) =
    inl (subst (λ o. elim o [ none ↦ Unit | some y ↦ Holds m y ]) e h)
IsPending-set m (x ∷ ts) zero t u e (inr h) = inr (inr h)
IsPending-set m (x ∷ ts) (suc i) t u e (inl h) = inr (inl h)
IsPending-set m (x ∷ ts) (suc i) t u e (inr h) = elim (IsPending-set m ts i t u e h) [
  | inl k ↦ inl k
  | inr k ↦ inr (inr k)
]

pub IsPending-new :
    (m : ProcessedInboxMessage) (ts : List WrapTask) (i : ℕ) (t u : WrapTask)
    → get_elem? ts i ≡ some t
    → Holds m u
    → IsPending m (set ts i u)
IsPending-new m [] i t u e h = absurd (ground (arith, e))
IsPending-new m (x ∷ ts) zero t u e h = inl h
IsPending-new m (x ∷ ts) (suc i) t u e h = inr (IsPending-new m ts i t u e h)

pub IsPending-finish :
    (m : ProcessedInboxMessage) (ts : List WrapTask) (i : ℕ) (t : WrapTask)
    → get_elem? ts i ≡ some t
    → IsPending m ts
    → Holds m t ⊎ IsPending m (take i ts ++ drop (suc i) ts)
IsPending-finish m [] i t e h = elim h [ ]
IsPending-finish m (x ∷ ts) zero t e (inl h) =
    inl (subst (λ o. elim o [ none ↦ Unit | some y ↦ Holds m y ]) e h)
IsPending-finish m (x ∷ ts) zero t e (inr h) = inr h
IsPending-finish m (x ∷ ts) (suc i) t e (inl h) = inr (inl h)
IsPending-finish m (x ∷ ts) (suc i) t e (inr h) = elim (IsPending-finish m ts i t e h) [
  | inl k ↦ inl k
  | inr k ↦ inr (inr k)
]

module _ (services : Services) (cipher : Cipher) where
  -- The message that some wrap holds.
  abbrev pub IsGenuine : ProcessedInboxMessage → Type 0
  IsGenuine m =
      (wrap : NostrEvent) × (unwrapped : UnwrappedMessage) × (unwrap_message services wrap
        ≡ some unwrapped)
      × (m ≡ processed services wrap unwrapped)

  -- An encryption of the message's content.
  abbrev pub IsSealed : ProcessedInboxMessage → String → Type 0
  IsSealed m ciphertext =
      (draw : Draw) × (db : ChatDb) × (ciphertext
        ≡ (encrypt_local_plaintext cipher draw.generated draw.iv m.content db).0)

  -- Under the message's id there is the row of a message of this id that some wrap holds, with its
  -- content encrypted.
  abbrev pub IsStored : ProcessedInboxMessage → ChatDb → Type 0
  IsStored m db =
      (n : ProcessedInboxMessage) × (ciphertext : String) × (n.rumor_id ≡ m.rumor_id)
      × IsGenuine n
      × IsSealed n ciphertext
      × (find_by (λ r. r.id) m.rumor_id db.messages ≡ some (row_of n ciphertext))

  -- What a task has is the message of a wrap, and an encryption of its content.
  abbrev pub IsHonest : WrapTask → Type 0
  IsHonest (marking m) = IsGenuine m
  IsHonest (sealing m) = IsGenuine m
  IsHonest (saving m ciphertext) = IsGenuine m × IsSealed m ciphertext
  IsHonest _ = Unit

  abbrev pub AllHonest : List WrapTask → Type 0
  AllHonest [] = Unit
  AllHonest (t ∷ ts) = IsHonest t × AllHonest ts

  pub AllHonest-append :
      (ts : List WrapTask) (t : WrapTask) → IsHonest t → AllHonest ts → AllHonest (ts ++ (t ∷ []))
  AllHonest-append [] t g h = (g, tt)
  AllHonest-append (x ∷ ts) t g h = (h.0, AllHonest-append ts t g h.1)

  pub AllHonest-set :
      (ts : List WrapTask) (i : ℕ) (u : WrapTask)
      → IsHonest u
      → AllHonest ts
      → AllHonest (set ts i u)
  AllHonest-set [] i u g h = tt
  AllHonest-set (x ∷ ts) zero u g h = (g, h.1)
  AllHonest-set (x ∷ ts) (suc i) u g h = (h.0, AllHonest-set ts i u g h.1)

  pub AllHonest-finish :
      (ts : List WrapTask) (i : ℕ) → AllHonest ts → AllHonest (take i ts ++ drop (suc i) ts)
  AllHonest-finish [] zero h = tt
  AllHonest-finish [] (suc i) h = tt
  AllHonest-finish (x ∷ ts) zero h = h.1
  AllHonest-finish (x ∷ ts) (suc i) h = (h.0, AllHonest-finish ts i h.1)

  pub AllHonest-get_elem? :
      (ts : List WrapTask) (i : ℕ) (t : WrapTask)
      → get_elem? ts i ≡ some t
      → AllHonest ts
      → IsHonest t
  AllHonest-get_elem? [] i t e h = absurd (ground (arith, e))
  AllHonest-get_elem? (x ∷ ts) zero t e h =
      subst (λ o. elim o [ none ↦ Unit | some y ↦ IsHonest y ]) e h.0
  AllHonest-get_elem? (x ∷ ts) (suc i) t e h = AllHonest-get_elem? ts i t e h.1

  -- A wrap that is marked was marked before, or the message of a wrap of this id is on its way to the
  -- store or in it.
  abbrev pub IsKept : (String → Bool) → ChatDb → List WrapTask → String → Type 0
  IsKept before db tasks k =
      (has_gift_wrap k db ≡ false)
      ⊎ ((before k ≡ true)
          ⊎ ((m : ProcessedInboxMessage) × (m.wrap_id ≡ k)
              × IsGenuine m
              × (IsPending m tasks ⊎ IsStored m db)))

  -- While the effect is mounted, this is so of every wrap.
  abbrev pub AllKept : (String → Bool) → InboxWorld → Type 0
  AllKept before w =
      (w.disposed ≡ true) ⊎ (AllHonest w.tasks × ((k : String) → IsKept before w.db w.tasks k))

  -- What is kept stays so where the marks and the stored messages are no fewer, and where what is
  -- pending stays so or is stored.
  pub IsKept-on :
      (before : String → Bool) (db db' : ChatDb) (ts ts' : List WrapTask) (k : String)
      → has_gift_wrap k db' ≡ has_gift_wrap k db
      → ((m : ProcessedInboxMessage) → IsStored m db → IsStored m db')
      → ((m : ProcessedInboxMessage) → IsPending m ts → IsPending m ts' ⊎ IsStored m db')
      → IsKept before db ts k
      → IsKept before db' ts' k
  IsKept-on before db db' ts ts' k e stored pending (inl h) = inl (e ∙ h)
  IsKept-on before db db' ts ts' k e stored pending (inr (inl h)) = inr (inl h)
  IsKept-on before db db' ts ts' k e stored pending (inr (inr (m, f, g, inl h))) =
      inr (inr (m, f, g, pending m h))
  IsKept-on before db db' ts ts' k e stored pending (inr (inr (m, f, g, inr h))) =
      inr (inr (m, f, g, inr (stored m h)))

  -- A inbox_step of a task that holds nothing, and that changes no row.
  pub IsKept-idle :
      (before : String → Bool) (db : ChatDb) (ts : List WrapTask) (i : ℕ) (t u : WrapTask)
      (k : String)
      → get_elem? ts i ≡ some t
      → ((m : ProcessedInboxMessage) → Holds m t → ⊥)
      → IsKept before db ts k
      → IsKept before db (set ts i u) k × IsKept before db (take i ts ++ drop (suc i) ts) k
  IsKept-idle before db ts i t u k e idle h = (
    IsKept-on before db db ts (set ts i u) k refl (λ m s. s)
        (λ m p. elim (IsPending-set m ts i t u e p) [ inl b ↦ absurd (idle m b) | inr q ↦ inl q ])
        h,
    IsKept-on before db db ts (take i ts ++ drop (suc i) ts) k refl (λ m s. s)
        (λ m p. elim (IsPending-finish m ts i t e p) [ inl b ↦ absurd (idle m b) | inr q ↦ inl q ])
        h,
  )
