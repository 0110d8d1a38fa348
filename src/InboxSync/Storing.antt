-- ===== src/InboxSync/Storing.antt =====
-- What marking a wrap, encrypting its message and storing it do to the messages that are kept.
use sentinelmesh.Common.{
  ℕ, suc, String, Bool, true, List, ◌++◌, some, ◌≡◌, refl, ap, sym, ◌∙◌, subst, ◌⊎◌, inl, inr, ◌==◌,
  arith, eq_iff, if◌then◌else◌, get_elem?, set, take, drop, find_by, Bool-cases, Option-cases,
}
use sentinelmesh.Inbox.{Services, ProcessedInboxMessage}
use sentinelmesh.ChatStore.{
  ChatDb, Cipher, has_gift_wrap, mark_gift_wrap_seen, encrypt_local_plaintext,
  get_or_create_encryption_key, put_message,
}
use sentinelmesh.ChatStore.Tables.{find_by-put_row}
use sentinelmesh.InboxSync.{WrapTask, marking, sealing, saving, Draw, row_of}
use sentinelmesh.InboxSync.Pending.{
  IsGenuine, IsSealed, IsStored, IsKept, IsPending-set, IsPending-new, IsPending-finish, IsKept-on,
}

pub has_gift_wrap-mark :
    (now : ℕ) (id k : String) (db : ChatDb)
    → has_gift_wrap k (mark_gift_wrap_seen now id db).1
      ≡ (if id == k then true else has_gift_wrap k db)
unfolding has_gift_wrap mark_gift_wrap_seen
has_gift_wrap-mark now id k db = elim (Option-cases (find_by (λ w. w.id) id db.gift_wraps)) [
  | inl e ↦
      rw
        (
          e,
          mark_gift_wrap_seen,
          has_gift_wrap,
          find_by-put_row (λ w. w.id) k (record { id = id; seen_at = now }) db.gift_wraps,
        )
        (elim (Bool-cases (id == k)) [ inl y ↦ rw y refl | inr n ↦ rw n refl ])
  | inr (row, e) ↦
      rw (e, mark_gift_wrap_seen)
        (elim (Bool-cases (id == k)) [
          | inl y ↦ rw y (
              subst (λ j. has_gift_wrap j db ≡ true) ((eq_iff id k).0 y)
                (rw (e, has_gift_wrap) refl))
          | inr n ↦ rw n refl
        ])
]

pub messages-mark :
    (now : ℕ) (id : String) (db : ChatDb) → (mark_gift_wrap_seen now id db).1.messages ≡ db.messages
unfolding mark_gift_wrap_seen
messages-mark now id db = elim (Option-cases (find_by (λ w. w.id) id db.gift_wraps)) [
  | inl e ↦ rw (e, mark_gift_wrap_seen) refl
  | inr (row, e) ↦ rw (e, mark_gift_wrap_seen) refl
]

pub tables-encrypt :
    (cipher : Cipher) (draw : Draw) (text : String) (db : ChatDb)
    → ((encrypt_local_plaintext cipher draw.generated draw.iv text db).1.gift_wraps ≡ db.gift_wraps)
      × ((encrypt_local_plaintext cipher draw.generated draw.iv text db).1.messages ≡ db.messages)
unfolding encrypt_local_plaintext get_or_create_encryption_key
tables-encrypt cipher draw text db = elim (Option-cases db.encryption_key) [
  | inl e ↦ (ground (arith, e), ground (arith, e))
  | inr (key, e) ↦ (ground (arith, e), ground (arith, e))
]

module _ (services : Services) (cipher : Cipher) where
  -- The mark is written while the message goes on to be stored.
  pub IsKept-marking :
      (before : String → Bool) (now : ℕ) (db : ChatDb) (ts : List WrapTask) (i : ℕ)
      (m : ProcessedInboxMessage) (k : String)
      → get_elem? ts i ≡ some (marking m)
      → IsGenuine services cipher m
      → IsKept services cipher before db ts k
      → IsKept services cipher before
          (mark_gift_wrap_seen now m.wrap_id db).1
          (set ts i (sealing m))
          k
  IsKept-marking before now db ts i m k e g h = elim (Bool-cases (m.wrap_id == k)) [
    | inl y ↦ inr (
        inr (
          m,
          (eq_iff m.wrap_id k).0 y,
          g,
          inl (IsPending-new m ts i (marking m) (sealing m) e refl),
        ))
    | inr n ↦
        IsKept-on services cipher before db (mark_gift_wrap_seen now m.wrap_id db).1 ts
          (set ts i (sealing m)) k (has_gift_wrap-mark now m.wrap_id k db ∙ rw n refl)
          (λ x (n, c, o, g, q, f). (
            n,
            c,
            o,
            g,
            q,
            ap (find_by (λ r. r.id) x.rumor_id) (messages-mark now m.wrap_id db) ∙ f,
          ))
          (λ x p. elim (IsPending-set x ts i (marking m) (sealing m) e p) [
            | inl b ↦ elim b [ ]
            | inr q ↦ inl q
          ])
          h
  ]

  pub IsKept-sealing :
      (before : String → Bool) (draw : Draw) (db : ChatDb) (ts : List WrapTask) (i : ℕ)
      (m : ProcessedInboxMessage) (ciphertext : String) (k : String)
      → get_elem? ts i ≡ some (sealing m)
      → IsKept services cipher before db ts k
      → IsKept services cipher before
          (encrypt_local_plaintext cipher draw.generated draw.iv m.content db).1
          (set ts i (saving m ciphertext))
          k
  unfolding has_gift_wrap
  IsKept-sealing before draw db ts i m ciphertext k e h =
      let (wraps, messages) = tables-encrypt cipher draw m.content db in
      IsKept-on services cipher before db
        (encrypt_local_plaintext cipher draw.generated draw.iv m.content db).1 ts
        (set ts i (saving m ciphertext)) k (rw (wraps, has_gift_wrap) refl)
        (λ x (n, c, o, g, q, f). (n, c, o, g, q, ap (find_by (λ r. r.id) x.rumor_id) messages ∙ f))
        (λ x p. elim (IsPending-set x ts i (sealing m) (saving m ciphertext) e p) [
          | inl same ↦ inl (IsPending-new x ts i (sealing m) (saving m ciphertext) e same)
          | inr p' ↦ inl p'
        ])
        h

  IsStored-put :
      (x m : ProcessedInboxMessage) (ciphertext : String) (db : ChatDb)
      → IsGenuine services cipher m
      → IsSealed services cipher m ciphertext
      → (x ≡ m) ⊎ IsStored services cipher x db
      → IsStored services cipher x (put_message (row_of m ciphertext) db)
  unfolding put_message
  IsStored-put x m ciphertext db g q (inl same) = (
    m,
    ciphertext,
    ap (λ n. n.rumor_id) (sym same),
    g,
    q,
    find_by-put_row (λ r. r.id) x.rumor_id (row_of m ciphertext) db.messages
        ∙ ground (arith, eq_iff m.rumor_id x.rumor_id, ap (λ n. n.rumor_id) same),
  )
  IsStored-put x m ciphertext db g q (inr (n, c, o, g', q', f)) =
      elim (Bool-cases (m.rumor_id == x.rumor_id)) [
        | inl y ↦ (
          m,
          ciphertext,
          (eq_iff m.rumor_id x.rumor_id).0 y,
          g,
          q,
          find_by-put_row (λ r. r.id) x.rumor_id (row_of m ciphertext) db.messages ∙ rw y refl,
        )
        | inr y ↦ (
          n,
          c,
          o,
          g',
          q',
          find_by-put_row (λ r. r.id) x.rumor_id (row_of m ciphertext) db.messages ∙ rw y f,
        )
      ]

  pub IsKept-saving :
      (before : String → Bool) (db : ChatDb) (ts : List WrapTask) (i : ℕ)
      (m : ProcessedInboxMessage) (ciphertext : String) (k : String)
      → get_elem? ts i ≡ some (saving m ciphertext)
      → IsGenuine services cipher m
      → IsSealed services cipher m ciphertext
      → IsKept services cipher before db ts k
      → IsKept services cipher before
          (put_message (row_of m ciphertext) db)
          (take i ts ++ drop (suc i) ts)
          k
  unfolding has_gift_wrap put_message
  IsKept-saving before db ts i m ciphertext k e g q h =
      IsKept-on services cipher before db (put_message (row_of m ciphertext) db) ts
        (take i ts ++ drop (suc i) ts) k refl (λ x s. IsStored-put x m ciphertext db g q (inr s))
        (λ x p. elim (IsPending-finish x ts i (saving m ciphertext) e p) [
          | inl same ↦ inr (IsStored-put x m ciphertext db g q (inl same))
          | inr p' ↦ inl p'
        ])
        h
