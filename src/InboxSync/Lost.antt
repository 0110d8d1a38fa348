-- ===== src/InboxSync/Lost.antt =====
-- A clean-up between the mark and the store, after which the message is never stored.
use sentinelmesh.Common.{
  ℕ, zero, suc, String, Bool, true, false, not, List, [], ◌∷◌, ◌++◌, none, some, ◌≡◌, refl, sym, ap,
  ◌∙◌, subst, inl, inr, ◌==◌, eqb, arith, eq_iff, eq_refl, if◌then◌else◌, get_elem?, set, take,
  drop, any, includes, Bool-cases, Option-cases,
}
use sentinelmesh.Inbox.{Services, ProcessedInboxMessage, processed, unwrap_message}
use sentinelmesh.ChatStore.{
  ChatDb, Cipher, has_gift_wrap, mark_gift_wrap_seen, encrypt_local_plaintext, put_message,
}
use sentinelmesh.Dm.{DmState}
use sentinelmesh.InboxSync.{
  WrapTask, asking, opening, marking, sealing, saving, InboxWorld, Draw, InboxStep, arrive, advance,
  dispose, finish, go_on, row_of, on_wrap, resume_wrap, inbox_step, run,
}
use sentinelmesh.InboxSync.Storing.{has_gift_wrap-mark, messages-mark, tables-encrypt}

-- A task that does more for the wrap of this id than to ask whether it is marked.
abbrev pub works_on : String → WrapTask → Bool
works_on k (asking wrap) = false
works_on k (opening wrap) = wrap.id == k
works_on k (marking m) = m.wrap_id == k
works_on k (sealing m) = m.wrap_id == k
works_on k (saving m ciphertext) = m.wrap_id == k

-- The wrap is marked, and no task works on it.
abbrev pub IsIgnored : String → InboxWorld → Type 0
IsIgnored k w = (has_gift_wrap k w.db ≡ true) × (any (works_on k) w.tasks ≡ false)

any-set :
    (p : WrapTask → Bool) (ts : List WrapTask) (i : ℕ) (u : WrapTask)
    → p u ≡ false
    → any p ts ≡ false
    → any p (set ts i u) ≡ false
any-set p [] i u h k = refl
any-set p (x ∷ ts) zero u h k = ground (arith, h, k)
any-set p (x ∷ ts) (suc i) u h k = ground (arith, k, any-set p ts i u h)

any_finish :
    (p : WrapTask → Bool) (ts : List WrapTask) (i : ℕ)
    → any p ts ≡ false
    → any p (take i ts ++ drop (suc i) ts) ≡ false
any_finish p [] zero k = refl
any_finish p [] (suc i) k = refl
any_finish p (x ∷ ts) zero k = ground (arith, k)
any_finish p (x ∷ ts) (suc i) k = ground (arith, k, any_finish p ts i)

any_more :
    (p : WrapTask → Bool) (ts : List WrapTask) (u : WrapTask)
    → p u ≡ false
    → any p ts ≡ false
    → any p (ts ++ (u ∷ [])) ≡ false
any_more p [] u h k = ground (arith, h)
any_more p (x ∷ ts) u h k = ground (arith, k, any_more p ts u h)

any_at :
    (p : WrapTask → Bool) (ts : List WrapTask) (i : ℕ) (t : WrapTask)
    → get_elem? ts i ≡ some t
    → any p ts ≡ false
    → p t ≡ false
any_at p [] i t e k = absurd (ground (arith, e))
any_at p (x ∷ ts) zero t e k = ground (arith, e, k)
any_at p (x ∷ ts) (suc i) t e k = any_at p ts i t e (ground (arith, k))

unmarked :
    (db : ChatDb) (j k : String)
    → has_gift_wrap k db ≡ true
    → has_gift_wrap j db ≡ false
    → (j == k) ≡ false
unmarked db j k m n = elim (Bool-cases (j == k)) [
  | inl y ↦ absurd (ground (arith, m, subst (λ x. has_gift_wrap x db ≡ false) ((eq_iff j k).0 y) n))
  | inr d ↦ d
]

still_marked :
    (cipher : Cipher) (draw : Draw) (text k : String) (db : ChatDb)
    → has_gift_wrap k db ≡ true
    → has_gift_wrap k (encrypt_local_plaintext cipher draw.generated draw.iv text db).1 ≡ true
unfolding has_gift_wrap
still_marked cipher draw text k db m = rw ((tables-encrypt cipher draw text db).0, has_gift_wrap) m

put_marked :
    (n : ProcessedInboxMessage) (ciphertext k : String) (db : ChatDb)
    → has_gift_wrap k db ≡ true
    → has_gift_wrap k (put_message (row_of n ciphertext) db) ≡ true
unfolding has_gift_wrap put_message
put_marked n ciphertext k db m = m

IsIgnored-if :
    (k : String) (b : Bool) (v w : InboxWorld)
    → IsIgnored k v
    → IsIgnored k w
    → IsIgnored k (if b then v else w)
IsIgnored-if k true v w g h = g
IsIgnored-if k false v w g h = h

module _ (services : Services) (cipher : Cipher) where
  IsIgnored-resume :
      (k : String) (w : InboxWorld) (i : ℕ) (task : WrapTask) (draw : Draw)
      → get_elem? w.tasks i ≡ some task
      → IsIgnored k w
      → IsIgnored k (resume_wrap services cipher i task draw w)
  unfolding resume_wrap
  IsIgnored-resume k w i (asking wrap) draw e (m, idle) =
      elim (Bool-cases (has_gift_wrap wrap.id w.db)) [
        | inl y ↦ rw y (m, any_finish (works_on k) w.tasks i idle)
        | inr n ↦
            rw n
              (m, any-set (works_on k) w.tasks i (opening wrap) (unmarked w.db wrap.id k m n) idle)
      ]
  IsIgnored-resume k w i (opening wrap) draw e (m, idle) =
      elim (Option-cases (unwrap_message services wrap)) [
        | inl n ↦ rw (n, resume_wrap) (m, any_finish (works_on k) w.tasks i idle)
        | inr (unwrapped, y) ↦
            rw (y, resume_wrap)
              (
                m,
                any-set (works_on k) w.tasks i (marking (processed services wrap unwrapped))
                    (any_at (works_on k) w.tasks i (opening wrap) e idle) idle,
              )
      ]
  IsIgnored-resume k w i (marking n) draw e (m, idle) =
      let marked : has_gift_wrap k (mark_gift_wrap_seen draw.now n.wrap_id w.db).1 ≡ true =
        has_gift_wrap-mark draw.now n.wrap_id k w.db ∙ ground (arith, m) in
      elim (Bool-cases w.disposed) [
        | inl y ↦ rw y (marked, any_finish (works_on k) w.tasks i idle)
        | inr z ↦ rw z (
          marked,
          any-set (works_on k) w.tasks i (sealing n)
              (any_at (works_on k) w.tasks i (marking n) e idle) idle,
        )
      ]
  IsIgnored-resume k w i (sealing n) draw e (m, idle) = (
    still_marked cipher draw n.content k w.db m,
    any-set (works_on k) w.tasks i _ (any_at (works_on k) w.tasks i (sealing n) e idle) idle,
  )
  IsIgnored-resume k w i (saving n ciphertext) draw e (m, idle) =
      (put_marked n ciphertext k w.db m, any_finish (works_on k) w.tasks i idle)

  IsIgnored-step :
      (k : String) (w : InboxWorld) (s : InboxStep)
      → IsIgnored k w
      → IsIgnored k (inbox_step services cipher w s)
  unfolding inbox_step on_wrap
  IsIgnored-step k w (arrive wrap) h = IsIgnored-if k w.disposed w _ h (
      IsIgnored-if k (not (eqb wrap.kind 1059)) w _ h (
        IsIgnored-if k (includes wrap.id w.seen) w _ h
          (h.0, any_more (works_on k) w.tasks (asking wrap) refl h.1)))
  IsIgnored-step k w dispose h = h
  IsIgnored-step k w (advance i draw) h = elim (Option-cases (get_elem? w.tasks i)) [
    | inl n ↦ rw (n, inbox_step) h
    | inr (task, y) ↦ rw (y, inbox_step) (IsIgnored-resume k w i task draw y h)
  ]

  IsIgnored-run :
      (k : String) (steps : List InboxStep) (w : InboxWorld)
      → IsIgnored k w
      → IsIgnored k (run services cipher w steps)
  IsIgnored-run k [] w h = h
  IsIgnored-run k (s ∷ steps) w h =
      IsIgnored-run k steps (inbox_step services cipher w s) (IsIgnored-step k w s h)

  -- The world with the mark, where the effect is disposed.
  abbrev ended_world : InboxWorld → ℕ → ProcessedInboxMessage → Draw → InboxWorld
  ended_world w i m draw =
      finish i (record w { db = (mark_gift_wrap_seen draw.now m.wrap_id w.db).1 })

  ended :
      (w : InboxWorld) (i : ℕ) (m : ProcessedInboxMessage) (draw : Draw)
      → get_elem? w.tasks i ≡ some (marking m)
      → w.disposed ≡ true
      → inbox_step services cipher w (advance i draw) ≡ ended_world w i m draw
  unfolding inbox_step resume_wrap
  ended w i m draw e gone =
      let marked = record w { db = (mark_gift_wrap_seen draw.now m.wrap_id w.db).1 } in
      ap (λ o. elim o [ none ↦ w | some task ↦ resume_wrap services cipher i task draw w ]) e
      ∙ ap (λ b. if b then finish i marked else go_on i (sealing m) marked) gone

  -- Where the effect was cleaned up while a task was writing its mark, the task ends with the wrap marked: its message is not stored and not shown. When the effect is mounted again over this store, whatever wraps arrive and however their tasks are interleaved, no task ever works on that wrap again: the message is lost.
  pub disposed_mark-lost :
      (w : InboxWorld) (i : ℕ) (m : ProcessedInboxMessage) (draw : Draw) (dm : DmState)
      (later : List InboxStep)
      → get_elem? w.tasks i ≡ some (marking m)
      → w.disposed ≡ true
      → let w' = inbox_step services cipher w (advance i draw) in
        (w'.db.messages ≡ w.db.messages)
        × (w'.dm ≡ w.dm)
        × (w'.tasks ≡ take i w.tasks ++ drop (suc i) w.tasks)
        × IsIgnored m.wrap_id (
            run services cipher
              (record { seen = []; db = w'.db; dm = dm; disposed = false; tasks = [] })
              later)
  disposed_mark-lost w i m draw dm later e gone =
      subst
        (λ w'.
          (w'.db.messages ≡ w.db.messages)
          × (w'.dm ≡ w.dm)
          × (w'.tasks ≡ take i w.tasks ++ drop (suc i) w.tasks)
          × IsIgnored m.wrap_id (
              run services cipher
                (record { seen = []; db = w'.db; dm = dm; disposed = false; tasks = [] }) later))
        (sym (ended w i m draw e gone))
        (
          messages-mark draw.now m.wrap_id w.db,
          refl,
          refl,
          IsIgnored-run m.wrap_id later _ (
            has_gift_wrap-mark draw.now m.wrap_id m.wrap_id w.db ∙ rw (eq_refl m.wrap_id) refl,
            refl,
          ),
        )
