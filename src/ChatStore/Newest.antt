-- ===== src/ChatStore/Newest.antt =====
-- The page that is read: it is reached, and it holds the newest messages of the conversation.
use sentinelmesh.Common.{
  ℕ, zero, suc, ◌+◌, ◌-◌, ◌≤◌, ◌<◌, String, Bool, true, false, ◌&&◌, List, [], ◌∷◌, ◌++◌, map,
  Option, none, some, ◌==◌, ◌≡◌, refl, sym, ap, ◌∙◌, ◌⊎◌, inl, inr, leb, str_lt, arith, eq_iff,
  filter, length, find_by, keep_if, Distinct, get_or, Bool-cases, Option-cases, str_lt_total,
  str_lt-empty, find_by-filter, length-filter-le, subst, length-append, Distinct-filter,
}
use mathlib.Core.List.{append_assoc, append-nil}
use sentinelmesh.ChatStore.Tables.{Ascending, Ascending-Distinct}
use sentinelmesh.ChatStore.Cursors.{
  StoredMessage, in_range, is_before, greatest, open_cursor, continue, read_on, list_messages,
  greatest_time,
}
use sentinelmesh.ChatStore.Order.{
  is_before_irrefl, greatest_found, nothing_greatest, greatest_max, shorter,
}

-- Each message is newer than the messages after it.
abbrev pub IsOlder : StoredMessage → List StoredMessage → Type 0
IsOlder m [] = Unit
IsOlder m (x ∷ xs) = (is_before m x ≡ true) × IsOlder m xs

abbrev pub IsNewer : StoredMessage → List StoredMessage → Type 0
IsNewer m [] = Unit
IsNewer m (x ∷ xs) = (is_before x m ≡ true) × IsNewer m xs

abbrev pub NewestFirst : List StoredMessage → Type 0
NewestFirst [] = Unit
NewestFirst (x ∷ xs) = IsNewer x xs × NewestFirst xs

-- A row that may be missing is older than all of these.
abbrev pub IsLeft : Option StoredMessage → List StoredMessage → Type 0
IsLeft none page = Unit
IsLeft (some m) page = IsOlder m page

-- The row under an id, which may be missing, is on a page of at most so many rows; or it is not, the
-- page is full, and the row is older than all of it.
abbrev pub IsPaged : ℕ → List StoredMessage → String → Option StoredMessage → Type 0
IsPaged limit page k row =
    (find_by (λ m. m.id) k page ≡ row)
    ⊎ ((length page ≡ limit) × (find_by (λ m. m.id) k page ≡ none) × IsLeft row page)

-- The page that goes on from the rows that are still to be shown.
record Goes (limit : ℕ) (ahead page : List StoredMessage) : Type 0 where
  newest_first : NewestFirst page
  bounded : length page ≤ limit
  paged : (k : String) → IsPaged limit page k (find_by (λ m. m.id) k ahead)
  newer : (m : StoredMessage) → IsNewer m ahead → IsNewer m page

newer_filter :
    (m : StoredMessage) (p : StoredMessage → Bool) (xs : List StoredMessage)
    → IsNewer m xs
    → IsNewer m (filter p xs)
newer_filter m p [] h = tt
newer_filter m p (x ∷ xs) h = ground (arith, newer_filter m p xs)

newer_continue : (m : StoredMessage) (xs : List StoredMessage) → IsNewer m (continue m xs)
newer_continue m [] = tt
newer_continue m (x ∷ xs) = ground (arith, newer_continue m xs)

newer_greatest :
    (n m : StoredMessage) (xs : List StoredMessage)
    → IsNewer n xs
    → greatest xs ≡ some m
    → is_before m n ≡ true
unfolding greatest
newer_greatest n m [] h e = absurd (ground arith)
newer_greatest n m (x ∷ xs) h e = elim (Option-cases (greatest xs)) [
  | inl f ↦ ground (arith, f)
  | inr (y, f) ↦ ground (arith, f, newer_greatest n y xs)
]

nothing-IsLeft : (o : Option StoredMessage) → IsLeft o []
nothing-IsLeft none = tt
nothing-IsLeft (some m) = tt

Goes-nowhere : (limit : ℕ) (ahead : List StoredMessage) → limit ≡ 0 → Goes limit ahead []
Goes-nowhere limit ahead e = record {
  newest_first = tt;
  bounded = omega arith;
  paged = λ k. inr (omega (arith, e), refl, nothing-IsLeft (find_by (λ m. m.id) k ahead));
  newer = λ m h. tt;
}

IsPaged-cons :
    (limit : ℕ) (page : List StoredMessage) (m : StoredMessage) (k : String)
    (row : Option StoredMessage)
    → (m.id == k) ≡ false
    → IsLeft row (m ∷ [])
    → IsPaged limit page k row
    → IsPaged (suc limit) (m ∷ page) k row
IsPaged-cons limit page m k row n older (inl f) = inl (rw n f)
IsPaged-cons limit page m k none n older (inr (e, f, left)) = inr (ap suc e, rw n f, tt)
IsPaged-cons limit page m k (some x) n older (inr (e, f, left)) =
    inr (ap suc e, rw n f, (older.0, left))

-- The row that is shown next stands before the page that goes on from the rest.
IsPaged-next :
    (limit : ℕ) (ahead page : List StoredMessage) (m : StoredMessage) (k : String)
    → Distinct (map (λ x. x.id) ahead)
    → greatest ahead ≡ some m
    → IsPaged limit page k (find_by (λ x. x.id) k (continue m ahead))
    → IsPaged (suc limit) (m ∷ page) k (find_by (λ x. x.id) k ahead)
IsPaged-next limit ahead page m k d g h = elim (Bool-cases (m.id == k)) [
  | inl y ↦ inl (
      rw y (
        sym (
          subst (λ j. find_by (λ x. x.id) j ahead ≡ some m) ((eq_iff m.id k).0 y)
            (greatest_found ahead m d g))))
  | inr n ↦ elim (Option-cases (find_by (λ x. x.id) k ahead)) [
    | inl f ↦
        let e : find_by (λ x. x.id) k (continue m ahead) ≡ none =
          find_by-filter (λ x. x.id) (λ x. is_before x m) k ahead d ∙ rw f refl in
        rw f (IsPaged-cons limit page m k none n tt (subst (λ o. IsPaged limit page k o) e h))
    | inr (x, f) ↦
        let older : is_before x m ≡ true = ground (arith, greatest_max ahead m k x d g f, n) in
        let e : find_by (λ x. x.id) k (continue m ahead) ≡ some x =
          find_by-filter (λ x. x.id) (λ x. is_before x m) k ahead d ∙ rw (f, older) refl in
        rw f (
          IsPaged-cons limit page m k (some x) n (older, tt)
            (subst (λ o. IsPaged limit page k o) e h))
  ]
]

Goes-on :
    (limit : ℕ) (ahead page : List StoredMessage) (m : StoredMessage)
    → Distinct (map (λ x. x.id) ahead)
    → greatest ahead ≡ some m
    → Goes limit (continue m ahead) page
    → Goes (suc limit) ahead (m ∷ page)
Goes-on limit ahead page m d g h = record {
  newest_first = (h.newer m (newer_continue m ahead), h.newest_first);
  bounded = omega (arith, h.bounded);
  paged = λ k. IsPaged-next limit ahead page m k d g (h.paged k);
  newer = λ n b.
      (newer_greatest n m ahead b g, h.newer n (newer_filter n (λ x. is_before x m) ahead b));
}

Goes-empty : (limit : ℕ) → Goes limit [] []
Goes-empty limit = record {
  newest_first = tt;
  bounded = omega arith;
  paged = λ k. inl refl;
  newer = λ m h. tt;
}

read_on-Goes :
    (fuel limit room : ℕ) (ahead results : List StoredMessage)
    → Distinct (map (λ x. x.id) ahead)
    → length ahead < fuel
    → length results + room ≡ limit
    → (page : List StoredMessage) × (read_on fuel limit ahead results ≡ some (results ++ page))
      × Goes room ahead page
unfolding read_on
read_on-Goes zero limit room ahead results d f l = absurd (omega (arith, f))
read_on-Goes (suc fuel) limit room ahead results d f l = elim (Option-cases (greatest ahead)) [
  | inl e ↦ (
    [],
    rw (e, read_on, append-nil results) refl,
    subst (λ xs. Goes room xs []) (sym (nothing_greatest ahead e)) (Goes-empty room),
  )
  | inr (m, e) ↦ elim (Bool-cases (leb limit (length results))) [
    | inl full ↦ (
      [],
      rw (e, full, read_on, append-nil results) refl,
      Goes-nowhere room ahead (ground (arith, full, l)),
    )
    | inr short ↦
        let (page, read, goes) =
          read_on-Goes fuel limit (room - 1) (continue m ahead) (results ++ (m ∷ []))
            (Distinct-filter (λ x. x.id) (λ x. is_before x m) ahead d)
            (omega (
              arith,
              f,
              shorter (λ x. is_before x m) m.id ahead m (greatest_found ahead m d e)
                  (is_before_irrefl m),
            ))
            (ground (arith, short, l, length-append results (m ∷ []))) in
        let e' : suc (room - 1) ≡ room = ground (arith, short, l) in
        (
          m ∷ page,
          rw (e, short, read_on) (read ∙ ap some (append_assoc results (m ∷ []) page)),
          subst (λ n. Goes n ahead (m ∷ page)) e' (Goes-on (room - 1) ahead page m d e goes),
        )
  ]
]

-- An id that the range's upper bound does not cut off, such as a hexadecimal one.
abbrev pub AreIds : List StoredMessage → Type 0
AreIds [] = Unit
AreIds (m ∷ ms) = (str_lt "\u{ffff}" m.id ≡ false) × AreIds ms

-- A message of the conversation that is no newer than asked for.
abbrev pub is_listed : String → ℕ → StoredMessage → Bool
is_listed conversation_id before m = m.conversation_id == conversation_id && leb m.created_at before

in_range-listed :
    (conversation_id : String) (before : ℕ) (m : StoredMessage)
    → str_lt "\u{ffff}" m.id ≡ false
    → in_range conversation_id before m ≡ is_listed conversation_id before m
unfolding in_range
in_range-listed conversation_id before m h = ground (
  arith,
  h,
  eq_iff m.conversation_id conversation_id,
  eq_iff conversation_id m.conversation_id,
  str_lt-empty m.id,
  str_lt_total m.conversation_id conversation_id,
)

filter-listed :
    (conversation_id : String) (before : ℕ) (rows : List StoredMessage)
    → AreIds rows
    → open_cursor rows conversation_id before ≡ filter (is_listed conversation_id before) rows
filter-listed conversation_id before [] h = refl
filter-listed conversation_id before (m ∷ rows) h = ground (
  arith,
  in_range-listed conversation_id before m h.0,
  filter-listed conversation_id before rows h.1,
)

-- For rows in the order of their ids, where no id lies beyond U+FFFF, and for any limit and any time, or 200 and the greatest safe integer where they are not given: the reading by cursor ends, after fewer steps than there are rows and two more, and its page is ordered from the newest message to the oldest and no longer than the limit. Under every id the page has the row of that id if it is of the conversation and not after the time, and no row if it is not; only where the page is as long as the limit it may lack such a row, which is then older than every message of the page.
pub list_messages-newest :
    (fuel : ℕ) (rows : List StoredMessage) (conversation_id : String) (limit before : Option ℕ)
    → Ascending (λ m. m.id) rows
    → AreIds rows
    → length rows < fuel
    → (page : List StoredMessage) × (list_messages fuel rows conversation_id limit before
        ≡ some page)
      × NewestFirst page
      × (length page ≤ get_or 200 limit)
      × ((k : String)
          → IsPaged (get_or 200 limit) page k (
              keep_if
                (is_listed conversation_id (get_or greatest_time before))
                (find_by (λ m. m.id) k rows)))
unfolding list_messages
list_messages-newest fuel rows conversation_id limit before a ids enough =
    let p = is_listed conversation_id (get_or greatest_time before) in
    let d = Ascending-Distinct (λ m. m.id) rows a in
    let (page, read, goes) =
      read_on-Goes fuel (get_or 200 limit) (get_or 200 limit) (filter p rows) []
        (Distinct-filter (λ m. m.id) p rows d) (omega (arith, enough, length-filter-le p rows))
        (omega arith) in
    (
      page,
      rw (filter-listed conversation_id (get_or greatest_time before) rows ids) read,
      goes.newest_first,
      goes.bounded,
      λ k.
          subst (λ o. IsPaged (get_or 200 limit) page k o) (find_by-filter (λ m. m.id) p k rows d)
            (goes.paged k),
    )
