-- ===== src/Vault/Newest.antt =====
-- The circle key that is loaded without an epoch is that of the newest one.
use sentinelmesh.Common.{
  ℕ, ◌<◌, ◌≤◌, String, List, [], ◌∷◌, filter, find, Option, none, some, ◌≡◌, refl, ◌⊎◌, ◌==◌, eqb,
  leb, arith, Bool-cases, inl, inr,
}
use sentinelmesh.Vault.{VaultCircle, epoch_of, Browser, IdentityDb, circles_of, load_vault}
use sentinelmesh.Vault.Circles.{insert_newest, newest_first, find_key, load_vault_circle_key}

abbrev find_epoch : ℕ → List VaultCircle → Option VaultCircle
find_epoch e xs = find (λ c. eqb (epoch_of c) e) xs

-- The second list begins with the first circle of the newest epoch in the first, if it has any.
abbrev IsNewest : List VaultCircle → List VaultCircle → Type 0
IsNewest xs [] = (e : ℕ) → find_epoch e xs ≡ none
IsNewest xs (d ∷ ds) =
    (find_epoch (epoch_of d) xs ≡ some d) × ((e : ℕ) → epoch_of d < e → find_epoch e xs ≡ none)

insert_newest-IsNewest :
    (c : VaultCircle) (xs ys : List VaultCircle)
    → IsNewest xs ys
    → IsNewest (c ∷ xs) (insert_newest c ys)
unfolding insert_newest
insert_newest-IsNewest c xs [] h = (ground arith, λ e l. ground (arith, h e))
insert_newest-IsNewest c xs (d ∷ ds) h = elim (Bool-cases (leb (epoch_of d) (epoch_of c))) [
  | inl e ↦ rw (e, insert_newest) (ground arith, λ n l. ground (arith, e, h.1 n))
  | inr e ↦ rw (e, insert_newest) (ground (arith, e, h.0), λ n l. ground (arith, e, h.1 n))
]

newest_first-IsNewest : (xs : List VaultCircle) → IsNewest xs (newest_first xs)
unfolding newest_first
newest_first-IsNewest [] = λ e. refl
newest_first-IsNewest (c ∷ xs) =
    insert_newest-IsNewest c xs (newest_first xs) (newest_first-IsNewest xs)

-- What a lookup with and without an epoch gives in one list of circles.
abbrev FindsNewest : String → List VaultCircle → Type 0
FindsNewest id cs =
    ((find_key id none cs ≡ none) × ((e : ℕ) → find_key id (some e) cs ≡ none))
    ⊎ ((e : ℕ) × (key : List ℕ) × (find_key id none cs ≡ some key)
        × (find_key id (some e) cs ≡ some key)
        × ((n : ℕ) → (n ≤ e) ⊎ (find_key id (some n) cs ≡ none)))

newest_of :
    (id : String) (cs ys : List VaultCircle)
    → newest_first (filter (λ c. c.id == id) cs) ≡ ys
    → IsNewest (filter (λ c. c.id == id) cs) ys
    → FindsNewest id cs
unfolding find_key
newest_of id cs [] e h = inl (rw (e, find_key) refl, λ n. rw (h n, find_key) refl)
newest_of id cs (d ∷ ds) e h = inr (
  epoch_of d,
  d.key,
  rw (e, find_key) refl,
  rw (h.0, find_key) refl,
  λ n. elim (Bool-cases (leb n (epoch_of d))) [
    | inl l ↦ inl (ground arith)
    | inr g ↦ inr (rw (h.1 n (ground arith), find_key) refl)
  ],
)

find_key-newest : (id : String) (cs : List VaultCircle) → FindsNewest id cs
find_key-newest id cs = newest_of id cs _ refl (newest_first-IsNewest (filter (λ c. c.id == id) cs))

-- A circle's key that is loaded without an epoch is the one stored for its newest epoch; there is none exactly if the vault has none for any epoch.
load_vault_circle_key-newest :
    (browser : Browser) (id : String) (db : IdentityDb)
    → ((load_vault_circle_key browser id none db ≡ none)
        × ((e : ℕ) → load_vault_circle_key browser id (some e) db ≡ none))
      ⊎ ((e : ℕ) × (key : List ℕ) × (load_vault_circle_key browser id none db ≡ some key)
          × (load_vault_circle_key browser id (some e) db ≡ some key)
          × ((n : ℕ) → (n ≤ e) ⊎ (load_vault_circle_key browser id (some n) db ≡ none)))
unfolding load_vault_circle_key
load_vault_circle_key-newest browser id db = find_key-newest id (circles_of (load_vault browser db))
