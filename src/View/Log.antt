-- ===== src/View/Log.antt =====
-- The log of safety events, latest first (apps/pwa/src/store/safetyLogSlice.ts).
use sentinelmesh.Common.{ℕ, String, List, [], ◌∷◌, ltb, if◌then◌else◌, length}

pub data EntryType : Type 0 where
  proximity acoustic route : EntryType

-- `entry_type` is the source's `type`.
pub record SafetyLogEntry : Type 0 where
  pub entry_type : EntryType
  pub label : String
  pub timestamp : ℕ

-- `entries.pop()`
abbrev pub pop {ℓ} : {A : Type ℓ} → List A → List A
pop [] = []
pop (x ∷ []) = []
pop (x ∷ y ∷ ys) = x ∷ pop (y ∷ ys)

-- The slice's state is its `entries`.
unfoldable pub log_safety_event : List SafetyLogEntry → SafetyLogEntry → List SafetyLogEntry
log_safety_event entries entry =
    let next = entry ∷ entries in if ltb 100 (length next) then pop next else next
