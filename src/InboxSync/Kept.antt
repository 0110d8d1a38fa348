-- ===== src/InboxSync/Kept.antt =====
-- What becomes of the messages of marked wraps while the effect is mounted.
use sentinelmesh.Common.{false, []}
use sentinelmesh.ChatStore.{ChatDb}
use sentinelmesh.InboxSync.{InboxWorld}
use sentinelmesh.Dm.{DmState}

-- The world when the effect has just run.
abbrev pub mounted : ChatDb → DmState → InboxWorld
mounted db dm = record { seen = []; db = db; dm = dm; disposed = false; tasks = [] }
