-- ===== src/LiveSocket/Reconnection.antt =====
-- Reconnection after a socket closes.
use sentinelmesh.Common.{ℕ, ◌+◌, ◌<◌, Bool, true, false, List, [], ◌∷◌, some}
use sentinelmesh.Events
use sentinelmesh.LiveSocket.{Hook, SocketStep, opened, closed, fired, unmounted, without, step}

-- All numbers of a list are less than this one.
abbrev pub AllBelow : ℕ → List ℕ → Type 0
AllBelow m [] = Unit
AllBelow m (n ∷ ns) = (n < m) × AllBelow m ns

-- The socket closes, its timer fires, and the next socket opens.
abbrev pub reconnection : Hook → ℕ → ℕ → List SocketStep
reconnection h socket code = closed socket code ∷ fired h.next ∷ opened (h.next + 1) ∷ []

-- After the close event, and after the timer has fired.
abbrev scheduled : Hook → ℕ → Hook
scheduled h socket = record h {
  sockets = without socket h.sockets;
  events = record (h.events) { connected = false };
  retry_count = h.retry_count + 1;
  timer_ref = some h.next;
  timers = h.next ∷ h.timers;
  next = h.next + 1;
}

abbrev reopening : Hook → ℕ → Hook
reopening h socket = record (scheduled h socket) {
  timers = without h.next (h.next ∷ h.timers);
  socket_ref = some (h.next + 1);
  sockets = (h.next + 1) ∷ without socket h.sockets;
  next = h.next + 1 + 1;
}

-- What is left of the hook when the component goes away, or the hook itself.
abbrev pub perhaps_unmounted : Bool → Hook → Hook
perhaps_unmounted true h = step h unmounted
perhaps_unmounted false h = h
