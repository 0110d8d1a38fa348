-- ===== src/LiveSocket/Tests.antt =====
-- Runs of the socket, and an instance of its theorem.
use sentinelmesh.Common.{[], ◌∷◌, foldl, none, some, ◌≡◌, refl}
use sentinelmesh.Events
use sentinelmesh.Reports
use sentinelmesh.LiveSocket.{Hook, closed, fired, opened, unmounted, on_close, clean_up, step}

-- One open socket.
abbrev hook : Hook
hook = record {
  socket_ref = some 0;
  timer_ref = none;
  retry_count = 0;
  sockets = 0 ∷ [];
  closing = [];
  timers = [];
  next = 1;
  events = Events.initial_state;
  reports = Reports.initial_state;
}

-- A clean close is the end, and so is the clean-up while a timer is set.
clean_close : (foldl step hook (closed 0 1000 ∷ fired 1 ∷ [])).sockets ≡ []
unfolding step on_close Events.reducer
clean_close = refl

timer_cleared : (foldl step hook (closed 0 1006 ∷ unmounted ∷ fired 1 ∷ [])).sockets ≡ []
unfolding step on_close clean_up Events.reducer
timer_cleared = refl

-- A message to a socket that was asked to close is not handled.
not_handled :
    (foldl step hook (unmounted ∷ opened 0 ∷ [])).events.connected ≡ Events.initial_state.connected
unfolding step clean_up
not_handled = refl
